-- ===== src/Http/Parser/Tests.antt =====
-- Runs of the parser on concrete input, and instances of the theorems on messages.
use proxy_py.Base.{
  bytes_eq, ◌≡◌, refl, ◌⊎◌, Bool, true, false, Option, none, some, [], ◌∷◌, ◌++◌, arith, same,
  Bytes, Run, then_run, Result, ok,
}
use proxy_py.Base.Int.{pos}
use proxy_py.Bytes.{codes, crlf, cut, split_max, is_space, strip, lower}
use proxy_py.Number.{int_of}
use proxy_py.Dict.{get, put}
use proxy_py.Http.Message.{
  rcving_headers, Message, empty_message, request_parser, headers_complete, complete, header,
  add_header, update_body, set_url, line_rcvd,
}
use proxy_py.Http.Url.{from_bytes}
use proxy_py.Http.Parser.{
  is_state, process_line, process_headers, process_header, settle, parse, content_length, unread,
}
use proxy_py.Http.Parser.Body.{received, reads_body}
use proxy_py.Http.Parser.Reads.{parse_all, parse_all-body}
use proxy_py.Http.Parser.Swallowed.{Ends, Unfinished, parse_all-Unfinished}
use proxy_py.Http.Parser.Overdue.{parse-overdue}
use proxy_py.Http.Packet.{Fields, header_lines}
use proxy_py.Http.Packet.RoundTrip.{process_headers-header_lines, add_fields}
use proxy_py.Http.Parser.Update.{update_body-Framed, Framed}

-- A request whose head has been read.
abbrev posted : Bytes → Message
posted size = record (empty_message request_parser none) {
  state = headers_complete;
  headers = some ((codes "content-length", (codes "Content-Length", size)) ∷ []);
  content_expected = true;
}

posted_length : content_length (posted (codes "5")) ≡ ok (pos 5)
unfolding content_length header int_of get same lower
posted_length = refl

parse_all-body_example :
    parse_all 2 (posted (codes "5")) (codes "he" ∷ codes "llo" ∷ []) none
    ≡ some (ok (received (posted (codes "5")) (codes "hello") 5 complete []))
unfolding reads_body
parse_all-body_example =
    parse_all-body 0 (codes "he" ∷ codes "llo" ∷ []) (posted (codes "5")) 5 none
      ((refl, refl, posted_length), refl, refl, omega arith) ((λ e. cc e), ((λ e. cc e), tt)) refl

replaced_length : content_length (posted (codes "0")) ≡ ok (pos 0)
unfolding content_length header int_of get same lower
replaced_length = refl

parse-overdue_example : parse 100 (posted (codes "0")) (codes "x") none ≡ none
unfolding reads_body
parse-overdue_example =
    parse-overdue 100 (posted (codes "0")) (pos 0) (codes "x") none
      ((refl, refl, replaced_length), refl, (refl, refl), λ e. cc e) refl

expects : Run Message → Option (Bool × Result Bytes)
expects (some (ok m)) = some (m.content_expected, header m (codes "content-length"))
expects _ = none

-- The head of such a request is taken as it is.
replaced_head :
    expects (
      parse 4
        (empty_message request_parser none)
        (codes "POST / HTTP/1.1\r\nContent-Length: 5\r\nContent-Length: 0\r\n\r\n")
        none)
    ≡ some (true, ok (codes "0"))
unfolding expects parse header is_state process_line cut split_max set_url from_bytes
    process_headers strip process_header same lower int_of settle add_header get put
replaced_head = refl

-- No compression.
plain : Bytes → Bytes
plain b = b

update_body-Framed_example :
    (m : Message) × (b : Bytes) × (update_body plain
        (posted (codes "5"))
        (codes "hi")
        (codes "text/plain")
      ≡ ok m)
    × ((b ≡ codes "hi") ⊎ (b ≡ plain (codes "hi")))
    × Framed false m b
update_body-Framed_example =
    update_body-Framed plain (posted (codes "5")) (codes "hi") (codes "text/plain") (tt, tt)

abbrev two_fields : Fields
two_fields = (codes "Host", codes "a") ∷ (codes "Via", codes "b") ∷ []

process_headers-header_lines_example :
    process_headers
      (record (empty_message request_parser none) { state = line_rcvd })
      (header_lines two_fields ++ (crlf ++ codes "hi"))
    ≡ then_run
        (some (
          add_fields (record (empty_message request_parser none) { state = line_rcvd }) two_fields))
        (λ m. unread (record m { state = headers_complete }) (codes "hi"))
unfolding is_space strip
process_headers-header_lines_example =
    process_headers-header_lines two_fields
      (record (empty_message request_parser none) { state = line_rcvd }) (codes "hi")
      (
        (
          ((λ e. cc e), (refl, (refl, (refl, (refl, tt)))), omega arith, omega arith),
          (omega arith, refl),
        ),
        (
          (
            ((λ e. cc e), (refl, (refl, (refl, tt))), omega arith, omega arith),
            (omega arith, refl),
          ),
          tt,
        ),
      )
      refl

-- A request whose next line is the blank one.
abbrev asked : Message
asked = record (empty_message request_parser none) {
  state = rcving_headers;
  method = some (codes "GET");
}

abbrev asked_all : Message
asked_all = record asked { state = headers_complete; total_size = 6 }

asked-Ends : Ends asked asked_all (crlf ++ codes "more") (codes "more")
unfolding process_headers cut strip is_state
asked-Ends = record {
  reads_headers = refl;
  unbuffered = refl;
  is_there = λ e. cc e;
  ends = refl;
  complete_headers = refl;
  unannounced = (refl, refl);
  stays = refl;
  is_behind = λ e. cc e;
}

parse_all-Unfinished_example :
    Unfinished
      (codes "b")
      (parse_all 3 asked ((crlf ++ codes "more") ∷ codes "a" ∷ codes "b" ∷ []) none)
parse_all-Unfinished_example =
    parse_all-Unfinished 1 asked asked_all (crlf ++ codes "more") (codes "more")
      (codes "a" ∷ codes "b" ∷ []) none asked-Ends ((λ e. cc e), ((λ e. cc e), tt))
