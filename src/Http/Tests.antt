-- ===== src/Http/Tests.antt =====
-- Runs of the wire formats on concrete input, and instances of their theorems.
use proxy_py.Base.{
  ℕ, zero, suc, ◌^◌, ◌≡◌, refl, ap, ◌↔◌, inl, true, none, some, [], ◌∷◌, ◌++◌, arith, ltb,
  if◌then◌else◌, same, Bytes, length, value_error, struct_error, ok, raise,
}
use proxy_py.Base.Int.{pos, negsuc}
use proxy_py.Bytes.{codes, crlf}
use proxy_py.Number.{int_of, digits}
use proxy_py.Number.RoundTrip.{int_of-digits}
use proxy_py.Http.Chunk.{new_parser, to_chunks}
use proxy_py.Http.Chunk
use proxy_py.Http.Chunk.RoundTrip.{parse-to_chunks, done, between}
use proxy_py.Http.Chunk.Termination.{GetsStuck, parse-none_iff, Diverges}
use proxy_py.Http.Chunk.Segments.{parse-split_delimiter}
use proxy_py.Http.Url.{Url, to_text, from_bytes, is_in}
use proxy_py.Http.Url.RoundTrip.{url_of, IsPlain, from_bytes-to_text}
use proxy_py.Bytes.Utf8.{is_utf8}
use proxy_py.Http.Websocket
use proxy_py.Http.Websocket.{Frame, new_frame, build, text}
use proxy_py.Http.Websocket.RoundTrip.{IsWire, received, parse-build, build_large}

numbers :
    (int_of 10 (codes " -12\r") ≡ ok (negsuc 11))
    × (int_of 16 (codes "0x_fF") ≡ ok (pos 255))
    × (int_of 10 (codes "1__0") ≡ raise value_error)
    × (digits 16 131072 ≡ codes "20000")
unfolding int_of digits
numbers = (refl, refl, refl, refl)

int_of-digits_example : int_of 16 (digits 16 131072) ≡ ok (pos 131072)
int_of-digits_example = int_of-digits 16 131072 (omega arith) (omega arith)

chunked : to_chunks (codes "hello") 3 ≡ ok (codes "3\r\nhel\r\n2\r\nlo\r\n0\r\n\r\n")
unfolding to_chunks digits
chunked = refl

parse-to_chunks_example :
    Chunk.parse new_parser (codes "3\r\nhel\r\n2\r\nlo\r\n0\r\n\r\n" ++ codes "GET")
    ≡ some (ok (done (codes "hello"), codes "GET"))
parse-to_chunks_example = parse-to_chunks (codes "hello") (codes "GET") _ 3 chunked

parse-none_iff_example :
    (Diverges new_parser (codes "-1\r\nx") ↔ GetsStuck new_parser (codes "-1\r\nx"))
    × (Chunk.parse new_parser (codes "-1\r\nx") ≡ none ↔ GetsStuck new_parser (codes "-1\r\nx"))
parse-none_iff_example = parse-none_iff new_parser (codes "-1\r\nx") tt

parse-split_delimiter_example :
    (Chunk.parse new_parser (digits 16 2 ++ (crlf ++ codes "hi"))
      ≡ some (ok (between (codes "hi"), [])))
    × (Chunk.parse (between (codes "hi")) (crlf ++ codes "0\r\n\r\n")
        ≡ some (ok (record (between (codes "hi")) { chunk = codes "0\r\n\r\n" }, [])))
parse-split_delimiter_example = parse-split_delimiter (codes "hi") (codes "0\r\n\r\n") (λ e. cc e)

minus_one : int_of 16 (codes "-1") ≡ ok (negsuc 0)
unfolding int_of
minus_one = refl

abbrev hello : Frame
hello = record new_frame {
  fin = true;
  opcode = 1;
  masked = true;
  mask = some (1 ∷ 2 ∷ 3 ∷ 4 ∷ []);
  data_bytes = some (codes "hello");
}

hello-IsWire : IsWire [] (codes "hello") hello
hello-IsWire = record {
  opcode_fits = omega arith;
  payload = refl;
  payload-ne-nil = λ e. cc e;
  payload_fits = omega arith;
  payload-IsBytes = omega arith;
  sized = inl refl;
  mask_length = refl;
  mask-IsBytes = omega arith;
}

parse-build_example :
    (raw : Bytes) × (build [] hello ≡ ok (record hello { payload_length = some 5 }, raw))
    × (Websocket.parse new_frame (raw ++ codes "next")
        ≡ ok (received [] (codes "hello") hello, codes "next"))
parse-build_example = parse-build [] (codes "hello") (codes "next") hello hello-IsWire

zeros : ℕ → Bytes
zeros zero = []
zeros (suc n) = 0 ∷ zeros n

length-zeros : (n : ℕ) → length (zeros n) ≡ n
unfolding zeros
length-zeros zero = refl
length-zeros (suc n) = ap suc (length-zeros n)

abbrev big_frame : Frame
big_frame = record new_frame { fin = true; opcode = 2; data_bytes = some (zeros 65536) }

build_large_example :
    build [] big_frame
    ≡ raise (if ltb (length (zeros 65536)) (2 ^ 64) then struct_error else value_error)
build_large_example =
    build_large [] (zeros 65536) big_frame (omega arith) refl refl
      (rw (length-zeros 65536) (omega arith))

abbrev example_url : Url
example_url = url_of (codes "http") (codes "example.com") (some 8080) (some (codes "a?b=c"))

example-IsPlain :
    IsPlain none (codes "http") (codes "example.com") (some 8080) (some (codes "a?b=c"))
unfolding is_in is_utf8 same
example-IsPlain = record {
  scheme_allowed = refl;
  scheme-ne-nil = λ e. cc e;
  scheme-IsName = omega arith;
  scheme-is_utf8 = refl;
  host-ne-nil = λ e. cc e;
  host-IsName = omega arith;
  host-is_utf8 = refl;
  port-ne-zero = λ e. cc e;
  path-is_utf8 = refl;
}

from_bytes-to_text_example :
    (to_text example_url ≡ ok (codes "http://example.com:8080/a?b=c"))
    × (from_bytes (codes "http://example.com:8080/a?b=c") none ≡ ok example_url)
unfolding digits
from_bytes-to_text_example =
    from_bytes-to_text none (codes "http") (codes "example.com") (some 8080) (some (codes "a?b=c"))
      example-IsPlain
