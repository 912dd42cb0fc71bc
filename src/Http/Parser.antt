-- ===== src/Http/Parser.antt =====
-- `HttpParser.parse` of proxy/http/parser/parser.py, and what it calls.
pub mod Body
pub mod Reads
pub mod Swallowed
pub mod Overdue
pub mod Update
mod Tests
use proxy_py.Base.{
  ℕ, zero, suc, ◌+◌, Bool, true, false, not, ◌&&◌, ◌||◌, Option, none, some, List, [], ◌∷◌, ◌++◌,
  if◌then◌else◌, same, Bytes, length, ◌>>=◌, Run, then_run, Result, index_error, http_protocol, ok,
  raise,
}
use proxy_py.Base.Int.{minus_ℕ, equals_ℕ, is_positive, slice_to, slice_from, ℤ}
use proxy_py.Bytes.{codes, crlf, cut, split_max, is_empty, strip, lower}
use proxy_py.Number.{int_of, start}
use proxy_py.Http.Chunk
use proxy_py.Http.Chunk.{ChunkParser, new_parser, complete}
use proxy_py.Http.ProxyProtocol
use proxy_py.Http.ProxyProtocol.{ProxyProtocol}
use proxy_py.Http.Message.{
  Message, ParserState, ParserType, initialized, line_rcvd, rcving_headers, headers_complete,
  rcving_body, complete, request_parser, response_parser, header, add_header, set_url,
}

-- The message, whether there is more to do, and the unread bytes.
abbrev pub Step : Type 0
Step = Run (Message × Bool × Bytes)

abbrev pub unread : Message → Bytes → Step
unread m raw = some (ok (m, not (is_empty raw), raw))

-- `not self.chunk`
abbrev chunk_or_new : Option ChunkParser → ChunkParser
chunk_or_new none = new_parser
chunk_or_new (some c) = c

after_chunks : Message → ChunkParser × Bytes → Step
after_chunks m (c, raw) = some (
    ok (
      if Chunk.is_complete c.state
          then record m { chunk = some c; body = some c.body; state = complete }
          else record m { chunk = some c },
      false,
      raw,
    ))

abbrev pub body_or_empty : Option Bytes → Bytes
body_or_empty none = []
body_or_empty (some b) = b

-- `int(self.header(b'content-length'))`
unfoldable pub content_length : Message → Result ℤ
unfolding header
content_length m = do v ← header m (codes "content-length"); int_of 10 v

unfoldable pub receive_body : Message → Bytes → ℤ → Step
receive_body m raw total =
    let missing = minus_ℕ total (length (body_or_empty m.body)) in
    let body = body_or_empty m.body ++ slice_to missing raw in
    some (
      ok (
        record m {
          body = some body;
          state =
              if not (is_empty body) && equals_ℕ total (length body) then complete else rcving_body;
        },
        not (is_empty raw),
        slice_from missing raw,
      ))

-- `_process_body`
unfoldable pub process_body : Message → Bytes → Step
unfolding after_chunks receive_body
process_body m raw =
    if m.is_chunked_encoded
    then then_run (Chunk.parse (chunk_or_new m.chunk) raw) (after_chunks m)
    else if m.content_expected
    then then_run (some (content_length m)) (receive_body m raw)
    else some (ok (record m { state = rcving_body; body = some raw }, false, []))

abbrev pub key_and_value : Bytes → Option (Bytes × Bytes) → Bytes × Bytes
key_and_value raw none = (strip raw, [])
key_and_value raw (some (k, v)) = (strip k, strip v)

-- The headers that announce a body.
unfoldable pub note_length : Message → Bytes → Result Message
note_length m value = do
  n ← int_of 10 value
  ok (if is_positive n then record m { content_expected = true } else m)

unfoldable pub note_header : Message → Bytes → Bytes → Result Message
note_header m k value =
    if same k (codes "content-length")
    then note_length m value
    else if same k (codes "transfer-encoding") && same (lower value) (codes "chunked")
    then ok (record m { is_chunked_encoded = true })
    else ok m

-- `_process_header`
unfoldable pub process_header : Message → Bytes → Result Message
unfolding note_header note_length add_header
process_header m raw =
    let (key, value) = key_and_value raw (cut (b':' ∷ []) raw) in
    note_header (add_header m key value) (lower key) value

-- A line of the headers, in the states in which there are such lines.
unfoldable pub header_line : Message → Bytes → Result Message
header_line m line =
    if is_empty (strip line)
    then ok (record m { state = headers_complete })
    else process_header (record m { state = rcving_headers }) line

abbrev pub reads_headers : ParserState → Bool
reads_headers line_rcvd = true
reads_headers rcving_headers = true
reads_headers _ = false

unfoldable pub is_state : ParserState → ParserState → Bool
is_state initialized initialized = true
is_state line_rcvd line_rcvd = true
is_state rcving_headers rcving_headers = true
is_state headers_complete headers_complete = true
is_state rcving_body rcving_body = true
is_state complete complete = true
is_state _ _ = false

-- `_process_headers`, with fuel for its loop.
unfoldable pub process_headers_loop : ℕ → Message → Bytes → Step
process_headers_loop zero m raw = none
process_headers_loop (suc fuel) m raw = elim (cut crlf raw) [
  | none ↦ some (ok (m, false, raw))
  | some (line, rest) ↦
      then_run (some (if reads_headers m.state then header_line m line else ok m)) λ m'.
        let again = process_headers_loop fuel m' rest in
        if is_empty rest || is_state m'.state headers_complete then unread m' rest else again
]

unfoldable pub process_headers : Message → Bytes → Step
unfolding process_headers_loop header_line
process_headers m raw = process_headers_loop (suc (length raw)) m raw

abbrev is_connect : Bytes → Bool
is_connect method = same method (codes "CONNECT")

-- The parts of a request line.
request_line : Message → List Bytes → Option (List Bytes) → Result Message
request_line m (method ∷ url ∷ version ∷ []) allowed = do
  let named = record m {
    method = some method;
    is_https_tunnel = is_connect method || m.is_https_tunnel;
  }
  located ← set_url named url allowed
  ok (record located { version = some version; state = line_rcvd })
request_line m _ allowed = raise http_protocol

response_line : Message → List Bytes → Result Message
response_line m (version ∷ code ∷ reason ∷ _) =
    ok (record m {
      version = some version;
      code = some code;
      reason = some reason;
      state = line_rcvd;
    })
response_line m (version ∷ code ∷ []) =
    ok (record m { version = some version; code = some code; state = line_rcvd })
response_line m _ = raise index_error

-- The proxy protocol line comes first, if there is to be one.
awaited : Option ProxyProtocol → Option ProxyProtocol
awaited none = none
awaited (some p) = elim p.version [ none ↦ some p | some v ↦ none ]

abbrev line_words : Bytes → List Bytes
line_words line = split_max (b' ' ∷ []) 2 line

-- `_process_line`, with fuel for its loop.
process_line_loop : ℕ → ParserType → Message → Bytes → Option (List Bytes) → Step
process_line_loop zero type m raw allowed = none
process_line_loop (suc fuel) response_parser m raw allowed = elim (cut crlf raw) [
  | none ↦ some (ok (m, false, raw))
  | some (line, rest) ↦ then_run (some (response_line m (line_words line))) (λ m'. unread m' rest)
]
process_line_loop (suc fuel) request_parser m raw allowed = elim (cut crlf raw) [
  | none ↦ some (ok (m, false, raw))
  | some (line, rest) ↦ elim (awaited m.protocol) [
    | none ↦ then_run (some (request_line m (line_words line) allowed)) (λ m'. unread m' rest)
    | some p ↦
        then_run (some (ProxyProtocol.parse p line))
          λ p'. process_line_loop fuel request_parser (record m { protocol = some p' }) rest allowed
  ]
]

unfoldable pub process_line : Message → Bytes → Option (List Bytes) → Step
unfolding process_line_loop request_line response_line awaited
process_line m raw allowed = process_line_loop (suc (length raw)) m.type m raw allowed

-- One round of the loop of `parse`, before the tests for completeness.
unfoldable pub dispatch : ParserState → Message → Bytes → Option (List Bytes) → Step
dispatch initialized m raw allowed = process_line m raw allowed
dispatch line_rcvd m raw allowed = process_headers m raw
dispatch rcving_headers m raw allowed = process_headers m raw
dispatch _ m raw allowed = process_body m raw

unfoldable pub is_response : ParserType → Bool
is_response response_parser = true
is_response request_parser = false

-- A response of a status line alone, and a message without a body, are complete.
unfoldable pub settle : Message → Bytes → Message
settle m raw =
    if is_response m.type && (is_state m.state line_rcvd && same raw crlf)
    then record m { state = complete }
    else if is_state m.state headers_complete
        && (not (m.content_expected || m.is_chunked_encoded) && is_empty raw)
    then record m { state = complete }
    else m

-- The loop of `parse` on fuel.
unfoldable pub parse_loop : ℕ → Message → Bool → Bytes → Option (List Bytes) → Run (Message × Bytes)
unfolding dispatch settle is_response
parse_loop zero m more raw allowed =
    if more && not (is_state m.state complete) then none else some (ok (m, raw))
parse_loop (suc fuel) m more raw allowed =
    let round =
      then_run (dispatch m.state m raw allowed)
        λ s. parse_loop fuel (settle s.0 s.2) s.1 s.2 allowed in
    if more && not (is_state m.state complete) then round else some (ok (m, raw))

abbrev kept : Bytes → Option Bytes
kept [] = none
kept (c ∷ cs) = some (c ∷ cs)

-- `parse`, with the fuel given.
unfoldable pub parse : ℕ → Message → Bytes → Option (List Bytes) → Run Message
unfolding parse_loop
parse fuel m raw allowed =
    let start = record m { total_size = m.total_size + length raw; buffer = none } in
    then_run (parse_loop fuel start (not (is_empty raw)) (body_or_empty m.buffer ++ raw) allowed)
      λ s. some (ok (record (s.0) { buffer = kept s.1 }))
