-- ===== src/Http/Message.antt =====
-- The state of `HttpParser` of proxy/http/parser/parser.py, its headers and its properties.
pub mod Headers
use proxy_py.Base.{
  ℕ, zero, Bool, true, false, not, ◌&&◌, ◌||◌, Option, none, some, List, [], ◌∷◌, if◌then◌else◌,
  same, bytes_eq, Bytes, length, ◌>>=◌, Result, assertion_error, key_error, ok, raise,
}
use proxy_py.Base.Int.{ℤ, pos}
use proxy_py.Bytes.{codes, lower}
use proxy_py.Dict.{get, put, remove, contains}
use proxy_py.Number.{digits}
use proxy_py.Http.Chunk.{ChunkParser, to_chunks, default_buffer_size}
use proxy_py.Http.Url.{Url, from_bytes}
use proxy_py.Http.ProxyProtocol.{ProxyProtocol, new_protocol}

pub data ParserState : Type 0 where
  initialized line_rcvd rcving_headers headers_complete rcving_body complete : ParserState

pub data ParserType : Type 0 where
  request_parser response_parser : ParserType

-- The key is the name in lower case; the value is the name as received, and the value.
abbrev pub Headers : Type 0
Headers = List (Bytes × (Bytes × Bytes))

pub record Message : Type 0 where
  pub state : ParserState
  pub type : ParserType
  pub protocol : Option ProxyProtocol
  pub host : Option Bytes
  pub port : Option ℤ
  pub path : Option Bytes
  pub method : Option Bytes
  pub code : Option Bytes
  pub reason : Option Bytes
  pub version : Option Bytes
  pub total_size : ℕ
  pub buffer : Option Bytes
  pub headers : Option Headers
  pub body : Option Bytes
  pub chunk : Option ChunkParser
  pub url : Option Url
  pub is_chunked_encoded : Bool
  pub content_expected : Bool
  pub is_https_tunnel : Bool

abbrev pub empty_message : ParserType → Option ProxyProtocol → Message
empty_message type protocol = record {
  state = initialized;
  type = type;
  protocol = protocol;
  host = none;
  port = none;
  path = none;
  method = none;
  code = none;
  reason = none;
  version = none;
  total_size = 0;
  buffer = none;
  headers = none;
  body = none;
  chunk = none;
  url = none;
  is_chunked_encoded = false;
  content_expected = false;
  is_https_tunnel = false;
}

-- `HttpParser(type, enable_proxy_protocol)`
unfoldable pub new_message : ParserType → Bool → Result Message
new_message type false = ok (empty_message type none)
new_message request_parser true = ok (empty_message request_parser (some new_protocol))
new_message response_parser true = raise assertion_error

abbrev pub headers_or_empty : Option Headers → Headers
headers_or_empty none = []
headers_or_empty (some hs) = hs

abbrev pub value_of : Option (Bytes × Bytes) → Result Bytes
value_of none = raise key_error
value_of (some (name, value)) = ok value

unfoldable pub header : Message → Bytes → Result Bytes
header m key = value_of (get (lower key) (headers_or_empty m.headers))

unfoldable pub has_header : Message → Bytes → Bool
has_header m key = contains (lower key) (headers_or_empty m.headers)

-- `add_header` returns the key, `lower key`.
unfoldable pub add_header : Message → Bytes → Bytes → Message
add_header m key value = record m {
  headers = some (put (lower key) (key, value) (headers_or_empty m.headers));
}

unfoldable pub add_headers : Message → List (Bytes × Bytes) → Message
unfolding add_header
add_headers m [] = m
add_headers m ((key, value) ∷ rest) = add_headers (add_header m key value) rest

abbrev map_headers : (Headers → Headers) → Option Headers → Option Headers
map_headers f none = none
map_headers f (some hs) = some (f hs)

unfoldable pub del_header : Message → Bytes → Message
del_header m key = record m { headers = map_headers (remove (lower key)) m.headers }

unfoldable pub del_headers : Message → List Bytes → Message
unfolding del_header
del_headers m [] = m
del_headers m (key ∷ rest) = del_headers (del_header m (lower key)) rest

abbrev port_or : ℤ → Option ℤ → ℤ
port_or d none = d
port_or d (some p) = p

-- `url.port if url.port else 80`
abbrev truthy_port_or : ℤ → Option ℤ → ℤ
truthy_port_or d none = d
truthy_port_or d (some (pos zero)) = d
truthy_port_or d (some p) = p

-- `_set_line_attributes`, after `_url` has been set
set_line_attributes : Message → Url → Message
set_line_attributes m u = record m {
  url = some u;
  host = u.hostname;
  port =
      some (if m.is_https_tunnel then port_or (pos 443) u.port else truthy_port_or (pos 80) u.port);
  path = u.remainder;
}

unfoldable pub is_request : ParserType → Bool
is_request request_parser = true
is_request response_parser = false

unfoldable pub set_url : Message → Bytes → Option (List Bytes) → Result Message
unfolding set_line_attributes is_request
set_url m raw allowed = do
  u ← from_bytes raw allowed
  ok (if is_request m.type then set_line_attributes m u else record m { url = some u })

-- `gzip.compress` is the parameter `compress`.
unfoldable pub body_encoded : (Bytes → Bytes) → Message → Bytes → Result (Message × Bytes)
body_encoded compress m body =
    let encoded = (do
      coding ← header m (codes "content-encoding")
      ok (
          if same coding (codes "gzip")
          then (m, compress body)
          else (del_header m (codes "content-encoding"), body))) in
    if has_header m (codes "content-encoding") then encoded else ok (m, body)

-- The length header, or the chunks.
unfoldable pub body_framed : Message → Bytes → Result (Message × Bytes)
body_framed m body =
    let chunked = (do
      chunks ← to_chunks body default_buffer_size
      ok (del_header m (codes "content-length"), chunks)) in
    if m.is_chunked_encoded
    then chunked
    else ok (add_header m (codes "Content-Length") (digits 10 (length body)), body)

unfoldable pub update_body : (Bytes → Bytes) → Message → Bytes → Bytes → Result Message
unfolding body_encoded body_framed add_header del_header has_header
update_body compress m body content_type = do
  encoded ← body_encoded compress m body
  framed ← body_framed encoded.0 encoded.1
  ok (add_header (record (framed.0) { body = some framed.1 }) (codes "Content-Type") content_type)

abbrev equals : Option Bytes → Bytes → Bool
equals none b = false
equals (some a) b = same a b

abbrev pub http_1_1 : Bytes
http_1_1 = codes "HTTP/1.1"

abbrev pub http_1_0 : Bytes
http_1_0 = codes "HTTP/1.0"

pub data HandlerProtocol : Type 0 where
  unknown web_server http_proxy socks_proxy : HandlerProtocol

protocol_of : Option Bytes → Option Url → HandlerProtocol
protocol_of h none = unknown
protocol_of (some h) (some u) = http_proxy
protocol_of none (some u) = elim u.hostname [ none ↦ web_server | some h ↦ unknown ]

unfoldable pub http_handler_protocol : Message → HandlerProtocol
unfolding protocol_of
http_handler_protocol m =
    if equals m.version http_1_1 || equals m.version http_1_0
    then protocol_of m.host m.url
    else unknown

-- `self.header(key).lower()`, which is looked at only where the header is there.
lower_header : Message → Bytes → Result Bytes
lower_header m key = do v ← header m key; ok (lower v)

is_ok_in : List Bytes → Result Bytes → Bool
is_ok_in bs (raise e) = false
is_ok_in [] (ok b) = false
is_ok_in (x ∷ xs) (ok b) = same b x || is_ok_in xs (ok b)

unfoldable pub is_http_1_1_keep_alive : Message → Bool
unfolding is_ok_in lower_header header has_header
is_http_1_1_keep_alive m =
    equals m.version http_1_1
    && (not (has_header m (codes "Connection"))
        || is_ok_in (codes "keep-alive" ∷ []) (lower_header m (codes "Connection")))

unfoldable pub is_connection_upgrade : Message → Bool
unfolding has_header
is_connection_upgrade m =
    equals m.version http_1_1
    && (has_header m (codes "Connection") && has_header m (codes "Upgrade"))

unfoldable pub is_websocket_upgrade : Message → Bool
unfolding is_connection_upgrade is_ok_in lower_header header has_header
is_websocket_upgrade m =
    is_connection_upgrade m
    && is_ok_in (codes "websocket" ∷ codes "derp" ∷ []) (lower_header m (codes "upgrade"))

abbrev pub body_expected : Message → Bool
body_expected m = m.content_expected || m.is_chunked_encoded
