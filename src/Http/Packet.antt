-- ===== src/Http/Packet.antt =====
-- `build_http_request`, `build_http_response` and `build_http_pkt` of proxy/common/utils.py, and
-- `build` and `build_response` of proxy/http/parser/parser.py.
pub mod RoundTrip
pub mod Names
mod Tests
use proxy_py.Base.{
  zero, Bool, true, false, not, ◌&&◌, ◌||◌, Option, none, some, List, [], ◌∷◌, ◌++◌, if◌then◌else◌,
  same, bytes_eq, Bytes, length, ◌>>=◌, ◌>>◌, guard, Result, assertion_error, ok, raise,
}
use proxy_py.Base.Int.{ℤ, pos}
use proxy_py.Bytes.{codes, crlf, is_empty, lower}
use proxy_py.Dict.{put}
use proxy_py.Number.{digits, int_of}
use proxy_py.Http.Chunk.{join, to_chunks, default_buffer_size}
use proxy_py.Http.Url.{str_of}
use proxy_py.Http.Message.{Message, Headers, http_1_1, headers_or_empty, is_request}

-- The names and values of a packet, as `Dict[bytes, bytes]`.
abbrev pub Fields : Type 0
Fields = List (Bytes × Bytes)

unfoldable pub build_http_header : Bytes → Bytes → Bytes
build_http_header k v = k ++ b':' ∷ b' ' ∷ v

unfoldable pub header_lines : Fields → Bytes
header_lines [] = []
header_lines ((k, v) ∷ rest) = build_http_header k v ++ (crlf ++ header_lines rest)

abbrev body_bytes : Option Bytes → Bytes
body_bytes none = []
body_bytes (some b) = b

unfoldable pub build_http_pkt : List Bytes → Fields → Option Bytes → Bool → Bytes
build_http_pkt line headers body conn_close =
    join (b' ' ∷ []) line
    ++ (crlf
        ++ (header_lines
              (if conn_close then put (codes "Connection") (codes "close") headers else headers)
            ++ (crlf ++ body_bytes body)))

-- A name, in any case, among the fields.
unfoldable pub has_name : Bytes → Fields → Bool
has_name name [] = false
has_name name ((k, v) ∷ rest) = same (lower k) name || has_name name rest

abbrev put_if : Bool → Bytes → Bytes → Fields → Fields
put_if b k v fields = if b then put k v fields else fields

abbrev with_type : Option Bytes → Fields → Fields
with_type none fields = fields
with_type (some t) fields = put (codes "Content-Type") t fields

-- `PROXY_AGENT_HEADER_VALUE`, which holds the version of the program, is the parameter `agent`.
unfoldable pub build_http_request :
    Bytes → Bytes → Bytes → Bytes → Option Bytes → Fields → Option Bytes → Bool → Bool → Bytes
build_http_request agent method url version content_type headers body conn_close no_ua =
    let typed = with_type content_type headers in
    let sized =
      put_if (not (is_empty (body_bytes body)) && not (has_name (codes "transfer-encoding") typed))
        (codes "Content-Length") (digits 10 (length (body_bytes body))) typed in
    let named =
      put_if (not (has_name (codes "user-agent") typed) && not no_ua) (codes "User-Agent") agent
        sized in
    build_http_pkt (method ∷ url ∷ version ∷ []) named body conn_close

abbrev status_line : Bytes → Bytes → Option Bytes → List Bytes
status_line version code none = version ∷ code ∷ []
status_line version code (some []) = version ∷ code ∷ []
status_line version code (some (c ∷ cs)) = version ∷ code ∷ (c ∷ cs) ∷ []

unfoldable pub build_http_response :
    ℤ → Bytes → Option Bytes → Fields → Option Bytes → Bool → Bool → Bytes
build_http_response status_code version reason headers body conn_close no_cl =
    build_http_pkt (status_line version (str_of status_code) reason)
      (put_if (not (has_name (codes "transfer-encoding") headers) && not no_cl)
        (codes "Content-Length") (digits 10 (length (body_bytes body))) headers)
      body conn_close

unfoldable pub build_websocket_handshake_request : Bytes → Bytes → Bytes → Bytes → Bytes → Bytes
build_websocket_handshake_request agent key method url host =
    build_http_request agent method url http_1_1 none
      ((codes "Host", host)
        ∷ (codes "Connection", codes "upgrade")
        ∷ (codes "Upgrade", codes "websocket")
        ∷ (codes "Sec-WebSocket-Key", key)
        ∷ (codes "Sec-WebSocket-Version", codes "13")
        ∷ [])
      none false false

unfoldable pub build_websocket_handshake_response : Bytes → Bytes
build_websocket_handshake_response accept =
    build_http_response (pos 101) http_1_1 (some (codes "Switching Protocols"))
      ((codes "Upgrade", codes "websocket")
        ∷ (codes "Connection", codes "Upgrade")
        ∷ (codes "Sec-WebSocket-Accept", accept)
        ∷ [])
      none false false

-- `_get_body_or_chunks`
unfoldable pub get_body_or_chunks : Message → Result (Option Bytes)
get_body_or_chunks m =
    let chunked = (do c ← to_chunks (body_bytes m.body) default_buffer_size; ok (some c)) in
    if not (is_empty (body_bytes m.body)) && m.is_chunked_encoded then chunked else ok m.body

pub is_disabled : Bytes → List Bytes → Bool
is_disabled k [] = false
is_disabled k (d ∷ ds) = same (lower k) d || is_disabled k ds

abbrev host_or : Option Bytes → Bytes → Bytes → Bytes
host_or none name value = value
host_or (some h) name value = if same (lower name) (codes "host") then h else value

-- The headers that are not disabled, by their own names, with another host if there is one.
unfoldable pub sent_fields : List Bytes → Option Bytes → Headers → Fields → Fields
unfolding is_disabled
sent_fields disabled host [] fields = fields
sent_fields disabled host ((k, (name, value)) ∷ rest) fields =
    sent_fields disabled host rest
      (if is_disabled k disabled then fields else put name (host_or host name value) fields)

-- What an `assert` of a byte string or of a port wants.
abbrev truthy : Option Bytes → Result Bytes
truthy none = raise assertion_error
truthy (some []) = raise assertion_error
truthy (some (c ∷ cs)) = ok (c ∷ cs)

abbrev truthy_port : Option ℤ → Result ℤ
truthy_port none = raise assertion_error
truthy_port (some (pos zero)) = raise assertion_error
truthy_port (some p) = ok p

abbrev pub path_or_root : Option Bytes → Bytes
path_or_root none = b'/' ∷ []
path_or_root (some []) = b'/' ∷ []
path_or_root (some (c ∷ cs)) = c ∷ cs

-- Without a scheme, the path that the source builds is `http` alone.
abbrev absolute : Option Bytes → Bytes → Bytes
absolute none behind = codes "http"
absolute (some []) behind = codes "http"
absolute (some (c ∷ cs)) behind = (c ∷ cs) ++ behind

-- The path of a request to another proxy.
proxy_path : Message → Bytes → Result Bytes
proxy_path m path = do
  host ← truthy m.host
  port ← truthy_port m.port
  url ← elim m.url [ none ↦ raise assertion_error | some u ↦ ok u ]
  ok (
      if m.is_https_tunnel
      then host ++ b':' ∷ str_of port
      else absolute url.scheme (codes "://" ++ (host ++ b':' ∷ (str_of port ++ path))))

-- `build`
unfoldable pub build : Bytes → List Bytes → Bool → Option Bytes → Message → Result Bytes
unfolding proxy_path
build agent disable_headers for_proxy host m = do
  method ← truthy m.method
  version ← truthy m.version
  guard (is_request m.type) assertion_error
  body ← get_body_or_chunks m
  path ← if for_proxy then proxy_path m (path_or_root m.path) else ok (path_or_root m.path)
  ok (
      build_http_request agent method path version none
        (sent_fields disable_headers host (headers_or_empty m.headers) []) body false true)

-- `build_response`
unfoldable pub build_response : Message → Result Bytes
build_response m = do
  code ← truthy m.code
  version ← truthy m.version
  guard (not (is_request m.type)) assertion_error
  status ← int_of 10 code
  body ← get_body_or_chunks m
  ok (
      build_http_response status version m.reason
        (sent_fields [] none (headers_or_empty m.headers) []) body false false)
