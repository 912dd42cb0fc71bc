-- ===== src/Http/Responses.antt =====
-- The fixed responses of proxy/http/responses.py, and the responses that the exceptions of
-- proxy/http/exception/ give. `PROXY_AGENT_HEADER_VALUE` is the parameter `agent`.
use proxy_py.Base.{
  ℕ, zero, Bool, true, false, not, ◌&&◌, Option, none, some, [], ◌∷◌, ltb, if◌then◌else◌, bytes_eq,
  Bytes, length,
}
use proxy_py.Base.Int.{ℤ, pos}
use proxy_py.Bytes.{codes, is_empty}
use proxy_py.Dict.{put}
use proxy_py.Http.Message.{http_1_1}
use proxy_py.Http.Packet.{Fields, build_http_response}

abbrev pub tunnel_established : Bytes
tunnel_established =
    build_http_response (pos 200) http_1_1 (some (codes "Connection established")) [] none false
      true

abbrev pub tunnel_unsupported_scheme : Bytes
tunnel_unsupported_scheme =
    build_http_response (pos 400) http_1_1 (some (codes "Unsupported protocol scheme")) [] none true
      true

abbrev pub auth_failed_response : Bytes → Bytes
auth_failed_response agent =
    build_http_response (pos 407) http_1_1 (some (codes "Proxy Authentication Required"))
      ((codes "Proxy-agent", agent) ∷ (codes "Proxy-Authenticate", codes "Basic") ∷ [])
      (some (codes "Proxy Authentication Required")) true true

abbrev pub server_fields : Bytes → Fields
server_fields agent = (codes "Server", agent) ∷ []

abbrev pub bad_request : Bytes → Bytes
bad_request agent =
    build_http_response (pos 400) http_1_1 (some (codes "BAD REQUEST")) (server_fields agent) none
      true false

abbrev pub not_found : Bytes → Bytes
not_found agent =
    build_http_response (pos 404) http_1_1 (some (codes "NOT FOUND")) (server_fields agent) none
      true false

abbrev pub not_implemented_response : Bytes → Bytes
not_implemented_response agent =
    build_http_response (pos 501) http_1_1 (some (codes "NOT IMPLEMENTED")) (server_fields agent)
      none true false

abbrev pub bad_gateway : Bytes → Bytes
bad_gateway agent =
    build_http_response (pos 502) http_1_1 (some (codes "Bad Gateway"))
      ((codes "Proxy-agent", agent) ∷ []) (some (codes "Bad Gateway")) true true

abbrev pub is_longer : ℕ → Option Bytes → Bool
is_longer n none = false
is_longer n (some content) = not (is_empty content) && ltb n (length content)

abbrev pub compressed : (Bytes → Bytes) → Option Bytes → Option Bytes
compressed gzip none = none
compressed gzip (some content) = some (gzip content)

-- `okResponse`; `gzip.compress` is a parameter.
unfoldable pub ok_response :
    (Bytes → Bytes) → Option Bytes → Fields → Bool → ℕ → Bool → Bool → Bytes
ok_response gzip content headers compress min_compression_length conn_close no_cl =
    let do_compress = compress && is_longer min_compression_length content in
    build_http_response (pos 200) http_1_1 (some (codes "OK"))
      (if do_compress then put (codes "Content-Encoding") (codes "gzip") headers else headers)
      (if do_compress then compressed gzip content else content) conn_close no_cl

unfoldable pub permanent_redirect_response : Bytes → Bytes
permanent_redirect_response location =
    build_http_response (pos 308) http_1_1 (some (codes "Permanent Redirect"))
      ((codes "Location", location) ∷ (codes "Content-Length", codes "0") ∷ []) none true false

unfoldable pub see_others_response : Bytes → Bytes
see_others_response location =
    build_http_response (pos 303) http_1_1 (some (codes "See Other"))
      ((codes "Location", location) ∷ (codes "Content-Length", codes "0") ∷ []) none true false

-- `HttpProtocolException` and its subclasses.
pub data HttpException : Type 0 where
  protocol_exception : HttpException
  request_rejected : Option ℤ → Option Bytes → Fields → Option Bytes → HttpException
  authentication_failed connection_failed : HttpException

rejection : Option ℤ → Option Bytes → Fields → Option Bytes → Option Bytes
rejection none reason headers body = none
rejection (some (pos zero)) reason headers body = none
rejection (some code) reason headers body =
    some (build_http_response code http_1_1 reason headers body true false)

-- `response`
unfoldable pub response_of : Bytes → HttpException → Option Bytes
unfolding rejection
response_of agent protocol_exception = none
response_of agent (request_rejected code reason headers body) = rejection code reason headers body
response_of agent authentication_failed = some (auth_failed_response agent)
response_of agent connection_failed = some (bad_gateway agent)
