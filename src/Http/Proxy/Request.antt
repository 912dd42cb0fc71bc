-- ===== src/Http/Proxy/Request.antt =====
-- `on_request_complete` and `intercept` of proxy/http/proxy/server.py.
use proxy_py.Base.{
  ℕ, Bool, true, false, Option, none, some, [], ◌∷◌, ◌++◌, if◌then◌else◌, Bytes, Raised, Result, ok,
  raise,
}
use proxy_py.Bytes.{codes}
use proxy_py.Core.Connection.{Connection, Socket, flush}
use proxy_py.Http.Message.{Message, add_headers, del_headers}
use proxy_py.Http.Packet.{build}
use proxy_py.Http.Responses.{HttpException, tunnel_established}
use proxy_py.Http.Handler.{Reply, answer, upgraded, rejected, is_os_error}
use proxy_py.Http.Proxy.State.{
  shared_of, Flags, ProxyPlugins, HttpProxy, Asked, Said, goes_on, stops, rejects, fails, ask,
  after_ask, reply_of, queue_client, queue_upstream, tls_intercept_enabled,
}
use proxy_py.Http.Proxy.Connect.{Network, connect_upstream}

-- What a handshake comes to.
pub data Handshake : Type 0 where
  wrapped certificate_error eof_error ssl_error : Handshake
  error : Raised → Handshake

-- What `generate_upstream_certificate` comes to; openssl may not answer in time.
pub data Certificate : Type 0 where
  generated timeout_expired : Certificate
  refused : HttpException → Certificate
  not_generated : Raised → Certificate

-- The handshake with the server, the certificate for the client, the handshake with the client, and the
-- client's socket, which is flushed before.
pub record Interception : Type 0 where
  pub with_server : Handshake
  pub certificate : Certificate
  pub with_client : Handshake
  pub send : Socket

abbrev pub is_ssl_error : Raised → Bool
is_ssl_error Raised.ssl_want_read = true
is_ssl_error Raised.ssl_want_write = true
is_ssl_error _ = false

-- The `except` clauses of `wrap_server`; without an exception there is no reply.
abbrev pub wrap_server : Handshake → Option Reply
wrap_server wrapped = none
wrap_server (error e) = some (if is_ssl_error e then answer true else reply_of e)
wrap_server _ = some (answer true)

-- Those of `wrap_client`; an `SSLError` is an `OSError`.
abbrev pub os_caught : Raised → Reply
os_caught e = if is_os_error e then answer true else reply_of e

abbrev pub client_caught : Handshake → Option Reply
client_caught wrapped = none
client_caught (error e) = some (os_caught e)
client_caught _ = some (answer true)

-- What is changed in a request before it goes to the server.
unfoldable pub via_headers : Bytes → Message → Message
via_headers agent m =
    add_headers (del_headers m (codes "proxy-authorization" ∷ codes "proxy-connection" ∷ []))
      ((codes "Via", codes "1.1 " ++ agent) ∷ [])

module _ {Q : Type 0} where
  -- `self.client.wrap`
  abbrev pub wrap_flushed :
      Handshake → HttpProxy Q → Result (Connection × ℕ) → HttpProxy Q × Option Reply
  wrap_flushed handshake p (raise e) = (p, some (os_caught e))
  wrap_flushed handshake p (ok (c, n)) = (record p { client = c }, client_caught handshake)

  -- `wrap_client`
  abbrev pub wrap_client : Interception → HttpProxy Q → HttpProxy Q × Option Reply
  wrap_client tls p = elim tls.certificate [
    | timeout_expired ↦ (p, some (answer true))
    | refused e ↦ (p, some (rejected e))
    | not_generated e ↦ (p, some (os_caught e))
    | generated ↦ wrap_flushed tls.with_client p (flush tls.send none p.client)
  ]

  abbrev pub reply_or_upgraded : HttpProxy Q × Option Reply → HttpProxy Q × Reply
  reply_or_upgraded (p, none) = (p, upgraded)
  reply_or_upgraded (p, some reply) = (p, reply)

  -- `intercept`
  unfoldable pub intercept : Interception → HttpProxy Q → HttpProxy Q × Reply
  intercept tls p = elim (wrap_server tls.with_server) [
    | some reply ↦ (p, reply)
    | none ↦ reply_or_upgraded (wrap_client tls p)
  ]

  -- An `HTTP CONNECT`.
  abbrev pub establish : Flags → ProxyPlugins Q → Interception → HttpProxy Q → HttpProxy Q × Reply
  establish flags plugins tls p =
      let q = queue_client tunnel_established p in
      if tls_intercept_enabled flags plugins q then intercept tls q else (q, answer false)

  abbrev pub send_built : ℕ → HttpProxy Q → Result Bytes → HttpProxy Q × Reply
  send_built i p (raise e) = (p, reply_of e)
  send_built i p (ok raw) = (queue_upstream i raw p, answer false)

  unfoldable pub forward : Flags → Bytes → ℕ → HttpProxy Q → HttpProxy Q × Reply
  unfolding via_headers
  forward flags agent i p =
      let m = via_headers agent p.request in
      send_built i (record p { request = m }) (build agent flags.disable_headers false none m)

  unfoldable pub to_upstream :
      Flags → ProxyPlugins Q → Bytes → Interception → HttpProxy Q → HttpProxy Q × Reply
  to_upstream flags plugins agent tls p = elim p.upstream [
    | none ↦ (p, answer false)
    | some i ↦
        if p.request.is_https_tunnel then establish flags plugins tls p else forward flags agent i p
  ]

  -- How the two loops of `on_request_complete` go on; `None` says so by `stopped`.
  abbrev pub follow :
      Said → HttpProxy Q → HttpProxy Q × Reply → HttpProxy Q × Reply → HttpProxy Q × Reply
  follow goes_on p next stopped = next
  follow stops p next stopped = stopped
  follow (rejects e) p next stopped = (p, rejected e)
  follow (fails e) p next stopped = (p, reply_of e)

  abbrev pub asked_request :
      Flags → ProxyPlugins Q → Bytes → Interception → HttpProxy Q → Asked Q → HttpProxy Q × Reply
  asked_request flags plugins agent tls p a =
      let q = after_ask p a in
      follow a.3 q (to_upstream flags plugins agent tls q) (q, answer false)

  unfoldable pub client_request :
      Flags → ProxyPlugins Q → Bytes → Interception → HttpProxy Q → HttpProxy Q × Reply
  client_request flags plugins agent tls p =
      asked_request flags plugins agent tls p
        (ask plugins.handle_client_request p.plugins (shared_of p) p.request)

  abbrev pub after_connect :
      Flags
      → ProxyPlugins Q
      → Bytes
      → Interception
      → HttpProxy Q × Option Reply
      → HttpProxy Q × Reply
  after_connect flags plugins agent tls (p, none) = client_request flags plugins agent tls p
  after_connect flags plugins agent tls (p, some reply) = (p, reply)

  abbrev pub asked_before :
      Flags
      → ProxyPlugins Q
      → Bytes
      → Network
      → Interception
      → HttpProxy Q
      → Asked Q
      → HttpProxy Q × Reply
  asked_before flags plugins agent network tls p a =
      let q = after_ask p a in
      follow a.3 q
        (after_connect flags plugins agent tls (connect_upstream flags plugins network q))
        (client_request flags plugins agent tls q)

  -- `on_request_complete`
  unfoldable pub on_request_complete :
      Flags → ProxyPlugins Q → Bytes → Network → Interception → HttpProxy Q → HttpProxy Q × Reply
  on_request_complete flags plugins agent network tls p =
      asked_before flags plugins agent network tls p
        (ask plugins.before_upstream_connection p.plugins (shared_of p) p.request)
