-- ===== src/Http/Proxy/Plugged.antt =====
-- The proxy plugin under the protocol handler: what becomes of a request without credentials.
mod Tests
use proxy_py.Base.{
  ◌≢◌, ◌∙◌, ℕ, ◌≡◌, refl, ap, Bool, true, false, Option, none, some, List, [], ◌∷◌, Bytes, ◌>>=◌,
  Run, Raised, Result, auth_failed, ok, raise,
}
use proxy_py.Base.Int.{ℤ}
use proxy_py.Bytes.{is_empty}
use proxy_py.Core.Connection.{queue, Connection, Socket, new_connection}
use proxy_py.Core.Pool.{Pool}
use proxy_py.Http.Auth
use proxy_py.Http.Auth.Credentials.{Authorized, before_upstream_connection-raise}
use proxy_py.Http.Message.{
  Message, empty_message, response_parser, headers_or_empty, complete, http_handler_protocol,
  http_proxy,
}
use proxy_py.Http.Parser.{parse, is_state}
use proxy_py.Http.Responses.{authentication_failed, auth_failed_response, response_of}
use proxy_py.Http.Handler.{
  after_recv, handle_readables, HttpHandler, Plugins, Call, Reply, rejected, queue_packet,
  handle_data, parse_first_request, after_parse, discover_plugin_klass, settle_call, caught,
}
use proxy_py.Http.Handler.Rejection.{recv-some, closes}
use proxy_py.Http.Proxy.State.{
  Shared, Flags, ProxyPlugins, HttpProxy, Heard, Said, goes_on, rejects, fails, ask,
}
use proxy_py.Http.Proxy.Connect.{Network}
use proxy_py.Http.Proxy.Request.{Interception, on_request_complete}
use proxy_py.Http.Proxy.Data.{on_client_data}
use proxy_py.Http.Proxy.Io.{read_from_descriptors, write_to_descriptors}

-- What the event loop hands to the proxy: the descriptors that are ready, and the server's socket.
pub record Ready : Type 0 where
  pub readables : List ℤ
  pub writables : List ℤ
  pub send : Socket
  pub receive : ℕ → Result Bytes

-- `AuthPlugin` among the plugins of the proxy.
abbrev pub said_of : Raised → Said
said_of Raised.auth_failed = rejects authentication_failed
said_of e = fails e

-- A request that is refused keeps this much of the check.
abbrev pub with_headers : Message → Message
with_headers m = record m { headers = some (headers_or_empty m.headers) }

module _ {Q : Type 0} where
  abbrev pub auth_heard : Q → Shared → Message → Result Message → Heard Q
  auth_heard q shared m (ok m') = record {
    plugin = q;
    shared = shared;
    request = m';
    said = goes_on;
  }
  auth_heard q shared m (raise e) = record {
    plugin = q;
    shared = shared;
    request = with_headers m;
    said = said_of e;
  }

  abbrev pub auth_method : Option Bytes → Q → Shared → Message → Heard Q
  auth_method code q shared m = auth_heard q shared m (Auth.before_upstream_connection code m)

  -- A new plugin; the client's connection comes with each call.
  abbrev pub new_proxy : Pool → List Q → Message → HttpProxy Q
  new_proxy pool qs m = record {
    client = new_connection;
    request = m;
    upstream = none;
    pool = pool;
    response = empty_message response_parser none;
    pipeline_request = none;
    pipeline_response = none;
    plugins = qs;
  }

  -- The connection and the request of the handler are those of the plugin.
  abbrev pub shared : HttpProxy Q → Connection → Message → HttpProxy Q
  shared p work m = record p { client = work; request = m }

  -- The proxy as a first plugin leaves it that refuses the request.
  abbrev pub refused : Pool → List Q → Connection → Message → HttpProxy Q
  refused pool qs work m = shared (new_proxy pool qs m) work (with_headers m)

  abbrev pub call_of : HttpProxy Q × Reply → Call (HttpProxy Q)
  call_of (p, reply) = record { plugin = p; work = p.client; request = p.request; reply = reply }

  abbrev pub call_run : Option (HttpProxy Q × Reply) → Option (Call (HttpProxy Q))
  call_run none = none
  call_run (some r) = some (call_of r)

  abbrev pub io_of : HttpProxy Q × Bool → HttpProxy Q × Connection × Message × Bool
  io_of (p, torn) = (p, p.client, p.request, torn)

  abbrev io_result :
      Result (HttpProxy Q × Bool) → Result (HttpProxy Q × Connection × Message × Bool)
  io_result r = r >>= λ q. ok (io_of q)

  abbrev io_run : Run (HttpProxy Q × Bool) → Run (HttpProxy Q × Connection × Message × Bool)
  io_run none = none
  io_run (some r) = some (io_result r)

  -- `HttpProxyPlugin` as the protocol handler knows it.
  abbrev pub plugged :
      ℕ
      → Flags
      → ProxyPlugins Q
      → Bytes
      → Network
      → Interception
      → Ready
      → Pool
      → List Q
      → (Message → Bytes → Message)
      → Plugins (HttpProxy Q)
  plugged fuel flags plugins agent network tls ready pool qs half_parsed = record {
    half_parsed = half_parsed;
    klasses = (http_proxy ∷ [], new_proxy pool qs) ∷ [];
    on_request_complete =
        λ p work m. call_of (on_request_complete flags plugins agent network tls (shared p work m));
    on_client_data =
        λ raw p work m. call_run (on_client_data fuel flags plugins agent raw (shared p work m));
    on_response_chunk = λ p chunk. ok p;
    write_to_descriptors = λ p work m.
        io_result (write_to_descriptors flags plugins ready.send ready.writables (shared p work m));
    read_from_descriptors = λ p work m.
        io_run (
          read_from_descriptors fuel flags plugins ready.receive ready.readables (shared p work m));
  }

module _ {Q : Type 0} (fuel : ℕ) (flags : Flags) (plugins : ProxyPlugins Q) (agent : Bytes)
    (network : Network) (tls : Interception) (ready : Ready) (pool : Pool) (q : Q) (qs : List Q)
    (half_parsed : Message → Bytes → Message) (code : Bytes)
    (guards : plugins.before_upstream_connection q ≡ auth_method (some code) q) where
  on_request_complete-refused :
      (work : Connection) (m : Message)
      → Auth.before_upstream_connection (some code) m ≡ raise auth_failed
      → on_request_complete flags plugins agent network tls
          (shared (new_proxy pool (q ∷ qs) m) work m)
        ≡ (refused pool (q ∷ qs) work m, rejected authentication_failed)
  unfolding on_request_complete ask
  on_request_complete-refused work m e = rw (guards, e) refl

  handle_data-refused :
      (h : HttpHandler (HttpProxy Q)) (raw : Bytes) (m : Message)
      → is_state h.request.state complete ≡ false
      → parse fuel h.request raw none ≡ some (ok m)
      → is_state m.state complete ≡ true
      → http_handler_protocol m ≡ http_proxy
      → Auth.before_upstream_connection (some code) m ≡ raise auth_failed
      → handle_data fuel
          (plugged fuel flags plugins agent network tls ready pool (q ∷ qs) half_parsed)
          agent
          raw
          h
        ≡ some (
          queue_packet (auth_failed_response agent) (record h {
            request = with_headers m;
            plugin = some (refused pool (q ∷ qs) h.server.work m);
          }),
          ok true,
        )
  unfolding handle_data parse_first_request after_parse discover_plugin_klass response_of
  handle_data-refused h raw m fresh parsed done is_proxy e =
      rw (fresh, parsed, done, is_proxy)
        (ap (λ r. some (caught agent (settle_call (record h { request = m }) (call_of r))))
          (on_request_complete-refused h.server.work m e))

  -- The first plugin is `AuthPlugin` with a code, and the socket gives a request, which becomes whole, is for the
  -- proxy and does not carry the code: the handler goes on with that request, its headers a dict, and with a
  -- proxy that has no server and the pool that it was given, the answer that asks for credentials stands behind
  -- what the client is owed, and the connection will close once all of it has been sent.
  pub handle_readables-refused :
      (receive : ℕ → Result Bytes) (client_recvbuf_size : ℕ) (h : HttpHandler (HttpProxy Q))
      (raw : Bytes) (m : Message)
      → is_state h.request.state complete ≡ false
      → receive client_recvbuf_size ≡ ok raw
      → is_empty raw ≡ false
      → parse fuel h.request raw none ≡ some (ok m)
      → is_state m.state complete ≡ true
      → http_handler_protocol m ≡ http_proxy
      → code ≢ []
      → ¬ Authorized code m
      → handle_readables fuel
          (plugged fuel flags plugins agent network tls ready pool (q ∷ qs) half_parsed)
          agent
          receive
          client_recvbuf_size
          true
          h
        ≡ some (
            ok (
              record h {
                server = record {
                  work = queue (auth_failed_response agent) h.server.work;
                  must_flush_before_shutdown = true;
                };
                request = with_headers m;
                plugin = some (refused pool (q ∷ qs) h.server.work m);
              },
              false,
            ))
  unfolding handle_readables
  handle_readables-refused receive client_recvbuf_size h raw m fresh got some_data parsed done
        is_proxy ne unauthorized =
      ap
        (after_recv fuel
          (plugged fuel flags plugins agent network tls ready pool (q ∷ qs) half_parsed) agent h)
        (recv-some receive client_recvbuf_size raw got some_data)
      ∙ rw
          (
            handle_data-refused h raw m fresh parsed done is_proxy
                (before_upstream_connection-raise code m ne unauthorized),
            after_recv,
          )
          (closes (auth_failed_response agent) (record h {
            request = with_headers m;
            plugin = some (refused pool (q ∷ qs) h.server.work m);
          }))
