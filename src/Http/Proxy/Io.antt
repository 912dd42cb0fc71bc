-- ===== src/Http/Proxy/Io.antt =====
-- What the event loop calls in `HttpProxyPlugin` of proxy/http/proxy/server.py: the descriptors, the
-- server's data, and the end of the connection.
use proxy_py.Base.{
  ℕ, ◌+◌, Bool, true, false, not, ◌||◌, Option, none, some, List, [], ◌∷◌, ◌++◌, if◌then◌else◌,
  number_eq, Bytes, length, ◌>>=◌, Run, then_run, Raised, Result, ok, raise, assertion_error,
  attribute_error, key_error, http_protocol,
}
use proxy_py.Base.Int.{int_eq, ℤ}
use proxy_py.Sets.{is_member}
use proxy_py.Core.Connection.{Connection, Socket, flush, recv, has_buffer}
use proxy_py.Core.Pool.{Server, Pool, fileno_of, close_server, release, update_object}
use proxy_py.Http.Message.{Message, empty_message, response_parser, complete}
use proxy_py.Http.Parser.{parse, is_state}
use proxy_py.Http.Handler.{is_os_error}
use proxy_py.Http.Proxy.State.{
  Shared, shared_of, Flags, ProxyPlugins, HttpProxy, Passing, passes, keeps, throws, breaks,
  pass_on, poll, after_pass, queue_client, object_of, tls_intercept_enabled,
}
use proxy_py.Http.Proxy.Data.{or_new, is_closed}

-- The descriptors of the server, unless the connection is closed.
abbrev server_descriptors : Option Server → Result (List ℤ × List ℤ)
server_descriptors none = ok ([], [])
server_descriptors (some s) =
    if s.state.closed
    then ok ([], [])
    else fileno_of s >>= λ f. ok (f ∷ [], if has_buffer s.state then f ∷ [] else [])

unfoldable pub mark_closed : ℕ → Pool → Pool
mark_closed = update_object (λ s. record s { state = record (s.state) { closed = true } })

-- A connection that was never made is left alone.
abbrev pub shut_down : Server → Server
shut_down s = elim s.fileno [ none ↦ s | some f ↦ close_server s ]

module _ {Q : Type 0} where
  abbrev pub upstream_object : HttpProxy Q → Option Server
  upstream_object p = elim p.upstream [ none ↦ none | some i ↦ object_of p i ]

  unfoldable pub plugin_descriptors : ProxyPlugins Q → List Q → List ℤ × List ℤ → List ℤ × List ℤ
  plugin_descriptors plugins [] rw = rw
  plugin_descriptors plugins (q ∷ qs) (r, w) =
      let (r', w') = plugins.get_descriptors q in plugin_descriptors plugins qs (r ++ r', w ++ w')

  -- `get_descriptors`
  unfoldable pub get_descriptors : ProxyPlugins Q → HttpProxy Q → Result (List ℤ × List ℤ)
  get_descriptors plugins p =
      server_descriptors (upstream_object p) >>= λ rw. ok (plugin_descriptors plugins p.plugins rw)

  abbrev pub polled : HttpProxy Q → Result (List Q × Shared × Bool) → Result (HttpProxy Q × Bool)
  polled p r = r >>= λ (qs, shared, torn).
      ok (record p { plugins = qs; client = shared.0; pool = shared.1 }, torn)

  -- `_close_and_release`
  unfoldable pub close_and_release : Flags → HttpProxy Q → Result (HttpProxy Q × Bool)
  close_and_release flags p =
      if flags.enable_conn_pool
      then elim p.upstream [
        | none ↦ raise assertion_error
        | some i ↦
            if is_closed (object_of p i)
            then raise assertion_error
            else (release i (mark_closed i p.pool) >>= λ pool.
                ok (record p { pool = pool; upstream = none }, true))
      ]
      else ok (p, true)

  abbrev pub with_state : ℕ → Connection → HttpProxy Q → HttpProxy Q
  with_state i c p = record p { pool = update_object (λ s. record s { state = c }) i p.pool }

  abbrev pub after_flush :
      Flags → ℕ → HttpProxy Q → Result (Connection × ℕ) → Result (HttpProxy Q × Bool)
  after_flush flags i p (ok (c, n)) = ok (with_state i c p, false)
  after_flush flags i p (raise Raised.ssl_want_write) = ok (p, false)
  after_flush flags i p (raise e) = if is_os_error e then close_and_release flags p else raise e

  -- The server can be written to.
  unfoldable pub flush_upstream :
      Flags → Socket → ℕ → HttpProxy Q → Server → Result (HttpProxy Q × Bool)
  flush_upstream flags send i p s =
      if has_buffer s.state
      then after_flush flags i p (flush send flags.max_sendbuf_size s.state)
      else ok (p, false)

  -- What both methods do where the server is not among the descriptors, and where it is.
  abbrev pub by_descriptor :
      {A : Type 0}
      → (Result (HttpProxy Q × Bool) → A)
      → Option Server
      → List ℤ
      → HttpProxy Q
      → (Server → A)
      → A
      → A
  by_descriptor ends none fs p ready others = ends (raise key_error)
  by_descriptor ends (some s) fs p ready others =
      if s.state.closed then ends (ok (p, false)) else elim (fileno_of s) [
        | raise e ↦ ends (raise e)
        | ok f ↦ if is_member f fs then ready s else others
      ]

  -- `write_to_descriptors`
  unfoldable pub write_to_descriptors :
      Flags → ProxyPlugins Q → Socket → List ℤ → HttpProxy Q → Result (HttpProxy Q × Bool)
  write_to_descriptors flags plugins send writables p =
      let others =
        polled p (poll (plugins.write_to_descriptors writables) p.plugins (shared_of p)) in
      elim p.upstream [
        | none ↦ others
        | some i ↦
            by_descriptor (λ r. r) (object_of p i) writables p (flush_upstream flags send i p)
              others
      ]

  -- `handle_pipeline_response`
  abbrev pub kept_response : HttpProxy Q → Message → HttpProxy Q
  kept_response p m = record p {
    pipeline_response = if is_state m.state complete then none else some m;
  }

  unfoldable pub handle_pipeline_response : ℕ → Bytes → HttpProxy Q → Run (HttpProxy Q)
  handle_pipeline_response fuel raw p =
      then_run
        (parse fuel (or_new p.pipeline_response (empty_message response_parser none)) raw none)
        λ m. some (ok (kept_response p m))

  -- The response is followed where it can be read.
  unfoldable pub follow_response :
      ℕ → Flags → ProxyPlugins Q → Bytes → HttpProxy Q → Run (HttpProxy Q)
  follow_response fuel flags plugins raw p =
      if not p.request.is_https_tunnel || tls_intercept_enabled flags plugins p
      then (if is_state p.response.state complete
          then handle_pipeline_response fuel raw p
          else then_run (parse fuel p.response raw none) λ m. some (ok (record p { response = m })))
      else some (
          ok (record p {
            response = record (p.response) { total_size = p.response.total_size + length raw };
          }))

  abbrev pub chunk_passed :
      ℕ → Flags → ProxyPlugins Q → HttpProxy Q → Passing → Run (HttpProxy Q × Bool)
  chunk_passed fuel flags plugins p (passes raw) =
      then_run (follow_response fuel flags plugins raw p) λ q. some (ok (queue_client raw q, false))
  chunk_passed fuel flags plugins p keeps = some (ok (p, false))
  chunk_passed fuel flags plugins p (throws e) = some (raise http_protocol)
  chunk_passed fuel flags plugins p (breaks e) = some (raise e)

  -- Data from the server.
  unfoldable pub upstream_chunk :
      ℕ → Flags → ProxyPlugins Q → Bytes → HttpProxy Q → Run (HttpProxy Q × Bool)
  upstream_chunk fuel flags plugins raw p =
      let r = pass_on plugins.handle_upstream_chunk p.plugins (shared_of p) raw in
      chunk_passed fuel flags plugins (after_pass p r) r.2

  -- After a timeout the address of `self.upstream` is looked up, which is `None` where there is a pool.
  abbrev pub timed_out : Flags → HttpProxy Q × Bool → Result (HttpProxy Q × Bool)
  timed_out flags (p, torn) = if flags.enable_conn_pool then raise attribute_error else ok (p, true)

  abbrev pub recv_failed : Flags → HttpProxy Q → Raised → Result (HttpProxy Q × Bool)
  recv_failed flags p Raised.timeout = close_and_release flags p >>= timed_out flags
  recv_failed flags p Raised.ssl_want_read = ok (p, false)
  recv_failed flags p e = if is_os_error e then close_and_release flags p else raise e

  abbrev pub after_recv :
      ℕ → Flags → ProxyPlugins Q → HttpProxy Q → Result (Option Bytes) → Run (HttpProxy Q × Bool)
  after_recv fuel flags plugins p (raise e) = some (recv_failed flags p e)
  after_recv fuel flags plugins p (ok none) = some (close_and_release flags p)
  after_recv fuel flags plugins p (ok (some raw)) = upstream_chunk fuel flags plugins raw p

  -- `read_from_descriptors`
  unfoldable pub read_from_descriptors :
      ℕ
      → Flags
      → ProxyPlugins Q
      → (ℕ → Result Bytes)
      → List ℤ
      → HttpProxy Q
      → Run (HttpProxy Q × Bool)
  read_from_descriptors fuel flags plugins receive readables p =
      let others =
        some (polled p (poll (plugins.read_from_descriptors readables) p.plugins (shared_of p))) in
      elim p.upstream [
        | none ↦ others
        | some i ↦
            by_descriptor some (object_of p i) readables p
              (λ s. after_recv fuel flags plugins p (recv receive flags.server_recvbuf_size)) others
      ]

  unfoldable pub told_closed : (Q → Q) → List Q → List Q
  told_closed method [] = []
  told_closed method (q ∷ qs) = method q ∷ told_closed method qs

  abbrev pub close_upstream : Flags → HttpProxy Q → Option ℕ → Result (HttpProxy Q)
  close_upstream flags p none = ok p
  close_upstream flags p (some i) =
      if flags.enable_conn_pool
      then (release i p.pool >>= λ pool. ok (record p { pool = pool }))
      else ok (record p { pool = update_object shut_down i p.pool })

  -- `on_client_connection_close`, once the access has been logged.
  unfoldable pub on_client_connection_close :
      Flags → ProxyPlugins Q → HttpProxy Q → Result (HttpProxy Q)
  on_client_connection_close flags plugins p =
      let q = record p { plugins = told_closed plugins.on_upstream_connection_close p.plugins } in
      close_upstream flags q q.upstream
