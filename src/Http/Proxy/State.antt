-- ===== src/Http/Proxy/State.antt =====
-- The state of `HttpProxyPlugin` of proxy/http/proxy/server.py, and its loops over the plugins.
use proxy_py.Base.{
  ℕ, Bool, true, false, Option, none, some, List, [], ◌∷◌, if◌then◌else◌, number_eq, Bytes, ◌>>=◌,
  Raised, Result, ok,
}
use proxy_py.Base.Int.{ℤ}
use proxy_py.Dict.{get}
use proxy_py.Core.Connection.{Connection, queue}
use proxy_py.Core.Pool.{Address, Server, Pool, update_object}
use proxy_py.Http.Message.{Message}
use proxy_py.Http.Responses.{HttpException, protocol_exception, authentication_failed}
use proxy_py.Http.Handler.{Reply, rejected, failed}

-- The flags that the plugin reads.
pub record Flags : Type 0 where
  pub enable_conn_pool : Bool
  pub tls_interception_enabled : Bool
  pub disable_headers : List Bytes
  pub max_sendbuf_size : Option ℕ
  pub server_recvbuf_size : ℕ

-- What a plugin shares with the proxy: the client's connection, and the pool of connections to servers. Connections that a
-- plugin makes beside the pool are part of its own state.
abbrev pub Shared : Type 0
Shared = Connection × Pool

-- How a method of a plugin ends that is given a request: it returns the request, or `None`, or it raises.
pub data Said : Type 0 where
  goes_on stops : Said
  rejects : HttpException → Said
  fails : Raised → Said

-- A request that a plugin returns takes the place of the old one.
pub record Heard (Q : Type 0) : Type 0 where
  pub plugin : Q
  pub shared : Shared
  pub request : Message
  pub said : Said

-- How a method ends that is given bytes.
pub data Passing : Type 0 where
  passes : Bytes → Passing
  keeps : Passing
  throws : HttpException → Passing
  breaks : Raised → Passing

pub record Passed (Q : Type 0) : Type 0 where
  pub plugin : Q
  pub shared : Shared
  pub passing : Passing

-- `HttpProxyBasePlugin`: the methods of the plugins, whose states are of the type `Q`.
pub record ProxyPlugins (Q : Type 0) : Type 0 where
  pub before_upstream_connection : Q → Shared → Message → Heard Q
  pub handle_client_request : Q → Shared → Message → Heard Q
  pub handle_client_data : Q → Shared → Bytes → Passed Q
  pub handle_upstream_chunk : Q → Shared → Bytes → Passed Q
  pub resolve_dns : Q → Bytes → ℤ → Result (Q × Option Bytes × Option Address)
  pub do_intercept : Q → Message → Bool
  pub get_descriptors : Q → List ℤ × List ℤ
  pub read_from_descriptors : List ℤ → Q → Shared → Result (Q × Shared × Bool)
  pub write_to_descriptors : List ℤ → Q → Shared → Result (Q × Shared × Bool)
  pub on_upstream_connection_close : Q → Q

-- `plugins` are the values of the dict, in their order. `upstream` is the identity of the connection,
-- which stands among the objects of the pool, whether the pool keeps it or not.
pub record HttpProxy (Q : Type 0) : Type 0 where
  pub client : Connection
  pub request : Message
  pub upstream : Option ℕ
  pub pool : Pool
  pub response : Message
  pub pipeline_request : Option Message
  pub pipeline_response : Option Message
  pub plugins : List Q

abbrev pub Asked : Type 0 → Type 0
Asked Q = List Q × Shared × Message × Said

-- The answer to an exception that a parser or a builder raises.
abbrev pub reply_of : Raised → Reply
reply_of Raised.http_protocol = rejected protocol_exception
reply_of Raised.auth_failed = rejected authentication_failed
reply_of e = failed e

abbrev pub is_given : Option Bytes → Option Address → Bool
is_given (some (c ∷ cs)) source = true
is_given ip none = false
is_given ip (some a) = true

module _ {Q : Type 0} where
  -- The loop goes on with the rest, or leaves it as it is.
  abbrev pub ask_rest : Heard Q → Said → List Q → Asked Q → Asked Q
  ask_rest h goes_on qs (qs', shared, request, said) = (h.plugin ∷ qs', shared, request, said)
  ask_rest h said qs rest = (h.plugin ∷ qs, h.shared, h.request, said)

  -- `for plugin in self.plugins.values(): r = method(request) ...`
  unfoldable pub ask : (Q → Shared → Message → Heard Q) → List Q → Shared → Message → Asked Q
  ask method [] shared request = ([], shared, request, goes_on)
  ask method (q ∷ qs) shared request =
      let h = method q shared request in ask_rest h h.said qs (ask method qs h.shared h.request)

  abbrev pub pass_rest :
      Passed Q → Passing → List Q → (Bytes → List Q × Shared × Passing) → List Q × Shared × Passing
  pass_rest h (passes raw) qs rest =
      let (qs', shared, passing) = rest raw in (h.plugin ∷ qs', shared, passing)
  pass_rest h passing qs rest = (h.plugin ∷ qs, h.shared, passing)

  -- `for plugin in self.plugins.values(): raw = method(raw) ...`
  unfoldable pub pass_on :
      (Q → Shared → Bytes → Passed Q) → List Q → Shared → Bytes → List Q × Shared × Passing
  pass_on method [] shared raw = ([], shared, passes raw)
  pass_on method (q ∷ qs) shared raw =
      let h = method q shared raw in pass_rest h h.passing qs (pass_on method qs h.shared)

  -- The loops of `write_to_descriptors` and `read_from_descriptors`, which end with the first that tears down.
  unfoldable pub poll :
      (Q → Shared → Result (Q × Shared × Bool)) → List Q → Shared → Result (List Q × Shared × Bool)
  poll method [] shared = ok ([], shared, false)
  poll method (q ∷ qs) shared = method q shared >>= λ (q', shared', teardown).
      let rest = (poll method qs shared' >>= λ (qs', c, torn). ok (q' ∷ qs', c, torn)) in
      if teardown then ok (q' ∷ qs, shared', true) else rest

  -- The loop over `resolve_dns`, from the answers of the last plugin.
  unfoldable pub resolve :
      (Q → Bytes → ℤ → Result (Q × Option Bytes × Option Address))
      → Bytes
      → ℤ
      → List Q
      → Option Bytes × Option Address
      → Result (List Q × Option Bytes × Option Address)
  resolve method host port [] (ip, source) = ok ([], ip, source)
  resolve method host port (q ∷ qs) last = method q host port >>= λ (q', ip, source).
      let rest =
        (resolve method host port qs (ip, source) >>= λ (qs', i, s). ok (q' ∷ qs', i, s)) in
      if is_given ip source then ok (q' ∷ qs, ip, source) else rest

  -- The loop over `do_intercept`, from the answer of the last plugin.
  unfoldable pub all_intercept : (Q → Message → Bool) → Message → Bool → List Q → Bool
  all_intercept method request last [] = last
  all_intercept method request last (q ∷ qs) =
      let rest = all_intercept method request true qs in if method q request then rest else false

  -- `_tls_intercept_enabled`
  unfoldable pub tls_intercept_enabled : Flags → ProxyPlugins Q → HttpProxy Q → Bool
  unfolding all_intercept
  tls_intercept_enabled flags plugins p =
      if flags.tls_interception_enabled
      then all_intercept plugins.do_intercept p.request true p.plugins
      else false

  abbrev pub shared_of : HttpProxy Q → Shared
  shared_of p = (p.client, p.pool)

  -- What the loop has left in the plugin.
  abbrev pub after_ask : HttpProxy Q → Asked Q → HttpProxy Q
  after_ask p (qs, shared, request, said) = record p {
    plugins = qs;
    client = shared.0;
    pool = shared.1;
    request = request;
  }

  abbrev pub after_pass : HttpProxy Q → List Q × Shared × Passing → HttpProxy Q
  after_pass p (qs, shared, passing) = record p { plugins = qs; client = shared.0; pool = shared.1 }

  -- `self.client.queue`
  abbrev pub queue_client : Bytes → HttpProxy Q → HttpProxy Q
  queue_client raw p = record p { client = queue raw p.client }

  -- `self.upstream.queue`
  unfoldable pub queue_upstream : ℕ → Bytes → HttpProxy Q → HttpProxy Q
  queue_upstream i raw p = record p {
    pool = update_object (λ s. record s { state = queue raw s.state }) i p.pool;
  }

  abbrev pub object_of : HttpProxy Q → ℕ → Option Server
  object_of p i = get i p.pool.objects
