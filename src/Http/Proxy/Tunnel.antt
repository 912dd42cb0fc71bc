-- ===== src/Http/Proxy/Tunnel.antt =====
-- A tunnel carries bytes as they come.
use proxy_py.Base.{
  ℕ, ◌≡◌, refl, sym, ap, ◌∙◌, Bool, true, false, Option, none, some, List, [], ◌∷◌, ◌++◌, ◌+◌, ◌&&◌,
  length, append_assoc, append-nil, ==-refl, number_eq, Bytes, Run, then_run, Result, ok, raise,
  if◌then◌else◌, http_protocol,
}
use mathlib.Core.Path.{subst}
use proxy_py.Dict.Laws.{get-put}
use proxy_py.Core.Connection.{queue}
use proxy_py.Core.Connection.Stream.{pending, pending-queue}
use proxy_py.Core.Pool.{Server, update_object}
use proxy_py.Http.Message.{complete}
use proxy_py.Http.Parser.{is_state}
use proxy_py.Http.Handler.{Reply, answer, upgraded, rejected, failed}
use proxy_py.Http.Proxy.State.{
  Shared, shared_of, Flags, ProxyPlugins, HttpProxy, Passing, passes, pass_on, queue_upstream,
  object_of, tls_intercept_enabled, after_pass,
}
use proxy_py.Http.Proxy.Data.{on_client_data, upstream_data, offer, is_closed, is_readable}
use proxy_py.Http.Proxy.Io.{upstream_chunk, follow_response, chunk_passed}

pub data Event : Type 0 where
  from_client from_server : Bytes → Event

pub client_bytes : List Event → Bytes
client_bytes [] = []
client_bytes (from_client raw ∷ es) = raw ++ client_bytes es
client_bytes (from_server raw ∷ es) = client_bytes es

pub server_bytes : List Event → Bytes
server_bytes [] = []
server_bytes (from_client raw ∷ es) = server_bytes es
server_bytes (from_server raw ∷ es) = raw ++ server_bytes es

module _ {Q : Type 0} (fuel : ℕ) (flags : Flags) (plugins : ProxyPlugins Q) (agent : Bytes) where
  -- Whether a call asks for the end of the connection.
  abbrev settled : HttpProxy Q × Reply → Result (HttpProxy Q × Bool)
  settled (p, answer teardown) = ok (p, teardown)
  settled (p, upgraded) = ok (p, false)
  settled (p, rejected e) = raise http_protocol
  settled (p, failed e) = raise e

  abbrev settled_run : Option (HttpProxy Q × Reply) → Run (HttpProxy Q × Bool)
  settled_run none = none
  settled_run (some r) = some (settled r)

  pub step : Event → HttpProxy Q → Run (HttpProxy Q × Bool)
  step (from_client raw) p = settled_run (on_client_data fuel flags plugins agent raw p)
  step (from_server raw) p = upstream_chunk fuel flags plugins raw p

  -- The plugin's methods, called with what comes from the two sides, in any order, until one asks for the end.
  pub relay : List Event → HttpProxy Q → Run (HttpProxy Q × Bool)
  unfolding step
  relay [] p = some (ok (p, false))
  relay (e ∷ es) p =
      then_run (step e p)
        λ (q, torn). let rest = relay es q in if torn then some (ok (q, true)) else rest

  -- An open tunnel to the server `s`, which is the object `i`.
  pub record IsTunnel (i : ℕ) (s : Server) (p : HttpProxy Q) : Type 0 where
    pub connects : p.request.is_https_tunnel ≡ true
    pub has_server : p.upstream ≡ some i
    pub is_there : object_of p i ≡ some s
    pub is_open : s.state.closed ≡ false

  -- The plugins hand on what comes from a server.
  abbrev pub HandOn : Type 0
  HandOn =
      (q : Q) (shared : Shared) (raw : Bytes)
      → ((plugins.handle_upstream_chunk q shared raw).shared ≡ shared)
        × ((plugins.handle_upstream_chunk q shared raw).passing ≡ passes raw)

  pass_on-HandOn :
      HandOn
      → (qs : List Q) (shared : Shared) (raw : Bytes)
      → ((pass_on plugins.handle_upstream_chunk qs shared raw).1 ≡ shared)
        × ((pass_on plugins.handle_upstream_chunk qs shared raw).2 ≡ passes raw)
  unfolding pass_on
  pass_on-HandOn hand_on [] shared raw = (refl, refl)
  pass_on-HandOn hand_on (q ∷ qs) shared raw =
      let (same_client, handed) = hand_on q shared raw in
      rw (handed, same_client) (pass_on-HandOn hand_on qs shared raw)

  queued : Bytes → Server → Server
  queued raw s = record s { state = queue raw s.state }

  -- What an event does to a tunnel.
  abbrev pub Moved : ℕ → Server → HttpProxy Q → Bytes → Bytes → Run (HttpProxy Q × Bool) → Type 0
  Moved i s p up down r =
      (q : HttpProxy Q) × (s' : Server) × (r ≡ some (ok (q, false)))
      × IsTunnel i s' q
      × (pending s'.state ≡ pending s.state ++ up)
      × (pending q.client ≡ pending p.client ++ down)

  queue_upstream-Moved :
      (i : ℕ) (s : Server) (p : HttpProxy Q) (raw : Bytes)
      → IsTunnel i s p
      → Moved i s p raw [] (some (ok (queue_upstream i raw p, false)))
  unfolding queue_upstream update_object queued queue
  queue_upstream-Moved i s p raw t = (
    queue_upstream i raw p,
    queued raw s,
    refl,
    record {
      connects = t.connects;
      has_server = t.has_server;
      is_there = rw t.is_there (get-put i i (queued raw s) p.pool.objects ∙ rw (==-refl i) refl);
      is_open = t.is_open;
    },
    pending-queue raw s.state,
    sym (append-nil (pending p.client)),
  )

  is_unreadable :
      (p : HttpProxy Q)
      → flags.tls_interception_enabled ≡ false
      → p.request.is_https_tunnel ≡ true
      → is_readable flags plugins p ≡ false
  unfolding tls_intercept_enabled
  is_unreadable p e t = rw (e, t) (never (is_state p.request.state complete))
    where
      never : (b : Bool) → (b && false) ≡ false
      never true = refl
      never false = refl

  upstream_data_queued :
      (i : ℕ) (p : HttpProxy Q) (raw : Bytes)
      → is_readable flags plugins p ≡ false
      → upstream_data fuel flags plugins agent raw i p ≡ some (queue_upstream i raw p, answer false)
  unfolding upstream_data
  upstream_data_queued i p raw e = rw e

  client_step :
      (i : ℕ) (s : Server) (p : HttpProxy Q) (raw : Bytes)
      → flags.tls_interception_enabled ≡ false
      → IsTunnel i s p
      → step (from_client raw) p ≡ some (ok (queue_upstream i raw p, false))
  unfolding step on_client_data
  client_step i s p raw e t = by_upstream p.upstream t.has_server
    where
      by_upstream :
          (o : Option ℕ)
          → o ≡ some i
          → settled_run (elim o [
            | none ↦ some (offer plugins raw p)
            | some j ↦
                if is_closed (object_of p j)
                then some (p, answer false)
                else upstream_data fuel flags plugins agent raw j p
          ])
            ≡ some (ok (queue_upstream i raw p, false))
      by_upstream o q =
          rw (q, t.is_there, t.is_open, upstream_data_queued i p raw (is_unreadable p e t.connects))

  client-Moved :
      (i : ℕ) (s : Server) (p : HttpProxy Q) (raw : Bytes)
      → flags.tls_interception_enabled ≡ false
      → IsTunnel i s p
      → Moved i s p raw [] (step (from_client raw) p)
  client-Moved i s p raw e t = rw (client_step i s p raw e t) (queue_upstream-Moved i s p raw t)

  -- The response is not read, only measured.
  followed : Bytes → HttpProxy Q → HttpProxy Q
  followed raw p = record p {
    response = record (p.response) { total_size = p.response.total_size + length raw };
  }

  follow_tunnel :
      (p : HttpProxy Q) (raw : Bytes)
      → flags.tls_interception_enabled ≡ false
      → p.request.is_https_tunnel ≡ true
      → follow_response fuel flags plugins raw p ≡ some (ok (followed raw p))
  unfolding follow_response tls_intercept_enabled followed
  follow_tunnel p raw e t = rw (e, t) refl

  server-Moved :
      HandOn
      → (i : ℕ) (s : Server) (p : HttpProxy Q) (raw : Bytes)
      → flags.tls_interception_enabled ≡ false
      → IsTunnel i s p
      → Moved i s p [] raw (step (from_server raw) p)
  unfolding step upstream_chunk followed
  server-Moved hand_on i s p raw e t =
      by_pass (pass_on plugins.handle_upstream_chunk p.plugins (shared_of p) raw)
        (pass_on-HandOn hand_on p.plugins (shared_of p) raw)
    where
      by_pass :
          (r : List Q × Shared × Passing)
          → (r.1 ≡ shared_of p) × (r.2 ≡ passes raw)
          → Moved i s p [] raw (chunk_passed fuel flags plugins (after_pass p r) r.2)
      by_pass (qs, shared, h) (same_shared, handed) =
          subst
            (λ c. Moved i s p [] raw (chunk_passed fuel flags plugins (after_pass p (qs, c, h)) h))
            (sym same_shared)
            (rw (handed, follow_tunnel (record p { plugins = qs }) raw e t.connects)
              (
                _,
                s,
                refl,
                record {
                  connects = t.connects;
                  has_server = t.has_server;
                  is_there = t.is_there;
                  is_open = t.is_open;
                },
                sym (append-nil (pending s.state)),
                pending-queue raw p.client,
              ))

  -- Where no plugin changes what comes from the server, queues for the client or uses the pool on that occasion, and TLS is not intercepted: however the two sides of a tunnel
  -- take turns, every call returns and none asks for the end, the tunnel stays open, and what is to be sent to either side is what was to
  -- be sent and then all that came from the other, in order, byte for byte.
  pub relay-Carried :
      HandOn
      → flags.tls_interception_enabled ≡ false
      → (i : ℕ) (es : List Event) (s : Server) (p : HttpProxy Q) → IsTunnel i s p
      → Moved i s p (client_bytes es) (server_bytes es) (relay es p)
  unfolding relay client_bytes server_bytes
  relay-Carried hand_on e i [] s p t =
      (p, s, refl, t, sym (append-nil (pending s.state)), sym (append-nil (pending p.client)))
  relay-Carried hand_on e i (from_client raw ∷ es) s p t =
      let (q, s', r, t', up, down) = client-Moved i s p raw e t in
      let (q', s'', r', t'', up', down') = relay-Carried hand_on e i es s' q t' in
      (
        q',
        s'',
        rw r r',
        t'',
        up'
            ∙ (ap (λ b. b ++ client_bytes es) up
                ∙ append_assoc (pending s.state) raw (client_bytes es)),
        down' ∙ (ap (λ b. b ++ server_bytes es) (down ∙ append-nil (pending p.client))),
      )
  relay-Carried hand_on e i (from_server raw ∷ es) s p t =
      let (q, s', r, t', up, down) = server-Moved hand_on i s p raw e t in
      let (q', s'', r', t'', up', down') = relay-Carried hand_on e i es s' q t' in
      (
        q',
        s'',
        rw r r',
        t'',
        up' ∙ (ap (λ b. b ++ client_bytes es) (up ∙ append-nil (pending s.state))),
        down'
            ∙ (ap (λ b. b ++ server_bytes es) down
                ∙ append_assoc (pending p.client) raw (server_bytes es)),
      )
