-- ===== src/Http/Proxy/Closing.antt =====
-- What becomes of the socket to the server when a proxy has done with it.
pub mod Release
use proxy_py.Base.{
  ℕ, ◌≡◌, ◌≢◌, refl, sym, ap, ◌∙◌, inl, inr, Bool, true, false, not, ◌||◌, Option, none, some, List,
  if◌then◌else◌, ◌==◌, ==_iff, ==-refl, Bool-cases, number_eq, Bytes, ◌>>=◌, guard, Returns,
  Returns-bind, Returns-ok, Raised, Run, Result, ok, raise, assertion_error, attribute_error,
  key_error,
}
use proxy_py.Base.Int.{int_eq, pair_eq, ℤ, pos}
use proxy_py.Sets.{is_member}
use proxy_py.Dict.{get, put}
use proxy_py.Dict.Laws.{get-put}
use proxy_py.Core.Connection.{recv}
use proxy_py.Core.Pool.{
  Server, Pool, found, members, fileno_of, close_server, remove_object, remove_fileno, release,
  update_object,
}
use proxy_py.Http.Proxy.State.{shared_of, Flags, ProxyPlugins, HttpProxy, object_of, poll}
use proxy_py.Http.Proxy.Data.{is_closed}
use proxy_py.Http.Proxy.Io.{
  mark_closed, close_and_release, close_upstream, on_client_connection_close, shut_down,
  told_closed, after_recv, timed_out, read_from_descriptors, polled, by_descriptor,
}
use proxy_py.Http.Proxy.Closing.Release.{
  IsShut, release-still, release-shuts, closed_server, get-mark_closed, get-shut_down,
}

module _ {Q : Type 0} (flags : Flags) where
  close_and_release-still :
      (i : ℕ) (s : Server) (p : HttpProxy Q)
      → flags.enable_conn_pool ≡ true
      → p.upstream ≡ some i
      → object_of p i ≡ some s
      → Returns
          (λ (r : HttpProxy Q × Bool).
            (r.1 ≡ true) × (r.0.upstream ≡ none) × IsShut i s.shut r.0.pool)
          (close_and_release flags p)
  unfolding close_and_release
  close_and_release-still i s p pooled has_server e = by_upstream p.upstream has_server
    where
      by_closed :
          (b : Bool)
          → Returns
              (λ (r : HttpProxy Q × Bool).
                (r.1 ≡ true) × (r.0.upstream ≡ none) × IsShut i s.shut r.0.pool)
              (if b
                then raise assertion_error
                else (release i (mark_closed i p.pool) >>= λ pool.
                    ok (record p { pool = pool; upstream = none }, true)))
      by_closed true = tt
      by_closed false = Returns-bind _ (release i (mark_closed i p.pool)) _ λ pool e'. (
        refl,
        refl,
        Returns-ok (IsShut i s.shut) (release i (mark_closed i p.pool)) pool
            (release-still i (closed_server s) (mark_closed i p.pool) (get-mark_closed i s p.pool e)
              refl)
            e',
      )

      by_upstream :
          (o : Option ℕ)
          → o ≡ some i
          → Returns
              (λ (r : HttpProxy Q × Bool).
                (r.1 ≡ true) × (r.0.upstream ≡ none) × IsShut i s.shut r.0.pool)
              (if flags.enable_conn_pool
                then elim o as (λ _. Result (HttpProxy Q × Bool)) [
                  | none ↦ raise assertion_error
                  | some j ↦
                      if is_closed (object_of p j)
                      then raise assertion_error
                      else (release j (mark_closed j p.pool) >>= λ pool.
                          ok (record p { pool = pool; upstream = none }, true))
                ]
                else ok (p, true))
      by_upstream o q = rw (pooled, q) (by_closed (is_closed (object_of p i)))

  -- With a pool: where `_close_and_release` returns, it asks for the end and the server is forgotten, but the server's socket
  -- is not closed, unless it was closed before.
  pub close_and_release-IsShut :
      (i : ℕ) (s : Server) (p q : HttpProxy Q) (torn : Bool)
      → flags.enable_conn_pool ≡ true
      → p.upstream ≡ some i
      → object_of p i ≡ some s
      → close_and_release flags p ≡ ok (q, torn)
      → (torn ≡ true) × (q.upstream ≡ none) × IsShut i s.shut q.pool
  close_and_release-IsShut i s p q torn pooled has_server e returned =
      Returns-ok
        (λ (r : HttpProxy Q × Bool).
          (r.1 ≡ true) × (r.0.upstream ≡ none) × IsShut i s.shut r.0.pool)
        _ (q, torn) (close_and_release-still i s p pooled has_server e) returned

  on_client_connection_close-shuts :
      (plugins : ProxyPlugins Q) (i f : ℕ) (s : Server) (p : HttpProxy Q)
      → p.upstream ≡ some i
      → object_of p i ≡ some s
      → s.state.closed ≡ false
      → s.fileno ≡ some f
      → s.shut ≡ false
      → (flags.enable_conn_pool ≡ true → get (pos f) p.pool.connections ≡ some i)
      → Returns (λ q. IsShut i true q.pool) (on_client_connection_close flags plugins p)
  unfolding on_client_connection_close
  on_client_connection_close-shuts plugins i f s p has_server e opened has_f unshut known =
      by_upstream p.upstream has_server (told_closed plugins.on_upstream_connection_close p.plugins)
    where
      by_flag :
          (qs : List Q) (b : Bool)
          → flags.enable_conn_pool ≡ b
          → Returns
              (λ q. IsShut i true q.pool)
              (if b
                then (release i p.pool >>= λ pool. ok (record p { plugins = qs; pool = pool }))
                else ok (record p { plugins = qs; pool = update_object shut_down i p.pool }))
      by_flag qs true q = Returns-bind _ (release i p.pool) _ λ pool e'.
          Returns-ok (IsShut i true) (release i p.pool) pool
            (release-shuts i f s p.pool e opened has_f unshut (known q)) e'
      by_flag qs false q = get-shut_down i f s p.pool e opened has_f

      by_upstream :
          (o : Option ℕ)
          → o ≡ some i
          → (qs : List Q)
          → Returns (λ q. IsShut i true q.pool) (close_upstream flags (record p { plugins = qs }) o)
      by_upstream o q qs = rw q (by_flag qs flags.enable_conn_pool refl)

  -- Where the end of the client's connection returns, it has closed the socket to the server, if that was open, connected
  -- and, with a pool, known to the pool by its descriptor.
  pub on_client_connection_close-IsShut :
      (plugins : ProxyPlugins Q) (i f : ℕ) (s : Server) (p q : HttpProxy Q)
      → p.upstream ≡ some i
      → object_of p i ≡ some s
      → s.state.closed ≡ false
      → s.fileno ≡ some f
      → s.shut ≡ false
      → (flags.enable_conn_pool ≡ true → get (pos f) p.pool.connections ≡ some i)
      → on_client_connection_close flags plugins p ≡ ok q
      → IsShut i true q.pool
  on_client_connection_close-IsShut plugins i f s p q has_server e opened has_f unshut known
        returned =
      Returns-ok (λ (r : HttpProxy Q). IsShut i true r.pool) _ q
        (on_client_connection_close-shuts plugins i f s p has_server e opened has_f unshut known)
        returned

  -- With a pool, a timeout on an open connection to the server that is ready to read always ends in an exception, though
  -- the code means to return `True`.
  pub read_from_descriptors-timeout :
      (fuel : ℕ) (plugins : ProxyPlugins Q) (receive : ℕ → Result Bytes) (fs : List ℤ) (i f : ℕ)
      (s : Server) (p : HttpProxy Q)
      → flags.enable_conn_pool ≡ true
      → p.upstream ≡ some i
      → object_of p i ≡ some s
      → s.state.closed ≡ false
      → s.fileno ≡ some f
      → s.shut ≡ false
      → is_member (pos f) fs ≡ true
      → receive flags.server_recvbuf_size ≡ raise Raised.timeout
      → (e : Raised) × (read_from_descriptors fuel flags plugins receive fs p ≡ some (raise e))
  unfolding read_from_descriptors recv
  read_from_descriptors-timeout fuel plugins receive fs i f s p pooled has_server e opened has_f
        unshut ready slow =
      by_upstream p.upstream has_server
        (some (polled p (poll (plugins.read_from_descriptors fs) p.plugins (shared_of p))))
    where
      by_result :
          (r : Result (HttpProxy Q × Bool))
          → (x : Raised) × (◌≡◌ {A = Run (HttpProxy Q × Bool)}
              (some (r >>= timed_out flags))
              (some (raise x)))
      by_result (raise x) = (x, refl)
      by_result (ok (q, torn)) = (attribute_error, rw pooled refl)

      by_upstream :
          (o : Option ℕ)
          → o ≡ some i
          → (others : Run (HttpProxy Q × Bool))
          → (x : Raised) × (◌≡◌ {A = Run (HttpProxy Q × Bool)}
              (elim o as (λ _. Run (HttpProxy Q × Bool)) [
                | none ↦ others
                | some j ↦
                    by_descriptor some
                      (object_of p j)
                      fs
                      p
                      (λ t.
                        after_recv fuel flags plugins p (recv receive flags.server_recvbuf_size))
                      others
              ])
              (some (raise x)))
      by_upstream o q others =
          rw (q, e, opened, has_f, unshut, ready, slow) (by_result (close_and_release flags p))
