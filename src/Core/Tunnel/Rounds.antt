-- ===== src/Core/Tunnel/Rounds.antt =====
-- Rounds of a tunnel, one after another.
use proxy_py.Base.{
  ℕ, ◌≡◌, refl, Bool, true, false, Option, List, [], ◌∷◌, ◌++◌, if◌then◌else◌, Bytes, ◌>>=◌, Result,
  Returns, Returns-bind, Returns-ok, ok, raise,
}
use proxy_py.Core.Connection.Stream.{IsSocket, pending}
use proxy_py.Core.Pool.{Server}
use proxy_py.Core.Server.{Round}
use proxy_py.Core.Tunnel.{Tunnel, TunnelImplementation, handle_events}
use proxy_py.Core.Tunnel.Moves.{came, Joined, Forwards, Moved}
use proxy_py.Core.Connection.{Socket}
use proxy_py.Core.Connection.Wire.{Carried, Carried-nil, Carried-append}
use proxy_py.Core.Tunnel.Carried.{handle_events-Moved}

-- What the client or the server has sent in all rounds.
abbrev pub all_came : (Round × Round → Round) → ℕ → List (Round × Round) → Bytes
all_came side size [] = []
all_came side size (r ∷ rs) = came size (side r) ++ all_came side size rs

abbrev pub AreSockets : List (Round × Round) → Type 0
AreSockets [] = Unit
AreSockets (r ∷ rs) = IsSocket r.0.send × IsSocket r.1.send × AreSockets rs

-- The sockets of one side, in order.
abbrev pub all_sockets : (Round × Round → Round) → List (Round × Round) → List Socket
all_sockets side [] = []
all_sockets side (r ∷ rs) = (side r).send ∷ all_sockets side rs

module _ (handle_data : TunnelImplementation) (max_sendbuf_size : Option ℕ)
    (client_recvbuf_size server_recvbuf_size : ℕ) where
  -- The loop calls `handle_events` until that asks for the end.
  unfoldable pub run_rounds : List (Round × Round) → Tunnel → Result (Tunnel × Bool)
  run_rounds [] t = ok (t, false)
  run_rounds ((client, server) ∷ rs) t =
      handle_events handle_data max_sendbuf_size client_recvbuf_size server_recvbuf_size client
        server t
      >>= λ (u, torn). let rest = run_rounds rs u in if torn then ok (u, true) else rest

  module _ (f : ℕ) (forwards : Forwards handle_data f) where
    abbrev MovedAll : List (Round × Round) → Server → Tunnel → Tunnel × Bool → Type 0
    MovedAll rs s t r =
        r.1 ≡ false
        → Moved (all_sockets (λ x. x.0) rs) (all_sockets (λ x. x.1) rs) f s t
            (all_came (λ x. x.0) client_recvbuf_size rs)
            (all_came (λ x. x.1) server_recvbuf_size rs) r.0

    run_rounds-MovedAll :
        (rs : List (Round × Round)) (s : Server) (t : Tunnel)
        → AreSockets rs
        → Joined f s t
        → Returns (MovedAll rs s t) (run_rounds rs t)
    unfolding run_rounds
    run_rounds-MovedAll [] s t k j =
        λ e. (s, j, Carried-nil (pending t.server.work), Carried-nil (pending s.state))
    run_rounds-MovedAll ((client, server) ∷ rs) s t (c, d, k) j =
        Returns-bind (MovedAll ((client, server) ∷ rs) s t)
          (handle_events handle_data max_sendbuf_size client_recvbuf_size server_recvbuf_size client
            server t)
          _ (λ (u, torn) e. by_torn (λ v s' j'. run_rounds-MovedAll rs s' v k j') u torn e)
      where
        later :
            (u : Tunnel)
            → (s' : Server) → Joined f s' u
            → Carried
                (client.send ∷ [])
                (pending t.server.work)
                (came server_recvbuf_size server)
                (pending u.server.work)
            → Carried
                (server.send ∷ [])
                (pending s.state)
                (came client_recvbuf_size client)
                (pending s'.state)
            → (o : Result (Tunnel × Bool)) → Returns (MovedAll rs s' u) o
            → Returns (MovedAll ((client, server) ∷ rs) s t) o
        later u s' j' a b (raise x) h = tt
        later u s' j' a b (ok r) h = λ e.
            let (v, w, a', b') = h e in
            (
              v,
              w,
              Carried-append (client.send ∷ []) _ _ _ _ (came server_recvbuf_size server) _ a a',
              Carried-append (server.send ∷ []) _ _ _ _ (came client_recvbuf_size client) _ b b',
            )

        by_torn :
            ((v : Tunnel) (s' : Server)
              → Joined f s' v
              → Returns (MovedAll rs s' v) (run_rounds rs v))
            → (u : Tunnel) (torn : Bool)
            → handle_events handle_data max_sendbuf_size client_recvbuf_size server_recvbuf_size
                client server t
              ≡ ok (u, torn)
            → Returns
                (MovedAll ((client, server) ∷ rs) s t)
                (if torn then ok (u, true) else run_rounds rs u)
        by_torn rest u true e = λ e'. cc
        by_torn rest u false e =
            let (s', j', a, b) =
              handle_events-Moved handle_data f forwards max_sendbuf_size client_recvbuf_size
                server_recvbuf_size client server c d s t u j e in
            later u s' j' a b (run_rounds rs u) (rest u s' j')

    pub run_rounds-Moved :
        (rs : List (Round × Round)) (s : Server) (t u : Tunnel)
        → AreSockets rs
        → Joined f s t
        → run_rounds rs t ≡ ok (u, false)
        → Moved
            (all_sockets (λ x. x.0) rs)
            (all_sockets (λ x. x.1) rs)
            f
            s
            t
            (all_came (λ x. x.0) client_recvbuf_size rs)
            (all_came (λ x. x.1) server_recvbuf_size rs)
            u
    run_rounds-Moved rs s t u k j e =
        Returns-ok (MovedAll rs s t) _ (u, false) (run_rounds-MovedAll rs s t k j) e refl
