-- ===== src/Core/Tunnel/Carried.antt =====
-- A tunnel loses no byte and changes no order.
use proxy_py.Base.{
  ℕ, ◌≡◌, refl, sym, ap, ◌∙◌, inl, inr, Bool, true, false, Option, none, some, [], ◌∷◌, ◌++◌,
  append-nil, if◌then◌else◌, Bool-cases, Bytes, ◌>>=◌, Result, Returns, Returns-bind, Returns-ok,
  ok, raise,
}
use proxy_py.Core.Connection.{Socket, Connection, recv, flush}
use proxy_py.Core.Connection.Stream.{IsSocket, pending, pending-queue, queue-IsCounted}
use proxy_py.Core.Pool.{Server, fileno_of}
use proxy_py.Base.Int.{pos, negsuc}
use mathlib.Core.Path.{subst}
use proxy_py.Core.Server.{Round}
use proxy_py.Core.Server.Writes.{SentOn, idle-SentOn}
use proxy_py.Core.Connection.Wire.{Carried, Carried-queue, flush-Carried}
use proxy_py.Core.Tunnel.{
  Tunnel, TunnelImplementation, handle_client, read_server, write_server, after_read, tunneled,
  flushed, handle_server, handle_events,
}
use proxy_py.Core.Tunnel.Moves.{bytes_of, came, Joined, Forwards, Moved, Left, handle_client-Left}

abbrev Goes : Socket → Socket → ℕ → Server → Tunnel → Bytes → Bytes → Tunnel × Bool → Type 0
Goes to_client to_server f s t from_client from_server r =
    r.1 ≡ false → Moved (to_client ∷ []) (to_server ∷ []) f s t from_client from_server r.0

fileno_of-ok :
    (s : Server) (f : ℕ) → s.fileno ≡ some f → fileno_of s ≡ ok (if s.shut then negsuc 0 else pos f)
fileno_of-ok s f e = rw e refl

module _ (handle_data : TunnelImplementation) (f : ℕ) (forwards : Forwards handle_data f) where
  module _ (max_sendbuf_size : Option ℕ) (client_recvbuf_size server_recvbuf_size : ℕ)
      (client server : Round) (c : IsSocket client.send) (d : IsSocket server.send) where
    read_server-Moved :
        (s : Server) (t : Tunnel)
        → Joined f s t
        → Returns
            (λ (r : Tunnel × Bool).
              r.1 ≡ false
              → Joined f s r.0
                × (pending r.0.server.work
                    ≡ pending t.server.work ++ came server_recvbuf_size server))
            (read_server server_recvbuf_size server t)
    read_server-Moved s t (u, n, a, b) = elim (Bool-cases server.readable) [
      | inl r ↦ rw r (by_got (recv server.receive server_recvbuf_size))
      | inr r ↦ rw r (λ e. ((u, n, a, b), sym (append-nil (pending t.server.work))))
    ]
      where
        by_got :
            (got : Result (Option Bytes))
            → Returns
                (λ (r : Tunnel × Bool).
                  r.1 ≡ false
                  → Joined f s r.0
                    × (pending r.0.server.work ≡ pending t.server.work ++ bytes_of got))
                (tunneled t got)
        by_got (raise e) = tt
        by_got (ok none) = λ e. cc
        by_got (ok (some raw)) =
            λ e. ((u, n, queue-IsCounted raw t.server.work a, b), pending-queue raw t.server.work)

    write_server-Moved :
        (s : Server) (t : Tunnel)
        → Joined f s t
        → Returns
            (λ (r : Tunnel × Bool).
              (s' : Server) × Joined f s' r.0
              × (r.0.server.work ≡ t.server.work)
              × Carried (server.send ∷ []) (pending s.state) [] (pending s'.state))
            (write_server max_sendbuf_size server s t)
    write_server-Moved s t (u, n, a, b) = elim (Bool-cases server.writable) [
      | inl w ↦ rw w (
          by_flush (flush server.send max_sendbuf_size s.state)
            (λ x m e. flush-Carried server.send d max_sendbuf_size s.state b x m e))
      | inr w ↦ rw w (s, (u, n, a, b), refl, (idle-SentOn server.send s.state b).0)
    ]
      where
        by_flush :
            (o : Result (Connection × ℕ))
            → ((x : Connection) (m : ℕ) → o ≡ ok (x, m) → SentOn server.send s.state x)
            → Returns
                (λ (r : Tunnel × Bool).
                  (s' : Server) × Joined f s' r.0
                  × (r.0.server.work ≡ t.server.work)
                  × Carried (server.send ∷ []) (pending s.state) [] (pending s'.state))
                (flushed t s o)
        by_flush (raise e) k = tt
        by_flush (ok (x, m)) k =
            let (sent, counted) = k x m refl in
            (record s { state = x }, (refl, n, a, counted), refl, sent)

    after_read-Moved :
        (s s' : Server) (t u : Tunnel) (closed : Bool) (before : Bytes)
        → Carried (client.send ∷ []) (pending t.server.work) [] before
        → pending s'.state ≡ pending s.state ++ came client_recvbuf_size client
        → (closed ≡ false
            → Joined f s' u × (pending u.server.work ≡ before ++ came server_recvbuf_size server))
        → Returns
            (Goes client.send server.send f s t
              (came client_recvbuf_size client)
              (came server_recvbuf_size server))
            (after_read max_sendbuf_size server s' (u, closed))
    after_read-Moved s s' t u true before sent p k = λ e'. cc
    after_read-Moved s s' t u false before sent p k =
        by_written (write_server max_sendbuf_size server s' u) (write_server-Moved s' u (k refl).0)
      where
        by_written :
            (o : Result (Tunnel × Bool))
            → Returns
                (λ (r : Tunnel × Bool).
                  (v : Server) × Joined f v r.0
                  × (r.0.server.work ≡ u.server.work)
                  × Carried (server.send ∷ []) (pending s'.state) [] (pending v.state))
                o
            → Returns
                (Goes client.send server.send f s t
                  (came client_recvbuf_size client)
                  (came server_recvbuf_size server))
                o
        by_written (raise x) h = tt
        by_written (ok r) (v, j, w, (outs, taken, q)) = λ goes. (
          v,
          j,
          subst
              (λ z.
                Carried (client.send ∷ []) (pending t.server.work) (came server_recvbuf_size server)
                  z)
              (sym (ap (λ x. pending x) w ∙ (k refl).1))
              (Carried-queue (client.send ∷ []) (pending t.server.work) [] before
                (came server_recvbuf_size server) sent),
          (outs, taken, q ∙ append-nil (pending s'.state) ∙ p),
        )

    handle_server-Moved :
        (s : Server) (t u : Tunnel)
        → Left client.send f s t (came client_recvbuf_size client) (u, false)
        → Returns
            (Goes client.send server.send f s t
              (came client_recvbuf_size client)
              (came server_recvbuf_size server))
            (handle_server max_sendbuf_size server_recvbuf_size server u u.upstream)
    handle_server-Moved s t u left =
        let (s', j, sent, p) = left refl in
        subst
          (λ o.
            Returns
              (Goes client.send server.send f s t (came client_recvbuf_size client)
                (came server_recvbuf_size server))
              (handle_server max_sendbuf_size server_recvbuf_size server u o))
          (sym (j.0))
          (subst
            (λ o.
              Returns
                (Goes client.send server.send f s t (came client_recvbuf_size client)
                  (came server_recvbuf_size server))
                (o >>= λ g.
                  (read_server server_recvbuf_size server u
                    >>= after_read max_sendbuf_size server s')))
            (sym (fileno_of-ok s' f (j.1)))
            (Returns-bind
              (Goes client.send server.send f s t (came client_recvbuf_size client)
                (came server_recvbuf_size server))
              (read_server server_recvbuf_size server u) (after_read max_sendbuf_size server s')
              (λ (v, closed) q.
                after_read-Moved s s' t v closed (pending u.server.work) sent p
                  (Returns-ok _ _ (v, closed) (read_server-Moved s' u j) q))))

    handle_events-Goes :
        (s : Server) (t : Tunnel)
        → Joined f s t
        → Returns
            (Goes client.send server.send f s t
              (came client_recvbuf_size client)
              (came server_recvbuf_size server))
            (handle_events handle_data max_sendbuf_size client_recvbuf_size server_recvbuf_size
              client server t)
    unfolding handle_events
    handle_events-Goes s t j =
        Returns-bind
          (Goes client.send server.send f s t (came client_recvbuf_size client)
            (came server_recvbuf_size server))
          (handle_client handle_data max_sendbuf_size client_recvbuf_size client t) _
          (λ (u, torn) e. by_torn u torn (
            Returns-ok (Left client.send f s t (came client_recvbuf_size client)) _ (u, torn)
              (handle_client-Left handle_data f forwards max_sendbuf_size client_recvbuf_size client
                c s t j)
              e))
      where
        by_torn :
            (u : Tunnel) (torn : Bool)
            → Left client.send f s t (came client_recvbuf_size client) (u, torn)
            → Returns
                (Goes client.send server.send f s t
                  (came client_recvbuf_size client)
                  (came server_recvbuf_size server))
                (if torn
                  then ok (u, true)
                  else handle_server max_sendbuf_size server_recvbuf_size server u u.upstream)
        by_torn u true k = λ e. cc
        by_torn u false k = handle_server-Moved s t u k

    -- An implementation that hands the data of the client of a connected tunnel to the server, and sockets that
    -- take no more than they are given: a round that returns and does not end the tunnel leaves it
    -- connected, and to either side the socket has been given and has taken the first of what was pending and then
    -- what the other side has sent in the round, in order, and the rest of it is what is pending now.
    pub handle_events-Moved :
        (s : Server) (t u : Tunnel)
        → Joined f s t
        → handle_events handle_data max_sendbuf_size client_recvbuf_size server_recvbuf_size client
            server t
          ≡ ok (u, false)
        → Moved
            (client.send ∷ [])
            (server.send ∷ [])
            f
            s
            t
            (came client_recvbuf_size client)
            (came server_recvbuf_size server)
            u
    handle_events-Moved s t u j e =
        Returns-ok
          (Goes client.send server.send f s t (came client_recvbuf_size client)
            (came server_recvbuf_size server))
          _ (u, false) (handle_events-Goes s t j) e refl
