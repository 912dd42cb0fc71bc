-- ===== src/Core/Tunnel/Moves.antt =====
-- What a round moves through a tunnel, and what its client's part does.
use proxy_py.Base.{
  List, ◌∷◌, ℕ, ◌≡◌, refl, sym, ap, ◌∙◌, inl, inr, Bool, true, false, Option, none, some, [], ◌++◌,
  append-nil, if◌then◌else◌, Bool-cases, Bytes, Result, Returns, Returns-bind, Returns-ok, ok,
  raise, connection_reset, timeout,
}
use proxy_py.Core.Connection.{Socket, queue, recv}
use proxy_py.Core.Connection.Stream.{
  concat, IsSocket, IsCounted, pending, pending-queue, queue-IsCounted,
}
use proxy_py.Core.Connection.Wire.{Carried}
use proxy_py.Core.Pool.{Server}
use proxy_py.Core.Server
use proxy_py.Core.Server.{Handler, Round, after_data}
use proxy_py.Core.Server.Writes.{SentOn, handle_writables-SentOn}
use proxy_py.Core.Tunnel.{Tunnel, TunnelImplementation, after_recv, handle_client}

-- What a `recv` has brought.
abbrev pub bytes_of : Result (Option Bytes) → Bytes
bytes_of (ok (some raw)) = raw
bytes_of _ = []

abbrev pub came : ℕ → Round → Bytes
came size r = if r.readable then bytes_of (recv r.receive size) else []

-- A connected tunnel.
abbrev pub Joined : ℕ → Server → Tunnel → Type 0
Joined f s t =
    (t.upstream ≡ some s) × (s.fileno ≡ some f) × IsCounted t.server.work × IsCounted s.state

-- Data of the client go to the server, and nothing else happens.
abbrev pub Forwards : TunnelImplementation → ℕ → Type 0
Forwards handle_data f =
    (t : Tunnel) (s : Server) (raw : Bytes)
    → t.upstream ≡ some s
    → s.fileno ≡ some f
    → handle_data t raw
      ≡ ok (record t { upstream = some (record s { state = queue raw s.state }) }, none)

-- How flushes to the sockets of the client and of the server leave a tunnel that goes on: `from_client` and
-- `from_server` have come.
abbrev pub Moved : List Socket → List Socket → ℕ → Server → Tunnel → Bytes → Bytes → Tunnel → Type 0
Moved to_client to_server f s t from_client from_server u =
    (s' : Server) × Joined f s' u
    × Carried to_client (pending t.server.work) from_server (pending u.server.work)
    × Carried to_server (pending s.state) from_client (pending s'.state)

-- The same before the server has its turn.
abbrev Heard : ℕ → Server → Tunnel → Bytes → Tunnel × Bool → Type 0
Heard f s t raw r =
    r.1 ≡ false
    → (s' : Server) × Joined f s' r.0
      × (r.0.server.work ≡ t.server.work)
      × (pending s'.state ≡ pending s.state ++ raw)

-- After the client's part.
abbrev pub Left : Socket → ℕ → Server → Tunnel → Bytes → Tunnel × Bool → Type 0
Left socket f s t raw r =
    r.1 ≡ false
    → (s' : Server) × Joined f s' r.0
      × Carried (socket ∷ []) (pending t.server.work) [] (pending r.0.server.work)
      × (pending s'.state ≡ pending s.state ++ raw)

module _ (handle_data : TunnelImplementation) (f : ℕ) (forwards : Forwards handle_data f) where
  after_recv-Heard :
      (s : Server) (t : Tunnel) (got : Result (Option Bytes))
      → Joined f s t
      → Returns (Heard f s t (bytes_of got)) (after_recv handle_data t got)
  unfolding after_data
  after_recv-Heard s t (raise connection_reset) j = λ e. cc
  after_recv-Heard s t (raise timeout) j = λ e. cc
  after_recv-Heard s t (raise _) j = tt
  after_recv-Heard s t (ok none) j = λ e. cc
  after_recv-Heard s t (ok (some raw)) (u, n, c, d) = rw (forwards t s raw u n) (λ e. (
    record s { state = queue raw s.state },
    (refl, n, c, queue-IsCounted raw s.state d),
    refl,
    pending-queue raw s.state,
  ))

  Heard-Left :
      (socket : Socket) (s : Server) (t : Tunnel) (h : Handler) (raw : Bytes)
      → Carried (socket ∷ []) (pending t.server.work) [] (pending h.work)
      → (o : Result (Tunnel × Bool)) → Returns (Heard f s (record t { server = h }) raw) o
      → Returns (Left socket f s t raw) o
  Heard-Left socket s t h raw sent (raise x) k = tt
  Heard-Left socket s t h raw (outs, taken, e) (ok r) k = λ goes.
      let (s', j, w, p) = k goes in
      (s', j, (outs, taken, ap (λ x. concat outs ++ pending x) w ∙ e), p)

  module _ (max_sendbuf_size : Option ℕ) (client_recvbuf_size : ℕ) (client : Round)
      (c : IsSocket client.send) where
    read_client-Left :
        (s : Server) (t : Tunnel) (h : Handler) (torn : Bool)
        → Joined f s t
        → SentOn client.send t.server.work h.work
        → Returns (Left client.send f s t (came client_recvbuf_size client)) (
            if torn
            then ok (record t { server = h }, true)
            else if client.readable
            then after_recv handle_data
                (record t { server = h })
                (recv client.receive client_recvbuf_size)
            else ok (record t { server = h }, false))
    read_client-Left s t h true j k = λ e. cc
    read_client-Left s t h false (u, n, a, b) (sent, counted) = elim (Bool-cases client.readable) [
      | inl r ↦ rw r (
          Heard-Left client.send s t h (bytes_of (recv client.receive client_recvbuf_size)) sent _ (
            after_recv-Heard s (record t { server = h }) (recv client.receive client_recvbuf_size)
              (u, n, counted, b)))
      | inr r ↦ rw r (λ e'. (s, (u, n, counted, b), sent, sym (append-nil (pending s.state))))
    ]

    pub handle_client-Left :
        (s : Server) (t : Tunnel)
        → Joined f s t
        → Returns
            (Left client.send f s t (came client_recvbuf_size client))
            (handle_client handle_data max_sendbuf_size client_recvbuf_size client t)
    unfolding handle_client
    handle_client-Left s t j =
        Returns-bind (Left client.send f s t (came client_recvbuf_size client))
          (Server.handle_writables client.send max_sendbuf_size client.writable t.server) _
          (λ (h, torn) e. read_client-Left s t h torn j (
            Returns-ok (λ (r : Handler × Bool). SentOn client.send t.server.work r.0.work) _
              (h, torn)
              (handle_writables-SentOn client.send c max_sendbuf_size t.server (j.2)
                client.writable)
              e))
