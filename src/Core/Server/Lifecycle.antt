-- ===== src/Core/Server/Lifecycle.antt =====
-- Shutting down a client's connection only when its buffer is flushed.
use proxy_py.Base.{
  ℕ, ◌≡◌, refl, ◌⊎◌, inl, inr, Bool, true, false, ◌&&◌, Option, none, some, arith, if◌then◌else◌,
  Bool-cases, Bytes, ◌>>=◌, Result, connection_reset, timeout, ok, raise,
}
use proxy_py.Core.Connection.{Connection, has_buffer, Socket, recv, flush}
use proxy_py.Core.Server.{
  Handler, Implementation, after_writes, get_events, handle_writables, after_data, after_recv,
  handle_readables, handle_events, Round,
}

-- While the shutdown waits for the buffer, there is a buffer.
abbrev pub Waiting : Handler → Type 0
Waiting h = h.must_flush_before_shutdown ≡ true → has_buffer h.work ≡ true

-- An implementation queues data for its client, and drops none.
pub record OnlyQueues (handle_data : Implementation) : Type 0 where
  pub keeps :
      (c c' : Connection) (got : Bytes) (r : Option Bool)
      → handle_data c got ≡ ok (c', r)
      → has_buffer c ≡ true
      → has_buffer c' ≡ true

-- The client has closed, or its connection is lost.
abbrev pub IsGone : Result (Option Bytes) → Type 0
IsGone (ok none) = Unit
IsGone (ok (some got)) = ⊥
IsGone (raise connection_reset) = Unit
IsGone (raise timeout) = Unit
IsGone (raise e) = ⊥

-- The handler goes on, or it is torn down with nothing left to send, or the client has gone.
abbrev pub Sound : Result (Option Bytes) → Result (Handler × Bool) → Type 0
Sound got (raise e) = Unit
Sound got (ok (h, false)) = Waiting h
Sound got (ok (h, true)) = (has_buffer h.work ≡ false) ⊎ IsGone got

writes-Sound :
    (got : Result (Option Bytes)) (w c : Connection) (n : ℕ) (must has : Bool)
    → has_buffer c ≡ has
    → Sound got (ok (after_writes (record { work = w; must_flush_before_shutdown = must }) (c, n)))
unfolding after_writes
writes-Sound got w c n true true e = rw e (λ m. e)
writes-Sound got w c n true false e = rw e (inl e)
writes-Sound got w c n false has e = λ m. cc

handle_writables-Sound :
    (socket : Socket) (max : Option ℕ) (writable : Bool) (h : Handler) (got : Result (Option Bytes))
    → Waiting h
    → Sound got (handle_writables socket max writable h)
unfolding handle_writables
handle_writables-Sound socket max writable h got w =
    either (writable && has_buffer h.work) (flush socket max h.work)
  where
    either :
        (b : Bool) (r : Result (Connection × ℕ))
        → Sound got (if b then (r >>= λ s. ok (after_writes h s)) else ok (h, false))
    either false r = w
    either true (raise e) = tt
    either true (ok (c, n)) =
        writes-Sound got h.work c n h.must_flush_before_shutdown (has_buffer c) refl

-- After `handle_data`, where a buffer that was there is there still.
data-Sound :
    (got : Result (Option Bytes)) (h : Handler) (c : Connection) (r : Option Bool) (has : Bool)
    → has_buffer c ≡ has
    → (h.must_flush_before_shutdown ≡ true → has_buffer c ≡ true)
    → Sound got (ok (after_data h (c, r)))
unfolding after_data
data-Sound got h c none has e w = w
data-Sound got h c (some false) has e w = w
data-Sound got h c (some true) true e w = rw e (λ m. e)
data-Sound got h c (some true) false e w = rw e (inl e)

recv-Sound :
    (handle_data : Implementation)
    → OnlyQueues handle_data
    → (h : Handler) (got : Result (Option Bytes)) → Waiting h
    → Sound got (after_recv handle_data h got)
unfolding after_recv
recv-Sound handle_data q h (ok none) w = inr tt
recv-Sound handle_data q h (ok (some b)) w = handled (handle_data h.work b) refl
  where
    handled :
        (r : Result (Connection × Option Bool))
        → handle_data h.work b ≡ r
        → Sound (ok (some b)) (r >>= λ s. ok (after_data h s))
    handled (raise e) eq = tt
    handled (ok (c, r)) eq =
        data-Sound (ok (some b)) h c r (has_buffer c) refl (λ m. q.keeps h.work c b r eq (w m))
recv-Sound handle_data q h (raise connection_reset) w = inr tt
recv-Sound handle_data q h (raise timeout) w = inr tt
recv-Sound handle_data q h (raise _) w = tt

-- What `recv` gives in a round, where it is called.
abbrev pub got : ℕ → Round → Result (Option Bytes)
got size r = recv r.receive size

-- With an implementation that drops nothing from the buffer: unless it raises, a round that starts
-- with a buffer wherever the shutdown waits for one ends so. It tears the connection down only when nothing is
-- left to send, or when the client has closed it, has reset it, or has timed out.
pub handle_events-Sound :
    (handle_data : Implementation)
    → OnlyQueues handle_data
    → (max_sendbuf_size : Option ℕ) (client_recvbuf_size : ℕ) (r : Round) (h : Handler) → Waiting h
    → Sound
        (got client_recvbuf_size r)
        (handle_events handle_data max_sendbuf_size client_recvbuf_size r h)
unfolding handle_events handle_readables
handle_events-Sound handle_data q max size r h w =
    read (handle_writables r.send max r.writable h)
      (handle_writables-Sound r.send max r.writable h (got size r) w)
  where
    read_if :
        (b : Bool) (h' : Handler)
        → Waiting h'
        → Sound
            (got size r)
            (if b then after_recv handle_data h' (recv r.receive size) else ok (h', false))
    read_if true h' w' = recv-Sound handle_data q h' (got size r) w'
    read_if false h' w' = w'

    read :
        (o : Result (Handler × Bool))
        → Sound (got size r) o
        → Sound (got size r) (
            o >>= λ s.
            if s.1 then ok s else handle_readables handle_data r.receive size r.readable (s.0))
    read (raise e) k = tt
    read (ok (h', true)) k = k
    read (ok (h', false)) k = read_if r.readable h' k

-- A handler that has a buffer wherever its shutdown waits for one waits for some event of its client:
-- it is never left unattended.
pub get_events-some :
    (h : Handler) → Waiting h → ((get_events h).read ≡ true) ⊎ ((get_events h).write ≡ true)
unfolding get_events
get_events-some h w = elim (Bool-cases h.must_flush_before_shutdown) [
  | inl e ↦ inr (w e)
  | inr e ↦ inl (ground (arith, e))
]
