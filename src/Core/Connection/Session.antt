-- ===== src/Core/Connection/Session.antt =====
-- Sequences of calls on a connection.
use proxy_py.Base.{
  ℕ, ◌≡◌, refl, ◌∙◌, Option, List, [], ◌∷◌, ◌++◌, append_assoc, Bytes, All, ◌>>=◌, Result, ok,
  raise,
}
use proxy_py.Core.Connection.Stream.{pending, IsSocket, IsCounted, queue-IsCounted, pending-queue}
use proxy_py.Core.Connection.Wire.{Carried, Carried-nil, Carried-append, flush-Carried}
use proxy_py.Core.Connection.{Connection, Socket, queue, flush}

-- The program's calls on a connection.
pub data Call : Type 0 where
  queued : Bytes → Call
  flushed : Option ℕ → Socket → Call

after_flush : Result (Connection × ℕ) → Result Connection
after_flush (raise e) = raise e
after_flush (ok (d, n)) = ok d

-- One call; an exception of `send` reaches the caller.
step : Connection → Call → Result Connection
step c (queued mv) = ok (queue mv c)
step c (flushed max_send_size socket) = after_flush (flush socket max_send_size c)

pub run : Connection → List Call → Result Connection
unfolding step after_flush
run c [] = ok c
run c (x ∷ xs) = do d ← step c x; run d xs

-- What the calls queue, in order.
pub all_queued : List Call → Bytes
all_queued [] = []
all_queued (queued mv ∷ xs) = mv ++ all_queued xs
all_queued (flushed m s ∷ xs) = all_queued xs

-- The sockets of the flushes, in order.
pub sockets_of : List Call → List Socket
sockets_of [] = []
sockets_of (queued mv ∷ xs) = sockets_of xs
sockets_of (flushed m socket ∷ xs) = socket ∷ sockets_of xs

abbrev pub UsesSocket : Call → Type 0
UsesSocket (queued mv) = Unit
UsesSocket (flushed m socket) = IsSocket socket

-- What holds of the connection that the calls leave.
abbrev pub Carries : List Socket → Bytes → Bytes → Result Connection → Type 0
Carries sockets before more (raise e) = Unit
Carries sockets before more (ok d) = Carried sockets before more (pending d) × IsCounted d

queued_before :
    (before mv more : Bytes) (sockets : List Socket) (r : Result Connection)
    → Carries sockets (before ++ mv) more r
    → Carries sockets before (mv ++ more) r
queued_before before mv more sockets (raise e) h = tt
queued_before before mv more sockets (ok d) ((outs, taken, e), counted) =
    ((outs, taken, e ∙ append_assoc before mv more), counted)

flushed_before :
    (socket : Socket) (sockets : List Socket) (before between more : Bytes) (r : Result Connection)
    → Carried (socket ∷ []) before [] between
    → Carries sockets between more r
    → Carries (socket ∷ sockets) before more r
flushed_before socket sockets before between more (raise e) first h = tt
flushed_before socket sockets before between more (ok d) first (later, counted) =
    (Carried-append (socket ∷ []) sockets before between (pending d) [] more first later, counted)

pub run-Carries :
    (xs : List Call) (c : Connection)
    → IsCounted c
    → All UsesSocket xs
    → Carries (sockets_of xs) (pending c) (all_queued xs) (run c xs)
unfolding run all_queued sockets_of
run-Carries [] c h u = (Carried-nil (pending c), h)
run-Carries (queued mv ∷ xs) c h u =
    queued_before (pending c) mv (all_queued xs) (sockets_of xs) (run (queue mv c) xs)
      (rw (← pending-queue mv c) (run-Carries xs (queue mv c) (queue-IsCounted mv c h) u.1))
run-Carries (flushed m socket ∷ xs) c h u =
    by_flush (flush socket m c) (flush-Carried socket u.0 m c h) (λ d k. run-Carries xs d k u.1)
  where
    by_flush :
        (r : Result (Connection × ℕ))
        → ((d : Connection) (n : ℕ)
            → r ≡ ok (d, n)
            → Carried (socket ∷ []) (pending c) [] (pending d) × IsCounted d)
        → ((d : Connection)
            → IsCounted d
            → Carries (sockets_of xs) (pending d) (all_queued xs) (run d xs))
        → Carries
            (socket ∷ sockets_of xs)
            (pending c)
            (all_queued xs)
            (after_flush r >>= λ d. run d xs)
    by_flush (raise e) first ih = tt
    by_flush (ok (d, n)) first ih =
        let (carried, counted) = first d n refl in
        flushed_before socket (sockets_of xs) (pending c) (pending d) (all_queued xs) (run d xs)
          carried (ih d counted)
