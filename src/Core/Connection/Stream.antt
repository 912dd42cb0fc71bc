-- ===== src/Core/Connection/Stream.antt =====
-- The byte stream that a connection carries.
use proxy_py.Base.{
  ℕ, ◌≤◌, ◌≡◌, refl, sym, ap, ◌∙◌, inl, inr, true, false, not, Option, List, [], ◌∷◌, ◌++◌,
  append_assoc, append-nil, arith, ◌==◌, if◌then◌else◌, ==_iff, Bool-cases, Bytes, length, take,
  drop, length-append, length-take, take-append-drop, take-length, take-append, Result, blocking_io,
  ok, raise,
}
use proxy_py.Core.Connection.{
  Connection, Socket, queue, has_buffer, send_limit, after_send, flush_first, flush, take_sent,
}

-- All bytes that are queued, in order.
unfoldable pub concat : List Bytes → Bytes
concat [] = []
concat (mv ∷ rest) = mv ++ concat rest

abbrev pub pending : Connection → Bytes
pending c = concat c.buffer

-- `send` takes no more bytes than it is given.
pub record IsSocket (socket : Socket) : Type 0 where
  pub sends-le : (data_sent : Bytes) (n : ℕ) → socket data_sent ≡ ok n → n ≤ length data_sent

-- `_num_buffer` counts the buffer.
abbrev pub IsCounted : Connection → Type 0
IsCounted c = c.num_buffer ≡ length c.buffer

pub concat-append : (xs ys : List Bytes) → concat (xs ++ ys) ≡ concat xs ++ concat ys
unfolding concat
concat-append [] ys = refl
concat-append (x ∷ xs) ys = rw (concat-append xs ys) (sym (append_assoc x (concat xs) (concat ys)))

pub queue-IsCounted : (mv : Bytes) (c : Connection) → IsCounted c → IsCounted (queue mv c)
unfolding queue
queue-IsCounted mv c h = omega (arith, length-append c.buffer (mv ∷ []))

pub pending-queue : (mv : Bytes) (c : Connection) → pending (queue mv c) ≡ pending c ++ mv
unfolding queue concat
pending-queue mv c = concat-append c.buffer (mv ∷ []) ∙ rw append-nil

-- What is on the wire is the head of what was queued: the bytes that `send` took, as `flush` saw them.
abbrev pub Sends : Connection → Connection → ℕ → Type 0
Sends c d n = (n ≤ length (pending c)) × (take n (pending c) ++ pending d ≡ pending c)

-- What is asked of the outcome of a flush.
abbrev pub Flushes : Connection → Result (Connection × ℕ) → Type 0
Flushes c (raise e) = Unit
Flushes c (ok (d, n)) = Sends c d n × IsCounted d

take-drop-append :
    (n : ℕ) (xs ys : Bytes) → n ≤ length xs → take n (xs ++ ys) ++ (drop n xs ++ ys) ≡ xs ++ ys
take-drop-append n xs ys h =
    rw (take-append n xs ys h)
      (sym (append_assoc (take n xs) (drop n xs) ys) ∙ rw (take-append-drop n xs))

module _ (c : Connection) (counted : IsCounted c) where
  after_send-ok :
      (mv : Bytes) (rest : List Bytes) (n : ℕ)
      → c.buffer ≡ mv ∷ rest
      → n ≤ length mv
      → Flushes c (after_send c mv rest (ok n))
  unfolding after_send take_sent concat
  after_send-ok mv rest n e h = elim (Bool-cases (n == length mv)) [
    | inl all ↦
        let whole : n ≡ length mv = (==_iff n (length mv)).0 all in
        rw all (
          (
            rw e (omega (arith, length-append mv (concat rest))),
            rw e (rw whole (rw (take-length mv (concat rest)))),
          ),
          omega (arith, ap length e),
        )
    | inr part ↦ rw part (
      (
        rw e (omega (arith, length-append mv (concat rest))),
        rw e (take-drop-append n mv (concat rest) h),
      ),
      omega (arith, ap length e),
    )
  ]

  after_send-Flushes :
      (mv : Bytes) (rest : List Bytes) (r : Result ℕ)
      → c.buffer ≡ mv ∷ rest
      → ((n : ℕ) → r ≡ ok n → n ≤ length mv)
      → Flushes c (after_send c mv rest r)
  unfolding after_send
  after_send-Flushes mv rest (raise blocking_io) e h = ((omega arith, refl), counted)
  after_send-Flushes mv rest (raise _) e h = tt
  after_send-Flushes mv rest (ok n) e h = after_send-ok mv rest n e (h n refl)

  module _ (socket : Socket) (s : IsSocket socket) (max_send_size : Option ℕ) where
    flush_in :
        (buffer : List Bytes)
        → c.buffer ≡ buffer
        → Flushes c (
            if not (has_buffer c)
            then ok (c, 0)
            else flush_first socket (send_limit max_send_size) c buffer)
    unfolding has_buffer flush_first
    flush_in [] e =
        let none_left : (c.num_buffer == 0) ≡ true = ground (arith, ap length e) in
        rw none_left ((omega arith, refl), counted)
    flush_in (mv ∷ rest) e =
        let some_left : (c.num_buffer == 0) ≡ false = ground (arith, ap length e) in
        rw some_left (
          after_send-Flushes mv rest _ e
            λ n sent. omega (arith, s.sends-le _ n sent, length-take (send_limit max_send_size) mv))

    -- Whatever a flush returns, the bytes that it says it sent are the first of those pending, all
    -- others stay pending in order, and the count of buffers stays right.
    pub flush-Flushes : Flushes c (flush socket max_send_size c)
    unfolding flush
    flush-Flushes = flush_in c.buffer refl
