-- ===== src/Core/Connection/Drain.antt =====
-- A connection whose peer keeps reading is drained.
use proxy_py.Base.{
  ℕ, zero, suc, ◌+◌, ◌≤◌, ◌<◌, ◌≡◌, refl, ap, inl, inr, true, false, Option, none, some, List, [],
  ◌∷◌, arith, ◌==◌, Bool-cases, Bytes, length, take, drop, length-append, length-drop, length-take,
  ◌>>=◌, Result, ok,
}
use proxy_py.Core.Connection.Stream.{pending, IsSocket, concat, IsCounted}
use proxy_py.Core.Connection.Wire.{Carried, Carried-nil, Carried-append, flush-Carried}
use proxy_py.Core.Connection.{Connection, Socket, flush, has_buffer, send_limit, take_sent}

-- A socket that takes at least one byte of what it is given, and raises nothing.
pub record IsReady (socket : Socket) : Type 0 where
  pub taken : Bytes → ℕ
  pub takes : (data_sent : Bytes) → socket data_sent ≡ ok (taken data_sent)
  pub taken-le : (data_sent : Bytes) → taken data_sent ≤ length data_sent
  pub taken-pos : (data_sent : Bytes) → 0 < length data_sent → 0 < taken data_sent

-- Bounds the flushes that are left.
abbrev pub left : Connection → ℕ
left c = length (pending c) + length c.buffer

same_ok : {r : Result ℕ} {m n : ℕ} → r ≡ ok m → r ≡ ok n → m ≡ n
same_ok p q = cc (p, q)

IsReady-IsSocket : (socket : Socket) → IsReady socket → IsSocket socket
IsReady-IsSocket socket r = record { sends-le = λ d n e. rw (same_ok e (r.takes d)) (r.taken-le d) }

-- `flush`, as often as the selector reports the socket writable.
pub drain : ℕ → Socket → Option ℕ → Connection → Result Connection
drain zero socket m c = ok c
drain (suc k) socket m c = do flushed ← flush socket m c; drain k socket m flushed.0

pub same_socket : ℕ → Socket → List Socket
same_socket zero socket = []
same_socket (suc k) socket = socket ∷ same_socket k socket

not_all : (n k : ℕ) → n ≤ k → (0 < k → 0 < n) → (n == k) ≡ false → (0 < k) × (0 < n)
not_all n zero h pos e = ground arith
not_all n (suc k) h pos e = (omega arith, pos (omega arith))

send_limit_pos : (m : Option ℕ) → 0 < send_limit m
send_limit_pos none = omega arith
send_limit_pos (some zero) = omega arith
send_limit_pos (some (suc n)) = omega arith

empty_buffer :
    (c : Connection) (b : List Bytes)
    → IsCounted c
    → has_buffer c ≡ false
    → c.buffer ≡ b
    → c.buffer ≡ []
unfolding has_buffer
empty_buffer c [] counted h e = e
empty_buffer c (x ∷ b) counted h e = absurd (ground (arith, ap length e))

pending-nil : (c : Connection) → IsCounted c → has_buffer c ≡ false → pending c ≡ []
unfolding concat
pending-nil c counted h = ap concat (empty_buffer c c.buffer counted h refl)

flush-idle :
    (socket : Socket) (m : Option ℕ) (c : Connection)
    → has_buffer c ≡ false
    → flush socket m c ≡ ok (c, 0)
unfolding flush
flush-idle socket m c h = ground arith

module _ (socket : Socket) (r : IsReady socket) (m : Option ℕ) where
  left-take_sent :
      (c : Connection) (mv : Bytes) (rest : List Bytes) (n : ℕ)
      → c.buffer ≡ mv ∷ rest
      → n ≤ length mv
      → (0 < length mv → 0 < n)
      → left (take_sent c mv rest n) < left c
  unfolding take_sent concat
  left-take_sent c mv rest n e h pos = elim (Bool-cases (n == length mv)) [
    | inl all ↦ rw all (rw e (omega (arith, length-append mv (concat rest))))
    | inr part ↦
        let more : (0 < length mv) × (0 < n) = not_all n (length mv) h pos part in
        rw part (
          rw e (
            omega (
              arith,
              length-append mv (concat rest),
              length-append (drop n mv) (concat rest),
              length-drop n mv,
              more,
            )))
  ]

  flush-less :
      (c : Connection) (buffer : List Bytes)
      → IsCounted c
      → c.buffer ≡ buffer
      → has_buffer c ≡ true
      → (d : Connection) × (n : ℕ) × (flush socket m c ≡ ok (d, n)) × (left d < left c)
  unfolding flush
  flush-less c [] counted e h = ground (arith, ap length e)
  flush-less c (mv ∷ rest) counted e h =
      let piece = take (send_limit m) mv in
      (
        take_sent c mv rest (r.taken piece),
        r.taken piece,
        ground (arith, r.takes piece),
        left-take_sent c mv rest (r.taken piece) e
            (omega (arith, r.taken-le piece, length-take (send_limit m) mv))
            (λ h'.
              r.taken-pos piece (omega (arith, length-take (send_limit m) mv, send_limit_pos m))),
      )

  -- An idle round gives the socket nothing.
  idle_round :
      (k : ℕ) (before after : Bytes)
      → Carried (same_socket k socket) before [] after
      → Carried (same_socket (suc k) socket) before [] after
  unfolding same_socket concat
  idle_round k before after (outs, taken, e) = ([] ∷ outs, (inl refl, taken), e)

  pub drain-all :
      (k : ℕ) (c : Connection)
      → IsCounted c
      → left c ≤ k
      → (d : Connection) × (drain k socket m c ≡ ok d)
        × (has_buffer d ≡ false)
        × Carried (same_socket k socket) (pending c) [] []
  unfolding drain same_socket
  drain-all zero c counted h = elim (Bool-cases (has_buffer c)) [
    | inl busy ↦
        let (d, n, e, less) = flush-less c c.buffer counted refl busy in absurd (omega arith)
    | inr idle ↦ (c, refl, idle, rw (pending-nil c counted idle) (Carried-nil []))
  ]
  drain-all (suc k) c counted h = elim (Bool-cases (has_buffer c)) [
    | inl busy ↦
        let (d, n, e, less) = flush-less c c.buffer counted refl busy in
        let (first, counted') =
          flush-Carried socket (IsReady-IsSocket socket r) m c counted d n e in
        let (last, drained, empty, later) = drain-all k d counted' (omega arith) in
        (
          last,
          rw e drained,
          empty,
          Carried-append (socket ∷ []) (same_socket k socket) (pending c) (pending d) [] [] [] first
              later,
        )
    | inr idle ↦
        let nothing : pending c ≡ [] = pending-nil c counted idle in
        let (last, drained, empty, later) =
          drain-all k c counted
            (fits k c.buffer (empty_buffer c c.buffer counted idle refl) nothing) in
        (last, rw (flush-idle socket m c idle) drained, empty, idle_round k (pending c) [] later)
  ]
    where
      fits : (k : ℕ) (b : List Bytes) → b ≡ [] → pending c ≡ [] → length (pending c) + length b ≤ k
      fits k b e e' = omega (arith, ap length e, ap length e')
