-- ===== src/Core/Connection/Wire.antt =====
-- What the sockets of a connection are given, and what they take of it.
use mathlib.Core.Path.{subst}
use proxy_py.Base.{
  ℕ, ◌≤◌, ◌≡◌, refl, sym, ap, ◌∙◌, ◌⊎◌, inl, inr, Bool, true, false, not, Option, List, [], ◌∷◌,
  ◌++◌, append_assoc, append-nil, if◌then◌else◌, Bytes, length, take, drop, take-append,
  take-append-drop, Result, Returns, Returns-ok, blocking_io, ok, raise,
}
use proxy_py.Core.Connection.{
  Connection, Socket, flush, has_buffer, send_limit, flush_first, after_send,
}
use proxy_py.Core.Connection.Stream.{
  concat, concat-append, pending, IsSocket, IsCounted, Flushes, flush-Flushes,
}

-- These bytes are the first of some that the socket was given, as many as it answered that it took; or there are none.
abbrev pub Took : Socket → Bytes → Type 0
Took socket sent =
    (sent ≡ []) ⊎ ((given : Bytes) × (n : ℕ) × (socket given ≡ ok n) × (sent ≡ take n given))

-- A piece for each of the calls.
abbrev pub Taken : List Socket → List Bytes → Type 0
Taken [] [] = Unit
Taken [] (out ∷ outs) = ⊥
Taken (socket ∷ sockets) [] = ⊥
Taken (socket ∷ sockets) (out ∷ outs) = Took socket out × Taken sockets outs

-- What the sockets took, one after another, and then what is pending, is what was pending and then what has come.
abbrev pub Carried : List Socket → Bytes → Bytes → Bytes → Type 0
Carried sockets before more after =
    (outs : List Bytes) × Taken sockets outs × (concat outs ++ after ≡ before ++ more)

Taken-append :
    (s s' : List Socket) (o o' : List Bytes) → Taken s o → Taken s' o' → Taken (s ++ s') (o ++ o')
Taken-append [] s' [] o' h h' = h'
Taken-append [] s' (x ∷ o) o' h h' = absurd h
Taken-append (x ∷ s) s' [] o' h h' = absurd h
Taken-append (x ∷ s) s' (y ∷ o) o' h h' = (h.0, Taken-append s s' o o' h.1 h')

pub Carried-append :
    (s s' : List Socket) (a b c x y : Bytes)
    → Carried s a x b
    → Carried s' b y c
    → Carried (s ++ s') a (x ++ y) c
Carried-append s s' a b c x y (o, t, e) (o', t', e') = (
  o ++ o',
  Taken-append s s' o o' t t',
  ap (λ z. z ++ c) (concat-append o o')
      ∙ append_assoc (concat o) (concat o') c
      ∙ ap (λ z. concat o ++ z) e'
      ∙ sym (append_assoc (concat o) b y)
      ∙ ap (λ z. z ++ y) e
      ∙ append_assoc a x y,
)

pub Carried-nil : (a : Bytes) → Carried [] a [] a
unfolding concat
Carried-nil a = ([], tt, sym (append-nil a))

-- More is queued behind.
pub Carried-queue :
    (s : List Socket) (a x b y : Bytes) → Carried s a x b → Carried s a (x ++ y) (b ++ y)
Carried-queue s a x b y (o, t, e) =
    (o, t, sym (append_assoc (concat o) b y) ∙ ap (λ z. z ++ y) e ∙ append_assoc a x y)

module _ (socket : Socket) (s : IsSocket socket) (max_send_size : Option ℕ) (c : Connection) where
  first_bytes :
      (mv : Bytes) (rest : List Bytes) (limit n : ℕ)
      → n ≤ length (take limit mv)
      → take n (concat (mv ∷ rest)) ≡ take n (take limit mv)
  unfolding concat
  first_bytes mv rest limit n h =
      ap (λ z. take n (z ++ concat rest)) (sym (take-append-drop limit mv))
      ∙ ap (take n) (append_assoc (take limit mv) (drop limit mv) (concat rest))
      ∙ take-append n (take limit mv) (drop limit mv ++ concat rest) h

  after_send-Took :
      (mv : Bytes) (rest : List Bytes) (r : Result ℕ)
      → c.buffer ≡ mv ∷ rest
      → socket (take (send_limit max_send_size) mv) ≡ r
      → Returns
          (λ (q : Connection × ℕ). Took socket (take q.1 (pending c)))
          (after_send c mv rest r)
  unfolding after_send
  after_send-Took mv rest (raise blocking_io) e h = inl refl
  after_send-Took mv rest (raise _) e h = tt
  after_send-Took mv rest (ok n) e h = inr (
    take (send_limit max_send_size) mv,
    n,
    h,
    ap (λ b. take n (concat b)) e
        ∙ first_bytes mv rest (send_limit max_send_size) n (s.sends-le _ n h),
  )

  flush_in-Took :
      (b : Bool) (buffer : List Bytes)
      → c.buffer ≡ buffer
      → Returns
          (λ (q : Connection × ℕ). Took socket (take q.1 (pending c)))
          (if not b then ok (c, 0) else flush_first socket (send_limit max_send_size) c buffer)
  unfolding flush_first
  flush_in-Took false buffer e = inl refl
  flush_in-Took true [] e = tt
  flush_in-Took true (mv ∷ rest) e = after_send-Took mv rest _ e refl

  -- Whatever a flush returns, the socket has been given the first bytes pending, and those that it took are gone.
  pub flush-Carried :
      IsCounted c
      → (d : Connection) (n : ℕ) → flush socket max_send_size c ≡ ok (d, n)
      → Carried (socket ∷ []) (pending c) [] (pending d) × IsCounted d
  unfolding flush concat
  flush-Carried counted d n e =
      let took = Returns-ok _ _ (d, n) (flush_in-Took (has_buffer c) c.buffer refl) e in
      let (sends, counted') =
        subst (Flushes c) e (flush-Flushes c counted socket s max_send_size) in
      (
        (
          take n (pending c) ∷ [],
          (took, tt),
          ap (λ z. z ++ pending d) (append-nil (take n (pending c)))
              ∙ sends.1
              ∙ sym (append-nil (pending c)),
        ),
        counted',
      )
