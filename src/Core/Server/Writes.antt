-- ===== src/Core/Server/Writes.antt =====
-- What the client has got after a write.
use proxy_py.Base.{
  ap, true, false, arith, Raised, Result, raise, ◌≡◌, ◌>>=◌, ℕ, refl, sym, append-nil, ◌∷◌, Bool,
  not, ◌&&◌, Option, [], Bool-cases, inl, inr, Returns, Returns-bind, ok,
}
use proxy_py.Core.Connection.{Connection, Socket, flush, has_buffer}
use proxy_py.Core.Connection.Stream.{IsSocket, IsCounted, pending, concat}
use proxy_py.Core.Connection.Wire.{Carried, flush-Carried}
use proxy_py.Core.Server.{Handler, after_writes, handle_writables}

-- The socket has been given the first bytes pending, and those that it took are gone.
abbrev pub SentOn : Socket → Connection → Connection → Type 0
SentOn socket c d = Carried (socket ∷ []) (pending c) [] (pending d) × IsCounted d

-- Nothing has been done.
pub idle-SentOn : (socket : Socket) (c : Connection) → IsCounted c → SentOn socket c c
unfolding concat
idle-SentOn socket c counted = (([] ∷ [], (inl refl, tt), sym (append-nil (pending c))), counted)

module _ (socket : Socket) (s : IsSocket socket) (max_sendbuf_size : Option ℕ) (h : Handler)
    (counted : IsCounted h.work) where
  after_writes-SentOn :
      (d : Connection) (n : ℕ)
      → SentOn socket h.work d
      → SentOn socket h.work (after_writes h (d, n)).0.work
  unfolding after_writes
  after_writes-SentOn d n k =
      elim (Bool-cases (h.must_flush_before_shutdown && not (has_buffer d))) [
        | inl e ↦ rw e k
        | inr e ↦ rw e k
      ]

  pub handle_writables-SentOn :
      (writable : Bool)
      → Returns
          (λ (r : Handler × Bool). SentOn socket h.work r.0.work)
          (handle_writables socket max_sendbuf_size writable h)
  unfolding handle_writables
  handle_writables-SentOn writable = elim (Bool-cases (writable && has_buffer h.work)) [
    | inr e ↦ rw e (idle-SentOn socket h.work counted)
    | inl e ↦ rw e (
        Returns-bind (λ (r : Handler × Bool). SentOn socket h.work r.0.work)
          (flush socket max_sendbuf_size h.work) (λ sent. ok (after_writes h sent))
          (λ (d, n) e'.
            after_writes-SentOn d n
              (flush-Carried socket s max_sendbuf_size h.work counted d n e')))
  ]

-- A flush that was awaited has sent the last of the buffer.
abbrev pub FlushDone : Socket → Option ℕ → Handler → Type 0
FlushDone socket max_sendbuf_size h =
    (d : Connection) × (n : ℕ) × (flush socket max_sendbuf_size h.work ≡ ok (d, n))
    × (h.must_flush_before_shutdown ≡ true)
    × (has_buffer d ≡ false)

both_true : (a b : Bool) → (a && not b) ≡ true → (a ≡ true) × (b ≡ false)
both_true a b e = ground (arith, e)

pub handle_writables-FlushDone :
    (socket : Socket) (max_sendbuf_size : Option ℕ) (writable : Bool) (h : Handler)
    → Returns
        (λ (r : Handler × Bool). r.1 ≡ true → FlushDone socket max_sendbuf_size h)
        (handle_writables socket max_sendbuf_size writable h)
unfolding handle_writables after_writes
handle_writables-FlushDone socket max_sendbuf_size writable h =
    elim (Bool-cases (writable && has_buffer h.work)) [
      | inr e ↦ rw e (λ torn. cc)
      | inl e ↦ rw e (
          Returns-bind (λ (r : Handler × Bool). r.1 ≡ true → FlushDone socket max_sendbuf_size h)
            (flush socket max_sendbuf_size h.work) (λ sent. ok (after_writes h sent))
            (λ (d, n) e'. by_rest d n e'))
    ]
  where
    by_rest :
        (d : Connection) (n : ℕ)
        → flush socket max_sendbuf_size h.work ≡ ok (d, n)
        → (after_writes h (d, n)).1 ≡ true
        → FlushDone socket max_sendbuf_size h
    by_rest d n e torn = elim (Bool-cases (h.must_flush_before_shutdown && not (has_buffer d))) [
      | inl y ↦
          let (a, b) = both_true h.must_flush_before_shutdown (has_buffer d) y in (d, n, e, a, b)
      | inr y ↦ absurd (never (rw y at torn))
    ]
      where
        never : false ≡ true → ⊥
        never q = cc

raise_bind :
    {A B : Type 0} (r : Result A) (g : A → B) (e : Raised)
    → (r >>= λ a. ok (g a)) ≡ raise e
    → r ≡ raise e
raise_bind {B = B} (raise x) g e h = ap raise (same_raised h)
  where
    same_raised : ◌≡◌ {A = Result B} (raise x) (raise e) → x ≡ e
    same_raised q = cc
raise_bind {B = B} (ok a) g e h = absurd (ok_raise h)
  where
    ok_raise : ◌≡◌ {A = Result B} (ok (g a)) (raise e) → ⊥
    ok_raise q = cc

pub handle_writables-raise :
    (socket : Socket) (max_sendbuf_size : Option ℕ) (writable : Bool) (h : Handler) (e : Raised)
    → handle_writables socket max_sendbuf_size writable h ≡ raise e
    → flush socket max_sendbuf_size h.work ≡ raise e
unfolding handle_writables
handle_writables-raise socket max_sendbuf_size writable h e raised =
    elim (Bool-cases (writable && has_buffer h.work)) [
      | inl b ↦
          raise_bind (flush socket max_sendbuf_size h.work) (after_writes h) e (rw b at raised)
      | inr b ↦ absurd (returns (rw b at raised))
    ]
  where
    returns : ◌≡◌ {A = Result (Handler × Bool)} (ok (h, false)) (raise e) → ⊥
    returns q = cc
