-- ===== src/Core/Upstream/Sent.antt =====
-- What a handler of an upstream connection sends.
use mathlib.Core.Path.{subst}
use proxy_py.Base.{
  ℕ, ◌≡◌, refl, sym, ap, ◌∙◌, ◌⊎◌, inl, inr, Bool, true, false, ◌&&◌, Option, none, some, List, [],
  ◌++◌, Bytes, take, ◌>>=◌, Raised, Result, ok, raise,
}
use proxy_py.Base.Int.{int_eq, ℤ}
use proxy_py.Sets.{is_member}
use proxy_py.Core.Connection.{Connection, Socket, flush, has_buffer}
use proxy_py.Core.Connection.Stream.{pending, IsSocket, IsCounted, Flushes, flush-Flushes}
use proxy_py.Core.Pool.{Server, fileno_of}
use proxy_py.Core.Upstream.{Upstream, after_flush, write_ready, write_to_descriptors}

-- What is still to be sent to the server, whose count of buffers is right.
abbrev pub IsReady : Option Server → Type 0
IsReady none = Unit
IsReady (some s) = IsCounted s.state

abbrev pub to_send : Option Server → Bytes
to_send none = []
to_send (some s) = pending s.state

-- A number of bytes that a flush says were sent, or none.
abbrev pub Taken : Socket → Option Server → ℕ → Type 0
Taken send o n =
    (n ≡ 0)
    ⊎ ((s : Server) × (c : Connection) × (o ≡ some s) × (flush send none s.state ≡ ok (c, n)))

-- The bytes that are gone from what was to be sent are those, at its head, and nothing else has changed.
abbrev pub Continues : {A : Type 0} → Socket → Upstream A → Result (Upstream A × Bool) → Type 0
Continues send u (raise e) = Unit
Continues send u (ok (v, torn)) =
    ((n : ℕ) × Taken send u.upstream n
      × (take n (to_send u.upstream) ++ to_send v.upstream ≡ to_send u.upstream))
    × IsReady v.upstream
    × (v.base ≡ u.base)
    × (v.total_size ≡ u.total_size)

module _ {A : Type 0} (send : Socket) (honest : IsSocket send) where
  after_flush-Continues :
      (u : Upstream A) (s : Server)
      → u.upstream ≡ some s
      → IsCounted s.state
      → (r : Result (Connection × ℕ)) → flush send none s.state ≡ r
      → Flushes s.state r
      → Continues send u (after_flush u s r)
  after_flush-Continues u s e counted (ok (c, n)) q (sends, counted') = (
    (
      n,
      inr (s, c, e, q),
      ap (λ o. take n (to_send o) ++ pending c) e ∙ (sends.1 ∙ ap to_send (sym e)),
    ),
    counted',
    refl,
    refl,
  )
  after_flush-Continues u s e counted (raise x) q h = by_error x
    where
      unchanged : (torn : Bool) → Continues send u (ok (u, torn))
      unchanged torn = ((0, inl refl, refl), subst IsReady (sym e) counted, refl, refl)

      by_error : (x : Raised) → Continues send u (after_flush u s (raise x))
      by_error Raised.ssl_want_write = unchanged false
      by_error Raised.broken_pipe = unchanged true
      by_error _ = tt

  -- With a socket that takes no more than it is given, and an upstream connection that counts its buffers: where
  -- the call returns, the bytes that a flush says were sent, if there was one, are gone from the head of those for the
  -- server, the rest stays in order, the count is right again, and nothing else changes.
  pub write_to_descriptors-Continues :
      (writables : List ℤ) (u : Upstream A)
      → IsReady u.upstream
      → Continues send u (write_to_descriptors send writables u)
  unfolding write_to_descriptors
  write_to_descriptors-Continues writables u ready = by_upstream u.upstream refl ready
    where
      by_ready :
          (b : Bool) (s : Server)
          → u.upstream ≡ some s
          → IsCounted s.state
          → Continues send u (write_ready send b s u)
      by_ready true s e counted =
          after_flush-Continues u s e counted (flush send none s.state) refl
            (flush-Flushes s.state counted send honest none)
      by_ready false s e counted = ((0, inl refl, refl), subst IsReady (sym e) counted, refl, refl)

      by_fileno :
          (r : Result ℤ) (s : Server)
          → u.upstream ≡ some s
          → IsCounted s.state
          → Continues send u
              (r >>= λ f. write_ready send (is_member f writables && has_buffer s.state) s u)
      by_fileno (raise x) s e counted = tt
      by_fileno (ok f) s e counted =
          by_ready (is_member f writables && has_buffer s.state) s e counted

      by_upstream :
          (o : Option Server)
          → u.upstream ≡ o
          → IsReady o
          → Continues send u (elim o [
            | none ↦ ok (u, false)
            | some s ↦ fileno_of s >>= λ f.
                write_ready send (is_member f writables && has_buffer s.state) s u
          ])
      by_upstream none e r = ((0, inl refl, refl), subst IsReady (sym e) tt, refl, refl)
      by_upstream (some s) e counted = by_fileno (fileno_of s) s e counted
