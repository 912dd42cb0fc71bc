-- ===== src/Bytes/Cut.antt =====
-- Laws of `split` at the first separator.
use proxy_py.Base.{
  ℕ, zero, suc, ◌≡◌, refl, ◌≢◌, inl, inr, true, none, some, [], ◌∷◌, ◌++◌, arith, Bool-cases,
  Option-cases, Bytes, length, drop, drop-length, All,
}
use proxy_py.Bytes.{starts_with, cut, split_max}

pub starts_with-append : (sep rest : Bytes) → starts_with sep (sep ++ rest) ≡ true
unfolding starts_with
starts_with-append [] rest = refl
starts_with-append (x ∷ sep) rest = ground (arith, starts_with-append sep rest)

pub starts_with_sound :
    (sep raw : Bytes) → starts_with sep raw ≡ true → raw ≡ sep ++ drop (length sep) raw
unfolding starts_with
starts_with_sound [] raw h = refl
starts_with_sound (x ∷ sep) [] h = cc
starts_with_sound (x ∷ sep) (y ∷ raw) h = ground (arith, starts_with_sound sep raw)

pub cut_found :
    (a : Bytes) (x : ℕ) (sep rest : Bytes)
    → All (λ c. c ≢ x) a
    → cut (x ∷ sep) (a ++ ((x ∷ sep) ++ rest)) ≡ some (a, rest)
unfolding cut
cut_found [] x sep rest h = ground (arith, starts_with-append (x ∷ sep) rest, drop-length sep rest)
cut_found (c ∷ a) x sep rest h = ground (arith, cut_found a x sep rest h.1, h.0)

-- Without the first byte of the separator there is nothing to cut.
pub cut_absent : (a : Bytes) (x : ℕ) (sep : Bytes) → All (λ c. c ≢ x) a → cut (x ∷ sep) a ≡ none
unfolding cut
cut_absent [] x sep h = refl
cut_absent (c ∷ a) x sep h = ground (arith, cut_absent a x sep h.1, h.0)

-- The two parts and the separator between them are the input.
pub cut_sound : (sep raw : Bytes) {a b : Bytes} → cut sep raw ≡ some (a, b) → raw ≡ a ++ (sep ++ b)
unfolding cut
cut_sound sep [] h = cc
cut_sound sep (c ∷ cs) h = elim (Bool-cases (starts_with sep (c ∷ cs))) [
  | inl e ↦ ground (arith, starts_with_sound sep (c ∷ cs) e)
  | inr e ↦ elim (Option-cases (cut sep cs)) [
    | inl e' ↦ ground arith
    | inr ((a', b'), e') ↦ ground (arith, cut_sound sep cs e')
  ]
]

-- A text without the separator is one part.
pub split_max-none : (sep raw : Bytes) (n : ℕ) → cut sep raw ≡ none → split_max sep n raw ≡ raw ∷ []
unfolding split_max
split_max-none sep raw zero h = refl
split_max-none sep raw (suc n) h = ground arith

pub split_max-some :
    (sep raw a b : Bytes) (n : ℕ)
    → cut sep raw ≡ some (a, b)
    → split_max sep (suc n) raw ≡ a ∷ split_max sep n b
unfolding split_max
split_max-some sep raw a b n h = ground arith
