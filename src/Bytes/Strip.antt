-- ===== src/Bytes/Strip.antt =====
-- Laws of `strip` and `lower`.
use proxy_py.Base.{ℕ, ◌≡◌, refl, ◌≢◌, false, [], ◌∷◌, ◌++◌, arith, Bytes, All}
use proxy_py.Bytes.{is_space, lstrip, is_empty, rstrip, strip, lower_byte, lower}

pub lstrip_id : (c : ℕ) (cs : Bytes) → is_space c ≡ false → lstrip (c ∷ cs) ≡ c ∷ cs
unfolding lstrip
lstrip_id c cs h = ground arith

rstrip_id : (cs : Bytes) → All (λ c. is_space c ≡ false) cs → rstrip cs ≡ cs
unfolding rstrip
rstrip_id [] h = refl
rstrip_id (c ∷ cs) h = ground (arith, rstrip_id cs h.1, h.0)

-- Bytes that hold no white space are left as they are.
pub strip_id : (cs : Bytes) → All (λ c. is_space c ≡ false) cs → strip cs ≡ cs
unfolding strip
strip_id [] h = refl
strip_id (c ∷ cs) h = rw (lstrip_id c cs h.0) (rstrip_id (c ∷ cs) h)

lower_byte_idem : (c : ℕ) → lower_byte (lower_byte c) ≡ lower_byte c
unfolding lower_byte
lower_byte_idem c = ground arith

-- Lower case is reached in one step.
pub lower_idem : (cs : Bytes) → lower (lower cs) ≡ lower cs
unfolding lower
lower_idem [] = refl
lower_idem (c ∷ cs) = cc (lower_byte_idem c, lower_idem cs)

pub is_empty-false : (cs : Bytes) → cs ≢ [] → is_empty cs ≡ false
is_empty-false [] h = absurd (h refl)
is_empty-false (c ∷ cs) h = refl

-- Text with something behind it is not empty.
pub is_empty-append : (a : Bytes) (c : ℕ) (rest : Bytes) → is_empty (a ++ (c ∷ rest)) ≡ false
is_empty-append [] c rest = refl
is_empty-append (x ∷ a) c rest = refl

pub append-cons-ne-nil : (a : Bytes) (c : ℕ) (rest : Bytes) → a ++ (c ∷ rest) ≢ []
append-cons-ne-nil [] c rest e = cc e
append-cons-ne-nil (x ∷ a) c rest e = cc e
