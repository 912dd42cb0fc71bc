-- ===== src/Base/Int.antt =====
-- Python's `int` where it can be negative, and slices of a byte string at such a bound.
use proxy_py.Base.{
  ℕ, ◌≡◌, ◌≤◌, arith, zero, suc, ◌+◌, ◌-◌, Bool, true, false, Bytes, length, take, drop, ◌==◌, leb,
  if◌then◌else◌, Eq, ◌↔◌, ==_iff, ◌&&◌, same, same_iff,
}

-- `negsuc n` is -(n + 1).
pub data ℤ : Type 0 where
  pos : ℕ → ℤ
  negsuc : ℕ → ℤ

-- a - b, as an integer.
abbrev pub sub_ℕ : ℕ → ℕ → ℤ
sub_ℕ a b = if leb b a then pos (a - b) else negsuc (b - a - 1)

-- z - n
abbrev pub minus_ℕ : ℤ → ℕ → ℤ
minus_ℕ (pos a) n = sub_ℕ a n
minus_ℕ (negsuc a) n = negsuc (a + n)

abbrev pub negate : ℕ → ℤ
negate zero = pos 0
negate (suc n) = negsuc n

-- z == n
abbrev pub equals_ℕ : ℤ → ℕ → Bool
equals_ℕ (pos a) n = a == n
equals_ℕ (negsuc a) n = false

-- z > 0
abbrev pub is_positive : ℤ → Bool
is_positive (pos zero) = false
is_positive (pos (suc n)) = true
is_positive (negsuc n) = false

-- `raw[:z]`: a negative bound counts from the end.
abbrev pub slice_to : ℤ → Bytes → Bytes
slice_to (pos n) raw = take n raw
slice_to (negsuc n) raw = take (length raw - suc n) raw

-- `raw[z:]`
abbrev pub slice_from : ℤ → Bytes → Bytes
slice_from (pos n) raw = drop n raw
slice_from (negsuc n) raw = drop (length raw - suc n) raw

pub sub_ℕ-zero : (n : ℕ) → sub_ℕ n 0 ≡ pos n
sub_ℕ-zero n = ground arith

pub sub_ℕ-le : (a b : ℕ) → b ≤ a → sub_ℕ a b ≡ pos (a - b)
sub_ℕ-le a b h = ground arith

abbrev pub equal_int : ℤ → ℤ → Bool
equal_int (pos a) (pos b) = a == b
equal_int (negsuc a) (negsuc b) = a == b
equal_int _ _ = false

pub equal_int_iff : (y z : ℤ) → (equal_int y z ≡ true) ↔ (y ≡ z)
equal_int_iff (pos a) (pos b) = ground (arith, ==_iff a b)
equal_int_iff (negsuc a) (negsuc b) = ground (arith, ==_iff a b)
equal_int_iff (pos a) (negsuc b) = ground arith
equal_int_iff (negsuc a) (pos b) = ground arith

instance abbrev pub int_eq : Eq ℤ
int_eq = record { equal = equal_int; equal_iff = equal_int_iff }

-- A byte string with a number, as the address of a server is.
unfoldable pub both_equal : Bytes × ℤ → Bytes × ℤ → Bool
both_equal (a, m) (b, n) = same a b && equal_int m n

pub both_equal_iff : (p q : Bytes × ℤ) → (both_equal p q ≡ true) ↔ (p ≡ q)
unfolding both_equal
both_equal_iff (a, m) (b, n) = ground (arith, same_iff a b, equal_int_iff m n)

instance abbrev pub pair_eq : Eq (Bytes × ℤ)
pair_eq = record { equal = both_equal; equal_iff = both_equal_iff }
