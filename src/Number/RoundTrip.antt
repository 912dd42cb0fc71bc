-- ===== src/Number/RoundTrip.antt =====
-- A printed number is read back.
use native.Mathlib.Nat.{div-add-mod', mod-lt, div-lt_self}
use proxy_py.Base.{
  ℕ, zero, suc, ◌+◌, ◌*◌, ◌/◌, ◌%◌, ◌≤◌, ◌<◌, ◌≡◌, refl, sym, ap, ◌∙◌, ◌≢◌, ◌⊎◌, inl, inr, false,
  some, [], ◌∷◌, ◌++◌, append_assoc, append-nil, arith, ltb, Bool-cases, Bytes, All, All-append, ok,
}
use proxy_py.Base.Int.{pos}
use proxy_py.Bytes.{is_space}
use proxy_py.Bytes.Strip.{strip_id}
use proxy_py.Number.{
  signed, start, digit, digit_value, scan_byte, put_digit, scan, scan_prefixed, scan_signed, int_of,
  digit_byte, digits_fuel, digits,
}

-- A byte that prints a digit.
abbrev pub IsDigit : ℕ → Type 0
IsDigit c = ((b'0' ≤ c) × (c ≤ b'9')) ⊎ ((b'a' ≤ c) × (c ≤ b'f'))

digit_byte-IsDigit : (d : ℕ) → d < 16 → IsDigit (digit_byte d)
unfolding digit_byte
digit_byte-IsDigit d h = ground arith

digit_value-digit_byte : (d : ℕ) → d < 16 → digit_value (digit_byte d) ≡ some d
unfolding digit_value digit_byte
digit_value-digit_byte d h = ground arith

pub IsDigit-is_space : (c : ℕ) → IsDigit c → is_space c ≡ false
unfolding is_space
IsDigit-is_space c h = ground arith

digit_byte-ne-underscore : (d : ℕ) → d < 16 → digit_byte d ≢ b'_'
unfolding digit_byte
digit_byte-ne-underscore d h = ground arith

module _ (base : ℕ) (big : 1 < base) (small : base ≤ 16) where
  mod_small : (n : ℕ) → n % base < 16
  mod_small n = grind arith

  digits_fuel-IsDigit : (f n : ℕ) → All IsDigit (digits_fuel base f n)
  unfolding digits_fuel
  digits_fuel-IsDigit zero n = tt
  digits_fuel-IsDigit (suc f) n = elim (Bool-cases (ltb n base)) [
    | inl e ↦ rw e (digit_byte-IsDigit n (ground arith), tt)
    | inr e ↦ rw e (
        All-append IsDigit (digits_fuel base f (n / base)) (digit_byte (n % base) ∷ [])
          (digits_fuel-IsDigit f (n / base)) (digit_byte-IsDigit (n % base) (mod_small n), tt))
  ]

  scan_byte-digit_byte :
      (acc d : ℕ)
      → d < base
      → scan_byte base digit acc (digit_byte d) ≡ some (digit, acc * base + d)
  unfolding scan_byte put_digit
  scan_byte-digit_byte acc d h =
      ground (arith, digit_value-digit_byte d, digit_byte-ne-underscore d)

  scan_byte-start : (d : ℕ) → d < base → scan_byte base start 0 (digit_byte d) ≡ some (digit, d)
  unfolding scan_byte put_digit
  scan_byte-start d h = ground (arith, digit_value-digit_byte d)

  scan-digits_fuel :
      (f n : ℕ) (rest : Bytes)
      → n < f
      → scan base start 0 (digits_fuel base f n ++ rest) ≡ scan base digit n rest
  unfolding digits_fuel
  scan-digits_fuel zero n rest h = elim h [ ]
  scan-digits_fuel (suc f) n rest h = elim (Bool-cases (ltb n base)) [
    | inl e ↦ rw e (unfold scan in rw (scan_byte-start n (ground arith), scan))
    | inr e ↦
        let big_n : base ≤ n = ground arith in
        let less : n / base < f = omega (arith, div-lt_self {n = n} {k = base} (omega arith) big) in
        rw e (
          rw append_assoc (
            scan-digits_fuel f (n / base) (digit_byte (n % base) ∷ rest) less
            ∙ (unfold scan in
                rw (scan_byte-digit_byte (n / base) (n % base) (mod-lt n (omega arith)), scan)
                  (ap (λ m. scan base digit m rest) (div-add-mod' n base)))))
  ]

  pub digits-IsDigit : (n : ℕ) → All IsDigit (digits base n)
  unfolding digits
  digits-IsDigit n = digits_fuel-IsDigit (suc n) n

  pub scan-digits :
      (n : ℕ) (rest : Bytes) → scan base start 0 (digits base n ++ rest) ≡ scan base digit n rest
  unfolding digits
  scan-digits n rest = scan-digits_fuel (suc n) n rest (omega arith)

  pub digits-ne-nil : (n : ℕ) → digits base n ≢ []
  unfolding scan
  digits-ne-nil n e = cc (rw e at (scan-digits n []))

-- On digits alone the numeral is neither signed nor prefixed.
scan_signed-IsDigit :
    (base : ℕ) (cs : Bytes)
    → cs ≢ []
    → All IsDigit cs
    → scan_signed base cs ≡ signed pos (scan base start 0 cs)
unfolding scan_signed scan_prefixed
scan_signed-IsDigit base [] ne h = absurd (ne refl)
scan_signed-IsDigit base (c ∷ []) ne h = ground arith
scan_signed-IsDigit base (c ∷ x ∷ cs) ne h = ground arith

pub IsDigit-All-space : (cs : Bytes) → All IsDigit cs → All (λ c. is_space c ≡ false) cs
IsDigit-All-space [] h = tt
IsDigit-All-space (c ∷ cs) h = (IsDigit-is_space c h.0, IsDigit-All-space cs h.1)

-- What `str` and `format` print, `int` reads back, in every base from 2 to 16.
pub int_of-digits : (base n : ℕ) → 1 < base → base ≤ 16 → int_of base (digits base n) ≡ ok (pos n)
unfolding int_of
int_of-digits base n big small =
    let all = digits-IsDigit base big small n in
    rw (strip_id (digits base n) (IsDigit-All-space (digits base n) all)) (
      scan_signed-IsDigit base (digits base n) (digits-ne-nil base big small n) all
      ∙ ap (signed pos) (
          ap (scan base start 0) (sym (append-nil (digits base n)))
          ∙ scan-digits base big small n [])
      ∙ unfold scan in refl)
