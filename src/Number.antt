-- ===== src/Number.antt =====
-- `int(raw)`, `int(raw, 16)`, `str(n).encode()` and `'{:x}'.format(n)`.
pub mod RoundTrip
use proxy_py.Base.{
  ℕ, zero, suc, ◌+◌, ◌-◌, ◌*◌, ◌/◌, ◌%◌, ◌&&◌, ◌||◌, Option, none, some, [], ◌∷◌, ◌++◌, ltb, leb,
  ◌==◌, if◌then◌else◌, Bytes, Result, value_error, ok, raise,
}
use proxy_py.Base.Int.{negate, ℤ, pos}
use proxy_py.Bytes.{strip}

-- The value of one digit, in either case.
unfoldable pub digit_value : ℕ → Option ℕ
digit_value c =
    if leb b'0' c && leb c b'9'
    then some (c - b'0')
    else if leb b'a' c && leb c b'f'
    then some (c - b'a' + 10)
    else if leb b'A' c && leb c b'F'
    then some (c - b'A' + 10)
    else none

-- What the last byte was: nothing yet, the prefix `0x`, a digit, an underscore.
pub data Last : Type 0 where
  start prefix digit underscore : Last

unfoldable pub put_digit : ℕ → ℕ → Option ℕ → Option (Last × ℕ)
put_digit base acc none = none
put_digit base acc (some d) = if ltb d base then some (digit, acc * base + d) else none

-- One byte of a numeral; single underscores may stand between digits, and behind the prefix.
unfoldable pub scan_byte : ℕ → Last → ℕ → ℕ → Option (Last × ℕ)
scan_byte base digit acc c =
    if c == b'_' then some (underscore, acc) else put_digit base acc (digit_value c)
scan_byte base prefix acc c =
    if c == b'_' then some (underscore, acc) else put_digit base acc (digit_value c)
scan_byte base start acc c = put_digit base acc (digit_value c)
scan_byte base underscore acc c = put_digit base acc (digit_value c)

unfoldable pub scan : ℕ → Last → ℕ → Bytes → Option ℕ
scan base digit acc [] = some acc
scan base start acc [] = none
scan base prefix acc [] = none
scan base underscore acc [] = none
scan base last acc (c ∷ cs) = elim (scan_byte base last acc c) [
  | none ↦ none
  | some (last', acc') ↦ scan base last' acc' cs
]

-- `0x` and `0X` are skipped in base 16.
unfoldable pub scan_prefixed : ℕ → Bytes → Option ℕ
scan_prefixed base (z ∷ x ∷ cs) =
    if base == 16 && (z == b'0' && (x == b'x' || x == b'X'))
    then scan base prefix 0 cs
    else scan base start 0 (z ∷ x ∷ cs)
scan_prefixed base cs = scan base start 0 cs

abbrev pub signed : (ℕ → ℤ) → Option ℕ → Result ℤ
signed f none = raise value_error
signed f (some n) = ok (f n)

unfoldable pub scan_signed : ℕ → Bytes → Result ℤ
scan_signed base [] = raise value_error
scan_signed base (c ∷ cs) =
    if c == b'-'
    then signed negate (scan_prefixed base cs)
    else if c == b'+'
    then signed pos (scan_prefixed base cs)
    else signed pos (scan_prefixed base (c ∷ cs))

-- `int(raw, base)` for the bases 10 and 16.
unfoldable pub int_of : ℕ → Bytes → Result ℤ
unfolding strip scan_signed scan_prefixed scan scan_byte put_digit digit_value
int_of base raw = scan_signed base (strip raw)

-- A lower-case digit.
unfoldable pub digit_byte : ℕ → ℕ
digit_byte d = if ltb d 10 then b'0' + d else b'a' + (d - 10)

digits_fuel : ℕ → ℕ → ℕ → Bytes
digits_fuel base zero n = []
digits_fuel base (suc f) n =
    let more = digits_fuel base f (n / base) ++ digit_byte (n % base) ∷ [] in
    if ltb n base then digit_byte n ∷ [] else more

-- A number in the given base, most significant digit first and no leading zero.
unfoldable pub digits : ℕ → ℕ → Bytes
unfolding digits_fuel digit_byte
digits base n = digits_fuel base (suc n) n
