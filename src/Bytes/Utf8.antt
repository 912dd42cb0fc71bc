-- ===== src/Bytes/Utf8.antt =====
-- `raw.decode('utf-8')` raises unless the bytes are well-formed UTF-8.
use proxy_py.Base.{
  ℕ, ◌-◌, ◌<◌, ◌≡◌, refl, Bool, true, false, ◌&&◌, Option, none, some, [], ◌∷◌, arith, leb, ◌==◌,
  if◌then◌else◌, Bytes, All, Result, value_error, ok, raise,
}

-- How many bytes of a character are to come, and the range of the next one.
pub record Expecting : Type 0 where
  pub count : ℕ
  pub lo : ℕ
  pub hi : ℕ

abbrev expect : ℕ → ℕ → ℕ → Option Expecting
expect n lo hi = some (record { count = n; lo = lo; hi = hi })

abbrev within : ℕ → ℕ → ℕ → Bool
within lo hi c = leb lo c && leb c hi

-- The first byte of a character.
first_byte : ℕ → Option Expecting
first_byte c =
    if within 0 0x7f c
    then expect 0 0 0
    else if within 0xc2 0xdf c
    then expect 1 0x80 0xbf
    else if c == 0xe0
    then expect 2 0xa0 0xbf
    else if c == 0xed
    then expect 2 0x80 0x9f
    else if within 0xe1 0xef c
    then expect 2 0x80 0xbf
    else if c == 0xf0
    then expect 3 0x90 0xbf
    else if within 0xf1 0xf3 c
    then expect 3 0x80 0xbf
    else if c == 0xf4
    then expect 3 0x80 0x8f
    else none

next_byte : Expecting → ℕ → Option Expecting
next_byte e c =
    if e.count == 0
    then first_byte c
    else if within e.lo e.hi c
    then expect (e.count - 1) 0x80 0xbf
    else none

utf8_from : Expecting → Bytes → Bool
utf8_from e [] = e.count == 0
utf8_from e (c ∷ cs) = elim (next_byte e c) [ none ↦ false | some e' ↦ utf8_from e' cs ]

-- Whether `decode` returns.
unfoldable pub is_utf8 : Bytes → Bool
unfolding utf8_from next_byte first_byte
is_utf8 = utf8_from (record { count = 0; lo = 0; hi = 0 })

-- The text, kept as its bytes.
abbrev pub decode : Bytes → Result Bytes
decode raw = if is_utf8 raw then ok raw else raise value_error

ascii_from :
    (cs : Bytes)
    → All (λ c. c < 128) cs
    → utf8_from (record { count = 0; lo = 0; hi = 0 }) cs ≡ true
unfolding utf8_from next_byte first_byte
ascii_from [] h = refl
ascii_from (c ∷ cs) h = ground (arith, ascii_from cs h.1, h.0)

-- ASCII is UTF-8.
pub ascii-is_utf8 : (cs : Bytes) → All (λ c. c < 128) cs → is_utf8 cs ≡ true
unfolding is_utf8
ascii-is_utf8 cs h = ascii_from cs h
