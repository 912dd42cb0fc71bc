-- ===== src/Tls/Pretty/Unhexlify.antt =====
-- The text of `pretty_hexlify` tells the bytes.
use proxy_py.Base.{
  ℕ, ◌+◌, ◌-◌, ◌*◌, ◌/◌, ◌%◌, ◌<◌, ◌≡◌, refl, ap, [], ◌∷◌, arith, ltb, if◌then◌else◌, Bytes, All,
}
use proxy_py.Http.Chunk.{join}
use proxy_py.Tls.Pretty.{hex_digit, hexlify, pairs, pretty_hexlify}

-- The value of a hexadecimal digit.
abbrev pub digit_value : ℕ → ℕ
digit_value c = if ltb c 58 then c - 48 else c - 87

-- Two digits for a byte, and one character between two bytes.
pub unhexlify : Bytes → Bytes
unhexlify (a ∷ b ∷ c ∷ rest) = (digit_value a * 16 + digit_value b) ∷ unhexlify rest
unhexlify (a ∷ b ∷ []) = (digit_value a * 16 + digit_value b) ∷ []
unhexlify _ = []

value-hex_digit : (n : ℕ) → n < 16 → digit_value (hex_digit n) ≡ n
unfolding hex_digit
value-hex_digit n h = ground arith

value-byte :
    (b : ℕ) → b < 256 → digit_value (hex_digit (b / 16)) * 16 + digit_value (hex_digit (b % 16)) ≡ b
value-byte b h =
    rw (value-hex_digit (b / 16) (omega arith))
      (rw (value-hex_digit (b % 16) (omega arith)) (omega arith))

-- A sequence of bytes can be read back from its text.
pub unhexlify-pretty_hexlify :
    (raw : Bytes) → All (λ b. b < 256) raw → unhexlify (pretty_hexlify raw) ≡ raw
unfolding pretty_hexlify pairs hexlify unhexlify join
unhexlify-pretty_hexlify [] h = refl
unhexlify-pretty_hexlify (b ∷ []) h = rw (value-byte b h.0) refl
unhexlify-pretty_hexlify (b ∷ c ∷ rest) h =
    rw (value-byte b h.0) (ap (λ bs. b ∷ bs) (unhexlify-pretty_hexlify (c ∷ rest) h.1))
