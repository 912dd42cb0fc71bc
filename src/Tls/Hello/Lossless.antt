-- ===== src/Tls/Hello/Lossless.antt =====
-- A hello that is accepted is built again byte for byte.
use proxy_py.Base.{
  ℕ, ◌+◌, ◌≤◌, ◌≡◌, refl, ap, ◌∙◌, inl, inr, true, false, some, [], ◌++◌, append_assoc, append-nil,
  arith, ◌==◌, Bool-cases, Option-cases, Bytes, length, get_elem?, drop, slice, slice-drop,
}
use proxy_py.Tls.Hello.{
  Hello, build, Parsed, part, u16_at, cipher_end, parse_extension, parse_compression, parse_cipher,
  parse, Side, client, server,
}

-- Accepted: the hello and what follows it are the input. Refused: nothing is consumed.
abbrev pub Builds : Bytes → Parsed → Type 0
Builds raw (h, true, rest) = build h ++ rest ≡ raw
Builds raw (h, false, rest) = rest ≡ raw

-- The bytes `before` are the input up to `idx`.
abbrev Upto : Bytes → Bytes → ℕ → Type 0
Upto raw before idx = before ++ drop idx raw ≡ raw

Upto-slice :
    (raw before : Bytes) (i j : ℕ)
    → i ≤ j
    → Upto raw before i
    → Upto raw (before ++ slice raw i j) j
Upto-slice raw before i j le h =
    append_assoc before (slice raw i j) (drop j raw)
    ∙ ap (λ b. before ++ b) (slice-drop raw i j le)
    ∙ h

-- The parts that are set before the extension, and before the compression method, and so on.
abbrev parts3 : Hello → Bytes
parts3 h = (part h.protocol_version ++ part h.random) ++ part h.session_id

abbrev parts4 : Hello → Bytes
parts4 h = parts3 h ++ part h.cipher_suite

abbrev parts5 : Hello → Bytes
parts5 h = parts4 h ++ part h.compression_method

build-parts5 : (h : Hello) (rest : Bytes) → build h ++ rest ≡ (parts5 h ++ part h.extension) ++ rest
unfolding build
build-parts5 h rest = simp append_assoc

extension-Builds :
    (h : Hello) (raw : Bytes) (i : ℕ) → Upto raw (parts5 h) i → Builds raw (parse_extension h raw i)
unfolding parse_extension
extension-Builds h raw i upto = elim (Bool-cases (i == length raw)) [
  | inl e ↦ rw e (
      build-parts5 (record h { extension = some [] }) (drop i raw)
      ∙ ap (λ b. b ++ drop i raw) (append-nil (parts5 h))
      ∙ upto)
  | inr e ↦ elim (Option-cases (u16_at raw i)) [
    | inl n ↦ rw e (rw n refl)
    | inr (n, e') ↦ rw e (
        rw e' (
          build-parts5 (record h { extension = some (slice raw i (i + 2 + n)) }) _
          ∙ Upto-slice raw (parts5 h) i (i + 2 + n) (omega arith) upto))
  ]
]

compression-Builds :
    (h : Hello) (raw : Bytes) (i : ℕ)
    → Upto raw (parts4 h) i
    → Builds raw (parse_compression h raw i)
unfolding parse_compression
compression-Builds h raw i upto = elim (Option-cases (get_elem? raw i)) [
  | inl e ↦ rw (e, parse_compression) refl
  | inr (n, e) ↦
      rw (e, parse_compression)
        (extension-Builds _ raw (i + 1 + n)
          (Upto-slice raw (parts4 h) i (i + 1 + n) (omega arith) upto))
]

cipher_end-le : (side : Side) (raw : Bytes) (i j : ℕ) → cipher_end side raw i ≡ some j → i ≤ j
unfolding cipher_end
cipher_end-le client raw i j e = ground arith
cipher_end-le server raw i j e = ground arith

cipher-Builds :
    (side : Side) (h : Hello) (raw : Bytes) (i : ℕ)
    → Upto raw (parts3 h) i
    → Builds raw (parse_cipher side h raw i)
unfolding parse_cipher
cipher-Builds side h raw i upto = elim (Option-cases (cipher_end side raw i)) [
  | inl e ↦ rw (e, parse_cipher) refl
  | inr (j, e) ↦
      rw (e, parse_cipher)
        (compression-Builds _ raw j
          (Upto-slice raw (parts3 h) i j (cipher_end-le side raw i j e) upto))
]

-- Whatever the bytes, a hello that is accepted is built as exactly the bytes that were taken, and what
-- is returned is the rest; after a failure all the bytes are returned.
pub parse-Builds : (side : Side) (h : Hello) (raw : Bytes) → Builds raw (parse side h raw)
unfolding parse
parse-Builds side h raw = elim (Option-cases (get_elem? raw 34)) [
  | inl e ↦ rw (e, parse) refl
  | inr (n, e) ↦
      rw (e, parse)
        (cipher-Builds side _ raw (35 + n) (
          Upto-slice raw (slice raw 0 2 ++ slice raw 2 34) 34 (35 + n) (omega arith) (
            Upto-slice raw (slice raw 0 2) 2 34 (omega arith)
              (Upto-slice raw [] 0 2 (omega arith) refl))))
]
