-- ===== src/Http/Websocket/Bits.antt =====
-- The bits of the first two bytes, checked for every value.
use Prim.Native.Nat.{bit_and, bit_xor}
use proxy_py.Base.{
  ℕ, zero, suc, ◌<◌, ◌≡◌, refl, Bool, true, false, not, ◌&&◌, some, arith, ltb, ◌==◌, ==_iff,
}
use proxy_py.Http.Websocket.{
  fin_byte, length_byte, has_bit, parse_fin_and_rsv, parse_mask_and_payload, Frame,
}

-- The test passes at every number below `top`.
every : ℕ → (ℕ → Bool) → Bool
every (suc top) test = every top test && test top
every zero test = true

every_get : (test : ℕ → Bool) (top k : ℕ) → k < top → every top test ≡ true → test k ≡ true
unfolding every
every_get test (suc top) k below passed = ground (arith, every_get test top k)
every_get test zero k below passed = absurd (omega arith)

abbrev both : (Bool → Bool) → Bool
both p = p true && p false

both_sound : (p : Bool → Bool) (b : Bool) → both p ≡ true → p b ≡ true
both_sound p true h = ground arith
both_sound p false h = ground arith

abbrev agrees : Bool → Bool → Bool
agrees true b = b
agrees false b = not b

-- The first byte is a byte, and gives back the flags and the opcode.
abbrev fin_byte_ok : Bool → Bool → Bool → Bool → ℕ → Bool
fin_byte_ok fin rsv1 rsv2 rsv3 opcode =
    let byte = fin_byte fin rsv1 rsv2 rsv3 opcode in
    ltb byte 256
    && (agrees (has_bit byte 128) fin
        && (agrees (has_bit byte 64) rsv1
            && (agrees (has_bit byte 32) rsv2
                && (agrees (has_bit byte 16) rsv3 && bit_and byte 15 == opcode))))

fin_byte_table :
    both (λ a. both (λ b. both (λ c. both (λ d. every 16 (fin_byte_ok a b c d))))) ≡ true
unfolding fin_byte every
fin_byte_table = refl

abbrev length_byte_ok : Bool → ℕ → Bool
length_byte_ok masked n =
    let byte = length_byte masked n in
    ltb byte 256 && (agrees (has_bit byte 128) masked && bit_and byte 127 == n)

length_byte_table : both (λ m. every 128 (length_byte_ok m)) ≡ true
unfolding length_byte every
length_byte_table = refl

xor_table : every 256 (λ m. every 256 (λ x. bit_xor (bit_xor x m) m == x)) ≡ true
unfolding every
xor_table = refl

pub xor_twice : (x m : ℕ) → x < 256 → m < 256 → bit_xor (bit_xor x m) m ≡ x
xor_twice x m hx hm = (==_iff _ x).0 (every_get _ 256 x hx (every_get _ 256 m hm xor_table))

agrees_eq : (a b : Bool) → agrees a b ≡ true → a ≡ b
agrees_eq true b h = ground arith
agrees_eq false b h = ground arith

fin_byte_fields :
    (fin rsv1 rsv2 rsv3 : Bool) (opcode : ℕ)
    → opcode < 16
    → fin_byte_ok fin rsv1 rsv2 rsv3 opcode ≡ true
fin_byte_fields a b c d opcode h = every_get (fin_byte_ok a b c d) 16 opcode h (
    both_sound (λ x. every 16 (fin_byte_ok a b c x)) d
      (both_sound (λ x. both (λ d'. every 16 (fin_byte_ok a b x d'))) c
        (both_sound (λ x. both (λ c'. both (λ d'. every 16 (fin_byte_ok a x c' d')))) b
          (both_sound
            (λ x. both (λ b'. both (λ c'. both (λ d'. every 16 (fin_byte_ok x b' c' d'))))) a
            fin_byte_table))))

length_byte_fields : (masked : Bool) (n : ℕ) → n < 128 → length_byte_ok masked n ≡ true
length_byte_fields m n h =
    every_get (length_byte_ok m) 128 n h
      (both_sound (λ x. every 128 (length_byte_ok x)) m length_byte_table)

-- The conjunction, part by part.
&&_parts : (a b : Bool) → a && b ≡ true → (a ≡ true) × (b ≡ true)
&&_parts true true h = (refl, refl)
&&_parts true false h = cc
&&_parts false b h = cc

module _ (fin rsv1 rsv2 rsv3 : Bool) (opcode : ℕ) (h : opcode < 16) where
  pub fin_byte-lt : fin_byte fin rsv1 rsv2 rsv3 opcode < 256
  fin_byte-lt = ground (arith, fin_byte_fields fin rsv1 rsv2 rsv3 opcode h)

  pub parse_fin_and_rsv-fin_byte :
      (f : Frame)
      → parse_fin_and_rsv f (fin_byte fin rsv1 rsv2 rsv3 opcode)
        ≡ record f { fin = fin; rsv1 = rsv1; rsv2 = rsv2; rsv3 = rsv3; opcode = opcode }
  unfolding parse_fin_and_rsv
  parse_fin_and_rsv-fin_byte f =
      let byte = fin_byte fin rsv1 rsv2 rsv3 opcode in
      let s0 = &&_parts (ltb byte 256) _ (fin_byte_fields fin rsv1 rsv2 rsv3 opcode h) in
      let s1 = &&_parts _ _ s0.1 in
      let s2 = &&_parts _ _ s1.1 in
      let s3 = &&_parts _ _ s2.1 in
      let s4 = &&_parts _ _ s3.1 in
      cc (
        agrees_eq _ fin s1.0,
        agrees_eq _ rsv1 s2.0,
        agrees_eq _ rsv2 s3.0,
        agrees_eq _ rsv3 s4.0,
        (==_iff _ opcode).0 s4.1,
      )

pub parse_mask_and_payload-length_byte :
    (f : Frame) (m : Bool) (n : ℕ)
    → n < 128
    → (length_byte m n < 256)
      × (parse_mask_and_payload f (length_byte m n)
          ≡ record f { masked = m; payload_length = some n })
unfolding parse_mask_and_payload
parse_mask_and_payload-length_byte f m n h =
    let byte = length_byte m n in
    let s0 = &&_parts (ltb byte 256) _ (length_byte_fields m n h) in
    let s1 = &&_parts _ _ s0.1 in
    (ground (arith, s0.0), cc (agrees_eq _ m s1.0, (==_iff _ n).0 s1.1))
