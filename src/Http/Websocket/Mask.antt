-- ===== src/Http/Websocket/Mask.antt =====
-- Masking twice with one mask gives the data back.
use Prim.Native.Nat.{bit_xor}
use proxy_py.Base.{ℕ, zero, suc, ◌%◌, ◌<◌, ◌≡◌, refl, ap, [], ◌∷◌, arith, Bytes, length, All, ok}
use proxy_py.Http.Websocket.Bits.{xor_twice}
use proxy_py.Http.Websocket.{apply_mask, apply_mask_from, index}

-- A sequence of bytes.
abbrev pub IsBytes : Bytes → Type 0
IsBytes raw = All (λ b. b < 256) raw

index_in_range :
    (mask : Bytes) (i : ℕ)
    → i < length mask
    → IsBytes mask
    → (m : ℕ) × (index mask i ≡ ok m) × (m < 256)
index_in_range [] i h b = elim h [ ]
index_in_range (x ∷ mask) zero h b = (x, refl, b.0)
index_in_range (x ∷ mask) (suc i) h b = index_in_range mask i (omega arith) b.1

module _ (mask : Bytes) (four : length mask ≡ 4) (b : IsBytes mask) where
  apply_mask_from_twice :
      (i : ℕ) (xs : Bytes)
      → IsBytes xs
      → (ys : Bytes) × (apply_mask_from i xs mask ≡ ok ys)
        × (apply_mask_from i ys mask ≡ ok xs)
        × (length ys ≡ length xs)
  unfolding apply_mask_from
  apply_mask_from_twice i [] h = ([], refl, refl, refl)
  apply_mask_from_twice i (x ∷ xs) h =
      let (m, found, small) = index_in_range mask (i % 4) (omega arith) b in
      let (ys, there, back, same_length) = apply_mask_from_twice (suc i) xs h.1 in
      (
        bit_xor x m ∷ ys,
        rw found (rw there),
        rw found (rw back (rw (xor_twice x m h.0 small))),
        ap suc same_length,
      )

  -- Four bytes of mask mask any data, and mask it back.
  pub apply_mask_twice :
      (xs : Bytes)
      → IsBytes xs
      → (ys : Bytes) × (apply_mask xs mask ≡ ok ys)
        × (apply_mask ys mask ≡ ok xs)
        × (length ys ≡ length xs)
  unfolding apply_mask
  apply_mask_twice xs h = apply_mask_from_twice 0 xs h
