-- ===== src/Http/Websocket/RoundTrip.antt =====
-- What `build` writes, `parse` reads back.
use proxy_py.Base.{
  ℕ, ◌/◌, ◌%◌, ◌^◌, ◌≤◌, ◌<◌, ◌≡◌, refl, ap, ◌∙◌, ◌≢◌, ◌⊎◌, inl, inr, Bool, true, false, Option,
  none, some, [], ◌∷◌, ◌++◌, append_assoc, arith, ltb, ◌==◌, if◌then◌else◌, lt→ltb, Bool-cases,
  Bytes, length, take, drop, take-length, drop-length, value_error, struct_error, ok, raise,
}
use proxy_py.Http.Websocket.Bits.{
  parse_mask_and_payload-length_byte, parse_fin_and_rsv-fin_byte, fin_byte-lt,
}
use proxy_py.Http.Websocket.Mask.{IsBytes, apply_mask_twice}
use proxy_py.Http.Websocket.{
  new_frame, fin_byte, length_byte, parse, unpack, pack_u16, pack_u8, write_length, read_rest,
  parse_mask_and_payload, truthy, chosen_mask, write_payload, with_length, read_length, read_data,
  Frame, build,
}

pack_u8-ok : (n : ℕ) → n < 256 → pack_u8 n ≡ ok (n ∷ [])
unfolding pack_u8
pack_u8-ok n h = ground arith

-- The bytes of the length.
size_bytes : Bool → ℕ → Bytes
size_bytes m n =
    if ltb n 126 then length_byte m n ∷ [] else length_byte m 126 ∷ n / 256 ∷ n % 256 ∷ []

write_length-size_bytes :
    (m : Bool) (n : ℕ) → n < 65536 → write_length m (some n) ≡ ok (size_bytes m n)
unfolding write_length size_bytes pack_u16
write_length-size_bytes m n h = elim (Bool-cases (ltb n 126)) [
  | inl e ↦ rw e (
      pack_u8-ok (length_byte m n)
        (parse_mask_and_payload-length_byte new_frame m n (ground arith)).0)
  | inr e ↦ rw e (
      rw (lt→ltb n 65536 h) (
        rw
          (pack_u8-ok (length_byte m 126)
            (parse_mask_and_payload-length_byte new_frame m 126 (omega arith)).0)
          refl))
]

-- The two bytes of `!H` are read back.
unpack-u16 : (n : ℕ) → unpack 2 0 (n / 256 ∷ n % 256 ∷ []) ≡ ok n
unfolding unpack
unpack-u16 n = ap ok (omega arith)

-- A frame with its flags read, and no payload yet.
abbrev head_of : Frame → Option ℕ → Frame
head_of f n = record f { payload_length = n; mask = none; data_bytes = none }

module _ (f : Frame) (h : f.opcode < 16) where
  parse-head :
      (n : ℕ) (raw : Bytes)
      → n < 128
      → parse new_frame
          (fin_byte f.fin f.rsv1 f.rsv2 f.rsv3 f.opcode ∷ length_byte f.masked n ∷ raw)
        ≡ read_rest (head_of f (some n)) raw
  unfolding parse
  parse-head n raw small =
      ap (λ g. read_rest g raw)
        (ap (λ g. parse_mask_and_payload g (length_byte f.masked n))
            (parse_fin_and_rsv-fin_byte f.fin f.rsv1 f.rsv2 f.rsv3 f.opcode h new_frame)
          ∙ (parse_mask_and_payload-length_byte
              (record new_frame {
                fin = f.fin;
                rsv1 = f.rsv1;
                rsv2 = f.rsv2;
                rsv3 = f.rsv3;
                opcode = f.opcode;
              })
              f.masked n small).1)

read_length-short : (n : ℕ) (raw : Bytes) → n < 126 → read_length (some n) raw ≡ ok (n, raw)
unfolding read_length
read_length-short n raw h = ground arith

read_length-u16 :
    (n : ℕ) (raw : Bytes) → read_length (some 126) (n / 256 ∷ n % 256 ∷ raw) ≡ ok (n, raw)
unfolding read_length
read_length-u16 n raw = rw (unpack-u16 n)

-- The length that `read_data` is given replaces the one of the second byte.
read_data-head :
    (m : Bool) (f : Frame) (k l : Option ℕ) (n : ℕ) (raw : Bytes)
    → read_data m (head_of f k) n raw ≡ read_data m (head_of f l) n raw
unfolding read_data
read_data-head true f k l n raw = refl
read_data-head false f k l n raw = refl

parse-size_bytes :
    (f : Frame) (n : ℕ) (raw : Bytes)
    → f.opcode < 16
    → n < 65536
    → parse new_frame
        (fin_byte f.fin f.rsv1 f.rsv2 f.rsv3 f.opcode ∷ (size_bytes f.masked n ++ raw))
      ≡ read_data f.masked (head_of f (some n)) n raw
unfolding size_bytes
parse-size_bytes f n raw h small = elim (Bool-cases (ltb n 126)) [
  | inl e ↦ rw e (
      parse-head f h n raw (ground arith)
      ∙ unfold read_rest in rw (read_length-short n raw (ground arith)))
  | inr e ↦ rw e (
      parse-head f h 126 _ (omega arith)
      ∙ unfold read_rest in
        rw (read_length-u16 n raw) (read_data-head f.masked f (some 126) (some n) n raw))
]

-- A frame with payload `d` that `build` can write.
pub record IsWire (token d : Bytes) (f : Frame) : Type 0 where
  pub opcode_fits : f.opcode < 16
  pub payload : f.data_bytes ≡ some d
  pub payload-ne-nil : d ≢ []
  pub payload_fits : length d < 65536
  pub payload-IsBytes : IsBytes d
  pub sized : (f.payload_length ≡ none) ⊎ (f.payload_length ≡ some (length d))
  pub mask_length : length (chosen_mask token f.mask) ≡ 4
  pub mask-IsBytes : IsBytes (chosen_mask token f.mask)

-- The frame as the other side sees it.
abbrev received_in : Bool → Bytes → Bytes → Frame → Frame
received_in m token d f = record f {
  payload_length = some (length d);
  mask = if m then some (chosen_mask token f.mask) else none;
  data_bytes = some d;
}

abbrev pub received : Bytes → Bytes → Frame → Frame
received token d f = received_in f.masked token d f

with_length-length :
    (d : Bytes) (n : Option ℕ) (o : Option Bytes)
    → o ≡ some d
    → d ≢ []
    → (n ≡ none) ⊎ (n ≡ some (length d))
    → with_length n o ≡ some (length d)
with_length-length [] n o e ne s = absurd (ne refl)
with_length-length (c ∷ d) n o e ne s = ground arith

not_zero : (d : Bytes) → d ≢ [] → (length d == 0) ≡ false
not_zero [] ne = absurd (ne refl)
not_zero (c ∷ d) ne = ground arith

truthy-some : (d : Bytes) → d ≢ [] → truthy (some d) ≡ true
truthy-some [] ne = absurd (ne refl)
truthy-some (c ∷ d) ne = refl

-- What stands behind the length, and how it is read.
record Payload (token d : Bytes) (f : Frame) (m : Bool) : Type 0 where
  out : Bytes
  written : write_payload token f ≡ ok out
  reads_back :
      (rest : Bytes)
      → read_data m (head_of f (some (length d))) (length d) (out ++ rest)
        ≡ ok (received_in m token d f, rest)

module _ (token d : Bytes) (f : Frame) (w : IsWire token d f) where
  Payload-plain : f.masked ≡ false → Payload token d f false
  unfolding write_payload read_data
  Payload-plain e = record {
    out = d;
    written = ground arith;
    reads_back = λ rest.
        rw (not_zero d w.payload-ne-nil) (rw (take-length d rest) (rw (drop-length d rest)));
  }

  take_mask :
      (mask ys : Bytes)
      → length mask ≡ 4
      → (take 4 (mask ++ ys) ≡ mask) × (drop 4 (mask ++ ys) ≡ ys)
  take_mask mask ys four = rw (← four) (take-length mask ys, drop-length mask ys)

  Payload-masked : f.masked ≡ true → Payload token d f true
  unfolding write_payload read_data
  Payload-masked e =
      let mask = chosen_mask token f.mask in
      let (ys, there, back, same_length) =
        apply_mask_twice mask w.mask_length w.mask-IsBytes d w.payload-IsBytes in
      record {
        out = mask ++ ys;
        written = ground (arith, truthy-some d w.payload-ne-nil);
        reads_back = λ rest.
            let (cut_mask, cut_rest) = take_mask mask (ys ++ rest) w.mask_length in
            rw (append_assoc mask ys rest) (
              rw cut_mask (
                rw cut_rest (
                  rw (not_zero d w.payload-ne-nil) (
                    rw (← same_length)
                      (rw (take-length ys rest) (rw back (rw (drop-length ys rest))))))));
      }

  Payload-of : (m : Bool) → f.masked ≡ m → Payload token d f m
  Payload-of true e = Payload-masked e
  Payload-of false e = Payload-plain e

-- A frame whose opcode has 4 bits, whose payload has from 1 to 65535 bytes and whose mask, its own
-- or the random one, has 4 bytes is written without an error, and parsing the bytes, whatever
-- follows them, gives the same frame, payload unmasked, and exactly what follows.
pub parse-build :
    (token d rest : Bytes) (f : Frame)
    → IsWire token d f
    → (raw : Bytes) × (build token f ≡ ok (record f { payload_length = some (length d) }, raw))
      × (parse new_frame (raw ++ rest) ≡ ok (received token d f, rest))
unfolding build
parse-build token d rest f w =
    let p = Payload-of token d f w f.masked refl in
    (
      fin_byte f.fin f.rsv1 f.rsv2 f.rsv3 f.opcode ∷ (size_bytes f.masked (length d) ++ p.out),
      rw (pack_u8-ok _ (fin_byte-lt f.fin f.rsv1 f.rsv2 f.rsv3 f.opcode w.opcode_fits)) (
          rw (with_length-length d f.payload_length f.data_bytes w.payload w.payload-ne-nil w.sized)
            (rw (write_length-size_bytes f.masked (length d) w.payload_fits) (rw p.written))),
      rw (append_assoc (size_bytes f.masked (length d)) p.out rest) (
          parse-size_bytes f (length d) (p.out ++ rest) w.opcode_fits w.payload_fits
          ∙ p.reads_back rest),
    )

write_length-large :
    (m : Bool) (n : ℕ)
    → 65536 ≤ n
    → write_length m (some n) ≡ raise (if ltb n (2 ^ 64) then struct_error else value_error)
unfolding write_length
write_length-large m n h = ground arith

-- A frame with 4 bits of opcode, 65536 bytes of data or more, and no payload length set: `build` raises. Below
-- 2 ^ 64 bytes the format of the 64-bit length wants one more number than it is given, and from there on
-- the length is refused.
pub build_large :
    (token d : Bytes) (f : Frame)
    → f.opcode < 16
    → f.data_bytes ≡ some d
    → f.payload_length ≡ none
    → 65536 ≤ length d
    → build token f ≡ raise (if ltb (length d) (2 ^ 64) then struct_error else value_error)
unfolding build
build_large token d f h e n large =
    let ne : d ≢ [] = λ e'. absurd (omega (arith, ap length e')) in
    rw (pack_u8-ok _ (fin_byte-lt f.fin f.rsv1 f.rsv2 f.rsv3 f.opcode h)) (
      rw (with_length-length d f.payload_length f.data_bytes e ne (inl n))
        (rw (write_length-large f.masked (length d) large)))
