-- ===== src/Http/Websocket.antt =====
-- `WebsocketFrame` of proxy/http/websocket/frame.py.
pub mod Bits
pub mod Mask
pub mod RoundTrip
pub mod Shrinks
use Prim.Native.Nat.{bit_and, bit_or, bit_xor}
use proxy_py.Base.{
  ℕ, zero, suc, ◌+◌, ◌*◌, ◌/◌, ◌%◌, ◌^◌, Bool, true, false, not, ◌&&◌, Option, none, some, [], ◌∷◌,
  ◌++◌, ltb, ◌==◌, if◌then◌else◌, Bytes, length, get_elem?, take, drop, ◌>>=◌, ◌>>◌, guard, Result,
  value_error, assertion_error, index_error, struct_error, ok, raise,
}

pub record Frame : Type 0 where
  pub fin : Bool
  pub rsv1 : Bool
  pub rsv2 : Bool
  pub rsv3 : Bool
  pub opcode : ℕ
  pub masked : Bool
  pub payload_length : Option ℕ
  pub mask : Option Bytes
  pub data_bytes : Option Bytes

-- What `__init__` and `reset` leave.
abbrev pub new_frame : Frame
new_frame = record {
  fin = false;
  rsv1 = false;
  rsv2 = false;
  rsv3 = false;
  opcode = 0;
  masked = false;
  payload_length = none;
  mask = none;
  data_bytes = none;
}

abbrev flag : Bool → ℕ → ℕ
flag b bit = if b then bit else 0

-- `bool(byte & bit)`
abbrev has_bit : ℕ → ℕ → Bool
has_bit byte bit = not (bit_and byte bit == 0)

-- The first byte of a frame.
pub fin_byte : Bool → Bool → Bool → Bool → ℕ → ℕ
fin_byte fin rsv1 rsv2 rsv3 opcode =
    bit_or (bit_or (bit_or (bit_or (flag fin 128) (flag rsv1 64)) (flag rsv2 32)) (flag rsv3 16))
      opcode

unfoldable pub parse_fin_and_rsv : Frame → ℕ → Frame
parse_fin_and_rsv f byte = record f {
  fin = has_bit byte 128;
  rsv1 = has_bit byte 64;
  rsv2 = has_bit byte 32;
  rsv3 = has_bit byte 16;
  opcode = bit_and byte 15;
}

-- The second byte of a frame.
pub length_byte : Bool → ℕ → ℕ
length_byte masked n = bit_or (flag masked 128) n

unfoldable pub parse_mask_and_payload : Frame → ℕ → Frame
parse_mask_and_payload f byte = record f {
  masked = has_bit byte 128;
  payload_length = some (bit_and byte 127);
}

-- `struct.pack('!B', n)` and `struct.pack('!H', n)`
unfoldable pub pack_u8 : ℕ → Result Bytes
pack_u8 n = if ltb n 256 then ok (n ∷ []) else raise struct_error

unfoldable pub pack_u16 : ℕ → Result Bytes
pack_u16 n = if ltb n 65536 then ok (n / 256 ∷ n % 256 ∷ []) else raise struct_error

-- `struct.unpack` of a big-endian number: the bytes must be as many as the format says.
unfoldable pub unpack : ℕ → ℕ → Bytes → Result ℕ
unpack zero acc [] = ok acc
unpack zero acc (b ∷ bs) = raise struct_error
unpack (suc n) acc [] = raise struct_error
unpack (suc n) acc (b ∷ bs) = unpack n (acc * 256 + b) bs

-- `mask[i % 4]`
abbrev index : Bytes → ℕ → Result ℕ
index mask i = elim (get_elem? mask i) [ none ↦ raise index_error | some m ↦ ok m ]

apply_mask_from : ℕ → Bytes → Bytes → Result Bytes
apply_mask_from i [] mask = ok []
apply_mask_from i (x ∷ xs) mask = do
  m ← index mask (i % 4)
  rest ← apply_mask_from (suc i) xs mask
  ok (bit_xor x m ∷ rest)

unfoldable pub apply_mask : Bytes → Bytes → Result Bytes
unfolding apply_mask_from
apply_mask raw mask = apply_mask_from 0 raw mask

-- `if self.data`
abbrev truthy : Option Bytes → Bool
truthy none = false
truthy (some []) = false
truthy (some (c ∷ cs)) = true

abbrev data_or_empty : Option Bytes → Bytes
data_or_empty none = []
data_or_empty (some d) = d

-- The second byte and the extended length. The format `!BHQ` wants three numbers and is given two.
write_length : Bool → Option ℕ → Result Bytes
write_length masked none = raise assertion_error
write_length masked (some n) =
    if ltb n 126
    then pack_u8 (length_byte masked n)
    else if ltb n (2 ^ 16)
    then (do a ← pack_u8 (length_byte masked 126); b ← pack_u16 n; ok (a ++ b))
    else if ltb n (2 ^ 64)
    then raise struct_error
    else raise value_error

-- `secrets.token_bytes(4)` gives `token`.
abbrev chosen_mask : Bytes → Option Bytes → Bytes
chosen_mask token none = token
chosen_mask token (some m) = m

write_payload : Bytes → Frame → Result Bytes
write_payload token f =
    let mask = chosen_mask token f.mask in
    let sealed = (do d ← apply_mask (data_or_empty f.data_bytes) mask; ok (mask ++ d)) in
    if f.masked && truthy f.data_bytes then sealed else ok (data_or_empty f.data_bytes)

-- `self.payload_length = len(self.data)`, where it is not set and there is data.
abbrev with_length : Option ℕ → Option Bytes → Option ℕ
with_length none d = if truthy d then some (length (data_or_empty d)) else none
with_length (some n) d = some n

-- The frame after the call, and the bytes.
unfoldable pub build : Bytes → Frame → Result (Frame × Bytes)
unfolding fin_byte length_byte write_length write_payload pack_u8 pack_u16 apply_mask
build token f = do
  let sized = record f { payload_length = with_length f.payload_length f.data_bytes }
  head ← pack_u8 (fin_byte f.fin f.rsv1 f.rsv2 f.rsv3 f.opcode)
  size ← write_length f.masked sized.payload_length
  payload ← write_payload token f
  ok (sized, head ++ size ++ payload)

-- `WebsocketFrame.text(data)`
unfoldable pub text : Bytes → Bytes → Result Bytes
unfolding build
text token d = do
  built ← build token (record new_frame { fin = true; opcode = 1; data_bytes = some d })
  ok built.1

-- `raw[cur]`, and what stands behind it.
abbrev next_byte : Bytes → Result (ℕ × Bytes)
next_byte [] = raise index_error
next_byte (b ∷ raw) = ok (b, raw)

-- The length that the second byte gives, or the 2 or 8 bytes behind it.
read_length : Option ℕ → Bytes → Result (ℕ × Bytes)
read_length none raw = raise assertion_error
read_length (some n) raw =
    if n == 126
    then (do k ← unpack 2 0 (take 2 raw); ok (k, drop 2 raw))
    else if n == 127
    then (do k ← unpack 8 0 (take 8 raw); ok (k, drop 8 raw))
    else ok (n, raw)

read_data : Bool → Frame → ℕ → Bytes → Result (Frame × Bytes)
read_data true f n raw =
    let mask = take 4 raw in
    let rest = drop 4 raw in
    do
      guard (not (n == 0)) assertion_error
      d ← apply_mask (take n rest) mask
      ok (record f { payload_length = some n; mask = some mask; data_bytes = some d }, drop n rest)
read_data false f n raw = do
  guard (not (n == 0)) assertion_error
  ok (record f { payload_length = some n; data_bytes = some (take n raw) }, drop n raw)

-- What follows the first two bytes.
read_rest : Frame → Bytes → Result (Frame × Bytes)
read_rest head raw = do
  size ← read_length head.payload_length raw
  read_data head.masked head size.0 size.1

-- The frame, and the bytes behind it.
unfoldable pub parse : Frame → Bytes → Result (Frame × Bytes)
unfolding parse_fin_and_rsv parse_mask_and_payload read_rest read_length read_data unpack apply_mask
parse f raw = do
  first ← next_byte raw
  second ← next_byte first.1
  read_rest (parse_mask_and_payload (parse_fin_and_rsv f first.0) second.0) second.1
