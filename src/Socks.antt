-- ===== src/Socks.antt =====
-- `Socks4Packet` of proxy/socks/packet.py.
pub mod RoundTrip
mod Tests
use proxy_py.Base.{
  ℕ, zero, suc, ◌+◌, ◌*◌, ◌/◌, ◌%◌, Bool, true, ◌&&◌, Option, none, some, [], ◌∷◌, ◌++◌, ltb, ◌==◌,
  Bytes, ◌>>=◌, ◌>>◌, guard, Result, assertion_error, index_error, struct_error, ok, raise,
}

pub record Packet : Type 0 where
  pub vn : Option ℕ
  pub cd : Option ℕ
  pub dstport : Option ℕ
  pub dstip : Option Bytes
  pub userid : Option Bytes

abbrev pub new_packet : Packet
new_packet = record { vn = none; cd = none; dstport = none; dstip = none; userid = none }

-- The user id, and the byte behind it.
unfoldable pub split_end : ℕ → Bytes → Bytes × ℕ
split_end x [] = ([], x)
split_end x (y ∷ ys) = let (front, last) = split_end y ys in (x ∷ front, last)

-- From the user id on; it has a length below zero when there is no byte for its end.
parse_userid : Packet → Bytes → Result Packet
parse_userid p [] = raise struct_error
parse_userid p (x ∷ xs) =
    let (user, last) = split_end x xs in
    do guard (last == 0) assertion_error; ok (record p { userid = some user })

-- From the code on.
parse_code : ℕ → Bytes → Result Packet
parse_code v [] = raise index_error
parse_code v (code ∷ high ∷ low ∷ a ∷ b ∷ c ∷ d ∷ rest) =
    parse_userid
      (record {
        vn = some v;
        cd = some code;
        dstport = some (high * 256 + low);
        dstip = some (a ∷ b ∷ c ∷ d ∷ []);
        userid = none;
      })
      rest
parse_code v _ = raise struct_error

abbrev is_version : Option ℕ → ℕ → Bool
is_version none v = v == 4
is_version (some n) v = true

abbrev version_or_4 : Option ℕ → ℕ
version_or_4 none = 4
version_or_4 (some n) = n

-- A packet that has a version keeps it, and the byte is not tested.
unfoldable pub parse : Packet → Bytes → Result Packet
unfolding parse_code parse_userid split_end
parse p [] = raise index_error
parse p (v ∷ rest) = do
  guard (is_version p.vn v) assertion_error
  parse_code (version_or_4 p.vn) rest

-- `4s` pads with zeros, and cuts.
unfoldable pub pad : ℕ → Bytes → Bytes
pad zero cs = []
pad (suc n) [] = 0 ∷ pad n []
pad (suc n) (c ∷ cs) = c ∷ pad n cs

abbrev needed {ℓ} : {A : Type ℓ} → Option A → Result A
needed none = raise struct_error
needed (some a) = ok a

abbrev user_or_empty : Option Bytes → Bytes
user_or_empty none = []
user_or_empty (some u) = u

-- A number that does not fit its format is an error of `struct`.
unfoldable pub pack : Packet → Result Bytes
unfolding pad
pack p = do
  v ← needed p.vn
  code ← needed p.cd
  port ← needed p.dstport
  ip ← needed p.dstip
  guard (ltb v 128 && (ltb code 128 && ltb port 65536)) struct_error
  ok (v ∷ code ∷ port / 256 ∷ port % 256 ∷ (pad 4 ip ++ (user_or_empty p.userid ++ 0 ∷ [])))
