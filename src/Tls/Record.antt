-- ===== src/Tls/Record.antt =====
-- `TlsParser` of proxy/core/tls/tls.py.
pub mod Rebuild
use proxy_py.Base.{
  ℕ, ◌+◌, ◌*◌, ◌/◌, ◌%◌, Bool, true, false, Option, none, some, [], ◌∷◌, ◌++◌, ltb, ◌==◌,
  if◌then◌else◌, Bytes, length, take, drop, ◌>>=◌, ◌>>◌, guard, Result, value_error,
  assertion_error, struct_error, ok, raise,
}
use proxy_py.Tls.Handshake
use proxy_py.Tls.Handshake.{Handshake, new_handshake}

pub record Record : Type 0 where
  pub content_type : ℕ
  pub protocol_version : Option Bytes
  pub length_of : Option Bytes
  pub handshake : Option Handshake

abbrev pub new_record : Record
new_record = record {
  content_type = 255;
  protocol_version = none;
  length_of = none;
  handshake = none;
}

-- What the parser of the handshake returns is not looked at.
parse_payload : Record → Bytes → Record
parse_payload p payload =
    if p.content_type == 22
    then record p { handshake = some (Handshake.parse new_handshake payload).0 }
    else p

unfoldable pub parse : Record → Bytes → Record × Bool × Bytes
unfolding parse_payload
parse p (t ∷ v ∷ w ∷ high ∷ low ∷ rest) =
    let payload_length = high * 256 + low in
    if ltb (length rest) payload_length then (p, false, t ∷ v ∷ w ∷ high ∷ low ∷ rest) else (
      parse_payload
          (record p {
            content_type = t;
            protocol_version = some (v ∷ w ∷ []);
            length_of = some (high ∷ low ∷ []);
          })
          (take payload_length rest),
      true,
      drop payload_length rest,
    )
parse p raw = (p, false, raw)

-- `assert self.protocol_version`, `assert self.handshake`
abbrev version_of : Option Bytes → Result Bytes
version_of none = raise assertion_error
version_of (some []) = raise assertion_error
version_of (some (v ∷ vs)) = ok (v ∷ vs)

abbrev built_handshake : Option Handshake → Result Bytes
built_handshake none = raise assertion_error
built_handshake (some m) = Handshake.build m

-- A record that carries no handshake has an empty payload.
unfoldable pub build : Record → Result Bytes
build p = do
  guard (ltb p.content_type 256) value_error
  version ← version_of p.protocol_version
  payload ← if p.content_type == 22 then built_handshake p.handshake else ok []
  guard (ltb (length payload) 65536) struct_error
  ok (p.content_type ∷ (version ++ (length payload / 256 ∷ length payload % 256 ∷ payload)))
