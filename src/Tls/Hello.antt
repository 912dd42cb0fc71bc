-- ===== src/Tls/Hello.antt =====
-- `TlsClientHello` and `TlsServerHello` of proxy/core/tls/hello.py.
pub mod Lossless
use proxy_py.Base.{
  ℕ, ◌+◌, ◌*◌, Bool, true, false, Option, none, some, [], ◌∷◌, ◌++◌, ◌==◌, if◌then◌else◌, Bytes,
  length, get_elem?, drop, slice,
}

-- The two classes have the same attributes.
pub record Hello : Type 0 where
  pub protocol_version : Option Bytes
  pub random : Option Bytes
  pub session_id : Option Bytes
  pub cipher_suite : Option Bytes
  pub compression_method : Option Bytes
  pub extension : Option Bytes

abbrev pub new_hello : Hello
new_hello = record {
  protocol_version = none;
  random = none;
  session_id = none;
  cipher_suite = none;
  compression_method = none;
  extension = none;
}

pub data Side : Type 0 where
  client server : Side

abbrev u16 : Bytes → Option ℕ
u16 (high ∷ low ∷ []) = some (high * 256 + low)
u16 _ = none

-- `struct.unpack('!H', raw[idx: idx + 2])`, which fails if there are not two bytes.
unfoldable pub u16_at : Bytes → ℕ → Option ℕ
u16_at raw idx = u16 (slice raw idx (idx + 2))

-- Where the cipher suite ends: a client sends a list of them, a server the one that it chose.
unfoldable pub cipher_end : Side → Bytes → ℕ → Option ℕ
unfolding u16_at
cipher_end client raw idx = elim (u16_at raw idx) [ none ↦ none | some n ↦ some (idx + 2 + n) ]
cipher_end server raw idx = some (idx + 2)

-- What is left after an exception: the attributes that were set, and all of the input.
abbrev pub Parsed : Type 0
Parsed = Hello × Bool × Bytes

unfoldable pub parse_extension : Hello → Bytes → ℕ → Parsed
unfolding u16_at
parse_extension h raw idx =
    if idx == length raw
    then (record h { extension = some [] }, true, drop idx raw)
    else elim (u16_at raw idx) [
      | none ↦ (h, false, raw)
      | some n ↦ (
        record h { extension = some (slice raw idx (idx + 2 + n)) },
        true,
        drop (idx + 2 + n) raw,
      )
    ]

unfoldable pub parse_compression : Hello → Bytes → ℕ → Parsed
parse_compression h raw idx = elim (get_elem? raw idx) [
  | none ↦ (h, false, raw)
  | some n ↦
      parse_extension (record h { compression_method = some (slice raw idx (idx + 1 + n)) }) raw
        (idx + 1 + n)
]

unfoldable pub parse_cipher : Side → Hello → Bytes → ℕ → Parsed
parse_cipher side h raw idx = elim (cipher_end side raw idx) [
  | none ↦ (h, false, raw)
  | some end ↦ parse_compression (record h { cipher_suite = some (slice raw idx end) }) raw end
]

abbrev with_head : Hello → Bytes → Hello
with_head h raw = record h {
  protocol_version = some (slice raw 0 2);
  random = some (slice raw 2 34);
}

unfoldable pub parse : Side → Hello → Bytes → Parsed
parse side h raw = elim (get_elem? raw 34) [
  | none ↦ (with_head h raw, false, raw)
  | some n ↦
      parse_cipher side (record (with_head h raw) { session_id = some (slice raw 34 (35 + n)) }) raw
        (35 + n)
]

abbrev pub part : Option Bytes → Bytes
part none = []
part (some b) = b

unfoldable pub build : Hello → Bytes
build h =
    part h.protocol_version
    ++ (part h.random
        ++ (part h.session_id
            ++ (part h.cipher_suite ++ (part h.compression_method ++ part h.extension))))
