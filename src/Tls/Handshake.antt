-- ===== src/Tls/Handshake.antt =====
-- `TlsHandshake` of proxy/core/tls/handshake.py, and the messages of certificate.py, key_exchange.py
-- and finished.py beside it.
pub mod Rebuild
use proxy_py.Base.{
  ℕ, ◌+◌, ◌*◌, ◌/◌, ◌%◌, Bool, true, false, Option, none, some, [], ◌∷◌, ◌++◌, ltb, ◌==◌,
  if◌then◌else◌, Bytes, length, take, drop, ◌>>=◌, ◌>>◌, guard, Result, value_error,
  assertion_error, struct_error, ok, raise,
}
use proxy_py.Tls.Hello
use proxy_py.Tls.Hello.{Hello, new_hello, client, server}

-- The messages that only keep their bytes, and those whose `parse` keeps nothing: `self.data`.
pub record Opaque : Type 0 where
  pub content : Option Bytes

unfoldable pub keep : Bytes → Option Opaque
keep raw = some (record { content = some raw })

unfoldable pub ignore : Bytes → Option Opaque
ignore raw = some (record { content = none })

-- `self.length` is a number while data are missing, and the three bytes of it afterwards.
pub data Length : Type 0 where
  number : ℕ → Length
  octets : Bytes → Length

pub record Handshake : Type 0 where
  pub msg_type : ℕ
  pub length_of : Option Length
  pub hello_request : Option Opaque
  pub client_hello : Option Hello
  pub server_hello : Option Hello
  pub certificate : Option Opaque
  pub server_key_exchange : Option Opaque
  pub certificate_request : Option Opaque
  pub server_hello_done : Option Opaque
  pub certificate_verify : Option Opaque
  pub client_key_exchange : Option Opaque
  pub finished : Option Opaque
  pub all_data : Option Bytes

abbrev pub new_handshake : Handshake
new_handshake = record {
  msg_type = 255;
  length_of = none;
  hello_request = none;
  client_hello = none;
  server_hello = none;
  certificate = none;
  server_key_exchange = none;
  certificate_request = none;
  server_hello_done = none;
  certificate_verify = none;
  client_key_exchange = none;
  finished = none;
  all_data = none;
}

-- By the type; what the parsers of the messages return is not looked at.
unfoldable pub parse_message : ℕ → Bytes → Handshake → Handshake
unfolding keep ignore
parse_message t payload m =
    if t == 0
    then record m { hello_request = keep payload }
    else if t == 1
    then record m { client_hello = some (Hello.parse client new_hello payload).0 }
    else if t == 2
    then record m { server_hello = some (Hello.parse server new_hello payload).0 }
    else if t == 11
    then record m { certificate = keep payload }
    else if t == 12
    then record m { server_key_exchange = keep payload }
    else if t == 13
    then record m { certificate_request = ignore payload }
    else if t == 14
    then record m { server_hello_done = ignore payload }
    else if t == 15
    then record m { certificate_verify = ignore payload }
    else if t == 16
    then record m { client_key_exchange = ignore payload }
    else if t == 20
    then record m { finished = ignore payload }
    else m

abbrev pub u24 : ℕ → ℕ → ℕ → ℕ
u24 a b c = (a * 256 + b) * 256 + c

unfoldable pub parse : Handshake → Bytes → Handshake × Bool × Bytes
parse m (t ∷ a ∷ b ∷ c ∷ rest) =
    let payload_length = u24 a b c in
    if ltb (length rest) payload_length
    then (record m { length_of = some (number payload_length) }, false, t ∷ a ∷ b ∷ c ∷ rest)
    else (
      parse_message t (take payload_length rest) (record m {
        msg_type = t;
        length_of = some (octets (a ∷ b ∷ c ∷ []));
        all_data = some (t ∷ a ∷ b ∷ c ∷ take payload_length rest);
      }),
      true,
      drop payload_length rest,
    )
parse m raw = (m, false, raw)

abbrev needed {ℓ} : {A : Type ℓ} → Option A → Result A
needed none = raise assertion_error
needed (some a) = ok a

-- `assert self.data`
abbrev pub content_of : Option Opaque → Result Bytes
content_of none = raise assertion_error
content_of (some o) = elim o.content [
  | none ↦ raise assertion_error
  | some b ↦ elim b [ [] ↦ raise assertion_error | c ∷ cs ↦ ok (c ∷ cs) ]
]

-- The other types have an empty payload.
unfoldable pub build_payload : Handshake → Result Bytes
build_payload m =
    let t = m.msg_type in
    if t == 1
    then needed m.client_hello >>= (λ h. ok (Hello.build h))
    else if t == 2
    then needed m.server_hello >>= (λ h. ok (Hello.build h))
    else if t == 11
    then content_of m.certificate
    else if t == 12
    then content_of m.server_key_exchange
    else ok []

-- `struct.pack('!I', n)[1:]`: the first of the four bytes is dropped, whatever it is.
unfoldable pub pack24 : ℕ → Result Bytes
pack24 n = do
  guard (ltb n 4294967296) struct_error
  ok (n / 65536 % 256 ∷ n / 256 % 256 ∷ n % 256 ∷ [])

unfoldable pub build : Handshake → Result Bytes
unfolding build_payload pack24
build m = do
  guard (ltb m.msg_type 256) value_error
  payload ← build_payload m
  size ← pack24 (length payload)
  ok (m.msg_type ∷ (size ++ payload))
