-- ===== src/Tls/Pretty.antt =====
-- `pretty_hexlify` of proxy/core/tls/pretty.py, and the `format` of the hello messages in hello.py.
pub mod Unhexlify
use proxy_py.Base.{
  ℕ, ◌+◌, ◌-◌, ◌/◌, ◌%◌, Option, none, some, List, [], ◌∷◌, ◌++◌, ltb, if◌then◌else◌, Bytes,
}
use proxy_py.Bytes.{codes}
use proxy_py.Http.Chunk.{join}
use proxy_py.Tls.Hello.{Hello}

unfoldable pub hex_digit : ℕ → ℕ
hex_digit n = if ltb n 10 then b'0' + n else b'a' + n - 10

-- `binascii.hexlify`
unfoldable pub hexlify : Bytes → Bytes
unfolding hex_digit
hexlify [] = []
hexlify (b ∷ bs) = hex_digit (b / 16) ∷ hex_digit (b % 16) ∷ hexlify bs

-- `[hexlified[i: i+2] for i in range(0, len(hexlified), 2)]`
unfoldable pub pairs : Bytes → List Bytes
pairs (a ∷ b ∷ rest) = (a ∷ b ∷ []) ∷ pairs rest
pairs (a ∷ []) = (a ∷ []) ∷ []
pairs [] = []

unfoldable pub pretty_hexlify : Bytes → Bytes
pretty_hexlify raw = join (b' ' ∷ []) (pairs (hexlify raw))

abbrev pub pretty_or_empty : Option Bytes → Bytes
pretty_or_empty none = []
pretty_or_empty (some raw) = pretty_hexlify raw

-- `format`; `os.linesep` is the parameter `linesep`.
unfoldable pub format : Bytes → Hello → Bytes
format linesep h = join linesep (
    (codes "Protocol Version: " ++ pretty_or_empty h.protocol_version)
    ∷ (codes "Random: " ++ pretty_or_empty h.random)
    ∷ (codes "Session ID: " ++ pretty_or_empty h.session_id)
    ∷ (codes "Cipher Suite: " ++ pretty_or_empty h.cipher_suite)
    ∷ (codes "Compression Method: " ++ pretty_or_empty h.compression_method)
    ∷ (codes "Extension: " ++ pretty_or_empty h.extension)
    ∷ [])
