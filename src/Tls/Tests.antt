-- ===== src/Tls/Tests.antt =====
-- Messages on concrete input.
use proxy_py.Base.{refl, [], ◌∷◌, Bytes}
use proxy_py.Tls.Hello
use proxy_py.Tls.Hello.{
  Hello, client, new_hello, u16_at, cipher_end, parse_cipher, parse_compression, parse_extension,
}
use proxy_py.Tls.Hello.Lossless.{Builds, parse-Builds}
use proxy_py.Tls.Handshake.Rebuild.{Accepts}

-- A hello of a client with no session, one cipher suite, no compression and no extension.
abbrev hello_bytes : Bytes
hello_bytes =
    3 ∷ 3 ∷ 0 ∷ 1 ∷ 2 ∷ 3 ∷ 4 ∷ 5 ∷ 6 ∷ 7 ∷ 8 ∷ 9 ∷ 10 ∷ 11 ∷ 12 ∷ 13 ∷ 14 ∷ 15 ∷ 16 ∷ 17 ∷ 18 ∷ 19
    ∷ 20 ∷ 21 ∷ 22 ∷ 23 ∷ 24 ∷ 25 ∷ 26 ∷ 27 ∷ 28 ∷ 29 ∷ 30 ∷ 31 ∷ 0 ∷ 0 ∷ 2 ∷ 19 ∷ 1 ∷ 1 ∷ 0 ∷ []

hello_accepted : Accepts client hello_bytes
unfolding Hello.parse cipher_end u16_at parse_cipher parse_compression parse_extension
hello_accepted = (_, refl)

parse-Builds_example : Builds hello_bytes (Hello.parse client new_hello hello_bytes)
parse-Builds_example = parse-Builds client new_hello hello_bytes
