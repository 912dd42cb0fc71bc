-- ===== src/Socks/RoundTrip.antt =====
-- A SOCKS4 packet is read back as it was written.
use proxy_py.Base.{
  ℕ, ◌+◌, ◌*◌, ◌/◌, ◌%◌, ◌<◌, ◌≡◌, refl, some, [], ◌∷◌, ◌++◌, arith, lt→ltb, Bytes, ok,
}
use proxy_py.Socks.{Packet, new_packet, parse, pack, split_end}

split_end-append : (x : ℕ) (xs : Bytes) (last : ℕ) → split_end x (xs ++ last ∷ []) ≡ (x ∷ xs, last)
unfolding split_end
split_end-append x [] last = refl
split_end-append x (y ∷ ys) last = rw (split_end-append y ys last) refl

-- A request with code `code` to a port of an address of four bytes.
abbrev pub request : ℕ → ℕ → ℕ → ℕ → ℕ → ℕ → Bytes → Packet
request code port a b c d user = record {
  vn = some 4;
  cd = some code;
  dstport = some port;
  dstip = some (a ∷ b ∷ c ∷ d ∷ []);
  userid = some user;
}

abbrev pub wire : ℕ → ℕ → ℕ → ℕ → ℕ → ℕ → Bytes → Bytes
wire code port a b c d user = 4 ∷ code ∷ port / 256 ∷ port % 256 ∷ a ∷ b ∷ c ∷ d ∷ (user ++ 0 ∷ [])

port_bytes : (port : ℕ) → port / 256 * 256 + port % 256 ≡ port
port_bytes port = omega arith

parse-wire :
    (code port a b c d : ℕ) (user : Bytes)
    → parse new_packet (wire code port a b c d user) ≡ ok (request code port a b c d user)
unfolding parse split_end
parse-wire code port a b c d [] = rw (port_bytes port) refl
parse-wire code port a b c d (x ∷ xs) = rw (port_bytes port) (rw (split_end-append x xs 0) refl)

-- A packet with a code below 128 and a port below 65536 is packed, and what is packed parses as the
-- packet, whatever bytes the user id has.
pub parse-pack :
    (code port a b c d : ℕ) (user : Bytes)
    → port < 65536
    → code < 128
    → (raw : Bytes) × (pack (request code port a b c d user) ≡ ok raw)
      × (parse new_packet raw ≡ ok (request code port a b c d user))
unfolding pack
parse-pack code port a b c d user hp hc = (
  wire code port a b c d user,
  rw (lt→ltb code 128 hc) (rw (lt→ltb port 65536 hp) refl),
  parse-wire code port a b c d user,
)
