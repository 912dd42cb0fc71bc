-- ===== src/Http/ProxyProtocol.antt =====
-- `ProxyProtocol` of proxy/http/parser/protocol.py: the line that HAProxy puts before a request.
use proxy_py.Base.{
  ℕ, Bool, ◌&&◌, ◌||◌, Option, none, some, List, [], ◌∷◌, leb, if◌then◌else◌, same, Bytes, length,
  ◌>>=◌, ◌>>◌, guard, Result, assertion_error, index_error, not_implemented, http_protocol, ok,
  raise,
}
use proxy_py.Base.Int.{ℤ}
use proxy_py.Bytes.{codes, starts_with, split_all}
use proxy_py.Number.{int_of}

pub record ProxyProtocol : Type 0 where
  pub version : Option ℕ
  pub family : Option Bytes
  pub source : Option (Bytes × ℤ)
  pub destination : Option (Bytes × ℤ)

abbrev pub new_protocol : ProxyProtocol
new_protocol = record { version = none; family = none; source = none; destination = none }

-- `PROXY_PROTOCOL_V2_SIGNATURE`
abbrev pub v2_signature : Bytes
v2_signature = 13 ∷ 10 ∷ 13 ∷ 10 ∷ 0 ∷ 13 ∷ 10 ∷ 81 ∷ 85 ∷ 73 ∷ 84 ∷ 10 ∷ []

abbrev is_family : Bytes → Bool
is_family f = same f (codes "TCP4") || (same f (codes "TCP6") || same f (codes "UNKNOWN"))

-- The words behind `PROXY` and the family: two addresses and two ports, or anything for UNKNOWN.
addresses : ProxyProtocol → Bytes → List Bytes → Result ProxyProtocol
addresses p family (src ∷ dst ∷ sport ∷ dport ∷ []) = do
  s ← int_of 10 sport
  d ← int_of 10 dport
  ok (record {
    version = some 1;
    family = some family;
    source = some (src, s);
    destination = some (dst, d);
  })
addresses p family _ = do
  guard (same family (codes "UNKNOWN")) assertion_error
  ok (record p { version = some 1; family = some family })

parse_words : ProxyProtocol → List Bytes → Result ProxyProtocol
parse_words p [] = raise index_error
parse_words p (word ∷ []) =
    if same word (codes "PROXY") then raise index_error else raise assertion_error
parse_words p (word ∷ family ∷ rest) = do
  guard (same word (codes "PROXY") && is_family family) assertion_error
  addresses p family rest

unfoldable pub parse : ProxyProtocol → Bytes → Result ProxyProtocol
unfolding parse_words addresses
parse p raw =
    let words = (do
      guard (leb (length raw) 57) assertion_error
      parse_words p (split_all (b' ' ∷ []) raw)) in
    if starts_with (codes "PROXY") raw
    then words
    else if starts_with v2_signature raw
    then raise not_implemented
    else raise http_protocol
