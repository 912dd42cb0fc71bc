-- ===== src/Http/Url.antt =====
-- `Url` of proxy/http/url.py.
pub mod RoundTrip
use proxy_py.Base.{
  ℕ, zero, suc, Bool, true, false, not, ◌&&◌, ◌||◌, Option, none, some, List, [], ◌∷◌, ◌++◌, ◌==◌,
  if◌then◌else◌, same, Bytes, ◌>>=◌, Result, value_error, index_error, http_protocol, ok, raise,
}
use proxy_py.Base.Int.{ℤ, pos, negsuc}
use proxy_py.Bytes.{codes, cut, split_max, split_all}
use proxy_py.Bytes.Utf8.{decode}
use proxy_py.Number.{int_of, digits}

pub record Url : Type 0 where
  pub scheme : Option Bytes
  pub username : Option Bytes
  pub password : Option Bytes
  pub hostname : Option Bytes
  pub port : Option ℤ
  pub remainder : Option Bytes

abbrev pub no_url : Url
no_url = record {
  scheme = none;
  username = none;
  password = none;
  hostname = none;
  port = none;
  remainder = none;
}

abbrev is_some {ℓ} : {A : Type ℓ} → Option A → Bool
is_some none = false
is_some (some a) = true

unfoldable pub has_credentials : Url → Bool
has_credentials u = is_some u.username && is_some u.password

-- The credentials, host and port of an authority.
pub record Authority : Type 0 where
  pub user : Option Bytes
  pub pass : Option Bytes
  pub host : Bytes
  pub host_port : Option ℤ

abbrev colon : Bytes
colon = b':' ∷ []

-- `username, password = raw.split(COLON)` wants two parts.
credentials : List Bytes → Result (Bytes × Bytes)
credentials (u ∷ p ∷ []) = ok (u, p)
credentials _ = raise value_error

-- `COLON in raw`, `raw[0]` and `raw[-1]`
has_colon : Bytes → Bool
has_colon [] = false
has_colon (c ∷ cs) = c == b':' || has_colon cs

abbrev first_is : ℕ → Bytes → Bool
first_is b [] = false
first_is b (c ∷ cs) = c == b

last_is : ℕ → Bytes → Bool
last_is b [] = false
last_is b (c ∷ []) = c == b
last_is b (c ∷ d ∷ cs) = last_is b (d ∷ cs)

-- The patch of an IPv6 address that stands in no brackets.
patch_ipv6 : Bytes → Result Bytes
patch_ipv6 host = do
  rhost ← decode host
  ok (
      if has_colon rhost && (not (first_is b'[' rhost) && not (last_is b']' rhost))
      then b'[' ∷ (host ++ b']' ∷ [])
      else host)

-- `COLON.join(parts[:-1])` and `parts[-1]`, for parts that are there.
split_last : Bytes → List Bytes → List Bytes × Bytes
split_last x [] = ([], x)
split_last x (y ∷ ys) = let (front, last) = split_last y ys in (x ∷ front, last)

join_colon : List Bytes → Bytes
join_colon [] = []
join_colon (x ∷ []) = x
join_colon (x ∷ y ∷ ys) = x ++ (colon ++ join_colon (y ∷ ys))

-- `int(last_token[-1])`, and the host before it; the whole data is the host if that is no number.
ipv6_of : Bytes → Bytes → Bytes → List Bytes → Bytes × Option ℤ
ipv6_of raw a b [] = (raw, none)
ipv6_of raw a b (x ∷ xs) =
    let (front, last) = split_last x xs in
    elim (int_of 10 last) [
      | raise e ↦ (raw, none)
      | ok port ↦ ((a ++ (colon ++ b)) ++ (colon ++ join_colon front), some port)
    ]

with_host : Option Bytes → Option Bytes → Bytes → Option ℤ → Authority
with_host u p host port = record { user = u; pass = p; host = host; host_port = port }

-- By the number of parts between colons, of which there are at most three.
parse_host : Bytes → Option Bytes → Option Bytes → List Bytes → Result Authority
parse_host raw u p [] = raise index_error
parse_host raw u p (a ∷ []) = ok (with_host u p a none)
parse_host raw u p (a ∷ b ∷ []) = do port ← int_of 10 b; ok (with_host u p a (some port))
parse_host raw u p (a ∷ b ∷ c ∷ _) =
    let found = ipv6_of raw a b (split_all colon c) in
    do host ← patch_ipv6 found.0; ok (with_host u p host found.1)

parse_at : Bytes → Option (Bytes × Bytes) → Result Authority
parse_at raw none = parse_host raw none none (split_max colon 2 raw)
parse_at raw (some (left, right)) = do
  c ← credentials (split_all colon left)
  parse_host raw (some c.0) (some c.1) (split_max colon 2 right)

-- `Url._parse`
unfoldable pub parse_authority : Bytes → Result Authority
unfolding parse_at parse_host credentials patch_ipv6 ipv6_of split_last join_colon has_colon last_is
    with_host
parse_authority raw = parse_at raw (cut (b'@' ∷ []) raw)

abbrev pub default_schemes : List Bytes
default_schemes = codes "http" ∷ codes "https" ∷ []

-- `allowed_url_schemes or DEFAULT_ALLOWED_URL_SCHEMES`
abbrev pub allowed_or_default : Option (List Bytes) → List Bytes
allowed_or_default none = default_schemes
allowed_or_default (some []) = default_schemes
allowed_or_default (some (s ∷ ss)) = s ∷ ss

unfoldable pub is_in : Bytes → List Bytes → Bool
is_in s [] = false
is_in s (x ∷ xs) = same x s || is_in s xs

abbrev after_slash : Bytes → Option (Bytes × Bytes) → Bytes × Option Bytes
after_slash rest none = (rest, none)
after_slash rest (some (a, b)) = (a, some (b'/' ∷ b))

-- The authority and the path behind a scheme, or behind `//`.
with_authority : Option Bytes → Bytes → Result Url
with_authority scheme rest =
    let (authority, path) = after_slash rest (cut (b'/' ∷ []) rest) in
    do
      a ← parse_authority authority
      ok (record {
        scheme = scheme;
        username = a.user;
        password = a.pass;
        hostname = some a.host;
        port = a.host_port;
        remainder = path;
      })

-- Neither a scheme nor a path.
authority_only : Bytes → Result Url
authority_only raw = do
  a ← parse_authority raw
  ok (record no_url {
    username = a.user;
    password = a.pass;
    hostname = some a.host;
    port = a.host_port;
  })

-- No slash at the start.
from_scheme : List Bytes → Bytes → Option (Bytes × Bytes) → Result Url
from_scheme allowed raw none = authority_only raw
from_scheme allowed raw (some (scheme, rest)) =
    if is_in scheme allowed then with_authority (some scheme) rest else raise http_protocol

-- At the head: one slash, two slashes, or another byte.
from_head : List Bytes → Bytes → Result Url
from_head allowed [] = raise index_error
from_head allowed (c ∷ []) =
    if c == b'/'
    then ok (record no_url { remainder = some (c ∷ []) })
    else from_scheme allowed (c ∷ []) (cut (codes "://") (c ∷ []))
from_head allowed (c ∷ d ∷ cs) =
    if c == b'/'
    then (if d == b'/'
        then with_authority (some (codes "http")) cs
        else ok (record no_url { remainder = some (c ∷ d ∷ cs) }))
    else from_scheme allowed (c ∷ d ∷ cs) (cut (codes "://") (c ∷ d ∷ cs))

-- `Url.from_bytes(raw, allowed_url_schemes)`
unfoldable pub from_bytes : Bytes → Option (List Bytes) → Result Url
unfolding from_head from_scheme with_authority authority_only is_in
from_bytes raw allowed = from_head (allowed_or_default allowed) raw

-- `str(n)`
abbrev pub str_of : ℤ → Bytes
str_of (pos n) = digits 10 n
str_of (negsuc n) = b'-' ∷ digits 10 (suc n)

-- What one attribute adds to the text, if it is not empty.
abbrev text_or_nothing : Option Bytes → Bytes → Result Bytes
text_or_nothing none behind = ok []
text_or_nothing (some []) behind = ok []
text_or_nothing (some (c ∷ cs)) behind = do t ← decode (c ∷ cs); ok (t ++ behind)

abbrev port_text : Option ℤ → Bytes
port_text none = []
port_text (some (pos zero)) = []
port_text (some z) = b':' ∷ str_of z

-- `str(url)`, as its UTF-8 bytes.
unfoldable pub to_text : Url → Result Bytes
to_text u = do
  scheme ← text_or_nothing u.scheme (codes "://")
  host ← text_or_nothing u.hostname []
  path ← text_or_nothing u.remainder []
  ok (scheme ++ (host ++ (port_text u.port ++ path)))
