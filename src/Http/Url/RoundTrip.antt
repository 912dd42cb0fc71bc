-- ===== src/Http/Url/RoundTrip.antt =====
-- URLs are read as they are written.
use mathlib.Core.Option
use proxy_py.Base.{
  ℕ, zero, suc, ◌≡◌, refl, ap, ◌≢◌, true, false, Option, none, some, List, [], ◌∷◌, ◌++◌,
  append_assoc, append-nil, arith, ◌==◌, Bytes, All, All-append, ok,
}
use proxy_py.Base.Int.{ℤ, pos}
use proxy_py.Bytes.{codes}
use proxy_py.Bytes.Cut.{split_max-none, split_max-some, cut_absent, cut_found}
use proxy_py.Bytes.Utf8.{is_utf8}
use proxy_py.Number.{digits}
use proxy_py.Number.RoundTrip.{digits-IsDigit, IsDigit, int_of-digits}
use proxy_py.Http.Url.{
  parse_authority, with_host, no_url, parse_host, parse_at, allowed_or_default, is_in,
  with_authority, from_scheme, from_head, from_bytes, Url, text_or_nothing, port_text, to_text,
}

-- Neither `:` nor `/` nor `@`.
abbrev pub IsName : Bytes → Type 0
IsName raw = All (λ c. (c ≢ b':') × (c ≢ b'/') × (c ≢ b'@')) raw

All-IsName :
    {P : ℕ → Type 0} (raw : Bytes)
    → ((c : ℕ) → (c ≢ b':') × (c ≢ b'/') × (c ≢ b'@') → P c)
    → IsName raw
    → All P raw
All-IsName [] f h = tt
All-IsName (c ∷ raw) f h = (f c h.0, All-IsName raw f h.1)

IsDigit-IsName : (raw : Bytes) → All IsDigit raw → IsName raw
IsDigit-IsName [] h = tt
IsDigit-IsName (c ∷ raw) h = ((ground arith, ground arith, ground arith), IsDigit-IsName raw h.1)

-- `:n`, or nothing.
abbrev pub port_suffix : Option ℕ → Bytes
port_suffix none = []
port_suffix (some n) = b':' ∷ digits 10 n

abbrev pub path_suffix : Option Bytes → Bytes
path_suffix none = []
path_suffix (some p) = b'/' ∷ p

abbrev pub port_of : Option ℕ → Option ℤ
port_of none = none
port_of (some n) = some (pos n)

eqb_false : (a b : ℕ) → a ≢ b → (a == b) ≡ false
eqb_false a b h = ground arith

digits-IsName : (n : ℕ) → IsName (digits 10 n)
digits-IsName n = IsDigit-IsName (digits 10 n) (digits-IsDigit 10 (omega arith) (omega arith) n)

parse_authority-port :
    (host : Bytes) (port : Option ℕ)
    → IsName host
    → parse_authority (host ++ port_suffix port) ≡ ok (with_host none none host (port_of port))
unfolding parse_authority parse_at parse_host
parse_authority-port host none h = rw append-nil (
    rw (cut_absent host b'@' [] (All-IsName host (λ c n. n.2) h)) (
      rw (
        split_max-none (b':' ∷ []) host 2
          (cut_absent host b':' [] (All-IsName host (λ c n. n.0) h)))))
parse_authority-port host (some n) h =
    let no_at : All (λ c. c ≢ b'@') (host ++ b':' ∷ digits 10 n) =
      All-append (λ c. c ≢ b'@') host (b':' ∷ digits 10 n) (All-IsName host (λ c m. m.2) h)
        (ground arith, All-IsName (digits 10 n) (λ c m. m.2) (digits-IsName n)) in
    let no_colon =
      cut_absent (digits 10 n) b':' [] (All-IsName (digits 10 n) (λ c m. m.0) (digits-IsName n)) in
    rw (cut_absent (host ++ b':' ∷ digits 10 n) b'@' [] no_at) (
      rw
        (split_max-some (b':' ∷ []) (host ++ b':' ∷ digits 10 n) host (digits 10 n) 1
          (cut_found host b':' [] (digits 10 n) (All-IsName host (λ c m. m.0) h)))
        (rw (split_max-none (b':' ∷ []) (digits 10 n) 1 no_colon)
          (rw (int_of-digits 10 n (omega arith) (omega arith)))))

-- The url with these parts, and no credentials.
abbrev pub url_of : Bytes → Bytes → Option ℕ → Option Bytes → Url
url_of s host port path = record no_url {
  scheme = some s;
  hostname = some host;
  port = port_of port;
  remainder = Option.map (λ p. b'/' ∷ p) path;
}

no_slash :
    (host : Bytes) (port : Option ℕ) → IsName host → All (λ c. c ≢ b'/') (host ++ port_suffix port)
no_slash host none h = All-append (λ c. c ≢ b'/') host [] (All-IsName host (λ c m. m.1) h) tt
no_slash host (some n) h =
    All-append (λ c. c ≢ b'/') host (b':' ∷ digits 10 n) (All-IsName host (λ c m. m.1) h)
      (ground arith, All-IsName (digits 10 n) (λ c m. m.1) (digits-IsName n))

with_authority-url_of :
    (s host : Bytes) (port : Option ℕ) (path : Option Bytes)
    → IsName host
    → with_authority (some s) ((host ++ port_suffix port) ++ path_suffix path)
      ≡ ok (url_of s host port path)
unfolding with_authority with_host
with_authority-url_of s host port none h = rw append-nil (
    rw (cut_absent (host ++ port_suffix port) b'/' [] (no_slash host port h))
      (rw (parse_authority-port host port h)))
with_authority-url_of s host port (some p) h =
    rw (cut_found (host ++ port_suffix port) b'/' [] p (no_slash host port h))
      (rw (parse_authority-port host port h))

-- An absolute url: the scheme is allowed, and neither it nor the host has one of the bytes that
-- separate the parts.
from_bytes-url_of :
    (allowed : Option (List Bytes)) (s host : Bytes) (port : Option ℕ) (path : Option Bytes)
    → is_in s (allowed_or_default allowed) ≡ true
    → s ≢ []
    → IsName s
    → IsName host
    → from_bytes (s ++ (codes "://" ++ ((host ++ port_suffix port) ++ path_suffix path))) allowed
      ≡ ok (url_of s host port path)
unfolding from_bytes from_head from_scheme
from_bytes-url_of allowed [] host port path a ne hs hh = absurd (ne refl)
from_bytes-url_of allowed (c ∷ []) host port path a ne hs hh = rw (eqb_false c b'/' hs.0.1) (
    rw (cut_found (c ∷ []) b':' (b'/' ∷ b'/' ∷ []) _ (All-IsName (c ∷ []) (λ x m. m.0) hs))
      (rw a (with_authority-url_of (c ∷ []) host port path hh)))
from_bytes-url_of allowed (c ∷ d ∷ s) host port path a ne hs hh = rw (eqb_false c b'/' hs.0.1) (
    rw (cut_found (c ∷ d ∷ s) b':' (b'/' ∷ b'/' ∷ []) _ (All-IsName (c ∷ d ∷ s) (λ x m. m.0) hs))
      (rw a (with_authority-url_of (c ∷ d ∷ s) host port path hh)))

text_or_nothing-some :
    (a behind : Bytes)
    → a ≢ []
    → is_utf8 a ≡ true
    → text_or_nothing (some a) behind ≡ ok (a ++ behind)
text_or_nothing-some [] behind ne h = absurd (ne refl)
text_or_nothing-some (c ∷ a) behind ne h = rw h

text_or_nothing-path :
    (path : Option Bytes)
    → is_utf8 (path_suffix path) ≡ true
    → text_or_nothing (Option.map (λ p. b'/' ∷ p) path) [] ≡ ok (path_suffix path)
text_or_nothing-path none h = refl
text_or_nothing-path (some p) h = rw h (rw append-nil)

port_text-port_of : (port : Option ℕ) → port ≢ some 0 → port_text (port_of port) ≡ port_suffix port
port_text-port_of none h = refl
port_text-port_of (some zero) h = absurd (h refl)
port_text-port_of (some (suc n)) h = refl

-- `scheme://host:port/path`
abbrev pub printed : Bytes → Bytes → Option ℕ → Option Bytes → Bytes
printed s host port path = s ++ (codes "://" ++ ((host ++ port_suffix port) ++ path_suffix path))

-- A url of an allowed scheme, a host, maybe a port other than 0 and maybe a path. The scheme and the
-- host are not empty, hold no `:`, `/` or `@`, and all parts are UTF-8.
pub record IsPlain (allowed : Option (List Bytes)) (s host : Bytes) (port : Option ℕ)
    (path : Option Bytes) : Type 0 where
  pub scheme_allowed : is_in s (allowed_or_default allowed) ≡ true
  pub scheme-ne-nil : s ≢ []
  pub scheme-IsName : IsName s
  pub scheme-is_utf8 : is_utf8 s ≡ true
  pub host-ne-nil : host ≢ []
  pub host-IsName : IsName host
  pub host-is_utf8 : is_utf8 host ≡ true
  pub port-ne-zero : port ≢ some 0
  pub path-is_utf8 : is_utf8 (path_suffix path) ≡ true

-- A url with an allowed scheme, a host, maybe a port other than 0 and maybe a path, all of them UTF-8, where scheme
-- and host are not empty and hold no `:`, `/` or `@`: it is printed as `scheme://host:port/path`, without the
-- port or the path that it does not have, and `from_bytes` reads exactly it back from that text.
pub from_bytes-to_text :
    (allowed : Option (List Bytes)) (s host : Bytes) (port : Option ℕ) (path : Option Bytes)
    → IsPlain allowed s host port path
    → (to_text (url_of s host port path) ≡ ok (printed s host port path))
      × (from_bytes (printed s host port path) allowed ≡ ok (url_of s host port path))
unfolding to_text
from_bytes-to_text allowed s host port path h = (
  rw (text_or_nothing-some s (codes "://") h.scheme-ne-nil h.scheme-is_utf8) (
      rw (text_or_nothing-some host [] h.host-ne-nil h.host-is_utf8) (
        rw (text_or_nothing-path path h.path-is_utf8)
          (rw (port_text-port_of port h.port-ne-zero) (ap ok (simp (append_assoc, append-nil)))))),
  from_bytes-url_of allowed s host port path h.scheme_allowed h.scheme-ne-nil h.scheme-IsName
      h.host-IsName,
)
