-- ===== src/Http/Auth.antt =====
-- `AuthPlugin` of proxy/http/proxy/auth.py.
pub mod Credentials
mod Tests
use proxy_py.Base.{
  Bool, false, ◌&&◌, Option, none, some, List, [], ◌∷◌, if◌then◌else◌, same, bytes_eq, Bytes,
  Result, auth_failed, ok, raise,
}
use proxy_py.Bytes.{codes, lower, words}
use proxy_py.Dict.{get}
use proxy_py.Http.Message.{Message, headers_or_empty}

-- The words of the header against the code that is set.
unfoldable pub is_authorized : Bytes → List Bytes → Bool
is_authorized code (scheme ∷ given ∷ []) = same (lower scheme) (codes "basic") && same given code
is_authorized code _ = false

unfoldable pub check_header : Bytes → Message → Option (Bytes × Bytes) → Result Message
check_header code m none = raise auth_failed
check_header code m (some (name, value)) =
    if is_authorized code (words value) then ok m else raise auth_failed

-- The flag `auth_code`, which may be missing or empty.
unfoldable pub before_upstream_connection : Option Bytes → Message → Result Message
unfolding check_header
before_upstream_connection none m = ok m
before_upstream_connection (some []) m = ok m
before_upstream_connection (some (c ∷ cs)) m =
    let m' = record m { headers = some (headers_or_empty m.headers) } in
    check_header (c ∷ cs) m' (get (codes "proxy-authorization") (headers_or_empty m.headers))
