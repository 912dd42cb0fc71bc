-- ===== src/Http/Message/Headers.antt =====
-- Look-up, insertion and removal of headers, by names in any case.
use proxy_py.Base.{
  ◌≡◌, refl, ◌↔◌, Bool, true, false, Option, none, some, if◌then◌else◌, same, bytes_eq, Bytes,
  key_error, ok, raise,
}
use proxy_py.Bytes.{lower}
use proxy_py.Dict.{get, remove}
use proxy_py.Dict.Laws.{get-put, IsDict, get-remove, put-IsDict, remove-IsDict}
use proxy_py.Http.Message.{
  Message, header, has_header, add_header, del_header, headers_or_empty, value_of, map_headers,
  Headers,
}

-- No name stands twice, in any case.
abbrev pub HasDict : Message → Type 0
HasDict m = IsDict (headers_or_empty m.headers)

-- After a header is set, its name in any case finds the new value, and other names find what they did.
pub header-add_header :
    (m : Message) (key value name : Bytes)
    → header (add_header m key value) name
      ≡ (if same (lower key) (lower name) then ok value else header m name)
unfolding header add_header
header-add_header m key value name =
    rw (get-put (lower key) (lower name) (key, value) (headers_or_empty m.headers)) (value_if _ _)
  where
    value_if :
        (b : Bool) (o : Option (Bytes × Bytes))
        → value_of (if b then some (key, value) else o) ≡ (if b then ok value else value_of o)
    value_if true o = refl
    value_if false o = refl

pub removed :
    (k : Bytes) (o : Option Headers)
    → headers_or_empty (map_headers (remove k) o) ≡ remove k (headers_or_empty o)
unfolding remove
removed k none = refl
removed k (some hs) = refl

-- After a header is deleted from a message with none twice, its name in any case raises `KeyError`, and other names find what they did.
pub header-del_header :
    (m : Message) (key name : Bytes)
    → HasDict m
    → header (del_header m key) name
      ≡ (if same (lower key) (lower name) then raise key_error else header m name)
unfolding header del_header
header-del_header m key name h =
    rw (removed (lower key) m.headers)
      (rw (get-remove (lower key) (lower name) (headers_or_empty m.headers) h) (value_if _ _))
  where
    value_if :
        (b : Bool) (o : Option (Bytes × Bytes))
        → value_of (if b then none else o) ≡ (if b then raise key_error else value_of o)
    value_if true o = refl
    value_if false o = refl

pub has_header_iff :
    (m : Message) (name : Bytes)
    → (has_header m name ≡ true) ↔ ((v : Bytes) × (header m name ≡ ok v))
unfolding has_header header
has_header_iff m name = found (get (lower name) (headers_or_empty m.headers))
  where
    found :
        (o : Option (Bytes × Bytes))
        → (elim o [ none ↦ false | some v ↦ true ] ≡ true) ↔ ((v : Bytes) × (value_of o ≡ ok v))
    found none = ((λ e. cc), λ e. cc)
    found (some (n, v)) = ((λ e. (v, refl)), λ e. refl)

-- Both keep one entry to a name.
pub add_header-HasDict :
    (m : Message) (key value : Bytes) → HasDict m → HasDict (add_header m key value)
unfolding add_header
add_header-HasDict m key value h =
    put-IsDict (lower key) (key, value) (headers_or_empty m.headers) h

pub del_header-HasDict : (m : Message) (key : Bytes) → HasDict m → HasDict (del_header m key)
unfolding del_header
del_header-HasDict m key h =
    rw (removed (lower key) m.headers) (remove-IsDict (lower key) (headers_or_empty m.headers) h)
