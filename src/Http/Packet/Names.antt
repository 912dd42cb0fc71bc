-- ===== src/Http/Packet/Names.antt =====
-- Which headers the packet of a message has.
use proxy_py.Base.{
  ◌≡◌, refl, inl, inr, Bool, true, false, not, ◌&&◌, ◌||◌, Option, none, List, [], ◌∷◌, arith, same,
  same_iff, same_refl, some, bytes_eq, Bytes, All, Bool-cases, ◌∙◌, Returns-ok, Returns-bind, guard,
  assertion_error, ap, Result, ok,
}
use proxy_py.Bytes.{lower}
use proxy_py.Dict.{get, put}
use proxy_py.Dict.Laws.{Absent}
use proxy_py.Http.Message.{Message, Headers, headers_or_empty, is_request}
use proxy_py.Http.Packet.{
  Fields, has_name, is_disabled, sent_fields, build, build_http_request, get_body_or_chunks, truthy,
  path_or_root,
}

pub has_name-put :
    (n k v : Bytes) (fields : Fields)
    → has_name n (put k v fields) ≡ (same (lower k) n || has_name n fields)
unfolding has_name put
has_name-put n k v [] = refl
has_name-put n k v ((j, w) ∷ fields) = ground (arith, same_iff j k, has_name-put n k v fields)

-- Whether a header that is not disabled has the name, in any case.
pub named : Bytes → List Bytes → Headers → Bool
named n disabled [] = false
named n disabled ((k, (name, v)) ∷ hs) =
    (not (is_disabled k disabled) && same (lower name) n) || named n disabled hs

has_name-sent_fields :
    (n : Bytes) (disabled : List Bytes) (hs : Headers) (fields : Fields)
    → has_name n (sent_fields disabled none hs fields) ≡ (named n disabled hs || has_name n fields)
unfolding sent_fields named
has_name-sent_fields n disabled [] fields = refl
has_name-sent_fields n disabled ((k, (name, v)) ∷ hs) fields =
    elim (Bool-cases (is_disabled k disabled)) [
      | inl d ↦ rw d (has_name-sent_fields n disabled hs fields)
      | inr d ↦
          rw
            (
              d,
              has_name-sent_fields n disabled hs (put name v fields),
              has_name-put n name v fields,
            )
            (swap (named n disabled hs) (same (lower name) n))
    ]
  where
    swap : (a b : Bool) → (a || (b || has_name n fields)) ≡ ((b || a) || has_name n fields)
    swap true true = refl
    swap true false = refl
    swap false true = refl
    swap false false = refl

-- A packet of fields, among which the name is or is not.
abbrev pub Carries : Bytes → Bytes → Bool → Bytes → Type 0
Carries agent n b raw =
    (method : Bytes) × (path : Bytes) × (version : Bytes) × (fields : Fields) × (body : Option
      Bytes)
    × (raw ≡ build_http_request agent method path version none fields body false true)
    × (has_name n fields ≡ b)

pub build-Carries :
    (agent n : Bytes) (disabled : List Bytes) (m : Message) (raw : Bytes)
    → build agent disabled false none m ≡ ok raw
    → Carries agent n (named n disabled (headers_or_empty m.headers)) raw
unfolding build has_name
build-Carries agent n disabled m raw =
    Returns-ok (Carries agent n _) (build agent disabled false none m) raw (
      Returns-bind _ (truthy m.method) _ λ method e.
        Returns-bind _ (truthy m.version) _ λ version e'.
          Returns-bind _ (guard (is_request m.type) assertion_error) _ λ u asserted.
            Returns-bind _ (get_body_or_chunks m) _ λ body e_body. (
              method,
              path_or_root m.path,
              version,
              sent_fields disabled none (headers_or_empty m.headers) [],
              body,
              refl,
              has_name-sent_fields n disabled (headers_or_empty m.headers) []
                  ∙ or_false (named n disabled (headers_or_empty m.headers)),
            ))
  where
    or_false : (b : Bool) → (b || false) ≡ b
    or_false true = refl
    or_false false = refl

truthy-some : (o : Option Bytes) (b : Bytes) → truthy o ≡ ok b → o ≡ some b
truthy-some none b e = cc
truthy-some (some []) b e = cc
truthy-some (some (c ∷ cs)) b e = ap some (same_bytes e)
  where
    same_bytes : ◌≡◌ {A = Result Bytes} (ok (c ∷ cs)) (ok b) → c ∷ cs ≡ b
    same_bytes q = cc

-- The packet of a message, part by part.
abbrev pub Packet : Bytes → List Bytes → Message → Bytes → Type 0
Packet agent disabled m raw =
    (method : Bytes) × (version : Bytes) × (body : Option Bytes) × (m.method ≡ some method)
    × (m.version ≡ some version)
    × (get_body_or_chunks m ≡ ok body)
    × (raw
        ≡ build_http_request agent method (path_or_root m.path) version none
            (sent_fields disabled none (headers_or_empty m.headers) []) body false true)

pub build-Packet :
    (agent : Bytes) (disabled : List Bytes) (m : Message) (raw : Bytes)
    → build agent disabled false none m ≡ ok raw
    → Packet agent disabled m raw
unfolding build
build-Packet agent disabled m raw =
    Returns-ok (Packet agent disabled m) (build agent disabled false none m) raw (
      Returns-bind _ (truthy m.method) _ λ method e.
        Returns-bind _ (truthy m.version) _ λ version e'.
          Returns-bind _ (guard (is_request m.type) assertion_error) _ λ u asserted.
            Returns-bind _ (get_body_or_chunks m) _ λ body e_body. (
              method,
              version,
              body,
              truthy-some m.method method e,
              truthy-some m.version version e',
              e_body,
              refl,
            ))

-- A key is its name in lower case.
abbrev pub IsKeyed : Headers → Type 0
IsKeyed hs = All (λ q. q.0 ≡ lower q.1.0) hs

pub named-Absent :
    (n : Bytes) (disabled : List Bytes) (hs : Headers)
    → IsKeyed hs
    → Absent n hs
    → named n disabled hs ≡ false
unfolding named
named-Absent n disabled [] h g = refl
named-Absent n disabled ((k, (name, v)) ∷ hs) h g =
    ground (arith, h.0, g.0, same_iff (lower name) n, named-Absent n disabled hs h.1 g.1)

pub named-present :
    (n : Bytes) (hs : Headers) (x : Bytes × Bytes)
    → IsKeyed hs
    → get n hs ≡ some x
    → named n [] hs ≡ true
unfolding named get is_disabled
named-present n [] x h e = cc
named-present n ((k, (name, v)) ∷ hs) x h e =
    ground (arith, h.0, same_iff k n, same_refl n, named-present n hs x h.1)

-- A name that the headers do not have is not among the fields.
pub sent_fields-Absent :
    (n : Bytes) (disabled : List Bytes) (hs : Headers)
    → IsKeyed hs
    → Absent n hs
    → has_name n (sent_fields disabled none hs []) ≡ false
unfolding has_name
sent_fields-Absent n disabled hs keyed lacks =
    rw (has_name-sent_fields n disabled hs [], named-Absent n disabled hs keyed lacks) refl
