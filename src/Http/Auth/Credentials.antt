-- ===== src/Http/Auth/Credentials.antt =====
-- Who passes the authentication.
use proxy_py.Base.{
  ◌≡◌, refl, ap, ◌∙◌, ◌≢◌, ◌↔◌, ◌⊎◌, inl, inr, true, false, Option, none, some, List, [], ◌∷◌,
  arith, same_iff, same_refl, Bool-cases, bytes_eq, Bytes, Result, auth_failed, ok, raise,
}
use proxy_py.Bytes.{codes, lower, words}
use proxy_py.Dict.{get}
use proxy_py.Http.Message.{Message, header, headers_or_empty, value_of}
use proxy_py.Http.Auth.{is_authorized, check_header, before_upstream_connection}

-- The header carries the scheme and the code, and nothing else.
abbrev pub Presents : Bytes → Bytes → Type 0
Presents code value =
    (scheme : Bytes) × (words value ≡ scheme ∷ code ∷ []) × (lower scheme ≡ codes "basic")

abbrev pub Authorized : Bytes → Message → Type 0
Authorized code m =
    (value : Bytes) × (header m (codes "Proxy-Authorization") ≡ ok value) × Presents code value

authorized_scheme :
    (code scheme given : Bytes)
    → is_authorized code (scheme ∷ given ∷ []) ≡ true
    → (given ≡ code) × (lower scheme ≡ codes "basic")
unfolding is_authorized
authorized_scheme code scheme given h =
    ground (arith, same_iff (lower scheme) (codes "basic"), same_iff given code)

authorized_words :
    (code value : Bytes) → is_authorized code (words value) ≡ true → Presents code value
unfolding is_authorized
authorized_words code value h = by_words (words value) refl h
  where
    by_words :
        (ws : List Bytes) → words value ≡ ws → is_authorized code ws ≡ true → Presents code value
    by_words (scheme ∷ given ∷ []) e h' =
        let (g, b) = authorized_scheme code scheme given h' in
        (scheme, e ∙ ap (λ w. scheme ∷ w ∷ []) g, b)
    by_words [] e h' = cc
    by_words (a ∷ []) e h' = cc
    by_words (a ∷ b ∷ c ∷ ws) e h' = cc

presented_words :
    (code value : Bytes) → Presents code value → is_authorized code (words value) ≡ true
unfolding is_authorized
presented_words code value (scheme, e, b) =
    rw e (rw b (rw (same_refl (codes "basic")) (same_refl code)))

abbrev pub Passes : Result Message → Type 0
Passes r = (m : Message) × (r ≡ ok m)

-- The outcome of the test: it passes or raises, and passes only with what it asks for.
abbrev pub Decides : Type 0 → Result Message → Type 0
Decides P r = (Passes r ↔ P) × ((r ≡ raise auth_failed) ⊎ Passes r)

ok_value : {a b : Bytes} → ◌≡◌ {A = Result Bytes} (ok a) (ok b) → a ≡ b
ok_value e = cc e

abbrev Carries : Bytes → Option (Bytes × Bytes) → Type 0
Carries code o = (value : Bytes) × (value_of o ≡ ok value) × Presents code value

check_header-Decides :
    (code : Bytes) (m : Message) (o : Option (Bytes × Bytes))
    → Decides (Carries code o) (check_header code m o)
unfolding check_header
check_header-Decides code m none = (((λ (m', e). cc), λ (v, e, p). cc), inl refl)
check_header-Decides code m (some (name, value)) =
    elim (Bool-cases (is_authorized code (words value))) [
      | inl e ↦
          rw e
            (((λ x. (value, refl, authorized_words code value e)), λ x. (m, refl)), inr (m, refl))
      | inr e ↦ rw e (((λ (m', x). cc), λ (v, x, p). (m, other value v x e p)), inl refl)
    ]
  where
    other :
        (a v : Bytes)
        → ◌≡◌ {A = Result Bytes} (ok a) (ok v)
        → is_authorized code (words a) ≡ false
        → Presents code v
        → raise auth_failed ≡ ok m
    other a v x e p =
        cc (e, ap (λ w. is_authorized code (words w)) (ok_value x), presented_words code v p)

-- With a code set, a request passes exactly when its header carries the code under the scheme `basic`,
-- written in any case, and nothing else; otherwise the plugin raises `ProxyAuthenticationFailed`.
pub before_upstream_connection_lem :
    (code : Bytes) (m : Message)
    → code ≢ []
    → Decides (Authorized code m) (before_upstream_connection (some code) m)
unfolding before_upstream_connection header lower
before_upstream_connection_lem [] m ne = absurd (ne refl)
before_upstream_connection_lem (c ∷ cs) m ne =
    check_header-Decides (c ∷ cs) _ (get (codes "proxy-authorization") (headers_or_empty m.headers))

pub before_upstream_connection-raise :
    (code : Bytes) (m : Message)
    → code ≢ []
    → ¬ Authorized code m
    → before_upstream_connection (some code) m ≡ raise auth_failed
before_upstream_connection-raise code m ne none_given =
    elim ((before_upstream_connection_lem code m ne).1) [
      | inl e ↦ e
      | inr passes ↦ absurd (none_given ((before_upstream_connection_lem code m ne).0.0 passes))
    ]
