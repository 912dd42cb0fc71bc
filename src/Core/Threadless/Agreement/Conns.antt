-- ===== src/Core/Threadless/Agreement/Conns.antt =====
-- The descriptors of the connection pool, from one turn of the loop to the next.
use proxy_py.Base.{
  ◌≡◌, refl, sym, ap, ◌∙◌, ◌⊎◌, inl, inr, Bool, true, false, not, ◌&&◌, ◌||◌, Option, none, some,
  List, [], ◌∷◌, arith, if◌then◌else◌, Bool-cases, number_eq, Returns, Returns-bind, Returns-ok,
  Result, ok, raise,
}
use proxy_py.Base.Int.{equal_int, equal_int_iff, int_eq, ℤ}
use proxy_py.Sets.{is_member, difference, is_member-difference}
use proxy_py.Dict.Laws.{IsDict}
use proxy_py.Core.Selector.{Selector, SelectorKey, Kernel, watched, register, unregister}
use proxy_py.Core.Selector.Laws.{register_lem, unregister-Differs}
use proxy_py.Core.Threadless.{Threadless, register_all, unregister_all, update_conn_pool_events}

-- How the connections of the pool are watched.
abbrev pool_key : SelectorKey
pool_key = record { events = 1; owner = 0 }

abbrev Registered : List ℤ → Selector → Selector → Type 0
Registered fs s s' =
    IsDict s'
    × ((g : ℤ) → watched g s' ≡ (if is_member g fs then some pool_key else watched g s))
    × ((g : ℤ) → is_member g fs ≡ true → watched g s ≡ none)

pub step_after :
    (a b : Bool) (x y : Option SelectorKey)
    → (if b then x else if a then x else y) ≡ (if a || b then x else y)
step_after a b x y = ground arith

register_step :
    (fs : List ℤ) (f : ℤ) (s s' : Selector)
    → watched f s ≡ none
    → ((g : ℤ) → watched g s' ≡ (if equal_int f g then some pool_key else watched g s))
    → (r : Result Selector) → Returns (Registered fs s') r
    → Returns (Registered (f ∷ fs) s) r
unfolding is_member
register_step fs f s s' free differs (raise x) k = tt
register_step fs f s s' free differs (ok s'') (d, after, before) = (
  d,
  (λ g.
      rw (after g) (
        rw (differs g)
          (step_after (equal_int f g) (is_member g fs) (some pool_key) (watched g s)))),
  λ g. none_before g (Bool-cases (equal_int f g)),
)
  where
    none_before :
        (g : ℤ)
        → ((equal_int f g ≡ true) ⊎ (equal_int f g ≡ false))
        → equal_int f g || is_member g fs ≡ true
        → watched g s ≡ none
    none_before g (inl e) m = ap (λ k. watched k s) (sym ((equal_int_iff f g).0 e)) ∙ free
    none_before g (inr e) m = rw e at (sym (differs g) ∙ before g (rw e at m))

register_all_lem :
    (kernel : Kernel) (fs : List ℤ) (s : Selector)
    → IsDict s
    → Returns (Registered fs s) (register_all kernel fs s)
unfolding register_all is_member
register_all_lem kernel [] s h = (h, (λ g. refl), λ g m. cc)
register_all_lem kernel (f ∷ fs) s h = Returns-bind _ (register kernel f 1 0 s) _ λ s' e.
    let (free, (d, differs)) = Returns-ok _ _ s' (register_lem kernel f 1 0 s h) e in
    register_step fs f s s' free differs (register_all kernel fs s')
      (register_all_lem kernel fs s' d)

abbrev pub Unregistered : List ℤ → Selector → Selector → Type 0
Unregistered fs s s' =
    IsDict s' × ((g : ℤ) → watched g s' ≡ (if is_member g fs then none else watched g s))

unregister_step :
    (fs : List ℤ) (f : ℤ) (s s' : Selector)
    → ((g : ℤ) → watched g s' ≡ (if equal_int f g then none else watched g s))
    → (r : Result Selector) → Returns (Unregistered fs s') r
    → Returns (Unregistered (f ∷ fs) s) r
unfolding is_member
unregister_step fs f s s' differs (raise x) k = tt
unregister_step fs f s s' differs (ok s'') (d, after) = (
  d,
  λ g.
      rw (after g)
        (rw (differs g) (step_after (equal_int f g) (is_member g fs) none (watched g s))),
)

unregister_all_lem :
    (fs : List ℤ) (s : Selector) → IsDict s → Returns (Unregistered fs s) (unregister_all fs s)
unfolding unregister_all is_member
unregister_all_lem [] s h = (h, λ g. refl)
unregister_all_lem (f ∷ fs) s h = Returns-bind _ (unregister f s) _ λ s' e.
    let (d, differs) = Returns-ok _ _ s' (unregister-Differs f s h) e in
    unregister_step fs f s s' differs (unregister_all fs s') (unregister_all_lem fs s' d)

-- What is watched after a turn of the loop: what the pool wants and was not watched before it.
abbrev pub turned : List ℤ → List ℤ → ℤ → Option SelectorKey → Option SelectorKey
turned new old g k =
    if is_member g new && not (is_member g old)
    then some pool_key
    else if is_member g old
    then none
    else k

-- The pool's set after it.
abbrev pub kept_filenos : List ℤ → List ℤ → ℤ → Bool
kept_filenos new old g = is_member g new && not (is_member g old)

both_steps :
    (n o : Bool) (x k : Option SelectorKey)
    → (if o && not (n && not o) then none else if n && not o then x else k)
      ≡ (if n && not o then x else if o then none else k)
both_steps n o x k = ground arith

-- How a turn changes what is watched.
abbrev pub Turned : {W : Type 0} → List ℤ → Threadless W → Threadless W → Type 0
Turned new t u =
    IsDict u.selector
    × ((g : ℤ) → is_member g u.upstream_filenos ≡ kept_filenos new t.upstream_filenos g)
    × ((g : ℤ) → watched g u.selector ≡ turned new t.upstream_filenos g (watched g t.selector))
    × ((g : ℤ) → kept_filenos new t.upstream_filenos g ≡ true → watched g t.selector ≡ none)
    × (u.registered_events ≡ t.registered_events)

module _ {W : Type 0} (kernel : Kernel) where
  pub update_conn_pool_events-Turned :
      (new : List ℤ) (t : Threadless W)
      → IsDict t.selector
      → Returns (Turned new t) (update_conn_pool_events (some new) kernel t)
  unfolding update_conn_pool_events
  update_conn_pool_events-Turned new t h =
      let kept = difference new t.upstream_filenos in
      let gone = difference t.upstream_filenos kept in
      Returns-bind _ (register_all kernel kept t.selector) _ λ s e.
        let (d, after, free) = Returns-ok _ _ s (register_all_lem kernel kept t.selector h) e in
        Returns-bind _ (unregister_all gone s) _ λ s' e'.
          let (d', after') = Returns-ok _ _ s' (unregister_all_lem gone s d) e' in
          (
            d',
            (λ g. is_member-difference g new t.upstream_filenos),
            (λ g. rw (after' g) (
                rw (after g) (
                  rw (is_member-difference g t.upstream_filenos kept) (
                    rw (is_member-difference g new t.upstream_filenos) (
                      both_steps (is_member g new) (is_member g t.upstream_filenos) (some pool_key)
                        (watched g t.selector)))))),
            (λ g m. free g (is_member-difference g new t.upstream_filenos ∙ m)),
            refl,
          )
