-- ===== src/Core/Threadless/Agreement/Cleanup.antt =====
-- What is left of a work that is cleaned up.
use proxy_py.Base.{
  ℕ, ◌≡◌, refl, sym, ap, ◌∙◌, ◌≢◌, ◌⊎◌, inl, inr, Bool, true, false, Option, none, some, [], ◌∷◌,
  map, arith, ◌==◌, if◌then◌else◌, ==_iff, Bool-cases, number_eq, ◌>>=◌, ok,
}
use proxy_py.Base.Int.{equal_int, equal_int_iff, int_eq, ℤ}
use proxy_py.Sets.{is_member}
use proxy_py.Dict.{get, remove, contains}
use proxy_py.Dict.Laws.{IsDict, get-Absent, get-remove, remove-IsDict}
use proxy_py.Core.Selector.{Selector, SelectorKey, watched}
use proxy_py.Core.Selector.Laws.{unregister_lem}
use proxy_py.Core.Threadless.{Threadless, Events, unregister_all, forget_events, cleanup}
use proxy_py.Core.Threadless.Agreement.{Agrees, IsWork, mask_of, events_for, owned_by_pool}
use proxy_py.Core.Threadless.Agreement.Update.{only_owner}
use proxy_py.Core.Threadless.Agreement.Conns.{Unregistered, step_after}

is_member-keys : (g : ℤ) (events : Events) → is_member g (map (λ q. q.0) events) ≡ contains g events
unfolding is_member get
is_member-keys g [] = refl
is_member-keys g ((f, m) ∷ events) = ground (arith, is_member-keys g events)

-- Every descriptor of a registry is watched.
abbrev AllWatched : Events → Selector → Type 0
AllWatched events s =
    (g : ℤ) (m : ℕ) → get g events ≡ some m → (k : SelectorKey) × (watched g s ≡ some k)

abbrev Done : Events → Selector → Type 0
Done events s =
    (s' : Selector) × (unregister_all (map (λ q. q.0) events) s ≡ ok s')
    × Unregistered (map (λ q. q.0) events) s s'

-- Without the first descriptor, the others are still watched.
rest_watched :
    (f : ℤ) (m : ℕ) (events : Events) (s s' : Selector)
    → IsDict ((f, m) ∷ events)
    → AllWatched ((f, m) ∷ events) s
    → ((g : ℤ) → watched g s' ≡ (if equal_int f g then none else watched g s))
    → AllWatched events s'
unfolding get
rest_watched f m events s s' distinct all differs g m' e = either (Bool-cases (equal_int f g))
  where
    impossible : {o : Option ℕ} → o ≡ none → o ≡ some m' → ⊥
    impossible u v = cc

    either :
        ((equal_int f g ≡ true) ⊎ (equal_int f g ≡ false))
        → (k : SelectorKey) × (watched g s' ≡ some k)
    either (inl e') = absurd (
        impossible (get-Absent f events distinct.0)
          (ap (λ k. get k events) ((equal_int_iff f g).0 e') ∙ e))
    either (inr e') = let (k, w) = all g m' (rw e' e) in (k, differs g ∙ rw e' w)

unregister_events :
    (events : Events) (s : Selector)
    → IsDict s
    → IsDict events
    → AllWatched events s
    → Done events s
unfolding unregister_all is_member get
unregister_events [] s h distinct all = (s, refl, (h, λ g. refl))
unregister_events ((f, m) ∷ events) s h distinct all =
    let (k, e) = all f m (rw ((equal_int_iff f f).1 refl) refl) in
    let (s', e', (d, differs)) = unregister_lem f k s h e in
    let (s'', e'', (d', after)) =
      unregister_events events s' d distinct.1
        (rest_watched f m events s s' distinct all differs) in
    (
      s'',
      rw e' e'',
      (
        d',
        λ g. rw (after g) (
            rw (differs g) (
              step_after (equal_int f g) (is_member g (map (λ q. q.0) events)) none (watched g s))),
      ),
    )

-- A work of which nothing is known any more; the other works are as they were.
abbrev Forgotten : {W : Type 0} → Option ℕ → ℕ → Threadless W → Threadless W → Type 0
Forgotten queue w t u =
    Agrees queue u
    × ((f : ℤ) → events_for w (watched f u.selector) ≡ none)
    × ((v : ℕ) (f : ℤ) → v ≢ w → mask_of v f u ≡ mask_of v f t)
    × (u.works ≡ t.works)

some_key :
    (k : Option SelectorKey) (w m : ℕ) → events_for w k ≡ some m → (j : SelectorKey) × (k ≡ some j)
some_key none w m e = absurd (apart e)
  where
    apart : none ≡ some m → ⊥
    apart q = cc
some_key (some j) w m e = (j, refl)

-- What is taken from the work `w` is taken from nobody else.
abbrev without_key : Option ℕ → Option SelectorKey → Option SelectorKey
without_key o k = if elim o [ none ↦ false | some v ↦ true ] then none else k

cleared :
    (w : ℕ) (o : Option ℕ) (k : Option SelectorKey)
    → events_for w k ≡ o
    → events_for w (without_key o k) ≡ none
cleared w none k e = e
cleared w (some m) k e = refl

kept_work :
    (w v : ℕ) (o : Option ℕ) (k : Option SelectorKey)
    → w ≢ 0
    → v ≢ w
    → events_for w k ≡ o
    → events_for v k ≡ events_for v (without_key o k)
kept_work w v none k nz ne e = refl
kept_work w v (some m) k nz ne e = (only_owner k w m nz e).1 v ne

kept_pool :
    (w : ℕ) (o : Option ℕ) (k : Option SelectorKey)
    → w ≢ 0
    → events_for w k ≡ o
    → owned_by_pool k ≡ owned_by_pool (without_key o k)
kept_pool w none k nz e = refl
kept_pool w (some m) k nz e = (only_owner k w m nz e).0

neq_false : (w v : ℕ) → v ≢ w → (w == v) ≡ false
neq_false w v ne = ground arith

module _ {W : Type 0} (queue : Option ℕ) where
  forget_registered :
      (w : ℕ) (events : Events) (t : Threadless W)
      → Agrees queue t
      → IsWork queue w
      → get w t.registered_events ≡ some events
      → (s : Selector) → Unregistered (map (λ q. q.0) events) t.selector s
      → Forgotten queue w t
          (record t { selector = s; registered_events = remove w t.registered_events })
  unfolding get
  forget_registered w events t h work e s (d, after) = (
    record {
      selector-IsDict = d;
      registry-IsDict = remove-IsDict w t.registered_events h.registry-IsDict;
      events-IsDict = λ v.
          rw (get-remove w v t.registered_events h.registry-IsDict)
            (elim (Bool-cases (w == v)) [ inl e' ↦ rw e' tt | inr e' ↦ rw e' (h.events-IsDict v) ]);
      works_agree = λ v is_work g.
          rw (get-remove w v t.registered_events h.registry-IsDict) (elim (Bool-cases (w == v)) [
            | inl e' ↦
                rw e'
                  (sym (ap (λ x. events_for x (watched g s)) (sym ((==_iff w v).0 e')) ∙ nothing g))
            | inr e' ↦ rw e' (
                h.works_agree v is_work g
                ∙ rw (after_key g) (
                    kept_work w v (get g events) (watched g t.selector) work.0 (other v e')
                      (mine g)))
          ]);
      pool_agrees = λ g.
          h.pool_agrees g
          ∙ rw (after_key g) (kept_pool w (get g events) (watched g t.selector) work.0 (mine g));
    },
    nothing,
    (λ v g ne.
        rw (get-remove w v t.registered_events h.registry-IsDict) (rw (neq_false w v ne) refl)),
    refl,
  )
    where
      mine : (g : ℤ) → events_for w (watched g t.selector) ≡ get g events
      mine g = sym (h.works_agree w work g) ∙ rw e refl

      after_key : (g : ℤ) → watched g s ≡ without_key (get g events) (watched g t.selector)
      after_key g =
          after g ∙ ap (λ b. if b then none else watched g t.selector) (is_member-keys g events)

      nothing : (g : ℤ) → events_for w (watched g s) ≡ none
      nothing g = rw (after_key g) (cleared w (get g events) (watched g t.selector) (mine g))

      other : (v : ℕ) → (w == v) ≡ false → v ≢ w
      other v e' q = ground (arith, ==_iff w v)

  forget_events_lem :
      (w : ℕ) (t : Threadless W)
      → Agrees queue t
      → IsWork queue w
      → (u : Threadless W) × (forget_events w t ≡ ok u) × Forgotten queue w t u
  unfolding forget_events get
  forget_events_lem w t h work = by_events (get w t.registered_events) refl
    where
      by_events :
          (o : Option Events)
          → get w t.registered_events ≡ o
          → (u : Threadless W) × (elim o [
            | none ↦ ok t
            | some events ↦ unregister_all (map (λ q. q.0) events) t.selector >>= λ s.
                ok (record t { selector = s; registered_events = remove w t.registered_events })
          ]
              ≡ ok u)
            × Forgotten queue w t u
      by_events none e =
          (t, refl, (h, (λ f. sym (h.works_agree w work f) ∙ rw e refl), (λ v f ne. refl), refl))
      by_events (some events) e =
          let (s, e', un) =
            unregister_events events t.selector h.selector-IsDict (rw e at (h.events-IsDict w))
              (λ g m q.
                some_key (watched g t.selector) w m (sym (h.works_agree w work g) ∙ rw e q)) in
          (
            record t { selector = s; registered_events = remove w t.registered_events },
            rw e' refl,
            forget_registered w events t h work e s un,
          )

  without_work :
      (w : ℕ) (u : Threadless W)
      → Agrees queue u
      → Agrees queue (record u { works = remove w u.works })
  without_work w u h = record {
    selector-IsDict = h.selector-IsDict;
    registry-IsDict = h.registry-IsDict;
    events-IsDict = h.events-IsDict;
    works_agree = h.works_agree;
    pool_agrees = h.pool_agrees;
  }

  -- Where the registries, the set of the pool and the selector agree, and a work is there: its clean-up
  -- returns, everything still agrees, nothing is watched for the work any more, what the other works asked for is
  -- untouched, and the work is gone; its descriptor is closed if there is a queue of works.
  pub cleanup_lem :
      (has_queue : Bool) (w : ℕ) (t : Threadless W)
      → Agrees queue t
      → IsWork queue w
      → contains w t.works ≡ true
      → (u : Threadless W) × (cleanup has_queue w t ≡ ok (u, if has_queue then some w else none))
        × Agrees queue u
        × ((f : ℤ) → events_for w (watched f u.selector) ≡ none)
        × ((v : ℕ) (f : ℤ) → v ≢ w → mask_of v f u ≡ mask_of v f t)
        × (u.works ≡ remove w t.works)
  unfolding cleanup
  cleanup_lem has_queue w t h work there =
      let (u, e, (agrees, nothing, others, same_works)) = forget_events_lem w t h work in
      (
        record u { works = remove w u.works },
        rw e (rw same_works (rw there refl)),
        without_work w u agrees,
        nothing,
        others,
        ap (remove w) same_works,
      )
