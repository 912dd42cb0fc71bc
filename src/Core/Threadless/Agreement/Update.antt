-- ===== src/Core/Threadless/Agreement/Update.antt =====
-- What the works ask to be told of keeps the registries and the selector in agreement.
use mathlib.Core.Path.{subst}
use proxy_py.Base.{
  ℕ, ◌≡◌, refl, sym, ap, ◌∙◌, ◌≢◌, ◌⊎◌, inl, inr, Bool, true, false, Option, none, some, List, [],
  ◌∷◌, arith, ◌==◌, if◌then◌else◌, ==_iff, Bool-cases, number_eq, All, ◌>>=◌, Returns, Returns-bind,
  Returns-ok, Raised, Result, key_error, ok, raise,
}
use proxy_py.Base.Int.{equal_int, equal_int_iff, int_eq, ℤ, negsuc}
use proxy_py.Sets.{is_member, without, is_member-without}
use proxy_py.Dict.{get, put}
use proxy_py.Dict.Laws.{IsDict, get-put, put-IsDict}
use proxy_py.Core.Selector.{Selector, SelectorKey, Kernel, watched, register, modify}
use proxy_py.Core.Selector.Laws.{Differs, register_lem, modify_lem}
use proxy_py.Core.Threadless.{
  Threadless, Events, found_in, or_empty, note_event, modify_event, unless_key_error,
  register_event, new_event, update_event, with_registry, update_events, update_work_events,
  update_works,
}
use proxy_py.Core.Threadless.Agreement.{Agrees, IsWork, mask_of, events_for, owned_by_pool, give}

-- What is watched for one work is watched for nobody else.
pub only_owner :
    (k : Option SelectorKey) (w mask : ℕ)
    → w ≢ 0
    → events_for w k ≡ some mask
    → (owned_by_pool k ≡ false) × ((v : ℕ) → v ≢ w → events_for v k ≡ none)
only_owner none w mask nz e = (refl, λ v ne. refl)
only_owner (some k) w mask nz e =
    (ground (arith, ==_iff k.owner w), λ v ne. ground (arith, ==_iff k.owner w, ==_iff k.owner v))

pub only_pool :
    (k : Option SelectorKey) → owned_by_pool k ≡ true → (v : ℕ) → v ≢ 0 → events_for v k ≡ none
only_pool none e v ne = refl
only_pool (some k) e v ne = ground (arith, ==_iff k.owner 0, ==_iff k.owner v)

absent_kept :
    (f g : ℤ) (s : List ℤ)
    → is_member f s ≡ false
    → is_member g s ≡ (if equal_int f g then false else is_member g s)
absent_kept f g s h = elim (Bool-cases (equal_int f g)) [
  | inl e ↦ rw e (ap (λ k. is_member k s) (sym ((equal_int_iff f g).0 e)) ∙ h)
  | inr e ↦ rw e refl
]

module _ {W : Type 0} (queue : Option ℕ) (kernel : Kernel) where
  modify_event-Agrees :
      (w : ℕ) (f : ℤ) (mask oldmask : ℕ) (t : Threadless W)
      → Agrees queue t
      → IsWork queue w
      → mask_of w f t ≡ some oldmask
      → Returns (Agrees queue) (modify_event kernel w f mask t)
  unfolding modify_event note_event
  modify_event-Agrees w f mask oldmask t h work e =
      let (not_pool, alone) =
        only_owner (watched f t.selector) w oldmask work.0 (sym (h.works_agree w work f) ∙ e) in
      Returns-bind _ (modify kernel f mask w t.selector) _ λ s e'.
        give queue w f mask s t.upstream_filenos t h work
          (Returns-ok _ _ s (modify_lem kernel f mask w t.selector h.selector-IsDict) e')
          (λ v is_work ne. alone v ne)
          (λ g. absent_kept f g t.upstream_filenos (h.pool_agrees f ∙ not_pool))

  borrow_event-Agrees :
      (w : ℕ) (f : ℤ) (mask : ℕ) (t : Threadless W)
      → Agrees queue t
      → IsWork queue w
      → is_member f t.upstream_filenos ≡ true
      → Returns (Agrees queue) (
          modify_event kernel w f mask t >>= λ u.
          ok (record u { upstream_filenos = without f u.upstream_filenos }))
  unfolding modify_event note_event
  borrow_event-Agrees w f mask t h work e =
      by_selector (modify kernel f mask w t.selector)
        (modify_lem kernel f mask w t.selector h.selector-IsDict)
    where
      by_selector :
          (r : Result Selector)
          → Returns (Differs f (some (record { events = mask; owner = w })) t.selector) r
          → Returns (Agrees queue) (
              (r >>= λ s. ok (note_event w f mask (record t { selector = s }))) >>= λ u.
              ok (record u { upstream_filenos = without f u.upstream_filenos }))
      by_selector (raise x) d = tt
      by_selector (ok s) d =
          give queue w f mask s (without f t.upstream_filenos) t h work d
            (λ v is_work ne.
              only_pool (watched f t.selector) (sym (h.pool_agrees f) ∙ e) v is_work.0)
            (λ g. is_member-without f g t.upstream_filenos)

  register_event-Agrees :
      (w : ℕ) (f : ℤ) (mask : ℕ) (t : Threadless W)
      → Agrees queue t
      → IsWork queue w
      → is_member f t.upstream_filenos ≡ false
      → Returns (Agrees queue) (register_event kernel w f mask t)
  unfolding register_event note_event
  register_event-Agrees w f mask t h work e = unless _ (
      by_selector (register kernel f mask w t.selector)
        (register_lem kernel f mask w t.selector h.selector-IsDict))
    where
      unless :
          (r : Result (Threadless W))
          → Returns (Agrees queue) r
          → Returns (Agrees queue) (unless_key_error t r)
      unless (ok u) d = d
      unless (raise x) d = by_error x
        where
          by_error : (x : Raised) → Returns (Agrees queue) (unless_key_error t (raise x))
          by_error key_error = h
          by_error _ = tt

      by_selector :
          (r : Result Selector)
          → Returns
              (λ s.
                (watched f t.selector ≡ none)
                × Differs f (some (record { events = mask; owner = w })) t.selector s)
              r
          → Returns (Agrees queue) (r >>= λ s. ok (note_event w f mask (record t { selector = s })))
      by_selector (raise x) d = tt
      by_selector (ok s) d =
          give queue w f mask s t.upstream_filenos t h work d.1
            (λ v is_work ne. ap (events_for v) d.0) (λ g. absent_kept f g t.upstream_filenos e)

  update_event-Agrees :
      (w : ℕ) (f : ℤ) (mask : ℕ) (t : Threadless W)
      → Agrees queue t
      → IsWork queue w
      → Returns (Agrees queue) (update_event kernel w f mask t)
  unfolding update_event new_event
  update_event-Agrees w f mask t h work = by_mask (mask_of w f t) refl
    where
      by_member :
          (b : Bool)
          → is_member f t.upstream_filenos ≡ b
          → Returns (Agrees queue) (
              if b
              then (modify_event kernel w f mask t >>= λ u.
                  ok (record u { upstream_filenos = without f u.upstream_filenos }))
              else if equal_int f (negsuc 0)
              then ok t
              else register_event kernel w f mask t)
      by_member true e = borrow_event-Agrees w f mask t h work e
      by_member false e = elim (Bool-cases (equal_int f (negsuc 0))) [
        | inl e' ↦ rw e' h
        | inr e' ↦ rw e' (register_event-Agrees w f mask t h work e)
      ]

      by_mask :
          (o : Option ℕ)
          → mask_of w f t ≡ o
          → Returns (Agrees queue) (elim o [
            | some oldmask ↦ if mask == oldmask then ok t else modify_event kernel w f mask t
            | none ↦ new_event kernel w f mask t
          ])
      by_mask none e = by_member (is_member f t.upstream_filenos) refl
      by_mask (some oldmask) e = elim (Bool-cases (mask == oldmask)) [
        | inl e' ↦ rw e' h
        | inr e' ↦ rw e' (modify_event-Agrees w f mask oldmask t h work e)
      ]

  with_registry-Agrees :
      (w : ℕ) (t : Threadless W) → Agrees queue t → Agrees queue (with_registry w t)
  unfolding with_registry
  with_registry-Agrees w t h = by_events (get w t.registered_events) refl
    where
      by_events :
          (o : Option Events)
          → get w t.registered_events ≡ o
          → Agrees queue (
              if elim o [ none ↦ false | some v ↦ true ]
              then t
              else record t { registered_events = put w [] t.registered_events })
      by_events (some events) e = h
      by_events none e = record {
        selector-IsDict = h.selector-IsDict;
        registry-IsDict = put-IsDict w [] t.registered_events h.registry-IsDict;
        events-IsDict = λ v. subst IsDict (same_events v) (h.events-IsDict v);
        works_agree = λ v is_work f. ap (get f) (sym (same_events v)) ∙ h.works_agree v is_work f;
        pool_agrees = h.pool_agrees;
      }
        where
          same_events :
              (v : ℕ)
              → or_empty (get v t.registered_events)
                ≡ or_empty (get v (put w [] t.registered_events))
          same_events v = rw (get-put w v [] t.registered_events) (elim (Bool-cases (w == v)) [
            | inl e' ↦
                rw e'
                  (ap or_empty (ap (λ u. get u t.registered_events) (sym ((==_iff w v).0 e')) ∙ e))
            | inr e' ↦ rw e' refl
          ])

  update_events-Agrees :
      (w : ℕ) (events : Events) (t : Threadless W)
      → Agrees queue t
      → IsWork queue w
      → Returns (Agrees queue) (update_events kernel w events t)
  unfolding update_events
  update_events-Agrees w [] t h work = h
  update_events-Agrees w ((f, mask) ∷ events) t h work =
      Returns-bind _ (update_event kernel w f mask (with_registry w t)) _ λ u e.
        update_events-Agrees w events u
          (Returns-ok _ _ u
            (update_event-Agrees w f mask (with_registry w t) (with_registry-Agrees w t h) work) e)
          work

  update_work_events-Agrees :
      (events_of : W → Result Events) (w : ℕ) (t : Threadless W)
      → Agrees queue t
      → IsWork queue w
      → Returns (Agrees queue) (update_work_events events_of kernel w t)
  unfolding update_work_events
  update_work_events-Agrees events_of w t h work =
      Returns-bind _ (found_in (get w t.works)) _
        λ v e. Returns-bind _ (events_of v) _ λ events e'. update_events-Agrees w events t h work

  pub update_works-Agrees :
      (events_of : W → Result Events) (unfinished : List ℕ) (works : List (ℕ × W))
      (t : Threadless W)
      → Agrees queue t
      → All (λ q. IsWork queue q.0) works
      → Returns (Agrees queue) (update_works events_of kernel unfinished works t)
  unfolding update_works
  update_works-Agrees events_of unfinished [] t h all = h
  update_works-Agrees events_of unfinished ((w, work) ∷ works) t h all =
      Returns-bind _
        (if is_member w unfinished then ok t else update_work_events events_of kernel w t) _
        λ u e.
          update_works-Agrees events_of unfinished works u
            (Returns-ok (Agrees queue) _ u (either (Bool-cases (is_member w unfinished))) e) all.1
    where
      either :
          ((is_member w unfinished ≡ true) ⊎ (is_member w unfinished ≡ false))
          → Returns
              (Agrees queue)
              (if is_member w unfinished then ok t else update_work_events events_of kernel w t)
      either (inl e) = rw e h
      either (inr e) = rw e (update_work_events-Agrees events_of w t h all.0)
