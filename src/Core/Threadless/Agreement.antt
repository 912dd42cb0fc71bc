-- ===== src/Core/Threadless/Agreement.antt =====
-- The registry of each work and the selector agree.
pub mod Update
pub mod Conns
pub mod Turn
pub mod Cleanup
use proxy_py.Base.{
  ℕ, ◌≡◌, refl, sym, ap, ◌∙◌, ◌≢◌, inl, inr, Bool, true, false, Option, none, some, List, [], arith,
  ◌==◌, if◌then◌else◌, ==_iff, Bool-cases, number_eq, Returns, Returns-bind, Returns-ok,
}
use proxy_py.Base.Int.{equal_int, equal_int_iff, int_eq, ℤ, pos, negsuc}
use proxy_py.Sets.{is_member}
use proxy_py.Dict.{get, put}
use proxy_py.Dict.Laws.{IsDict, get-put, put-IsDict}
use proxy_py.Core.Selector.{Selector, SelectorKey, Kernel, watched, register}
use proxy_py.Core.Selector.Laws.{Differs, register_lem}
use proxy_py.Core.Threadless.{Threadless, Events, started, or_empty, note_event}

-- The events of a descriptor in the registry of a work.
abbrev pub mask_of : {W : Type 0} → ℕ → ℤ → Threadless W → Option ℕ
mask_of w f t = get f (or_empty (get w t.registered_events))

-- The events under which a descriptor is watched for a work.
abbrev pub events_for : ℕ → Option SelectorKey → Option ℕ
events_for w none = none
events_for w (some k) = if k.owner == w then some k.events else none

-- Zero stands for the connection pool, and `queue`, if there is one, for the queue of new works.
abbrev pub IsWork : Option ℕ → ℕ → Type 0
IsWork queue w = (w ≢ 0) × (queue ≢ some w)

abbrev pub owned_by_pool : Option SelectorKey → Bool
owned_by_pool none = false
owned_by_pool (some k) = k.owner == 0

-- The registry of each work holds what is watched for it, and the pool's set holds what is watched for the
-- pool. No dict has a key twice.
pub record Agrees {W : Type 0} (queue : Option ℕ) (t : Threadless W) : Type 0 where
  pub selector-IsDict : IsDict t.selector
  pub registry-IsDict : IsDict t.registered_events
  pub events-IsDict : (w : ℕ) → IsDict (or_empty (get w t.registered_events))
  pub works_agree :
      (w : ℕ) → IsWork queue w → (f : ℤ) → mask_of w f t ≡ events_for w (watched f t.selector)
  pub pool_agrees : (f : ℤ) → is_member f t.upstream_filenos ≡ owned_by_pool (watched f t.selector)

neq_false : (v w : ℕ) → v ≢ w → (v == w) ≡ false
neq_false v w ne = ground arith

module _ {W : Type 0} (queue : Option ℕ) where
  -- A descriptor that no other work has becomes the work's own.
  pub give :
      (w : ℕ) (f : ℤ) (mask : ℕ) (s : Selector) (filenos : List ℤ) (t : Threadless W)
      → Agrees queue t
      → IsWork queue w
      → Differs f (some (record { events = mask; owner = w })) t.selector s
      → ((v : ℕ) → IsWork queue v → v ≢ w → events_for v (watched f t.selector) ≡ none)
      → ((g : ℤ)
          → is_member g filenos ≡ (if equal_int f g then false else is_member g t.upstream_filenos))
      → Agrees queue
          (record (note_event w f mask (record t { selector = s })) { upstream_filenos = filenos })
  unfolding note_event
  give w f mask s filenos t h work differs free members = record {
    selector-IsDict = differs.0;
    registry-IsDict = put-IsDict w _ t.registered_events h.registry-IsDict;
    events-IsDict = λ v. rw (get-put w v mine t.registered_events) (elim (Bool-cases (w == v)) [
      | inl e ↦ rw e (put-IsDict f mask _ (h.events-IsDict w))
      | inr e ↦ rw e (h.events-IsDict v)
    ]);
    works_agree = λ v is_work g. rw (get-put w v mine t.registered_events) (
        rw (differs.1 g) (elim (Bool-cases (w == v)) [
          | inl e ↦
              rw e (rw (get-put f g mask (or_empty (get w t.registered_events))) (same_work v g e))
          | inr e ↦ rw e (other_work v g is_work e)
        ]));
    pool_agrees = λ g.
        members g
        ∙ rw (differs.1 g) (elim (Bool-cases (equal_int f g)) [
          | inl e ↦ rw e (sym not_pool)
          | inr e ↦ rw e (h.pool_agrees g)
        ]);
  }
    where
      mine : Events
      mine = put f mask (or_empty (get w t.registered_events))

      key : SelectorKey
      key = record { events = mask; owner = w }

      not_pool : (w == 0) ≡ false
      not_pool = ground (arith, work.0, ==_iff w 0)

      same_work :
          (v : ℕ) (g : ℤ)
          → (w == v) ≡ true
          → (if equal_int f g then some mask else get g (or_empty (get w t.registered_events)))
            ≡ events_for v (if equal_int f g then some key else watched g t.selector)
      same_work v g e = elim (Bool-cases (equal_int f g)) [
        | inl e' ↦ rw e' (rw e refl)
        | inr e' ↦ rw e' (
            h.works_agree w work g
            ∙ ap (λ u. events_for u (watched g t.selector)) ((==_iff w v).0 e))
      ]

      cc_contra : (v : ℕ) → v ≡ w → (w == v) ≡ false → ⊥
      cc_contra v q e = ground (arith, ==_iff w v)

      other_work :
          (v : ℕ) (g : ℤ)
          → IsWork queue v
          → (w == v) ≡ false
          → get g (or_empty (get v t.registered_events))
            ≡ events_for v (if equal_int f g then some key else watched g t.selector)
      other_work v g is_work e = elim (Bool-cases (equal_int f g)) [
        | inl e' ↦ rw e' (
            rw e (
              h.works_agree v is_work g
              ∙ (ap (λ k. events_for v (watched k t.selector)) (sym ((equal_int_iff f g).0 e'))
                  ∙ free v is_work (λ q. cc_contra v q e))))
        | inr e' ↦ rw e' (h.works_agree v is_work g)
      ]

nothing_for :
    (queue w : ℕ) (f g : ℤ)
    → some queue ≢ some w
    → none
      ≡ events_for w (if equal_int f g then some (record { events = 1; owner = queue }) else none)
nothing_for queue w f g ne = elim (Bool-cases (equal_int f g)) [
  | inl e ↦ rw e (rw (neq_false queue w (λ q. ne (ap some q))) refl)
  | inr e ↦ rw e refl
]

nothing_pooled :
    (queue : ℕ) (f g : ℤ)
    → queue ≢ 0
    → false
      ≡ owned_by_pool (if equal_int f g then some (record { events = 1; owner = queue }) else none)
nothing_pooled queue f g ne = elim (Bool-cases (equal_int f g)) [
  | inl e ↦ rw e (rw (neq_false queue 0 ne) refl)
  | inr e ↦ rw e refl
]

watched_nil : (f : ℤ) → watched f [] ≡ none
unfolding get
watched_nil (pos f) = refl
watched_nil (negsuc n) = refl

pub started-Agrees :
    (W : Type 0) (kernel : Kernel) (queue : ℕ)
    → queue ≢ 0
    → Returns (Agrees {W = W} (some queue)) (started kernel (some queue))
unfolding started get is_member
started-Agrees W kernel queue ne = Returns-bind _ (register kernel (pos queue) 1 queue []) _ λ s e.
    let (free, (d, differs)) = Returns-ok _ _ s (register_lem kernel (pos queue) 1 queue [] tt) e in
    record {
      selector-IsDict = d;
      registry-IsDict = tt;
      events-IsDict = λ w. tt;
      works_agree = λ w work f.
          rw (differs f) (rw (watched_nil f) (nothing_for queue w (pos queue) f work.1));
      pool_agrees =
          λ f. rw (differs f) (rw (watched_nil f) (nothing_pooled queue (pos queue) f ne));
    }
