-- ===== src/Core/Threadless/Agreement/Turn.antt =====
-- A whole update of the selector, in each turn of the loop.
use mathlib.Core.Path.{subst}
use proxy_py.Base.{
  ℕ, ◌≡◌, refl, sym, ap, ◌∙◌, ◌≢◌, Bool, true, false, not, ◌&&◌, Option, none, some, List, arith,
  if◌then◌else◌, ==_iff, number_eq, All, Returns, Returns-bind, Returns-ok, Result, ok, raise,
}
use proxy_py.Base.Int.{int_eq, ℤ}
use proxy_py.Sets.{is_member}
use proxy_py.Dict.{get}
use proxy_py.Dict.Laws.{IsDict}
use proxy_py.Core.Selector.{SelectorKey, Kernel, watched}
use proxy_py.Core.Threadless.{
  Threadless, Events, or_empty, update_conn_pool_events, update_works, update_selector,
}
use proxy_py.Core.Threadless.Agreement.{Agrees, IsWork, events_for, owned_by_pool}
use proxy_py.Core.Threadless.Agreement.Update.{update_works-Agrees, only_pool}
use proxy_py.Core.Threadless.Agreement.Conns.{Turned, update_conn_pool_events-Turned}

works_turned :
    (n o : Bool) (k : Option SelectorKey) (w : ℕ)
    → w ≢ 0
    → o ≡ owned_by_pool k
    → ((n && not o) ≡ true → k ≡ none)
    → events_for w k
      ≡ events_for w
          (if n && not o then some (record { events = 1; owner = 0 }) else if o then none else k)
works_turned true true k w ne owned free = only_pool k (sym owned) w ne
works_turned false true k w ne owned free = only_pool k (sym owned) w ne
works_turned true false k w ne owned free =
    ap (events_for w) (free refl) ∙ ground (arith, ==_iff 0 w)
works_turned false false k w ne owned free = refl

pool_turned :
    (n o : Bool) (k : Option SelectorKey)
    → o ≡ owned_by_pool k
    → (n && not o)
      ≡ owned_by_pool
          (if n && not o then some (record { events = 1; owner = 0 }) else if o then none else k)
pool_turned true true k owned = refl
pool_turned false true k owned = refl
pool_turned true false k owned = refl
pool_turned false false k owned = owned

module _ {W : Type 0} (queue : Option ℕ) (kernel : Kernel) where
  Turned-Agrees :
      (new : List ℤ) (t u : Threadless W) → Turned new t u → Agrees queue t → Agrees queue u
  Turned-Agrees new t u (d, members, watches, free, same_registry) h = record {
    selector-IsDict = d;
    registry-IsDict = subst IsDict (sym same_registry) h.registry-IsDict;
    events-IsDict =
        λ w. subst (λ r. IsDict (or_empty (get w r))) (sym same_registry) (h.events-IsDict w);
    works_agree = λ w work f.
        ap (λ r. get f (or_empty (get w r))) same_registry
        ∙ (h.works_agree w work f
            ∙ rw (watches f) (
                works_turned (is_member f new) (is_member f t.upstream_filenos)
                  (watched f t.selector) w work.0 (h.pool_agrees f) (free f)));
    pool_agrees = λ f.
        members f
        ∙ rw (watches f) (
            pool_turned (is_member f new) (is_member f t.upstream_filenos) (watched f t.selector)
              (h.pool_agrees f));
  }

  update_conn_pool_events-Agrees :
      (new : Option (List ℤ)) (t : Threadless W)
      → Agrees queue t
      → Returns (Agrees queue) (update_conn_pool_events new kernel t)
  unfolding update_conn_pool_events
  update_conn_pool_events-Agrees none t h = h
  update_conn_pool_events-Agrees (some new) t h =
      by_result _ (update_conn_pool_events-Turned kernel new t h.selector-IsDict)
    where
      by_result : (r : Result (Threadless W)) → Returns (Turned new t) r → Returns (Agrees queue) r
      by_result (raise e) k = tt
      by_result (ok u) k = Turned-Agrees new t u k h

  -- In a loop whose works are told from the pool and from the queue of new works, where the registries of the
  -- works, the set of the pool and the selector agree: they agree after an update of the selector, whatever the
  -- works and the pool ask for and whichever works still run, unless the update raises.
  pub update_selector-Agrees :
      (events_of : W → Result Events) (unfinished : List ℕ) (pool : Option (List ℤ))
      (t : Threadless W)
      → Agrees queue t
      → All (λ q. IsWork queue q.0) t.works
      → Returns (Agrees queue) (update_selector events_of kernel unfinished pool t)
  unfolding update_selector
  update_selector-Agrees events_of unfinished pool t h all =
      Returns-bind _ (update_works events_of kernel unfinished t.works t) _ λ u e.
        update_conn_pool_events-Agrees pool u (
          Returns-ok _ _ u (update_works-Agrees queue kernel events_of unfinished t.works t h all)
            e)

  -- A connection of the pool that is watched, and that the pool still wants watched, is not watched any more
  -- after the update, and no longer counts as one that is; unless the update raises.
  pub update_conn_pool_events-drops :
      (new : List ℤ) (t : Threadless W) (f : ℤ)
      → IsDict t.selector
      → is_member f new ≡ true
      → is_member f t.upstream_filenos ≡ true
      → Returns
          (λ u. (watched f u.selector ≡ none) × (is_member f u.upstream_filenos ≡ false))
          (update_conn_pool_events (some new) kernel t)
  update_conn_pool_events-drops new t f h e e' =
      by_result _ (update_conn_pool_events-Turned kernel new t h)
    where
      by_result :
          (r : Result (Threadless W))
          → Returns (Turned new t) r
          → Returns
              (λ u. (watched f u.selector ≡ none) × (is_member f u.upstream_filenos ≡ false))
              r
      by_result (raise x) k = tt
      by_result (ok u) (d, members, watches, rest, same_registry) =
          (watches f ∙ rw e (rw e' refl), members f ∙ rw e (rw e' refl))
