-- ===== src/Core/Threadless.antt =====
-- The event loop of `Threadless`, in proxy/core/work/threadless.py: which descriptors are watched, for
-- whom, and who hears of the events.
pub mod Agreement
pub mod Selected
mod Tests
use proxy_py.Base.{
  ℕ, Bool, Option, none, some, List, [], ◌∷◌, map, ◌==◌, if◌then◌else◌, number_eq, ◌>>=◌, ◌>>◌,
  guard, Result, key_error, ok, raise,
}
use proxy_py.Base.Int.{equal_int, int_eq, ℤ, pos, negsuc}
use proxy_py.Sets.{is_member, without, difference}
use proxy_py.Dict.{get, put, remove, contains}
use proxy_py.Core.Selector.{Selector, Kernel, register, modify, unregister}

-- The events a work is registered for, by descriptor: `SelectableEvents`.
abbrev pub Events : Type 0
Events = List (ℤ × ℕ)

-- `W` is the type of the works.
pub record Threadless (W : Type 0) : Type 0 where
  pub works : List (ℕ × W)
  pub selector : Selector
  pub registered_events : List (ℕ × Events)
  pub upstream_filenos : List ℤ

abbrev pub or_empty : Option Events → Events
or_empty none = []
or_empty (some events) = events

abbrev pub found_in {ℓ} : {A : Type ℓ} → Option A → Result A
found_in none = raise key_error
found_in (some a) = ok a

unfoldable pub register_all : Kernel → List ℤ → Selector → Result Selector
register_all kernel [] s = ok s
register_all kernel (fileno ∷ filenos) s = do
  s' ← register kernel fileno 1 0 s
  register_all kernel filenos s'

unfoldable pub unregister_all : List ℤ → Selector → Result Selector
unregister_all [] s = ok s
unregister_all (fileno ∷ filenos) s = do s' ← unregister fileno s; unregister_all filenos s'

-- A `Threadless` whose loop is about to run: the queue of works is watched, if there is one.
unfoldable pub started : {W : Type 0} → Kernel → Option ℕ → Result (Threadless W)
started kernel none =
    ok (record { works = []; selector = []; registered_events = []; upstream_filenos = [] })
started kernel (some wqfileno) = do
  s ← register kernel (pos wqfileno) 1 wqfileno []
  ok (record { works = []; selector = s; registered_events = []; upstream_filenos = [] })

module _ {W : Type 0} where
  -- `self.registered_events_by_work_ids[work_id][fileno] = mask`
  unfoldable pub note_event : ℕ → ℤ → ℕ → Threadless W → Threadless W
  note_event w fileno mask t = record t {
    registered_events =
        put w (put fileno mask (or_empty (get w t.registered_events))) t.registered_events;
  }

  -- `selector.modify`, and the note of it
  unfoldable pub modify_event : Kernel → ℕ → ℤ → ℕ → Threadless W → Result (Threadless W)
  modify_event kernel w fileno mask t = do
    s ← modify kernel fileno mask w t.selector
    ok (note_event w fileno mask (record t { selector = s }))

  abbrev pub unless_key_error : Threadless W → Result (Threadless W) → Result (Threadless W)
  unless_key_error t (raise key_error) = ok t
  unless_key_error t r = r

  -- `selector.register`, and the note of it; a `KeyError` is only logged.
  unfoldable pub register_event : Kernel → ℕ → ℤ → ℕ → Threadless W → Result (Threadless W)
  register_event kernel w fileno mask t = unless_key_error t do
    s ← register kernel fileno mask w t.selector
    ok (note_event w fileno mask (record t { selector = s }))

  -- A descriptor that is not registered for the work yet.
  unfoldable pub new_event : Kernel → ℕ → ℤ → ℕ → Threadless W → Result (Threadless W)
  new_event kernel w fileno mask t =
      if is_member fileno t.upstream_filenos
      then (modify_event kernel w fileno mask t >>= λ u.
          ok (record u { upstream_filenos = without fileno u.upstream_filenos }))
      else if equal_int fileno (negsuc 0)
      then ok t
      else register_event kernel w fileno mask t

  -- One descriptor of `_update_work_events`.
  unfoldable pub update_event : Kernel → ℕ → ℤ → ℕ → Threadless W → Result (Threadless W)
  update_event kernel w fileno mask t = elim (get fileno (or_empty (get w t.registered_events))) [
    | some oldmask ↦ if mask == oldmask then ok t else modify_event kernel w fileno mask t
    | none ↦ new_event kernel w fileno mask t
  ]

  -- The work has a registry from its first descriptor on.
  unfoldable pub with_registry : ℕ → Threadless W → Threadless W
  with_registry w t =
      if contains w t.registered_events
      then t
      else record t { registered_events = put w [] t.registered_events }

  unfoldable pub update_events : Kernel → ℕ → Events → Threadless W → Result (Threadless W)
  update_events kernel w [] t = ok t
  update_events kernel w ((fileno, mask) ∷ events) t = do
    u ← update_event kernel w fileno mask (with_registry w t)
    update_events kernel w events u

  -- `_update_work_events`; `get_events` of a work may raise.
  unfoldable pub update_work_events :
      (W → Result Events) → Kernel → ℕ → Threadless W → Result (Threadless W)
  update_work_events events_of kernel w t = do
    work ← found_in (get w t.works)
    events ← events_of work
    update_events kernel w events t

  -- `_update_conn_pool_events`, from the descriptors that the pool gives, if there is one; the pool asks
  -- to read all of them.
  unfoldable pub update_conn_pool_events :
      Option (List ℤ) → Kernel → Threadless W → Result (Threadless W)
  update_conn_pool_events none kernel t = ok t
  update_conn_pool_events (some new) kernel t = do
    s ← register_all kernel (difference new t.upstream_filenos) t.selector
    s' ← unregister_all (difference t.upstream_filenos (difference new t.upstream_filenos)) s
    ok (record t { selector = s'; upstream_filenos = difference new t.upstream_filenos })

  unfoldable pub update_works :
      (W → Result Events) → Kernel → List ℕ → List (ℕ × W) → Threadless W → Result (Threadless W)
  update_works events_of kernel unfinished [] t = ok t
  update_works events_of kernel unfinished ((w, work) ∷ works) t = do
    u ← if is_member w unfinished then ok t else update_work_events events_of kernel w t
    update_works events_of kernel unfinished works u

  -- `_update_selector`; `unfinished` are the works with a task that runs.
  unfoldable pub update_selector :
      (W → Result Events) → Kernel → List ℕ → Option (List ℤ) → Threadless W → Result (Threadless W)
  update_selector events_of kernel unfinished pool t = do
    u ← update_works events_of kernel unfinished t.works t
    update_conn_pool_events pool kernel u

  -- The part of `_cleanup` about the selector.
  unfoldable pub forget_events : ℕ → Threadless W → Result (Threadless W)
  forget_events w t = elim (get w t.registered_events) [
    | none ↦ ok t
    | some events ↦ unregister_all (map (λ q. q.0) events) t.selector >>= λ s.
        ok (record t { selector = s; registered_events = remove w t.registered_events })
  ]

  -- `_cleanup`: what `shutdown` raises is only logged. The descriptor of the work is closed where works
  -- come over a queue.
  unfoldable pub cleanup : Bool → ℕ → Threadless W → Result (Threadless W × Option ℕ)
  cleanup has_queue w t = do
    u ← forget_events w t
    guard (contains w u.works) key_error
    ok (record u { works = remove w u.works }, if has_queue then some w else none)

  unfoldable pub cleanup_all : Bool → List ℕ → Threadless W → Result (Threadless W)
  cleanup_all has_queue [] t = ok t
  cleanup_all has_queue (w ∷ ws) t = do
    (u, closed) ← cleanup has_queue w t
    cleanup_all has_queue ws u

  unfoldable pub inactive_ids : (W → Bool) → List (ℕ × W) → List ℕ
  inactive_ids is_inactive [] = []
  inactive_ids is_inactive ((w, work) ∷ works) =
      let rest = inactive_ids is_inactive works in if is_inactive work then w ∷ rest else rest

  -- `_cleanup_inactive`
  unfoldable pub cleanup_inactive : Bool → (W → Bool) → Threadless W → Result (Threadless W)
  cleanup_inactive has_queue is_inactive t =
      cleanup_all has_queue (inactive_ids is_inactive t.works) t
