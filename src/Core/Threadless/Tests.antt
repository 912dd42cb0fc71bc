-- ===== src/Core/Threadless/Tests.antt =====
-- Runs of the event loop on concrete input, and instances of its theorems.
use proxy_py.Base.{
  Returns, Returns-ok, ℕ, ◌≡◌, ◌≢◌, refl, ◌||◌, true, false, Option, none, some, List, [], ◌∷◌,
  arith, number_eq, Result, key_error, ok, raise,
}
use proxy_py.Base.Int.{ℤ, pos, negsuc, int_eq}
use proxy_py.Sets.{is_member}
use proxy_py.Dict.{get, remove, contains}
use proxy_py.Core.Selector.{Kernel, SelectorKey, watched}
use proxy_py.Core.Threadless.{
  Threadless, Events, started, update_selector, update_conn_pool_events, cleanup, cleanup_inactive,
}
use proxy_py.Core.Threadless.Agreement.{Agrees, IsWork, mask_of, events_for, started-Agrees}
use proxy_py.Core.Threadless.Agreement.Turn.{update_selector-Agrees, update_conn_pool_events-drops}
use proxy_py.Core.Threadless.Agreement.Cleanup.{cleanup_lem}
use proxy_py.Core.Threadless.Selected.{
  Ready, Filenos, filenos_or_empty, is_readable, is_writable, has_no_queue, selected_events,
  create_tasks, finish_tasks,
}
use proxy_py.Core.Threadless.Selected.Grouped.{
  filenos, without_queue, any_queue, selected_events-filenos,
}

-- The operating system refuses nothing.
abbrev willing : Kernel
willing f mask = ok tt

-- A work is what it asks for. The queue of works has the descriptor 3.
abbrev asks : Events → Result Events
asks events = ok events

abbrev no_works : Threadless Events
no_works = record {
  works = [];
  selector = (3, record { events = 1; owner = 3 }) ∷ [];
  registered_events = [];
  upstream_filenos = [];
}

abbrev one_work : Threadless Events
one_work = record no_works { works = (7, (pos 7, 1) ∷ (pos 8, 3) ∷ (negsuc 0, 1) ∷ []) ∷ [] }

-- The same, after an update with a connection 9 of the pool.
abbrev updated : Threadless Events
updated = record one_work {
  selector =
      (3, record { events = 1; owner = 3 })
      ∷ (7, record { events = 1; owner = 7 })
      ∷ (8, record { events = 3; owner = 7 })
      ∷ (9, record { events = 1; owner = 0 })
      ∷ [];
  registered_events = (7, (pos 7, 1) ∷ (pos 8, 3) ∷ []) ∷ [];
  upstream_filenos = pos 9 ∷ [];
}

started_runs : started willing (some 3) ≡ ok no_works
unfolding started get proxy_py.Core.Selector.register proxy_py.Dict.put
started_runs = refl

update_runs : update_selector asks willing [] (some (pos 9 ∷ [])) one_work ≡ ok updated
unfolding update_selector get proxy_py.Core.Threadless.update_works is_member
    proxy_py.Core.Threadless.update_work_events proxy_py.Core.Threadless.update_events
    proxy_py.Core.Threadless.update_event proxy_py.Core.Threadless.with_registry proxy_py.Dict.put
    proxy_py.Core.Threadless.new_event proxy_py.Core.Threadless.register_event
    proxy_py.Core.Selector.register proxy_py.Core.Threadless.note_event update_conn_pool_events
    proxy_py.Core.Threadless.register_all proxy_py.Sets.difference
    proxy_py.Core.Threadless.unregister_all
update_runs = refl

-- A second update drops the connection, and a third one watches it again.
abbrev dropped : Threadless Events
dropped = record updated {
  selector =
      (3, record { events = 1; owner = 3 })
      ∷ (7, record { events = 1; owner = 7 })
      ∷ (8, record { events = 3; owner = 7 })
      ∷ [];
  upstream_filenos = [];
}

second_update_runs : update_conn_pool_events (some (pos 9 ∷ [])) willing updated ≡ ok dropped
unfolding update_conn_pool_events proxy_py.Core.Threadless.register_all proxy_py.Sets.difference
    is_member proxy_py.Core.Threadless.unregister_all proxy_py.Core.Selector.unregister get remove
second_update_runs = refl

third_update_runs : update_conn_pool_events (some (pos 9 ∷ [])) willing dropped ≡ ok updated
unfolding update_conn_pool_events proxy_py.Core.Threadless.register_all proxy_py.Sets.difference
    is_member proxy_py.Core.Selector.register get proxy_py.Core.Threadless.unregister_all
    proxy_py.Dict.put
third_update_runs = refl

abbrev left : Threadless Events
left = record updated {
  works = [];
  selector = (3, record { events = 1; owner = 3 }) ∷ (9, record { events = 1; owner = 0 }) ∷ [];
  registered_events = [];
}

cleanup_runs : cleanup true 7 updated ≡ ok (left, some 7)
unfolding cleanup proxy_py.Core.Threadless.forget_events get proxy_py.Core.Threadless.unregister_all
    proxy_py.Core.Selector.unregister remove
cleanup_runs = refl

cleanup_inactive_runs : cleanup_inactive true (λ events. true) updated ≡ ok left
unfolding cleanup_inactive proxy_py.Core.Threadless.cleanup_all
    proxy_py.Core.Threadless.inactive_ids cleanup proxy_py.Core.Threadless.forget_events get
    proxy_py.Core.Threadless.unregister_all proxy_py.Core.Selector.unregister remove
cleanup_inactive_runs = refl

-- The task of the pool has failed.
finish_pool_runs : finish_tasks true ((0, raise key_error) ∷ []) updated ≡ raise key_error
unfolding finish_tasks cleanup proxy_py.Core.Threadless.forget_events get
finish_pool_runs = refl

one_work-Agrees : Agrees (some 3) one_work
unfolding started
one_work-Agrees =
    let h =
      Returns-ok (Agrees (some 3)) (started willing (some 3)) no_works
        (started-Agrees Events willing 3 (λ e. ground arith)) started_runs in
    record {
      selector-IsDict = h.selector-IsDict;
      registry-IsDict = h.registry-IsDict;
      events-IsDict = h.events-IsDict;
      works_agree = h.works_agree;
      pool_agrees = h.pool_agrees;
    }

seven_works : IsWork (some 3) 7
seven_works = ((λ e. ground arith), λ e. three e)
  where
    three : ◌≡◌ {A = Option ℕ} (some 3) (some 7) → ⊥
    three e = ground arith

update_selector-Agrees_example :
    Returns (Agrees (some 3)) (update_selector asks willing [] (some (pos 9 ∷ [])) one_work)
update_selector-Agrees_example =
    update_selector-Agrees (some 3) willing asks [] (some (pos 9 ∷ [])) one_work one_work-Agrees
      (seven_works, tt)

updated-Agrees : Agrees (some 3) updated
updated-Agrees = Returns-ok _ _ updated update_selector-Agrees_example update_runs

update_conn_pool_events-drops_example :
    Returns
      (λ u. (watched (pos 9) u.selector ≡ none) × (is_member (pos 9) u.upstream_filenos ≡ false))
      (update_conn_pool_events (some (pos 9 ∷ [])) willing updated)
unfolding is_member
update_conn_pool_events-drops_example =
    update_conn_pool_events-drops (some 3) willing (pos 9 ∷ []) updated (pos 9)
      updated-Agrees.selector-IsDict refl refl

cleanup_lem_example :
    (u : Threadless Events) × (cleanup true 7 updated ≡ ok (u, some 7))
    × Agrees (some 3) u
    × ((f : ℤ) → events_for 7 (watched f u.selector) ≡ none)
    × ((v : ℕ) (f : ℤ) → v ≢ 7 → mask_of v f u ≡ mask_of v f updated)
    × (u.works ≡ remove 7 updated.works)
unfolding get
cleanup_lem_example = cleanup_lem (some 3) true 7 updated updated-Agrees seven_works refl

-- The queue, and a work that can be written and read.
abbrev ready : List Ready
ready =
    record { fileno = 3; owner = 3; mask = 1 }
    ∷ record { fileno = 7; owner = 7; mask = 2 }
    ∷ record { fileno = 8; owner = 7; mask = 3 }
    ∷ []

selected_runs : selected_events (some 3) ready ≡ ok ((7, (8 ∷ [], 7 ∷ 8 ∷ [])) ∷ [], true)
unfolding selected_events proxy_py.Core.Threadless.Selected.select_loop
    proxy_py.Core.Threadless.Selected.select_one proxy_py.Dict.put get
selected_runs = refl

tasks_run : create_tasks true updated.works ((7, (8 ∷ [], 7 ∷ 8 ∷ [])) ∷ []) ≡ ok (7 ∷ [])
unfolding create_tasks get
tasks_run = refl

selected_events-filenos_example :
    (by_ids : List (ℕ × Filenos)) × (selected_events (some 3) ready
      ≡ ok (by_ids, has_no_queue (some 3) || any_queue (some 3) ready))
    × ((w : ℕ)
        → filenos_or_empty (get w by_ids) ≡ (
          filenos is_readable w (without_queue (some 3) ready),
          filenos is_writable w (without_queue (some 3) ready),
        ))
selected_events-filenos_example =
    selected_events-filenos (some 3) ready ((λ e. refl), ((λ e. e), ((λ e. refl), tt)))
