-- ===== src/Core/Threadless/Selected.antt =====
-- The events of one turn of `Threadless`, in proxy/core/work/threadless.py, handed out to the works, and
-- the end of the works that are done.
pub mod Grouped
use proxy_py.Base.{
  ℕ, ◌/◌, ◌%◌, Bool, true, false, not, ◌&&◌, Option, none, some, List, [], ◌∷◌, ◌++◌, ◌==◌,
  if◌then◌else◌, number_eq, ◌>>=◌, ◌>>◌, guard, Result, assertion_error, key_error, ok, raise,
}
use proxy_py.Dict.{get, put, contains}
use proxy_py.Core.Threadless.{Threadless, cleanup}

-- What `select` gives for a descriptor: whose it is, and what it is ready for.
pub record Ready : Type 0 where
  pub fileno : ℕ
  pub owner : ℕ
  pub mask : ℕ

-- Readables and writables.
abbrev pub Filenos : Type 0
Filenos = List ℕ × List ℕ

-- `mask & EVENT_READ` and `mask & EVENT_WRITE`
abbrev pub is_readable : Ready → Bool
is_readable e = e.mask % 2 == 1

abbrev pub is_writable : Ready → Bool
is_writable e = e.mask / 2 % 2 == 1

abbrev pub filenos_or_empty : Option Filenos → Filenos
filenos_or_empty none = ([], [])
filenos_or_empty (some q) = q

abbrev pub append_if : Bool → ℕ → List ℕ → List ℕ
append_if b fd fds = if b then fds ++ fd ∷ [] else fds

abbrev pub add_ready : Ready → Filenos → Filenos
add_ready e q = (append_if (is_readable e) e.fileno q.0, append_if (is_writable e) e.fileno q.1)

abbrev pub is_queue : Option ℕ → Ready → Bool
is_queue none e = false
is_queue (some wqfileno) e = e.fileno == wqfileno

unfoldable pub select_one :
    Option ℕ → Bool → List (ℕ × Filenos) → Ready → Result (List (ℕ × Filenos) × Bool)
select_one wqfileno new_work by_ids e =
    if not new_work && is_queue wqfileno e
    then (guard (is_readable e) assertion_error >> ok (by_ids, true))
    else ok (put e.owner (add_ready e (filenos_or_empty (get e.owner by_ids))) by_ids, new_work)

unfoldable pub select_loop :
    Option ℕ → Bool → List (ℕ × Filenos) → List Ready → Result (List (ℕ × Filenos) × Bool)
select_loop wqfileno new_work by_ids [] = ok (by_ids, new_work)
select_loop wqfileno new_work by_ids (e ∷ events) = do
  (by_ids', new_work') ← select_one wqfileno new_work by_ids e
  select_loop wqfileno new_work' by_ids' events

abbrev pub has_no_queue : Option ℕ → Bool
has_no_queue none = true
has_no_queue (some wqfileno) = false

-- `_selected_events`, from the events that `select` gives: without a queue, there may always be new work.
unfoldable pub selected_events : Option ℕ → List Ready → Result (List (ℕ × Filenos) × Bool)
selected_events wqfileno events = select_loop wqfileno (has_no_queue wqfileno) [] events

-- `_create_tasks`: the works whose `handle_events` starts, and the pool's for zero.
unfoldable pub create_tasks :
    {W : Type 0} → Bool → List (ℕ × W) → List (ℕ × Filenos) → Result (List ℕ)
create_tasks has_pool works [] = ok []
create_tasks has_pool works ((w, q) ∷ by_ids) = do
  rest ← create_tasks has_pool works by_ids
  if w == 0 then guard has_pool assertion_error else guard (contains w works) key_error
  ok (w ∷ rest)

-- A task that raises tears its work down.
abbrev pub teardown_of : Result Bool → Bool
teardown_of (raise e) = true
teardown_of (ok teardown) = teardown

-- The end of `_run_once`: the tasks that have finished, with their outcomes.
unfoldable pub finish_tasks :
    {W : Type 0} → Bool → List (ℕ × Result Bool) → Threadless W → Result (Threadless W)
finish_tasks has_queue [] t = ok t
finish_tasks has_queue ((w, outcome) ∷ finished) t = do
  u ← if teardown_of outcome then (cleanup has_queue w t >>= λ (u, closed). ok u) else ok t
  finish_tasks has_queue finished u
