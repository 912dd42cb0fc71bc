-- ===== src/Core/Threadless/Selected/Grouped.antt =====
-- Every work hears of its own events, of all of them, in their order.
use proxy_py.Base.{
  ℕ, ◌≡◌, refl, sym, ap, ◌∙◌, inl, inr, Bool, true, false, not, ◌&&◌, ◌||◌, Option, none, some,
  List, [], ◌∷◌, ◌++◌, append_assoc, append-nil, arith, ◌==◌, if◌then◌else◌, ==_iff, Bool-cases,
  number_eq, All, Result, ok,
}
use proxy_py.Dict.{get, put}
use proxy_py.Dict.Laws.{get-put}
use proxy_py.Core.Threadless.Selected.{
  Ready, Filenos, is_readable, is_writable, filenos_or_empty, append_if, add_ready, is_queue,
  select_one, select_loop, has_no_queue, selected_events,
}

-- The descriptors among the events that are a work's own and pass a test.
pub filenos : (Ready → Bool) → ℕ → List Ready → List ℕ
filenos test w [] = []
filenos test w (e ∷ events) =
    let rest = filenos test w events in if e.owner == w && test e then e.fileno ∷ rest else rest

-- The events without the first one of the queue.
pub without_queue : Option ℕ → List Ready → List Ready
without_queue wqfileno [] = []
without_queue wqfileno (e ∷ events) =
    let rest = without_queue wqfileno events in if is_queue wqfileno e then events else e ∷ rest

pub any_queue : Option ℕ → List Ready → Bool
any_queue wqfileno [] = false
any_queue wqfileno (e ∷ events) = is_queue wqfileno e || any_queue wqfileno events

-- What is left to hand out, once the queue has been seen.
left_over : Bool → Option ℕ → List Ready → List Ready
left_over new_work wqfileno events = if new_work then events else without_queue wqfileno events

Grouped :
    Option ℕ → Bool → List (ℕ × Filenos) → List Ready → Result (List (ℕ × Filenos) × Bool) → Type 0
Grouped wqfileno new_work by_ids events r =
    (out : List (ℕ × Filenos)) × (r ≡ ok (out, new_work || any_queue wqfileno events))
    × ((w : ℕ)
        → ((filenos_or_empty (get w out)).0
            ≡ (filenos_or_empty (get w by_ids)).0
              ++ filenos is_readable w (left_over new_work wqfileno events))
          × ((filenos_or_empty (get w out)).1
              ≡ (filenos_or_empty (get w by_ids)).1
                ++ filenos is_writable w (left_over new_work wqfileno events)))

abbrev pub QueueReads : Option ℕ → List Ready → Type 0
QueueReads wqfileno events = All (λ e. is_queue wqfileno e ≡ true → is_readable e ≡ true) events

one_more :
    (b : Bool) (fd : ℕ) (fds rest : List ℕ)
    → append_if b fd fds ++ rest ≡ fds ++ (if b then fd ∷ rest else rest)
one_more true fd fds rest = append_assoc fds (fd ∷ []) rest
one_more false fd fds rest = refl

-- An event that is handed out stands after those before it.
own_event :
    (w : ℕ) (e : Ready) (by_ids : List (ℕ × Filenos)) (rest : List Ready)
    → ((filenos_or_empty
            (get w (put e.owner (add_ready e (filenos_or_empty (get e.owner by_ids))) by_ids))).0
          ++ filenos is_readable w rest
        ≡ (filenos_or_empty (get w by_ids)).0 ++ filenos is_readable w (e ∷ rest))
      × ((filenos_or_empty
              (get w (put e.owner (add_ready e (filenos_or_empty (get e.owner by_ids))) by_ids))).1
            ++ filenos is_writable w rest
          ≡ (filenos_or_empty (get w by_ids)).1 ++ filenos is_writable w (e ∷ rest))
unfolding filenos
own_event w e by_ids rest =
    rw (get-put e.owner w (add_ready e (filenos_or_empty (get e.owner by_ids))) by_ids)
      (elim (Bool-cases (e.owner == w)) [
        | inr n ↦ rw n (refl, refl)
        | inl y ↦ rw y (
            rw ((==_iff e.owner w).0 y) (
              one_more (is_readable e) e.fileno (filenos_or_empty (get w by_ids)).0
                  (filenos is_readable w rest),
              one_more (is_writable e) e.fileno (filenos_or_empty (get w by_ids)).1
                  (filenos is_writable w rest),
            ))
      ])

-- The loop goes on with an event that is not the queue's.
hand_out :
    (wqfileno : Option ℕ) (new_work : Bool) (by_ids : List (ℕ × Filenos)) (e : Ready)
    (events : List Ready) (r : Result (List (ℕ × Filenos) × Bool))
    → (not new_work && is_queue wqfileno e) ≡ false
    → Grouped wqfileno new_work
        (put e.owner (add_ready e (filenos_or_empty (get e.owner by_ids))) by_ids)
        events
        r
    → Grouped wqfileno new_work by_ids (e ∷ events) r
unfolding Grouped left_over any_queue without_queue
hand_out wqfileno new_work by_ids e events r h (out, q, groups) = (
  out,
  q ∙ ap (λ b. ok (out, b)) (ground arith),
  λ w.
      let (reads, writes) = groups w in
      let (own_reads, own_writes) = own_event w e by_ids (left_over new_work wqfileno events) in
      (
        reads
            ∙ own_reads
            ∙ ap (λ l. (filenos_or_empty (get w by_ids)).0 ++ filenos is_readable w l) same_left,
        writes
            ∙ own_writes
            ∙ ap (λ l. (filenos_or_empty (get w by_ids)).1 ++ filenos is_writable w l) same_left,
      ),
)
  where
    same_left : e ∷ left_over new_work wqfileno events ≡ left_over new_work wqfileno (e ∷ events)
    same_left = ground arith

take_queue :
    (wqfileno : Option ℕ) (by_ids : List (ℕ × Filenos)) (e : Ready) (events : List Ready)
    (r : Result (List (ℕ × Filenos) × Bool))
    → is_queue wqfileno e ≡ true
    → Grouped wqfileno true by_ids events r
    → Grouped wqfileno false by_ids (e ∷ events) r
unfolding Grouped left_over any_queue without_queue
take_queue wqfileno by_ids e events r y (out, q, groups) = (out, rw y q, λ w. rw y (groups w))

select_loop-Grouped :
    (wqfileno : Option ℕ) (new_work : Bool) (by_ids : List (ℕ × Filenos)) (events : List Ready)
    → QueueReads wqfileno events
    → Grouped wqfileno new_work by_ids events (select_loop wqfileno new_work by_ids events)
unfolding select_loop select_one Grouped filenos left_over any_queue without_queue
select_loop-Grouped wqfileno true by_ids [] h =
    (by_ids, refl, λ w. (sym (append-nil _), sym (append-nil _)))
select_loop-Grouped wqfileno false by_ids [] h =
    (by_ids, refl, λ w. (sym (append-nil _), sym (append-nil _)))
select_loop-Grouped wqfileno true by_ids (e ∷ events) h =
    hand_out wqfileno true by_ids e events _ refl (select_loop-Grouped wqfileno true _ events h.1)
select_loop-Grouped wqfileno false by_ids (e ∷ events) h = elim (Bool-cases (is_queue wqfileno e)) [
  | inr n ↦
      hand_out wqfileno false by_ids e events _ n
        (rw n (select_loop-Grouped wqfileno false _ events h.1))
  | inl y ↦
      take_queue wqfileno by_ids e events _ y
        (rw y (rw (h.0 y) (select_loop-Grouped wqfileno true by_ids events h.1)))
]

pair : {q : Filenos} {a b : List ℕ} → q.0 ≡ a → q.1 ≡ b → q ≡ (a, b)
pair e e' = cc

without_no_queue : (events : List Ready) → without_queue none events ≡ events
unfolding without_queue
without_no_queue [] = refl
without_no_queue (e ∷ events) = ap (λ l. e ∷ l) (without_no_queue events)

-- Where the queue of new works is only ever ready to read: the call returns. It says that there may be new
-- work if there is no queue or an event of the queue, and every work gets the descriptors of its own events, those that can
-- be read and those that can be written, in their order; of the events, only the first of the queue is taken out.
pub selected_events-filenos :
    (wqfileno : Option ℕ) (events : List Ready)
    → QueueReads wqfileno events
    → (by_ids : List (ℕ × Filenos)) × (selected_events wqfileno events
        ≡ ok (by_ids, has_no_queue wqfileno || any_queue wqfileno events))
      × ((w : ℕ)
          → filenos_or_empty (get w by_ids) ≡ (
            filenos is_readable w (without_queue wqfileno events),
            filenos is_writable w (without_queue wqfileno events),
          ))
unfolding selected_events Grouped get left_over
selected_events-filenos none events h =
    let (by_ids, e, groups) = select_loop-Grouped none true [] events h in
    (by_ids, e, λ w. rw (without_no_queue events) (pair (groups w).0 (groups w).1))
selected_events-filenos (some f) events h =
    let (by_ids, e, groups) = select_loop-Grouped (some f) false [] events h in
    (by_ids, e, λ w. pair (groups w).0 (groups w).1)
