-- ===== src/Http/Handler/Events/Union.antt =====
-- The events are those of the client and those of the plugin, and no others.
use proxy_py.Base.{
  ◌≡◌, refl, ap, ◌∙◌, inl, inr, Bool, true, false, ◌&&◌, ◌||◌, some, List, [], ◌∷◌, arith,
  if◌then◌else◌, Bool-cases, ok,
}
use proxy_py.Base.Int.{equal_int, equal_int_iff, int_eq, ℤ}
use proxy_py.Sets.{is_member}
use proxy_py.Dict.{get, put}
use proxy_py.Dict.Laws.{get-put}
use proxy_py.Core.Server
use proxy_py.Core.Server.{Handler}
use proxy_py.Http.Handler.Events.{
  EventDict, or_nothing, add_reads, add_writes, client_events, get_events,
}

abbrev pub waits_read : ℤ → EventDict → Bool
waits_read f events = (or_nothing (get f events)).read

abbrev pub waits_write : ℤ → EventDict → Bool
waits_write f events = (or_nothing (get f events)).write

-- One more descriptor to read.
put-read :
    (f g : ℤ) (events : EventDict)
    → (waits_read g (put f (record (or_nothing (get f events)) { read = true }) events)
        ≡ (equal_int f g || waits_read g events))
      × (waits_write g (put f (record (or_nothing (get f events)) { read = true }) events)
          ≡ waits_write g events)
put-read f g events =
    rw
      (
        get-put f g (record (or_nothing (get f events)) { read = true }) events,
        waits_read,
        waits_write,
      )
      (elim (Bool-cases (equal_int f g)) [
        | inl e ↦ rw e (refl, ap (λ k. waits_write k events) ((equal_int_iff f g).0 e))
        | inr e ↦ rw e (refl, refl)
      ])

put-write :
    (f g : ℤ) (events : EventDict)
    → (waits_write g (put f (record (or_nothing (get f events)) { write = true }) events)
        ≡ (equal_int f g || waits_write g events))
      × (waits_read g (put f (record (or_nothing (get f events)) { write = true }) events)
          ≡ waits_read g events)
put-write f g events =
    rw
      (
        get-put f g (record (or_nothing (get f events)) { write = true }) events,
        waits_read,
        waits_write,
      )
      (elim (Bool-cases (equal_int f g)) [
        | inl e ↦ rw e (refl, ap (λ k. waits_read k events) ((equal_int_iff f g).0 e))
        | inr e ↦ rw e (refl, refl)
      ])

move : (a b c : Bool) → (a || (b || c)) ≡ ((b || a) || c)
move a b c = ground arith

add_reads-waits :
    (fs : List ℤ) (g : ℤ) (events : EventDict)
    → (waits_read g (add_reads fs events) ≡ (is_member g fs || waits_read g events))
      × (waits_write g (add_reads fs events) ≡ waits_write g events)
unfolding add_reads is_member
add_reads-waits [] g events = (refl, refl)
add_reads-waits (f ∷ fs) g events =
    let (r, w) =
      add_reads-waits fs g (put f (record (or_nothing (get f events)) { read = true }) events) in
    let (r', w') = put-read f g events in
    (r ∙ rw r' (move (is_member g fs) (equal_int f g) (waits_read g events)), w ∙ w')

add_writes-waits :
    (fs : List ℤ) (g : ℤ) (events : EventDict)
    → (waits_write g (add_writes fs events) ≡ (is_member g fs || waits_write g events))
      × (waits_read g (add_writes fs events) ≡ waits_read g events)
unfolding add_writes is_member
add_writes-waits [] g events = (refl, refl)
add_writes-waits (f ∷ fs) g events =
    let (w, r) =
      add_writes-waits fs g (put f (record (or_nothing (get f events)) { write = true }) events) in
    let (w', r') = put-write f g events in
    (w ∙ rw w' (move (is_member g fs) (equal_int f g) (waits_write g events)), r ∙ r')

single :
    (client f : ℤ) (r w : Bool)
    → ((or_nothing
          (get f (if r || w then (client, record { read = r; write = w }) ∷ [] else []))).read
        ≡ (equal_int client f && r))
      × ((or_nothing
            (get f (if r || w then (client, record { read = r; write = w }) ∷ [] else []))).write
          ≡ (equal_int client f && w))
unfolding get
single client f true w = elim (Bool-cases (equal_int client f)) [
  | inl e ↦ rw e (refl, refl)
  | inr e ↦ rw e (refl, refl)
]
single client f false true = elim (Bool-cases (equal_int client f)) [
  | inl e ↦ rw e (refl, refl)
  | inr e ↦ rw e (refl, refl)
]
single client f false false = elim (Bool-cases (equal_int client f)) [
  | inl e ↦ rw e (refl, refl)
  | inr e ↦ rw e (refl, refl)
]

client_lem :
    (client : ℤ) (h : Handler) (f : ℤ)
    → (waits_read f (client_events client h) ≡ (equal_int client f && (Server.get_events h).read))
      × (waits_write f (client_events client h)
          ≡ (equal_int client f && (Server.get_events h).write))
unfolding client_events
client_lem client h f = single client f (Server.get_events h).read (Server.get_events h).write

-- With a plugin that gives its descriptors, the handler waits to read from what the plugin reads and from
-- the client if its server does, to write likewise, and for nothing else.
pub get_events-union :
    (client : ℤ) (h : Handler) (reads writes : List ℤ)
    → (events : EventDict) × (get_events client h (some (ok (reads, writes))) ≡ ok events)
      × ((f : ℤ)
          → (waits_read f events
              ≡ (is_member f reads || (equal_int client f && (Server.get_events h).read)))
            × (waits_write f events
                ≡ (is_member f writes || (equal_int client f && (Server.get_events h).write))))
unfolding get_events
get_events-union client h reads writes = (
  add_writes writes (add_reads reads (client_events client h)),
  refl,
  λ f.
      let (w, r) = add_writes-waits writes f (add_reads reads (client_events client h)) in
      let (r', w') = add_reads-waits reads f (client_events client h) in
      let (c, c') = client_lem client h f in
      (
        r ∙ (r' ∙ ap (λ b. is_member f reads || b) c),
        w ∙ ap (λ b. is_member f writes || b) (w' ∙ c'),
      ),
)
