-- ===== src/Core/Dispatcher/Membership.antt =====
-- Who is subscribed after a subscription, and after it is given up.
use proxy_py.Base.{
  ◌≡◌, refl, sym, ap, ◌∙◌, inl, inr, Bool, true, false, Option, none, some, List, if◌then◌else◌,
  same, same_iff, Bool-cases, bytes_eq, Bytes, Result, broken_pipe, eof, ok, raise,
}
use proxy_py.Dict.{get, put, remove}
use proxy_py.Dict.Laws.{IsDict, get-put, get-remove, put-IsDict}
use proxy_py.Core.Dispatcher.{
  Sent, subscribe, unsubscribe, subscribed, unsubscribed, Dispatcher, handle_event, acknowledge,
  farewell, close_and_delete,
}

module _ {Conn : Type 0} (send : Conn → Sent → Result Conn) where
  -- The connection that an id has after its subscription is acknowledged, or is not.
  abbrev pub acknowledged : Result Conn → Option Conn
  acknowledged (ok c) = some c
  acknowledged (raise e) = none

  abbrev pub Finds : (Bytes → Option Conn) → Result (Dispatcher Conn) → Type 0
  Finds f (raise e) = Unit
  Finds f (ok d) = (j : Bytes) → get j d.subscribers ≡ f j

  abbrev pub updated : Bytes → Option Conn → Dispatcher Conn → Bytes → Option Conn
  updated k c d j = if same k j then c else get j d.subscribers

  put-put :
      (k j : Bytes) (c c' : Conn) (subs : List (Bytes × Conn))
      → get j (put k c' (put k c subs)) ≡ (if same k j then some c' else get j subs)
  put-put k j c c' subs =
      rw (get-put k j c' (put k c subs)) (rw (get-put k j c subs) (same_else (same k j)))
    where
      same_else :
          (b : Bool)
          → (if b then some c' else (if b then some c else get j subs))
            ≡ (if b then some c' else get j subs)
      same_else true = refl
      same_else false = refl

  remove-put :
      (k j : Bytes) (c : Conn) (subs : List (Bytes × Conn))
      → IsDict subs
      → get j (remove k (put k c subs)) ≡ (if same k j then none else get j subs)
  remove-put k j c subs h =
      rw (get-remove k j (put k c subs) (put-IsDict k c subs h))
        (rw (get-put k j c subs) (same_else (same k j)))
    where
      same_else :
          (b : Bool)
          → (if b then none else (if b then some c else get j subs))
            ≡ (if b then none else get j subs)
      same_else true = refl
      same_else false = refl

  acknowledge-Finds :
      (k : Bytes) (c : Conn) (d : Dispatcher Conn)
      → IsDict d.subscribers
      → (r : Result Conn)
      → Finds
          (updated k (acknowledged r) d)
          (acknowledge send k c (record d { subscribers = put k c d.subscribers }) r)
  unfolding acknowledge close_and_delete
  acknowledge-Finds k c d h (ok c') = λ j. put-put k j c c' d.subscribers
  acknowledge-Finds k c d h (raise broken_pipe) = λ j. remove-put k j c d.subscribers h
  acknowledge-Finds k c d h (raise eof) = λ j. remove-put k j c d.subscribers h
  acknowledge-Finds k c d h (raise _) = tt

  farewell-Finds :
      (k : Bytes) (c : Conn) (d : Dispatcher Conn)
      → IsDict d.subscribers
      → (r : Result Conn) → Finds (updated k none d) (farewell send k c d r)
  unfolding farewell close_and_delete
  farewell-Finds k c d h (ok c') = λ j. get-remove k j d.subscribers h
  farewell-Finds k c d h (raise broken_pipe) = λ j. get-remove k j d.subscribers h
  farewell-Finds k c d h (raise eof) = λ j. get-remove k j d.subscribers h
  farewell-Finds k c d h (raise _) = tt

  unknown :
      (k j : Bytes) (d : Dispatcher Conn)
      → get k d.subscribers ≡ none
      → get j d.subscribers ≡ updated k none d j
  unknown k j d e = elim (Bool-cases (same k j)) [
    | inl s ↦ rw s (ap (λ i. get i d.subscribers) (sym ((same_iff k j).0 s)) ∙ e)
    | inr s ↦ rw s refl
  ]

  -- Where no id stands twice, and unless `send` raises something else than a broken pipe or an end of
  -- file: a subscription that is acknowledged stands under its id, one whose acknowledgement cannot be sent
  -- is dropped, and an id that unsubscribes is not there any more. The other ids find what they did.
  pub handle_event-Finds :
      (k : Bytes) (c : Conn) (d : Dispatcher Conn)
      → IsDict d.subscribers
      → Finds (updated k (acknowledged (send c subscribed)) d) (handle_event send (subscribe k c) d)
        × Finds (updated k none d) (handle_event send (unsubscribe k) d)
  unfolding handle_event
  handle_event-Finds k c d h =
      (acknowledge-Finds k c d h (send c subscribed), leave (get k d.subscribers) refl)
    where
      leave :
          (o : Option Conn)
          → get k d.subscribers ≡ o
          → Finds
              (updated k none d)
              (elim o [ none ↦ ok d | some c' ↦ farewell send k c' d (send c' unsubscribed) ])
      leave none e = λ j. unknown k j d e
      leave (some c') e = farewell-Finds k c' d h (send c' unsubscribed)
