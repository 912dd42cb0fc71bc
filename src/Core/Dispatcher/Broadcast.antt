-- ===== src/Core/Dispatcher/Broadcast.antt =====
-- A broadcast reaches every subscriber that can be reached, and drops the others.
use proxy_py.Base.{
  ◌≡◌, refl, sym, ap, ◌∙◌, ◌≢◌, inl, inr, List, [], ◌∷◌, ◌++◌, same, same_iff, same_refl,
  Bool-cases, bytes_eq, Bytes, All, Result, broken_pipe, ok, raise,
}
use proxy_py.Dict.{remove}
use proxy_py.Dict.Laws.{IsDict, Absent}
use proxy_py.Core.Dispatcher.{Sent, Dispatcher, send_each, delete_each, broadcast}

module _ {Conn : Type 0} (send : Conn → Sent → Result Conn) where
  -- The pipe takes the message, or is broken.
  abbrev pub IsSent : Result Conn → Type 0
  IsSent (ok c) = Unit
  IsSent (raise broken_pipe) = Unit
  IsSent (raise e) = ⊥

  unfoldable pub reached_one : Bytes → Result Conn → List (Bytes × Conn) → List (Bytes × Conn)
  reached_one k (ok c) subs = (k, c) ∷ subs
  reached_one k (raise e) subs = subs

  -- The subscribers that got the message, in order, after they got it.
  unfoldable pub reached : Sent → List (Bytes × Conn) → List (Bytes × Conn)
  unfolding reached_one
  reached ev [] = []
  reached ev ((k, c) ∷ subs) = reached_one k (send c ev) (reached ev subs)

  unfoldable pub lost_one : Conn → Result Conn → List Conn → List Conn
  lost_one c (ok c') cs = cs
  lost_one c (raise e) cs = c ∷ cs

  -- The connections of the others.
  unfoldable pub lost : Sent → List (Bytes × Conn) → List Conn
  unfolding lost_one
  lost ev [] = []
  lost ev ((k, c) ∷ subs) = lost_one c (send c ev) (lost ev subs)

  -- Ids that are not to be deleted.
  abbrev AbsentId : Bytes → List Bytes → Type 0
  AbsentId k ks = All (λ j. j ≢ k) ks

  abbrev Loop : Sent → List (Bytes × Conn) → Type 0
  Loop ev subs =
      (all : List (Bytes × Conn)) × (broken : List Bytes) × (send_each send ev subs
        ≡ ok (all, broken, lost ev subs))
      × (delete_each broken all ≡ reached ev subs)
      × ((k : Bytes) → Absent k subs → AbsentId k broken)

  delete-keeps :
      (k : Bytes) (c : Conn) (ks : List Bytes) (subs : List (Bytes × Conn))
      → AbsentId k ks
      → delete_each ks ((k, c) ∷ subs) ≡ (k, c) ∷ delete_each ks subs
  unfolding delete_each remove
  delete-keeps k c [] subs h = refl
  delete-keeps k c (j ∷ ks) subs h = elim (Bool-cases (same k j)) [
    | inl e ↦ absurd (h.0 (sym ((same_iff k j).0 e)))
    | inr e ↦ rw e (delete-keeps k c ks (remove j subs) h.1)
  ]

  Loop-one :
      (ev : Sent) (k : Bytes) (c : Conn) (subs : List (Bytes × Conn))
      → Absent k subs
      → Loop ev subs
      → (r : Result Conn) → send c ev ≡ r
      → IsSent r
      → Loop ev ((k, c) ∷ subs)
  unfolding send_each delete_each remove reached reached_one lost lost_one
  Loop-one ev k c subs absent (all, broken, e, e', ids) (ok c') s h = (
    (k, c') ∷ all,
    broken,
    rw s (rw e refl),
    rw s (delete-keeps k c' broken all (ids k absent) ∙ ap (λ t. (k, c') ∷ t) e'),
    λ j a. ids j a.1,
  )
  Loop-one ev k c subs absent (all, broken, e, e', ids) (raise broken_pipe) s h = (
    (k, c) ∷ all,
    k ∷ broken,
    rw s (rw e refl),
    rw s (rw (same_refl k) e'),
    λ j a. (a.0, ids j a.1),
  )
  Loop-one ev k c subs absent l (raise _) s h = absurd h

  Loop-All :
      (ev : Sent) (subs : List (Bytes × Conn))
      → IsDict subs
      → All (λ s. IsSent (send s.1 ev)) subs
      → Loop ev subs
  unfolding send_each delete_each reached lost
  Loop-All ev [] d h = ([], [], refl, refl, λ k a. tt)
  Loop-All ev ((k, c) ∷ subs) d h =
      Loop-one ev k c subs d.0 (Loop-All ev subs d.1 h.1) (send c ev) refl h.0

  -- Where no id stands twice and every pipe takes the message or is broken: the subscribers are those that it reached, each
  -- once and in their order, and the connections that it did not reach, and only they, are closed.
  pub broadcast-reached :
      (ev : Sent) (d : Dispatcher Conn)
      → IsDict d.subscribers
      → All (λ s. IsSent (send s.1 ev)) d.subscribers
      → broadcast send ev d
        ≡ ok (record {
          subscribers = reached ev d.subscribers;
          closed = d.closed ++ lost ev d.subscribers;
        })
  unfolding broadcast
  broadcast-reached ev d u h =
      let (all, broken, e, e', ids) = Loop-All ev d.subscribers u h in rw e (rw e' refl)
