-- ===== src/Core/Dispatcher.antt =====
-- `EventDispatcher` of proxy/core/event/dispatcher.py.
pub mod Broadcast
pub mod Membership
use proxy_py.Base.{
  ℕ, none, some, List, [], ◌∷◌, ◌++◌, bytes_eq, Bytes, ◌>>=◌, Result, broken_pipe, eof, ok, raise,
}
use proxy_py.Dict.{get, put, remove}

-- What goes to a subscriber: an acknowledgement, the end of the dispatcher, or an event with its payload.
pub data Sent : Type 0 where
  subscribed unsubscribed dispatcher_shutdown : Sent
  published : ℕ → Bytes → Sent

-- What comes out of the queue.
pub data Event (Conn : Type 0) : Type 0 where
  subscribe : Bytes → Conn → Event Conn
  unsubscribe : Bytes → Event Conn
  publish : ℕ → Bytes → Event Conn

-- The connections that `close` has been called on are kept in `closed`.
pub record Dispatcher (Conn : Type 0) : Type 0 where
  pub subscribers : List (Bytes × Conn)
  pub closed : List Conn

module _ {Conn : Type 0} where
  -- `del self.subscribers[sub_id]`, for each
  unfoldable pub delete_each : List Bytes → List (Bytes × Conn) → List (Bytes × Conn)
  delete_each [] subs = subs
  delete_each (k ∷ ks) subs = delete_each ks (remove k subs)

  -- `_close_and_delete`
  unfoldable pub close_and_delete : Bytes → Conn → Dispatcher Conn → Dispatcher Conn
  close_and_delete k c d = record {
    subscribers = remove k d.subscribers;
    closed = d.closed ++ c ∷ [];
  }

-- `Connection.send` of multiprocessing is the parameter `send`.
module _ {Conn : Type 0} (send : Conn → Sent → Result Conn) where
  -- One subscriber, ahead of what the rest of the loop leaves.
  sent_one :
      Bytes
      → Conn
      → Result (List (Bytes × Conn) × List Bytes × List Conn)
      → Result Conn
      → Result (List (Bytes × Conn) × List Bytes × List Conn)
  sent_one k c others (ok c') = others >>= λ r. ok ((k, c') ∷ r.0, r.1, r.2)
  sent_one k c others (raise broken_pipe) = others >>= λ r. ok ((k, c) ∷ r.0, k ∷ r.1, c ∷ r.2)
  sent_one k c others (raise e) = raise e

  -- The loop of `_broadcast`, with the ids in `broken_pipes` and the connections it closes.
  unfoldable pub send_each :
      Sent → List (Bytes × Conn) → Result (List (Bytes × Conn) × List Bytes × List Conn)
  unfolding sent_one
  send_each ev [] = ok ([], [], [])
  send_each ev ((k, c) ∷ subs) = sent_one k c (send_each ev subs) (send c ev)

  -- `_broadcast`
  unfoldable pub broadcast : Sent → Dispatcher Conn → Result (Dispatcher Conn)
  broadcast ev d = do
    r ← send_each ev d.subscribers
    ok (record { subscribers = delete_each r.1 r.0; closed = d.closed ++ r.2 })

  -- The acknowledgement of a subscription: `_send`, and `_close_and_delete` if it is not done.
  unfoldable pub acknowledge :
      Bytes → Conn → Dispatcher Conn → Result Conn → Result (Dispatcher Conn)
  acknowledge k c d (ok c') = ok (record d { subscribers = put k c' d.subscribers })
  acknowledge k c d (raise broken_pipe) = ok (close_and_delete k c d)
  acknowledge k c d (raise eof) = ok (close_and_delete k c d)
  acknowledge k c d (raise e) = raise e

  -- The last message of a subscriber, whether or not it gets there.
  unfoldable pub farewell : Bytes → Conn → Dispatcher Conn → Result Conn → Result (Dispatcher Conn)
  farewell k c d (ok c') = ok (close_and_delete k c' d)
  farewell k c d (raise broken_pipe) = ok (close_and_delete k c d)
  farewell k c d (raise eof) = ok (close_and_delete k c d)
  farewell k c d (raise e) = raise e

  unfoldable pub handle_event : Event Conn → Dispatcher Conn → Result (Dispatcher Conn)
  unfolding acknowledge farewell close_and_delete
  handle_event (subscribe k c) d =
      acknowledge k c (record d { subscribers = put k c d.subscribers }) (send c subscribed)
  handle_event (unsubscribe k) d = elim (get k d.subscribers) [
    | none ↦ ok d
    | some c ↦ farewell k c d (send c unsubscribed)
  ]
  handle_event (publish name payload) d = broadcast (published name payload) d
