-- ===== src/Core/Tests.antt =====
-- Runs of the connections on concrete input, and instances of their theorems.
use proxy_py.Base.{
  ℕ, min, ◌≤◌, Returns, ◌≡◌, refl, ap, Bool, true, false, Option, none, some, List, [], ◌∷◌, arith,
  Bytes, length, Result, broken_pipe, ok, raise,
}
use proxy_py.Bytes.{codes}
use proxy_py.Core.Connection.{Connection, Socket, new_connection, flush, has_buffer, queue, recv}
use proxy_py.Core.Connection.Stream.{concat, Flushes, flush-Flushes, IsSocket, pending}
use proxy_py.Core.Connection.Session.{
  Call, queued, flushed, run, Carries, run-Carries, all_queued, sockets_of,
}
use proxy_py.Core.Connection.Wire.{Carried}
use proxy_py.Core.Server.{
  Handler, Implementation, Round, handle_events, handle_writables, handle_readables,
}
use proxy_py.Core.Server.Lifecycle.{OnlyQueues, Sound, got, handle_events-Sound}
use proxy_py.Core.Dispatcher.{
  Sent, subscribed, dispatcher_shutdown, subscribe, unsubscribe, Dispatcher, broadcast,
  handle_event,
}
use proxy_py.Core.Dispatcher.Broadcast.{reached, lost, broadcast-reached}
use proxy_py.Core.Dispatcher.Membership.{Finds, updated, handle_event-Finds}
use proxy_py.Core.Connection.Limit.{first_length, flush-limit}
use proxy_py.Core.Connection.Drain.{IsReady, drain, drain-all, same_socket}

-- A socket that takes two bytes at a time.
two_at_a_time : Socket
two_at_a_time data_sent = ok (min 2 (length data_sent))

two_at_a_time-IsReady : IsReady two_at_a_time
unfolding two_at_a_time
two_at_a_time-IsReady = record {
  taken = λ d. min 2 (length d);
  takes = λ d. refl;
  taken-le = λ d. omega arith;
  taken-pos = λ d h. omega arith;
}

two_at_a_time-IsSocket : IsSocket two_at_a_time
unfolding two_at_a_time
two_at_a_time-IsSocket = record { sends-le = λ d n e. omega (arith, ok_eq e) }
  where
    ok_eq : {m n : ℕ} → ok m ≡ ok n → m ≡ n
    ok_eq e = cc e

abbrev greeting : Connection
greeting = record new_connection { buffer = codes "hello" ∷ codes "!" ∷ []; num_buffer = 2 }

flush_part :
    flush two_at_a_time none greeting
    ≡ ok (record greeting { buffer = codes "llo" ∷ codes "!" ∷ [] }, 2)
unfolding flush two_at_a_time
flush_part = refl

flush-Flushes_example : Flushes greeting (flush two_at_a_time none greeting)
flush-Flushes_example = flush-Flushes greeting refl two_at_a_time two_at_a_time-IsSocket none

abbrev calls : List Call
calls = queued (codes "ab") ∷ flushed (some 1) two_at_a_time ∷ queued (codes "c") ∷ []

run-Carries_example :
    Carries (sockets_of calls) (pending greeting) (all_queued calls) (run greeting calls)
run-Carries_example = run-Carries calls greeting refl (tt, (two_at_a_time-IsSocket, (tt, tt)))

drain-all_example :
    (d : Connection) × (drain 8 two_at_a_time none greeting ≡ ok d)
    × (has_buffer d ≡ false)
    × Carried (same_socket 8 two_at_a_time) (pending greeting) [] []
unfolding concat
drain-all_example = drain-all two_at_a_time two_at_a_time-IsReady none 8 greeting refl (omega arith)

-- An implementation that answers with what it got, and closes.
echo : Implementation
echo c mv = ok (queue mv c, some true)

echo-OnlyQueues : OnlyQueues echo
unfolding echo has_buffer queue
echo-OnlyQueues = record { keeps = λ c c' mv r e h. rw (← ok_fst e) (queued_more mv c) }
  where
    ok_fst :
        {a b : Connection} {r s : Option Bool}
        → ◌≡◌ {A = Result (Connection × Option Bool)} (ok (a, r)) (ok (b, s))
        → a ≡ b
    ok_fst e = ap (λ o. elim o [ ok p ↦ p.0 | raise x ↦ new_connection ]) e

    queued_more : (mv : Bytes) (c : Connection) → has_buffer (queue mv c) ≡ true
    queued_more mv c = ground arith

abbrev round : Round
round = record {
  readable = true;
  writable = true;
  send = two_at_a_time;
  receive = λ size. ok (codes "hi");
}

abbrev idle : Handler
idle = record { work = new_connection; must_flush_before_shutdown = false }

handle_events-Sound_example : Sound (got 10 round) (handle_events echo none 10 round idle)
handle_events-Sound_example =
    handle_events-Sound echo echo-OnlyQueues none 10 round idle (λ e. cc e)

-- It does not close before its answer is sent.
answer_waits :
    handle_events echo none 10 round idle
    ≡ ok (
      record { work = queue (codes "hi") new_connection; must_flush_before_shutdown = true },
      false,
    )
unfolding handle_events handle_writables handle_readables echo has_buffer queue recv
answer_waits = refl

-- A pipe that keeps what it was sent, and breaks at the second message.
pipe : List Sent → Sent → Result (List Sent)
pipe [] ev = ok (ev ∷ [])
pipe (x ∷ xs) ev = raise broken_pipe

abbrev two_subscribers : Dispatcher (List Sent)
two_subscribers = record {
  subscribers = (1 ∷ [], subscribed ∷ []) ∷ (2 ∷ [], []) ∷ [];
  closed = [];
}

broadcast-reached_example :
    broadcast pipe dispatcher_shutdown two_subscribers
    ≡ ok (record {
      subscribers = (2 ∷ [], dispatcher_shutdown ∷ []) ∷ [];
      closed = (subscribed ∷ []) ∷ [];
    })
unfolding pipe reached lost
broadcast-reached_example =
    broadcast-reached pipe dispatcher_shutdown two_subscribers (((λ e. cc e), tt), (tt, tt))
      (tt, (tt, tt))

handle_event-Finds_example :
    Finds pipe
      (updated pipe (2 ∷ []) (some (subscribed ∷ [])) two_subscribers)
      (handle_event pipe (subscribe (2 ∷ []) []) two_subscribers)
    × Finds pipe
        (updated pipe (2 ∷ []) none two_subscribers)
        (handle_event pipe (unsubscribe (2 ∷ [])) two_subscribers)
unfolding pipe
handle_event-Finds_example =
    handle_event-Finds pipe (2 ∷ []) [] two_subscribers (((λ e. cc e), tt), (tt, tt))

flush-limit_example :
    Returns
      (λ q. (q.1 ≤ 4) × (q.1 ≤ first_length greeting.buffer))
      (flush two_at_a_time (some 4) greeting)
flush-limit_example = flush-limit two_at_a_time two_at_a_time-IsSocket (some 4) greeting
