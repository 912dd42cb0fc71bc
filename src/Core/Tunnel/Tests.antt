-- ===== src/Core/Tunnel/Tests.antt =====
-- A tunnel on concrete input.
use proxy_py.Base.{
  ℕ, ◌≤◌, min, length, arith, List, ◌∷◌, Bool, ℕ, ◌≡◌, refl, true, false, Option, none, some, [],
  Bytes, Result, ok, raise, blocking_io,
}
use proxy_py.Base.Int.{pos}
use proxy_py.Bytes.{codes}
use proxy_py.Core.Connection.{Connection, new_connection, queue}
use proxy_py.Core.Pool.{Server}
use proxy_py.Core.Server.{Round}
use proxy_py.Http.Message.{empty_message, request_parser}
use proxy_py.Core.Connection.Stream.{IsSocket}
use proxy_py.Core.Tunnel.Rounds.{all_sockets, all_came, run_rounds, run_rounds-Moved}
use proxy_py.Core.Tunnel.Moves.{Forwards, Moved}
use proxy_py.Core.Tunnel.{Tunnel, TunnelImplementation, new_tunnel, handle_events}

abbrev owed : Connection
owed = queue (codes "bye") new_connection

abbrev far : Server
far = record {
  state = new_connection;
  addr = (codes "example.com", pos 443);
  fileno = some 5;
  shut = false;
  finished = false;
}

abbrev joined : Tunnel
joined = record (new_tunnel owed (empty_message request_parser none)) { upstream = some far }

abbrev quiet : Round
quiet = record {
  readable = false;
  writable = false;
  send = λ raw. ok 1;
  receive = λ size. raise blocking_io;
}

abbrev idle : TunnelImplementation
idle t raw = ok (t, none)

-- The server has closed: the tunnel ends with what the client is owed.
loses :
    handle_events idle none 64 64 quiet
      (record quiet { readable = true; receive = λ size. ok [] })
      joined
    ≡ ok (joined, true)
unfolding handle_events proxy_py.Core.Tunnel.handle_client proxy_py.Core.Server.handle_writables
    proxy_py.Core.Connection.recv
loses = refl

-- An implementation that only forwards.
abbrev relays : TunnelImplementation
relays t raw = elim t.upstream [
  | none ↦ ok (t, some true)
  | some s ↦ ok (record t { upstream = some (record s { state = queue raw s.state }) }, none)
]

relays-Forwards : Forwards relays 5
relays-Forwards t s raw e n = by_upstream t.upstream e
  where
    by_upstream :
        (o : Option Server)
        → o ≡ some s
        → (elim o as (λ _. Result (Tunnel × Option Bool)) [
          | none ↦ ok (t, some true)
          | some v ↦
              ok (record t { upstream = some (record v { state = queue raw v.state }) }, none)
        ])
          ≡ ok (record t { upstream = some (record s { state = queue raw s.state }) }, none)
    by_upstream o q = rw q refl

abbrev says : Bytes → Round
says raw = record {
  readable = true;
  writable = true;
  send = λ packet. ok (min 2 (length packet));
  receive = λ size. ok raw;
}

slow : (raw : Bytes) → IsSocket (says raw).send
slow raw = record { sends-le = λ packet n e. fewer packet n e }
  where
    fewer :
        (packet : Bytes) (n : ℕ)
        → ◌≡◌ {A = Result ℕ} (ok (min 2 (length packet))) (ok n)
        → n ≤ length packet
    fewer packet n e = by_number (length packet) n (same_number e)
      where
        same_number : {k m : ℕ} → ◌≡◌ {A = Result ℕ} (ok k) (ok m) → k ≡ m
        same_number q = cc

        by_number : (l n : ℕ) → min 2 l ≡ n → n ≤ l
        by_number l n q = omega arith

abbrev talk : List (Round × Round)
talk = (says (codes "hello"), says (codes "hi")) ∷ (says (codes "how are"), says (codes "you")) ∷ []

abbrev talked : Tunnel
talked = record joined {
  server = record {
    work = queue (codes "you") (queue (codes "hi") (record owed { buffer = []; num_buffer = 0 }));
    must_flush_before_shutdown = false;
  };
  upstream =
      some (record far { state = queue (codes "how are") (queue (codes "o") new_connection) });
}

talks : run_rounds relays none 64 64 talk joined ≡ ok (talked, false)
unfolding handle_events run_rounds proxy_py.Core.Tunnel.handle_client
    proxy_py.Core.Server.handle_writables proxy_py.Core.Connection.has_buffer new_tunnel queue
    proxy_py.Core.Connection.flush proxy_py.Core.Connection.recv proxy_py.Core.Server.after_data
talks = refl

run_rounds-Moved_example :
    Moved
      (all_sockets (λ x. x.0) talk)
      (all_sockets (λ x. x.1) talk)
      5
      far
      joined
      (all_came (λ x. x.0) 64 talk)
      (all_came (λ x. x.1) 64 talk)
      talked
unfolding queue new_tunnel
run_rounds-Moved_example =
    run_rounds-Moved relays none 64 64 5 relays-Forwards talk far joined talked
      (slow (codes "hello"), slow (codes "hi"), (slow (codes "how are"), slow (codes "you"), tt))
      (refl, refl, refl, refl) talks
