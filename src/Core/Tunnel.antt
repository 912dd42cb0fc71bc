-- ===== src/Core/Tunnel.antt =====
-- `BaseTcpTunnelHandler` of proxy/core/base/tcp_tunnel.py: a client, and a server beside it in the same loop.
pub mod Moves
pub mod Carried
pub mod Rounds
mod Tests
use proxy_py.Base.{
  ℕ, Bool, true, false, Option, none, some, Bytes, ◌>>=◌, Raised, Result, ok, raise,
  connection_reset, timeout, assertion_error, if◌then◌else◌,
}
use proxy_py.Base.Int.{ℤ, int_eq}
use proxy_py.Dict.{get, put}
use proxy_py.Core.Connection.{Connection, Socket, queue, flush, recv, has_buffer, close}
use proxy_py.Core.Pool.{Address, Server, new_server, connect, close_server, fileno_of}
use proxy_py.Core.Server
use proxy_py.Core.Server.{Handler, Events, Round, after_data}
use proxy_py.Http.Message.{Message, empty_message, request_parser}
use proxy_py.Http.Handler.Events.{EventDict, or_nothing, client_events}
use proxy_py.Http.Proxy.Connect.{target}

pub record Tunnel : Type 0 where
  pub server : Handler
  pub request : Message
  pub upstream : Option Server

unfoldable pub new_tunnel : Connection → Message → Tunnel
new_tunnel work request = record {
  server = record { work = work; must_flush_before_shutdown = false };
  request = request;
  upstream = none;
}

-- The `handle_data` of an implementation, with `True` to close the client's connection.
abbrev pub TunnelImplementation : Type 0
TunnelImplementation = Tunnel → Bytes → Result (Tunnel × Option Bool)

abbrev connected : Tunnel → Result Server → Result Tunnel
connected t (raise e) = raise e
connected t (ok s) = ok (record t { upstream = some s })

-- `connect_upstream`
unfoldable pub connect_upstream : (Address → Result ℕ) → Tunnel → Result Tunnel
connect_upstream opened t = elim (target t.request.host t.request.port) [
  | none ↦ raise assertion_error
  | some addr ↦ connected t (connect opened (new_server addr))
]

-- `shutdown`, before that of the client; a connection that was never made is left alone.
unfoldable pub close_upstream : Tunnel → Tunnel
close_upstream t = record t {
  upstream = elim t.upstream [
    | none ↦ none
    | some s ↦ some (elim s.fileno [ none ↦ s | some f ↦ close_server s ])
  ];
}

abbrev pub wait_read : Option ℕ → ℤ → EventDict → EventDict
wait_read none f events = events
wait_read (some n) f events = put f (record { read = true; write = false }) events

abbrev pub wait_write : ℤ → EventDict → EventDict
wait_write f events = put f (record (or_nothing (get f events)) { write = true }) events

abbrev pub server_events : Server → ℤ → EventDict → EventDict
server_events s f events =
    let read = wait_read s.fileno f events in if has_buffer s.state then wait_write f read else read

abbrev pub add_server : Option Server → EventDict → Result EventDict
add_server none events = ok events
add_server (some s) events = elim s.fileno [
  | none ↦ if has_buffer s.state then (fileno_of s >>= λ f. ok (wait_write f events)) else ok events
  | some n ↦ fileno_of s >>= λ f. ok (server_events s f events)
]

-- `get_events`
unfoldable pub get_events : ℤ → Tunnel → Result EventDict
get_events client t = add_server t.upstream (client_events client t.server)

abbrev pub settled : Tunnel × Option Bool → Tunnel × Bool
settled (t, verdict) =
    let (s, closing) = after_data t.server (t.server.work, verdict) in
    (record t { server = s }, closing)

abbrev pub after_recv :
    TunnelImplementation → Tunnel → Result (Option Bytes) → Result (Tunnel × Bool)
after_recv handle_data t (raise connection_reset) = ok (t, true)
after_recv handle_data t (raise timeout) = ok (t, true)
after_recv handle_data t (raise e) = raise e
after_recv handle_data t (ok none) = ok (t, true)
after_recv handle_data t (ok (some raw)) = handle_data t raw >>= λ r. ok (settled r)

-- The events of the client, as `BaseTcpServerHandler` handles them.
unfoldable pub handle_client :
    TunnelImplementation → Option ℕ → ℕ → Round → Tunnel → Result (Tunnel × Bool)
handle_client handle_data max_sendbuf_size client_recvbuf_size r t =
    Server.handle_writables r.send max_sendbuf_size r.writable t.server >>= λ (s, torn).
    let u = record t { server = s } in
    let rest =
      if r.readable
      then after_recv handle_data u (recv r.receive client_recvbuf_size)
      else ok (u, false) in
    if torn then ok (u, true) else rest

abbrev pub queue_client : Bytes → Tunnel → Tunnel
queue_client raw t = record t { server = record (t.server) { work = queue raw t.server.work } }

abbrev pub tunneled : Tunnel → Result (Option Bytes) → Result (Tunnel × Bool)
tunneled t (raise e) = raise e
tunneled t (ok none) = ok (t, true)
tunneled t (ok (some raw)) = ok (queue_client raw t, false)

-- Data of the server goes to the client.
abbrev pub read_server : ℕ → Round → Tunnel → Result (Tunnel × Bool)
read_server server_recvbuf_size r t =
    if r.readable then tunneled t (recv r.receive server_recvbuf_size) else ok (t, false)

abbrev pub flushed : Tunnel → Server → Result (Connection × ℕ) → Result (Tunnel × Bool)
flushed t s (raise e) = raise e
flushed t s (ok (c, n)) = ok (record t { upstream = some (record s { state = c }) }, false)

abbrev pub write_server : Option ℕ → Round → Server → Tunnel → Result (Tunnel × Bool)
write_server max_sendbuf_size r s t =
    if r.writable then flushed t s (flush r.send max_sendbuf_size s.state) else ok (t, false)

abbrev pub after_read : Option ℕ → Round → Server → Tunnel × Bool → Result (Tunnel × Bool)
after_read max_sendbuf_size r s (t, closed) =
    let rest = write_server max_sendbuf_size r s t in if closed then ok (t, true) else rest

-- The events of the server; without a connection it has no descriptor.
abbrev pub handle_server : Option ℕ → ℕ → Round → Tunnel → Option Server → Result (Tunnel × Bool)
handle_server max_sendbuf_size server_recvbuf_size r t none = ok (t, false)
handle_server max_sendbuf_size server_recvbuf_size r t (some s) =
    fileno_of s >>= λ f. (read_server server_recvbuf_size r t >>= after_read max_sendbuf_size r s)

-- `handle_events`: the rounds are those of the client and of the server.
unfoldable pub handle_events :
    TunnelImplementation → Option ℕ → ℕ → ℕ → Round → Round → Tunnel → Result (Tunnel × Bool)
handle_events handle_data max_sendbuf_size client_recvbuf_size server_recvbuf_size client server t =
    handle_client handle_data max_sendbuf_size client_recvbuf_size client t >>= λ (u, torn).
    let rest = handle_server max_sendbuf_size server_recvbuf_size server u u.upstream in
    if torn then ok (u, true) else rest
