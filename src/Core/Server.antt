-- ===== src/Core/Server.antt =====
-- `BaseTcpServerHandler` of proxy/core/base/tcp_server.py: the events of a client's connection.
pub mod Lifecycle
pub mod Writes
use proxy_py.Base.{
  ℕ, Bool, true, false, not, ◌&&◌, Option, none, some, if◌then◌else◌, Bytes, ◌>>=◌, Result,
  connection_reset, timeout, ok, raise,
}
use proxy_py.Core.Connection.{Connection, Socket, flush, recv, has_buffer}

pub record Handler : Type 0 where
  pub work : Connection
  pub must_flush_before_shutdown : Bool

-- The events that the handler waits for on its client's descriptor.
pub record Events : Type 0 where
  pub read : Bool
  pub write : Bool

unfoldable pub get_events : Handler → Events
get_events h = record { read = not h.must_flush_before_shutdown; write = has_buffer h.work }

-- The `handle_data` of an implementation: what it makes of the connection, and `True` to close it.
abbrev pub Implementation : Type 0
Implementation = Connection → Bytes → Result (Connection × Option Bool)

after_writes : Handler → Connection × ℕ → Handler × Bool
after_writes h (c, n) =
    if h.must_flush_before_shutdown && not (has_buffer c)
    then (record { work = c; must_flush_before_shutdown = false }, true)
    else (record h { work = c }, false)

unfoldable pub handle_writables : Socket → Option ℕ → Bool → Handler → Result (Handler × Bool)
unfolding after_writes
handle_writables socket max_sendbuf_size writable h =
    let flushed = (do sent ← flush socket max_sendbuf_size h.work; ok (after_writes h sent)) in
    if writable && has_buffer h.work then flushed else ok (h, false)

-- What follows `handle_data`.
unfoldable pub after_data : Handler → Connection × Option Bool → Handler × Bool
after_data h (c, some true) =
    if has_buffer c
    then (record { work = c; must_flush_before_shutdown = true }, false)
    else (record h { work = c }, true)
after_data h (c, _) = (record h { work = c }, false)

-- What follows `recv`.
after_recv : Implementation → Handler → Result (Option Bytes) → Result (Handler × Bool)
after_recv handle_data h (raise connection_reset) = ok (h, true)
after_recv handle_data h (raise timeout) = ok (h, true)
after_recv handle_data h (raise e) = raise e
after_recv handle_data h (ok none) = ok (h, true)
after_recv handle_data h (ok (some got)) = do r ← handle_data h.work got; ok (after_data h r)

unfoldable pub handle_readables :
    Implementation → (ℕ → Result Bytes) → ℕ → Bool → Handler → Result (Handler × Bool)
unfolding after_recv after_data
handle_readables handle_data receive client_recvbuf_size readable h =
    if readable then after_recv handle_data h (recv receive client_recvbuf_size) else ok (h, false)

-- What the event loop hands over: which events are there, and what the socket does with the calls.
pub record Round : Type 0 where
  pub readable : Bool
  pub writable : Bool
  pub send : Socket
  pub receive : ℕ → Result Bytes

unfoldable pub handle_events :
    Implementation → Option ℕ → ℕ → Round → Handler → Result (Handler × Bool)
handle_events handle_data max_sendbuf_size client_recvbuf_size r h = do
  written ← handle_writables r.send max_sendbuf_size r.writable h
  if written.1
      then ok written
      else handle_readables handle_data r.receive client_recvbuf_size r.readable written.0
