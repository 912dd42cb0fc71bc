-- ===== src/Http/Handler.antt =====
-- `HttpProtocolHandler` of proxy/http/handler.py: a client's first request, the choice of a plugin, and
-- the events of the connection.
pub mod Closing
pub mod Rejection
pub mod Events
mod Tests
use proxy_py.Base.{
  ℕ, Bool, true, false, not, ◌&&◌, ◌||◌, Option, none, some, List, [], ◌∷◌, if◌then◌else◌, Bytes,
  ◌>>=◌, Run, then_run, Raised, Result, ok, raise,
}
use proxy_py.Core.Connection.{Connection, Socket, queue, recv, has_buffer}
use proxy_py.Core.Server
use proxy_py.Core.Server.{Handler, Round, after_data}
use proxy_py.Http.Message.{Message, HandlerProtocol, http_handler_protocol, complete}
use proxy_py.Http.Parser.{parse, is_state}
use proxy_py.Http.Responses.{HttpException, protocol_exception, response_of, bad_request}

-- What a call of a plugin comes to: a Boolean, a socket for TLS, or an exception.
pub data Reply : Type 0 where
  answer : Bool → Reply
  upgraded : Reply
  rejected : HttpException → Reply
  failed : Raised → Reply

-- A plugin shares the client's connection and the request with the handler.
pub record Call (P : Type 0) : Type 0 where
  pub plugin : P
  pub work : Connection
  pub request : Message
  pub reply : Reply

-- The classes of `flags.plugins`, with the protocols that they handle, and the methods of their instances. An
-- exception of `HttpParser.parse` leaves some of what has been read in the request, which is `half_parsed`.
pub record Plugins (P : Type 0) : Type 0 where
  pub half_parsed : Message → Bytes → Message
  pub klasses : List (List HandlerProtocol × (Message → P))
  pub on_request_complete : P → Connection → Message → Call P
  pub on_client_data : Bytes → P → Connection → Message → Option (Call P)
  pub on_response_chunk : P → List Bytes → Result P
  pub write_to_descriptors : P → Connection → Message → Result (P × Connection × Message × Bool)
  pub read_from_descriptors : P → Connection → Message → Run (P × Connection × Message × Bool)

pub record HttpHandler (P : Type 0) : Type 0 where
  pub server : Handler
  pub request : Message
  pub plugin : Option P
  pub writes_teared : Bool
  pub reads_teared : Bool

-- How a method ends: it returns, or raises an `HttpProtocolException` or another exception.
pub data Ending (P : Type 0) : Type 0 where
  returned : HttpHandler P → Bool → Ending P
  http_raised : HttpHandler P → HttpException → Ending P
  other_raised : HttpHandler P → Raised → Ending P

same_protocol : HandlerProtocol → HandlerProtocol → Bool
same_protocol HandlerProtocol.unknown HandlerProtocol.unknown = true
same_protocol HandlerProtocol.web_server HandlerProtocol.web_server = true
same_protocol HandlerProtocol.http_proxy HandlerProtocol.http_proxy = true
same_protocol HandlerProtocol.socks_proxy HandlerProtocol.socks_proxy = true
same_protocol _ _ = false

handles : HandlerProtocol → List HandlerProtocol → Bool
handles p [] = false
handles p (q ∷ qs) = same_protocol p q || handles p qs

-- `_discover_plugin_klass`
unfoldable pub discover_plugin_klass :
    {A : Type 0} → HandlerProtocol → List (List HandlerProtocol × A) → Option A
unfolding same_protocol handles
discover_plugin_klass p [] = none
discover_plugin_klass p ((protocols, klass) ∷ rest) =
    if handles p protocols then some klass else discover_plugin_klass p rest

abbrev pub is_unknown : HandlerProtocol → Bool
is_unknown HandlerProtocol.unknown = true
is_unknown _ = false

-- Python's `OSError`, with its subclasses.
abbrev pub is_os_error : Raised → Bool
is_os_error Raised.blocking_io = true
is_os_error Raised.broken_pipe = true
is_os_error Raised.connection_reset = true
is_os_error Raised.timeout = true
is_os_error Raised.os_error = true
is_os_error Raised.ssl_want_read = true
is_os_error Raised.ssl_want_write = true
is_os_error _ = false

module _ {P : Type 0} where
  -- `self.work.queue`
  unfoldable pub queue_packet : Bytes → HttpHandler P → HttpHandler P
  queue_packet packet h = record h {
    server = record (h.server) { work = queue packet h.server.work };
  }

  -- What a call of the plugin has left in the handler.
  abbrev pub with_call : HttpHandler P → Call P → HttpHandler P
  with_call h c = record h {
    server = record (h.server) { work = c.work };
    request = c.request;
    plugin = some c.plugin;
  }

  abbrev pub ending_of : HttpHandler P → Reply → Ending P
  ending_of h (answer teardown) = returned h teardown
  ending_of h upgraded = returned h false
  ending_of h (rejected e) = http_raised h e
  ending_of h (failed e) = other_raised h e

  abbrev pub settle_call : HttpHandler P → Call P → Ending P
  settle_call h c = ending_of (with_call h c) c.reply

  abbrev pub start_plugin : Plugins P → HttpHandler P → Option (Message → P) → Bytes → Ending P
  start_plugin plugins h none bad = returned (queue_packet bad h) true
  start_plugin plugins h (some create) bad =
      settle_call h (plugins.on_request_complete (create h.request) h.server.work h.request)

  -- `_parse_first_request`, once the parser has returned.
  unfoldable pub after_parse : Plugins P → Bytes → HttpHandler P → Ending P
  after_parse plugins bad h =
      if not (is_state h.request.state complete)
      then returned h false
      else if is_unknown (http_handler_protocol h.request)
      then returned (queue_packet bad h) true
      else start_plugin plugins h
          (discover_plugin_klass (http_handler_protocol h.request) plugins.klasses) bad

  -- `_parse_first_request`; whatever the parser raises becomes an `HttpProtocolException`.
  unfoldable pub parse_first_request :
      Plugins P → Bytes → Bytes → HttpHandler P → Result Message → Ending P
  parse_first_request plugins bad raw h (raise e) =
      http_raised (queue_packet bad (record h { request = plugins.half_parsed h.request raw }))
        protocol_exception
  parse_first_request plugins bad raw h (ok m) = after_parse plugins bad (record h { request = m })

  abbrev pub queue_response : Option Bytes → HttpHandler P → HttpHandler P
  queue_response none h = h
  queue_response (some packet) h = queue_packet packet h

  -- The `except` of `handle_data`.
  abbrev pub caught : Bytes → Ending P → HttpHandler P × Result Bool
  caught agent (returned h teardown) = (h, ok teardown)
  caught agent (http_raised h e) = (queue_response (response_of agent e) h, ok true)
  caught agent (other_raised h e) = (h, raise e)

  -- What a plugin answers to data is not looked at.
  abbrev pub unanswered : Ending P → Ending P
  unanswered (returned h b) = returned h false
  unanswered (http_raised h e) = http_raised h e
  unanswered (other_raised h e) = other_raised h e

  -- Data after the first request.
  abbrev pub client_data : Plugins P → Bytes → HttpHandler P → Option P → Option (Ending P)
  client_data plugins raw h none = some (returned h false)
  client_data plugins raw h (some p) = elim (plugins.on_client_data raw p h.server.work h.request) [
    | none ↦ none
    | some c ↦ some (unanswered (settle_call h c))
  ]

  abbrev pub caught_run : Bytes → Option (Ending P) → Option (HttpHandler P × Result Bool)
  caught_run agent none = none
  caught_run agent (some e) = some (caught agent e)

  abbrev pub first_data :
      Plugins P → Bytes → Bytes → HttpHandler P → Result Message → HttpHandler P × Result Bool
  first_data plugins agent raw h r =
      caught agent (parse_first_request plugins (bad_request agent) raw h r)

  -- `handle_data`; `fuel` is that of the parser.
  unfoldable pub handle_data :
      ℕ → Plugins P → Bytes → Bytes → HttpHandler P → Option (HttpHandler P × Result Bool)
  handle_data fuel plugins agent raw h =
      if is_state h.request.state complete
      then caught_run agent (client_data plugins raw h h.plugin)
      else elim (parse fuel h.request raw none) [
        | none ↦ none
        | some r ↦ some (first_data plugins agent raw h r)
      ]

  abbrev pub heard_chunk : Plugins P → HttpHandler P → Option P → Result (HttpHandler P)
  heard_chunk plugins h none = ok h
  heard_chunk plugins h (some p) =
      plugins.on_response_chunk p h.server.work.buffer >>= λ q. ok (record h { plugin = some q })

  -- What `handle_writables` makes of the flush; a failed one leaves the connection as it was.
  abbrev pub after_flush : HttpHandler P → Result (Handler × Bool) → Result (HttpHandler P × Bool)
  after_flush h (ok (s, teardown)) = ok (record h { server = s }, teardown)
  after_flush h (raise e) = if is_os_error e then ok (h, true) else raise e

  -- `handle_writables`
  unfoldable pub handle_writables :
      Plugins P → Socket → Option ℕ → Bool → HttpHandler P → Result (HttpHandler P × Bool)
  handle_writables plugins send max_sendbuf_size writable h =
      if writable && has_buffer h.server.work
      then (heard_chunk plugins h h.plugin >>= λ u.
          after_flush u (Server.handle_writables send max_sendbuf_size writable u.server))
      else ok (h, false)

  -- What `handle_readables` makes of what `handle_data` returns or raises.
  abbrev pub after_handled : HttpHandler P × Result Bool → Result (HttpHandler P × Bool)
  after_handled (h, ok teardown) =
      let (s, closing) = after_data h.server (h.server.work, some teardown) in
      ok (record h { server = s }, closing)
  after_handled (h, raise Raised.ssl_want_read) = ok (h, false)
  after_handled (h, raise e) = if is_os_error e then ok (h, true) else raise e

  abbrev pub after_recv :
      ℕ → Plugins P → Bytes → HttpHandler P → Result (Option Bytes) → Run (HttpHandler P × Bool)
  after_recv fuel plugins agent h (ok none) = some (ok (h, true))
  after_recv fuel plugins agent h (ok (some raw)) = elim (handle_data fuel plugins agent raw h) [
    | none ↦ none
    | some r ↦ some (after_handled r)
  ]
  after_recv fuel plugins agent h (raise e) = some (after_handled (h, raise e))

  -- `handle_readables`
  unfoldable pub handle_readables :
      ℕ
      → Plugins P
      → Bytes
      → (ℕ → Result Bytes)
      → ℕ
      → Bool
      → HttpHandler P
      → Run (HttpHandler P × Bool)
  handle_readables fuel plugins agent receive client_recvbuf_size readable h =
      if readable
      then after_recv fuel plugins agent h (recv receive client_recvbuf_size)
      else some (ok (h, false))

  -- A method of the plugin that gets descriptors; without a plugin, nothing.
  abbrev pub plugin_io :
      (P → Connection → Message → Result (P × Connection × Message × Bool))
      → HttpHandler P
      → Option P
      → Result (HttpHandler P × Bool)
  plugin_io io h none = ok (h, false)
  plugin_io io h (some p) = io p h.server.work h.request >>= λ (q, work, m, teardown). ok (
    record h { server = record (h.server) { work = work }; request = m; plugin = some q },
    teardown,
  )

  -- `handle_events`, up to the point where the plugin has written; `True` ends it.
  abbrev pub plugin_writes : Plugins P → Bool → HttpHandler P → Result (HttpHandler P × Bool)
  plugin_writes plugins true h = ok (h, true)
  plugin_writes plugins false h = plugin_io plugins.write_to_descriptors h h.plugin >>= λ (u, torn).
      ok (record u { writes_teared = torn }, torn)

  unfoldable pub write_events :
      Plugins P → Socket → Option ℕ → Bool → HttpHandler P → Result (HttpHandler P × Bool)
  write_events plugins send max_sendbuf_size writable h =
      handle_writables plugins send max_sendbuf_size writable h >>= λ (u, torn).
      plugin_writes plugins torn (record u { writes_teared = torn })

  abbrev pub with_read : HttpHandler P → P × Connection × Message × Bool → HttpHandler P
  with_read h (q, work, m, torn) = record h {
    server = record (h.server) { work = work };
    request = m;
    plugin = some q;
    reads_teared = torn;
  }

  abbrev pub plugin_read : Plugins P → HttpHandler P → Option P → Run (HttpHandler P)
  plugin_read plugins h none = some (ok (record h { reads_teared = false }))
  plugin_read plugins h (some p) =
      then_run (plugins.read_from_descriptors p h.server.work h.request)
        λ r. some (ok (with_read h r))

  abbrev pub plugin_reads : Plugins P → Bool → HttpHandler P → Run (HttpHandler P)
  plugin_reads plugins true h = some (ok h)
  plugin_reads plugins false h = plugin_read plugins h h.plugin

  -- What reads, unless reading is over.
  unfoldable pub read_events :
      ℕ → Plugins P → Bytes → (ℕ → Result Bytes) → ℕ → Bool → HttpHandler P → Run (HttpHandler P)
  read_events fuel plugins agent receive client_recvbuf_size readable h =
      let got = handle_readables fuel plugins agent receive client_recvbuf_size readable h in
      if h.reads_teared
      then some (ok h)
      else then_run got λ (u, torn). plugin_reads plugins torn (record u { reads_teared = torn })

  -- The end waits until what the client is owed has been sent.
  abbrev pub ends : HttpHandler P → HttpHandler P × Bool
  ends h = (h, h.reads_teared && not (has_buffer h.server.work))

  -- `handle_events`
  unfoldable pub handle_events :
      ℕ → Plugins P → Bytes → Option ℕ → ℕ → Round → HttpHandler P → Run (HttpHandler P × Bool)
  handle_events fuel plugins agent max_sendbuf_size client_recvbuf_size r h =
      then_run (some (write_events plugins r.send max_sendbuf_size r.writable h)) λ (u, torn).
        let rest =
          then_run (read_events fuel plugins agent r.receive client_recvbuf_size r.readable u)
            (λ v. some (ok (ends v))) in
        if torn then some (ok (u, true)) else rest
