-- ===== src/Http/Proxy/Tests.antt =====
-- Runs of the proxy plugin on concrete input, and instances of its theorems.
use proxy_py.Http.Proxy.Plugged.{auth_heard}
use proxy_py.Base.{
  ℕ, ◌≡◌, refl, inl, inr, Bool, true, false, Option, none, some, List, [], ◌∷◌, ◌++◌, ◌==◌, ◌||◌,
  if◌then◌else◌, number_eq, bytes_eq, Bytes, Returns, Run, Raised, Result, attribute_error,
  auth_failed, blocking_io, ok, raise,
}
use proxy_py.Base.Int.{ℤ, pos, int_eq, pair_eq}
use proxy_py.Bytes.{codes}
use proxy_py.Dict.{get}
use proxy_py.Sets.{is_member}
use proxy_py.Core.Connection.{Connection, new_connection, queue}
use proxy_py.Core.Pool.{Server, Pool, Address, new_pool}
use proxy_py.Http.Message.{
  Message, empty_message, request_parser, response_parser, complete, rcving_headers, http_1_1,
}
use proxy_py.Http.Auth
use proxy_py.Http.Handler.{Reply}
use proxy_py.Http.Proxy.State.{HttpProxy, queue_upstream}
use proxy_py.Http.Proxy.Request.{Interception, wrapped, generated, on_request_complete, forward}
use proxy_py.Http.Proxy.Data.{pipelined_request, on_client_data}
use proxy_py.Http.Proxy.Io.{
  close_and_release, on_client_connection_close, read_from_descriptors, write_to_descriptors,
}
use proxy_py.Http.Proxy.Guarded.{KeepsPool, Unconnected, on_request_complete-Unconnected}
use proxy_py.Http.Proxy.Tunnel.{
  Event, from_client, from_server, client_bytes, server_bytes, relay, IsTunnel, Moved,
  relay-Carried,
}
use proxy_py.Http.Proxy.Stripped.{
  IsSound, Forwarded, forward-Forwarded, Leaked, pipelined_request-Leaked,
}
use proxy_py.Http.Proxy.Closing.{close_and_release-IsShut, on_client_connection_close-IsShut}
use proxy_py.Http.Proxy.Examples.{
  packet, agent, flags_of, credentials, network, interception, request, with_credentials, connected,
  one_server, proxy_of,
}
use proxy_py.Http.Proxy.Closing.Release.{IsShut}

abbrev Bad : Message → Type 0
Bad m = Auth.before_upstream_connection (some (codes "abc")) m ≡ raise auth_failed

-- What a check of credentials comes to leaves the pool alone.
before_keeps : KeepsPool credentials.before_upstream_connection
before_keeps q shared m = by_check (Auth.before_upstream_connection (some (codes "abc")) m)
  where
    by_check : (r : Result Message) → (auth_heard q shared m r).shared.1 ≡ shared.1
    by_check (ok m') = refl
    by_check (raise e) = refl

request_keeps : KeepsPool credentials.handle_client_request
request_keeps q shared m = refl

on_request_complete-Unconnected_example :
    Unconnected
      (proxy_of request none (7 ∷ []))
      (on_request_complete
        (flags_of true)
        credentials
        agent
        network
        interception
        (proxy_of request none (7 ∷ []))).0
unfolding Auth.before_upstream_connection proxy_py.Http.Auth.check_header get
on_request_complete-Unconnected_example =
    on_request_complete-Unconnected (flags_of true) credentials agent network interception
      before_keeps request_keeps Bad (proxy_of request none (7 ∷ []))
      (inl (λ shared m bad. rw bad (λ e. cc e))) refl refl

-- With the credentials, the request goes out without them.
forwards :
    (forward (flags_of false) agent 0 (proxy_of with_credentials (some 0) [])).0.pool
    ≡ record one_server {
      objects = (0, record connected { state = queue packet new_connection }) ∷ [];
    }
unfolding forward proxy_py.Http.Packet.build proxy_py.Http.Message.add_headers
    proxy_py.Http.Message.del_headers proxy_py.Http.Message.is_request
    proxy_py.Http.Packet.get_body_or_chunks queue_upstream proxy_py.Core.Pool.update_object get
    proxy_py.Dict.put proxy_py.Http.Packet.build_http_request proxy_py.Http.Packet.build_http_pkt
    proxy_py.Http.Chunk.join proxy_py.Http.Packet.header_lines proxy_py.Http.Packet.has_name
    proxy_py.Http.Packet.sent_fields proxy_py.Dict.remove proxy_py.Base.same proxy_py.Bytes.lower
    proxy_py.Bytes.lower_byte queue proxy_py.Http.Message.add_header
    proxy_py.Http.Message.del_header proxy_py.Http.Packet.build_http_header
    proxy_py.Http.Proxy.Request.via_headers
forwards = refl

abbrev buffered : Option Server → List Bytes
buffered none = []
buffered (some s) = s.state.buffer

abbrev sent_on : Option (HttpProxy ℕ × Reply) → List Bytes
sent_on none = []
sent_on (some (p, reply)) = buffered (get 0 p.pool.objects)

-- Two requests in one piece: the second is taken for a body, and neither goes on.
pipelines_none :
    sent_on (
      on_client_data 9
        (flags_of false)
        credentials
        agent
        (codes "GET /a HTTP/1.1\r\n\r\nGET /b HTTP/1.1\r\n\r\n")
        (proxy_of request (some 0) (7 ∷ [])))
    ≡ []
unfolding on_client_data get proxy_py.Http.Proxy.Data.upstream_data proxy_py.Http.Parser.is_state
    proxy_py.Http.Proxy.Data.pipeline_data proxy_py.Http.Parser.parse
    proxy_py.Http.Parser.process_line proxy_py.Bytes.cut proxy_py.Bytes.split_max
    proxy_py.Http.Message.set_url proxy_py.Http.Url.from_bytes proxy_py.Http.Parser.process_headers
    proxy_py.Bytes.strip proxy_py.Http.Parser.process_body pipelined_request
pipelines_none = refl

abbrev half : Message
half = record (empty_message request_parser none) {
  state = rcving_headers;
  version = some http_1_1;
  headers = some (
      (codes "connection", (codes "Connection", codes "Upgrade"))
      ∷ (codes "upgrade", (codes "Upgrade", codes "websocket"))
      ∷ []);
}

-- A request for an upgrade in two pieces: only the second goes on.
upgrades_half :
    sent_on (
      on_client_data 9
        (flags_of false)
        credentials
        agent
        (codes "\r\n")
        (record (proxy_of request (some 0) (7 ∷ [])) { pipeline_request = some half }))
    ≡ codes "\r\n" ∷ []
unfolding on_client_data get proxy_py.Http.Proxy.Data.upstream_data proxy_py.Http.Parser.is_state
    proxy_py.Http.Proxy.Data.pipeline_data proxy_py.Http.Message.is_connection_upgrade
    proxy_py.Base.same proxy_py.Bytes.lower queue_upstream proxy_py.Core.Pool.update_object
    proxy_py.Dict.put queue
upgrades_half = refl

-- A timeout with a pool.
times_out :
    read_from_descriptors 9
      (flags_of true)
      credentials
      (λ size. raise Raised.timeout)
      (pos 5 ∷ [])
      (record (proxy_of request (some 0) []) {
        pool = record one_server { pools = (connected.addr, 0 ∷ []) ∷ [] };
      })
    ≡ some (raise attribute_error)
unfolding read_from_descriptors get is_member proxy_py.Core.Connection.recv close_and_release
    proxy_py.Core.Pool.release proxy_py.Http.Proxy.Io.mark_closed proxy_py.Core.Pool.update_object
    proxy_py.Dict.put proxy_py.Core.Pool.remove_fileno proxy_py.Core.Pool.remove_object
    proxy_py.Base.Int.both_equal proxy_py.Base.same
times_out = refl

tunnel : HttpProxy ℕ
tunnel = proxy_of (record request { is_https_tunnel = true }) (some 0) (7 ∷ [])

talk : List Event
talk = from_client (codes "hello") ∷ from_server (codes "hi") ∷ from_client (codes "bye") ∷ []

tunnel-IsTunnel : IsTunnel 9 (flags_of false) credentials agent 0 connected tunnel
unfolding tunnel get
tunnel-IsTunnel = record { connects = refl; has_server = refl; is_there = refl; is_open = refl }

relay-Carried_example :
    Moved 9
      (flags_of false)
      credentials
      agent
      0
      connected
      tunnel
      (client_bytes talk)
      (server_bytes talk)
      (relay 9 (flags_of false) credentials agent talk tunnel)
relay-Carried_example =
    relay-Carried 9 (flags_of false) credentials agent (λ q shared raw. (refl, refl)) refl 0 talk
      connected tunnel tunnel-IsTunnel

with_credentials-IsSound : IsSound with_credentials
unfolding proxy_py.Bytes.lower proxy_py.Bytes.lower_byte
with_credentials-IsSound = ((((λ e. cc), tt), (tt, tt)), (refl, (refl, tt)))

forward-Forwarded_example :
    Forwarded
      (flags_of false)
      agent
      0
      (proxy_of with_credentials (some 0) [])
      (forward (flags_of false) agent 0 (proxy_of with_credentials (some 0) []))
forward-Forwarded_example =
    forward-Forwarded (flags_of false) agent 0 (proxy_of with_credentials (some 0) [])
      with_credentials-IsSound

pipelined_request-Leaked_example :
    Leaked credentials agent 0 with_credentials
      (proxy_of request (some 0) [])
      (pipelined_request credentials agent 0 with_credentials (proxy_of request (some 0) []))
unfolding proxy_py.Http.Parser.is_state get proxy_py.Base.same
pipelined_request-Leaked_example =
    pipelined_request-Leaked credentials agent 0 with_credentials (proxy_of request (some 0) [])
      (codes "Proxy-Authorization", codes "Basic abc") refl refl (with_credentials-IsSound.1) refl

-- A proxy whose server the pool knows.
abbrev filed : HttpProxy ℕ
filed = record (proxy_of request (some 0) (7 ∷ [])) {
  pool = record one_server { pools = (connected.addr, 0 ∷ []) ∷ [] };
}

abbrev unfiled : Pool
unfiled = record one_server { connections = []; pools = (connected.addr, []) ∷ [] }

-- The socket of a connection that is given up stays open, its side for writing excepted.
abbrev given_up : HttpProxy ℕ
given_up = record filed {
  upstream = none;
  pool = record unfiled {
    objects =
        (0, record connected { state = record new_connection { closed = true }; finished = true })
        ∷ [];
  };
}

gives_up : close_and_release (flags_of true) filed ≡ ok (given_up, true)
unfolding get close_and_release proxy_py.Core.Pool.release proxy_py.Http.Proxy.Io.mark_closed
    proxy_py.Core.Pool.update_object proxy_py.Dict.put proxy_py.Core.Pool.remove_fileno
    proxy_py.Core.Pool.remove_object is_member proxy_py.Base.Int.both_equal proxy_py.Base.same
    proxy_py.Core.Pool.close_server proxy_py.Dict.remove proxy_py.Sets.without
    proxy_py.Core.Connection.close proxy_py.Core.Pool.finish
gives_up = refl

close_and_release-IsShut_example :
    (true ≡ true) × (given_up.upstream ≡ none) × IsShut 0 false given_up.pool
unfolding get
close_and_release-IsShut_example =
    close_and_release-IsShut (flags_of true) 0 connected filed given_up true refl refl refl gives_up

abbrev ended : HttpProxy ℕ
ended = record filed {
  pool = record unfiled {
    objects =
        (
          0,
          record connected {
            state = record new_connection { closed = true };
            shut = true;
            finished = true;
          },
        )
        ∷ [];
  };
}

ends : on_client_connection_close (flags_of true) credentials filed ≡ ok ended
unfolding get on_client_connection_close proxy_py.Core.Pool.release proxy_py.Core.Pool.remove_fileno
    proxy_py.Core.Pool.remove_object is_member proxy_py.Base.Int.both_equal proxy_py.Base.same
    proxy_py.Dict.put proxy_py.Dict.remove proxy_py.Http.Proxy.Io.told_closed
    proxy_py.Core.Pool.close_server proxy_py.Sets.without proxy_py.Core.Connection.close
    proxy_py.Core.Pool.finish
ends = refl

on_client_connection_close-IsShut_example : IsShut 0 true ended.pool
unfolding get
on_client_connection_close-IsShut_example =
    on_client_connection_close-IsShut (flags_of true) credentials 0 5 connected filed ended refl
      refl refl refl refl (λ e. refl) ends
