-- ===== src/Http/Handler/Tests.antt =====
-- Runs of the protocol handler on concrete input, and instances of its theorems.
use proxy_py.Base.{
  ℕ, ◌⊎◌, ◌≡◌, refl, ◌||◌, ◌&&◌, Bool, true, false, Option, none, some, List, [], ◌∷◌, Bytes,
  Raised, Result, http_protocol, ok, raise,
}
use proxy_py.Base.Int.{int_eq}
use proxy_py.Bytes.{codes}
use proxy_py.Core.Connection.{Connection, new_connection, queue}
use proxy_py.Core.Server.{Round}
use proxy_py.Http.Message.{Message, empty_message, request_parser}
use proxy_py.Http.Parser.{parse}
use proxy_py.Http.Responses.{bad_request}
use proxy_py.Http.Handler.{HttpHandler, Plugins, Call, Reply, handle_readables, handle_events}
use proxy_py.Http.Handler.Closing.{FlushEnds, PluginEnds, IsOver, handle_events-Ended}
use proxy_py.Http.Handler.Rejection.{handle_readables-rejected}

-- A plugin that does nothing.
abbrev idle_call : ℕ → Connection → Message → Call ℕ
idle_call p c m = record { plugin = p; work = c; request = m; reply = Reply.answer false }

abbrev idle : Plugins ℕ
idle = record {
  half_parsed = λ m raw. record m { buffer = some raw };
  klasses = [];
  on_request_complete = idle_call;
  on_client_data = λ raw p c m. some (idle_call p c m);
  on_response_chunk = λ p chunk. ok p;
  write_to_descriptors = λ p c m. ok (p, c, m, false);
  read_from_descriptors = λ p c m. some (ok (p, c, m, false));
}

abbrev fresh : HttpHandler ℕ
fresh = record {
  server = record { work = new_connection; must_flush_before_shutdown = false };
  request = empty_message request_parser none;
  plugin = none;
  writes_teared = false;
  reads_teared = false;
}

abbrev agent : Bytes
agent = codes "proxy.py"

abbrev gibberish : Bytes
gibberish = codes "GET\r\n\r\n"

abbrev gives : ℕ → Result Bytes
gives size = ok gibberish

abbrev round : Round
round = record { readable = true; writable = true; send = λ raw. ok 1; receive = gives }

refused : parse 9 (empty_message request_parser none) gibberish none ≡ some (raise http_protocol)
unfolding parse proxy_py.Http.Parser.is_state proxy_py.Http.Parser.process_line proxy_py.Bytes.cut
    proxy_py.Bytes.split_max
refused = refl

bad_request_text :
    bad_request agent
    ≡ codes
        "HTTP/1.1 400 BAD REQUEST\r\nServer: proxy.py\r\nContent-Length: 0\r\nConnection: close\r\n\r\n"
unfolding proxy_py.Http.Packet.build_http_response proxy_py.Http.Packet.build_http_pkt
    proxy_py.Http.Chunk.join proxy_py.Number.digits proxy_py.Http.Packet.header_lines
    proxy_py.Dict.put proxy_py.Http.Packet.has_name proxy_py.Base.same proxy_py.Bytes.lower
    proxy_py.Http.Packet.build_http_header
bad_request_text = refl

handle_readables-rejected_example :
    handle_readables 9 idle agent gives 100 true fresh
    ≡ some (
        ok (
          record fresh {
            server = record {
              work = queue (bad_request agent) new_connection;
              must_flush_before_shutdown = true;
            };
            request = record (fresh.request) { buffer = some gibberish };
          },
          false,
        ))
unfolding parse proxy_py.Http.Parser.is_state
handle_readables-rejected_example =
    handle_readables-rejected 9 idle agent gives 100 fresh gibberish http_protocol refl refl refl
      refused

-- The last byte of an awaited flush.
abbrev awaited : HttpHandler ℕ
awaited = record fresh {
  server = record { work = queue (codes "!") new_connection; must_flush_before_shutdown = true };
}

abbrev sent_off : HttpHandler ℕ
sent_off = record fresh { writes_teared = true }

sends_off : handle_events 9 idle agent none 100 round awaited ≡ some (ok (sent_off, true))
unfolding handle_events proxy_py.Http.Handler.write_events proxy_py.Http.Handler.handle_writables
    proxy_py.Core.Connection.has_buffer queue proxy_py.Core.Server.handle_writables
    proxy_py.Core.Connection.flush
sends_off = refl

handle_events-Ended_example :
    FlushEnds round.send none awaited.server ⊎ (PluginEnds idle ⊎ IsOver sent_off)
handle_events-Ended_example =
    handle_events-Ended idle 9 agent none 100 round awaited sent_off sends_off
