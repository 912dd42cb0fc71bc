-- ===== src/Http/Proxy/Plugged/Tests.antt =====
-- A request without credentials, byte for byte.
use proxy_py.Base.{
  ℕ, ◌≡◌, refl, true, false, Option, none, some, [], ◌∷◌, Bytes, Result, key_error, ok, raise,
}
use proxy_py.Bytes.{codes}
use proxy_py.Core.Connection.{new_connection, queue}
use proxy_py.Http.Auth.Credentials.{Authorized}
use proxy_py.Http.Message.{Message, empty_message, request_parser}
use proxy_py.Http.Parser.{parse}
use proxy_py.Http.Responses.{auth_failed_response}
use proxy_py.Http.Handler.{HttpHandler, handle_readables}
use proxy_py.Http.Proxy.State.{HttpProxy}
use proxy_py.Http.Proxy.Plugged.{Ready, plugged, refused, with_headers, handle_readables-refused}
use proxy_py.Http.Proxy.Examples.{agent, flags_of, credentials, network, interception, one_server}

abbrev raw : Bytes
raw = codes "GET http://example.com/ HTTP/1.1\r\nHost: example.com\r\n\r\n"

abbrev gives : ℕ → Result Bytes
gives size = ok raw

abbrev ready : Ready
ready = record { readables = []; writables = []; send = λ packet. ok 1; receive = gives }

abbrev idle : HttpHandler (HttpProxy ℕ)
idle = record {
  server = record { work = new_connection; must_flush_before_shutdown = false };
  request = empty_message request_parser none;
  plugin = none;
  writes_teared = false;
  reads_teared = false;
}

abbrev message_of : Option (Result Message) → Message
message_of none = empty_message request_parser none
message_of (some (ok m)) = m
message_of (some (raise e)) = empty_message request_parser none

asked : Message
asked = message_of (parse 9 (empty_message request_parser none) raw none)

parses : parse 9 (empty_message request_parser none) raw none ≡ some (ok asked)
unfolding asked parse proxy_py.Http.Parser.is_state proxy_py.Http.Parser.process_line
    proxy_py.Bytes.cut proxy_py.Bytes.split_max proxy_py.Http.Message.set_url
    proxy_py.Http.Url.from_bytes proxy_py.Base.same proxy_py.Http.Url.parse_authority
    proxy_py.Http.Parser.process_headers proxy_py.Bytes.strip proxy_py.Http.Parser.process_header
    proxy_py.Bytes.lower
parses = refl

missing : {value : Bytes} → ◌≡◌ {A = Result Bytes} (raise key_error) (ok value) → ⊥
missing e = cc

unauthorized : ¬ Authorized (codes "abc") asked
unfolding asked parse proxy_py.Http.Parser.is_state proxy_py.Http.Parser.process_line
    proxy_py.Bytes.cut proxy_py.Bytes.split_max proxy_py.Http.Message.set_url
    proxy_py.Http.Url.from_bytes proxy_py.Base.same proxy_py.Http.Url.parse_authority
    proxy_py.Http.Parser.process_headers proxy_py.Bytes.strip proxy_py.Http.Parser.process_header
    proxy_py.Bytes.lower proxy_py.Http.Message.header proxy_py.Dict.get proxy_py.Dict.put
unauthorized (value, e, given) = missing e

handle_readables-refused_example :
    handle_readables 9
      (plugged 9
        (flags_of true)
        credentials
        agent
        network
        interception
        ready
        one_server
        (7 ∷ [])
        (λ m raw. m))
      agent
      gives
      64
      true
      idle
    ≡ some (
        ok (
          record idle {
            server = record {
              work = queue (auth_failed_response agent) new_connection;
              must_flush_before_shutdown = true;
            };
            request = with_headers asked;
            plugin = some (refused one_server (7 ∷ []) new_connection asked);
          },
          false,
        ))
unfolding asked proxy_py.Http.Parser.is_state parse proxy_py.Http.Parser.process_line
    proxy_py.Bytes.cut proxy_py.Bytes.split_max proxy_py.Http.Message.set_url
    proxy_py.Http.Url.from_bytes proxy_py.Base.same proxy_py.Http.Url.parse_authority
    proxy_py.Http.Parser.process_headers proxy_py.Bytes.strip proxy_py.Http.Parser.process_header
    proxy_py.Bytes.lower proxy_py.Http.Message.http_handler_protocol
handle_readables-refused_example =
    handle_readables-refused 9 (flags_of true) credentials agent network interception ready
      one_server 7 [] (λ m raw. m) (codes "abc") refl gives 64 idle raw asked refl refl refl parses
      refl refl (λ e. cc e) unauthorized
