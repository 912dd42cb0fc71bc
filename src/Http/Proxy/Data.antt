-- ===== src/Http/Proxy/Data.antt =====
-- `on_client_data` of proxy/http/proxy/server.py: what the client sends after its first request.
use proxy_py.Base.{
  ℕ, Bool, true, false, not, ◌&&◌, ◌||◌, Option, none, some, List, [], if◌then◌else◌, Bytes, Run,
  Result, ok, raise,
}
use proxy_py.Core.Pool.{Server}
use proxy_py.Http.Message.{Message, empty_message, request_parser, complete, is_connection_upgrade}
use proxy_py.Http.Parser.{parse, is_state}
use proxy_py.Http.Packet.{build}
use proxy_py.Http.Handler.{Reply, answer, rejected}
use proxy_py.Http.Proxy.State.{
  Shared, shared_of, Flags, ProxyPlugins, HttpProxy, Asked, goes_on, stops, rejects, fails, ask,
  Passing, passes, keeps, throws, breaks, pass_on, after_pass, reply_of, queue_upstream, object_of,
  tls_intercept_enabled,
}

abbrev pub or_new : Option Message → Message → Message
or_new none m = m
or_new (some q) m = q

abbrev pub awaits_packets : Option Message → Bool
awaits_packets none = false
awaits_packets (some m) = is_connection_upgrade m

abbrev pub is_closed : Option Server → Bool
is_closed none = true
is_closed (some s) = s.state.closed

module _ {Q : Type 0} where
  abbrev pub offered : HttpProxy Q → List Q × Shared × Passing → HttpProxy Q × Reply
  offered p r = (
    after_pass p r,
    elim r.2 [
      | passes raw ↦ answer false
      | keeps ↦ answer false
      | throws e ↦ rejected e
      | breaks e ↦ reply_of e
    ],
  )

  -- Without a server, the plugins get the bytes as they are.
  unfoldable pub offer : ProxyPlugins Q → Bytes → HttpProxy Q → HttpProxy Q × Reply
  offer plugins raw p = offered p (pass_on plugins.handle_client_data p.plugins (shared_of p) raw)

  -- The request goes to the server; one for an upgrade is kept.
  abbrev pub send_pipelined : ℕ → Message → HttpProxy Q → Result Bytes → HttpProxy Q × Reply
  send_pipelined i m p (raise e) = (p, reply_of e)
  send_pipelined i m p (ok raw) = (
    record (queue_upstream i raw p) {
      pipeline_request = if is_connection_upgrade m then some m else none;
    },
    answer false,
  )

  -- What the plugins have left of a request.
  abbrev pub asked_pipelined : ℕ → Bytes → HttpProxy Q → Asked Q → HttpProxy Q × Reply
  asked_pipelined i agent p (qs, shared, m, said) =
      let q = record p {
        plugins = qs;
        client = shared.0;
        pool = shared.1;
        pipeline_request = some m;
      } in
      elim said [
        | goes_on ↦ send_pipelined i m q (build agent [] false none m)
        | stops ↦ (q, answer false)
        | rejects e ↦ (q, rejected e)
        | fails e ↦ (q, reply_of e)
      ]

  unfoldable pub pipelined_request :
      ProxyPlugins Q → Bytes → ℕ → Message → HttpProxy Q → HttpProxy Q × Reply
  pipelined_request plugins agent i m p =
      if is_state m.state complete
      then asked_pipelined i agent p (ask plugins.handle_client_request p.plugins (shared_of p) m)
      else (record p { pipeline_request = some m }, answer false)

  abbrev pub parsed_pipelined :
      ProxyPlugins Q → Bytes → ℕ → HttpProxy Q → Result Message → HttpProxy Q × Reply
  parsed_pipelined plugins agent i p (raise e) = (p, reply_of e)
  parsed_pipelined plugins agent i p (ok m) = pipelined_request plugins agent i m p

  abbrev pub parse_pipelined :
      ProxyPlugins Q → Bytes → ℕ → HttpProxy Q → Run Message → Option (HttpProxy Q × Reply)
  parse_pipelined plugins agent i p none = none
  parse_pipelined plugins agent i p (some r) = some (parsed_pipelined plugins agent i p r)

  -- Data of a client that may send one request after another.
  unfoldable pub pipeline_data :
      ℕ → ProxyPlugins Q → Bytes → Bytes → ℕ → HttpProxy Q → Option (HttpProxy Q × Reply)
  pipeline_data fuel plugins agent raw i p =
      if awaits_packets p.pipeline_request
      then some (queue_upstream i raw p, answer false)
      else let m = or_new p.pipeline_request (empty_message request_parser none) in
        parse_pipelined plugins agent i (record p { pipeline_request = some m })
          (parse fuel m raw none)

  -- Whether requests can be read.
  abbrev pub is_readable : Flags → ProxyPlugins Q → HttpProxy Q → Bool
  is_readable flags plugins p =
      is_state p.request.state complete
      && (not p.request.is_https_tunnel || tls_intercept_enabled flags plugins p)

  unfoldable pub upstream_data :
      ℕ → Flags → ProxyPlugins Q → Bytes → Bytes → ℕ → HttpProxy Q → Option (HttpProxy Q × Reply)
  upstream_data fuel flags plugins agent raw i p =
      if is_readable flags plugins p
      then pipeline_data fuel plugins agent raw i p
      else some (queue_upstream i raw p, answer false)

  -- `on_client_data`; `fuel` is that of the parser.
  unfoldable pub on_client_data :
      ℕ → Flags → ProxyPlugins Q → Bytes → Bytes → HttpProxy Q → Option (HttpProxy Q × Reply)
  on_client_data fuel flags plugins agent raw p = elim p.upstream [
    | none ↦ some (offer plugins raw p)
    | some i ↦
        if is_closed (object_of p i)
        then some (p, answer false)
        else upstream_data fuel flags plugins agent raw i p
  ]
