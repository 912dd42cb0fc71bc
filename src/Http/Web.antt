-- ===== src/Http/Web.antt =====
-- `HttpWebServerPlugin` of proxy/http/server/web.py: the choice of a route, and the frames of a websocket.
pub mod Frames
mod Tests
use proxy_py.Base.{
  ℕ, zero, suc, Bool, true, false, ◌&&◌, Option, none, some, List, [], ◌∷◌, ◌==◌, if◌then◌else◌,
  Bytes, length, Result, assertion_error, http_protocol, ok, raise,
}
use proxy_py.Bytes.{codes}
use proxy_py.Core.Connection.{Connection, queue}
use proxy_py.Http.Message.{Message, header, is_websocket_upgrade}
use proxy_py.Http.Packet.{build_websocket_handshake_response}
use proxy_py.Http.Responses.{not_found}
use proxy_py.Http.Websocket
use proxy_py.Http.Websocket.{Frame, new_frame}

-- `httpProtocolTypes`
pub data WebProtocol : Type 0 where
  http https websocket : WebProtocol

-- What a call leaves, and whether it raised.
abbrev pub After : Type 0 → Type 0
After A = A × Result (Unit {0})

-- The plugins share the connection of the client; `on_client_data` answers whether it returns bytes, or `None`; `S` is the state of all of them, and a number names one.
pub record Site (S : Type 0) : Type 0 where
  pub routes : WebProtocol → List ((Bytes → Bool) × ℕ)
  pub do_upgrade : ℕ → Message → S → Bool
  pub on_client_data : ℕ → Message → Bytes → Connection × S → (Connection × S) × Result Bool
  pub on_websocket_open : ℕ → Connection × S → After (Connection × S)
  pub on_websocket_message : ℕ → Connection × S → Frame → After (Connection × S)
  pub handle_request : ℕ → Message → Connection × S → After (Connection × S)

pub record Web (S : Type 0) : Type 0 where
  pub shared : Connection × S
  pub request : Message
  pub route : Option ℕ
  pub switched : Bool

-- `_protocol`
unfoldable pub protocol : Bool → Message → WebProtocol
protocol encryption_enabled m =
    if is_websocket_upgrade m then websocket else if encryption_enabled then https else http

-- The first pattern that matches.
unfoldable pub first_match : Bytes → List ((Bytes → Bool) × ℕ) → Option ℕ
first_match path [] = none
first_match path ((pattern, plugin) ∷ rest) =
    if pattern path then some plugin else first_match path rest

abbrev pub path_or_root : Option Bytes → Bytes
path_or_root none = b'/' ∷ []
path_or_root (some []) = b'/' ∷ []
path_or_root (some (c ∷ cs)) = c ∷ cs

module _ {S : Type 0} where
  abbrev pub with_shared : Web S → After (Connection × S) → After (Web S)
  with_shared w (shared, r) = (record w { shared = shared }, r)

  abbrev pub queue_web : Bytes → Web S → Web S
  queue_web packet w = record w { shared = (queue packet w.shared.0, w.shared.1) }

  abbrev pub and_then : After (Web S) → (Web S → After (Web S)) → After (Web S)
  and_then (w, raise e) next = (w, raise e)
  and_then (w, ok done) next = next w

  -- `switch_to_websocket`; `WebsocketFrame.key_to_accept` is the parameter `accept`.
  unfoldable pub switch_to_websocket : (Bytes → Bytes) → Web S → After (Web S)
  switch_to_websocket accept w = elim (header w.request (codes "Sec-WebSocket-Key")) [
    | raise e ↦ (w, raise e)
    | ok key ↦ (
      record (queue_web (build_websocket_handshake_response (accept key)) w) { switched = true },
      ok tt,
    )
  ]

  -- What `_try_route` does with the plugin of the route.
  unfoldable pub start_route : Site S → (Bytes → Bytes) → ℕ → Web S → After (Web S)
  start_route site accept plugin w =
      let w' = record w { route = some plugin } in
      if is_websocket_upgrade w.request && site.do_upgrade plugin w.request w.shared.1
      then and_then (switch_to_websocket accept w')
          (λ u. with_shared u (site.on_websocket_open plugin u.shared))
      else with_shared w' (site.handle_request plugin w.request w.shared)

  unfoldable pub try_route : Site S → (Bytes → Bytes) → Bool → Bytes → Web S → After (Web S)
  try_route site accept encryption_enabled path w =
      elim (first_match path (site.routes (protocol encryption_enabled w.request))) [
        | none ↦ (w, ok tt)
        | some plugin ↦ start_route site accept plugin w
      ]

  -- Without a route: the static server, which is a parameter where it is enabled, or 404.
  abbrev pub without_route :
      Bytes → Option (Bytes → Bytes) → Bytes → Web S → Option ℕ → Web S × Result Bool
  without_route agent static path w (some plugin) = (w, ok false)
  without_route agent (some serve) path w none = (queue_web (serve path) w, ok true)
  without_route agent none path w none = (queue_web (not_found agent) w, ok true)

  abbrev pub completed :
      Bytes → Option (Bytes → Bytes) → Bytes → After (Web S) → Web S × Result Bool
  completed agent static path (w, raise e) = (w, raise e)
  completed agent static path (w, ok done) = without_route agent static path w w.route

  -- `on_request_complete`, where events are not published.
  unfoldable pub on_request_complete :
      Site S → (Bytes → Bytes) → Bool → Bytes → Option (Bytes → Bytes) → Web S → Web S × Result Bool
  on_request_complete site accept encryption_enabled agent static w =
      let path = path_or_root w.request.path in
      completed agent static path (try_route site accept encryption_enabled path w)

-- `websocketOpcodes.CONNECTION_CLOSE`
abbrev pub connection_close : ℕ
connection_close = 8

-- What follows a frame, given what its receiver would make of it.
abbrev pub on_frame : {A R : Type 0} → (After A → R) → (A → R) → A → Frame → After A → R
on_frame stop next a f (a', raise e) =
    if f.opcode == connection_close then stop (a, raise http_protocol) else stop (a', raise e)
on_frame stop next a f (a', ok done) =
    if f.opcode == connection_close then stop (a, raise http_protocol) else next a'

-- The loop over the frames of `on_client_data`, for any receiver of messages.
unfoldable pub websocket_loop :
    {A : Type 0} → ℕ → (A → Frame → After A) → A → Bytes → Option (After A)
websocket_loop fuel receiver a [] = some (a, ok tt)
websocket_loop zero receiver a (b ∷ raw) = none
websocket_loop (suc fuel) receiver a (b ∷ raw) = elim (Websocket.parse new_frame (b ∷ raw)) [
  | raise e ↦ some (a, raise e)
  | ok q ↦ on_frame some (λ a'. websocket_loop fuel receiver a' (q.1)) a (q.0) (receiver a (q.0))
]

-- Unless the route has answered `None`, the frames are read.
abbrev pub after_route :
    {S : Type 0}
    → Site S
    → ℕ
    → Bytes
    → Web S
    → (Connection × S) × Result Bool
    → Option (After (Web S))
after_route site plugin raw w (shared, raise e) = some (record w { shared = shared }, raise e)
after_route site plugin raw w (shared, ok false) = some (record w { shared = shared }, ok tt)
after_route site plugin raw w (shared, ok true) =
    elim (websocket_loop (length raw) (site.on_websocket_message plugin) shared raw) [
      | none ↦ none
      | some r ↦ some (with_shared w r)
    ]

-- `on_client_data` after a switch to a websocket, with a round of fuel for each byte.
unfoldable pub on_websocket_data : {S : Type 0} → Site S → Bytes → Web S → Option (After (Web S))
on_websocket_data site raw w = elim w.route [
  | none ↦ some (w, raise assertion_error)
  | some plugin ↦ after_route site plugin raw w (site.on_client_data plugin w.request raw w.shared)
]
