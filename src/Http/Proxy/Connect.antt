-- ===== src/Http/Proxy/Connect.antt =====
-- `connect_upstream` of proxy/http/proxy/server.py.
use proxy_py.Base.{
  ℕ, zero, Bool, Option, none, some, List, [], ◌∷◌, if◌then◌else◌, number_eq, Bytes, Raised, Result,
  ok, raise,
}
use proxy_py.Base.Int.{ℤ, pos}
use proxy_py.Dict.{put}
use proxy_py.Core.Pool.{Address, Server, Pool, new_server, connect, acquire, release}
use proxy_py.Http.Responses.{protocol_exception, connection_failed}
use proxy_py.Http.Handler.{Reply, rejected}
use proxy_py.Http.Proxy.State.{Flags, ProxyPlugins, HttpProxy, resolve, reply_of}

-- `new_socket_connection`, the order in which a set is walked, and the identity of a new object.
pub record Network : Type 0 where
  pub opened : Address → Option Address → Result ℕ
  pub order : List ℕ → List ℕ
  pub fresh : ℕ

-- Whether an exception has come out of the `try`, beside the state that it leaves.
abbrev pub Tried : Type 0 → Type 0
Tried Q = HttpProxy Q × Option Raised

-- Host and port, unless one is missing.
abbrev pub target : Option Bytes → Option ℤ → Option Address
target none port = none
target (some []) port = none
target (some (c ∷ cs)) none = none
target (some (c ∷ cs)) (some (pos zero)) = none
target (some (c ∷ cs)) (some port) = some (c ∷ cs, port)

-- `None if not upstream_ip else (upstream_ip, port)`, or the address of the server itself.
abbrev pub override : Option Bytes → Address → Address
override none addr = addr
override (some []) addr = addr
override (some (c ∷ cs)) addr = (c ∷ cs, addr.1)

module _ {Q : Type 0} where
  abbrev pub with_object : ℕ → Server → HttpProxy Q → HttpProxy Q
  with_object i s p = record p { pool = record (p.pool) { objects = put i s p.pool.objects } }

  abbrev pub connected : ℕ → HttpProxy Q → Result Server → Tried Q
  connected i p (raise e) = (p, some e)
  connected i p (ok s) = (with_object i s p, none)

  -- A connection of its own; it is `self.upstream` also where `connect` fails.
  unfoldable pub connect_new :
      Network → Option Bytes → Option Address → Address → HttpProxy Q → Tried Q
  connect_new network ip source addr p =
      connected network.fresh
        (with_object network.fresh (new_server addr) (record p { upstream = some network.fresh }))
        (connect (λ a. network.opened (override ip a) source) (new_server addr))

  abbrev pub acquired : HttpProxy Q → Result (Pool × Bool × ℕ) → Tried Q
  acquired p (raise e) = (p, some e)
  acquired p (ok (pool, created, i)) = (record p { pool = pool; upstream = some i }, none)

  unfoldable pub acquire_upstream : Network → Address → HttpProxy Q → Tried Q
  acquire_upstream network addr p =
      acquired p (acquire network.order (λ a. network.opened a none) network.fresh addr p.pool)

  abbrev pub resolved :
      Flags
      → Network
      → Address
      → HttpProxy Q
      → Result (List Q × Option Bytes × Option Address)
      → Tried Q
  resolved flags network addr p (raise e) = (p, some e)
  resolved flags network addr p (ok (qs, ip, source)) =
      if flags.enable_conn_pool
      then acquire_upstream network addr (record p { plugins = qs })
      else connect_new network ip source addr (record p { plugins = qs })

  -- The body of the `try`.
  unfoldable pub try_connect : Flags → ProxyPlugins Q → Network → Address → HttpProxy Q → Tried Q
  try_connect flags plugins network addr p =
      resolved flags network addr p
        (resolve plugins.resolve_dns addr.0 addr.1 p.plugins (none, none))

  abbrev pub released : HttpProxy Q → Result Pool → HttpProxy Q × Reply
  released p (raise e) = (p, reply_of e)
  released p (ok pool) = (record p { pool = pool }, rejected connection_failed)

  -- The `except`.
  unfoldable pub connect_failed : Flags → HttpProxy Q → HttpProxy Q × Reply
  connect_failed flags p =
      if flags.enable_conn_pool
      then elim p.upstream [
        | none ↦ (p, rejected connection_failed)
        | some i ↦ released p (release i p.pool)
      ]
      else (p, rejected connection_failed)

  -- Without an exception, there is no reply yet.
  abbrev pub tried : Flags → Tried Q → HttpProxy Q × Option Reply
  tried flags (p, none) = (p, none)
  tried flags (p, some e) = let (q, reply) = connect_failed flags p in (q, some reply)

  -- `connect_upstream`
  unfoldable pub connect_upstream :
      Flags → ProxyPlugins Q → Network → HttpProxy Q → HttpProxy Q × Option Reply
  connect_upstream flags plugins network p = elim (target p.request.host p.request.port) [
    | none ↦ (p, some (rejected protocol_exception))
    | some addr ↦ tried flags (try_connect flags plugins network addr p)
  ]
