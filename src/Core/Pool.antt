-- ===== src/Core/Pool.antt =====
-- `UpstreamConnectionPool` of proxy/core/connection/pool.py, over the `TcpServerConnection` of
-- proxy/core/connection/server.py.
pub mod Ownership
pub mod Lending
mod Tests
use proxy_py.Base.{
  ℕ, Bool, true, false, not, ◌||◌, Option, none, some, List, [], ◌∷◌, ◌++◌, if◌then◌else◌,
  number_eq, Bytes, ◌>>=◌, ◌>>◌, guard, Result, assertion_error, key_error, uninitialized, ok,
  raise,
}
use proxy_py.Base.Int.{int_eq, pair_eq, ℤ, pos, negsuc}
use proxy_py.Sets.{is_member, without, set_add}
use proxy_py.Dict.{get, put, remove}
use proxy_py.Core.Connection.{Connection, new_connection, mark_inuse, reset, close}

-- Host and port of a server.
abbrev pub Address : Type 0
Address = Bytes × ℤ

-- `fileno` is that of `_conn`, which is missing until `connect`; `shut` says that the socket itself has
-- been closed, which is not what the flag `closed` of the connection says.
pub record Server : Type 0 where
  pub state : Connection
  pub addr : Address
  pub fileno : Option ℕ
  pub shut : Bool
  pub finished : Bool

unfoldable pub new_server : Address → Server
new_server addr = record {
  state = record new_connection { closed = true };
  addr = addr;
  fileno = none;
  shut = false;
  finished = false;
}

-- `new_socket_connection` is the parameter `opened`.
unfoldable pub connect : (Address → Result ℕ) → Server → Result Server
connect opened s = elim s.fileno [
  | some f ↦ raise assertion_error
  | none ↦ opened s.addr >>= λ f.
      ok (record s { fileno = some f; state = record (s.state) { closed = false } })
]

-- `connection.fileno()`: a closed socket has -1.
abbrev pub fileno_of : Server → Result ℤ
fileno_of s = elim s.fileno [
  | none ↦ raise uninitialized
  | some f ↦ ok (if s.shut then negsuc 0 else pos f)
]

-- `close`
unfoldable pub close_server : Server → Server
close_server s = record s { state = (close s.state).0; shut = s.shut || not s.state.closed }

-- The connection objects by their identity, and the two indexes of the pool: by descriptor and by address.
pub record Pool : Type 0 where
  pub objects : List (ℕ × Server)
  pub connections : List (ℤ × ℕ)
  pub pools : List (Address × List ℕ)

abbrev pub new_pool : Pool
new_pool = record { objects = []; connections = []; pools = [] }

abbrev pub found {ℓ} : {A : Type ℓ} → Option A → Result A
found none = raise key_error
found (some a) = ok a

abbrev pub members : Option (List ℕ) → List ℕ
members none = []
members (some ids) = ids

-- `_add`
unfoldable pub add_object : ℕ → Server → ℤ → Pool → Pool
add_object i s f p = record {
  objects = put i (record s { state = record (s.state) { reusable = true } }) p.objects;
  connections = put f i p.connections;
  pools = put s.addr (set_add i (members (get s.addr p.pools))) p.pools;
}

-- `add`; `i` is the identity of the new object.
unfoldable pub add : (Address → Result ℕ) → ℕ → Address → Pool → Result Pool
add opened i addr p = do
  s ← connect opened (new_server addr)
  f ← fileno_of s
  ok (add_object i s f p)

abbrev pub reusable_of : Option Server → Bool
reusable_of none = false
reusable_of (some s) = s.state.reusable

-- The first object that can be used again.
unfoldable pub first_reusable : List (ℕ × Server) → List ℕ → Option ℕ
first_reusable objects [] = none
first_reusable objects (i ∷ is) =
    if reusable_of (get i objects) then some i else first_reusable objects is

abbrev pub changed : (Server → Server) → ℕ → Pool → Option Server → Pool
changed change i p none = p
changed change i p (some s) = record p { objects = put i (change s) p.objects }

unfoldable pub update_object : (Server → Server) → ℕ → Pool → Pool
update_object change i p = changed change i p (get i p.objects)

unfoldable pub mark_object : ℕ → Pool → Pool
unfolding update_object mark_inuse
mark_object = update_object (λ s. record s { state = mark_inuse s.state })

-- `acquire`: whether the connection is new, and the connection. The order in which a set is walked
-- is the parameter `order`.
unfoldable pub acquire :
    (List ℕ → List ℕ) → (Address → Result ℕ) → ℕ → Address → Pool → Result (Pool × Bool × ℕ)
acquire order opened i addr p =
    elim (first_reusable p.objects (order (members (get addr p.pools)))) [
      | some j ↦ ok (mark_object j p, false, j)
      | none ↦ add opened i addr p >>= λ q. ok (mark_object i q, true, i)
    ]

-- `shutdown(SHUT_WR)`; a closed socket raises an `OSError`, which is passed over.
unfoldable pub finish : Server → Server
finish s = record s { finished = s.finished || not s.shut }

-- What `_remove` does with the object `i` of the descriptor `f`.
unfoldable pub remove_object : ℤ → ℕ → Server → Pool → Result Pool
remove_object f i s p = do
  guard (is_member i (members (get s.addr p.pools))) key_error
  ok (record {
    objects = put i (close_server (finish s)) p.objects;
    connections = remove f p.connections;
    pools = put s.addr (without i (members (get s.addr p.pools))) p.pools;
  })

-- `_remove`
unfoldable pub remove_fileno : ℤ → Pool → Result Pool
remove_fileno f p = do
  i ← found (get f p.connections)
  s ← found (get i p.objects)
  remove_object f i s p

-- `release`
unfoldable pub release : ℕ → Pool → Result Pool
release i p = do
  s ← found (get i p.objects)
  guard (not s.state.reusable) assertion_error
  f ← fileno_of s
  remove_fileno f p

-- `retain`
unfoldable pub retain : ℕ → Pool → Result Pool
retain i p = do
  s ← found (get i p.objects)
  state ← reset s.state
  ok (record p { objects = put i (record s { state = state }) p.objects })

-- `handle_events`, on the descriptors that are ready to read.
unfoldable pub handle_events : List ℤ → Pool → Result Pool
handle_events [] p = ok p
handle_events (f ∷ fs) p = do q ← remove_fileno f p; handle_events fs q

-- `get_events`, as the descriptors that are waited for: of an object in a pool that can be used again.
unfoldable pub reusable_filenos : List (ℕ × Server) → List ℕ → Result (List ℤ)
reusable_filenos objects [] = ok []
reusable_filenos objects (i ∷ is) = do
  s ← found (get i objects)
  rest ← reusable_filenos objects is
  f ← if s.state.reusable then (fileno_of s >>= λ f. ok (f ∷ [])) else ok []
  ok (f ++ rest)

unfoldable pub get_events : List (ℕ × Server) → List (Address × List ℕ) → Result (List ℤ)
get_events objects [] = ok []
get_events objects ((addr, is) ∷ rest) = do
  these ← reusable_filenos objects is
  others ← get_events objects rest
  ok (these ++ others)
