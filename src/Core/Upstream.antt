-- ===== src/Core/Upstream.antt =====
-- `TcpUpstreamConnectionHandler` of proxy/core/base/tcp_upstream.py.
pub mod Sent
mod Tests
use proxy_py.Base.{
  ℕ, ◌+◌, Bool, true, false, ◌&&◌, Option, none, some, List, [], ◌∷◌, if◌then◌else◌, Bytes, length,
  ◌>>=◌, Raised, Result, ok, raise,
}
use proxy_py.Base.Int.{int_eq, ℤ}
use proxy_py.Sets.{is_member}
use proxy_py.Core.Connection.{Connection, Socket, flush, recv, has_buffer}
use proxy_py.Core.Pool.{Server, Address, new_server, fileno_of}

-- `A` is the state of the class that has `handle_upstream_data`.
pub record Upstream (A : Type 0) : Type 0 where
  pub upstream : Option Server
  pub total_size : ℕ
  pub base : A

module _ {A : Type 0} where
  unfoldable pub initialize_upstream : Address → Upstream A → Upstream A
  initialize_upstream addr u = record u { upstream = some (new_server addr) }

  -- Readables and writables.
  unfoldable pub get_descriptors : Upstream A → Result (List ℤ × List ℤ)
  get_descriptors u = elim u.upstream [
    | none ↦ ok ([], [])
    | some s ↦ fileno_of s >>= λ f. ok (f ∷ [], if has_buffer s.state then f ∷ [] else [])
  ]

  -- The exceptions that `read_from_descriptors` takes for an end, or for nothing.
  abbrev pub read_failed : Upstream A → Raised → Result (Upstream A × Bool)
  read_failed u Raised.timeout = ok (u, true)
  read_failed u Raised.ssl_want_read = ok (u, false)
  read_failed u Raised.connection_reset = ok (u, true)
  read_failed u e = raise e

  -- What follows `handle_upstream_data`, which may raise.
  abbrev pub after_data : Upstream A → A × Option Raised → Result (Upstream A × Bool)
  after_data u (a, none) = ok (record u { base = a }, false)
  after_data u (a, some e) = read_failed (record u { base = a }) e

  abbrev pub after_recv :
      (A → Bytes → A × Option Raised)
      → Upstream A
      → Result (Option Bytes)
      → Result (Upstream A × Bool)
  after_recv handle_upstream_data u (raise e) = read_failed u e
  after_recv handle_upstream_data u (ok none) = ok (u, true)
  after_recv handle_upstream_data u (ok (some raw)) =
      after_data (record u { total_size = u.total_size + length raw })
        (handle_upstream_data u.base raw)

  abbrev pub read_ready :
      (A → Bytes → A × Option Raised)
      → (ℕ → Result Bytes)
      → ℕ
      → Bool
      → Upstream A
      → Result (Upstream A × Bool)
  read_ready handle_upstream_data receive server_recvbuf_size ready u =
      if ready
      then after_recv handle_upstream_data u (recv receive server_recvbuf_size)
      else ok (u, false)

  unfoldable pub read_from_descriptors :
      (A → Bytes → A × Option Raised)
      → (ℕ → Result Bytes)
      → ℕ
      → List ℤ
      → Upstream A
      → Result (Upstream A × Bool)
  read_from_descriptors handle_upstream_data receive server_recvbuf_size readables u =
      elim u.upstream [
        | none ↦ ok (u, false)
        | some s ↦ fileno_of s >>= λ f.
            read_ready handle_upstream_data receive server_recvbuf_size (is_member f readables) u
      ]

  abbrev pub after_flush :
      Upstream A → Server → Result (Connection × ℕ) → Result (Upstream A × Bool)
  after_flush u s (ok (c, n)) = ok (record u { upstream = some (record s { state = c }) }, false)
  after_flush u s (raise Raised.ssl_want_write) = ok (u, false)
  after_flush u s (raise Raised.broken_pipe) = ok (u, true)
  after_flush u s (raise e) = raise e

  abbrev pub write_ready : Socket → Bool → Server → Upstream A → Result (Upstream A × Bool)
  write_ready send ready s u =
      if ready then after_flush u s (flush send none s.state) else ok (u, false)

  unfoldable pub write_to_descriptors : Socket → List ℤ → Upstream A → Result (Upstream A × Bool)
  write_to_descriptors send writables u = elim u.upstream [
    | none ↦ ok (u, false)
    | some s ↦
        fileno_of s >>= λ f. write_ready send (is_member f writables && has_buffer s.state) s u
  ]
