-- ===== src/Core/Connection/Limit.antt =====
-- How much one flush sends.
use proxy_py.Base.{
  ℕ, ◌≤◌, ◌≡◌, refl, true, false, not, Bool, Option, List, [], ◌∷◌, arith, if◌then◌else◌, Bytes,
  length, take, length-take, Result, Returns, blocking_io, ok, raise,
}
use proxy_py.Core.Connection.{
  Connection, Socket, flush, flush_first, after_send, has_buffer, send_limit,
}
use proxy_py.Core.Connection.Stream.{IsSocket}

pub first_length : List Bytes → ℕ
first_length [] = 0
first_length (mv ∷ rest) = length mv

module _ (socket : Socket) (honest : IsSocket socket) where
  after_send-limit :
      (c : Connection) (mv : Bytes) (rest : List Bytes) (limit : ℕ) (r : Result ℕ)
      → socket (take limit mv) ≡ r
      → Returns (λ q. (q.1 ≤ limit) × (q.1 ≤ length mv)) (after_send c mv rest r)
  unfolding after_send
  after_send-limit c mv rest limit (ok n) e =
      omega (arith, honest.sends-le (take limit mv) n e, length-take limit mv)
  after_send-limit c mv rest limit (raise blocking_io) e = omega arith
  after_send-limit c mv rest limit (raise x) e = tt

  -- With a socket that takes no more than it is given, a flush that returns
  -- has sent no more than the limit asks, or 65536 bytes without one or with
  -- a limit of 0, and no more than the first buffer holds.
  pub flush-limit :
      (max_send_size : Option ℕ) (c : Connection)
      → Returns
          (λ q. (q.1 ≤ send_limit max_send_size) × (q.1 ≤ first_length c.buffer))
          (flush socket max_send_size c)
  unfolding flush flush_first first_length
  flush-limit max_send_size c = by_buffer (has_buffer c) c.buffer
    where
      by_buffer :
          (b : Bool) (buffer : List Bytes)
          → Returns
              (λ q. (q.1 ≤ send_limit max_send_size) × (q.1 ≤ first_length buffer))
              (if not b then ok (c, 0) else flush_first socket (send_limit max_send_size) c buffer)
      by_buffer false buffer = omega arith
      by_buffer true [] = tt
      by_buffer true (mv ∷ rest) =
          after_send-limit c mv rest (send_limit max_send_size)
            (socket (take (send_limit max_send_size) mv)) refl
