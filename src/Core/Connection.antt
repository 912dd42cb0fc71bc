-- ===== src/Core/Connection.antt =====
-- `TcpConnection` of proxy/core/connection/connection.py.
pub mod Stream
pub mod Wire
pub mod Session
pub mod Drain
pub mod Limit
use proxy_py.Bytes.{is_empty}
use proxy_py.Base.{
  ℕ, zero, suc, ◌+◌, ◌-◌, Bool, true, false, not, Option, none, some, List, [], ◌∷◌, ◌++◌, ◌==◌,
  if◌then◌else◌, Bytes, length, take, drop, ◌>>=◌, Result, assertion_error, index_error,
  blocking_io, ok, raise,
}

pub record Connection : Type 0 where
  pub buffer : List Bytes
  pub closed : Bool
  pub reusable : Bool
  pub num_buffer : ℕ

abbrev pub new_connection : Connection
new_connection = record { buffer = []; closed = false; reusable = false; num_buffer = 0 }

-- `socket.send` (or that of a TLS socket): how many bytes it took, or what it raised.
abbrev pub Socket : Type 0
Socket = Bytes → Result ℕ

-- `connection.recv(buffer_size)`: no bytes say that the peer has closed.
unfoldable pub recv : (ℕ → Result Bytes) → ℕ → Result (Option Bytes)
recv receive size = do got ← receive size; ok (if is_empty got then none else some got)

-- `close`, where there is a socket; the socket is closed once.
unfoldable pub close : Connection → Connection × Bool
close c = if not c.closed then (record c { closed = true }, true) else (c, c.closed)

unfoldable pub has_buffer : Connection → Bool
has_buffer c = not (c.num_buffer == 0)

unfoldable pub queue : Bytes → Connection → Connection
queue mv c = record c { buffer = c.buffer ++ mv ∷ []; num_buffer = c.num_buffer + 1 }

-- `DEFAULT_MAX_SEND_SIZE`
abbrev pub default_max_send_size : ℕ
default_max_send_size = 65536

-- `max_send_size or DEFAULT_MAX_SEND_SIZE`
abbrev pub send_limit : Option ℕ → ℕ
send_limit none = default_max_send_size
send_limit (some zero) = default_max_send_size
send_limit (some (suc n)) = suc n

-- `sent` bytes of the first buffer are gone.
take_sent : Connection → Bytes → List Bytes → ℕ → Connection
take_sent c mv rest sent =
    if sent == length mv
    then record c { buffer = rest; num_buffer = c.num_buffer - 1 }
    else record c { buffer = drop sent mv ∷ rest }

-- What `flush` does with the outcome of `send`.
after_send : Connection → Bytes → List Bytes → Result ℕ → Result (Connection × ℕ)
after_send c mv rest (raise blocking_io) = ok (c, 0)
after_send c mv rest (raise e) = raise e
after_send c mv rest (ok sent) = ok (take_sent c mv rest sent, sent)

-- `mv = self.buffer[0]`
flush_first : Socket → ℕ → Connection → List Bytes → Result (Connection × ℕ)
flush_first socket limit c [] = raise index_error
flush_first socket limit c (mv ∷ rest) = after_send c mv rest (socket (take limit mv))

unfoldable pub flush : Socket → Option ℕ → Connection → Result (Connection × ℕ)
unfolding has_buffer flush_first after_send take_sent
flush socket max_send_size c =
    if not (has_buffer c)
    then ok (c, 0)
    else flush_first socket (send_limit max_send_size) c c.buffer

unfoldable pub mark_inuse : Connection → Connection
mark_inuse c = record c { reusable = false }

unfoldable pub reset : Connection → Result Connection
reset c =
    if c.closed
    then raise assertion_error
    else ok (record c { reusable = true; buffer = []; num_buffer = 0 })
