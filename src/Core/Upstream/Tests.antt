-- ===== src/Core/Upstream/Tests.antt =====
-- Runs of a handler of an upstream connection on concrete input, and an instance of its theorem.
use proxy_py.Base.{false, ℕ, ◌≡◌, refl, min, some, [], ◌∷◌, arith, length, ok}
use proxy_py.Base.Int.{pos}
use proxy_py.Bytes.{codes}
use proxy_py.Core.Connection.{Connection, Socket, new_connection}
use proxy_py.Core.Connection.Stream.{IsSocket}
use proxy_py.Core.Upstream.{Upstream, get_descriptors}

-- A socket that takes three bytes at a time.
abbrev three_at_a_time : Socket
three_at_a_time raw = ok (min 3 (length raw))

three_at_a_time-IsSocket : IsSocket three_at_a_time
three_at_a_time-IsSocket = record { sends-le = λ d n e. omega (arith, ok_eq e) }
  where
    ok_eq : {m n : ℕ} → ok m ≡ ok n → m ≡ n
    ok_eq e = cc e

abbrev connected : Upstream ℕ
connected = record {
  upstream = some (record {
    state = record new_connection { buffer = codes "GET /" ∷ []; num_buffer = 1 };
    addr = (codes "localhost", pos 80);
    fileno = some 5;
    shut = false;
    finished = false;
  });
  total_size = 0;
  base = 0;
}

waits : get_descriptors connected ≡ ok (pos 5 ∷ [], pos 5 ∷ [])
unfolding get_descriptors proxy_py.Core.Connection.has_buffer
waits = refl
