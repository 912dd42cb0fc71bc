-- ===== src/Core/Selector.antt =====
-- `selectors.DefaultSelector` of Python's standard library, as proxy/core/work/threadless.py uses it:
-- the descriptors that are watched, each with its events and its owner.
pub mod Laws
use proxy_py.Base.{
  ℕ, not, ◌&&◌, Option, none, some, List, ltb, ◌==◌, if◌then◌else◌, number_eq, ◌>>=◌, ◌>>◌, guard,
  Result, value_error, key_error, ok, raise,
}
use proxy_py.Base.Int.{ℤ, pos, negsuc}
use proxy_py.Dict.{get, put, remove, contains}

pub record SelectorKey : Type 0 where
  pub events : ℕ
  pub owner : ℕ

abbrev pub Selector : Type 0
Selector = List (ℕ × SelectorKey)

-- What the operating system says to a descriptor and its events, which it may refuse.
abbrev pub Kernel : Type 0
Kernel = ℕ → ℕ → Result (Unit {0})

-- No file has a descriptor below zero.
abbrev pub fd_of : ℤ → Result ℕ
fd_of (pos f) = ok f
fd_of (negsuc n) = raise value_error

abbrev pub watched : ℤ → Selector → Option SelectorKey
watched (pos f) s = get f s
watched (negsuc n) s = none

-- The events are EVENT_READ (1), EVENT_WRITE (2) or both.
unfoldable pub register : Kernel → ℤ → ℕ → ℕ → Selector → Result Selector
register kernel fileno events owner s = do
  guard (ltb 0 events && ltb events 4) value_error
  f ← fd_of fileno
  guard (not (contains f s)) key_error
  kernel f events
  ok (put f (record { events = events; owner = owner }) s)

abbrev pub found_key : Option SelectorKey → Result SelectorKey
found_key none = raise key_error
found_key (some k) = ok k

unfoldable pub modify : Kernel → ℤ → ℕ → ℕ → Selector → Result Selector
modify kernel fileno events owner s = do
  f ← fd_of fileno
  k ← found_key (get f s)
  if events == k.events then ok tt else kernel f events
  ok (put f (record { events = events; owner = owner }) s)

unfoldable pub unregister : ℤ → Selector → Result Selector
unregister fileno s = do f ← fd_of fileno; k ← found_key (get f s); ok (remove f s)
