-- ===== src/Core/Pool/Tests.antt =====
-- Runs of the connection pool on concrete input, and instances of its theorems.
use mathlib.Core.Path.{subst}
use proxy_py.Base.{
  ℕ, ◌≢◌, ◌≡◌, refl, zero, suc, ◌==◌, ◌||◌, if◌then◌else◌, ◌⊎◌, inl, inr, Bool-cases, Bool, true,
  false, Option, none, some, List, [], ◌∷◌, arith, number_eq, Result, key_error, assertion_error,
  os_error, ok, raise,
}
use proxy_py.Base.Int.{pos, negsuc, int_eq, both_equal, both_equal_iff, pair_eq}
use proxy_py.Sets.{is_member}
use proxy_py.Dict.{get}
use proxy_py.Core.Connection.{new_connection}
use proxy_py.Core.Pool.{
  Address, Server, Pool, new_pool, acquire, release, retain, handle_events, get_events, members,
}
use proxy_py.Core.Pool.Ownership.{Filed, OfAddress}
use proxy_py.Core.Pool.Lending.{IsOrder, Lent, acquire-Lent, acquire-acquire}

-- Every connection gets the number of its port for a descriptor.
abbrev by_port : Address → Result ℕ
by_port a = elim a.1 [ pos n ↦ ok n | negsuc n ↦ raise os_error ]

abbrev as_is : List ℕ → List ℕ
as_is is = is

as_is-IsOrder : IsOrder as_is
as_is-IsOrder j is h = h

abbrev here : Address
here = (104 ∷ [], pos 80)

-- A connection in use, and one that nobody uses.
abbrev lent_server : Server
lent_server = record {
  state = new_connection;
  addr = here;
  fileno = some 80;
  shut = false;
  finished = false;
}

abbrev free_server : Server
free_server = record {
  state = record new_connection { reusable = true };
  addr = here;
  fileno = some 80;
  shut = false;
  finished = false;
}

-- A pool of one connection.
abbrev pool_of : Server → Pool
pool_of s = record {
  objects = (0, s) ∷ [];
  connections = (pos 80, 0) ∷ [];
  pools = (here, 0 ∷ []) ∷ [];
}

false_ne_true : false ≡ true → ⊥
false_ne_true e = cc

pool_of-Filed : (s : Server) → s.addr ≡ here → Filed (pool_of s)
unfolding get is_member
pool_of-Filed s e a j m = by_address (Bool-cases (both_equal here a)) m
  where
    by_number :
        (k : ℕ) → (0 == k || false) ≡ true → OfAddress here (if 0 == k then some s else none)
    by_number zero h = e
    by_number (suc k) h = ground arith

    by_address :
        ((both_equal here a ≡ true) ⊎ (both_equal here a ≡ false))
        → is_member j (members (get a ((here, 0 ∷ []) ∷ []))) ≡ true
        → OfAddress a (get j ((0, s) ∷ []))
    by_address (inl q) h =
        subst (λ b. OfAddress b (get j ((0, s) ∷ []))) ((both_equal_iff here a).0 q)
          (by_number j (rw q at h))
    by_address (inr q) h = absurd (false_ne_true (rw q at h))

new_pool-Filed : Filed new_pool
unfolding get is_member
new_pool-Filed a j m = absurd (false_ne_true m)

acquire_new : acquire as_is by_port 0 here new_pool ≡ ok (pool_of lent_server, true, 0)
unfolding acquire proxy_py.Core.Pool.first_reusable get proxy_py.Core.Pool.add
    proxy_py.Core.Pool.connect proxy_py.Core.Pool.new_server proxy_py.Core.Pool.mark_object
    proxy_py.Core.Pool.add_object proxy_py.Dict.put is_member
acquire_new = refl

acquire_free :
    acquire as_is by_port 1 here (pool_of free_server) ≡ ok (pool_of lent_server, false, 0)
unfolding acquire proxy_py.Core.Pool.first_reusable get proxy_py.Core.Pool.mark_object
    proxy_py.Dict.put both_equal proxy_py.Base.same
acquire_free = refl

-- What a second borrower of the same address gets.
abbrev two_lent : Pool
two_lent = record {
  objects = (0, lent_server) ∷ (1, lent_server) ∷ [];
  connections = (pos 80, 1) ∷ [];
  pools = (here, 1 ∷ 0 ∷ []) ∷ [];
}

acquire_second : acquire as_is by_port 1 here (pool_of lent_server) ≡ ok (two_lent, true, 1)
unfolding acquire proxy_py.Core.Pool.first_reusable get proxy_py.Core.Pool.add
    proxy_py.Core.Pool.connect proxy_py.Core.Pool.new_server proxy_py.Core.Pool.mark_object
    proxy_py.Core.Pool.add_object proxy_py.Dict.put is_member both_equal proxy_py.Base.same
acquire_second = refl

-- A connection that is given back is waited for, and is lent again.
retain_lent : retain 0 (pool_of lent_server) ≡ ok (pool_of free_server)
unfolding retain get proxy_py.Dict.put proxy_py.Core.Connection.reset
retain_lent = refl

waits_for_free : get_events ((0, free_server) ∷ []) ((here, 0 ∷ []) ∷ []) ≡ ok (pos 80 ∷ [])
unfolding get_events proxy_py.Core.Pool.reusable_filenos get
waits_for_free = refl

release_free : release 0 (pool_of free_server) ≡ raise assertion_error
unfolding release get
release_free = refl

release_unknown : release 3 (pool_of free_server) ≡ raise key_error
unfolding release get
release_unknown = refl

acquire-Lent_example :
    Lent here 1 (pool_of free_server) (acquire as_is by_port 1 here (pool_of free_server))
unfolding get
acquire-Lent_example =
    acquire-Lent as_is as_is-IsOrder by_port 1 here (pool_of free_server)
      (pool_of-Filed free_server refl) refl

acquire-acquire_example : ◌≢◌ {A = ℕ} 0 1
unfolding get
acquire-acquire_example =
    acquire-acquire as_is as_is-IsOrder by_port 0 1 0 1 here here new_pool (pool_of lent_server)
      two_lent true true new_pool-Filed refl refl acquire_new acquire_second
