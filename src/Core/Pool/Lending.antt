-- ===== src/Core/Pool/Lending.antt =====
-- A connection that is handed out is to the right server, and in nobody else's hands.
use proxy_py.Base.{
  ℕ, ◌≡◌, refl, sym, ap, ◌∙◌, ◌≢◌, Bool, true, false, Option, none, some, List, [], ◌∷◌, arith,
  ◌==◌, if◌then◌else◌, ==_iff, ==-refl, number_eq, ◌>>=◌, Result, ok, raise,
}
use mathlib.Core.Path.{subst}
use proxy_py.Base.Int.{int_eq, pair_eq, ℤ}
use proxy_py.Sets.{is_member}
use proxy_py.Dict.{get}
use proxy_py.Dict.Laws.{get-put}
use proxy_py.Core.Connection.{mark_inuse}
use proxy_py.Core.Pool.{
  mark_object, add_object, add, acquire, changed, update_object, connect, new_server, fileno_of,
  Address, Server, Pool, first_reusable, reusable_of, members,
}
use proxy_py.Core.Pool.Ownership.{Filed-update, Filed-add_object, IsFresh, OfAddress, Filed}

-- The walk through a set meets its members only.
abbrev pub IsOrder : (List ℕ → List ℕ) → Type 0
IsOrder order = (j : ℕ) (is : List ℕ) → is_member j (order is) ≡ true → is_member j is ≡ true

first_reusable-member :
    (objects : List (ℕ × Server)) (is : List ℕ) (j : ℕ)
    → first_reusable objects is ≡ some j
    → (is_member j is ≡ true) × (reusable_of (get j objects) ≡ true)
unfolding first_reusable is_member
first_reusable-member objects [] j e = cc
first_reusable-member objects (i ∷ is) j e =
    ground (arith, first_reusable-member objects is j, ==_iff i j)

-- What `acquire` gives: a connection to the address, which is not reusable any more. One that was in
-- the pool was reusable; the others are as they were.
abbrev pub Lent : Address → ℕ → Pool → Result (Pool × Bool × ℕ) → Type 0
Lent a i p (raise e) = Unit
Lent a i p (ok (q, created, j)) =
    Filed q
    × OfAddress a (get j q.objects)
    × (reusable_of (get j q.objects) ≡ false)
    × (if created then (j ≡ i) else (reusable_of (get j p.objects) ≡ true))
    × ((k : ℕ) → k ≢ j → get k q.objects ≡ get k p.objects)

neq_false : (m n : ℕ) → m ≢ n → (m == n) ≡ false
neq_false m n ne = ground arith

abbrev Marked : Address → ℕ → Pool → Pool → Type 0
Marked a j p q =
    OfAddress a (get j q.objects)
    × (reusable_of (get j q.objects) ≡ false)
    × ((k : ℕ) → k ≢ j → get k q.objects ≡ get k p.objects)

mark_object-Marked :
    (a : Address) (j : ℕ) (p : Pool)
    → OfAddress a (get j p.objects)
    → Marked a j p (mark_object j p)
unfolding mark_object update_object
mark_object-Marked a j p h = by_object (get j p.objects) h
  where
    by_object :
        (o : Option Server)
        → OfAddress a o
        → Marked a j p (changed (λ s. record s { state = mark_inuse s.state }) j p o)
    by_object none h' = absurd h'
    by_object (some s) h' = (
      rw (get-put j j (record s { state = mark_inuse s.state }) p.objects) (rw (==-refl j) h'),
      rw (get-put j j (record s { state = mark_inuse s.state }) p.objects) (rw (==-refl j) refl),
      λ k ne.
          get-put j k (record s { state = mark_inuse s.state }) p.objects
          ∙ rw (neq_false j k (λ e. ne (sym e))) refl,
    )

mark_object-Filed : (j : ℕ) (p : Pool) → Filed p → Filed (mark_object j p)
unfolding mark_object
mark_object-Filed j p h =
    Filed-update (λ s. record s { state = mark_inuse s.state }) j p (λ s. refl) h

add_object-facts :
    (i : ℕ) (s : Server) (f : ℤ) (p : Pool)
    → OfAddress s.addr (get i (add_object i s f p).objects)
      × ((k : ℕ) → k ≢ i → get k (add_object i s f p).objects ≡ get k p.objects)
unfolding add_object
add_object-facts i s f p = (
  rw (get-put i i (record s { state = record (s.state) { reusable = true } }) p.objects)
      (rw (==-refl i) refl),
  λ k ne.
      get-put i k (record s { state = record (s.state) { reusable = true } }) p.objects
      ∙ rw (neq_false i k (λ e. ne (sym e))) refl,
)

pub connect-addr :
    (opened : Address → Result ℕ) (addr : Address) (s : Server)
    → connect opened (new_server addr) ≡ ok s
    → s.addr ≡ addr
unfolding connect new_server
connect-addr opened addr s = by_result (opened addr)
  where
    by_result :
        (r : Result ℕ)
        → (r >>= λ f. ok (record (new_server addr) {
          fileno = some f;
          state = record ((new_server addr).state) { closed = false };
        }))
          ≡ ok s
        → s.addr ≡ addr
    by_result (raise e) = λ h. cc
    by_result (ok f) = λ h. ap (λ o. elim o [ ok t ↦ t.addr | raise e ↦ addr ]) (sym h)

-- A connection that has just been opened.
lend_new :
    (opened : Address → Result ℕ) (i : ℕ) (addr : Address) (p : Pool)
    → Filed p
    → IsFresh i p
    → Lent addr i p (add opened i addr p >>= λ q. ok (mark_object i q, true, i))
unfolding add
lend_new opened i addr p h fresh =
    by_server (connect opened (new_server addr)) (connect-addr opened addr)
  where
    by_fileno :
        (s : Server)
        → s.addr ≡ addr
        → (r : Result ℤ)
        → Lent addr i p
            ((r >>= λ f. ok (add_object i s f p)) >>= λ q. ok (mark_object i q, true, i))
    by_fileno s e (raise x) = tt
    by_fileno s e (ok f) =
        let (of_address, others) = add_object-facts i s f p in
        let (of_address', unused, others') =
          mark_object-Marked addr i (add_object i s f p)
            (subst (λ a. OfAddress a (get i (add_object i s f p).objects)) e of_address) in
        (
          mark_object-Filed i _ (Filed-add_object i s f p fresh h),
          of_address',
          unused,
          refl,
          λ k ne. others' k ne ∙ others k ne,
        )

    by_server :
        (r : Result Server)
        → ((s : Server) → r ≡ ok s → s.addr ≡ addr)
        → Lent addr i p (
            (r >>= λ s. (fileno_of s >>= λ f. ok (add_object i s f p))) >>= λ q.
            ok (mark_object i q, true, i))
    by_server (raise x) e = tt
    by_server (ok s) e = by_fileno s (e s refl) (fileno_of s)

-- From a pool whose sets hold connections to their addresses, with an identity that no object has:
-- unless opening a connection fails, `acquire` gives a connection to the address that is not reusable from then on.
-- It is the new one, or one that was reusable; no other object is touched, and the sets are as sound as before.
pub acquire-Lent :
    (order : List ℕ → List ℕ)
    → IsOrder order
    → (opened : Address → Result ℕ) (i : ℕ) (addr : Address) (p : Pool) → Filed p
    → IsFresh i p
    → Lent addr i p (acquire order opened i addr p)
unfolding acquire
acquire-Lent order o opened i addr p h fresh =
    by_search (first_reusable p.objects (order (members (get addr p.pools)))) refl
  where
    by_search :
        (r : Option ℕ)
        → first_reusable p.objects (order (members (get addr p.pools))) ≡ r
        → Lent addr i p (elim r [
          | some j ↦ ok (mark_object j p, false, j)
          | none ↦ add opened i addr p >>= λ q. ok (mark_object i q, true, i)
        ])
    by_search none e = lend_new opened i addr p h fresh
    by_search (some j) e =
        let (m, u) = first_reusable-member p.objects (order (members (get addr p.pools))) j e in
        let (of_address, unused, others) = mark_object-Marked addr j p (h addr j (o j _ m)) in
        (mark_object-Filed j p h, of_address, unused, u, others)

not_both : {x y : Bool} → x ≡ y → x ≡ false → y ≡ true → ⊥
not_both e u v = cc

-- Two borrowers never share a connection: what is acquired second, with no connection given back in between,
-- is another object, whatever the two addresses.
pub acquire-acquire :
    (order : List ℕ → List ℕ)
    → IsOrder order
    → (opened : Address → Result ℕ) (i i' j j' : ℕ) (a a' : Address) (p q r : Pool) (b b' : Bool)
    → Filed p
    → IsFresh i p
    → IsFresh i' q
    → acquire order opened i a p ≡ ok (q, b, j)
    → acquire order opened i' a' q ≡ ok (r, b', j')
    → j ≢ j'
acquire-acquire order o opened i i' j j' a a' p q r b b' h fresh fresh' e e' same_one =
    let first : Lent a i p (ok (q, b, j)) = rw e at (acquire-Lent order o opened i a p h fresh) in
    let second : Lent a' i' q (ok (r, b', j')) =
      rw e' at (acquire-Lent order o opened i' a' q first.0 fresh') in
    either b' second.3 first.1 first.2
  where
    either :
        (c : Bool)
        → (if c then (j' ≡ i') else (reusable_of (get j' q.objects) ≡ true))
        → OfAddress a (get j q.objects)
        → reusable_of (get j q.objects) ≡ false
        → ⊥
    either true n of_address unused =
        subst (OfAddress a) (ap (λ k. get k q.objects) (same_one ∙ n) ∙ fresh') of_address
    either false u of_address unused =
        not_both (ap (λ k. reusable_of (get k q.objects)) same_one) unused u
