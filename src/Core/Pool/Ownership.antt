-- ===== src/Core/Pool/Ownership.antt =====
-- The connections that a pool hands out: to the right server, and to one borrower at a time.
use mathlib.Core.Path.{subst}
use proxy_py.Base.{
  ℕ, ◌≡◌, refl, sym, ap, ◌∙◌, ◌⊎◌, inl, inr, true, false, not, Option, none, some, List, [], ◌∷◌,
  ◌==◌, if◌then◌else◌, ==_iff, Bool-cases, number_eq, ◌>>=◌, guard, Result, assertion_error,
  key_error, ok, raise,
}
use proxy_py.Base.Int.{int_eq, pair_eq, both_equal, both_equal_iff, ℤ}
use proxy_py.Sets.{is_member, without, set_add, member-set_add, member-without}
use proxy_py.Dict.{get, put, remove}
use proxy_py.Dict.Laws.{get-put}
use proxy_py.Core.Connection.{reset}
use proxy_py.Core.Pool.{
  Address, Server, Pool, close_server, finish, members, update_object, add_object, changed, found,
  remove_fileno, fileno_of, remove_object, release, retain, handle_events,
}

abbrev pub OfAddress : Address → Option Server → Type 0
OfAddress a none = ⊥
OfAddress a (some s) = s.addr ≡ a

-- Every object in the set of an address is there, and is a connection to that address.
abbrev pub Filed : Pool → Type 0
Filed p =
    (a : Address) (j : ℕ)
    → is_member j (members (get a p.pools)) ≡ true
    → OfAddress a (get j p.objects)

-- An object that is put in place of one with the same address changes no address.
pub OfAddress-put :
    (objects : List (ℕ × Server)) (i j : ℕ) (s s' : Server) (a : Address)
    → get i objects ≡ some s
    → s'.addr ≡ s.addr
    → OfAddress a (get j objects)
    → OfAddress a (get j (put i s' objects))
OfAddress-put objects i j s s' a e same_addr h = elim (Bool-cases (i == j)) [
  | inr n ↦ rw (get-put i j s' objects) (rw n h)
  | inl y ↦ rw (get-put i j s' objects) (
      rw y (
        same_addr
        ∙ of_some (get j objects) (ap (λ k. get k objects) (sym ((==_iff i j).0 y)) ∙ e) h))
]
  where
    of_some : (o : Option Server) → o ≡ some s → OfAddress a o → s.addr ≡ a
    of_some none e' h' = absurd h'
    of_some (some t) e' h' = cc

pub Filed-update :
    (change : Server → Server) (i : ℕ) (p : Pool)
    → ((s : Server) → (change s).addr ≡ s.addr)
    → Filed p
    → Filed (update_object change i p)
unfolding update_object
Filed-update change i p keeps h = by_object (get i p.objects) refl
  where
    by_object : (o : Option Server) → get i p.objects ≡ o → Filed (changed change i p o)
    by_object none e = h
    by_object (some s) e = λ a j m. OfAddress-put p.objects i j s (change s) a e (keeps s) (h a j m)

-- A new set for one address, all of whose objects are connections to it.
Filed-set :
    (p : Pool) (objects : List (ℕ × Server)) (connections : List (ℤ × ℕ)) (addr : Address)
    (is : List ℕ)
    → ((j : ℕ) → is_member j is ≡ true → OfAddress addr (get j objects))
    → ((a : Address) (j : ℕ)
        → is_member j (members (get a p.pools)) ≡ true
        → OfAddress a (get j objects))
    → Filed (record { objects = objects; connections = connections; pools = put addr is p.pools })
Filed-set p objects connections addr is inside outside a j =
    by_address (Bool-cases (both_equal addr a))
  where
    by_address :
        ((both_equal addr a ≡ true) ⊎ (both_equal addr a ≡ false))
        → is_member j (members (get a (put addr is p.pools))) ≡ true
        → OfAddress a (get j objects)
    by_address (inl e) m =
        subst (λ b. OfAddress b (get j objects)) ((both_equal_iff addr a).0 e)
          (inside j (rw e at (rw (get-put addr a is p.pools) at m)))
    by_address (inr e) m = outside a j (rw e at (rw (get-put addr a is p.pools) at m))

-- An identity that no object has yet.
abbrev pub IsFresh : ℕ → Pool → Type 0
IsFresh i p = get i p.objects ≡ none

pub OfAddress-new :
    (i j : ℕ) (s : Server) (a : Address) (p : Pool)
    → IsFresh i p
    → OfAddress a (get j p.objects)
    → OfAddress a (get j (put i s p.objects))
OfAddress-new i j s a p fresh h = rw (get-put i j s p.objects) (either (Bool-cases (i == j)))
  where
    either :
        ((i == j ≡ true) ⊎ (i == j ≡ false))
        → OfAddress a (if i == j then some s else get j p.objects)
    either (inl e) =
        absurd (subst (OfAddress a) (ap (λ k. get k p.objects) (sym ((==_iff i j).0 e)) ∙ fresh) h)
    either (inr e) = rw e h

pub Filed-add_object :
    (i : ℕ) (s : Server) (f : ℤ) (p : Pool) → IsFresh i p → Filed p → Filed (add_object i s f p)
unfolding add_object
Filed-add_object i s f p fresh h =
    Filed-set p _ (put f i p.connections) s.addr (set_add i (members (get s.addr p.pools))) inside
      (λ a j m. OfAddress-new i j s' a p fresh (h a j m))
  where
    s' : Server
    s' = record s { state = record (s.state) { reusable = true } }

    inside :
        (j : ℕ)
        → is_member j (set_add i (members (get s.addr p.pools))) ≡ true
        → OfAddress s.addr (get j (put i s' p.objects))
    inside j m = elim (member-set_add i j _ m) [
      | inl e ↦ rw (get-put i j s' p.objects) (rw ((==_iff i j).1 e) refl)
      | inr m' ↦ OfAddress-new i j s' s.addr p fresh (h s.addr j m')
    ]

abbrev pub AllFiled : Result Pool → Type 0
AllFiled (raise e) = Unit
AllFiled (ok p) = Filed p

found_eq : {A : Type 0} (o : Option A) {a : A} → found o ≡ ok a → o ≡ some a
found_eq none e = cc
found_eq (some b) e = cc

-- Both parts of a call.
AllFiled-bind :
    {A : Type 0} (r : Result A) (f : A → Result Pool)
    → ((a : A) → r ≡ ok a → AllFiled (f a))
    → AllFiled (r >>= f)
AllFiled-bind (raise e) f h = tt
AllFiled-bind (ok a) f h = h a refl

remove_object-Filed :
    (f : ℤ) (i : ℕ) (s : Server) (p : Pool)
    → Filed p
    → get i p.objects ≡ some s
    → AllFiled (remove_object f i s p)
unfolding remove_object close_server finish
remove_object-Filed f i s p h e =
    AllFiled-bind (guard (is_member i (members (get s.addr p.pools))) key_error) _ λ u t.
      Filed-set p _ (remove f p.connections) s.addr (without i (members (get s.addr p.pools)))
        (λ j m. kept s.addr j (h s.addr j (member-without i j _ m))) (λ a j m. kept a j (h a j m))
  where
    kept :
        (a : Address) (j : ℕ)
        → OfAddress a (get j p.objects)
        → OfAddress a (get j (put i (close_server (finish s)) p.objects))
    kept a j = OfAddress-put p.objects i j s (close_server (finish s)) a e refl

remove_fileno-Filed : (f : ℤ) (p : Pool) → Filed p → AllFiled (remove_fileno f p)
unfolding remove_fileno
remove_fileno-Filed f p h = AllFiled-bind (found (get f p.connections)) _ λ i e.
    AllFiled-bind (found (get i p.objects)) _ λ s e'. remove_object-Filed f i s p h (found_eq _ e')

pub release-Filed : (i : ℕ) (p : Pool) → Filed p → AllFiled (release i p)
unfolding release
release-Filed i p h = AllFiled-bind (found (get i p.objects)) _ λ s e.
    AllFiled-bind (guard (not s.state.reusable) assertion_error) _
      λ u t. AllFiled-bind (fileno_of s) _ λ f e'. remove_fileno-Filed f p h

retain-Filed : (i : ℕ) (p : Pool) → Filed p → AllFiled (retain i p)
unfolding retain
retain-Filed i p h = AllFiled-bind (found (get i p.objects)) _ λ s e.
    AllFiled-bind (reset s.state) _ λ c e' a j m.
      OfAddress-put p.objects i j s (record s { state = c }) a (found_eq _ e) refl (h a j m)

handle_events-Filed : (fs : List ℤ) (p : Pool) → Filed p → AllFiled (handle_events fs p)
unfolding handle_events
handle_events-Filed [] p h = h
handle_events-Filed (f ∷ fs) p h =
    AllFiled-bind (remove_fileno f p) _
      λ q e. handle_events-Filed fs q (rw e at (remove_fileno-Filed f p h))

-- Wherever every object in the set of an address is a connection to it, it is so after a release, a
-- retention, and the events of any descriptors, unless the call raises.
pub keep-Filed :
    (p : Pool) (i : ℕ) (fs : List ℤ)
    → Filed p
    → AllFiled (release i p) × AllFiled (retain i p) × AllFiled (handle_events fs p)
keep-Filed p i fs h = (release-Filed i p h, retain-Filed i p h, handle_events-Filed fs p h)
