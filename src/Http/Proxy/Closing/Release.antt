-- ===== src/Http/Proxy/Closing/Release.antt =====
-- When releasing a connection closes its socket.
use proxy_py.Base.{
  ℕ, ◌≡◌, ◌≢◌, refl, sym, ap, ◌∙◌, inl, inr, Bool, true, false, not, ◌||◌, Option, none, some, ◌==◌,
  ==_iff, ==-refl, Bool-cases, number_eq, guard, Returns, Returns-bind, ok, assertion_error,
  key_error,
}
use proxy_py.Base.Int.{int_eq, pair_eq, pos}
use proxy_py.Sets.{is_member}
use proxy_py.Dict.{get, put}
use proxy_py.Dict.Laws.{get-put}
use proxy_py.Core.Pool.{
  Server, Pool, found, members, fileno_of, close_server, finish, remove_object, remove_fileno,
  release, update_object,
}
use proxy_py.Http.Proxy.Io.{mark_closed, shut_down}

-- The object `i` is there, and its socket is closed or not.
abbrev pub IsShut : ℕ → Bool → Pool → Type 0
IsShut i shut p = (s : Server) × (get i p.objects ≡ some s) × (s.shut ≡ shut)

found-some : {A : Type 0} (o : Option A) (a : A) → found o ≡ ok a → o ≡ some a
found-some none a e = cc
found-some (some b) a e = cc

some_eq : {A : Type 0} {a b : A} → some a ≡ some b → a ≡ b
some_eq e = cc

ok_eq : {A : Type 0} {a b : A} → ok a ≡ ok b → a ≡ b
ok_eq e = cc

-- Putting a server in place of another, or beside it.
put-IsShut :
    (i k : ℕ) (b : Bool) (s t : Server) (p : Pool)
    → get i p.objects ≡ some s
    → (k ≡ i → t.shut ≡ b)
    → (k ≢ i → s.shut ≡ b)
    → (s' : Server) × (get i (put k t p.objects) ≡ some s') × (s'.shut ≡ b)
put-IsShut i k b s t p e at beside = elim (Bool-cases (k == i)) [
  | inl y ↦ (t, rw (get-put k i t p.objects) (rw y refl), at ((==_iff k i).0 y))
  | inr n ↦ (
    s,
    rw (get-put k i t p.objects) (rw n e),
    beside (λ y. false_true (sym n ∙ (==_iff k i).1 y)),
  )
]
  where
    false_true : false ≡ true → ⊥
    false_true q = cc

-- Where the flag `closed` is up already, `release` closes no socket.
pub release-still :
    (i : ℕ) (s : Server) (p : Pool)
    → get i p.objects ≡ some s
    → s.state.closed ≡ true
    → Returns (IsShut i s.shut) (release i p)
unfolding release remove_fileno remove_object close_server finish
release-still i s p e closed = Returns-bind _ (found (get i p.objects)) _ λ s' e'.
    Returns-bind _ (guard (not s'.state.reusable) assertion_error) _ λ u asserted.
      Returns-bind _ (fileno_of s') _ λ f e_f.
        Returns-bind _ (found (get f p.connections)) _ λ k e_k.
          Returns-bind _ (found (get k p.objects)) _ λ t e_t.
            Returns-bind _ (guard (is_member k (members (get t.addr p.pools))) key_error) _
              λ v present.
                put-IsShut i k s.shut s (close_server (finish t)) p e
                  (same_object k t (found-some _ t e_t)) (λ ne. refl)
  where
    or_not : (a b : Bool) → b ≡ true → (a || not b) ≡ a
    or_not true b q = refl
    or_not false true q = refl
    or_not false false q = cc

    same_object :
        (k : ℕ) (t : Server)
        → get k p.objects ≡ some t
        → k ≡ i
        → (close_server (finish t)).shut ≡ s.shut
    same_object k t q y =
        ap (λ (r : Server). r.shut || not r.state.closed)
          (some_eq (sym q ∙ (ap (λ j. get j p.objects) y ∙ e)))
        ∙ or_not s.shut s.state.closed closed

-- Where it is not, and the pool knows the connection by its descriptor, the socket is closed.
pub release-shuts :
    (i f : ℕ) (s : Server) (p : Pool)
    → get i p.objects ≡ some s
    → s.state.closed ≡ false
    → s.fileno ≡ some f
    → s.shut ≡ false
    → get (pos f) p.connections ≡ some i
    → Returns (IsShut i true) (release i p)
unfolding release remove_fileno remove_object close_server finish
release-shuts i f s p e opened has_f unshut known =
    Returns-bind _ (found (get i p.objects)) _ λ s' e'.
      Returns-bind _ (guard (not s'.state.reusable) assertion_error) _ λ u asserted.
        Returns-bind _ (fileno_of s') _ λ g e_f.
          Returns-bind _ (found (get g p.connections)) _ λ k e_k.
            Returns-bind _ (found (get k p.objects)) _ λ t e_t.
              Returns-bind _ (guard (is_member k (members (get t.addr p.pools))) key_error) _
                λ v present.
                  let same_s : s' ≡ s = some_eq (sym (found-some _ s' e') ∙ e) in
                  let same_f : g ≡ pos f = ok_eq (sym e_f ∙ (ap fileno_of same_s ∙ number)) in
                  let same_k : k ≡ i =
                    some_eq
                      (sym (found-some _ k e_k) ∙ (ap (λ h. get h p.connections) same_f ∙ known)) in
                  let same_t : t ≡ s =
                    some_eq (sym (found-some _ t e_t) ∙ (ap (λ j. get j p.objects) same_k ∙ e)) in
                  put-IsShut i k true s (close_server (finish t)) p e (λ y. shut same_t)
                    (λ ne. absurd (ne same_k))
  where
    number : fileno_of s ≡ ok (pos f)
    number = rw (has_f, unshut) refl

    or_not : (a b : Bool) → b ≡ false → (a || not b) ≡ true
    or_not true b q = refl
    or_not false false q = refl
    or_not false true q = cc

    shut : {t : Server} → t ≡ s → (close_server (finish t)).shut ≡ true
    shut q =
        ap (λ (r : Server). r.shut || not r.state.closed) q ∙ or_not s.shut s.state.closed opened

abbrev pub closed_server : Server → Server
closed_server s = record s { state = record (s.state) { closed = true } }

pub get-mark_closed :
    (i : ℕ) (s : Server) (p : Pool)
    → get i p.objects ≡ some s
    → get i (mark_closed i p).objects ≡ some (closed_server s)
unfolding mark_closed update_object
get-mark_closed i s p e = rw e (get-put i i (closed_server s) p.objects ∙ rw (==-refl i) refl)

pub get-shut_down :
    (i f : ℕ) (s : Server) (p : Pool)
    → get i p.objects ≡ some s
    → s.state.closed ≡ false
    → s.fileno ≡ some f
    → IsShut i true (update_object shut_down i p)
unfolding update_object close_server
get-shut_down i f s p e opened has_f = rw e (
  shut_down s,
  get-put i i (shut_down s) p.objects ∙ rw (==-refl i) refl,
  rw (has_f, opened) (or_true s.shut),
)
  where
    or_true : (b : Bool) → (b || true) ≡ true
    or_true true = refl
    or_true false = refl
