-- ===== src/Dict/Laws.antt =====
-- What a look-up finds after an update.
use mathlib.Core.Path.{subst}
use proxy_py.Base.{
  ◌≡◌, refl, sym, ◌≢◌, inl, inr, none, some, List, [], ◌∷◌, arith, if◌then◌else◌, Bool-cases, Eq,
  All,
}
use proxy_py.Dict.{get, put, remove}

module _ {ℓ} {K : Type 0} {V : Type ℓ} ⦃e : Eq K⦄ where
  pub get-put :
      (k j : K) (v : V) (m : List (K × V))
      → get j (put k v m) ≡ (if e.equal k j then some v else get j m)
  unfolding get put
  get-put k j v [] = refl
  get-put k j v ((i, w) ∷ m) =
      ground (arith, e.equal_iff k j, e.equal_iff i k, e.equal_iff i j, get-put k j v m)

  -- No key stands twice.
  abbrev pub Absent : K → List (K × V) → Type 0
  Absent k m = All (λ q. q.0 ≢ k) m

  abbrev pub IsDict : List (K × V) → Type 0
  IsDict [] = Unit
  IsDict ((k, v) ∷ m) = Absent k m × IsDict m

  pub get-Absent : (k : K) (m : List (K × V)) → Absent k m → get k m ≡ none
  unfolding get
  get-Absent k [] h = refl
  get-Absent k ((j, v) ∷ m) h = ground (arith, e.equal_iff j k, get-Absent k m h.1, h.0)

  pub get-remove :
      (k j : K) (m : List (K × V))
      → IsDict m
      → get j (remove k m) ≡ (if e.equal k j then none else get j m)
  unfolding get remove
  get-remove k j [] h = ground arith
  get-remove k j ((i, w) ∷ m) h = elim (Bool-cases (e.equal i k)) [
    | inl q ↦ elim (Bool-cases (e.equal k j)) [
      | inl e' ↦
          ground (arith, e.equal_iff i k, e.equal_iff k j, e.equal_iff i j, get-Absent i m h.0)
      | inr e' ↦ ground (arith, e.equal_iff k j, e.equal_iff i k, e.equal_iff i j)
    ]
    | inr q ↦
        ground (arith, e.equal_iff k j, e.equal_iff i k, e.equal_iff i j, get-remove k j m h.1)
  ]

  pub put-Absent : (k i : K) (v : V) (m : List (K × V)) → i ≢ k → Absent i m → Absent i (put k v m)
  unfolding put
  put-Absent k i v [] ne h = ((λ q. ne (sym q)), tt)
  put-Absent k i v ((j, w) ∷ m) ne h = elim (Bool-cases (e.equal j k)) [
    | inl q ↦ rw q (h.0, h.1)
    | inr q ↦ rw q (h.0, put-Absent k i v m ne h.1)
  ]

  pub put-IsDict : (k : K) (v : V) (m : List (K × V)) → IsDict m → IsDict (put k v m)
  unfolding put
  put-IsDict k v [] h = (tt, tt)
  put-IsDict k v ((j, w) ∷ m) h = elim (Bool-cases (e.equal j k)) [
    | inl q ↦ rw q h
    | inr q ↦ rw q (put-Absent k j v m (ground (arith, e.equal_iff j k)) h.0, put-IsDict k v m h.1)
  ]

  pub remove-Absent : (k i : K) (m : List (K × V)) → Absent i m → Absent i (remove k m)
  unfolding remove
  remove-Absent k i [] h = tt
  remove-Absent k i ((j, w) ∷ m) h = elim (Bool-cases (e.equal j k)) [
    | inl q ↦ rw q h.1
    | inr q ↦ rw q (h.0, remove-Absent k i m h.1)
  ]

  pub remove-IsDict : (k : K) (m : List (K × V)) → IsDict m → IsDict (remove k m)
  unfolding remove
  remove-IsDict k [] h = tt
  remove-IsDict k ((j, w) ∷ m) h = elim (Bool-cases (e.equal j k)) [
    | inl q ↦ rw q h.1
    | inr q ↦ rw q (remove-Absent k j m h.0, remove-IsDict k m h.1)
  ]

  Absent-same : (k i : K) (m : List (K × V)) → i ≡ k → Absent i m → Absent k m
  Absent-same k i m q h = rw (← q) h

  -- A key that is deleted is gone.
  pub Absent-remove : (k : K) (m : List (K × V)) → IsDict m → Absent k (remove k m)
  unfolding remove
  Absent-remove k [] h = tt
  Absent-remove k ((j, w) ∷ m) h = elim (Bool-cases (e.equal j k)) [
    | inl q ↦ rw q (Absent-same k j m ((e.equal_iff j k).0 q) h.0)
    | inr q ↦ rw q (ground (arith, e.equal_iff j k), Absent-remove k m h.1)
  ]

  pub All-remove {κ} :
      (P : K × V → Type κ) (k : K) (m : List (K × V)) → All P m → All P (remove k m)
  unfolding remove
  All-remove P k [] h = tt
  All-remove P k ((j, w) ∷ m) h = elim (Bool-cases (e.equal j k)) [
    | inl q ↦ rw q h.1
    | inr q ↦ rw q (h.0, All-remove P k m h.1)
  ]

  pub All-put {κ} :
      (P : K × V → Type κ) (k : K) (v : V) (m : List (K × V))
      → P (k, v)
      → All P m
      → All P (put k v m)
  unfolding put
  All-put P k v [] p h = (p, tt)
  All-put P k v ((j, w) ∷ m) p h = elim (Bool-cases (e.equal j k)) [
    | inl q ↦ rw q (subst (λ i. P (i, v)) (sym ((e.equal_iff j k).0 q)) p, h.1)
    | inr q ↦ rw q (h.0, All-put P k v m p h.1)
  ]
