-- ===== src/Dict.antt =====
-- Python's `dict`: the pairs in insertion order, one to a key.
pub mod Laws
use proxy_py.Base.{Bool, true, false, Option, none, some, List, [], ◌∷◌, if◌then◌else◌, Eq}

module _ {ℓ} {K : Type 0} {V : Type ℓ} ⦃e : Eq K⦄ where
  unfoldable pub get : K → List (K × V) → Option V
  get k [] = none
  get k ((j, v) ∷ m) = if e.equal j k then some v else get k m

  -- `m[k] = v` keeps the place of a key that is there.
  unfoldable pub put : K → V → List (K × V) → List (K × V)
  put k v [] = (k, v) ∷ []
  put k v ((j, w) ∷ m) = if e.equal j k then (j, v) ∷ m else (j, w) ∷ put k v m

  -- `del m[k]`, where the key is there
  unfoldable pub remove : K → List (K × V) → List (K × V)
  remove k [] = []
  remove k ((j, v) ∷ m) = if e.equal j k then m else (j, v) ∷ remove k m

  abbrev pub contains : K → List (K × V) → Bool
  contains k m = elim (get k m) [ none ↦ false | some v ↦ true ]
