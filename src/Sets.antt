-- ===== src/Sets.antt =====
-- Python's `set`: the members, each once, in some order.
use proxy_py.Base.{
  ◌≡◌, refl, ap, ◌⊎◌, Bool, true, false, not, ◌&&◌, ◌||◌, List, [], ◌∷◌, arith, if◌then◌else◌, Eq,
}

module _ {K : Type 0} ⦃e : Eq K⦄ where
  unfoldable pub is_member : K → List K → Bool
  is_member i [] = false
  is_member i (j ∷ js) = e.equal j i || is_member i js

  -- `remove`, where the element is there
  unfoldable pub without : K → List K → List K
  without i [] = []
  without i (j ∷ js) = let rest = without i js in if e.equal j i then rest else j ∷ rest

  -- `add`
  abbrev pub set_add : K → List K → List K
  set_add i is = if is_member i is then is else i ∷ is

  -- `difference_update`
  unfoldable pub difference : List K → List K → List K
  difference [] js = []
  difference (i ∷ is) js = let rest = difference is js in if is_member i js then rest else i ∷ rest

  pub member-set_add :
      (i j : K) (is : List K)
      → is_member j (set_add i is) ≡ true
      → (i ≡ j) ⊎ (is_member j is ≡ true)
  unfolding is_member
  member-set_add i j is h = ground (arith, e.equal_iff i j)

  pub is_member-without :
      (i j : K) (is : List K)
      → is_member j (without i is) ≡ (if e.equal i j then false else is_member j is)
  unfolding is_member without
  is_member-without i j [] = ground arith
  is_member-without i j (k ∷ is) =
      ground (arith, is_member-without i j is, e.equal_iff k i, e.equal_iff k j, e.equal_iff i j)

  pub member-without :
      (i j : K) (is : List K) → is_member j (without i is) ≡ true → is_member j is ≡ true
  member-without i j is h = ground (arith, is_member-without i j is)

  is_member_equal : (i j : K) (is : List K) → e.equal i j ≡ true → is_member i is ≡ is_member j is
  is_member_equal i j is h = ap (λ k. is_member k is) ((e.equal_iff i j).0 h)

  pub is_member-difference :
      (i : K) (is js : List K)
      → is_member i (difference is js) ≡ (is_member i is && not (is_member i js))
  unfolding is_member difference
  is_member-difference i [] js = refl
  is_member-difference i (k ∷ is) js =
      ground (arith, is_member-difference i is js, is_member_equal k i js)
