-- ===== src/Core/Selector/Laws.antt =====
-- What a selector watches after each of its operations.
use proxy_py.Base.{
  ℕ, ◌≡◌, refl, true, false, not, ◌&&◌, Option, none, some, ltb, ◌==◌, if◌then◌else◌, number_eq,
  guard, Returns, Returns-bind, value_error, key_error, ok,
}
use proxy_py.Base.Int.{equal_int, ℤ, pos, negsuc}
use proxy_py.Dict.{get, put, remove, contains}
use proxy_py.Dict.Laws.{IsDict, get-put, get-remove, put-IsDict, remove-IsDict}
use proxy_py.Core.Selector.{
  Selector, SelectorKey, Kernel, watched, register, modify, unregister, found_key,
}

-- `s` with another entry for a descriptor.
abbrev pub Differs : ℤ → Option SelectorKey → Selector → Selector → Type 0
Differs f o s s' = IsDict s' × ((g : ℤ) → watched g s' ≡ (if equal_int f g then o else watched g s))

put-Differs :
    (f : ℕ) (k : SelectorKey) (s : Selector) → IsDict s → Differs (pos f) (some k) s (put f k s)
put-Differs f k s h = (put-IsDict f k s h, either)
  where
    either : (g : ℤ) → watched g (put f k s) ≡ (if equal_int (pos f) g then some k else watched g s)
    either (pos g) = get-put f g k s
    either (negsuc g) = refl

remove-Differs : (f : ℕ) (s : Selector) → IsDict s → Differs (pos f) none s (remove f s)
remove-Differs f s h = (remove-IsDict f s h, either)
  where
    either : (g : ℤ) → watched g (remove f s) ≡ (if equal_int (pos f) g then none else watched g s)
    either (pos g) = get-remove f g s h
    either (negsuc g) = refl

pub register_lem :
    (kernel : Kernel) (f : ℤ) (m w : ℕ) (s : Selector)
    → IsDict s
    → Returns
        (λ s'. (watched f s ≡ none) × Differs f (some (record { events = m; owner = w })) s s')
        (register kernel f m w s)
unfolding register
register_lem kernel (negsuc n) m w s h =
    Returns-bind _ (guard (ltb 0 m && ltb m 4) value_error) _ λ u e. tt
register_lem kernel (pos f) m w s h =
    Returns-bind _ (guard (ltb 0 m && ltb m 4) value_error) _ λ u e.
      Returns-bind _ (guard (not (contains f s)) key_error) _
        λ u' e'. Returns-bind _ (kernel f m) _ λ u'' e''. (by_key (get f s) e', put-Differs f _ s h)
  where
    by_key :
        (o : Option SelectorKey)
        → guard (not (elim o [ none ↦ false | some v ↦ true ])) key_error ≡ ok tt
        → o ≡ none
    by_key none q = refl
    by_key (some v) q = cc

pub modify_lem :
    (kernel : Kernel) (f : ℤ) (m w : ℕ) (s : Selector)
    → IsDict s
    → Returns
        (λ s'. Differs f (some (record { events = m; owner = w })) s s')
        (modify kernel f m w s)
unfolding modify
modify_lem kernel (negsuc n) m w s h = tt
modify_lem kernel (pos f) m w s h = Returns-bind _ (found_key (get f s)) _ λ k e.
    Returns-bind _ (if m == k.events then ok tt else kernel f m) _ λ u e'. put-Differs f _ s h

pub unregister_lem :
    (f : ℤ) (k : SelectorKey) (s : Selector)
    → IsDict s
    → watched f s ≡ some k
    → (s' : Selector) × (unregister f s ≡ ok s') × Differs f none s s'
unfolding unregister
unregister_lem (negsuc n) k s h e = absurd (none_some e)
  where
    none_some : none ≡ some k → ⊥
    none_some q = cc
unregister_lem (pos f) k s h e = (remove f s, rw e refl, remove-Differs f s h)

pub unregister-Differs :
    (f : ℤ) (s : Selector) → IsDict s → Returns (Differs f none s) (unregister f s)
unfolding unregister
unregister-Differs (negsuc n) s h = tt
unregister-Differs (pos f) s h = Returns-bind _ (found_key (get f s)) _ λ k e. remove-Differs f s h
