-- ===== src/Http/Parser/Overdue.antt =====
-- Messages whose length header has been replaced by one that is not positive.
use proxy_py.Base.{
  ℕ, zero, suc, ◌+◌, ◌-◌, ◌<◌, ◌≡◌, refl, ap, ◌∙◌, ◌≢◌, true, not, Option, none, some, List, [],
  ◌∷◌, ◌++◌, append-nil, arith, Bytes, length, take, drop, then_run, ok,
}
use proxy_py.Base.Int.{ℤ, pos, negsuc}
use proxy_py.Bytes.{is_empty}
use proxy_py.Bytes.Strip.{is_empty-false}
use proxy_py.Http.Message.{Message, rcving_body, header}
use proxy_py.Http.Parser.{content_length, process_body, is_state, parse_loop, receive_body, parse}
use proxy_py.Http.Parser.Body.{
  HasLength, reads_body, so_far, extended, loop-body, incomplete, process-length, and_false, begun,
  keep, parse_unfold,
}

-- The header reads as zero while there is no body, or as a negative number.
abbrev pub Overdue : Message → ℤ → Type 0
Overdue m (pos n) = (n ≡ 0) × (so_far m ≡ [])
Overdue m (negsuc k) = Unit

abbrev pub Stays : Message → ℤ → Bytes → Type 0
Stays m z raw = HasLength m z × (reads_body m.state ≡ true) × Overdue m z × (raw ≢ [])

drop-ne-nil : (k : ℕ) (raw : Bytes) → raw ≢ [] → drop (length raw - suc k) raw ≢ []
drop-ne-nil k [] ne e = ne refl
drop-ne-nil k (c ∷ cs) ne e =
    let n = length (c ∷ cs) - suc k in cons_drop n (c ∷ cs) (omega arith) e
  where
    cons_drop : (n : ℕ) (xs : Bytes) → n < length xs → drop n xs ≢ []
    cons_drop zero (x ∷ xs) h e = cc e
    cons_drop zero [] h e = absurd (omega arith)
    cons_drop (suc n) (x ∷ xs) h e = cons_drop n xs (omega arith) e
    cons_drop (suc n) [] h e = absurd (omega arith)

receive-zero :
    (m : Message) (raw : Bytes)
    → so_far m ≡ []
    → raw ≢ []
    → receive_body m raw (pos 0) ≡ some (ok (extended m [] rcving_body, true, raw))
unfolding receive_body
receive-zero m raw h ne = rw h (rw (is_empty-false raw ne) refl)

receive-negative :
    (m : Message) (raw : Bytes) (k : ℕ)
    → raw ≢ []
    → receive_body m raw (negsuc k)
      ≡ some (
          ok (
            extended m (take (length raw - suc (k + length (so_far m))) raw) rcving_body,
            true,
            drop (length raw - suc (k + length (so_far m))) raw,
          ))
unfolding receive_body
receive-negative m raw k ne = rw (is_empty-false raw ne) (
    rw
      (and_false (not (is_empty (so_far m ++ take (length raw - suc (k + length (so_far m))) raw))))
      refl)

-- What a round leaves.
abbrev Goes : Message → ℤ → Bytes → Type 0
Goes m z raw =
    (b : Bytes) × (rest : Bytes) × (process_body m raw
      ≡ some (ok (extended m b rcving_body, true, rest)))
    × Stays (extended m b rcving_body) z rest

-- A round takes part of what there is, and leaves a byte at least.
overdue-round : (m : Message) (z : ℤ) (raw : Bytes) → Stays m z raw → Goes m z raw
unfolding content_length header reads_body
overdue-round m (pos zero) raw h = (
  [],
  raw,
  process-length m (pos 0) raw h.0 ∙ receive-zero m raw h.2.1 h.3,
  (h.0, refl, (refl, append-nil (so_far m) ∙ h.2.1), h.3),
)
overdue-round m (pos (suc n)) raw h = absurd (omega (arith, h.2.0))
overdue-round m (negsuc k) raw h = (
  _,
  _,
  process-length m (negsuc k) raw h.0 ∙ receive-negative m raw k h.3,
  (h.0, refl, tt, drop-ne-nil (k + length (so_far m)) raw h.3),
)

pub overdue-none :
    (fuel : ℕ) (m : Message) (z : ℤ) (raw : Bytes) (allowed : Option (List Bytes))
    → Stays m z raw
    → parse_loop fuel m true raw allowed ≡ none
unfolding parse_loop is_state reads_body
overdue-none zero m z raw allowed h = rw (incomplete m.state h.1) refl
overdue-none (suc fuel) m z raw allowed h =
    let (b, rest, e, h') = overdue-round m z raw h in
    loop-body fuel m (extended m b rcving_body) true raw rest allowed h.1 e (refl, refl)
    ∙ overdue-none fuel _ z rest allowed h'

-- The headers are read, a body is expected without a transfer encoding, nothing is buffered, and the
-- length header reads as a negative number, or as zero with no body yet. Then a read of at least one
-- byte does not return, whatever the number of rounds.
pub parse-overdue :
    (fuel : ℕ) (m : Message) (z : ℤ) (raw : Bytes) (allowed : Option (List Bytes))
    → Stays m z raw
    → m.buffer ≡ none
    → parse fuel m raw allowed ≡ none
unfolding content_length header keep
parse-overdue fuel m z raw allowed h e =
    parse_unfold fuel m raw allowed e h.3
    ∙ ap (λ r. then_run r keep) (overdue-none fuel (begun m raw) z raw allowed h)
