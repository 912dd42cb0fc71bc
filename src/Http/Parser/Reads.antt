-- ===== src/Http/Parser/Reads.antt =====
-- A body whose length is given by a header, however the reads cut it.
use proxy_py.Base.{
  ℕ, suc, ◌+◌, ◌-◌, ◌<◌, ◌≡◌, refl, sym, ap, ◌∙◌, ◌≢◌, Option, none, some, List, [], ◌∷◌, ◌++◌,
  append_assoc, append-nil, arith, Bytes, length, length-append, take_all, drop_all, All, Run,
  then_run, ok,
}
use proxy_py.Http.Message.{Message, ParserState, rcving_body, complete, header}
use proxy_py.Http.Parser.{content_length, parse}
use proxy_py.Http.Parser.Body.{Awaits, so_far, received, parse-enough, parse-short, reads_body}

parse-exact :
    (fuel : ℕ) (m : Message) (n : ℕ) (raw : Bytes) (allowed : Option (List Bytes))
    → Awaits m n
    → raw ≢ []
    → length (so_far m) + length raw ≡ n
    → parse (suc fuel) m raw allowed ≡ some (ok (received m raw (length raw) complete []))
parse-exact fuel m n raw allowed h ne e =
    parse-enough fuel m n raw allowed h ne (omega arith)
    ∙ rw (take_all (n - length (so_far m)) raw (omega arith))
        (rw (drop_all (n - length (so_far m)) raw (omega arith)) refl)

-- The reads that come, one by one, until the message is complete.
unfoldable pub parse_all : ℕ → Message → List Bytes → Option (List Bytes) → Run Message
parse_all fuel m [] allowed = some (ok m)
parse_all fuel m (raw ∷ rest) allowed =
    then_run (parse fuel m raw allowed) (λ m'. parse_all fuel m' rest allowed)

abbrev pub concat : List Bytes → Bytes
concat [] = []
concat (raw ∷ rest) = raw ++ concat rest

-- What two reads make of a message, as one.
received-received :
    (m : Message) (a b : Bytes) (s t : ParserState)
    → received (received m a (length a) s []) b (length b) t []
      ≡ received m (a ++ b) (length (a ++ b)) t []
received-received m a b s t = rw (length-append a b) (
    rw (append_assoc (so_far m) a b) (
      ap
        (λ k. record m {
          state = t;
          total_size = k;
          buffer = none;
          body = some (so_far m ++ (a ++ b));
        })
        (omega arith)))

append-positive : (a b : Bytes) → a ≢ [] → 0 < length (a ++ b)
append-positive [] b ne = absurd (ne refl)
append-positive (x ∷ a) b ne = omega arith

-- The headers are read, there is no transfer encoding, nothing is buffered, and the body lacks some of
-- its announced length. Whatever reads that are not empty bring exactly the bytes that it lacks: the
-- body ends as what came, nothing is left over and the message is complete. Two rounds of the loop
-- are enough for a read.
pub parse_all-body :
    (fuel : ℕ) (reads : List Bytes) (m : Message) (n : ℕ) (allowed : Option (List Bytes))
    → Awaits m n
    → All (λ raw. raw ≢ []) reads
    → length (so_far m) + length (concat reads) ≡ n
    → parse_all (suc (suc fuel)) m reads allowed
      ≡ some (ok (received m (concat reads) (length (concat reads)) complete []))
unfolding parse_all reads_body content_length header
parse_all-body fuel [] m n allowed h ne e = absurd (omega arith)
parse_all-body fuel (raw ∷ []) m n allowed h ne e = rw (append-nil raw) (
    rw
      (parse-exact (suc fuel) m n raw allowed h ne.0
        (ap (λ b. length (so_far m) + length b) (sym (append-nil raw)) ∙ e))
      refl)
parse_all-body fuel (raw ∷ (next ∷ rest)) m n allowed h ne e =
    rw (parse-short fuel m n raw allowed h (ne.0) lt) (
      parse_all-body fuel (next ∷ rest) (received m raw (length raw) rcving_body []) n allowed
        (h.0, refl, refl, lt_more) ne.1 eq
      ∙ ap (λ w. some (ok w)) (received-received m raw (concat (next ∷ rest)) rcving_body complete))
  where
    positive : 0 < length (concat (next ∷ rest))
    positive = append-positive next (concat rest) ne.1.0

    lt : length (so_far m) + length raw < n
    lt = omega (arith, length-append raw (concat (next ∷ rest)), positive)

    lt_more : length (so_far m ++ raw) < n
    lt_more = omega (arith, lt, length-append (so_far m) raw)

    eq : length (so_far m ++ raw) + length (concat (next ∷ rest)) ≡ n
    eq = omega (arith, length-append (so_far m) raw, length-append raw (concat (next ∷ rest)))
