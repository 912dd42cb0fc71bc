-- ===== src/Http/Parser/Body.antt =====
-- A read of a body whose length is given by a header.
use proxy_py.Base.{
  ℕ, zero, suc, ◌+◌, ◌-◌, ◌≤◌, ◌<◌, ◌≡◌, refl, ap, ◌∙◌, ◌≢◌, Bool, true, false, not, ◌&&◌, Option,
  none, some, List, [], ◌∷◌, ◌++◌, append-nil, arith, if◌then◌else◌, Bytes, length, take, drop,
  length-append, length-take, take_all, drop_all, Run, then_run, ok,
}
use proxy_py.Base.Int.{equals_ℕ, sub_ℕ-le, ℤ, pos}
use proxy_py.Bytes.{is_empty}
use proxy_py.Http.Message.{
  Message, ParserState, rcving_body, complete, headers_complete, line_rcvd, header,
}
use proxy_py.Bytes.Strip.{is_empty-false}
use proxy_py.Http.Parser.{
  is_response, content_length, body_or_empty, receive_body, process_body, is_state, dispatch,
  settle, parse_loop, kept, parse,
}

-- `self.state >= httpParserStates.HEADERS_COMPLETE`, and there is more to come
unfoldable pub reads_body : ParserState → Bool
reads_body headers_complete = true
reads_body rcving_body = true
reads_body _ = false

abbrev pub so_far : Message → Bytes
so_far m = body_or_empty m.body

-- The headers are read, there is no transfer encoding, and the length is `z`.
abbrev pub HasLength : Message → ℤ → Type 0
HasLength m z =
    (m.is_chunked_encoded ≡ false) × (m.content_expected ≡ true) × (content_length m ≡ ok z)

abbrev pub Awaits : Message → ℕ → Type 0
Awaits m n =
    HasLength m (pos n) × (reads_body m.state ≡ true) × (m.buffer ≡ none) × (length (so_far m) < n)

-- What a message is after some more of its body.
abbrev pub extended : Message → Bytes → ParserState → Message
extended m raw s = record m { body = some (so_far m ++ raw); state = s }

dispatch-body :
    (s : ParserState) (m : Message) (raw : Bytes) (allowed : Option (List Bytes))
    → reads_body s ≡ true
    → dispatch s m raw allowed ≡ process_body m raw
unfolding dispatch reads_body
dispatch-body headers_complete m raw allowed h = refl
dispatch-body rcving_body m raw allowed h = refl
dispatch-body _ m raw allowed h = cc

pub incomplete : (s : ParserState) → reads_body s ≡ true → is_state s complete ≡ false
unfolding is_state reads_body
incomplete headers_complete h = refl
incomplete rcving_body h = refl
incomplete _ h = cc

pub process-length :
    (m : Message) (z : ℤ) (raw : Bytes) → HasLength m z → process_body m raw ≡ receive_body m raw z
unfolding process_body
process-length m z raw h = ground (arith, h.0, h.1, h.2)

-- The test for completeness.
abbrev full : ℕ → Bytes → ParserState
full n body =
    if not (is_empty body) && equals_ℕ (pos n) (length body) then complete else rcving_body

full-lt : (n : ℕ) (b : Bytes) → length b < n → full n b ≡ rcving_body
full-lt n b h = ground arith

full-eq : (n : ℕ) (b : Bytes) → 0 < n → length b ≡ n → full n b ≡ complete
full-eq n [] h e = absurd (omega arith)
full-eq n (c ∷ cs) h e = ground arith

receive-short :
    (m : Message) (n : ℕ) (raw : Bytes)
    → length (so_far m) + length raw < n
    → receive_body m raw (pos n) ≡ some (ok (extended m raw rcving_body, not (is_empty raw), []))
unfolding receive_body
receive-short m n raw h = rw (sub_ℕ-le n (length (so_far m)) (omega arith)) (
    rw (take_all (n - length (so_far m)) raw (omega arith)) (
      rw (drop_all (n - length (so_far m)) raw (omega arith))
        (rw (full-lt n (so_far m ++ raw) (omega (arith, length-append (so_far m) raw))) refl)))

receive-enough :
    (m : Message) (n : ℕ) (raw : Bytes)
    → length (so_far m) < n
    → n ≤ length (so_far m) + length raw
    → receive_body m raw (pos n)
      ≡ some (
          ok (
            extended m (take (n - length (so_far m)) raw) complete,
            not (is_empty raw),
            drop (n - length (so_far m)) raw,
          ))
unfolding receive_body
receive-enough m n raw lt h =
    let part = take (n - length (so_far m)) raw in
    rw (sub_ℕ-le n (length (so_far m)) (omega arith)) (
      rw
        (full-eq n (so_far m ++ part) (omega arith)
          (omega (arith, length-append (so_far m) part, length-take (n - length (so_far m)) raw)))
        refl)

pub and_false : (b : Bool) → (b && false) ≡ false
and_false true = refl
and_false false = refl

-- A message in its body, or complete, is settled.
abbrev pub IsSettled : Message → Type 0
IsSettled m = (is_state m.state line_rcvd ≡ false) × (is_state m.state headers_complete ≡ false)

settle_id : (m : Message) (raw : Bytes) → IsSettled m → settle m raw ≡ m
unfolding settle
settle_id m raw h = ground (arith, h.0, h.1, and_false (is_response m.type))

pub loop-body :
    (fuel : ℕ) (m m' : Message) (more : Bool) (raw rest : Bytes) (allowed : Option (List Bytes))
    → reads_body m.state ≡ true
    → process_body m raw ≡ some (ok (m', more, rest))
    → IsSettled m'
    → parse_loop (suc fuel) m true raw allowed ≡ parse_loop fuel m' more rest allowed
unfolding parse_loop
loop-body fuel m m' more raw rest allowed h e settled =
    rw (incomplete m.state h)
      (rw (dispatch-body m.state m raw allowed h) (rw e (rw (settle_id m' rest settled) refl)))

pub loop_stop :
    (fuel : ℕ) (m : Message) (raw : Bytes) (allowed : Option (List Bytes))
    → parse_loop fuel m false raw allowed ≡ some (ok (m, raw))
unfolding parse_loop
loop_stop zero m raw allowed = refl
loop_stop (suc fuel) m raw allowed = refl

loop_complete :
    (fuel : ℕ) (m : Message) (more : Bool) (raw : Bytes) (allowed : Option (List Bytes))
    → is_state m.state complete ≡ true
    → parse_loop fuel m more raw allowed ≡ some (ok (m, raw))
unfolding parse_loop
loop_complete zero m true raw allowed h = rw h refl
loop_complete (suc fuel) m true raw allowed h = rw h refl
loop_complete zero m false raw allowed h = refl
loop_complete (suc fuel) m false raw allowed h = refl

-- What `parse` makes of a message with no bytes left over.
abbrev pub received : Message → Bytes → ℕ → ParserState → Bytes → Message
received m raw n s rest = record m {
  total_size = m.total_size + n;
  buffer = kept rest;
  body = some (so_far m ++ raw);
  state = s;
}

abbrev pub begun : Message → Bytes → Message
begun m raw = record m { total_size = m.total_size + length raw; buffer = none }

unfoldable pub keep : Message × Bytes → Run Message
keep s = some (ok (record (s.0) { buffer = kept s.1 }))

pub parse_unfold :
    (fuel : ℕ) (m : Message) (raw : Bytes) (allowed : Option (List Bytes))
    → m.buffer ≡ none
    → raw ≢ []
    → parse fuel m raw allowed ≡ then_run (parse_loop fuel (begun m raw) true raw allowed) keep
unfolding parse keep
parse_unfold fuel m raw allowed h ne = rw (is_empty-false raw ne) (
    ap (λ b. then_run (parse_loop fuel (begun m raw) true (body_or_empty b ++ raw) allowed) keep) h)

-- The round after one that took all there was.
loop-idle :
    (fuel : ℕ) (m : Message) (n : ℕ) (allowed : Option (List Bytes))
    → HasLength m (pos n)
    → reads_body m.state ≡ true
    → length (so_far m) < n
    → parse_loop (suc fuel) m true [] allowed ≡ some (ok (extended m [] rcving_body, []))
unfolding is_state
loop-idle fuel m n allowed h s lt =
    loop-body fuel m (extended m [] rcving_body) false [] [] allowed s
      (process-length m (pos n) [] h ∙ receive-short m n [] (omega arith)) (refl, refl)
    ∙ loop_stop fuel _ [] allowed

-- What is received is less than the length.
pub parse-short :
    (fuel : ℕ) (m : Message) (n : ℕ) (raw : Bytes) (allowed : Option (List Bytes))
    → Awaits m n
    → raw ≢ []
    → length (so_far m) + length raw < n
    → parse (suc (suc fuel)) m raw allowed ≡ some (ok (received m raw (length raw) rcving_body []))
unfolding content_length header is_state reads_body keep
parse-short fuel m n raw allowed h ne lt =
    parse_unfold (suc (suc fuel)) m raw allowed h.2 ne
    ∙ ap (λ r. then_run r keep)
        (loop-body (suc fuel) (begun m raw) (extended (begun m raw) raw rcving_body) true raw []
            allowed h.1
            (process-length (begun m raw) (pos n) raw h.0
              ∙ receive-short (begun m raw) n raw lt
              ∙ ap (λ b. some (ok (extended (begun m raw) raw rcving_body, not b, [])))
                  (is_empty-false raw ne))
            (refl, refl)
          ∙ loop-idle fuel (extended (begun m raw) raw rcving_body) n allowed h.0 refl
              (omega (arith, length-append (so_far m) raw))
          ∙ ap (λ b. some (ok (record (begun m raw) { body = some b; state = rcving_body }, [])))
              (append-nil (so_far m ++ raw)))

-- The rest of the body is there, and what follows it is kept.
pub parse-enough :
    (fuel : ℕ) (m : Message) (n : ℕ) (raw : Bytes) (allowed : Option (List Bytes))
    → Awaits m n
    → raw ≢ []
    → n ≤ length (so_far m) + length raw
    → parse (suc fuel) m raw allowed
      ≡ some (
          ok (
            received m
              (take (n - length (so_far m)) raw)
              (length raw)
              complete
              (drop (n - length (so_far m)) raw)))
unfolding content_length header is_state reads_body keep
parse-enough fuel m n raw allowed h ne le =
    parse_unfold (suc fuel) m raw allowed h.2 ne
    ∙ ap (λ r. then_run r keep)
        (loop-body fuel (begun m raw) _ _ raw _ allowed h.1
            (process-length (begun m raw) (pos n) raw h.0
              ∙ receive-enough (begun m raw) n raw h.3 le)
            (refl, refl)
          ∙ loop_complete fuel _ _ _ allowed refl)
