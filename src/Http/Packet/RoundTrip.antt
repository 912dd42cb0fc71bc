-- ===== src/Http/Packet/RoundTrip.antt =====
-- The header lines of a packet, as the parser reads them.
use proxy_py.Base.{
  ℕ, zero, suc, ◌≤◌, ◌<◌, ◌≡◌, refl, ap, ◌∙◌, ◌≢◌, Bool, true, false, ◌&&◌, ◌||◌, some, [], ◌∷◌,
  ◌++◌, append_assoc, arith, if◌then◌else◌, same, Bytes, length, length-append, All, All-append,
  ◌>>=◌, then_run, Result, ok, raise,
}
use proxy_py.Bytes.{codes, crlf, is_space, lstrip, is_empty, rstrip, strip, lower}
use proxy_py.Bytes.Cut.{cut_found}
use proxy_py.Bytes.Strip.{strip_id}
use proxy_py.Base.Int.{is_positive, ℤ}
use proxy_py.Number.{int_of}
use proxy_py.Http.Message.{Message, add_header, rcving_headers, headers_complete, ParserState}
use proxy_py.Http.Packet.{build_http_header, Fields, header_lines}
use proxy_py.Http.Parser.{
  note_length, process_header, note_header, Step, unread, header_line, reads_headers, is_state,
  process_headers_loop, process_headers,
}

-- A name without white space or a colon.
abbrev pub IsName : Bytes → Type 0
IsName k = (k ≢ []) × All (λ c. is_space c ≡ false) k × All (λ c. c ≢ b':') k × All (λ c. c ≢ 13) k

-- A value without a line end, and without white space around it.
abbrev pub IsValue : Bytes → Type 0
IsValue v = All (λ c. c ≢ 13) v × (strip (b' ' ∷ v) ≡ v)

abbrev pub IsField : Bytes × Bytes → Type 0
IsField f = IsName f.0 × IsValue f.1

process-field :
    (m : Message) (k v : Bytes)
    → IsName k
    → IsValue v
    → process_header m (build_http_header k v) ≡ note_header (add_header m k v) (lower k) v
unfolding process_header build_http_header
process-field m k v hk hv =
    rw (cut_found k b':' [] (b' ' ∷ v) hk.2) (rw (strip_id k hk.1) (rw hv.1 refl))

strip-cons : (c : ℕ) (cs : Bytes) → is_space c ≡ false → is_empty (strip (c ∷ cs)) ≡ false
unfolding strip lstrip rstrip
strip-cons c cs h = ground arith

not_blank : (k v : Bytes) → IsName k → is_empty (strip (build_http_header k v)) ≡ false
unfolding build_http_header
not_blank [] v h = absurd (h.0 refl)
not_blank (c ∷ cs) v h = strip-cons c (cs ++ b':' ∷ b' ' ∷ v) h.1.0

-- What a field does to the message.
unfoldable pub add_field : Message → Bytes → Bytes → Result Message
add_field m k v = note_header (add_header (record m { state = rcving_headers }) k v) (lower k) v

header_line-field :
    (m : Message) (k v : Bytes)
    → IsName k
    → IsValue v
    → header_line m (build_http_header k v) ≡ add_field m k v
unfolding header_line add_field
header_line-field m k v hk hv =
    rw (not_blank k v hk) (process-field (record m { state = rcving_headers }) k v hk hv)

-- The fields, one after another.
unfoldable pub add_fields : Message → Fields → Result Message
add_fields m [] = ok m
add_fields m ((k, v) ∷ rest) = do m' ← add_field m k v; add_fields m' rest

abbrev Reading : Result Message → Type 0
Reading (ok m) = m.state ≡ rcving_headers
Reading (raise e) = Unit

note_header-Reading :
    (m : Message) (k v : Bytes) → m.state ≡ rcving_headers → Reading (note_header m k v)
unfolding note_header note_length
note_header-Reading m k v h =
    pick (same k (codes "content-length"))
      (same k (codes "transfer-encoding") && same (lower v) (codes "chunked")) (int_of 10 v)
  where
    announced : (b : Bool) → Reading (ok (if b then record m { content_expected = true } else m))
    announced true = h
    announced false = h

    pick :
        (b b' : Bool) (r : Result ℤ)
        → Reading (
            if b
            then (r >>= λ n. ok (if is_positive n then record m { content_expected = true } else m))
            else if b'
            then ok (record m { is_chunked_encoded = true })
            else ok m)
    pick true b' (ok n) = announced (is_positive n)
    pick true b' (raise e) = tt
    pick false true r = h
    pick false false r = h

add_field-Reading : (m : Message) (k v : Bytes) → Reading (add_field m k v)
unfolding add_field add_header
add_field-Reading m k v =
    note_header-Reading (add_header (record m { state = rcving_headers }) k v) (lower k) v refl

no_line_end : (k v : Bytes) → IsName k → IsValue v → All (λ c. c ≢ 13) (build_http_header k v)
unfolding build_http_header
no_line_end k v hk hv =
    All-append (λ c. c ≢ 13) k (b':' ∷ b' ' ∷ v) hk.3 (omega arith, (omega arith, hv.0))

after_headers : Bytes → Message → Step
after_headers rest m = unread (record m { state = headers_complete }) rest

-- In the loop, when a line of the headers has been read.
loop_next : ℕ → Bytes → Message → Step
loop_next fuel more m =
    let again = process_headers_loop fuel m more in
    if is_empty more || is_state m.state headers_complete then unread m more else again

loop_next-reading :
    (fuel : ℕ) (more : Bytes) (m : Message)
    → is_empty more ≡ false
    → m.state ≡ rcving_headers
    → loop_next fuel more m ≡ process_headers_loop fuel m more
unfolding loop_next is_state
loop_next-reading fuel more m ne h = rw ne (after m.state _ h)
  where
    after :
        (s : ParserState) (u : Step)
        → s ≡ rcving_headers
        → (if is_state s headers_complete then u else process_headers_loop fuel m more)
          ≡ process_headers_loop fuel m more
    after rcving_headers u e = refl
    after _ u e = cc

loop-line :
    (fuel : ℕ) (m : Message) (line more : Bytes)
    → reads_headers m.state ≡ true
    → All (λ c. c ≢ 13) line
    → process_headers_loop (suc fuel) m (line ++ (crlf ++ more))
      ≡ then_run (some (header_line m line)) (loop_next fuel more)
unfolding process_headers_loop loop_next
loop-line fuel m line more h h' =
    rw (cut_found line 13 (10 ∷ []) more h', process_headers_loop) (rw h refl)

fields_not_empty :
    (hs : Fields) (rest : Bytes) → is_empty (header_lines hs ++ (crlf ++ rest)) ≡ false
unfolding header_lines build_http_header
fields_not_empty [] rest = refl
fields_not_empty (([], v) ∷ hs) rest = refl
fields_not_empty ((c ∷ k, v) ∷ hs) rest = refl

reading : (s : ParserState) → s ≡ rcving_headers → reads_headers s ≡ true
reading rcving_headers e = refl
reading _ e = cc

loop_next-blank :
    (fuel : ℕ) (m : Message) (rest : Bytes)
    → loop_next fuel rest (record m { state = headers_complete }) ≡ after_headers rest m
unfolding loop_next after_headers is_state
loop_next-blank fuel m [] = refl
loop_next-blank fuel m (c ∷ cs) = refl

header_line-blank : (m : Message) → header_line m [] ≡ ok (record m { state = headers_complete })
unfolding header_line strip
header_line-blank m = refl

loop-fields :
    (hs : Fields) (fuel : ℕ) (m : Message) (rest : Bytes)
    → All IsField hs
    → length hs < fuel
    → reads_headers m.state ≡ true
    → process_headers_loop fuel m (header_lines hs ++ (crlf ++ rest))
      ≡ then_run (some (add_fields m hs)) (after_headers rest)
unfolding header_lines add_fields
loop-fields hs zero m rest h lt r = absurd (omega arith)
loop-fields [] (suc fuel) m rest h lt r =
    loop-line fuel m [] rest r tt ∙ rw (header_line-blank m) (loop_next-blank fuel m rest)
loop-fields ((k, v) ∷ hs) (suc fuel) m rest h lt r =
    ap (process_headers_loop (suc fuel) m)
      (append_assoc (build_http_header k v) (crlf ++ header_lines hs) (crlf ++ rest))
    ∙ loop-line fuel m (build_http_header k v) (header_lines hs ++ (crlf ++ rest)) r
        (no_line_end k v h.0.0 h.0.1)
    ∙ rw (header_line-field m k v h.0.0 h.0.1) (
        onward (add_field m k v) (add_field-Reading m k v)
          λ m' r'. loop-fields hs fuel m' rest h.1 (omega arith) r')
  where
    onward :
        (o : Result Message)
        → Reading o
        → ((m' : Message)
            → reads_headers m'.state ≡ true
            → process_headers_loop fuel m' (header_lines hs ++ (crlf ++ rest))
              ≡ then_run (some (add_fields m' hs)) (after_headers rest))
        → then_run (some o) (loop_next fuel (header_lines hs ++ (crlf ++ rest)))
          ≡ then_run (some (o >>= λ m'. add_fields m' hs)) (after_headers rest)
    onward (raise e) t ih = refl
    onward (ok m') t ih =
        loop_next-reading fuel _ m' (fields_not_empty hs rest) t ∙ ih m' (reading m'.state t)

length-header_lines : (hs : Fields) → length hs ≤ length (header_lines hs)
unfolding header_lines build_http_header
length-header_lines [] = omega arith
length-header_lines ((k, v) ∷ hs) =
    omega (
      arith,
      length-header_lines hs,
      length-append (k ++ b':' ∷ b' ' ∷ v) (crlf ++ header_lines hs),
    )

-- The header lines of a packet, and the blank line behind them, are read as the fields that were
-- written, one by one and in order, and leave the body unread. A name has no white space and no
-- colon, and a value has no line end and no white space around it.
pub process_headers-header_lines :
    (hs : Fields) (m : Message) (rest : Bytes)
    → All IsField hs
    → reads_headers m.state ≡ true
    → process_headers m (header_lines hs ++ (crlf ++ rest))
      ≡ then_run (some (add_fields m hs)) λ m'. unread (record m' { state = headers_complete }) rest
unfolding process_headers after_headers
process_headers-header_lines hs m rest h r =
    loop-fields hs (suc (length (header_lines hs ++ (crlf ++ rest)))) m rest h
      (omega (arith, length-header_lines hs, length-append (header_lines hs) (crlf ++ rest))) r
