-- ===== src/Http/Chunk/RoundTrip.antt =====
-- What `to_chunks` writes, `parse` reads back.
use proxy_py.Base.{
  ℕ, zero, suc, ◌≤◌, ◌≡◌, refl, ap, ◌∙◌, ◌≢◌, Bool, true, false, not, none, some, List, [], ◌∷◌,
  ◌++◌, append_assoc, arith, ◌==◌, if◌then◌else◌, ==-refl, Bytes, length, drop, length-append,
  length-drop, take-append-drop, take-length, drop-length, All, ok,
}
use proxy_py.Base.Int.{sub_ℕ-zero, pos}
use proxy_py.Bytes.{crlf, is_empty, strip}
use proxy_py.Bytes.Cut.{cut_found}
use proxy_py.Bytes.Strip.{strip_id, is_empty-false, is_empty-append}
use proxy_py.Number.{digits}
use proxy_py.Number.RoundTrip.{
  int_of-digits, IsDigit, digits-IsDigit, IsDigit-All-space, digits-ne-nil,
}
use proxy_py.Http.Chunk.{
  find_http_line, process, is_complete, parse_loop, chunk_lines, join, ChunkParser,
  waiting_for_size, waiting_for_data, complete, new_parser, to_chunks, parse, pieces,
}

abbrev hex : ℕ → Bytes
hex n = digits 16 n

-- Each part followed by CRLF, and then `rest`.
lines : List Bytes → Bytes → Bytes
lines [] rest = rest
lines (x ∷ xs) rest = x ++ (crlf ++ lines xs rest)

join-lines :
    (x : Bytes) (xs : List Bytes) (rest : Bytes)
    → (join crlf (x ∷ xs) ++ crlf) ++ rest ≡ lines (x ∷ xs) rest
unfolding join lines
join-lines x [] rest = append_assoc x crlf rest
join-lines x (y ∷ xs) rest =
    simp append_assoc (ap (λ t. x ++ (crlf ++ t)) (simp append_assoc at (join-lines y xs rest)))

length-lines : (xs : List Bytes) (rest : Bytes) → length xs ≤ length (lines xs rest)
unfolding lines
length-lines [] rest = omega arith
length-lines (x ∷ xs) rest =
    omega (arith, length-lines xs rest, length-append x (crlf ++ lines xs rest))

no_cr : (cs : Bytes) → All IsDigit cs → All (λ c. c ≢ 13) cs
no_cr [] h = tt
no_cr (c ∷ cs) h = (ground arith, no_cr cs h.1)

module _ (n : ℕ) where
  find-hex : (rest : Bytes) → find_http_line (hex n ++ (crlf ++ rest)) ≡ (some (hex n), rest)
  unfolding find_http_line
  find-hex rest = rw (
    cut_found (hex n) 13 (10 ∷ []) rest
        (no_cr (hex n) (digits-IsDigit 16 (omega arith) (omega arith) n)),
    find_http_line,
  )

  hex_not_blank : is_empty (strip (hex n)) ≡ false
  hex_not_blank =
      rw
        (strip_id (hex n)
          (IsDigit-All-space (hex n) (digits-IsDigit 16 (omega arith) (omega arith) n)))
        (is_empty-false (hex n) (digits-ne-nil 16 (omega arith) (omega arith) n))

-- The parser between two chunks, with the body so far.
abbrev pub between : Bytes → ChunkParser
between b = record { state = waiting_for_size; body = b; chunk = []; size = none }

abbrev pub awaiting : Bytes → ℕ → ChunkParser
awaiting b n = record { state = waiting_for_data; body = b; chunk = []; size = some (pos n) }

abbrev pub after : Bytes → Bytes → ChunkParser
after b c = record {
  state = if length c == 0 then complete else waiting_for_size;
  body = b ++ c;
  chunk = [];
  size = none;
}

pub process-hex :
    (b rest : Bytes) (n : ℕ)
    → process (between b) (hex n ++ (crlf ++ rest)) ≡ ok (awaiting b n, not (is_empty rest), rest)
unfolding process
process-hex b rest n =
    rw (find-hex n rest)
      (rw (hex_not_blank n) (rw (int_of-digits 16 n (omega arith) (omega arith))))

process-payload :
    (b c rest : Bytes)
    → process (awaiting b (length c)) (c ++ (crlf ++ rest))
      ≡ ok (after b c, not (is_empty rest), rest)
unfolding process
process-payload b c rest = rw (sub_ℕ-zero (length c)) (
    rw (take-length c (crlf ++ rest)) (rw (drop-length c (crlf ++ rest)) (rw (==-refl (length c)))))

-- A whole chunk takes two rounds of the loop.
parse_loop-chunk :
    (f : ℕ) (b c rest : Bytes)
    → parse_loop (suc (suc f)) (between b) true (hex (length c) ++ (crlf ++ (c ++ (crlf ++ rest))))
      ≡ parse_loop f (after b c) (not (is_empty rest)) rest
unfolding parse_loop is_complete
parse_loop-chunk f b c rest =
    rw (process-hex b (c ++ (crlf ++ rest)) (length c))
      (rw (is_empty-append c 13 (10 ∷ rest)) (rw (process-payload b c rest)))

-- The chunks put together.
concat : List Bytes → Bytes
concat [] = []
concat (c ∷ cs) = c ++ concat cs

abbrev pub done : Bytes → ChunkParser
done b = record { state = complete; body = b; chunk = []; size = none }

lines_not_empty : (cs : List Bytes) (rest : Bytes) → is_empty (lines (chunk_lines cs) rest) ≡ false
unfolding lines chunk_lines
lines_not_empty [] rest = is_empty-append (hex 0) 13 (10 ∷ [] ++ (crlf ++ rest))
lines_not_empty (c ∷ cs) rest =
    is_empty-append (hex (length c)) 13 (10 ∷ (c ++ (crlf ++ lines (chunk_lines cs) rest)))

pub after-between : (b c : Bytes) → c ≢ [] → after b c ≡ between (b ++ c)
after-between b [] h = absurd (h refl)
after-between b (x ∷ c) h = ground arith

parse_loop_complete :
    (f : ℕ) (p : ChunkParser) (more : Bool) (raw : Bytes)
    → is_complete p.state ≡ true
    → parse_loop f p more raw ≡ some (ok (p, raw))
unfolding parse_loop
parse_loop_complete zero p more raw h = ground arith
parse_loop_complete (suc f) p more raw h = ground arith

parse_loop-lines :
    (cs : List Bytes) (f : ℕ) (b rest : Bytes)
    → All (λ c. c ≢ []) cs
    → length (chunk_lines cs) ≤ f
    → parse_loop f (between b) true (lines (chunk_lines cs) rest)
      ≡ some (ok (done (b ++ concat cs), rest))
unfolding lines chunk_lines concat
parse_loop-lines [] zero b rest ne h = elim h [ ]
parse_loop-lines [] (suc zero) b rest ne h = absurd (omega arith)
parse_loop-lines [] (suc (suc f)) b rest ne h =
    parse_loop-chunk f b [] rest
    ∙ parse_loop_complete f (done (b ++ [])) (not (is_empty rest)) rest (unfold is_complete in refl)
parse_loop-lines (c ∷ cs) zero b rest ne h = elim h [ ]
parse_loop-lines (c ∷ cs) (suc zero) b rest ne h = absurd (omega arith)
parse_loop-lines (c ∷ cs) (suc (suc f)) b rest ne h =
    parse_loop-chunk f b c (lines (chunk_lines cs) rest)
    ∙ rw (after-between b c ne.0) (
        rw (lines_not_empty cs rest) (
          parse_loop-lines cs f (b ++ c) rest ne.1 (omega arith)
          ∙ rw (append_assoc b c (concat cs))))

module _ (k : ℕ) where
  -- The pieces have all the bytes, in order.
  concat-pieces : (n : ℕ) (raw : Bytes) → length raw ≤ n → concat (pieces n (suc k) raw) ≡ raw
  unfolding concat pieces
  concat-pieces zero [] h = refl
  concat-pieces zero (x ∷ raw) h = elim h [ ]
  concat-pieces (suc n) [] h = refl
  concat-pieces (suc n) (x ∷ raw) h =
      rw (concat-pieces n (drop k raw) (omega (arith, length-drop k raw)))
        (ap (λ t. x ∷ t) (take-append-drop k raw))

  pieces-ne-nil : (n : ℕ) (raw : Bytes) → All (λ c. c ≢ []) (pieces n (suc k) raw)
  unfolding pieces
  pieces-ne-nil zero raw = tt
  pieces-ne-nil (suc n) [] = tt
  pieces-ne-nil (suc n) (x ∷ raw) = ((λ e. cc e), pieces-ne-nil n (drop k raw))

lines-chunks :
    (cs : List Bytes) (rest : Bytes)
    → (join crlf (chunk_lines cs) ++ crlf) ++ rest ≡ lines (chunk_lines cs) rest
unfolding chunk_lines
lines-chunks [] rest = join-lines (hex 0) ([] ∷ []) rest
lines-chunks (c ∷ cs) rest = join-lines (hex (length c)) (c ∷ chunk_lines cs) rest

-- Whatever the body and the chunk size, one call of `parse` on what `to_chunks` wrote returns: the
-- parser is complete, holds the body, and leaves exactly the bytes that follow the last chunk.
pub parse-to_chunks :
    (body rest raw : Bytes) (k : ℕ)
    → to_chunks body k ≡ ok raw
    → parse new_parser (raw ++ rest) ≡ some (ok (done body, rest))
unfolding to_chunks parse
parse-to_chunks body rest raw zero h = cc
parse-to_chunks body rest raw (suc k) h =
    let cs = pieces (length body) (suc k) body in
    let same_raw : raw ++ rest ≡ lines (chunk_lines cs) rest =
      ground (arith, lines-chunks cs rest) in
    rw same_raw (
      rw (lines_not_empty cs rest) (
        parse_loop-lines cs _ [] rest (pieces-ne-nil k (length body) body)
          (omega (arith, length-lines (chunk_lines cs) rest))
        ∙ rw (concat-pieces k (length body) body (omega arith))))
