-- ===== src/Http/Chunk/Segments.antt =====
-- Chunks that arrive in several reads, and size lines that are negative.
use proxy_py.Base.{
  ℕ, ◌≡◌, refl, ◌∙◌, ◌≢◌, false, not, some, [], ◌∷◌, ◌++◌, arith, ==-refl, Bytes, length, take_all,
  drop_all, All, ok,
}
use proxy_py.Base.Int.{sub_ℕ-zero, negsuc}
use proxy_py.Bytes.{crlf, cut, is_empty, strip}
use proxy_py.Number.{digits, int_of}
use proxy_py.Http.Chunk.Termination.{parse-loop, loop-suc, loop-nil, Diverges, Reaches-loop}
use proxy_py.Http.Chunk.RoundTrip.{between, awaiting, process-hex, after-between}
use proxy_py.Http.Chunk.Descent.{here, round}
use proxy_py.Bytes.Strip.{append-cons-ne-nil}
use proxy_py.Bytes.Cut.{cut_found}
use proxy_py.Http.Chunk.{find_http_line, new_parser, parse, process, is_complete, waiting_for_data}

-- The delimiter of a chunk that comes at the head of the next read is taken for a blank line.
process-blank :
    (b rest : Bytes)
    → process (between b) (crlf ++ rest) ≡ ok (record (between b) { chunk = rest }, false, [])
unfolding process find_http_line cut strip
process-blank b rest = refl

process-payload_end :
    (b c : Bytes) → c ≢ [] → process (awaiting b (length c)) c ≡ ok (between (b ++ c), false, [])
unfolding process
process-payload_end b c ne = rw (sub_ℕ-zero (length c)) (
    rw (take_all (length c) c (omega arith)) (
      rw (drop_all (length c) c (omega arith))
        (rw (==-refl (length c)) (rw (after-between b c ne)))))

-- A chunk whose CRLF has not come is in the body, and the parser waits for a size. If the CRLF heads
-- the next read, all that follows in this read is kept aside and nothing of it is parsed: the parser
-- is not complete even if the last chunk is there.
pub parse-split_delimiter :
    (c rest : Bytes)
    → c ≢ []
    → (parse new_parser (digits 16 (length c) ++ (crlf ++ c)) ≡ some (ok (between c, [])))
      × (parse (between c) (crlf ++ rest) ≡ some (ok (record (between c) { chunk = rest }, [])))
unfolding is_complete
parse-split_delimiter c rest ne = (
  parse-loop new_parser _
      ∙ loop-suc _ new_parser _ (awaiting [] (length c)) c refl
          (append-cons-ne-nil (digits 16 (length c)) 13 (10 ∷ c)) (process-hex [] c (length c))
      ∙ loop-suc _ (awaiting [] (length c)) c (between c) [] refl ne (process-payload_end [] c ne)
      ∙ loop-nil _ (between c),
  parse-loop (between c) _
      ∙ loop-suc _ (between c) _ (record (between c) { chunk = rest }) [] refl (λ e. cc e)
          (process-blank c rest)
      ∙ loop-nil _ (record (between c) { chunk = rest }),
)

strip-not_blank :
    (line : Bytes) (k : ℕ) → int_of 16 line ≡ ok (negsuc k) → is_empty (strip line) ≡ false
unfolding int_of
strip-not_blank line k e = ground arith

negative_size-process :
    (line rest : Bytes) (k : ℕ)
    → All (λ c. c ≢ 13) line
    → int_of 16 line ≡ ok (negsuc k)
    → process new_parser (line ++ (crlf ++ rest))
      ≡ ok (
        record { state = waiting_for_data; body = []; chunk = []; size = some (negsuc k) },
        not (is_empty rest),
        rest,
      )
unfolding process find_http_line
negative_size-process line rest k h e =
    rw (cut_found line 13 (10 ∷ []) rest h, find_http_line) (rw (strip-not_blank line k e) (rw e))

-- A size line that reads as a negative number, with a byte behind it, makes the loop run for ever.
pub negative_size-Diverges :
    (line rest : Bytes) (k : ℕ)
    → All (λ c. c ≢ 13) line
    → int_of 16 line ≡ ok (negsuc k)
    → rest ≢ []
    → Diverges new_parser (line ++ (crlf ++ rest))
unfolding is_complete
negative_size-Diverges line rest k h e ne = λ fuel.
    Reaches-loop fuel
      (round {p = new_parser} refl (append-cons-ne-nil line 13 (10 ∷ rest))
        (negative_size-process line rest k h e) (here refl refl))
      (k, refl, refl, ne)
