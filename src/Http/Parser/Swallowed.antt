-- ===== src/Http/Parser/Swallowed.antt =====
-- Bytes behind a message that announces no body.
use proxy_py.Base.{
  ℕ, suc, ◌≡◌, ◌≢◌, refl, ap, ◌∙◌, true, false, not, ◌||◌, Option, none, some, List, [], ◌∷◌, arith,
  All, Bytes, Run, then_run, ok,
}
use proxy_py.Bytes.Strip.{is_empty-false}
use proxy_py.Http.Message.{
  Message, ParserState, rcving_headers, headers_complete, rcving_body, complete,
}
use proxy_py.Http.Parser.{
  parse, parse_loop, process_headers, process_body, dispatch, settle, is_state, is_response,
}
use proxy_py.Http.Parser.Body.{
  reads_body, begun, keep, parse_unfold, loop-body, loop_stop, and_false,
}
use proxy_py.Http.Parser.Reads.{parse_all}

-- A body is neither announced by a length nor sent in chunks.
abbrev pub IsUnannounced : Message → Type 0
IsUnannounced m = (m.content_expected ≡ false) × (m.is_chunked_encoded ≡ false)

abbrev swallowed : Message → Bytes → Message
swallowed m raw = record m { state = rcving_body; body = some raw }

process-swallowed :
    (m : Message) (raw : Bytes)
    → IsUnannounced m
    → process_body m raw ≡ some (ok (swallowed m raw, false, []))
unfolding process_body
process-swallowed m raw h = rw (h.1, h.0) refl

-- Whatever comes takes the place of the body.
loop-swallowed :
    (fuel : ℕ) (m : Message) (raw : Bytes) (allowed : Option (List Bytes))
    → reads_body m.state ≡ true
    → IsUnannounced m
    → parse_loop (suc fuel) m true raw allowed ≡ some (ok (swallowed m raw, []))
unfolding is_state
loop-swallowed fuel m raw allowed s h =
    loop-body fuel m (swallowed m raw) false raw [] allowed s (process-swallowed m raw h)
      (refl, refl)
    ∙ loop_stop fuel (swallowed m raw) [] allowed

parse-swallowed :
    (fuel : ℕ) (m : Message) (raw : Bytes) (allowed : Option (List Bytes))
    → m.state ≡ rcving_body
    → m.buffer ≡ none
    → IsUnannounced m
    → raw ≢ []
    → parse (suc fuel) m raw allowed ≡ some (ok (swallowed (begun m raw) raw))
unfolding keep reads_body
parse-swallowed fuel m raw allowed s b h ne =
    parse_unfold (suc fuel) m raw allowed b ne
    ∙ ap (λ r. then_run r keep) (loop-swallowed fuel (begun m raw) raw allowed (ap reads_body s) h)

-- The headers end in this read, with a byte behind them at least.
pub record Ends (m m' : Message) (raw rest : Bytes) : Type 0 where
  pub reads_headers : m.state ≡ rcving_headers
  pub unbuffered : m.buffer ≡ none
  pub is_there : raw ≢ []
  pub ends : process_headers (begun m raw) raw ≡ some (ok (m', true, rest))
  pub complete_headers : m'.state ≡ headers_complete
  pub unannounced : IsUnannounced m'
  pub stays : m'.buffer ≡ none
  pub is_behind : rest ≢ []

settle-headers :
    (m : Message) (rest : Bytes) → m.state ≡ headers_complete → rest ≢ [] → settle m rest ≡ m
unfolding settle is_state
settle-headers m rest s ne = ground (
  arith,
  s,
  is_empty-false rest ne,
  and_false (is_response m.type),
  and_false (not (m.content_expected || m.is_chunked_encoded)),
)

dispatch-headers :
    (s : ParserState) (m : Message) (raw : Bytes) (allowed : Option (List Bytes))
    → s ≡ rcving_headers
    → dispatch s m raw allowed ≡ process_headers m raw
unfolding dispatch
dispatch-headers s m raw allowed e = rw e refl

is_unfinished : (s : ParserState) → s ≡ rcving_headers → is_state s complete ≡ false
unfolding is_state
is_unfinished s e = rw e refl

loop-headers :
    (fuel : ℕ) (m m' : Message) (raw rest : Bytes) (allowed : Option (List Bytes))
    → m.state ≡ rcving_headers
    → process_headers m raw ≡ some (ok (m', true, rest))
    → settle m' rest ≡ m'
    → parse_loop (suc fuel) m true raw allowed ≡ parse_loop fuel m' true rest allowed
unfolding parse_loop
loop-headers fuel m m' raw rest allowed s e settled =
    rw (is_unfinished m.state s, dispatch-headers m.state m raw allowed s, e, settled) refl

parse-Ends :
    (fuel : ℕ) (m m' : Message) (raw rest : Bytes) (allowed : Option (List Bytes))
    → Ends m m' raw rest
    → parse (suc (suc fuel)) m raw allowed
      ≡ some (ok (record (swallowed m' rest) { buffer = none }))
unfolding keep reads_body
parse-Ends fuel m m' raw rest allowed e =
    parse_unfold (suc (suc fuel)) m raw allowed e.unbuffered e.is_there
    ∙ ap (λ r. then_run r keep)
        (loop-headers (suc fuel) (begun m raw) m' raw rest allowed e.reads_headers e.ends
            (settle-headers m' rest e.complete_headers e.is_behind)
          ∙ loop-swallowed fuel m' rest allowed (ap reads_body e.complete_headers) e.unannounced)

-- The last of the pieces.
abbrev pub last_of : Bytes → List Bytes → Bytes
last_of raw [] = raw
last_of raw (next ∷ rest) = last_of next rest

abbrev pub Unfinished : Bytes → Run Message → Type 0
Unfinished raw r = (m : Message) × (r ≡ some (ok m)) × (m.state ≡ rcving_body) × (m.body ≡ some raw)

parse_all-swallowed :
    (fuel : ℕ) (reads : List Bytes) (m : Message) (raw : Bytes) (allowed : Option (List Bytes))
    → m.state ≡ rcving_body
    → m.buffer ≡ none
    → IsUnannounced m
    → m.body ≡ some raw
    → All (λ next. next ≢ []) reads
    → Unfinished (last_of raw reads) (parse_all (suc (suc fuel)) m reads allowed)
unfolding parse_all
parse_all-swallowed fuel [] m raw allowed s b h e ne = (m, refl, s, e)
parse_all-swallowed fuel (next ∷ reads) m raw allowed s b h e ne =
    rw (parse-swallowed (suc fuel) m next allowed s b h ne.0) (
      parse_all-swallowed fuel reads (swallowed (begun m next) next) next allowed refl refl h refl
        ne.1)

pub parse_all-Unfinished :
    (fuel : ℕ) (m m' : Message) (raw rest : Bytes) (reads : List Bytes)
    (allowed : Option (List Bytes))
    → Ends m m' raw rest
    → All (λ next. next ≢ []) reads
    → Unfinished (last_of rest reads) (parse_all (suc (suc fuel)) m (raw ∷ reads) allowed)
unfolding parse_all
parse_all-Unfinished fuel m m' raw rest reads allowed e ne =
    rw (parse-Ends fuel m m' raw rest allowed e) (
      parse_all-swallowed fuel reads (record (swallowed m' rest) { buffer = none }) rest allowed
        refl refl e.unannounced refl ne)
