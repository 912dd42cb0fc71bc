-- ===== src/Http/Chunk.antt =====
-- `ChunkParser` of proxy/http/parser/chunk.py, and `find_http_line` of proxy/common/utils.py.
pub mod Descent
pub mod Termination
pub mod Segments
pub mod RoundTrip
use proxy_py.Base.{
  ℕ, zero, suc, ◌+◌, ◌*◌, Bool, true, false, not, ◌&&◌, Option, none, some, List, [], ◌∷◌, ◌++◌,
  if◌then◌else◌, Bytes, length, take, drop, ◌>>=◌, Result, value_error, assertion_error, ok, raise,
}
use proxy_py.Base.Int.{minus_ℕ, equals_ℕ, slice_to, slice_from, ℤ}
use proxy_py.Bytes.{crlf, cut, is_empty, strip}
use proxy_py.Number.{int_of, digits}

pub data ChunkState : Type 0 where
  waiting_for_size waiting_for_data complete : ChunkState

pub record ChunkParser : Type 0 where
  pub state : ChunkState
  pub body : Bytes
  pub chunk : Bytes
  pub size : Option ℤ

abbrev pub new_parser : ChunkParser
new_parser = record { state = waiting_for_size; body = []; chunk = []; size = none }

-- The line and what follows it; without a CRLF there is no line.
unfoldable pub find_http_line : Bytes → Option Bytes × Bytes
find_http_line raw = elim (cut crlf raw) [
  | none ↦ (none, raw)
  | some (line, rest) ↦ (some line, rest)
]

-- What a call of `process` leaves: the parser, and the unread bytes; `more` is their being there.
abbrev pub Progress : Type 0
Progress = Result (ChunkParser × Bool × Bytes)

abbrev pub progress : ChunkParser → Bytes → Progress
progress p raw = ok (p, not (is_empty raw), raw)

-- The size line has come, or not, or is blank.
process_line : ChunkParser → Option Bytes → Bytes → Progress
process_line p none raw = progress (record p { chunk = raw }) []
process_line p (some line) raw =
    let parsed = (do
      size ← int_of 16 line
      progress (record p { state = waiting_for_data; chunk = []; size = some size }) raw) in
    if is_empty (strip line) then progress (record p { chunk = raw }) [] else parsed

process_size : ChunkParser → Bytes → Progress
process_size p raw = let (line, rest) = find_http_line (p.chunk ++ raw) in process_line p line rest

-- The chunk has all its bytes: its CRLF is skipped.
finish_chunk : ChunkParser → ℤ → Bytes → Bytes → Progress
finish_chunk p size chunk raw =
    progress
      (record {
        state = if equals_ℕ size 0 then complete else waiting_for_size;
        body = p.body ++ chunk;
        chunk = [];
        size = none;
      })
      (drop (length crlf) raw)

process_data : ChunkParser → Option ℤ → Bytes → Progress
process_data p none raw = raise assertion_error
process_data p (some size) raw =
    let remaining = minus_ℕ size (length p.chunk) in
    let chunk = p.chunk ++ slice_to remaining raw in
    let rest = slice_from remaining raw in
    if equals_ℕ size (length chunk)
    then finish_chunk p size chunk rest
    else progress (record p { chunk = chunk }) rest

process_in : ChunkState → ChunkParser → Bytes → Progress
process_in waiting_for_size p raw = process_size p raw
process_in waiting_for_data p raw = process_data p p.size raw
process_in complete p raw = progress p raw

unfoldable pub process : ChunkParser → Bytes → Progress
unfolding process_in process_size process_line process_data finish_chunk
process p raw = process_in p.state p raw

unfoldable pub is_complete : ChunkState → Bool
is_complete complete = true
is_complete _ = false

abbrev pub running : ChunkParser → Bool → Bool
running p more = more && not (is_complete p.state)

-- The loop of `parse` on fuel: `none` says that it is still running.
unfoldable pub parse_loop : ℕ → ChunkParser → Bool → Bytes → Option (Result (ChunkParser × Bytes))
parse_loop zero p more raw = if running p more then none else some (ok (p, raw))
parse_loop (suc fuel) p more raw =
    let rest : Option (Result (ChunkParser × Bytes)) = elim (process p raw) [
      | raise e ↦ some (raise e)
      | ok (p', more', raw') ↦ parse_loop fuel p' more' raw'
    ] in
    if running p more then rest else some (ok (p, raw))

abbrev pub enough : ChunkParser → Bytes → ℕ
enough p raw = 2 * length p.chunk + 2 * length raw + 2

unfoldable pub parse : ChunkParser → Bytes → Option (Result (ChunkParser × Bytes))
parse p raw = parse_loop (enough p raw) p (not (is_empty raw)) raw

-- `raw[0:k]`, `raw[k:2k]`, … ; there are no more of them than bytes.
unfoldable pub pieces : ℕ → ℕ → Bytes → List Bytes
pieces zero k raw = []
pieces (suc n) k [] = []
pieces (suc n) k (c ∷ cs) = take k (c ∷ cs) ∷ pieces n k (drop k (c ∷ cs))

-- What the loop of `to_chunks` appends for each piece.
unfoldable pub chunk_lines : List Bytes → List Bytes
chunk_lines [] = digits 16 0 ∷ [] ∷ []
chunk_lines (c ∷ cs) = digits 16 (length c) ∷ c ∷ chunk_lines cs

-- `sep.join(parts)`
unfoldable pub join : Bytes → List Bytes → Bytes
join sep [] = []
join sep (x ∷ []) = x
join sep (x ∷ y ∷ xs) = x ++ (sep ++ join sep (y ∷ xs))

-- A step of 0 is an error of `range`.
unfoldable pub to_chunks : Bytes → ℕ → Result Bytes
unfolding pieces chunk_lines join
to_chunks raw zero = raise value_error
to_chunks raw (suc k) = ok (join crlf (chunk_lines (pieces (length raw) (suc k) raw)) ++ crlf)

-- `DEFAULT_BUFFER_SIZE`
abbrev pub default_buffer_size : ℕ
default_buffer_size = 131072
