-- ===== src/Http/Chunk/Descent.antt =====
-- What one round of the loop of `parse` does to the bytes that are left.
use proxy_py.Base.{
  ℕ, ◌+◌, ◌-◌, ◌*◌, ◌≤◌, ◌<◌, min, ◌≡◌, refl, ap, ◌≢◌, ◌⊎◌, inl, inr, false, not, Option, none,
  some, [], ◌++◌, arith, ◌==◌, Bool-cases, Option-cases, Bytes, length, take, drop, length-append,
  length-drop, length-take, drop_all, ◌>>=◌, Result, ok, raise,
}
use proxy_py.Base.Int.{sub_ℕ, ℤ, pos, negsuc}
use proxy_py.Bytes.{crlf, cut, is_empty, strip}
use proxy_py.Bytes.Cut.{cut_sound}
use proxy_py.Number.{int_of}
use proxy_py.Http.Chunk.{
  process_data, ChunkState, ChunkParser, waiting_for_size, waiting_for_data, complete,
  find_http_line, process, process_size, process_line, is_complete, Progress, progress,
  finish_chunk, process_in,
}

-- A chunk that is being received is no longer than its size.
abbrev pub FitsIn : ChunkState → Bytes → Option ℤ → Type 0
FitsIn waiting_for_data chunk (some (pos n)) = length chunk ≤ n
FitsIn _ chunk size = Unit

abbrev pub Fits : ChunkParser → Type 0
Fits p = FitsIn p.state p.chunk p.size

-- Bounds the rounds that are left.
abbrev pub measure_in : ChunkState → ℕ → ℕ → ℕ
measure_in waiting_for_size chunk raw = 2 * chunk + 2 * raw
measure_in waiting_for_data chunk raw = 2 * raw + 1
measure_in complete chunk raw = 0

abbrev pub measure : ChunkParser → Bytes → ℕ
measure p raw = measure_in p.state (length p.chunk) (length raw)

-- A negative size was read, and there are bytes left.
abbrev pub IsStuck : ChunkParser → Bytes → Type 0
IsStuck p raw = (k : ℕ) × (p.state ≡ waiting_for_data) × (p.size ≡ some (negsuc k)) × (raw ≢ [])

-- The rounds of the loop.
pub data Reaches (q : ChunkParser) (rest : Bytes) : ChunkParser → Bytes → Type 0 where
  here : {p : ChunkParser} {raw : Bytes} → p ≡ q → raw ≡ rest → Reaches q rest p raw
  round :
      {p p' : ChunkParser} {raw raw' : Bytes}
      → is_complete p.state ≡ false
      → raw ≢ []
      → process p raw ≡ ok (p', not (is_empty raw'), raw')
      → Reaches q rest p' raw'
      → Reaches q rest p raw

-- What a round must do so that the loop ends.
abbrev pub Descends : ℕ → Progress → Type 0
Descends m (raise e) = Unit
Descends m (ok (p, more, raw)) =
    (more ≡ not (is_empty raw)) × Fits p × ((more ≡ false) ⊎ (measure p raw < m))

length-cut : (raw : Bytes) {a b : Bytes} → cut crlf raw ≡ some (a, b) → length b + 2 ≤ length raw
length-cut raw {a} {b} h =
    omega (arith, ap length (cut_sound crlf raw h), length-append a (crlf ++ b))

parsed-Descends :
    (p : ChunkParser) (r : Result ℤ) (rest : Bytes) (m : ℕ)
    → 2 * length rest + 1 < m
    → Descends m (
        r >>= λ size.
        progress (record p { state = waiting_for_data; chunk = []; size = some size }) rest)
parsed-Descends p (raise e) rest m h = tt
parsed-Descends p (ok (pos n)) rest m h = (refl, omega arith, inr h)
parsed-Descends p (ok (negsuc n)) rest m h = (refl, tt, inr h)

-- A parser that waits for a size fits.
waiting-Fits :
    (s : ChunkState) (chunk : Bytes) (z : Option ℤ) → s ≡ waiting_for_size → FitsIn s chunk z
waiting-Fits waiting_for_data chunk z h = cc
waiting-Fits waiting_for_size chunk z h = tt
waiting-Fits complete chunk z h = tt

process_line-Descends :
    (p : ChunkParser) (line rest : Bytes) (m : ℕ)
    → p.state ≡ waiting_for_size
    → 2 * length rest + 1 < m
    → Descends m (process_line p (some line) rest)
unfolding process_line
process_line-Descends p line rest m s h = elim (Bool-cases (is_empty (strip line))) [
  | inl e ↦ rw e (refl, waiting-Fits p.state rest p.size s, inl refl)
  | inr e ↦ rw e (parsed-Descends p (int_of 16 line) rest m h)
]

find_http_line-none : (raw : Bytes) → cut crlf raw ≡ none → find_http_line raw ≡ (none, raw)
unfolding find_http_line
find_http_line-none raw e = rw (e, find_http_line)

find_http_line-some :
    (raw line rest : Bytes)
    → cut crlf raw ≡ some (line, rest)
    → find_http_line raw ≡ (some line, rest)
unfolding find_http_line
find_http_line-some raw line rest e = rw (e, find_http_line)

process_size-Descends :
    (p : ChunkParser) (raw : Bytes)
    → p.state ≡ waiting_for_size
    → Descends (2 * length p.chunk + 2 * length raw) (process_size p raw)
unfolding process_size
process_size-Descends p raw s = elim (Option-cases (cut crlf (p.chunk ++ raw))) [
  | inl e ↦
      rw (find_http_line-none _ e)
        (unfold process_line in (refl, waiting-Fits p.state (p.chunk ++ raw) p.size s, inl refl))
  | inr ((line, rest), e) ↦ rw (find_http_line-some _ line rest e) (
      process_line-Descends p line rest _ s
        (omega (arith, length-cut (p.chunk ++ raw) e, length-append p.chunk raw)))
]

receiving-Fits :
    (n : ℕ) (s : ChunkState) (chunk : Bytes) (z : Option ℤ)
    → s ≡ waiting_for_data
    → z ≡ some (pos n)
    → length chunk ≤ n
    → FitsIn s chunk z
receiving-Fits n s chunk z e e' h = rw e (rw e' h)

-- The size of the chunk is `n`, of which `p.chunk` is there.
process_data-Descends :
    (p : ChunkParser) (n : ℕ) (raw : Bytes)
    → p.state ≡ waiting_for_data
    → p.size ≡ some (pos n)
    → length p.chunk ≤ n
    → Descends (2 * length raw + 1) (process_data p (some (pos n)) raw)
unfolding process_data finish_chunk
process_data-Descends p n raw s z h =
    let here : sub_ℕ n (length p.chunk) ≡ pos (n - length p.chunk) = ground arith in
    let room = n - length p.chunk in
    let total : length (p.chunk ++ take room raw) ≡ length p.chunk + min room (length raw) =
      rw length-append (rw length-take) in
    rw here (elim (Bool-cases (n == length (p.chunk ++ take room raw))) [
      | inl e ↦ rw e (elim (Bool-cases (n == 0)) [
        | inl last ↦ rw last (refl, tt, inr (omega arith))
        | inr more ↦
            rw more
              (refl, tt, inr (omega (arith, length-drop 2 (drop room raw), length-drop room raw)))
      ])
      | inr e ↦ rw e (
          let short : length raw ≤ room = ground (arith, total) in
          rw (drop_all room raw short)
            (refl, receiving-Fits n _ _ _ s z (omega (arith, total)), inl refl))
    ])

module _ (p : ChunkParser) (raw : Bytes) (ne : raw ≢ []) where
  data-Descends :
      (z : Option ℤ)
      → p.state ≡ waiting_for_data
      → p.size ≡ z
      → FitsIn waiting_for_data p.chunk z
      → Descends (2 * length raw + 1) (process_data p z raw) ⊎ IsStuck p raw
  unfolding process_data
  data-Descends none e e' h = inl tt
  data-Descends (some (pos n)) e e' h = inl (process_data-Descends p n raw e e' h)
  data-Descends (some (negsuc k)) e e' h = inr (k, e, e', ne)

  state-Descends :
      (s : ChunkState)
      → p.state ≡ s
      → FitsIn s p.chunk p.size
      → is_complete s ≡ false
      → Descends (measure_in s (length p.chunk) (length raw)) (process_in s p raw) ⊎ IsStuck p raw
  unfolding process_in is_complete
  state-Descends waiting_for_size e h run = inl (process_size-Descends p raw e)
  state-Descends waiting_for_data e h run = data-Descends p.size e refl h
  state-Descends complete e h run = cc

  -- A round goes on with a smaller measure, or is the last, or reads at a negative size.
  pub process-Descends :
      Fits p
      → is_complete p.state ≡ false
      → Descends (measure p raw) (process p raw) ⊎ IsStuck p raw
  unfolding process
  process-Descends = state-Descends p.state refl
