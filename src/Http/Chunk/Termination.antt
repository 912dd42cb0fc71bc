-- ===== src/Http/Chunk/Termination.antt =====
-- When the loop of `parse` ends.
use proxy_py.Base.{
  ℕ, zero, suc, ◌+◌, ◌-◌, ◌*◌, ◌<◌, ◌≡◌, refl, sym, ap, ◌∙◌, ◌≢◌, ◌↔◌, ◌⊎◌, inl, inr, Bool, true,
  false, not, Option, none, some, [], ◌∷◌, ◌++◌, arith, Bool-cases, Bytes, length, drop, Raised,
  Result, ok, raise,
}
use proxy_py.Base.Int.{slice_to, negsuc}
use proxy_py.Bytes.{is_empty}
use proxy_py.Http.Chunk.Descent.{
  Fits, measure, Descends, IsStuck, Reaches, here, round, process-Descends, measure_in,
}
use proxy_py.Http.Chunk.{
  enough, parse, ChunkState, ChunkParser, waiting_for_data, waiting_for_size, complete, process,
  is_complete, parse_loop, Progress,
}

-- The loop as `parse` calls it.
abbrev pub loop : ℕ → ChunkParser → Bytes → Option (Result (ChunkParser × Bytes))
loop fuel p raw = parse_loop fuel p (not (is_empty raw)) raw

-- The rounds end in a state that reads at a negative size.
abbrev pub GetsStuck : ChunkParser → Bytes → Type 0
GetsStuck p raw = (q : ChunkParser) × (rest : Bytes) × Reaches q rest p raw × IsStuck q rest

abbrev pub Returns : ℕ → ChunkParser → Bytes → Type 0
Returns fuel p raw = (r : Result (ChunkParser × Bytes)) × (loop fuel p raw ≡ some r)

-- However long it runs, the loop does not return.
abbrev pub Diverges : ChunkParser → Bytes → Type 0
Diverges p raw = (fuel : ℕ) → loop fuel p raw ≡ none

loop_stopped :
    (fuel : ℕ) (p : ChunkParser) (raw : Bytes) → not (is_empty raw) ≡ false → Returns fuel p raw
unfolding parse_loop
loop_stopped zero p raw h = (ok (p, raw), ground arith)
loop_stopped (suc fuel) p raw h = (ok (p, raw), ground arith)

pub loop-nil : (fuel : ℕ) (p : ChunkParser) → loop fuel p [] ≡ some (ok (p, []))
unfolding parse_loop
loop-nil zero p = refl
loop-nil (suc fuel) p = refl

loop_complete :
    (fuel : ℕ) (p : ChunkParser) (raw : Bytes) → is_complete p.state ≡ true → Returns fuel p raw
unfolding parse_loop
loop_complete zero p raw h = (ok (p, raw), ground arith)
loop_complete (suc fuel) p raw h = (ok (p, raw), ground arith)

loop-raise :
    (fuel : ℕ) (p : ChunkParser) (c : ℕ) (cs : Bytes) (e : Raised)
    → is_complete p.state ≡ false
    → process p (c ∷ cs) ≡ raise e
    → loop (suc fuel) p (c ∷ cs) ≡ some (raise e)
unfolding parse_loop
loop-raise fuel p c cs e h r = ground arith

loop-round :
    (fuel : ℕ) (p : ChunkParser) (c : ℕ) (cs : Bytes) (q : ChunkParser) (more : Bool) (raw : Bytes)
    → is_complete p.state ≡ false
    → process p (c ∷ cs) ≡ ok (q, more, raw)
    → loop (suc fuel) p (c ∷ cs) ≡ parse_loop fuel q more raw
unfolding parse_loop
loop-round fuel p c cs q more raw h r = ground arith

GetsStuck-round :
    {p q : ChunkParser} (raw raw' : Bytes)
    → is_complete p.state ≡ false
    → raw ≢ []
    → process p raw ≡ ok (q, not (is_empty raw'), raw')
    → GetsStuck q raw'
    → GetsStuck p raw
GetsStuck-round raw raw' h ne r (q', rest, reach, stuck) = (q', rest, round h ne r reach, stuck)

-- What is known of the next round carries over to this one.
module _ (fuel : ℕ) (p : ChunkParser) (c : ℕ) (cs : Bytes) (run : is_complete p.state ≡ false) where
  settles_round :
      (q : ChunkParser) (raw : Bytes)
      → process p (c ∷ cs) ≡ ok (q, not (is_empty raw), raw)
      → Returns fuel q raw ⊎ GetsStuck q raw
      → Returns (suc fuel) p (c ∷ cs) ⊎ GetsStuck p (c ∷ cs)
  settles_round q raw r (inl (res, e)) =
      inl (res, loop-round fuel p c cs q (not (is_empty raw)) raw run r ∙ e)
  settles_round q raw r (inr g) = inr (GetsStuck-round (c ∷ cs) raw run (λ x. cc x) r g)

  settles_after :
      (res : Progress)
      → process p (c ∷ cs) ≡ res
      → Descends (measure p (c ∷ cs)) res
      → measure p (c ∷ cs) < suc fuel
      → ((q : ChunkParser) (raw : Bytes)
          → Fits q
          → measure q raw < fuel
          → Returns fuel q raw ⊎ GetsStuck q raw)
      → Returns (suc fuel) p (c ∷ cs) ⊎ GetsStuck p (c ∷ cs)
  settles_after (raise x) r d m ih = inl (raise x, loop-raise fuel p c cs x run r)
  settles_after (ok (q, more, raw)) r (live, fits, inl last) m ih =
      settles_round q raw (r ∙ rw live) (inl (loop_stopped fuel q raw (sym live ∙ last)))
  settles_after (ok (q, more, raw)) r (live, fits, inr less) m ih =
      settles_round q raw (r ∙ rw live) (ih q raw fits (omega arith))

-- With more fuel than the measure, the loop returns or gets stuck.
settles :
    (fuel : ℕ) (p : ChunkParser) (raw : Bytes)
    → Fits p
    → measure p raw < fuel
    → Returns fuel p raw ⊎ GetsStuck p raw
settles zero p raw h m = elim m [ ]
settles (suc fuel) p [] h m = inl (loop_stopped (suc fuel) p [] refl)
settles (suc fuel) p (c ∷ cs) h m = elim (Bool-cases (is_complete p.state)) [
  | inl e ↦ inl (loop_complete (suc fuel) p (c ∷ cs) e)
  | inr e ↦ elim (process-Descends p (c ∷ cs) (λ x. cc x) h e) [
    | inr stuck ↦ inr (p, c ∷ cs, here refl refl, stuck)
    | inl d ↦ settles_after fuel p c cs e (process p (c ∷ cs)) refl d m (settles fuel)
  ]
]

drop-lt : (n : ℕ) (raw : Bytes) → n < length raw → (d : ℕ) × (ds : Bytes) × (drop n raw ≡ d ∷ ds)
drop-lt n [] h = elim h [ ]
drop-lt zero (x ∷ raw) h = (x, raw, refl)
drop-lt (suc n) (x ∷ raw) h = drop-lt n raw (omega arith)

-- A negative size takes no byte away: each round ends in such a state again.
stuck-process :
    (p : ChunkParser) (c : ℕ) (cs : Bytes) (k : ℕ)
    → p.state ≡ waiting_for_data
    → p.size ≡ some (negsuc k)
    → (q : ChunkParser) × (d : ℕ) × (ds : Bytes) × (process p (c ∷ cs) ≡ ok (q, true, d ∷ ds))
      × (q.state ≡ waiting_for_data)
      × (q.size ≡ some (negsuc k))
unfolding process
stuck-process p c cs k s z =
    let m = k + length p.chunk in
    let (d, ds, e) = drop-lt (length (c ∷ cs) - suc m) (c ∷ cs) (omega arith) in
    (record p { chunk = p.chunk ++ slice_to (negsuc m) (c ∷ cs) }, d, ds, ground arith, s, z)

stuck-loop : (fuel : ℕ) (p : ChunkParser) (raw : Bytes) → IsStuck p raw → loop fuel p raw ≡ none
unfolding parse_loop is_complete
stuck-loop fuel p [] (k, s, z, ne) = absurd (ne refl)
stuck-loop zero p (c ∷ cs) (k, s, z, ne) = ground arith
stuck-loop (suc fuel) p (c ∷ cs) (k, s, z, ne) =
    let (q, d, ds, e, s', z') = stuck-process p c cs k s z in
    ground (arith, stuck-loop fuel q (d ∷ ds) (k, s', z', λ x. cc x))

loop-zero :
    (p : ChunkParser) (raw : Bytes) → is_complete p.state ≡ false → raw ≢ [] → loop 0 p raw ≡ none
unfolding parse_loop
loop-zero p [] h ne = absurd (ne refl)
loop-zero p (c ∷ cs) h ne = ground arith

pub loop-suc :
    (fuel : ℕ) (p : ChunkParser) (raw : Bytes) (q : ChunkParser) (raw' : Bytes)
    → is_complete p.state ≡ false
    → raw ≢ []
    → process p raw ≡ ok (q, not (is_empty raw'), raw')
    → loop (suc fuel) p raw ≡ loop fuel q raw'
loop-suc fuel p [] q raw' h ne r = absurd (ne refl)
loop-suc fuel p (c ∷ cs) q raw' h ne r = loop-round fuel p c cs q (not (is_empty raw')) raw' h r

pub Reaches-loop :
    {q : ChunkParser} {rest : Bytes} {p : ChunkParser} {raw : Bytes} (fuel : ℕ)
    → Reaches q rest p raw
    → IsStuck q rest
    → loop fuel p raw ≡ none
Reaches-loop {q} {rest} fuel (here e e') stuck = rw e (rw e' (stuck-loop fuel q rest stuck))
Reaches-loop {p} {raw} zero (round run ne r reach) stuck = loop-zero p raw run ne
Reaches-loop {p} {raw} (suc fuel) (round {p' = q} {raw' = raw'} run ne r reach) stuck =
    loop-suc fuel p raw q raw' run ne r ∙ Reaches-loop fuel reach stuck

never :
    (p : ChunkParser) (raw : Bytes)
    → Diverges p raw
    → Returns (suc (measure p raw)) p raw ⊎ GetsStuck p raw
    → GetsStuck p raw
never p raw all (inl (r, e)) = cc (all (suc (measure p raw)), e)
never p raw all (inr g) = g

Diverges-iff : (p : ChunkParser) (raw : Bytes) → Fits p → Diverges p raw ↔ GetsStuck p raw
Diverges-iff p raw h = (
  λ all. never p raw all (settles (suc (measure p raw)) p raw h (omega arith)),
  λ g fuel. Reaches-loop fuel g.2 g.3,
)

measure-lt-enough :
    (s : ChunkState) (chunk raw : ℕ) → measure_in s chunk raw < 2 * chunk + 2 * raw + 2
measure-lt-enough waiting_for_size chunk raw = omega arith
measure-lt-enough waiting_for_data chunk raw = omega arith
measure-lt-enough complete chunk raw = omega arith

-- From a parser whose current chunk is no longer than its size, the loop of `parse` runs for ever
-- exactly when its rounds come to a negative chunk size with bytes left to read; and the fuel that
-- `parse` has runs out in exactly those cases.
pub parse-none_iff :
    (p : ChunkParser) (raw : Bytes)
    → Fits p
    → (Diverges p raw ↔ GetsStuck p raw) × (parse p raw ≡ none ↔ GetsStuck p raw)
unfolding parse
parse-none_iff p raw h = (
  Diverges-iff p raw h,
  (
    λ e.
        stuck_of_none p raw e (
          settles (enough p raw) p raw h (measure-lt-enough p.state (length p.chunk) (length raw))),
    λ g. Reaches-loop (enough p raw) g.2 g.3,
  ),
)
  where
    stuck_of_none :
        (q : ChunkParser) (bytes : Bytes)
        → loop (enough p raw) q bytes ≡ none
        → Returns (enough p raw) q bytes ⊎ GetsStuck q bytes
        → GetsStuck q bytes
    stuck_of_none q bytes e (inl (r, e')) = cc (e, e')
    stuck_of_none q bytes e (inr g) = g

-- `parse` has fuel for two rounds and more.
pub parse-loop :
    (p : ChunkParser) (raw : Bytes)
    → parse p raw ≡ loop (suc (suc (2 * length p.chunk + 2 * length raw))) p raw
unfolding parse
parse-loop p raw = ap (λ fuel. loop fuel p raw) (omega arith)
