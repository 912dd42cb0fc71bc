-- ===== src/Http/Websocket/Shrinks.antt =====
-- A frame takes bytes from the input.
use proxy_py.Base.{
  ℕ, ◌≤◌, ◌<◌, inl, inr, Bool, true, false, not, Option, none, some, [], ◌∷◌, arith, ◌==◌,
  Bool-cases, Bytes, length, take, drop, length-drop, guard, Returns, Returns-bind, Returns-ok,
  Result, assertion_error, ok, raise,
}
use proxy_py.Http.Websocket.{
  Frame, read_length, read_data, read_rest, parse, unpack, apply_mask, parse_fin_and_rsv,
  parse_mask_and_payload,
}

read_length-le :
    (n : Option ℕ) (raw : Bytes) → Returns (λ q. length (q.1) ≤ length raw) (read_length n raw)
unfolding read_length
read_length-le none raw = tt
read_length-le (some n) raw = elim (Bool-cases (n == 126)) [
  | inl e ↦
      rw e (Returns-bind _ (unpack 2 0 (take 2 raw)) _ λ k e'. omega (arith, length-drop 2 raw))
  | inr e ↦ rw e (elim (Bool-cases (n == 127)) [
    | inl e' ↦
        rw e' (Returns-bind _ (unpack 8 0 (take 8 raw)) _ λ k e''. omega (arith, length-drop 8 raw))
    | inr e' ↦ rw e' (omega arith)
  ])
]

read_data-le :
    (m : Bool) (f : Frame) (n : ℕ) (raw : Bytes)
    → Returns (λ q. length (q.1) ≤ length raw) (read_data m f n raw)
unfolding read_data
read_data-le true f n raw = Returns-bind _ (guard (not (n == 0)) assertion_error) _ λ u e.
    Returns-bind _ (apply_mask (take n (drop 4 raw)) (take 4 raw)) _
      λ d e'. omega (arith, length-drop n (drop 4 raw), length-drop 4 raw)
read_data-le false f n raw =
    Returns-bind _ (guard (not (n == 0)) assertion_error) _ λ u e. omega (arith, length-drop n raw)

-- What is left behind a frame is shorter.
pub parse-shrinks :
    (f : Frame) (raw : Bytes) → Returns (λ q. length (q.1) < length raw) (parse f raw)
unfolding parse read_rest
parse-shrinks f [] = tt
parse-shrinks f (a ∷ []) = tt
parse-shrinks f (a ∷ b ∷ raw) =
    let head = parse_mask_and_payload (parse_fin_and_rsv f a) b in
    Returns-bind _ (read_length head.payload_length raw) _ λ size e.
      bounded head size (Returns-ok _ _ size (read_length-le head.payload_length raw) e)
        (read_data head.masked head size.0 size.1) (read_data-le head.masked head size.0 size.1)
  where
    bounded :
        (head : Frame) (size : ℕ × Bytes)
        → length (size.1) ≤ length raw
        → (r : Result (Frame × Bytes)) → Returns (λ q. length (q.1) ≤ length (size.1)) r
        → Returns (λ q. length (q.1) < length (a ∷ b ∷ raw)) r
    bounded head size h (raise e) k = tt
    bounded head size h (ok q) k = omega arith
