-- ===== src/Http/Web/Frames.antt =====
-- The frames of a websocket, one after another.
use proxy_py.Base.{
  ℕ, zero, suc, ◌≤◌, ◌<◌, ◌≡◌, refl, ◌∙◌, inl, inr, Option, some, List, [], ◌∷◌, ◌++◌, arith, ◌==◌,
  if◌then◌else◌, Bool-cases, Bytes, length, All, ◌>>=◌, Returns, Returns-ok, Result, http_protocol,
  ok, raise,
}
use proxy_py.Http.Websocket
use proxy_py.Http.Websocket.{Frame, new_frame}
use proxy_py.Http.Websocket.Shrinks.{parse-shrinks}
use proxy_py.Http.Websocket.RoundTrip.{IsWire, received, parse-build}
use proxy_py.Http.Web.{After, connection_close, on_frame, websocket_loop}

module _ {A : Type 0} (receiver : A → Frame → After A) where
  answered : After A → (A → After A) → After A
  answered (a, raise e) next = (a, raise e)
  answered (a, ok done) next = next a

  -- What a receiver is given of a sequence of frames: each in turn, up to a frame with the opcode 8, which it
  -- does not get, or an exception.
  pub deliver : A → List Frame → After A
  deliver a [] = (a, ok tt)
  deliver a (f ∷ fs) =
      if f.opcode == 8
      then (a, raise http_protocol)
      else answered (receiver a f) (λ a'. deliver a' fs)

  on_frame-some :
      (next : A → Option (After A)) (a : A) (f : Frame) (x : After A)
      → ((a' : A) → (r : After A) × (next a' ≡ some r))
      → (r : After A) × (on_frame some next a f x ≡ some r)
  on_frame-some next a f (a', raise e) h = elim (Bool-cases (f.opcode == connection_close)) [
    | inl y ↦ ((a, raise http_protocol), rw y refl)
    | inr n ↦ ((a', raise e), rw n refl)
  ]
  on_frame-some next a f (a', ok done) h = elim (Bool-cases (f.opcode == connection_close)) [
    | inl y ↦ ((a, raise http_protocol), rw y refl)
    | inr n ↦ let (r, e) = h a' in (r, rw n e)
  ]

  -- The loop over the frames returns on every input, since a round for each byte is enough.
  pub websocket_loop-some :
      (fuel : ℕ) (a : A) (raw : Bytes)
      → length raw ≤ fuel
      → (r : After A) × (websocket_loop fuel receiver a raw ≡ some r)
  unfolding websocket_loop
  websocket_loop-some fuel a [] h = ((a, ok tt), refl)
  websocket_loop-some zero a (b ∷ raw) h = absurd (omega arith)
  websocket_loop-some (suc fuel) a (b ∷ raw) h =
      by_parse (λ a' rest k. websocket_loop-some fuel a' rest (omega arith))
        (Websocket.parse new_frame (b ∷ raw)) (parse-shrinks new_frame (b ∷ raw))
    where
      by_parse :
          ((a' : A) (rest : Bytes)
            → length rest ≤ length raw
            → (r : After A) × (websocket_loop fuel receiver a' rest ≡ some r))
          → (x : Result (Frame × Bytes)) → Returns (λ q. length (q.1) < length (b ∷ raw)) x
          → (r : After A) × (elim x [
            | raise e ↦ some (a, raise e)
            | ok q ↦
                on_frame some
                  (λ a'. websocket_loop fuel receiver a' (q.1))
                  a
                  (q.0)
                  (receiver a (q.0))
          ]
              ≡ some r)
      by_parse again (raise e) k = ((a, raise e), refl)
      by_parse again (ok (f, rest)) k =
          on_frame-some _ a f (receiver a f) (λ a'. again a' rest (omega arith))

-- A frame that the other side sends, with its payload and the token for a mask.
pub record Sent : Type 0 where
  pub token : Bytes
  pub payload : Bytes
  pub frame : Frame

abbrev pub AllWire : List Sent → Type 0
AllWire frames = All (λ s. IsWire s.token s.payload s.frame) frames

-- The bytes of frames that are built one after another.
pub build_all : List Sent → Result Bytes
build_all [] = ok []
build_all (s ∷ frames) = do
  built ← Websocket.build s.token s.frame
  rest ← build_all frames
  ok (built.1 ++ rest)

-- The frames as they are received.
pub seen : List Sent → List Frame
seen [] = []
seen (s ∷ frames) = received s.token s.payload s.frame ∷ seen frames

no_frame : {q : Frame × Bytes} → Websocket.parse new_frame [] ≡ ok q → ⊥
unfolding Websocket.parse
no_frame e = cc

module _ {A : Type 0} (receiver : A → Frame → After A) where
  loop-nil : (fuel : ℕ) (a : A) → websocket_loop fuel receiver a [] ≡ some (a, ok tt)
  unfolding websocket_loop
  loop-nil zero a = refl
  loop-nil (suc fuel) a = refl

  loop-parse :
      (n : ℕ) (a : A) (raw : Bytes) (g : Frame) (rest : Bytes)
      → Websocket.parse new_frame raw ≡ ok (g, rest)
      → length raw ≤ n
      → (m : ℕ) × (length rest ≤ m)
        × (websocket_loop n receiver a raw
            ≡ on_frame some (λ a'. websocket_loop m receiver a' rest) a g (receiver a g))
  unfolding websocket_loop
  loop-parse n a [] g rest e h = absurd (no_frame e)
  loop-parse zero a (b ∷ raw) g rest e h = absurd (omega arith)
  loop-parse (suc n) a (b ∷ raw) g rest e h =
      let less = Returns-ok _ _ (g, rest) (parse-shrinks new_frame (b ∷ raw)) e in
      (n, omega arith, rw (e, websocket_loop) refl)

  on_frame-ap :
      (next : A → Option (After A)) (next' : A → After A) (a : A) (f : Frame) (x : After A)
      → ((a' : A) → next a' ≡ some (next' a'))
      → on_frame some next a f x
        ≡ some (if f.opcode == 8 then (a, raise http_protocol) else answered receiver x next')
  unfolding answered
  on_frame-ap next next' a f (a', raise e) h = elim (Bool-cases (f.opcode == connection_close)) [
    | inl y ↦ rw y refl
    | inr n ↦ rw n refl
  ]
  on_frame-ap next next' a f (a', ok done) h = elim (Bool-cases (f.opcode == connection_close)) [
    | inl y ↦ rw y refl
    | inr n ↦ rw n (h a')
  ]

  -- Frames with 4 bits of opcode, from 1 to 65535 bytes of payload and a mask of 4 bytes: they are built without an
  -- error, and of their bytes in one piece the receiver is given each frame, payload unmasked, in turn, up to
  -- the first that it raises on or, without getting that one, the first with the opcode 8, which ends the loop with an
  -- `HttpProtocolException`. A round for each byte is enough.
  pub websocket_loop-deliver :
      (frames : List Sent)
      → AllWire frames
      → (raw : Bytes) × (build_all frames ≡ ok raw)
        × ((fuel : ℕ) (a : A)
            → length raw ≤ fuel
            → websocket_loop fuel receiver a raw ≡ some (deliver receiver a (seen frames)))
  unfolding build_all seen deliver answered
  websocket_loop-deliver [] h = ([], refl, λ fuel a le. loop-nil fuel a)
  websocket_loop-deliver (s ∷ frames) h =
      let (rest, e, again) = websocket_loop-deliver frames h.1 in
      let (head, built, parsed) = parse-build s.token s.payload rest s.frame h.0 in
      (
        head ++ rest,
        rw built (rw e refl),
        λ fuel a le.
            let (m, le', step) =
              loop-parse fuel a (head ++ rest) (received s.token s.payload s.frame) rest parsed
                le in
            step
            ∙ on_frame-ap _ _ a (received s.token s.payload s.frame)
                (receiver a (received s.token s.payload s.frame)) (λ a'. again m a' le'),
      )
