-- ===== src/Http/Web/Tests.antt =====
-- Runs of the web server on concrete input, and instances of its theorems.
use proxy_py.Base.{
  ℕ, ◌≤◌, ◌≡◌, refl, inl, true, Option, some, List, [], ◌∷◌, ◌++◌, arith, Bytes, length, ok,
}
use proxy_py.Bytes.{codes}
use proxy_py.Http.Websocket.{Frame, new_frame}
use proxy_py.Http.Websocket.RoundTrip.{IsWire}
use proxy_py.Http.Web.{After, websocket_loop}
use proxy_py.Http.Web.Frames.{
  Sent, AllWire, build_all, seen, deliver, websocket_loop-some, websocket_loop-deliver,
}

-- A receiver that keeps the payloads.
abbrev keep_all : List (Option Bytes) → Frame → After (List (Option Bytes))
keep_all got f = (got ++ f.data_bytes ∷ [], ok tt)

abbrev masked_hi : Sent
masked_hi = record {
  token = [];
  payload = codes "hi";
  frame = record new_frame {
    fin = true;
    opcode = 1;
    masked = true;
    mask = some (1 ∷ 2 ∷ 3 ∷ 4 ∷ []);
    data_bytes = some (codes "hi");
  };
}

-- The same, but to close the connection.
abbrev closing : Sent
closing = record masked_hi { frame = record (masked_hi.frame) { opcode = 8 } }

masked_hi-AllWire : AllWire (masked_hi ∷ closing ∷ masked_hi ∷ [])
masked_hi-AllWire = (hi, (closed, (hi, tt)))
  where
    hi : IsWire [] (codes "hi") masked_hi.frame
    hi = record {
      opcode_fits = omega arith;
      payload = refl;
      payload-ne-nil = λ e. cc e;
      payload_fits = omega arith;
      payload-IsBytes = omega arith;
      sized = inl refl;
      mask_length = refl;
      mask-IsBytes = omega arith;
    }

    closed : IsWire [] (codes "hi") closing.frame
    closed = record {
      opcode_fits = omega arith;
      payload = refl;
      payload-ne-nil = λ e. cc e;
      payload_fits = omega arith;
      payload-IsBytes = omega arith;
      sized = inl refl;
      mask_length = refl;
      mask-IsBytes = omega arith;
    }

websocket_loop-deliver_example :
    (raw : Bytes) × (build_all (masked_hi ∷ closing ∷ masked_hi ∷ []) ≡ ok raw)
    × ((fuel : ℕ) (a : List (Option Bytes))
        → length raw ≤ fuel
        → websocket_loop fuel keep_all a raw
          ≡ some (deliver keep_all a (seen (masked_hi ∷ closing ∷ masked_hi ∷ []))))
websocket_loop-deliver_example =
    websocket_loop-deliver keep_all (masked_hi ∷ closing ∷ masked_hi ∷ []) masked_hi-AllWire

websocket_loop-some_example :
    (r : After (List (Option Bytes))) × (websocket_loop 9 keep_all [] (codes "nonsense") ≡ some r)
websocket_loop-some_example = websocket_loop-some keep_all 9 [] (codes "nonsense") (omega arith)
