-- ===== src/Tls/Record/Rebuild.antt =====
-- Records whose handshake is built again as it came, and records that are not there yet.
use proxy_py.Base.{
  ℕ, ◌+◌, ◌*◌, ◌/◌, ◌%◌, ◌≤◌, ◌<◌, ◌≡◌, refl, sym, ap, ◌∙◌, ◌⊎◌, inl, inr, Bool, true, false, some,
  [], ◌∷◌, ◌++◌, append-nil, arith, ltb, if◌then◌else◌, lt→ltb, ltb_of_le, Bool-cases, Bytes,
  length, take, drop, length-append, take-append-drop, take-length, drop-length, ok,
}
use proxy_py.Tls.Handshake
use proxy_py.Tls.Handshake.{Handshake, new_handshake, u24}
use proxy_py.Tls.Handshake.Rebuild
use proxy_py.Tls.Handshake.Rebuild.{IsKept}
use proxy_py.Tls.Record.{parse_payload, Record, new_record, parse, build}

-- A handshake record with one message of a kind that is kept: it is parsed, what follows the record
-- is left, and the record is built again byte for byte.
pub build-parse_record :
    (v w high low t a b c : ℕ) (payload rest : Bytes)
    → high < 256
    → low < 256
    → a < 256
    → b < 256
    → c < 256
    → 4 + length payload ≡ high * 256 + low
    → length payload ≡ u24 a b c
    → IsKept t payload
    → (p : Record) × (parse new_record
          (22 ∷ v ∷ w ∷ high ∷ low ∷ ((t ∷ a ∷ b ∷ c ∷ payload) ++ rest))
        ≡ (p, true, rest))
      × (build p ≡ ok (22 ∷ v ∷ w ∷ high ∷ low ∷ t ∷ a ∷ b ∷ c ∷ payload))
unfolding parse build parse_payload
build-parse_record v w high low t a b c payload rest hh hl ha hb hc size e k =
    whole (Rebuild.build-parse t a b c payload [] ha hb hc e k)
  where
    of_handshake : Handshake → Record
    of_handshake m = record {
      content_type = 22;
      protocol_version = some (v ∷ w ∷ []);
      length_of = some (high ∷ low ∷ []);
      handshake = some m;
    }

    message : Bytes
    message = t ∷ a ∷ b ∷ c ∷ payload

    size' : length message ≡ high * 256 + low
    size' = omega arith

    first : length message / 256 ≡ high
    first = omega arith

    second : length message % 256 ≡ low
    second = omega arith

    whole :
        (m : Handshake) × (Handshake.parse new_handshake (t ∷ a ∷ b ∷ c ∷ (payload ++ []))
            ≡ (m, true, []))
          × (Handshake.build m ≡ ok (t ∷ a ∷ b ∷ c ∷ payload))
        → (p : Record) × (parse new_record
              (22 ∷ v ∷ w ∷ high ∷ low ∷ ((t ∷ a ∷ b ∷ c ∷ payload) ++ rest))
            ≡ (p, true, rest))
          × (build p ≡ ok (22 ∷ v ∷ w ∷ high ∷ low ∷ t ∷ a ∷ b ∷ c ∷ payload))
    whole (m, e', built) = (
      of_handshake m,
      rw
          (ltb_of_le (length (message ++ rest)) (high * 256 + low)
            (omega (arith, length-append payload rest)))
          (rw (ap (λ n. take n (message ++ rest)) (sym size') ∙ take-length message rest) (
            rw (ap (λ n. drop n (message ++ rest)) (sym size') ∙ drop-length message rest) (
              ap (λ (o : Handshake × Bool × Bytes). (of_handshake (o.0), true, rest))
                (ap (λ x. Handshake.parse new_handshake (t ∷ a ∷ b ∷ c ∷ x))
                    (sym (append-nil payload))
                  ∙ e')))),
      rw built (rw (lt→ltb (length message) 65536 (omega arith)) (rw first (rw second refl))),
    )

-- Either nothing is consumed and the parser is as it was, or a record of at least five bytes is taken
-- off the head of the input.
pub parse_lem :
    (p : Record) (raw : Bytes)
    → (parse p raw ≡ (p, false, raw))
      ⊎ ((q : Record) × (taken : Bytes) × (rest : Bytes) × (parse p raw ≡ (q, true, rest))
          × (raw ≡ taken ++ rest)
          × (5 ≤ length taken))
unfolding parse
parse_lem p (t ∷ v ∷ w ∷ high ∷ low ∷ rest) =
    elim (Bool-cases (ltb (length rest) (high * 256 + low))) [
      | inl e ↦ inl (rw e refl)
      | inr e ↦ inr (
        _,
        t ∷ v ∷ w ∷ high ∷ low ∷ take (high * 256 + low) rest,
        drop (high * 256 + low) rest,
        ap
            (λ b. if b then (p, false, t ∷ v ∷ w ∷ high ∷ low ∷ rest) else (
              parse_payload
                  (record p {
                    content_type = t;
                    protocol_version = some (v ∷ w ∷ []);
                    length_of = some (high ∷ low ∷ []);
                  })
                  (take (high * 256 + low) rest),
              true,
              drop (high * 256 + low) rest,
            ))
            e,
        ap (λ r. t ∷ v ∷ w ∷ high ∷ low ∷ r) (sym (take-append-drop (high * 256 + low) rest)),
        omega arith,
      )
    ]
parse_lem p _ = inl refl
