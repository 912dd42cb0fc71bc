-- ===== src/Tls/Handshake/Rebuild.antt =====
-- Messages that are built again as they came.
use proxy_py.Base.{
  ℕ, ◌/◌, ◌%◌, ◌<◌, ◌≡◌, refl, sym, ap, ◌∙◌, ◌≢◌, ◌⊎◌, inl, inr, true, some, [], ◌∷◌, ◌++◌,
  append-nil, arith, lt→ltb, ltb_of_le, Bytes, length, take, drop, length-append, take-length,
  drop-length, ok,
}
use proxy_py.Tls.Hello
use proxy_py.Tls.Hello.{Hello, Side, new_hello, client, server}
use proxy_py.Tls.Hello.Lossless.{parse-Builds}
use proxy_py.Tls.Handshake.{
  content_of, octets, Handshake, new_handshake, u24, parse, parse_message, build, build_payload,
  pack24, keep,
}

-- A hello that is accepted with nothing behind it.
abbrev pub Accepts : Side → Bytes → Type 0
Accepts side payload = (h : Hello) × (Hello.parse side new_hello payload ≡ (h, true, []))

-- The messages that keep what they parse: hellos, certificates and keys of the server.
abbrev pub IsKept : ℕ → Bytes → Type 0
IsKept t payload =
    ((t ≡ 1) × Accepts client payload)
    ⊎ (((t ≡ 2) × Accepts server payload) ⊎ (((t ≡ 11) ⊎ (t ≡ 12)) × (payload ≢ [])))

accepted :
    (side : Side) (payload : Bytes) (h : Hello)
    → Hello.parse side new_hello payload ≡ (h, true, [])
    → Hello.build h ≡ payload
accepted side payload h e =
    sym (append-nil (Hello.build h)) ∙ rw e at (parse-Builds side new_hello payload)

nonempty : (payload : Bytes) → payload ≢ [] → content_of (keep payload) ≡ ok payload
unfolding keep
nonempty [] ne = absurd (ne refl)
nonempty (c ∷ cs) ne = refl

payload-kept :
    (t : ℕ) (payload : Bytes) (m : Handshake)
    → IsKept t payload
    → build_payload (parse_message t payload (record m { msg_type = t })) ≡ ok payload
unfolding build_payload parse_message
payload-kept t payload m (inl (e, (h, a))) = rw e (rw a (ap ok (accepted client payload h a)))
payload-kept t payload m (inr (inl (e, (h, a)))) = rw e (rw a (ap ok (accepted server payload h a)))
payload-kept t payload m (inr (inr (inl e, ne))) = rw e (nonempty payload ne)
payload-kept t payload m (inr (inr (inr e, ne))) = rw e (nonempty payload ne)

kept-lt : (t : ℕ) (payload : Bytes) → IsKept t payload → t < 256
kept-lt t payload (inl (e, a)) = omega arith
kept-lt t payload (inr (inl (e, a))) = omega arith
kept-lt t payload (inr (inr (inl e, ne))) = omega arith
kept-lt t payload (inr (inr (inr e, ne))) = omega arith

msg_type-kept :
    (t : ℕ) (payload : Bytes) (m : Handshake)
    → (parse_message t payload (record m { msg_type = t })).msg_type ≡ t
unfolding parse_message
msg_type-kept t payload m = ground arith

pack24-u24 : (a b c : ℕ) → a < 256 → b < 256 → c < 256 → pack24 (u24 a b c) ≡ ok (a ∷ b ∷ c ∷ [])
unfolding pack24
pack24-u24 a b c ha hb hc =
    rw (lt→ltb (u24 a b c) 4294967296 (omega arith)) (rw (first) (rw second (rw third refl)))
  where
    first : u24 a b c / 65536 % 256 ≡ a
    first = omega arith

    second : u24 a b c / 256 % 256 ≡ b
    second = omega arith

    third : u24 a b c % 256 ≡ c
    third = omega arith

build-eq :
    (m : Handshake) (t : ℕ) (payload size : Bytes)
    → m.msg_type ≡ t
    → t < 256
    → build_payload m ≡ ok payload
    → pack24 (length payload) ≡ ok size
    → build m ≡ ok (t ∷ (size ++ payload))
unfolding build
build-eq m t payload size e lt e' e'' =
    rw e'
      (rw e'' (rw (lt→ltb m.msg_type 256 (omega arith)) (ap (λ n. ok (n ∷ (size ++ payload))) e)))

-- A message of a kind that is kept, whose length is written in three bytes: it is parsed, what follows
-- it is left, and it is built again byte for byte.
pub build-parse :
    (t a b c : ℕ) (payload rest : Bytes)
    → a < 256
    → b < 256
    → c < 256
    → length payload ≡ u24 a b c
    → IsKept t payload
    → (m : Handshake) × (parse new_handshake (t ∷ a ∷ b ∷ c ∷ (payload ++ rest)) ≡ (m, true, rest))
      × (build m ≡ ok (t ∷ a ∷ b ∷ c ∷ payload))
unfolding parse build
build-parse t a b c payload rest ha hb hc e k = (_, parsed, built)
  where
    m : Handshake
    m = parse_message t payload (record new_handshake {
      msg_type = t;
      length_of = some (octets (a ∷ b ∷ c ∷ []));
      all_data = some (t ∷ a ∷ b ∷ c ∷ payload);
    })

    parsed : parse new_handshake (t ∷ a ∷ b ∷ c ∷ (payload ++ rest)) ≡ (m, true, rest)
    parsed =
        rw
          (ltb_of_le (length (payload ++ rest)) (u24 a b c)
            (omega (arith, length-append payload rest)))
          (rw (ap (λ n. take n (payload ++ rest)) (sym e) ∙ take-length payload rest)
            (rw (ap (λ n. drop n (payload ++ rest)) (sym e) ∙ drop-length payload rest) refl))

    before : Handshake
    before = record new_handshake {
      length_of = some (octets (a ∷ b ∷ c ∷ []));
      all_data = some (t ∷ a ∷ b ∷ c ∷ payload);
    }

    built : build m ≡ ok (t ∷ a ∷ b ∷ c ∷ payload)
    built =
        build-eq (parse_message t payload (record before { msg_type = t })) t payload
          (a ∷ b ∷ c ∷ []) (msg_type-kept t payload before) (kept-lt t payload k)
          (payload-kept t payload before k) (ap pack24 e ∙ pack24-u24 a b c ha hb hc)
