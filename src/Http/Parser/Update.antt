-- ===== src/Http/Parser/Update.antt =====
-- A body put in place of another: its length header, or its chunks, fit it.
use proxy_py.Base.{
  ◌≡◌, refl, sym, ap, ◌∙◌, ◌⊎◌, inl, inr, Bool, true, false, some, [], append-nil, arith, same,
  Bool-cases, bytes_eq, Bytes, length, key_error, ok, raise,
}
use proxy_py.Base.Int.{pos}
use proxy_py.Bytes.{codes, lower}
use proxy_py.Number.{digits}
use proxy_py.Number.RoundTrip.{int_of-digits}
use proxy_py.Http.Chunk.{to_chunks, default_buffer_size, new_parser}
use proxy_py.Http.Chunk
use proxy_py.Http.Chunk.RoundTrip.{parse-to_chunks, done}
use proxy_py.Http.Message.{
  Message, has_header, del_header, body_encoded, header, add_header, body_framed, update_body,
}
use proxy_py.Http.Message.Headers.{
  HasDict, has_header_iff, del_header-HasDict, header-add_header, header-del_header,
}
use proxy_py.Http.Parser.{content_length}

abbrev Encoded : (Bytes → Bytes) → Message → Bytes → Message → Bytes → Type 0
Encoded compress m body m' b =
    (body_encoded compress m body ≡ ok (m', b))
    × HasDict m'
    × (m'.is_chunked_encoded ≡ m.is_chunked_encoded)
    × ((b ≡ body) ⊎ (b ≡ compress body))

encode_total :
    (compress : Bytes → Bytes) (m : Message) (body : Bytes)
    → HasDict m
    → (m' : Message) × (b : Bytes) × Encoded compress m body m' b
unfolding body_encoded del_header
encode_total compress m body h = elim (Bool-cases (has_header m (codes "content-encoding"))) [
  | inr e ↦ (m, body, (rw e refl, h, refl, inl refl))
  | inl e ↦
      let (v, e') = (has_header_iff m (codes "content-encoding")).0 e in
      elim (Bool-cases (same v (codes "gzip"))) [
        | inl g ↦ (m, compress body, (rw e (rw e' (rw g refl)), h, refl, inr refl))
        | inr g ↦ (
          del_header m (codes "content-encoding"),
          body,
          (rw e (rw e' (rw g refl)), del_header-HasDict m _ h, refl, inl refl),
        )
      ]
]

-- The body in `b` is announced by its length, or stands in chunks that carry it.
abbrev pub Framed : Bool → Message → Bytes → Type 0
Framed false m b =
    (m.body ≡ some b)
    × (header m (codes "content-length") ≡ ok (digits 10 (length b)))
    × (content_length m ≡ ok (pos (length b)))
Framed true m b =
    (header m (codes "content-length") ≡ raise key_error)
    × ((c : Bytes) × (m.body ≡ some c) × (Chunk.parse new_parser c ≡ some (ok (done b, []))))

put_body : Bytes → Bytes → Message → Message
put_body b content_type m =
    add_header (record m { body = some b }) (codes "Content-Type") content_type

put_body-header :
    (m : Message) (b t : Bytes)
    → header (put_body b t m) (codes "content-length") ≡ header m (codes "content-length")
unfolding header put_body same lower
put_body-header m b t =
    header-add_header (record m { body = some b }) (codes "Content-Type") t (codes "content-length")

Framed-length :
    (m : Message) (b t : Bytes)
    → Framed false (put_body b t (add_header m (codes "Content-Length") (digits 10 (length b)))) b
unfolding add_header put_body content_length same lower
Framed-length m b t = (refl, e, rw e (int_of-digits 10 (length b) (omega arith) (omega arith)))
  where
    m' : Message
    m' = add_header m (codes "Content-Length") (digits 10 (length b))

    e : header (put_body b t m') (codes "content-length") ≡ ok (digits 10 (length b))
    e =
        put_body-header m' b t
        ∙ header-add_header m (codes "Content-Length") (digits 10 (length b))
            (codes "content-length")

Framed-chunks :
    (m : Message) (b c t : Bytes)
    → HasDict m
    → to_chunks b default_buffer_size ≡ ok c
    → Framed true (put_body c t (del_header m (codes "content-length"))) b
unfolding put_body add_header same lower
Framed-chunks m b c t h e = (
  put_body-header (del_header m (codes "content-length")) c t
      ∙ header-del_header m (codes "content-length") (codes "content-length") h,
  (
    c,
    refl,
    ap (λ r. Chunk.parse new_parser r) (sym (append-nil c))
        ∙ parse-to_chunks b [] c default_buffer_size e,
  ),
)

abbrev Frames : Bool → Message → Bytes → Bytes → Type 0
Frames flag m b t =
    (m' : Message) × (c : Bytes) × (body_framed m b ≡ ok (m', c)) × Framed flag (put_body c t m') b

chunks_total : (b : Bytes) → (c : Bytes) × (to_chunks b default_buffer_size ≡ ok c)
unfolding to_chunks
chunks_total b = (_, refl)

frame_total :
    (flag : Bool) (m : Message) (b t : Bytes)
    → HasDict m
    → m.is_chunked_encoded ≡ flag
    → Frames flag m b t
unfolding body_framed
frame_total false m b t h e = (_, b, ground (arith, e), Framed-length m b t)
frame_total true m b t h e =
    let (c, e') = chunks_total b in
    (del_header m (codes "content-length"), c, ground (arith, e, e'), Framed-chunks m b c t h e')

-- On a message with no header twice, `update_body` never fails, and what it leaves is the body, or its compression,
-- under the length or the chunks that a parser reads it back by.
pub update_body-Framed :
    (compress : Bytes → Bytes) (m : Message) (body content_type : Bytes)
    → HasDict m
    → (m' : Message) × (b : Bytes) × (update_body compress m body content_type ≡ ok m')
      × ((b ≡ body) ⊎ (b ≡ compress body))
      × Framed m.is_chunked_encoded m' b
unfolding update_body put_body
update_body-Framed compress m body content_type h =
    let (m1, b, (e, h', same_flag, which)) = encode_total compress m body h in
    let (m2, c, e2, framed) = frame_total m.is_chunked_encoded m1 b content_type h' same_flag in
    (put_body c content_type m2, b, rw e (rw e2 refl), which, framed)
