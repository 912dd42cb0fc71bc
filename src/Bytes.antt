-- ===== src/Bytes.antt =====
-- The operations on `bytes` that the source uses.
pub mod Cut
pub mod Strip
pub mod Utf8
use proxy_py.Base.{
  ℕ, zero, suc, ◌+◌, Bool, true, false, ◌&&◌, ◌||◌, Option, none, some, List, [], ◌∷◌, map, leb,
  ◌==◌, if◌then◌else◌, Bytes, length, drop,
}
use Prim.Native.Char.{code}
use Prim.Native.String.{String}

-- A bytes literal of the source (all of them are ASCII).
abbrev pub codes : String → Bytes
codes String.[] = []
codes (String.◌∷◌ c s) = code c ∷ codes s

-- `CRLF`
abbrev pub crlf : Bytes
crlf = 13 ∷ 10 ∷ []

-- `raw.startswith(sep)`
unfoldable pub starts_with : Bytes → Bytes → Bool
starts_with [] raw = true
starts_with (x ∷ sep) [] = false
starts_with (x ∷ sep) (y ∷ raw) = x == y && starts_with sep raw

abbrev pub push_left : ℕ → Option (Bytes × Bytes) → Option (Bytes × Bytes)
push_left c none = none
push_left c (some (a, b)) = some (c ∷ a, b)

-- `raw.split(sep, 1)`: the two parts around the first `sep`, or `none` for the one part `[raw]`.
unfoldable pub cut : Bytes → Bytes → Option (Bytes × Bytes)
unfolding starts_with
cut sep [] = none
cut sep (c ∷ cs) =
    if starts_with sep (c ∷ cs)
    then some ([], drop (length sep) (c ∷ cs))
    else push_left c (cut sep cs)

-- `raw.split(sep, n)`
unfoldable pub split_max : Bytes → ℕ → Bytes → List Bytes
unfolding cut
split_max sep zero raw = raw ∷ []
split_max sep (suc n) raw = elim (cut sep raw) [
  | none ↦ raw ∷ []
  | some (a, b) ↦ a ∷ split_max sep n b
]

-- `raw.split(sep)`; each part costs at least a byte of the separator, so this bound is no bound.
unfoldable pub split_all : Bytes → Bytes → List Bytes
unfolding split_max
split_all sep raw = split_max sep (length raw) raw

-- ASCII white space, as `bytes.strip` and `int` see it.
unfoldable pub is_space : ℕ → Bool
is_space c = c == 32 || leb 9 c && leb c 13

unfoldable pub lstrip : Bytes → Bytes
unfolding is_space
lstrip [] = []
lstrip (c ∷ cs) = let rest = lstrip cs in if is_space c then rest else c ∷ cs

abbrev pub is_empty : Bytes → Bool
is_empty [] = true
is_empty (c ∷ cs) = false

unfoldable pub rstrip : Bytes → Bytes
unfolding is_space
rstrip [] = []
rstrip (c ∷ cs) = let rest = rstrip cs in if is_space c && is_empty rest then [] else c ∷ rest

-- `raw.strip()`
unfoldable pub strip : Bytes → Bytes
unfolding lstrip rstrip
strip raw = rstrip (lstrip raw)

-- `raw.lower()`
unfoldable pub lower_byte : ℕ → ℕ
lower_byte c = if leb 65 c && leb c 90 then c + 32 else c

unfoldable pub lower : Bytes → Bytes
unfolding lower_byte
lower = map lower_byte

abbrev close_word : Bytes × List Bytes → List Bytes
close_word ([], ws) = ws
close_word (c ∷ w, ws) = (c ∷ w) ∷ ws

-- The word that the text starts in, which may be empty, and the words behind it.
unfoldable pub word_parts : Bytes → Bytes × List Bytes
unfolding is_space
word_parts [] = ([], [])
word_parts (c ∷ cs) =
    let rest = word_parts cs in if is_space c then ([], close_word rest) else (c ∷ rest.0, rest.1)

-- `raw.split()`
unfoldable pub words : Bytes → List Bytes
unfolding word_parts
words raw = close_word (word_parts raw)
