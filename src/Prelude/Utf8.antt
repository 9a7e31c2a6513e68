-- ===== src/Prelude/Utf8.antt =====
-- Go's `unicode/utf8` and the conversions between strings and `[]rune`.
use chat_gateway.Prelude.{
  ℕ, zero, suc, ◌+◌, ◌*◌, ◌-◌, Bool, true, ◌&&◌, List, [], ◌∷◌, ◌++◌, ltb, leb, ◌==◌, if◌then◌else◌,
}
use chat_gateway.Prelude.Text.{Text, encode_rune}

abbrev pub between : ℕ → ℕ → ℕ → Bool
between lo b hi = leb lo b && leb b hi

-- The least and the greatest second byte after a first one of three or four.
abbrev pub least : ℕ → ℕ
least a = if a == 0xe0 then 0xa0 else if a == 0xf0 then 0x90 else 0x80

abbrev pub greatest : ℕ → ℕ
greatest a = if a == 0xed then 0x9f else if a == 0xf4 then 0x8f else 0xbf

abbrev pub next : ℕ → Bool
next b = between 0x80 b 0xbf

-- How many bytes the first code point takes, 0 if they are not valid.
abbrev pub size : Text → ℕ
size [] = 0
size (a ∷ []) = if ltb a 0x80 then 1 else 0
size (a ∷ b ∷ []) = if ltb a 0x80 then 1 else if between 0xc2 a 0xdf && next b then 2 else 0
size (a ∷ b ∷ c ∷ []) =
    if ltb a 0x80
    then 1
    else if between 0xc2 a 0xdf && next b
    then 2
    else if between 0xe0 a 0xef && between (least a) b (greatest a) && next c
    then 3
    else 0
size (a ∷ b ∷ c ∷ d ∷ bs) =
    if ltb a 0x80
    then 1
    else if between 0xc2 a 0xdf && next b
    then 2
    else if between 0xe0 a 0xef && between (least a) b (greatest a) && next c
    then 3
    else if between 0xf0 a 0xf4 && between (least a) b (greatest a) && next c && next d
    then 4
    else 0

abbrev value_two : ℕ → Text → ℕ
value_two a (b ∷ bs) = (a - 0xc0) * 64 + (b - 0x80)
value_two a [] = 0xfffd

abbrev value_three : ℕ → Text → ℕ
value_three a (b ∷ c ∷ bs) = (a - 0xe0) * 4096 + (b - 0x80) * 64 + (c - 0x80)
value_three a _ = 0xfffd

abbrev value_four : ℕ → Text → ℕ
value_four a (b ∷ c ∷ d ∷ bs) =
    (a - 0xf0) * 262144 + (b - 0x80) * 4096 + (c - 0x80) * 64 + (d - 0x80)
value_four a _ = 0xfffd

-- The code point of a first byte and what follows, by its size; U+FFFD if it is not valid.
abbrev pub value : ℕ → ℕ → Text → ℕ
value n a bs =
    if n == 1
    then a
    else if n == 2
    then value_two a bs
    else if n == 3
    then value_three a bs
    else if n == 4
    then value_four a bs
    else 0xfffd

-- `[]rune(s)`; an invalid byte is one rune. The first argument counts the bytes to pass over.
unfoldable pub runes_from : ℕ → Text → List ℕ
runes_from skip [] = []
runes_from (suc skip) (a ∷ bs) = runes_from skip bs
runes_from zero (a ∷ bs) = value (size (a ∷ bs)) a bs ∷ runes_from (size (a ∷ bs) - 1) bs

unfoldable pub runes : Text → List ℕ
unfolding runes_from
runes t = runes_from 0 t

unfoldable pub valid_from : ℕ → Text → Bool
valid_from skip [] = true
valid_from (suc skip) (a ∷ bs) = valid_from skip bs
valid_from zero (a ∷ bs) =
    let rest = valid_from (size (a ∷ bs) - 1) bs in ltb 0 (size (a ∷ bs)) && rest

-- `utf8.ValidString`
unfoldable pub valid : Text → Bool
unfolding valid_from
valid t = valid_from 0 t

-- `string(rs)`
unfoldable pub encode_runes : List ℕ → Text
encode_runes [] = []
encode_runes (r ∷ rs) = encode_rune r ++ encode_runes rs
