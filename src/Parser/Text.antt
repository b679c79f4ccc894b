-- ===== src/Parser/Text.antt =====
-- parse.c: the text-based parsing primitives. Each takes a position and gives the
-- position behind what it matches.
use blangc.Parser.Outcome.{Parser, Result, Step, absent, failed, ok}
use blangc.Prelude.{
  Bool, Bytes, Option, [], codes, false, if◌then◌else◌, length, ltb, none, some, suc, take, true,
  zero, ℕ, ◌-◌, ◌==◌, ◌||◌, ◌∷◌,
}

-- `*pos`
unfoldable pub here : Bytes → ℕ
here [] = 0
here (c ∷ p) = c

unfoldable pub member : ℕ → Bytes → Bool
member c [] = false
member c (d ∷ set) = c == d || member c set

-- `pos + strspn(pos, set)`
unfoldable pub some_of : (set : Bytes) → Bytes → Bytes
some_of set [] = []
some_of set (c ∷ p) = let rest = some_of set p in if member c set then rest else c ∷ p

-- `pos + strcspn(pos, set)`
unfoldable pub some_not : (set : Bytes) → Bytes → Bytes
some_not set [] = []
some_not set (c ∷ p) = let rest = some_not set p in if member c set then c ∷ p else rest

-- The text from a position up to a later one.
abbrev pub between : (start end : Bytes) → Bytes
between start end = take (length start - length end) start

abbrev pub spaces : Bytes → Bytes
spaces = some_of (32 ∷ 9 ∷ [])

-- `match`: the position behind the target, if it stands here.
unfoldable pub after : (target : Bytes) → Bytes → Option Bytes
after [] p = some p
after (t ∷ ts) [] = none
after (t ∷ ts) (c ∷ p) = let rest = after ts p in if t == c then rest else none

unfoldable pub comment : Bytes → Option Bytes
comment p = elim (after (codes "//") p) [
  | none ↦ none
  | some rest ↦ some (some_not (13 ∷ 10 ∷ []) rest)
]

abbrev pub blanks : Bytes
blanks = 32 ∷ 9 ∷ 13 ∷ 10 ∷ []

-- The loop of `whitespace`: white space if there is some, and else a comment.
unfoldable pub skip : (fuel : ℕ) → Bytes → Bytes
skip zero p = p
skip (suc fuel) p = elim (ltb (length (some_of blanks p)) (length p)) [
  | true ↦ skip fuel (some_of blanks p)
  | false ↦ elim (comment p) [ none ↦ p | some rest ↦ skip fuel rest ]
]

unfoldable pub whitespace : Bytes → Bytes
whitespace p = skip (length p) p

-- The static arrays of `match_group` and `parse_string`.
unfoldable pub mirror_delim : ℕ → ℕ
mirror_delim opening =
    if opening == b'('
    then b')'
    else if opening == b'{'
    then b'}'
    else if opening == b'<'
    then b'>'
    else if opening == b'['
    then b']'
    else opening

-- The loop of `match_group`, with the depth that is left.
unfoldable pub close_group : (opening closing depth : ℕ) → Bytes → Option Bytes
close_group opening closing zero p = some p
close_group opening closing (suc depth) [] = none
close_group opening closing (suc depth) (c ∷ p) =
    let less = close_group opening closing depth p in
    let more = close_group opening closing (suc (suc depth)) p in
    let same = close_group opening closing (suc depth) p in
    if c == closing then less else if c == opening then more else same

unfoldable pub match_group : (opening : ℕ) → Bytes → Option Bytes
match_group opening [] = none
match_group opening (c ∷ p) =
    if c == opening then close_group opening (mirror_delim opening) 1 p else none

unfoldable pub match_indentation : (target : ℕ) → Bytes → Option Bytes
match_indentation zero p = some p
match_indentation (suc target) [] = none
match_indentation (suc target) (c ∷ p) =
    let space = match_indentation target p in
    let tab = match_indentation (target - 3) p in
    if c == 32 then space else if c == 9 then tab else none

-- The primitives as steps of a parser.
unfoldable pub skip_spaces : Step
skip_spaces p = ok tt (spaces p)

unfoldable pub skip_whitespace : Step
skip_whitespace p = ok tt (whitespace p)

abbrev pub from_option {ℓ} : {A : Type ℓ} → Option (A × Bytes) → Result A
from_option none = absent
from_option (some (a, rest)) = ok a rest

abbrev pub moved : Option Bytes → Bytes → Result Bool
moved none p = ok false p
moved (some rest) p = ok true rest

-- `match` as a condition.
unfoldable pub matches : Bytes → Parser Bool
matches target p = moved (after target p) p

abbrev pub found : Option Bytes → Result (Unit {0})
found none = absent
found (some rest) = ok tt rest

-- `if (!match(&pos, target)) return NULL;`
unfoldable pub token : Bytes → Step
token target p = found (after target p)

unfoldable pub peek : Parser ℕ
peek p = ok (here p) p

unfoldable pub position : Parser Bytes
position p = ok p p

abbrev pub expected : Option Bytes → Result (Unit {0})
expected none = failed
expected (some rest) = ok tt rest

unfoldable pub expect_closing : Bytes → Step
expect_closing closing p = expected (after closing (spaces p))
