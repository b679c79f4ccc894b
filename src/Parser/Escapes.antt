-- ===== src/Parser/Escapes.antt =====
-- parse.c: the characters of numbers, and escapes.
use blangc.Prelude.{
  Bool, Bytes, Option, [], if◌then◌else◌, leb, ltb, none, some, ℕ, ◌%◌, ◌&&◌, ◌*◌, ◌+◌, ◌-◌, ◌==◌,
  ◌||◌, ◌∷◌,
}

abbrev pub is_digit_below : ℕ → ℕ → Bool
is_digit_below base c = leb b'0' c && ltb c (b'0' + base)

abbrev pub is_digit : ℕ → Bool
is_digit = is_digit_below 10

abbrev pub is_alpha : ℕ → Bool
is_alpha c = (leb b'a' c && leb c b'z') || (leb b'A' c && leb c b'Z')

-- The value of a hexadecimal digit.
unfoldable pub hex_digit : ℕ → Option ℕ
hex_digit c =
    if is_digit c
    then some (c - b'0')
    else if leb b'a' c && leb c b'f'
    then some (c - b'a' + 10)
    else if leb b'A' c && leb c b'F'
    then some (c - b'A' + 10)
    else none

-- The digits of `strtol`, which stops at the first other character.
unfoldable pub number : (base total : ℕ) → Bytes → ℕ
number base total [] = total
number base total (c ∷ p) = elim (hex_digit c) [
  | none ↦ total
  | some d ↦ let rest = number base (total * base + d) p in if ltb d base then rest else total
]

-- The table of `unescape`, `unescapes[256]`.
unfoldable pub unescapes : ℕ → Option ℕ
unescapes c =
    if c == b'a'
    then some 7
    else if c == b'b'
    then some 8
    else if c == b'e'
    then some 27
    else if c == b'f'
    then some 12
    else if c == b'n'
    then some 10
    else if c == b'r'
    then some 13
    else if c == b't'
    then some 9
    else if c == b'v'
    then some 11
    else if c == b'_'
    then some 32
    else none

-- `(char)strtol(…)` as a C string of one character: a NUL makes it empty.
abbrev pub one_char : ℕ → Bytes
one_char c = if c % 256 == 0 then [] else c % 256 ∷ []

abbrev pub is_octal : ℕ → Bool
is_octal = is_digit_below 8

unfoldable pub octal_escape : ℕ → Bytes → Option (Bytes × Bytes)
octal_escape c (d ∷ e ∷ p) =
    if is_octal c && is_octal d && is_octal e
    then some (one_char (number 8 0 (c ∷ d ∷ e ∷ [])), p)
    else some (c ∷ [], d ∷ e ∷ p)
octal_escape c p = some (c ∷ [], p)

unfoldable pub hex_escape : ℕ → Bytes → Option (Bytes × Bytes)
unfolding octal_escape
hex_escape c (d ∷ e ∷ p) =
    if c == b'x' then some (one_char (number 16 0 (d ∷ e ∷ [])), p) else octal_escape c (d ∷ e ∷ p)
hex_escape c p = octal_escape c p

-- `unescape`, behind the backslash: the string and the position behind the escape. A backslash at
-- the end of the text moves the position behind the text: `none`.
unfoldable pub unescape : Bytes → Option (Bytes × Bytes)
unfolding hex_escape
unescape [] = none
unescape (c ∷ p) = elim (unescapes c) [ some d ↦ some (d ∷ [], p) | none ↦ hex_escape c p ]
