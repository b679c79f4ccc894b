-- ===== src/Parser/Literals.antt =====
-- parse.c: literals of numbers, truth values, characters and patterns, units, and variables.
use blangc.Parser.{Context}
use blangc.Parser.Node.{Node, decimal, from_int, int_, num_, bool_, char_, wildcard, var}
use blangc.Parser.Outcome.{
  Result, ok, absent, stuck, Parser, pure, ◌>>=◌, ◌>>◌, ◌<|>◌, optionally, either_of, null_if, bind,
}
use blangc.Parser.Text.{here, some_of, between, after, matches, token, peek}
use blangc.Parser.Words.{identifier, word_token}
use blangc.Parser.Escapes.{number, unescape, is_digit}
use blangc.Prelude.Int.{ℤ, pos, negsuc}
use blangc.Prelude.{
  ℕ, zero, suc, ◌-◌, ◌^◌, Bool, true, false, not, ◌&&◌, ◌||◌, ◌==◌, ltb, if◌then◌else◌, Option,
  none, some, List, [], ◌∷◌, Bytes, codes, drop,
}

-- The copy without the underscores.
unfoldable pub without_underscores : Bytes → Bytes
without_underscores [] = []
without_underscores (c ∷ p) =
    let rest = without_underscores p in if c == b'_' then rest else c ∷ rest

-- The characters of a set from here on.
unfoldable pub scanned : (set : Bytes) → Parser Bytes
scanned set p = ok (between p (some_of set p)) (some_of set p)

-- `strtol`, which stops at the largest number.
abbrev long : ℕ → Bytes → ℕ
long base digits = let n = number base 0 digits in if ltb n (2 ^ 63) then n else 2 ^ 63 - 1

abbrev signed : Bool → ℕ → ℤ
signed false n = pos n
signed true zero = pos 0
signed true (suc n) = negsuc n

abbrev pub digits : Bytes
digits = codes "0123456789"

-- The number in a base, without its sign; the digits may have underscores between them.
unfoldable pub based : ℕ → (set : Bytes) → Parser ℕ
based base set = do text ← scanned set; pure (long base (without_underscores text))

unfoldable pub magnitude : Parser ℕ
unfolding based
magnitude =
    (token (codes "0x") >> based 16 (codes "0123456789abcdefABCDEF_"))
    <|> (token (codes "0b") >> based 2 (codes "01_"))
    <|> (token (codes "0o") >> based 8 (codes "01234567_"))
    <|> based 10 (codes "0123456789_")

-- The suffixes that give the precision and the sign, tried in order.
unfoldable pub suffixed : List (Bytes × ℕ × Bool) → Parser (ℕ × Bool)
suffixed [] = pure (64, false)
suffixed ((suffix, precision, is_unsigned) ∷ more) = do
  found ← matches suffix
  either_of found (pure (precision, is_unsigned)) (suffixed more)

abbrev int_suffixes : List (Bytes × ℕ × Bool)
int_suffixes =
    (codes "i64", 64, false)
    ∷ (codes "i32", 32, false)
    ∷ (codes "i16", 16, false)
    ∷ (codes "i8", 8, false)
    ∷ (codes "u64", 64, true)
    ∷ (codes "u32", 32, true)
    ∷ (codes "u16", 16, true)
    ∷ (codes "u8", 8, true)
    ∷ []

abbrev float_suffixes : List (Bytes × ℕ × Bool)
float_suffixes = (codes "f64", 64, false) ∷ (codes "f32", 32, false) ∷ []

module _ (ctx : Context) where
  abbrev pub units_of : Option (Option Bytes) → Parser (Option Bytes)
  units_of none p = stuck
  units_of (some units) p = ok units p

  -- `match_units`, but for the NULL where there are no brackets. The position moves even where
  -- `unit_string` gives NULL.
  unfoldable pub bracketed_units : Parser (Option Bytes)
  bracketed_units = do
    token (codes "<")
    text ← scanned (codes "abcdefghijklmnopqrstuvwxyzABCDEFGHIJKLMNOPQRSTUVWXYZ/^0123456789-_ ")
    token (codes ">")
    units_of (ctx.unit_string text)

  unfoldable pub match_units : Parser (Option Bytes)
  unfolding bracketed_units
  match_units = bracketed_units <|> pure none

  unfoldable pub int_with_suffix : ℤ → Parser Node
  unfolding match_units suffixed
  int_with_suffix i = do
    underscore ← matches (codes "_")
    (precision, is_unsigned) ← suffixed int_suffixes
    units ← match_units
    pure (int_ i precision is_unsigned units)

  unfoldable pub parse_int : Parser Node
  unfolding magnitude int_with_suffix
  parse_int = do
    is_negative ← matches (codes "-")
    c ← peek
    null_if (not (is_digit c))
    i ← magnitude
    next ← peek
    null_if (next == b'e' || next == b'f')
    percent ← matches (codes "%")
    either_of percent (pure (num_ (from_int (signed is_negative i) true) 64 (some (codes "%"))))
        (int_with_suffix (signed is_negative i))

  -- `len += 1 + strspn(pos + len + 1, "-0123456789_")`
  abbrev pub exponent_end : Bytes → Bytes
  exponent_end p = if here p == b'e' then some_of (codes "-0123456789_") (drop 1 p) else p

  -- The position behind the number; `none` where this is no number with a point or an exponent.
  unfoldable pub num_end : Bytes → Option Bytes
  num_end p =
      let rest = some_of (codes "0123456789_") p in
      elim (after (codes "..") rest) [
        | some q ↦ none
        | none ↦
            if here rest == b'.'
            then some (exponent_end (some_of digits (drop 1 rest)))
            else if here rest == b'e' || here rest == b'f' || here rest == b'%'
            then some (exponent_end rest)
            else none
      ]

  abbrev pub digits_until : Option Bytes → Parser Bytes
  digits_until none p = absent
  digits_until (some rest) p = ok (without_underscores (between p rest)) rest

  unfoldable pub num_digits : Parser Bytes
  unfolding num_end
  num_digits p = digits_until (num_end p) p

  unfoldable pub parse_num : Parser Node
  unfolding num_digits match_units suffixed
  parse_num = do
    is_negative ← matches (codes "-")
    c ← peek
    null_if (not (is_digit c) && not (c == b'.'))
    text ← num_digits
    underscore ← matches (codes "_")
    (precision, is_unsigned) ← suffixed float_suffixes
    percent ← matches (codes "%")
    either_of percent (pure (num_ (decimal is_negative text true) precision (some (codes "%"))))
        (match_units >>= λ units. pure (num_ (decimal is_negative text false) precision units))

  unfoldable pub parse_bool : Parser Node
  parse_bool =
      (word_token ctx (codes "yes") >> pure (bool_ true))
      <|> (word_token ctx (codes "no") >> pure (bool_ false))

  unfoldable pub parse_var : Parser Node
  parse_var = identifier ctx >>= λ name. pure (var name)

  unfoldable pub parse_wildcard : Parser Node
  parse_wildcard = do token (codes "?"); name ← optionally (identifier ctx); pure (wildcard name)

abbrev pub first_char : Option (Bytes × Bytes) → Result ℕ
first_char none = stuck
first_char (some (text, rest)) = ok (here text) rest

-- A character behind a backquote, or an escape. Behind the end of the text the position would move
-- out of it.
unfoldable pub parse_char : Parser Node
parse_char [] = absent
parse_char (c ∷ []) = if c == b'`' || c == b'\\' then stuck else absent
parse_char (c ∷ d ∷ p) =
    if c == b'`'
    then ok (char_ d) p
    else if c == b'\\'
    then bind (first_char (unescape (d ∷ p))) (λ e. pure (char_ e))
    else absent
