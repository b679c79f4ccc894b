-- ===== src/Parser/Enums.antt =====
-- parse.c: enumerations.
use blangc.Parser.{Context}
use blangc.Parser.Grammar.{Grammar, expect_ast}
use blangc.Parser.Literals.{parse_int, scanned}
use blangc.Parser.Node.{
  Args, Node, Tags, arg, end_args, end_tags, int_, just, nothing, tag_, type_tagged_union,
}
use blangc.Parser.Outcome.{
  Parser, either_of, error_if, ok, optionally, out_of_rounds, pure, rounds, stuck, with_option,
  ◌<|>◌, ◌>>=◌, ◌>>◌,
}
use blangc.Parser.Text.{
  between, expect_closing, matches, position, skip_spaces, skip_whitespace, token,
}
use blangc.Parser.Words.{identifier, matches_word, word_token}
use blangc.Parser.Escapes.{is_alpha, is_digit, number}
use blangc.Prelude.Int.{eq_ℤ, ltb_ℤ, pos, ℤ, ◌+ℤ◌}
use blangc.Prelude.{
  Bool, Bytes, List, [], codes, false, if◌then◌else◌, ltb, not, some, suc, zero, ℕ, ◌%◌, ◌&&◌, ◌++◌,
  ◌-◌, ◌==◌, ◌^◌, ◌||◌, ◌∷◌,
}
use blangc.Parser.Params.{parse_args}

-- A step of `get_tag_bits`.
abbrev pub wider : ℕ → ℤ → ℕ
wider bits value =
    if ltb_ℤ (pos (2 ^ 31 - 1)) value && ltb bits 64
    then 64
    else if ltb_ℤ (pos (2 ^ 15 - 1)) value && ltb bits 32
    then 32
    else if ltb_ℤ (pos (2 ^ 7 - 1)) value && ltb bits 16
    then 16
    else bits

unfoldable pub get_tag_bits : (bits : ℕ) → List ℤ → ℕ
get_tag_bits bits [] = bits
get_tag_bits bits (value ∷ values) = get_tag_bits (wider bits value) values

-- The name that a tag without one takes from its type.
unfoldable pub type_letters : Bytes → Bytes
type_letters [] = []
type_letters (c ∷ p) =
    let rest = type_letters p in if is_alpha c || is_digit c || c == b'_' then c ∷ rest else rest

unfoldable pub has_value : ℤ → List ℤ → Bool
has_value value [] = false
has_value value (v ∷ values) = eq_ℤ v value || has_value value values

-- What stands behind a tag.
pub data AfterTag : Type 0 where
  last_tag next_tag : AfterTag
  bits_given : ℕ → AfterTag

-- `Match(val, Int)->i`
unfoldable pub int_value : Node → Parser ℤ
int_value (int_ i precision is_unsigned units) p = ok i p
int_value a p = stuck

abbrev pub signed_short : Bool → ℕ → ℕ
signed_short is_negative n = if is_negative then (2 ^ 16 - n % 2 ^ 16) % 2 ^ 16 else n % 2 ^ 16

-- `tag_bits = strtol(next_pos, &after, 10)`
unfoldable pub short_number : Parser ℕ
short_number = do
  minus ← matches (codes "-")
  plus ← either_of minus (pure false) (matches (codes "+"))
  text ← scanned (codes "0123456789")
  pure (signed_short minus (number 10 0 text))

unfoldable pub last_or_bits : (values : List ℤ) → Parser AfterTag
unfolding short_number
last_or_bits values = do
  skip_whitespace
  bits ← short_number
  error_if (not (bits == 64 || bits == 32 || bits == 16 || bits == 8))
  error_if (ltb bits (get_tag_bits 8 values))
  skip_whitespace
  bar ← matches (codes "|")
  pure (bits_given bits)

module _ (ctx : Context) where
  unfoldable pub after_semicolon : (values : List ℤ) → Parser AfterTag
  unfolding last_or_bits
  after_semicolon values = do
    word ← matches_word ctx (codes "bits")
    equals ← either_of word (skip_spaces >> matches (codes "=")) (pure false)
    either_of equals (last_or_bits values) (pure next_tag)

  unfoldable pub after_tag : (values : List ℤ) → Parser AfterTag
  unfolding after_semicolon
  after_tag values =
      (do skip_whitespace; token (codes ";"); skip_whitespace; after_semicolon values)
      <|> (do skip_whitespace; token (codes "|"); skip_whitespace; pure next_tag)
      <|> pure last_tag

module _ (ctx : Context) (g : Grammar) where
  -- `:Type`, with the name and the value of the tag.
  unfoldable pub typed_tag : (next_value : ℤ) → Parser (Bytes × ℤ × Args)
  typed_tag next_value = do
    token (codes ":")
    skip_spaces
    start ← position
    type ← expect_ast g.type_
    rest ← position
    pure (
      type_letters (between start rest),
      next_value,
      arg (some (codes "value")) (just type) nothing end_args,
    )

  unfoldable pub tag_args : Parser Args
  tag_args = do
    paren ← matches (codes "(")
    either_of paren
        (do
          skip_whitespace
          args ← parse_args ctx g false
          skip_whitespace
          expect_closing (codes ")")
          pure args)
        (pure end_args)

  unfoldable pub tag_value : (next_value : ℤ) → Parser ℤ
  tag_value next_value = do
    equals ← matches (codes "=")
    either_of equals (expect_ast (parse_int ctx) >>= int_value) (pure next_value)

  unfoldable pub named_tag : (next_value : ℤ) → (seen : List ℤ) → Parser (Bytes × ℤ × Args)
  unfolding tag_args tag_value
  named_tag next_value seen = do
    name ← identifier ctx
    skip_spaces
    args ← tag_args
    skip_spaces
    value ← tag_value next_value
    error_if (has_value value seen)
    pure (name, value, args)

  -- The end of a round, with the values up to here and the next round.
  unfoldable pub after_tag_loop :
      (Tags → Tags) → List ℤ → AfterTag → (List ℤ → Parser (Tags × ℕ)) → Parser (Tags × ℕ)
  after_tag_loop tag values next_tag loop = do (tags, bits) ← loop values; pure (tag tags, bits)
  after_tag_loop tag values last_tag loop = pure (tag end_tags, get_tag_bits 8 values)
  after_tag_loop tag values (bits_given bits) loop = pure (tag end_tags, bits)

  -- The tags from here on, with the bits that are given, or the values of all tags.
  unfoldable pub tag_loop : (fuel : ℕ) → (next_value : ℤ) → (seen : List ℤ) → Parser (Tags × ℕ)
  unfolding typed_tag named_tag after_tag after_tag_loop
  tag_loop zero next_value seen = out_of_rounds
  tag_loop (suc fuel) next_value seen = do
    skip_spaces
    tag ← optionally (typed_tag next_value <|> named_tag next_value seen)
    with_option tag
        (λ (name, value, args). do
          following ← after_tag ctx (seen ++ value ∷ [])
          after_tag_loop (tag_ name value args) (seen ++ value ∷ []) following
              (λ all. tag_loop fuel (value +ℤ pos 1) all))
        (pure (end_tags, get_tag_bits 8 seen))

  unfoldable pub parse_enum_type : Parser Node
  unfolding tag_loop
  parse_enum_type = do
    word_token ctx (codes "enum")
    skip_spaces
    token (codes "(")
    skip_whitespace
    (tags, bits) ← rounds λ fuel. tag_loop fuel (pos 0) []
    skip_whitespace
    expect_closing (codes ")")
    pure (type_tagged_union tags bits)
