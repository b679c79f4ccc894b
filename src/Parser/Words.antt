-- ===== src/Parser/Words.antt =====
-- parse.c: words, identifiers and indentation.
use blangc.Files.{get_indent, get_line_number}
use blangc.Parser.{Context}
use blangc.Parser.Outcome.{Parser, Step, is_some, null_if, ok, optionally, pure, stuck, ◌>>=◌, ◌>>◌}
use blangc.Prelude.Int.{pos}
use blangc.Prelude.{
  Bool, Bytes, List, Option, [], codes, drop, false, if◌then◌else◌, leb, length, none, some, str_eq,
  suc, zero, ℕ, ◌-◌, ◌==◌, ◌||◌, ◌∷◌,
}
use blangc.Parser.Text.{
  after, between, expected, found, from_option, moved, skip_whitespace, spaces,
}

abbrev pub keywords : List Bytes
keywords =
    codes "yes"
    ∷ codes "xor"
    ∷ codes "with"
    ∷ codes "while"
    ∷ codes "using"
    ∷ codes "use"
    ∷ codes "unless"
    ∷ codes "unit"
    ∷ codes "typeof"
    ∷ codes "type"
    ∷ codes "then"
    ∷ codes "struct"
    ∷ codes "stop"
    ∷ codes "skip"
    ∷ codes "sizeof"
    ∷ codes "return"
    ∷ codes "repeat"
    ∷ codes "or"
    ∷ codes "of"
    ∷ codes "not"
    ∷ codes "no"
    ∷ codes "mod1"
    ∷ codes "mod"
    ∷ codes "matches"
    ∷ codes "in"
    ∷ codes "if"
    ∷ codes "func"
    ∷ codes "for"
    ∷ codes "fail"
    ∷ codes "extern"
    ∷ codes "enum"
    ∷ codes "else"
    ∷ codes "do"
    ∷ codes "defer"
    ∷ codes "convert"
    ∷ codes "by"
    ∷ codes "bitcast"
    ∷ codes "between"
    ∷ codes "as"
    ∷ codes "and"
    ∷ codes "alias"
    ∷ codes "_mix_"
    ∷ codes "_min_"
    ∷ codes "_max_"
    ∷ []

unfoldable pub any_eq : Bytes → List Bytes → Bool
any_eq word [] = false
any_eq word (k ∷ ks) = str_eq word k || any_eq word ks

unfoldable pub is_keyword : Bytes → Bool
is_keyword word = any_eq word keywords

module _ (ctx : Context) where
  -- At the end `u8_next` leaves the code point 0.
  unfoldable pub is_xid_continue_next : Bytes → Bool
  is_xid_continue_next [] = ctx.xid_continue 0
  is_xid_continue_next (c ∷ p) = ctx.xid_continue (ctx.u8_next (c ∷ p)).0

  unfoldable pub match_word : (word : Bytes) → Bytes → Option Bytes
  match_word word p = elim (after word (spaces p)) [
    | none ↦ none
    | some rest ↦ if is_xid_continue_next rest then none else some rest
  ]

  unfoldable pub word_token : Bytes → Step
  word_token word p = found (match_word word p)

  unfoldable pub matches_word : Bytes → Parser Bool
  matches_word word p = moved (match_word word p) p

  -- The last character of the targets that the parser uses is a letter, so that the word has to end.
  unfoldable pub expect_word : Bytes → Step
  expect_word target p = expected (match_word target p)

  -- The loop of `get_word`.
  unfoldable pub word_end : (fuel : ℕ) → Bytes → Bytes
  word_end fuel [] = []
  word_end zero (c ∷ p) = c ∷ p
  word_end (suc fuel) (c ∷ p) =
      let next = ctx.u8_next (c ∷ p) in
      let rest = word_end fuel (drop next.1 (c ∷ p)) in
      if ctx.xid_continue next.0 then rest else c ∷ p

  -- The end of the word that begins here, behind the spaces.
  unfoldable pub get_word_end : Bytes → Option Bytes
  get_word_end [] = none
  get_word_end (c ∷ p) =
      let next = ctx.u8_next (c ∷ p) in
      if ctx.xid_start next.0 || next.0 == b'_'
      then some (word_end (length p) (drop next.1 (c ∷ p)))
      else none

  unfoldable pub get_word : Bytes → Option (Bytes × Bytes)
  get_word p = elim (get_word_end (spaces p)) [
    | none ↦ none
    | some rest ↦ some (between (spaces p) rest, rest)
  ]

  unfoldable pub get_id : Bytes → Option (Bytes × Bytes)
  get_id p = elim (get_word p) [
    | none ↦ none
    | some (word, rest) ↦ if is_keyword word then none else some (word, rest)
  ]

  unfoldable pub identifier : Parser Bytes
  identifier p = from_option (get_id p)

  abbrev pub offset : Bytes → ℕ
  offset p = length ctx.text - length p

  abbrev pub or_stuck : Option ℕ → Parser ℕ
  or_stuck none p = stuck
  or_stuck (some n) p = ok n p

  -- `sss_get_indent(ctx->file, pos)` and `sss_get_line_number(ctx->file, pos)`
  unfoldable pub indent_here : Parser ℕ
  indent_here p = or_stuck (get_indent ctx.lines (pos (offset p))) p

  unfoldable pub line_number_here : Parser ℕ
  line_number_here p = or_stuck (get_line_number ctx.lines (pos (offset p))) p

  -- Deeper text on a later line, behind the white space; NULL leaves the position.
  unfoldable pub deeper : Step
  deeper = do
    starting_indent ← indent_here
    first ← line_number_here
    skip_whitespace
    line ← line_number_here
    inner ← indent_here
    null_if (line == first || leb inner starting_indent)

  unfoldable pub indent : Parser Bool
  unfolding deeper
  indent = optionally deeper >>= λ found. pure (is_some found)
