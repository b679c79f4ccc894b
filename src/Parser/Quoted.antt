-- ===== src/Parser/Quoted.antt =====
-- parse.c: parentheses, interpolation, and strings that end on their line. Strings that are
-- delimited by indentation are left out: their outcome is `stuck`.
use blangc.Parser.Grammar.{Grammar, ast_or_null}
use blangc.Parser.Node.{Node, string_literal, string_join, interp, nodes}
use blangc.Parser.Outcome.{
  Result, ok, stuck, Parser, pure, null, ◌>>=◌, ◌>>◌, ◌<|>◌, optionally, required, either_of,
  with_option, null_if, error_if, assert, rounds, out_of_rounds,
}
use blangc.Parser.Text.{
  mirror_delim, between, some_not, skip_spaces, skip_whitespace, matches, token, peek,
  expect_closing,
}
use blangc.Parser.Escapes.{unescape}
use blangc.Prelude.{
  ℕ, zero, suc, ◌-◌, Bool, false, not, ◌||◌, ◌==◌, if◌then◌else◌, Option, none, some, List, [], ◌∷◌,
  ◌++◌, Bytes, codes,
}

-- The characters of a string's delimiter: `close`, `escapes` and `interps` of `parse_string`.
pub record Quotes : Type 0 where
  pub opening : ℕ
  pub closing : ℕ

abbrev is_one_of : ℕ → Bytes → Bool
is_one_of c [] = false
is_one_of c (d ∷ set) = c == d || is_one_of c set

unfoldable pub escape_char : ℕ → ℕ
escape_char opening = if is_one_of opening (codes "'(>/") then 27 else b'\\'

unfoldable pub interp_char : ℕ → ℕ
interp_char opening =
    if is_one_of opening (codes ">/")
    then b'@'
    else if is_one_of opening (codes "'(")
    then 26
    else b'$'

-- `++pos`: at the end of the text the position would move out of it.
unfoldable pub next_char : Parser ℕ
next_char [] = stuck
next_char (c ∷ p) = ok c p

unfoldable pub opening_quotes : Parser Quotes
unfolding next_char
opening_quotes = do
  dollar ← matches (codes "$")
  c ← peek
  null_if (not (dollar || c == b'\'' || c == b'"'))
  opening ← next_char
  pure (record { opening = opening; closing = if dollar then mirror_delim opening else opening })

unfoldable pub scanned_not : (set : Bytes) → Parser Bytes
scanned_not set p = ok (between p (some_not set p)) (some_not set p)

abbrev pub escape_result : Option (Bytes × Bytes) → Result Bytes
escape_result none = stuck
escape_result (some (text, rest)) = ok text rest

unfoldable pub unescaped : Parser Bytes
unescaped p = escape_result (unescape p)

abbrev chunk : Bytes → List Node → List Node
chunk [] chunks = chunks
chunk (c ∷ text) chunks = string_literal (c ∷ text) ∷ chunks

module _ (g : Grammar) where
  unfoldable pub parse_parens : Parser Node
  parse_parens = do
    skip_spaces
    token (codes "(")
    skip_whitespace
    expr ← ast_or_null g.extended_expr
    expect_closing (codes ")")
    pure expr

  unfoldable pub parse_interpolation : Parser Node
  unfolding parse_parens next_char
  parse_interpolation = do
    initial ← next_char
    labelled ← matches (codes ":")
    value ← required (ast_or_null parse_parens <|> ast_or_null g.term)
    pure (interp value labelled)

  abbrev special : Quotes → Bytes
  special q = 10 ∷ 13 ∷ q.opening ∷ q.closing ∷ interp_char q.opening ∷ escape_char q.opening ∷ []

  -- What a special character stands for, and the depth behind it; NULL where the string ends with
  -- the line.
  unfoldable pub special_char : Quotes → (depth c : ℕ) → Parser (List Node × ℕ)
  unfolding parse_interpolation unescaped next_char
  special_char q depth c =
      either_of (c == interp_char q.opening)
        (parse_interpolation >>= λ value. pure (value ∷ [], depth))
        (either_of (c == escape_char q.opening)
          (assert (c == b'\\') >> next_char >> unescaped >>= λ text.
            pure (string_literal text ∷ [], depth))
          (either_of (c == 13 || c == 10)
            (error_if (not (q.opening == 32 || q.opening == b':' || q.opening == b'>')) >> null)
            (either_of (c == q.closing)
              (next_char
                >> pure ((if depth == 1 then [] else string_literal (c ∷ []) ∷ []), depth - 1))
              (next_char >> pure (string_literal (c ∷ []) ∷ [], suc depth)))))

  -- The loop of a string on one line. Where the text ends inside the string, the code reads on
  -- behind it.
  unfoldable pub inline_loop : (fuel : ℕ) → Quotes → (depth : ℕ) → Parser (List Node)
  unfolding special_char scanned_not
  inline_loop zero q depth = out_of_rounds
  inline_loop (suc fuel) q zero = pure []
  inline_loop (suc fuel) q (suc depth) = do
    first ← peek
    either_of (first == 0) (pure []) (do
      text ← scanned_not (special q)
      c ← peek
      following ← optionally (special_char q (suc depth) c)
      with_option following
          (λ (node, inner). do rest ← inline_loop fuel q inner; pure (chunk text (node ++ rest)))
          (pure (chunk text [])))

  unfoldable pub indented_string : Parser Node
  indented_string p = stuck

  unfoldable pub parse_string : Parser Node
  unfolding opening_quotes inline_loop indented_string
  parse_string = do
    q ← opening_quotes
    either_of (q.opening == b':' || q.opening == b'>') skip_spaces (pure tt)
    c ← peek
    either_of (c == 13 || c == 10) indented_string
        ((rounds λ fuel. inline_loop fuel q 1) >>= λ chunks. pure (string_join (nodes chunks)))
