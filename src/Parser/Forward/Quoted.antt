-- ===== src/Parser/Forward/Quoted.antt =====
-- The positions that the parsers of strings of parse.c leave.
use blangc.Parser.Escapes.{unescape}
use blangc.Parser.Forward.{
  Ends, Forward, ends, fault, fixed, here, later, out_of_rounds-Forward, pure-Forward, unknown,
}
use blangc.Parser.Forward.Grammar.{IsForward, ast_steps}
use blangc.Parser.Forward.Steps.{Reads, reads, some_not-IsSuffix, unescape-Reads}
use blangc.Parser.Grammar.{Grammar}
use blangc.Parser.Quoted.{
  Quotes, escape_result, indented_string, inline_loop, next_char, opening_quotes,
  parse_interpolation, parse_parens, parse_string, scanned_not, special_char, unescaped,
}
use blangc.Prelude.{Bytes, Option, [], none, some, suc, zero, ℕ, ◌∷◌}

Ends-next_char : (p : Bytes) → Ends p (next_char p)
unfolding next_char
Ends-next_char [] = fault
Ends-next_char (c ∷ p) = ends (later here)

Ends-escape_result : {p : Bytes} (o : Option (Bytes × Bytes)) → Reads p o → Ends p (escape_result o)
Ends-escape_result none h = fault
Ends-escape_result (some (text, rest)) (reads s) = ends s

next_char-Forward : Forward next_char next_char
unfolding next_char
next_char-Forward = fixed Ends-next_char

opening_quotes-Forward : Forward opening_quotes opening_quotes
unfolding opening_quotes
opening_quotes-Forward = search (ast_steps, next_char-Forward) depth 60 fits 20000

pub scanned_not-Forward : (set : Bytes) → Forward (scanned_not set) (scanned_not set)
unfolding scanned_not
scanned_not-Forward set = fixed λ p. ends (some_not-IsSuffix set p)

unescaped-Forward : Forward unescaped unescaped
unfolding unescaped
unescaped-Forward = fixed λ p. Ends-escape_result (unescape p) (unescape-Reads p)

module _ (g g' : Grammar) (h : IsForward g g') where
  pub parse_parens-Forward : Forward (parse_parens g) (parse_parens g')
  unfolding parse_parens
  parse_parens-Forward = search ast_steps depth 60 fits 20000

  parse_interpolation-Forward : Forward (parse_interpolation g) (parse_interpolation g')
  unfolding parse_interpolation
  parse_interpolation-Forward =
      search (ast_steps, next_char-Forward, parse_parens-Forward) depth 60 fits 20000

  special_char-Forward :
      (q : Quotes) (depth c : ℕ) → Forward (special_char g q depth c) (special_char g' q depth c)
  unfolding special_char
  special_char-Forward q depth c =
      search (ast_steps, next_char-Forward, parse_interpolation-Forward, unescaped-Forward) depth 60
        fits 20000

  inline_loop-Forward :
      (fuel : ℕ) (q : Quotes) (depth : ℕ)
      → Forward (inline_loop g fuel q depth) (inline_loop g' fuel q depth)
  unfolding inline_loop
  inline_loop-Forward zero q depth = out_of_rounds-Forward
  inline_loop-Forward (suc fuel) q zero = pure-Forward []
  inline_loop-Forward (suc fuel) q (suc depth) =
      let rest = inline_loop-Forward fuel in
      search (ast_steps, scanned_not-Forward, special_char-Forward) depth 60 fits 20000

  indented_string-Forward : Forward (indented_string g) (indented_string g')
  unfolding indented_string
  indented_string-Forward = record { at = λ p. unknown }

  pub parse_string-Forward : Forward (parse_string g) (parse_string g')
  unfolding parse_string
  parse_string-Forward =
      search (ast_steps, indented_string-Forward, inline_loop-Forward, opening_quotes-Forward) depth
        60 fits 20000
