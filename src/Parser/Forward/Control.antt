-- ===== src/Parser/Forward/Control.antt =====
-- The positions that the parsers of control flow of parse.c leave.
use blangc.Parser.{Context}
use blangc.Parser.Control.{
  body, clause, clauses, first_block, parse_control, parse_defer, parse_do, parse_for, parse_if,
  parse_repeat, parse_unless, parse_using, parse_while, parse_with, patterns, semicolon,
  simple_cases, then_body, with_variable, word_at_indent, word_follows,
}
use blangc.Parser.Forward.{Forward, ends, fixed, here, out_of_rounds-Forward}
use blangc.Parser.Forward.Grammar.{IsForward, ast_steps}
use blangc.Parser.Forward.Literals.{parse_var-Forward}
use blangc.Parser.Forward.Suffixes.{declaration_or_expr-Forward, loop_variables-Forward}
use blangc.Parser.Grammar.{Grammar}
use blangc.Prelude.{Bytes, suc, zero, ℕ}

module _ (ctx : Context) (g g' : Grammar) (h : IsForward g g') where
  word_at_indent-Forward :
      (text : Bytes) (n : ℕ) → Forward (word_at_indent ctx g text n) (word_at_indent ctx g' text n)
  unfolding word_at_indent
  word_at_indent-Forward text n = search ast_steps depth 60 fits 20000

  clause-Forward : (text : Bytes) (n : ℕ) → Forward (clause ctx g text n) (clause ctx g' text n)
  unfolding clause
  clause-Forward text n = search (ast_steps, word_at_indent-Forward) depth 60 fits 20000

  body-Forward : Forward (body ctx g) (body ctx g')
  unfolding body
  body-Forward = search ast_steps depth 60 fits 20000

  then_body-Forward : Forward (then_body ctx g) (then_body ctx g')
  unfolding then_body
  then_body-Forward = search (ast_steps, body-Forward) depth 60 fits 20000

  parse_unless-Forward : (n : ℕ) → Forward (parse_unless ctx g n) (parse_unless ctx g' n)
  unfolding parse_unless
  parse_unless-Forward n =
      search
        (
          ast_steps, body-Forward, declaration_or_expr-Forward, then_body-Forward,
          word_at_indent-Forward,
        )
        depth 60 fits 20000

  patterns-Forward : Forward (patterns ctx g) (patterns ctx g')
  unfolding patterns
  patterns-Forward = search ast_steps depth 60 fits 20000

  clauses-Forward : (fuel : ℕ) (n : ℕ) → Forward (clauses ctx g fuel n) (clauses ctx g' fuel n)
  unfolding clauses
  clauses-Forward zero n = out_of_rounds-Forward
  clauses-Forward (suc fuel) n =
      let rest = clauses-Forward fuel in
      search
        (ast_steps, clause-Forward, patterns-Forward, then_body-Forward, word_at_indent-Forward)
        depth 60 fits 20000

  simple_cases-Forward : (n : ℕ) → Forward (simple_cases ctx g n) (simple_cases ctx g' n)
  unfolding simple_cases
  simple_cases-Forward n = search (ast_steps, clause-Forward, then_body-Forward) depth 60 fits 20000

  word_follows-Forward :
      (text : Bytes) → Forward (word_follows ctx g text) (word_follows ctx g' text)
  unfolding word_follows
  word_follows-Forward text = fixed λ p. ends here

  parse_if-Forward : Forward (parse_if ctx g) (parse_if ctx g')
  unfolding parse_if
  parse_if-Forward =
      search
        (
          ast_steps, clauses-Forward, declaration_or_expr-Forward, parse_unless-Forward,
          simple_cases-Forward, word_follows-Forward,
        )
        depth 60 fits 20000

  parse_do-Forward : Forward (parse_do ctx g) (parse_do ctx g')
  unfolding parse_do
  parse_do-Forward = search (ast_steps, body-Forward, clause-Forward) depth 60 fits 20000

  parse_defer-Forward : Forward (parse_defer ctx g) (parse_defer ctx g')
  unfolding parse_defer
  parse_defer-Forward = search (ast_steps, body-Forward) depth 60 fits 20000

  with_variable-Forward : Forward (with_variable ctx g) (with_variable ctx g')
  unfolding with_variable
  with_variable-Forward = search (ast_steps, parse_var-Forward) depth 60 fits 20000

  parse_with-Forward : Forward (parse_with ctx g) (parse_with ctx g')
  unfolding parse_with
  parse_with-Forward = search (ast_steps, body-Forward, with_variable-Forward) depth 60 fits 20000

  semicolon-Forward : Forward (semicolon ctx g) (semicolon ctx g')
  unfolding semicolon
  semicolon-Forward = search ast_steps depth 60 fits 20000

  parse_using-Forward : Forward (parse_using ctx g) (parse_using ctx g')
  unfolding parse_using
  parse_using-Forward = search (ast_steps, body-Forward, semicolon-Forward) depth 60 fits 20000

  first_block-Forward : Forward (first_block ctx g) (first_block ctx g')
  unfolding first_block
  first_block-Forward = search (ast_steps, body-Forward) depth 60 fits 20000

  parse_for-Forward : Forward (parse_for ctx g) (parse_for ctx g')
  unfolding parse_for
  parse_for-Forward =
      search
        (
          ast_steps, body-Forward, clause-Forward, first_block-Forward, loop_variables-Forward,
          word_at_indent-Forward,
        )
        depth 60 fits 20000

  parse_repeat-Forward : Forward (parse_repeat ctx g) (parse_repeat ctx g')
  unfolding parse_repeat
  parse_repeat-Forward =
      search (ast_steps, body-Forward, word_at_indent-Forward) depth 60 fits 20000

  parse_while-Forward : Forward (parse_while ctx g) (parse_while ctx g')
  unfolding parse_while
  parse_while-Forward = search (ast_steps, body-Forward, clause-Forward) depth 60 fits 20000

  pub parse_control-Forward : Forward (parse_control ctx g) (parse_control ctx g')
  unfolding parse_control
  parse_control-Forward =
      search
        (
          ast_steps, parse_defer-Forward, parse_do-Forward, parse_for-Forward, parse_if-Forward,
          parse_repeat-Forward, parse_using-Forward, parse_while-Forward, parse_with-Forward,
        )
        depth 60 fits 20000
