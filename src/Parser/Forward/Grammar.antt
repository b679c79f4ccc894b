-- ===== src/Parser/Forward/Grammar.antt =====
-- The positions that the parsers of a grammar leave, and nodes behind white space.
use blangc.Parser.Forward.{
  Forward, sequence, items-Forward, suffixes-Forward, >>-Forward, optionally-Forward,
  required-Forward,
}
use blangc.Parser.Forward.Steps.{skip_spaces-Forward}
use blangc.Parser.Forward.Words.{text_steps}
use blangc.Parser.Grammar.{Grammar, expect_ast, optional_ast, ast_or_null, comma, comma_anywhere}
use blangc.Parser.Outcome.{Parser}

pub record IsForward (g g' : Grammar) : Type 0 where
  pub type_ : Forward g.type_ g'.type_
  pub expr : Forward g.expr g'.expr
  pub extended_expr : Forward g.extended_expr g'.extended_expr
  pub term : Forward g.term g'.term
  pub term_no_suffix : Forward g.term_no_suffix g'.term_no_suffix
  pub declaration : Forward g.declaration g'.declaration
  pub statement : Forward g.statement g'.statement
  pub def : Forward g.def g'.def
  pub opt_indented_block : Forward g.opt_indented_block g'.opt_indented_block

module _ {ℓ} {A : Type ℓ} {p q : Parser A} where
  pub expect_ast-Forward : Forward p q → Forward (expect_ast p) (expect_ast q)
  unfolding expect_ast
  expect_ast-Forward h = >>-Forward skip_spaces-Forward (required-Forward h)

  pub optional_ast-Forward : Forward p q → Forward (optional_ast p) (optional_ast q)
  unfolding optional_ast
  optional_ast-Forward h = >>-Forward skip_spaces-Forward (optionally-Forward h)

  pub ast_or_null-Forward : Forward p q → Forward (ast_or_null p) (ast_or_null q)
  unfolding ast_or_null
  ast_or_null-Forward h = >>-Forward skip_spaces-Forward h

pub comma-Forward : Forward comma comma
unfolding comma
comma-Forward = search text_steps depth 20 fits 3000

pub comma_anywhere-Forward : Forward comma_anywhere comma_anywhere
unfolding comma_anywhere
comma_anywhere-Forward = search text_steps

pub ruleset ast_steps = (
  text_steps, expect_ast-Forward, optional_ast-Forward, ast_or_null-Forward, items-Forward,
  suffixes-Forward, comma-Forward, comma_anywhere-Forward,
)
