-- ===== src/Parser/Grammar.antt =====
-- parse.c: the parsers that call each other, as the ones that build on them take them, and the
-- helpers for nodes behind white space.
use blangc.Parser.Node.{Node}
use blangc.Parser.Outcome.{Parser, pure, ◌>>=◌, ◌>>◌, optionally, required, either_of}
use blangc.Parser.Text.{skip_spaces, skip_whitespace, matches}
use blangc.Prelude.{Bool, true, false, Option, codes}

-- The parsers that are called before the whole of them is defined.
pub record Grammar : Type 0 where
  pub type_ : Parser Node
  pub expr : Parser Node
  pub extended_expr : Parser Node
  pub term : Parser Node
  pub term_no_suffix : Parser Node
  pub declaration : Parser Node
  pub statement : Parser Node
  pub def : Parser Node
  pub opt_indented_block : Parser Node

module _ {ℓ} {A : Type ℓ} where
  unfoldable pub expect_ast : Parser A → Parser A
  expect_ast p = skip_spaces >> required p

  unfoldable pub optional_ast : Parser A → Parser (Option A)
  optional_ast p = skip_spaces >> optionally p

  -- `x = optional_ast(…); if (!x) return NULL;`
  unfoldable pub ast_or_null : Parser A → Parser A
  ast_or_null p = skip_spaces >> p

-- A comma behind spaces, with the white space behind it.
unfoldable pub comma : Parser Bool
comma = do
  skip_spaces
  found ← matches (codes ",")
  either_of found (skip_whitespace >> pure true) (pure false)

-- The same where white space may stand before the comma, and is not skipped behind it.
unfoldable pub comma_anywhere : Parser Bool
comma_anywhere = skip_whitespace >> matches (codes ",")
