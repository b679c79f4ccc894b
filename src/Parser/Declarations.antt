-- ===== src/Parser/Declarations.antt =====
-- parse.c: declarations, updates, assignments, imports and linker directives.
use blangc.Parser.{Context}
use blangc.Parser.Grammar.{Grammar, ast_or_null, comma, expect_ast, optional_ast}
use blangc.Parser.Literals.{parse_var}
use blangc.Parser.Node.{
  Node, Update, add_update, and_update, assign, concatenate_update, declare, divide_update,
  linker_directive, multiply_update, nodes, or_update, predeclare, subtract_update, update, use_,
  xor_update,
}
use blangc.Parser.Outcome.{
  Parser, Step, either_of, error_if, failed, is_empty, items, null_if, ok, optionally,
  out_of_rounds, pure, required, rounds, ◌<|>◌, ◌>>=◌, ◌>>◌,
}
use blangc.Parser.Quoted.{scanned_not}
use blangc.Parser.Text.{matches, peek, skip_spaces, token}
use blangc.Parser.Words.{word_token}
use blangc.Prelude.{Bytes, List, Option, [], codes, none, some, suc, true, zero, ℕ, ◌==◌, ◌||◌, ◌∷◌}

unfoldable pub update_sign : Parser Update
update_sign =
    (token (codes "+=") >> pure add_update)
    <|> (token (codes "++=") >> pure concatenate_update)
    <|> (token (codes "-=") >> pure subtract_update)
    <|> (token (codes "*=") >> pure multiply_update)
    <|> (token (codes "/=") >> pure divide_update)
    <|> (token (codes "and=") >> pure and_update)
    <|> (token (codes "or=") >> pure or_update)
    <|> (token (codes "xor=") >> pure xor_update)

unfoldable pub resolved : Option Bytes → Parser Bytes
resolved none p = failed
resolved (some path) p = ok path p

unfoldable pub semicolons : (fuel : ℕ) → Step
semicolons zero = out_of_rounds
semicolons (suc fuel) = do found ← matches (codes ";"); either_of found (semicolons fuel) (pure tt)

unfoldable pub directive : Parser Bytes
unfolding scanned_not
directive = do
  skip_spaces
  text ← scanned_not (32 ∷ 9 ∷ 13 ∷ 10 ∷ 59 ∷ [])
  null_if (is_empty text)
  pure text

unfoldable pub directives : Parser (List Bytes)
unfolding directive
directives = items (optionally directive) (pure true)

module _ (ctx : Context) (g : Grammar) where
  unfoldable pub parse_predeclaration : Parser Node
  parse_predeclaration = do
    var ← parse_var ctx
    skip_spaces
    token (codes ":")
    c ← peek
    null_if (c == b'=' || c == b':')
    skip_spaces
    type ← expect_ast g.type_
    pure (predeclare var type)

  unfoldable pub parse_use : Parser Node
  unfolding semicolons resolved
  parse_use = do
    word_token ctx (codes "use")
    skip_spaces
    path ← scanned_not (32 ∷ 9 ∷ 13 ∷ 10 ∷ 59 ∷ [])
    error_if (is_empty path)
    full ← resolved (ctx.resolve_path path)
    rounds semicolons
    pure (use_ full)

  unfoldable pub parse_declaration : Parser Node
  unfolding parse_use
  parse_declaration = do
    var ← parse_var ctx
    skip_spaces
    token (codes ":=")
    skip_spaces
    value ← required (ast_or_null parse_use <|> ast_or_null g.extended_expr)
    pure (declare var value)

  unfoldable pub parse_update : Parser Node
  unfolding update_sign
  parse_update = do
    lhs ← ast_or_null g.expr
    skip_spaces
    tag ← update_sign
    rhs ← expect_ast g.extended_expr
    pure (update tag lhs rhs)

  unfoldable pub parse_assignment : Parser Node
  parse_assignment = do
    targets ← items (optional_ast g.term) comma
    null_if (is_empty targets)
    skip_spaces
    token (codes "=")
    c ← peek
    null_if (c == b'=')
    values ← items (optional_ast g.extended_expr) comma
    pure (assign (nodes targets) (nodes values))

  unfoldable pub parse_linker : Parser Node
  unfolding directives
  parse_linker = do word_token ctx (codes "!link"); list ← directives; pure (linker_directive list)
