-- ===== src/Parser/TypeGrammar.antt =====
-- parse.c: types.
use blangc.Parser.{Context}
use blangc.Parser.Grammar.{Grammar, ast_or_null, expect_ast, optional_ast}
use blangc.Parser.Node.{
  Node, maybe, type_array, type_function, type_measure, type_pointer, type_struct, type_table,
  type_type_ast, var,
}
use blangc.Parser.Outcome.{Parser, ok, optionally, pure, with_option, ◌<|>◌, ◌>>=◌, ◌>>◌}
use blangc.Parser.Suffixes.{parse_field_suffix}
use blangc.Parser.Text.{
  between, expect_closing, matches, skip_spaces, skip_whitespace, some_not, token,
}
use blangc.Parser.Words.{identifier, word_token}
use blangc.Prelude.{Bool, Bytes, codes, false, true}
use blangc.Parser.Params.{parse_args}
use blangc.Parser.Enums.{parse_enum_type}

module _ (ctx : Context) (g : Grammar) where
  unfoldable pub parse_table_type : Parser Node
  parse_table_type = do
    token (codes "{")
    skip_whitespace
    key_type ← ast_or_null g.type_
    skip_whitespace
    token (codes "=>")
    value_type ← expect_ast g.type_
    skip_whitespace
    expect_closing (codes "}")
    pure (type_table key_type value_type)

  unfoldable pub parse_struct_type : Parser Node
  parse_struct_type = do
    token (codes "struct")
    skip_spaces
    token (codes "(")
    args ← parse_args ctx g false
    skip_whitespace
    expect_closing (codes ")")
    pure (type_struct args)

  unfoldable pub parse_func_type : Parser Node
  parse_func_type = do
    word_token ctx (codes "func")
    skip_spaces
    token (codes "(")
    args ← parse_args ctx g true
    expect_closing (codes ")")
    skip_spaces
    token (codes "->")
    ret ← optional_ast g.type_
    pure (type_function args (maybe ret))

  unfoldable pub parse_array_type : Parser Node
  parse_array_type = do
    token (codes "[")
    type ← expect_ast g.type_
    expect_closing (codes "]")
    pure (type_array type)

  -- Whether the pointer is optional, and whether it is a stack reference.
  unfoldable pub pointer_sign : Parser (Bool × Bool)
  pointer_sign =
      (token (codes "@") >> pure (false, false))
      <|> (token (codes "?") >> pure (true, false))
      <|> (token (codes "&") >> pure (false, true))

  unfoldable pub parse_pointer_type : Parser Node
  unfolding pointer_sign
  parse_pointer_type = do
    (is_optional, is_stack) ← pointer_sign
    skip_spaces
    is_readonly ← matches (codes "(read-only)")
    skip_spaces
    type ← expect_ast g.type_
    pure (type_pointer type is_optional is_stack is_readonly)

  unfoldable pub parse_type_type : Parser Node
  parse_type_type = do
    word_token ctx (codes "Type")
    skip_spaces
    token (codes "(")
    type ← expect_ast g.type_
    expect_closing (codes ")")
    pure (type_type_ast type)

  unfoldable pub parse_type_name : Parser Node
  parse_type_name = do
    id ← identifier ctx
    fielded ← optionally (parse_field_suffix ctx g (var id))
    with_option fielded (λ f. pure f) (pure (var id))

  unfoldable pub parse_group_type : Parser Node
  parse_group_type = do
    token (codes "(")
    skip_whitespace
    type ← ast_or_null g.type_
    skip_whitespace
    expect_closing (codes ")")
    pure type

  -- `get_units`
  unfoldable pub get_units : Parser Bytes
  get_units p = ok (between p (some_not (codes ">") p)) (some_not (codes ">") p)

  unfoldable pub measure_suffix : Node → Parser Node
  unfolding get_units
  measure_suffix type = do
    token (codes "<")
    units ← get_units
    expect_closing (codes ">")
    pure (type_measure type units)

  -- `_parse_type`
  unfoldable pub parse_type_node : Parser Node
  unfolding parse_args
  parse_type_node = do
    type ←
        parse_enum_type ctx g
        <|> parse_pointer_type
        <|> parse_type_type
        <|> parse_array_type
        <|> parse_table_type
        <|> parse_struct_type
        <|> parse_type_name
        <|> parse_func_type
        <|> parse_group_type
    measure ← optionally (measure_suffix type)
    with_option measure (λ m. pure m) (pure type)
