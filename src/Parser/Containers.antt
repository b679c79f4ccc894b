-- ===== src/Parser/Containers.antt =====
-- parse.c: arrays, tables and structs.
use blangc.Parser.{Context}
use blangc.Parser.Grammar.{Grammar, ast_or_null, comma_anywhere, expect_ast, optional_ast}
use blangc.Parser.Literals.{match_units}
use blangc.Parser.Node.{
  MaybeNode, Node, array_, just, keyword_arg, maybe, nodes, nothing, skip_, struct_, table_,
  table_entry,
}
use blangc.Parser.Outcome.{
  Parser, either_of, error_if, is_empty, is_some, items, null_if, optionally, out_of_rounds, pure,
  required, rounds, suffixes, with_option, ◌<|>◌, ◌>>=◌, ◌>>◌,
}
use blangc.Parser.Suffixes.{
  optional_suffix_condition, parse_field_suffix, parse_fncall_suffix, parse_index_suffix,
  parse_suffix_for, parse_suffix_while,
}
use blangc.Parser.Text.{expect_closing, matches, skip_spaces, skip_whitespace, token}
use blangc.Parser.Words.{identifier}
use blangc.Parser.TypeGrammar.{parse_type_name}
use blangc.Prelude.{Bool, Bytes, Option, codes, false, none, not, some, suc, true, zero, ℕ, ◌&&◌}

module _ (ctx : Context) (g : Grammar) where
  unfoldable pub array_item : Parser (Option Node)
  array_item = do
    skip_whitespace
    item ← optional_ast g.extended_expr
    with_option item (λ i. optional_suffix_condition ctx g i (skip_ none) >>= λ j. pure (some j))
        (pure none)

  unfoldable pub colon_type : Parser (Option Node)
  colon_type = do
    colon ← matches (codes ":")
    either_of colon (skip_whitespace >> expect_ast g.type_ >>= λ t. pure (some t)) (pure none)

  unfoldable pub parse_array : Parser Node
  unfolding array_item colon_type
  parse_array = do
    token (codes "[")
    skip_whitespace
    item_type ← colon_type
    list ← items array_item comma_anywhere
    skip_whitespace
    expect_closing (codes "]")
    error_if (is_empty list && not (is_some item_type))
    pure (array_ (maybe item_type) (nodes list))

  unfoldable pub table_types : Parser (MaybeNode × MaybeNode)
  table_types = do
    key_type ← expect_ast g.type_
    skip_whitespace
    required (token (codes "=>"))
    value_type ← expect_ast g.type_
    pure (just key_type, just value_type)

  unfoldable pub entry_suffix : Node → Parser Node
  entry_suffix entry =
      parse_index_suffix ctx g entry
      <|> parse_field_suffix ctx g entry
      <|> parse_suffix_for ctx g entry
      <|> parse_suffix_while ctx g entry
      <|> parse_fncall_suffix ctx g true false entry

  -- The condition is looked for behind the value, so that it is not there where a suffix is.
  unfoldable pub suffixed_entry : Node → Parser Node
  unfolding entry_suffix
  suffixed_entry entry = do
    first ← optionally (entry_suffix entry)
    with_option first (suffixes entry_suffix) (optional_suffix_condition ctx g entry (skip_ none))

  unfoldable pub table_item : Parser (Option Node)
  unfolding suffixed_entry
  table_item = do
    skip_whitespace
    key ← optional_ast g.extended_expr
    with_option key
        (λ k. do
          skip_whitespace
          token (codes "=>")
          value ← expect_ast g.expr
          entry ← suffixed_entry (table_entry k value)
          pure (some entry))
        (pure none)

  -- One of the values behind the entries, which may be given once.
  unfoldable pub attribute : (name : Bytes) → Option Node → Parser (Option Node)
  attribute name known = do
    token name
    skip_whitespace
    required (token (codes "="))
    error_if (is_some known)
    value ← expect_ast g.expr
    pure (some value)

  unfoldable pub attributes :
      (fuel : ℕ) → (fallback default : Option Node) → Parser (Option Node × Option Node)
  unfolding attribute
  attributes zero fallback default = out_of_rounds
  attributes (suc fuel) fallback default = do
    skip_whitespace
    values ← optionally (
        (attribute (codes "fallback") fallback >>= λ f. pure (f, default))
        <|> (attribute (codes "default") default >>= λ d. pure (fallback, d)))
    with_option values
        (λ (f, d). do
          skip_whitespace
          more ← matches (codes ";")
          either_of more (attributes fuel f d) (pure (f, d)))
        (pure (fallback, default))

  abbrev pub has_type : MaybeNode → Bool
  has_type nothing = false
  has_type (just t) = true

  unfoldable pub parse_table : Parser Node
  unfolding table_types table_item attributes
  parse_table = do
    token (codes "{")
    skip_whitespace
    colon ← matches (codes ":")
    (key_type, value_type) ←
        either_of colon (skip_whitespace >> table_types) (pure (nothing, nothing))
    entries ← items table_item comma_anywhere
    null_if (not (has_type key_type) && not (has_type value_type) && is_empty entries)
    skip_whitespace
    semicolon ← matches (codes ";")
    (fallback, default) ←
        either_of semicolon (rounds λ fuel. attributes fuel none none) (pure (none, none))
    skip_whitespace
    expect_closing (codes "}")
    pure (table_ key_type value_type (nodes entries) (maybe fallback) (maybe default))

  unfoldable pub named_member : Parser Node
  named_member = do
    name ← identifier ctx
    skip_whitespace
    token (codes "=")
    skip_whitespace
    value ← expect_ast g.expr
    pure (keyword_arg (some name) value)

  unfoldable pub struct_member : Parser (Option Node)
  unfolding named_member
  struct_member =
      skip_whitespace
      >> optionally
          (named_member <|> (ast_or_null g.expr >>= λ value. pure (keyword_arg none value)))

  -- The comma behind a member may be left out.
  unfoldable pub optional_comma : Parser Bool
  optional_comma = do skip_whitespace; found ← matches (codes ","); pure true

  unfoldable pub parse_struct : Parser Node
  unfolding struct_member optional_comma
  parse_struct = do
    type ← optional_ast (parse_type_name ctx g)
    skip_spaces
    token (codes "{")
    members ← items struct_member optional_comma
    skip_whitespace
    expect_closing (codes "}")
    units ← match_units ctx
    pure (struct_ (maybe type) (nodes members) units)
