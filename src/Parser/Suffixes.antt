-- ===== src/Parser/Suffixes.antt =====
-- parse.c: what may follow a term or a statement. Each parser begins at the end of the node on its
-- left.
use blangc.Parser.{Context}
use blangc.Parser.Grammar.{Grammar, expect_ast, optional_ast, comma}
use blangc.Parser.Literals.{parse_var}
use blangc.Parser.Node.{
  Node, MaybeNode, nothing, just, maybe, nodes, var, bool_, wildcard, index, field_access, variant,
  function_call, keyword_arg, for_, while_, if_, Cases, case_, end_cases, skip_,
}
use blangc.Parser.Operators.{char_before}
use blangc.Parser.Outcome.{
  is_empty, is_some, ok, Parser, pure, ◌>>=◌, ◌>>◌, ◌<|>◌, optionally, required, either_of,
  with_option, null_if, items,
}
use blangc.Parser.Text.{
  here, spaces, skip_spaces, skip_whitespace, matches, token, peek, expect_closing,
}
use blangc.Parser.Words.{match_word, get_id, identifier, matches_word, expect_word, word_token}
use blangc.Prelude.{
  Bool, true, false, not, ◌&&◌, ◌||◌, ◌==◌, if◌then◌else◌, none, some, List, [], ◌∷◌, Bytes, codes,
}

module _ (ctx : Context) (g : Grammar) where
  unfoldable pub parse_index_suffix : Node → Parser Node
  parse_index_suffix lhs = do
    token (codes "[")
    i ← optional_ast g.extended_expr
    skip_spaces
    semicolon ← matches (codes ";")
    unchecked ←
        either_of semicolon (skip_spaces >> matches_word ctx (codes "unchecked")) (pure false)
    expect_closing (codes "]")
    pure (index lhs (maybe i) unchecked)

  unfoldable pub parse_variant_suffix : Node → Parser Node
  parse_variant_suffix lhs = do
    token (codes "::")
    obj ← expect_ast g.term_no_suffix
    pure (variant lhs obj)

  unfoldable pub parse_field_suffix : Node → Parser Node
  parse_field_suffix lhs = do
    skip_whitespace
    token (codes ".")
    c ← peek
    null_if (c == b'.')
    skip_whitespace
    dollar ← matches (codes "$")
    field ← identifier ctx
    pure (field_access lhs (if dollar then b'$' ∷ field else field))

  abbrev space_before : Bytes → Bool
  space_before p = elim (char_before ctx p) [ none ↦ false | some c ↦ c == 32 ]

  -- The `switch` on the character behind the name and the spaces: an infix operator follows.
  unfoldable pub is_infix : Bytes → Bool
  is_infix [] = false
  is_infix (c ∷ p) =
      c == b'.'
      || c == b'<'
      || c == b'>'
      || c == b'='
      || c == b':'
      || c == b'!'
      || c == b'+'
      || c == b'*'
      || c == b'/'
      || c == b'^'
      || (c == b'-' && not (space_before (c ∷ p) && not (here p == 32)))
      || is_some (match_word ctx (codes "and") (c ∷ p))
      || is_some (match_word ctx (codes "or") (c ∷ p))
      || is_some (match_word ctx (codes "xor") (c ∷ p))
      || is_some (match_word ctx (codes "mod") (c ∷ p))
      || is_some (match_word ctx (codes "mod1") (c ∷ p))

  abbrev behind_name : Bytes → Bytes
  behind_name p = elim (get_id ctx p) [ none ↦ p | some (name, rest) ↦ rest ]

  unfoldable pub infix_follows : Parser Bool
  unfolding is_infix
  infix_follows p = ok (is_infix (spaces (behind_name p))) p

  -- `name=value`
  unfoldable pub keyword_argument : Parser Node
  keyword_argument = do
    name ← identifier ctx
    skip_spaces
    token (codes "=")
    skip_spaces
    value ← required g.expr
    pure (keyword_arg (some name) value)

  unfoldable pub no_arguments : Parser (List Node)
  no_arguments = do token (codes "("); skip_spaces; token (codes ")"); pure []

  unfoldable pub closing_paren : Bool → Parser Bool
  closing_paren needs_parens = do
    skip_spaces
    either_of needs_parens (required (token (codes ")")) >> pure true) (pure true)

  -- The arguments, at least one; without parentheses, no operator may follow.
  unfoldable pub some_arguments : (needs_parens : Bool) → Parser (List Node)
  unfolding keyword_argument closing_paren infix_follows
  some_arguments needs_parens = do
    brace ← peek
    null_if (brace == b'{')
    paren ← matches (codes "(")
    null_if (needs_parens && not paren)
    either_of paren skip_whitespace (pure tt)
    skip_spaces
    operator ← either_of (needs_parens || paren) (pure false) infix_follows
    null_if operator
    args ← items (skip_spaces >> optionally (keyword_argument <|> g.expr)) comma
    closed ← closing_paren (needs_parens || paren)
    null_if (is_empty args)
    pure args

  unfoldable pub extern_return_type : (is_extern : Bool) → Parser MaybeNode
  extern_return_type false = pure nothing
  extern_return_type true = do
    colon ← matches (codes ":")
    either_of colon (expect_ast g.type_ >>= λ t. pure (just t)) (pure (just (var (codes "Void"))))

  unfoldable pub parse_fncall_suffix : (needs_parens is_extern : Bool) → Node → Parser Node
  unfolding no_arguments some_arguments extern_return_type
  parse_fncall_suffix needs_parens is_extern fn = do
    args ← no_arguments <|> some_arguments needs_parens
    return_type ← extern_return_type is_extern
    pure (function_call fn (nodes args) return_type)

  -- `if` or `unless`
  unfoldable pub condition_word : Parser Bool
  condition_word =
      (word_token ctx (codes "if") >> pure false) <|> (word_token ctx (codes "unless") >> pure true)

  unfoldable pub declaration_or_expr : Parser Node
  declaration_or_expr = do
    subject ← optional_ast g.declaration
    with_option subject (λ s. pure s) (expect_ast g.expr)

  abbrev two_cases : (p a q b : Node) → Cases
  two_cases p a q b = case_ p a (case_ q b end_cases)

  abbrev pattern_cases : (is_unless : Bool) → (pattern ast else_ast : Node) → Cases
  pattern_cases true pattern ast else_ast = two_cases pattern else_ast (wildcard none) ast
  pattern_cases false pattern ast else_ast = two_cases pattern ast (wildcard none) else_ast

  unfoldable pub condition : (ast else_ast : Node) → Bool → Parser Node
  unfolding declaration_or_expr
  condition ast else_ast is_unless = do
    subject ← declaration_or_expr
    has_pattern ← matches_word ctx (codes "matches")
    either_of has_pattern
        (do
          pattern ← expect_ast g.expr
          pure (if_ subject (pattern_cases is_unless pattern ast else_ast)))
        (pure (if_ subject (two_cases (bool_ (not is_unless)) ast (bool_ is_unless) else_ast)))

  unfoldable pub optional_suffix_condition : (ast else_ast : Node) → Parser Node
  unfolding condition condition_word
  optional_suffix_condition ast else_ast = do
    word ← optionally condition_word
    with_option word (condition ast else_ast) (pure ast)

  -- `index, value in`, where the index is optional.
  unfoldable pub loop_variables : Parser (MaybeNode × Node)
  loop_variables = do
    first ← expect_ast (parse_var ctx)
    skip_spaces
    has_value ← matches (codes ",")
    variables ←
        either_of has_value (expect_ast (parse_var ctx) >>= λ value. pure (just first, value))
          (pure (nothing, first))
    expect_word ctx (codes "in")
    pure variables

  unfoldable pub parse_suffix_for : Node → Parser Node
  unfolding loop_variables
  parse_suffix_for body = do
    word_token ctx (codes "for")
    (key, value) ← loop_variables
    iter ← expect_ast g.expr
    filtered ← optional_suffix_condition body (skip_ none)
    pure (for_ key value iter nothing filtered nothing nothing)

  unfoldable pub parse_suffix_while : Node → Parser Node
  parse_suffix_while body = do
    word_token ctx (codes "while")
    cond ← expect_ast g.expr
    filtered ← optional_suffix_condition body (skip_ none)
    pure (while_ cond filtered nothing)
