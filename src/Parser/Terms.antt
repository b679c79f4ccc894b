-- ===== src/Parser/Terms.antt =====
-- parse.c: terms.
use blangc.Parser.{Context}
use blangc.Parser.Grammar.{Grammar, ast_or_null, expect_ast, optional_ast}
use blangc.Parser.Literals.{parse_bool, parse_char, parse_int, parse_num, parse_var, parse_wildcard}
use blangc.Parser.Node.{
  MaybeNode, Node, Unary, binary, bitcast, extern_, fail_, for_, heap_allocate, just, lambda, maybe,
  negative, nil_, not_, nothing, pass, range_, reduction, return_, size_of, skip_, stack_reference,
  stop_, type_of, unary, unnamed_var, var,
}
use blangc.Parser.Operators.{Matched, Operator, match_binary_operator, max_op, min_op, mix, range}
use blangc.Parser.Outcome.{
  Parser, Result, either_of, null_if, ok, optionally, pure, required, suffixes, with_option, ◌<|>◌,
  ◌>>=◌, ◌>>◌,
}
use blangc.Parser.Quoted.{parse_parens, parse_string}
use blangc.Parser.Suffixes.{
  optional_suffix_condition, parse_field_suffix, parse_fncall_suffix, parse_index_suffix,
  parse_variant_suffix,
}
use blangc.Parser.Text.{
  expect_closing, here, matches, peek, position, skip_spaces, skip_whitespace, token,
}
use blangc.Parser.Words.{identifier, is_xid_continue_next, matches_word, word_token}
use blangc.Parser.Escapes.{is_alpha}
use blangc.Parser.Params.{parse_args}
use blangc.Parser.Containers.{parse_array, parse_struct, parse_table}
use blangc.Prelude.{Bytes, Option, codes, false, none, some, true, ◌&&◌, ◌==◌}

-- The node of an operator. The fields of a range stand where the others have their terms and key.
abbrev pub operator_node : Operator → Node → Node → MaybeNode → Node
operator_node range lhs rhs key = range_ (just lhs) (just rhs) key
operator_node op lhs rhs key = binary op lhs rhs key

abbrev operator_result : Matched → Result (Option Operator)
operator_result (op, rest) = ok op rest

module _ (ctx : Context) where
  unfoldable pub binary_operator : Parser (Option Operator)
  binary_operator p = operator_result (match_binary_operator ctx p)

  -- `parse_unary`, by whether the prefix is a word.
  unfoldable pub parse_unary : Unary → (prefix : Bytes) → Parser Node → Parser Node
  parse_unary tag prefix value = do
    token prefix
    rest ← position
    null_if (is_alpha (here prefix) && is_xid_continue_next ctx rest)
    skip_whitespace
    v ← value
    pure (unary tag v)

module _ (ctx : Context) (g : Grammar) where
  -- The suffixes of a `_min_` or `_max_`, where there are any, are its key.
  unfoldable pub key_suffix : Node → Parser Node
  key_suffix key =
      parse_index_suffix ctx g key
      <|> parse_field_suffix ctx g key
      <|> parse_fncall_suffix ctx g true false key

  unfoldable pub longer_key : Node → Parser MaybeNode
  unfolding key_suffix
  longer_key key = do
    first ← optionally (key_suffix key)
    with_option first (λ k. suffixes key_suffix k >>= λ all. pure (just all)) (pure nothing)

  -- The key of an operator, here for `_mix_`.
  unfoldable pub mix_key : Parser MaybeNode
  mix_key = do key ← expect_ast g.expr; required (word_token ctx (codes "of")); pure (just key)

  unfoldable pub operator_key : Operator → Parser MaybeNode
  unfolding longer_key mix_key
  operator_key min_op = longer_key (var (codes "_min_"))
  operator_key max_op = longer_key (var (codes "_max_"))
  operator_key mix = mix_key
  operator_key op = pure nothing

  unfoldable pub parse_ellipsis : Parser Node
  parse_ellipsis = do
    token (codes "..")
    last ← optional_ast g.term
    pure (range_ nothing (maybe last) nothing)

  -- The operator `Unknown` may have moved the position.
  unfoldable pub combination : Option Operator → Parser Node
  unfolding operator_key
  combination none = expect_ast g.extended_expr
  combination (some op) = do
    key ← operator_key op
    pure (operator_node op (var (codes "x")) (var (codes "y")) key)

  unfoldable pub parse_reduction : Parser Node
  unfolding combination binary_operator
  parse_reduction = do
    token (codes "|")
    skip_spaces
    op ← binary_operator ctx
    combined ← combination op
    skip_spaces
    expect_closing (codes "|")
    iter ← ast_or_null g.extended_expr
    has_else ← matches_word ctx (codes "else")
    fallback ← either_of has_else (optional_ast g.extended_expr) (pure none)
    pure (reduction iter combined (maybe fallback))

  unfoldable pub parse_splat : Parser Node
  parse_splat = do
    token (codes "++")
    item ← ast_or_null g.expr
    pure (for_ nothing (var (codes "item")) item nothing (var (codes "item")) nothing nothing)

  unfoldable pub parse_nil : Parser Node
  parse_nil = do token (codes "!"); type ← g.type_; pure (nil_ type)

  unfoldable pub parse_lambda : Parser Node
  parse_lambda = do
    word_token ctx (codes "func")
    skip_spaces
    token (codes "(")
    args ← parse_args ctx g false
    skip_spaces
    expect_closing (codes ")")
    body ← optional_ast g.opt_indented_block
    pure (lambda args (maybe body))

  -- The loop that a `skip` or `stop` names.
  unfoldable pub jump_target : Parser (Option Bytes)
  jump_target = do
    skip_spaces
    optionally (
        (word_token ctx (codes "for") >> pure (codes "for"))
        <|> (word_token ctx (codes "while") >> pure (codes "while"))
        <|> (word_token ctx (codes "repeat") >> pure (codes "repeat"))
        <|> identifier ctx)

  unfoldable pub parse_skip : Parser Node
  unfolding jump_target
  parse_skip = do
    word_token ctx (codes "skip")
    target ← jump_target
    optional_suffix_condition ctx g (skip_ target) pass

  unfoldable pub parse_stop : Parser Node
  unfolding jump_target
  parse_stop = do
    word_token ctx (codes "stop")
    target ← jump_target
    optional_suffix_condition ctx g (stop_ target) pass

  unfoldable pub parse_return : Parser Node
  parse_return = do
    word_token ctx (codes "return")
    skip_spaces
    value ← optional_ast g.expr
    with_option value (λ v. pure (return_ (just v)))
        (optional_suffix_condition ctx g (return_ nothing) pass)

  unfoldable pub parse_fail : Parser Node
  parse_fail = do
    word_token ctx (codes "fail")
    msg ← optionally g.term
    optional_suffix_condition ctx g (fail_ (maybe msg)) pass

  unfoldable pub parse_bitcast : Parser Node
  parse_bitcast = do
    word_token ctx (codes "bitcast")
    value ← expect_ast g.term
    required (word_token ctx (codes "as"))
    type ← expect_ast g.type_
    pure (bitcast value type)

  abbrev named_var : Option Bytes → Node
  named_var none = unnamed_var
  named_var (some name) = var name

  unfoldable pub parse_extern : Parser Node
  parse_extern = do
    word_token ctx (codes "extern")
    skip_spaces
    address ← matches (codes "&")
    name ← optionally (identifier ctx)
    skip_spaces
    c ← peek
    either_of (c == b'(') (parse_fncall_suffix ctx g true true (named_var name)) (do
      required (token (codes ":"))
      type ← expect_ast g.type_
      pure (extern_ name type address))

  unfoldable pub parse_term_no_suffix : Parser Node
  unfolding parse_array parse_table parse_struct parse_reduction parse_skip parse_stop parse_unary
  parse_term_no_suffix =
      skip_spaces
      >> (parse_nil
          <|> parse_ellipsis
          <|> parse_num ctx
          <|> parse_int ctx
          <|> parse_unary ctx negative (codes "-") g.term
          <|> parse_unary ctx heap_allocate (codes "@") g.term
          <|> parse_wildcard ctx
          <|> parse_unary ctx stack_reference (codes "&") g.term
          <|> parse_splat
          <|> parse_bool ctx
          <|> parse_char
          <|> parse_string g
          <|> parse_lambda
          <|> parse_parens g
          <|> parse_table ctx g
          <|> parse_struct ctx g
          <|> parse_var ctx
          <|> parse_array ctx g
          <|> parse_reduction
          <|> parse_fail
          <|> parse_skip
          <|> parse_stop
          <|> parse_return
          <|> parse_bitcast
          <|> parse_unary ctx type_of (codes "typeof") g.expr
          <|> parse_unary ctx size_of (codes "sizeof") g.expr
          <|> parse_unary ctx not_ (codes "not") g.expr
          <|> parse_extern)

  unfoldable pub term_suffix : Node → Parser Node
  term_suffix term =
      parse_index_suffix ctx g term
      <|> parse_variant_suffix ctx g term
      <|> parse_field_suffix ctx g term
      <|> parse_fncall_suffix ctx g true false term

  unfoldable pub parse_term : Parser Node
  unfolding parse_term_no_suffix term_suffix
  parse_term = parse_term_no_suffix >>= suffixes term_suffix
