-- ===== src/Parser/Forward/Suffixes.antt =====
-- The positions that the parsers of suffixes of parse.c leave.
use blangc.Parser.{Context}
use blangc.Parser.Forward.{Forward, ends, fixed, here, pure-Forward}
use blangc.Parser.Forward.Grammar.{IsForward, ast_steps, comma-Forward}
use blangc.Parser.Forward.Literals.{parse_var-Forward}
use blangc.Parser.Grammar.{Grammar}
use blangc.Parser.Node.{Node, nothing}
use blangc.Parser.Suffixes.{
  closing_paren, condition, condition_word, declaration_or_expr, extern_return_type, infix_follows,
  keyword_argument, loop_variables, no_arguments, optional_suffix_condition, parse_field_suffix,
  parse_fncall_suffix, parse_index_suffix, parse_suffix_for, parse_suffix_while,
  parse_variant_suffix, some_arguments,
}
use blangc.Prelude.{Bool, false, true}

module _ (ctx : Context) (g g' : Grammar) (h : IsForward g g') where
  pub parse_index_suffix-Forward :
      (lhs : Node) → Forward (parse_index_suffix ctx g lhs) (parse_index_suffix ctx g' lhs)
  unfolding parse_index_suffix
  parse_index_suffix-Forward lhs = search ast_steps depth 60 fits 20000

  pub parse_variant_suffix-Forward :
      (lhs : Node) → Forward (parse_variant_suffix ctx g lhs) (parse_variant_suffix ctx g' lhs)
  unfolding parse_variant_suffix
  parse_variant_suffix-Forward lhs = search ast_steps depth 60 fits 20000

  pub parse_field_suffix-Forward :
      (lhs : Node) → Forward (parse_field_suffix ctx g lhs) (parse_field_suffix ctx g' lhs)
  unfolding parse_field_suffix
  parse_field_suffix-Forward lhs = search ast_steps depth 60 fits 20000

  infix_follows-Forward : Forward (infix_follows ctx g) (infix_follows ctx g')
  unfolding infix_follows
  infix_follows-Forward = fixed λ p. ends here

  keyword_argument-Forward : Forward (keyword_argument ctx g) (keyword_argument ctx g')
  unfolding keyword_argument
  keyword_argument-Forward = search ast_steps depth 60 fits 20000

  no_arguments-Forward : Forward (no_arguments ctx g) (no_arguments ctx g')
  unfolding no_arguments
  no_arguments-Forward = search ast_steps depth 60 fits 20000

  closing_paren-Forward : (b : Bool) → Forward (closing_paren ctx g b) (closing_paren ctx g' b)
  unfolding closing_paren
  closing_paren-Forward b = search ast_steps depth 60 fits 20000

  some_arguments-Forward :
      (needs_parens : Bool)
      → Forward (some_arguments ctx g needs_parens) (some_arguments ctx g' needs_parens)
  unfolding some_arguments
  some_arguments-Forward needs_parens =
      search
        (
          ast_steps, closing_paren-Forward, comma-Forward, infix_follows-Forward,
          keyword_argument-Forward,
        )
        depth 60 fits 20000

  extern_return_type-Forward :
      (is_extern : Bool)
      → Forward (extern_return_type ctx g is_extern) (extern_return_type ctx g' is_extern)
  unfolding extern_return_type
  extern_return_type-Forward false = pure-Forward nothing
  extern_return_type-Forward true = search (ast_steps) depth 60 fits 20000

  pub parse_fncall_suffix-Forward :
      (needs_parens is_extern : Bool) (lhs : Node)
      → Forward
          (parse_fncall_suffix ctx g needs_parens is_extern lhs)
          (parse_fncall_suffix ctx g' needs_parens is_extern lhs)
  unfolding parse_fncall_suffix
  parse_fncall_suffix-Forward needs_parens is_extern lhs =
      search (ast_steps, extern_return_type-Forward, no_arguments-Forward, some_arguments-Forward)
        depth 60 fits 20000

  condition_word-Forward : Forward (condition_word ctx g) (condition_word ctx g')
  unfolding condition_word
  condition_word-Forward = search ast_steps depth 60 fits 20000

  pub declaration_or_expr-Forward : Forward (declaration_or_expr ctx g) (declaration_or_expr ctx g')
  unfolding declaration_or_expr
  declaration_or_expr-Forward = search ast_steps depth 60 fits 20000

  condition-Forward :
      (ast else_ast : Node) (b : Bool)
      → Forward (condition ctx g ast else_ast b) (condition ctx g' ast else_ast b)
  unfolding condition
  condition-Forward ast else_ast b =
      search (ast_steps, declaration_or_expr-Forward) depth 60 fits 20000

  pub optional_suffix_condition-Forward :
      (ast else_ast : Node)
      → Forward
          (optional_suffix_condition ctx g ast else_ast)
          (optional_suffix_condition ctx g' ast else_ast)
  unfolding optional_suffix_condition
  optional_suffix_condition-Forward ast else_ast =
      search (ast_steps, condition-Forward, condition_word-Forward) depth 60 fits 20000

  pub loop_variables-Forward : Forward (loop_variables ctx g) (loop_variables ctx g')
  unfolding loop_variables
  loop_variables-Forward = search (ast_steps, parse_var-Forward) depth 60 fits 20000

  pub parse_suffix_for-Forward :
      (lhs : Node) → Forward (parse_suffix_for ctx g lhs) (parse_suffix_for ctx g' lhs)
  unfolding parse_suffix_for
  parse_suffix_for-Forward lhs =
      search (ast_steps, loop_variables-Forward, optional_suffix_condition-Forward) depth 60 fits
        20000

  pub parse_suffix_while-Forward :
      (lhs : Node) → Forward (parse_suffix_while ctx g lhs) (parse_suffix_while ctx g' lhs)
  unfolding parse_suffix_while
  parse_suffix_while-Forward lhs =
      search (ast_steps, optional_suffix_condition-Forward) depth 60 fits 20000
