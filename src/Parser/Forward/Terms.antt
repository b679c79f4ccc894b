-- ===== src/Parser/Forward/Terms.antt =====
-- The positions that the parsers of terms of parse.c leave.
use blangc.Parser.{Context}
use blangc.Parser.Forward.{Forward, ends, fixed, pure-Forward}
use blangc.Parser.Forward.Containers.{
  parse_array-Forward, parse_struct-Forward, parse_table-Forward,
}
use blangc.Parser.Forward.Grammar.{IsForward, ast_steps}
use blangc.Parser.Forward.Literals.{
  parse_bool-Forward, parse_char-Forward, parse_int-Forward, parse_num-Forward, parse_var-Forward,
  parse_wildcard-Forward,
}
use blangc.Parser.Forward.Operators.{match_binary_operator-IsSuffix}
use blangc.Parser.Forward.Params.{parse_args-Forward}
use blangc.Parser.Forward.Quoted.{parse_parens-Forward, parse_string-Forward}
use blangc.Parser.Forward.Suffixes.{
  optional_suffix_condition-Forward, parse_field_suffix-Forward, parse_fncall_suffix-Forward,
  parse_index_suffix-Forward, parse_variant_suffix-Forward,
}
use blangc.Parser.Grammar.{Grammar}
use blangc.Parser.Node.{Node, Unary, nothing, var}
use blangc.Parser.Operators.{Operator, max_op, min_op, mix}
use blangc.Parser.Outcome.{Parser}
use blangc.Parser.Terms.{
  binary_operator, combination, jump_target, key_suffix, longer_key, mix_key, operator_key,
  parse_bitcast, parse_ellipsis, parse_extern, parse_fail, parse_lambda, parse_nil, parse_reduction,
  parse_return, parse_skip, parse_splat, parse_stop, parse_term, parse_term_no_suffix, parse_unary,
  term_suffix,
}
use blangc.Prelude.{Bytes, Option, codes, none, some}

module _ (ctx : Context) where
  pub binary_operator-Forward : Forward (binary_operator ctx) (binary_operator ctx)
  unfolding binary_operator
  binary_operator-Forward = fixed λ p. ends (match_binary_operator-IsSuffix ctx p)

module _ (ctx : Context) where
  parse_unary-Forward :
      (tag : Unary) (prefix : Bytes) {value value' : Parser Node}
      → Forward value value'
      → Forward (parse_unary ctx tag prefix value) (parse_unary ctx tag prefix value')
  unfolding parse_unary
  parse_unary-Forward tag prefix h = search ast_steps depth 60 fits 20000

module _ (ctx : Context) (g g' : Grammar) (h : IsForward g g') where
  key_suffix-Forward : (lhs : Node) → Forward (key_suffix ctx g lhs) (key_suffix ctx g' lhs)
  unfolding key_suffix
  key_suffix-Forward lhs =
      search
        (
          ast_steps, parse_field_suffix-Forward, parse_fncall_suffix-Forward,
          parse_index_suffix-Forward,
        )
        depth 60 fits 20000

  longer_key-Forward : (lhs : Node) → Forward (longer_key ctx g lhs) (longer_key ctx g' lhs)
  unfolding longer_key
  longer_key-Forward lhs = search (ast_steps, key_suffix-Forward) depth 60 fits 20000

  mix_key-Forward : Forward (mix_key ctx g) (mix_key ctx g')
  unfolding mix_key
  mix_key-Forward = search ast_steps depth 60 fits 20000

  pub operator_key-Forward :
      (op : Operator) → Forward (operator_key ctx g op) (operator_key ctx g' op)
  unfolding operator_key
  operator_key-Forward min_op = longer_key-Forward (var (codes "_min_"))
  operator_key-Forward max_op = longer_key-Forward (var (codes "_max_"))
  operator_key-Forward mix = mix_key-Forward
  operator_key-Forward _ = pure-Forward nothing

  parse_ellipsis-Forward : Forward (parse_ellipsis ctx g) (parse_ellipsis ctx g')
  unfolding parse_ellipsis
  parse_ellipsis-Forward = search ast_steps depth 60 fits 20000

  combination-Forward : (o : Option Operator) → Forward (combination ctx g o) (combination ctx g' o)
  unfolding combination
  combination-Forward none = search ast_steps
  combination-Forward (some op) = search (ast_steps, operator_key-Forward) depth 60 fits 20000

  parse_reduction-Forward : Forward (parse_reduction ctx g) (parse_reduction ctx g')
  unfolding parse_reduction
  parse_reduction-Forward =
      search (ast_steps, binary_operator-Forward, combination-Forward) depth 60 fits 20000

  parse_splat-Forward : Forward (parse_splat ctx g) (parse_splat ctx g')
  unfolding parse_splat
  parse_splat-Forward = search ast_steps depth 60 fits 20000

  parse_nil-Forward : Forward (parse_nil ctx g) (parse_nil ctx g')
  unfolding parse_nil
  parse_nil-Forward = search ast_steps depth 60 fits 20000

  parse_lambda-Forward : Forward (parse_lambda ctx g) (parse_lambda ctx g')
  unfolding parse_lambda
  parse_lambda-Forward = search (ast_steps, parse_args-Forward) depth 60 fits 20000

  jump_target-Forward : Forward (jump_target ctx g) (jump_target ctx g')
  unfolding jump_target
  jump_target-Forward = search ast_steps depth 60 fits 20000

  parse_skip-Forward : Forward (parse_skip ctx g) (parse_skip ctx g')
  unfolding parse_skip
  parse_skip-Forward =
      search (ast_steps, jump_target-Forward, optional_suffix_condition-Forward) depth 60 fits 20000

  parse_stop-Forward : Forward (parse_stop ctx g) (parse_stop ctx g')
  unfolding parse_stop
  parse_stop-Forward =
      search (ast_steps, jump_target-Forward, optional_suffix_condition-Forward) depth 60 fits 20000

  parse_return-Forward : Forward (parse_return ctx g) (parse_return ctx g')
  unfolding parse_return
  parse_return-Forward = search (ast_steps, optional_suffix_condition-Forward) depth 60 fits 20000

  parse_fail-Forward : Forward (parse_fail ctx g) (parse_fail ctx g')
  unfolding parse_fail
  parse_fail-Forward = search (ast_steps, optional_suffix_condition-Forward) depth 60 fits 20000

  parse_bitcast-Forward : Forward (parse_bitcast ctx g) (parse_bitcast ctx g')
  unfolding parse_bitcast
  parse_bitcast-Forward = search ast_steps depth 60 fits 20000

  parse_extern-Forward : Forward (parse_extern ctx g) (parse_extern ctx g')
  unfolding parse_extern
  parse_extern-Forward = search (ast_steps, parse_fncall_suffix-Forward) depth 60 fits 20000

  pub parse_term_no_suffix-Forward :
      Forward (parse_term_no_suffix ctx g) (parse_term_no_suffix ctx g')
  unfolding parse_term_no_suffix
  parse_term_no_suffix-Forward =
      search
        (
          ast_steps, parse_unary-Forward, parse_array-Forward, parse_bitcast-Forward,
          parse_bool-Forward, parse_char-Forward, parse_ellipsis-Forward, parse_extern-Forward,
          parse_fail-Forward, parse_int-Forward, parse_lambda-Forward, parse_nil-Forward,
          parse_num-Forward, parse_parens-Forward, parse_reduction-Forward, parse_return-Forward,
          parse_skip-Forward, parse_splat-Forward, parse_stop-Forward, parse_string-Forward,
          parse_struct-Forward, parse_table-Forward, parse_var-Forward, parse_wildcard-Forward,
        )
        depth 60 fits 20000

  term_suffix-Forward : (lhs : Node) → Forward (term_suffix ctx g lhs) (term_suffix ctx g' lhs)
  unfolding term_suffix
  term_suffix-Forward lhs =
      search
        (
          ast_steps, parse_field_suffix-Forward, parse_fncall_suffix-Forward,
          parse_index_suffix-Forward, parse_variant_suffix-Forward,
        )
        depth 60 fits 20000

  pub parse_term-Forward : Forward (parse_term ctx g) (parse_term ctx g')
  unfolding parse_term
  parse_term-Forward =
      search (ast_steps, parse_term_no_suffix-Forward, term_suffix-Forward) depth 60 fits 20000
