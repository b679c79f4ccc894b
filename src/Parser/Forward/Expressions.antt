-- ===== src/Parser/Forward/Expressions.antt =====
-- The positions that the parsers of expressions of parse.c leave.
use blangc.Parser.{Context}
use blangc.Parser.Expressions.{
  Following, continued, following_operator, following_term, joined, no_rhs, open_range, or_error,
  parse_expr, parse_extended_expr, rhs_of, term_loop,
}
use blangc.Parser.Forward.{
  Forward, ends, error, fixed, here, null-Forward, out_of_rounds-Forward, pure-Forward,
}
use blangc.Parser.Forward.Containers.{entry_suffix-Forward}
use blangc.Parser.Forward.Control.{parse_control-Forward}
use blangc.Parser.Forward.Grammar.{IsForward, ast_steps}
use blangc.Parser.Forward.Suffixes.{parse_fncall_suffix-Forward}
use blangc.Parser.Forward.Terms.{binary_operator-Forward, operator_key-Forward}
use blangc.Parser.Grammar.{Grammar}
use blangc.Parser.Node.{MaybeNode, Node}
use blangc.Parser.Operators.{Joined, Operator, cast, range}
use blangc.Parser.Outcome.{Parser}
use blangc.Prelude.{List, Option, none, some, suc, zero, ℕ}

or_error-Forward : (o : Option Node) → Forward (or_error o) (or_error o)
unfolding or_error
or_error-Forward none = fixed λ p. error
or_error-Forward (some a) = fixed λ p. ends here

module _ (ctx : Context) (g g' : Grammar) (h : IsForward g g') where
  no_rhs-Forward : (op : Operator) → Forward (no_rhs ctx g op) (no_rhs ctx g' op)
  unfolding no_rhs
  no_rhs-Forward range = pure-Forward open_range
  no_rhs-Forward _ = null-Forward

  rhs_of-Forward : (op : Operator) → Forward (rhs_of ctx g op) (rhs_of ctx g' op)
  unfolding rhs_of
  rhs_of-Forward cast = h.type_
  rhs_of-Forward _ = h.term

  following_operator-Forward :
      (op : Operator) → Forward (following_operator ctx g op) (following_operator ctx g' op)
  unfolding following_operator
  following_operator-Forward op =
      search (ast_steps, no_rhs-Forward, operator_key-Forward, rhs_of-Forward) depth 60 fits 20000

  following_term-Forward : Forward (following_term ctx g) (following_term ctx g')
  unfolding following_term
  following_term-Forward =
      search (ast_steps, binary_operator-Forward, following_operator-Forward) depth 60 fits 20000

  continued-Forward :
      (term : Node) (following : Following)
      {loop loop' : Node → Parser (Node × List (Joined MaybeNode Node))}
      → ((next : Node) → Forward (loop next) (loop' next))
      → Forward (continued ctx g term following loop) (continued ctx g' term following loop')
  unfolding continued
  continued-Forward term open_range k = k _
  continued-Forward term (joined op key rhs) k = search ast_steps depth 60 fits 20000

  term_loop-Forward :
      (fuel : ℕ) (lhs : Node) → Forward (term_loop ctx g fuel lhs) (term_loop ctx g' fuel lhs)
  unfolding term_loop
  term_loop-Forward zero lhs = out_of_rounds-Forward
  term_loop-Forward (suc fuel) lhs =
      let rest = term_loop-Forward fuel in
      search (continued-Forward, ast_steps, following_term-Forward) depth 60 fits 20000

  pub parse_expr-Forward : Forward (parse_expr ctx g) (parse_expr ctx g')
  unfolding parse_expr
  parse_expr-Forward = search (ast_steps, or_error-Forward, term_loop-Forward) depth 60 fits 20000

  pub parse_extended_expr-Forward : Forward (parse_extended_expr ctx g) (parse_extended_expr ctx g')
  unfolding parse_extended_expr
  parse_extended_expr-Forward =
      search (ast_steps, entry_suffix-Forward, parse_control-Forward, parse_fncall_suffix-Forward)
        depth 60 fits 20000
