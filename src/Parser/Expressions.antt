-- ===== src/Parser/Expressions.antt =====
-- parse.c: expressions, and expressions with control flow and suffixes.
use blangc.Parser.{Context}
use blangc.Parser.Control.{parse_control}
use blangc.Parser.Grammar.{Grammar}
use blangc.Parser.Node.{Node, MaybeNode, nothing, just, range_}
use blangc.Parser.Operators.{Operator, Joined, merge_terms, range, range_step, cast}
use blangc.Parser.Outcome.{
  ok, failed, Parser, pure, null, ◌>>=◌, ◌>>◌, ◌<|>◌, optionally, either_of, with_option, rounds,
  out_of_rounds, suffixes,
}
use blangc.Parser.Suffixes.{parse_fncall_suffix}
use blangc.Parser.Terms.{operator_node, binary_operator, operator_key}
use blangc.Parser.Containers.{entry_suffix}
use blangc.Parser.Text.{skip_spaces, skip_whitespace}
use blangc.Prelude.{ℕ, zero, suc, Bool, true, false, Option, none, some, List, [], ◌∷◌}

-- A round of the loop of `parse_expr`: an operator with its term, or a range without an end.
pub data Following : Type 0 where
  open_range : Following
  joined : Operator → MaybeNode → Node → Following

abbrev is_range : Operator → Bool
is_range range = true
is_range op = false

-- The merge of two terms, which may be an error: `by` needs a range.
abbrev pub bind_step : (lhs rhs : Node) → Option Node
bind_step (range_ first last step) rhs = some (range_ first last (just rhs))
bind_step lhs rhs = none

unfoldable pub merge_nodes : Operator → MaybeNode → Node → Node → Option Node
merge_nodes range_step key lhs rhs = bind_step lhs rhs
merge_nodes op key lhs rhs = some (operator_node op lhs rhs key)

unfoldable pub or_error : Option Node → Parser Node
or_error none p = failed
or_error (some a) p = ok a p

abbrev join :
    Operator
    → MaybeNode
    → Node
    → Node × List (Joined MaybeNode Node)
    → Node × List (Joined MaybeNode Node)
join op key first (term, js) = (first, record { operator = op; key = key; term = term } ∷ js)

module _ (ctx : Context) (g : Grammar) where
  unfoldable pub no_rhs : Operator → Parser Following
  no_rhs range = pure open_range
  no_rhs op = null

  unfoldable pub rhs_of : Operator → Parser Node
  rhs_of cast = g.type_
  rhs_of op = g.term

  unfoldable pub following_operator : Operator → Parser Following
  unfolding no_rhs rhs_of
  following_operator op = do
    key ← operator_key ctx g op
    either_of (is_range op) skip_spaces skip_whitespace
    rhs ← optionally (rhs_of op)
    with_option rhs (λ r. pure (joined op key r)) (no_rhs op)

  unfoldable pub following_term : Parser Following
  unfolding following_operator
  following_term = do skip_spaces; op ← binary_operator ctx; with_option op following_operator null

  -- The rest of a round of the loop, with the next rounds.
  unfoldable pub continued :
      Node
      → Following
      → (Node → Parser (Node × List (Joined MaybeNode Node)))
      → Parser (Node × List (Joined MaybeNode Node))
  continued term open_range loop = loop (range_ (just term) nothing nothing)
  continued term (joined op key rhs) loop = loop rhs >>= λ rest. pure (join op key term rest)

  -- The terms from the one at hand on, with the operators between them.
  unfoldable pub term_loop : (fuel : ℕ) → Node → Parser (Node × List (Joined MaybeNode Node))
  unfolding following_term continued
  term_loop zero term = out_of_rounds
  term_loop (suc fuel) term = do
    following ← optionally following_term
    with_option following (λ f. continued term f (λ next. term_loop fuel next)) (pure (term, []))

  unfoldable pub parse_expr : Parser Node
  unfolding term_loop merge_nodes or_error
  parse_expr = do
    term ← g.term
    (first, js) ← rounds λ fuel. term_loop fuel term
    or_error (merge_terms merge_nodes first js)

  unfoldable pub parse_extended_expr : Parser Node
  parse_extended_expr =
      skip_spaces
      >> (parse_control ctx g
          <|> ((g.term >>= parse_fncall_suffix ctx g true false) <|> g.expr <|> g.term
              >>= suffixes (entry_suffix ctx g)))
