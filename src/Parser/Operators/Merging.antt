-- ===== src/Parser/Operators/Merging.antt =====
-- The loop of `parse_expr` of parse.c that binds terms, against its specification.
use mathlib.Core.List.{append-nil}
use blangc.Parser.Operators.{Operator, Joined, tightest_op, merge_terms}
use blangc.Parser.Operators.Precedence.{
  Tree, leaf, Row, first_term, other_terms, IsPrecedence, TighterThan, evaluate, rest_of, Chain,
  grown_at, grown, tightest_op-IsTightest, grown_at-terms, grown_at-length, grown_at-Chain,
  Chain-IsPrecedence,
}
use blangc.Parser.Operators.Values.{Values, merge_rounds-grown}
use blangc.Prelude.{
  ℕ, zero, suc, ◌≡◌, refl, ap, ◌∙◌, sym, Option, List, [], ◌∷◌, ◌++◌, length, arith,
}

module _ {K A : Type 0} where
  -- The trees of the terms themselves.
  unfoldable leaves : List (Joined K A) → Row K A
  leaves [] = []
  leaves (j ∷ js) = record { operator = j.operator; key = j.key; term = leaf j.term } ∷ leaves js

  -- The specification: a tree over the same terms and operators in the same order, in which each
  -- operator binds what it has to.
  pub record Groups (first : A) (js : List (Joined K A)) (t : Tree K A) : Type 0 where
    pub same_first : first_term t ≡ first
    pub same_others : other_terms t ≡ js
    pub precedence : IsPrecedence t

  length-leaves : (js : List (Joined K A)) → length (leaves js) ≡ length js
  unfolding leaves
  length-leaves [] = refl
  length-leaves (j ∷ js) = ap suc (length-leaves js)

  rest_of-leaves : (js : List (Joined K A)) → rest_of (leaves js) ≡ js
  unfolding leaves rest_of first_term other_terms
  rest_of-leaves [] = refl
  rest_of-leaves (j ∷ js) = rw (rest_of-leaves js) refl

  leaves-Chain : (a : A) (js : List (Joined K A)) → Chain (leaf a) (leaves js)
  unfolding leaves Chain IsPrecedence TighterThan
  leaves-Chain a [] = tt
  leaves-Chain a (j ∷ js) = (tt, tt, tt, leaves-Chain j.term js)

  -- The rounds give a tree over the same terms, with the tightest operators innermost.
  grown-Groups :
      (rounds : ℕ) (t : Tree K A) (js : Row K A)
      → length js ≡ rounds
      → Chain t js
      → Groups (first_term t) (other_terms t ++ rest_of js) (grown rounds t js)
  unfolding grown rest_of
  grown-Groups zero t [] h chain = record {
    same_first = refl;
    same_others = sym (append-nil (other_terms t));
    precedence = Chain-IsPrecedence t [] chain;
  }
  grown-Groups zero t (j ∷ js) h chain = cc
  grown-Groups (suc rounds) t [] h chain = cc
  grown-Groups (suc rounds) t (j ∷ js) h chain =
      let place = tightest_op (j ∷ js) in
      let (c, tightest) = tightest_op-IsTightest j js in
      let (first, others) = grown_at-terms place t (j ∷ js) in
      let (u, rest) = grown_at place t (j ∷ js) in
      let groups =
        grown-Groups rounds u rest (omega (arith, h, grown_at-length place c t (j ∷ js) tightest))
          (grown_at-Chain place c t (j ∷ js) tightest chain) in
      record {
        same_first = groups.same_first ∙ first;
        same_others = groups.same_others ∙ others;
        precedence = groups.precedence;
      }

  module _ (merge : Operator → K → A → A → Option A) where
    leaves-Values : (a : A) (js : List (Joined K A)) → Values merge (leaf a) (leaves js) a js
    unfolding leaves Values evaluate
    leaves-Values a [] = refl
    leaves-Values a (j ∷ js) = (refl, refl, refl, leaves-Values j.term js)

    -- The terms and operators of an expression are grouped into the tree that keeps their order and
    -- in which an operator has only tighter operators on its right, and tighter or equally tight
    -- ones on its left; the result is the value of that tree, an error where a merge in it is one.
    pub merge_terms-Groups :
        (first : A) (js : List (Joined K A))
        → (t : Tree K A) × Groups first js t × (merge_terms merge first js ≡ evaluate merge t)
    unfolding merge_terms first_term other_terms
    merge_terms-Groups first js =
        let rounds = length js in
        let same = length-leaves js in
        let groups = grown-Groups rounds (leaf first) (leaves js) same (leaves-Chain first js) in
        (
          grown rounds (leaf first) (leaves js),
          record {
            same_first = groups.same_first;
            same_others = groups.same_others ∙ rest_of-leaves js;
            precedence = groups.precedence;
          },
          merge_rounds-grown merge rounds (leaf first) (leaves js) first js same
              (leaves-Values first js),
        )
