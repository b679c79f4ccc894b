-- ===== src/Parser/Operators.antt =====
-- parse.c: the binary operators, and the order in which `parse_expr` binds them.
pub mod Precedence
pub mod Values
pub mod Merging
use blangc.Parser.{Context}
use blangc.Parser.Text.{after, member}
use blangc.Parser.Words.{match_word}
use blangc.Prelude.{
  ℕ, zero, suc, ◌+◌, ◌-◌, ◌==◌, Bool, true, false, not, ◌&&◌, ltb, if◌then◌else◌, Option, none,
  some, List, [], ◌∷◌, Bytes, codes, length, get_elem?,
}

-- The tags of the operators in `op_tightness`; `range_step` is the macro `RANGE_STEP`.
pub data Operator : Type 0 where
  power multiply divide modulus modulus1 add subtract concatenate left_shift right_shift : Operator
  min_op max_op mix range range_step cast greater greater_equal less less_equal : Operator
  in_ not_in equal not_equal and_ or_ xor : Operator

unfoldable pub op_tightness : Operator → ℕ
op_tightness power = 1
op_tightness multiply = 2
op_tightness divide = 2
op_tightness modulus = 2
op_tightness modulus1 = 2
op_tightness add = 3
op_tightness subtract = 3
op_tightness concatenate = 3
op_tightness left_shift = 4
op_tightness right_shift = 4
op_tightness min_op = 5
op_tightness max_op = 5
op_tightness mix = 5
op_tightness range = 6
op_tightness range_step = 7
op_tightness cast = 7
op_tightness greater = 8
op_tightness greater_equal = 8
op_tightness less = 8
op_tightness less_equal = 8
op_tightness in_ = 9
op_tightness not_in = 9
op_tightness equal = 10
op_tightness not_equal = 10
op_tightness and_ = 11
op_tightness or_ = 11
op_tightness xor = 11

-- An operator with the position behind it; `none` is `Unknown`, which may move the position.
abbrev pub Matched : Type 0
Matched = Option Operator × Bytes

abbrev pub then_one : Bytes → (one other : Operator) → Bytes → Matched
then_one target one other p = elim (after target p) [
  | none ↦ (some other, p)
  | some rest ↦ (some one, rest)
]

-- `equals`, and then a target for the other operator.
abbrev pub shifted : (target : Bytes) → (with_equals double single : Operator) → Bytes → Matched
shifted target with_equals double single p = elim (after (codes "=") p) [
  | none ↦ then_one target double single p
  | some rest ↦ (some with_equals, rest)
]

-- `looks like fn -5`
abbrev pub looks_negative : (before : Option ℕ) → Bytes → Bool
looks_negative before [] = elim before [ none ↦ false | some c ↦ c == 32 ]
looks_negative before (d ∷ p) = not (d == 32) && elim before [ none ↦ false | some c ↦ c == 32 ]

module _ (ctx : Context) where
  -- The tests of the words, in order, each from the same position.
  unfoldable pub match_operator_word : List (Bytes × Operator) → Bytes → Matched
  match_operator_word [] p = elim (after (codes "..") p) [
    | none ↦ (none, p)
    | some rest ↦ (some range, rest)
  ]
  match_operator_word ((word, op) ∷ words) p = elim (match_word ctx word p) [
    | none ↦ match_operator_word words p
    | some rest ↦ (some op, rest)
  ]

  abbrev pub operator_words : List (Bytes × Operator)
  operator_words =
      (codes "and", and_)
      ∷ (codes "or", or_)
      ∷ (codes "xor", xor)
      ∷ (codes "mod1", modulus1)
      ∷ (codes "mod", modulus)
      ∷ (codes "as", cast)
      ∷ (codes "by", range_step)
      ∷ (codes "not in", not_in)
      ∷ (codes "in", in_)
      ∷ (codes "_min_", min_op)
      ∷ (codes "_max_", max_op)
      ∷ (codes "_mix_", mix)
      ∷ []

  -- Where `==` stands before another `=`, the position has moved behind it.
  abbrev pub match_equals : Bytes → Matched
  match_equals p = elim (after (codes "!=") p) [
    | some rest ↦ (some not_equal, rest)
    | none ↦ elim (after (codes "==") p) [
      | none ↦ match_operator_word operator_words p
      | some rest ↦ elim (after (codes "=") rest) [
        | none ↦ (some equal, rest)
        | some after_third ↦ match_operator_word operator_words rest
      ]
    ]
  ]

  -- `(*pos)[-2]` behind the minus sign
  abbrev pub char_before : Bytes → Option ℕ
  char_before p =
      if ltb (length p) (length ctx.text)
      then get_elem? ctx.text (length ctx.text - length p - 1)
      else none

  unfoldable pub match_binary_operator : Bytes → Matched
  match_binary_operator [] = match_operator_word operator_words []
  match_binary_operator (c ∷ p) =
      if c == b'+'
      then then_one (codes "+") concatenate add p
      else if c == b'-'
      then (if looks_negative (char_before (c ∷ p)) p then (none, p) else (some subtract, p))
      else if c == b'*'
      then (some multiply, p)
      else if c == b'/'
      then (some divide, p)
      else if c == b'^'
      then (some power, p)
      else if c == b'<'
      then shifted (codes "<") less_equal left_shift less p
      else if c == b'>'
      then shifted (codes ">") greater_equal right_shift greater p
      else match_equals (c ∷ p)

-- An operator with its key and the term on its right: the lists `binops` and `minmax_keys`, and
-- `terms` but for its first item.
pub record Joined (K A : Type 0) : Type 0 where
  pub operator : Operator
  pub key : K
  pub term : A

module _ {K A : Type 0} where
  -- The loop that finds the operator that binds tightest, the first of these.
  unfoldable pub tightest_from : (tightness at i : ℕ) → List (Joined K A) → ℕ
  tightest_from tightness at i [] = at
  tightest_from tightness at i (j ∷ js) =
      if ltb (op_tightness j.operator) tightness
      then tightest_from (op_tightness j.operator) i (suc i) js
      else tightest_from tightness at (suc i) js

  unfoldable pub tightest_op : List (Joined K A) → ℕ
  tightest_op [] = 0
  tightest_op (j ∷ js) = tightest_from (op_tightness j.operator) 0 1 js

  module _ (merge : Operator → K → A → A → Option A) where
    abbrev kept : Joined K A → A → Option (A × List (Joined K A)) → Option (A × List (Joined K A))
    kept j first none = none
    kept j first (some (merged, js)) = some (first, record j { term = merged } ∷ js)

    -- The operator at a place binds the terms on both sides into one.
    unfoldable pub merge_at : (place : ℕ) → A → List (Joined K A) → Option (A × List (Joined K A))
    merge_at place first [] = some (first, [])
    merge_at zero first (j ∷ js) = elim (merge j.operator j.key first j.term) [
      | none ↦ none
      | some merged ↦ some (merged, js)
    ]
    merge_at (suc place) first (j ∷ js) = kept j first (merge_at place j.term js)

    -- The loop `while (LIST_LEN(terms) > 1)`; a round takes one operator away.
    unfoldable pub merge_rounds : (rounds : ℕ) → A → List (Joined K A) → Option A
    merge_rounds zero first js = some first
    merge_rounds (suc rounds) first js = elim (merge_at (tightest_op js) first js) [
      | none ↦ none
      | some (merged, rest) ↦ merge_rounds rounds merged rest
    ]

    unfoldable pub merge_terms : A → List (Joined K A) → Option A
    merge_terms first js = merge_rounds (length js) first js
