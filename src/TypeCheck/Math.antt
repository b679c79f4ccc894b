-- ===== src/TypeCheck/Math.antt =====
-- `get_math_type` of typecheck.c: the type of an arithmetic operation.
use blangc.Measures.{unit_string_mul, unit_string_div}
use blangc.Prelude.{
  Bool, true, false, not, ◌&&◌, ◌||◌, ◌==◌, ltb, if◌then◌else◌, Option, none, some, Bytes, codes,
  streq, length,
}
use blangc.TypeCheck.{Checked, ok, compiler_err, fault, ◌>>=◌, ◌>>◌, refuse, or_fault, Env, derive}
use blangc.Types.Cord.{type_eq}
use blangc.Types.Precision.{is_numeric, compare_precision, equal, more, less, incomparable}
use blangc.Types.Relations.{type_or_type, Joined, joined, null, generator_of}
use blangc.Types.Units.{type_units, with_units}
use blangc.Types.{SssType, tag, base_variant, value_type}

-- The operators that the function knows, and the other tags.
pub data MathOp : Type 0 where
  add subtract and_ or_ xor_ multiply divide power modulus modulus1 left_shift right_shift
        other_op :
      MathOp

unfoldable pub is_logical : MathOp → Bool
is_logical and_ = true
is_logical or_ = true
is_logical xor_ = true
is_logical _ = false

unfoldable pub is_multiply : MathOp → Bool
is_multiply multiply = true
is_multiply _ = false

unfoldable pub is_divide : MathOp → Bool
is_divide divide = true
is_divide _ = false

-- `u && strlen(u) > 0`
unfoldable pub has_units : Option Bytes → Bool
has_units none = false
has_units (some u) = ltb 0 (length u)

-- The units of operands with the same units, with units multiplied, without units on the right.
unfoldable pub same_units : (u1 u2 : Option Bytes) → Checked (Option Bytes)
same_units u1 u2 = do refuse (not (streq u1 u2)); ok u1

unfoldable pub left_units : (u1 u2 : Option Bytes) → Checked (Option Bytes)
left_units u1 u2 = do refuse (has_units u2); ok u1

-- The units of the result.
unfoldable pub math_units : Env → MathOp → (u1 u2 : Option Bytes) → Checked (Option Bytes)
unfolding same_units left_units has_units
math_units env add u1 u2 = same_units u1 u2
math_units env subtract u1 u2 = same_units u1 u2
math_units env and_ u1 u2 = same_units u1 u2
math_units env or_ u1 u2 = same_units u1 u2
math_units env xor_ u1 u2 = same_units u1 u2
math_units env divide u1 u2 = or_fault (unit_string_div env.scan env.qsort u1 u2)
math_units env multiply u1 u2 = or_fault (unit_string_mul env.scan env.qsort u1 u2)
math_units env power u1 u2 = do refuse (has_units u1); refuse (has_units u2); ok none
math_units env modulus u1 u2 = left_units u1 u2
math_units env modulus1 u1 u2 = left_units u1 u2
math_units env left_shift u1 u2 = left_units u1 u2
math_units env right_shift u1 u2 = left_units u1 u2
math_units env other_op u1 u2 = compiler_err

unfoldable pub is_variant : SssType → Bool
is_variant t = tag t == 19

-- A struct or an array, behind variants.
unfoldable pub is_compound : SssType → Bool
is_compound t = tag (base_variant t) == 16 || tag (base_variant t) == 11

unfoldable pub is_bool : SssType → Bool
is_bool t = tag t == 4

unfoldable pub at_least : SssType → SssType → Bool
at_least a b = elim (compare_precision a b) [
  | equal ↦ true
  | more ↦ true
  | less ↦ false
  | incomparable ↦ false
]

-- NULL, or the type with its units. A generator of no type is no type that `with_units` could take.
unfoldable pub numeric_result : Joined → Option Bytes → Checked SssType
numeric_result (joined t) units = ok (with_units t units)
numeric_result null units = compiler_err
numeric_result (generator_of j) units = fault

-- Two numeric operands of different types.
unfoldable pub numeric_type : MathOp → (lhs_t rhs_t : SssType) → Option Bytes → Checked SssType
unfolding is_variant is_multiply is_divide at_least numeric_result
numeric_type op lhs_t rhs_t units =
    if is_variant lhs_t && is_variant rhs_t
    then compiler_err
    else if is_variant lhs_t && (is_multiply op || is_divide op) && at_least lhs_t rhs_t
    then ok (with_units lhs_t units)
    else if is_variant rhs_t && is_multiply op && at_least rhs_t lhs_t
    then ok (with_units rhs_t units)
    else numeric_result (type_or_type (some lhs_t) (some rhs_t)) units

-- `if (streq(units, "%")) units = NULL;`
unfoldable pub no_percent : Option Bytes → Option Bytes
no_percent units = if streq units (some (codes "%")) then none else units

-- The tests on the two operands, with the units known.
unfoldable pub operand_type : MathOp → (lhs_t rhs_t : SssType) → Option Bytes → Checked SssType
unfolding is_compound is_bool no_percent is_logical
operand_type op lhs_t rhs_t units =
    if type_eq (with_units lhs_t none) (with_units rhs_t none)
    then ok (with_units lhs_t units)
    else if is_numeric lhs_t && is_numeric rhs_t
    then numeric_type op lhs_t rhs_t units
    else if is_numeric lhs_t && is_compound rhs_t
    then ok (with_units rhs_t (no_percent units))
    else if is_numeric rhs_t && is_compound lhs_t
    then ok (with_units lhs_t (no_percent units))
    else if is_bool lhs_t && is_compound rhs_t && is_logical op
    then ok rhs_t
    else if is_bool rhs_t && is_compound lhs_t && is_logical op
    then ok lhs_t
    else compiler_err

unfoldable pub get_math_type : Env → MathOp → (lhs_t rhs_t : SssType) → Checked SssType
get_math_type env op lhs_t rhs_t = do
  u1 ← derive env (type_units (value_type lhs_t))
  u2 ← derive env (type_units (value_type rhs_t))
  units ← math_units env op u1 u2
  operand_type op (value_type lhs_t) (value_type rhs_t) units
