-- ===== src/Types/Promote.antt =====
-- `can_promote` of types.c: whether a value of the first type may stand where the second is
-- needed.
pub mod Pointers
use blangc.Prelude.{
  ℕ, suc, Bool, true, false, not, ◌&&◌, ◌||◌, ◌==◌, Option, none, some, streq, if◌then◌else◌,
}
use blangc.Types.Cord.{type_eq}
use blangc.Types.Precision.{is_numeric, compare_precision, equal, less}
use blangc.Types.Units.{type_units}
use blangc.Types.{
  SssType, Args, Fields, base_variant, memory_type, char_type, c_string_char_type, array_type,
  function_type, pointer_type, struct_type, end_args, arg, end_fields, field,
}

is_memory : SssType → Bool
is_memory memory_type = true
is_memory _ = false

-- The case of two pointer types: `none` where one of them is none.
unfoldable pub promote_pointer : SssType → SssType → Option Bool
unfolding is_memory
promote_pointer (pointer_type a a_optional a_stack a_readonly)
      (pointer_type n n_optional n_stack n_readonly) =
    some (
      if not (is_memory n) && not (type_eq n a)
      then false
      else if a_stack && not n_stack
      then false
      else if a_optional && not n_optional
      then false
      else if a_readonly && not n_readonly
      then false
      else true)
promote_pointer _ _ = none

args_len : Args → ℕ
args_len end_args = 0
args_len (arg name t default rest) = suc (args_len rest)

-- The loop over two argument lists of one length.
args_eq : Args → Args → Bool
args_eq (arg name t default rest) (arg name' t' default' rest') =
    if type_eq t t' then args_eq rest rest' else false
args_eq _ _ = true

unfoldable pub promote_function : SssType → SssType → Option Bool
unfolding args_len args_eq
promote_function (function_type an ad a_args a_ret) (function_type nn nd n_args n_ret) = some (
    if not (args_len n_args == args_len a_args) || not (type_eq n_ret a_ret)
    then false
    else args_eq a_args n_args)
promote_function _ _ = none

abbrev pub c_string_type : SssType
c_string_type = pointer_type c_string_char_type false false false

abbrev pub str_type : SssType
str_type = array_type char_type

-- The numeric case.
unfoldable pub promote_numeric : SssType → SssType → Bool
promote_numeric a n = elim (compare_precision a n) [ equal ↦ true | less ↦ true | _ ↦ false ]

-- The function up to its last case; `none` where that is reached.
unfoldable pub promote_early : SssType → SssType → Option Bool
promote_early a n =
    if type_eq a n
    then some true
    else if not (streq (type_units a) (type_units n))
    then some false
    else if is_numeric a && is_numeric n
    then some (promote_numeric a n)
    else elim (promote_pointer a n) [
      | some r ↦ some r
      | none ↦ elim (promote_function a n) [
        | some r ↦ some r
        | none ↦
            if type_eq a c_string_type && type_eq n str_type
            then some true
            else if type_eq a str_type && type_eq n c_string_type
            then some true
            else none
      ]
    ]

pub fields_len : Fields → ℕ
fields_len end_fields = 0
fields_len (field name t rest) = suc (fields_len rest)

struct_fields : SssType → Option Fields
struct_fields (struct_type has_names fields units) = some fields
struct_fields _ = none

unfoldable mutual
  unfolding fields_len struct_fields

  pub can_promote : SssType → SssType → Bool
  can_promote (struct_type has_names fields units) n =
      elim (promote_early (struct_type has_names fields units) n) [
        | some r ↦ r
        | none ↦ elim (struct_fields (base_variant n)) [
          | none ↦ false
          | some n_fields ↦
              if fields_len fields == fields_len n_fields
              then promote_fields fields n_fields
              else false
        ]
      ]
  can_promote a n = elim (promote_early a n) [ some r ↦ r | none ↦ false ]

  -- The loop over two field lists of one length.
  pub promote_fields : Fields → Fields → Bool
  promote_fields (field name t rest) (field name' t' rest') =
      if can_promote t t' then promote_fields rest rest' else false
  promote_fields _ _ = true
