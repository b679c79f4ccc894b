-- ===== src/TypeCheck/Rules.antt =====
-- The cases of `get_type` in typecheck.c that look at the types of a node's parts: the type of a
-- node by theirs.
use blangc.Prelude.{
  Bool, true, false, not, ◌&&◌, ◌||◌, ◌==◌, if◌then◌else◌, Option, none, some, Bytes, codes, streq,
}
use blangc.TypeCheck.Math.{MathOp, and_, or_, xor_, get_math_type, is_bool}
use blangc.TypeCheck.{Checked, ok, compiler_err, fault, ◌>>=◌, ◌>>◌, refuse, Env}
use blangc.Types.Cord.{type_eq}
use blangc.Types.Memory.{has_stack_memory}
use blangc.Types.Precision.{is_numeric, is_integral}
use blangc.Types.Relations.{type_or_type, type_is_a, is_abort, Joined, joined, null, generator_of}
use blangc.Types.Units.{type_units}
use blangc.Types.{
  SssType, Fields, tag, base_variant, bool_type, char_type, c_string_char_type, int_type,
  range_type, type_type, type_any, array_type, table_type, function_type, pointer_type,
  generator_type, struct_type, end_fields, field, variant_type,
}

unfoldable pub joined_type : Joined → Checked SssType
joined_type (joined t) = ok t
joined_type null = compiler_err
joined_type (generator_of j) = fault

-- `type_or_type(...)`, refused where there is no type or the units differ.
unfoldable pub join_units : (t u : SssType) → Checked SssType
unfolding joined_type
join_units t u = do
  merged ← joined_type (type_or_type (some t) (some u))
  refuse (not (streq (type_units t) (type_units u)))
  ok merged

-- The type of the items so far, with one more.
unfoldable pub merge_item : Option SssType → SssType → Checked SssType
merge_item none t = ok t
merge_item (some item_type) t = join_units item_type t

-- `while (t->tag == GeneratorType) t = generated;`
unfoldable pub strip_generators : SssType → SssType
strip_generators (generator_type t) = strip_generators t
strip_generators t = t

unfoldable pub generate : SssType → SssType
generate t = if tag t == 2 then t else generator_type t

-- Values that may not point into the stack.
unfoldable pub no_stack : SssType → Checked (Unit {0})
no_stack t = refuse (has_stack_memory t)

unfoldable pub heap_pointer : SssType → Checked SssType
unfolding no_stack
heap_pointer t = do no_stack t; ok (pointer_type t false false false)

unfoldable pub array_of : Option SssType → Checked SssType
unfolding no_stack
array_of none = fault
array_of (some t) = do no_stack t; ok (array_type t)

unfoldable pub table_of : (key_t value_t : Option SssType) → Checked SssType
table_of (some k) (some v) = do
  refuse (has_stack_memory k || has_stack_memory v)
  ok (table_type k v)
table_of k v = fault

-- The key and value types of an entry, which is a struct of two fields.
unfoldable pub entry_types : SssType → Checked (SssType × SssType)
entry_types (struct_type has_names (field n k (field n' v rest)) units) = ok (k, v)
entry_types t = fault

unfoldable pub entry_type : (key_t value_t : SssType) → SssType
entry_type k v =
    struct_type true (field (some (codes "key")) k (field (some (codes "value")) v end_fields)) none

-- Whether a pointer that is indexed or fielded is a stack pointer; other values are on the stack.
unfoldable pub reference_is_stack : SssType → Bool
reference_is_stack (pointer_type t is_optional is_stack is_readonly) = is_stack
reference_is_stack t = true

unfoldable pub is_union : SssType → Bool
is_union t = tag t == 17

unfoldable pub is_pointer : SssType → Bool
is_pointer t = tag t == 14

-- `and` of two pointers.
unfoldable pub and_pointers : (lhs_t rhs_t : SssType) → Checked SssType
and_pointers (pointer_type t t_optional t_stack t_readonly)
      (pointer_type u u_optional u_stack u_readonly) =
    if type_eq t u
    then ok (pointer_type t (t_optional || u_optional) false (t_readonly || u_readonly))
    else compiler_err
and_pointers t u = fault

unfoldable pub and_type : Env → (lhs_t rhs_t : SssType) → Checked SssType
unfolding is_union is_pointer
and_type env l r =
    if is_bool l && is_bool r || is_bool l && is_abort r || is_abort r
    then ok l
    else if is_union l && type_eq l r
    then ok l
    else if is_pointer l && is_pointer r
    then and_pointers l r
    else get_math_type env and_ l r

-- `or` with a pointer on the left.
unfoldable pub or_pointer : (lhs_t rhs_t : SssType) → Checked SssType
or_pointer (pointer_type t t_optional t_stack t_readonly)
      (pointer_type u u_optional u_stack u_readonly) =
    if type_eq u t
    then ok (pointer_type t (t_optional && u_optional) false (t_readonly || u_readonly))
    else compiler_err
or_pointer (pointer_type t t_optional t_stack t_readonly) u =
    if is_abort u then ok (pointer_type t false false t_readonly) else compiler_err
or_pointer t u = fault

unfoldable pub or_type : Env → (lhs_t rhs_t : SssType) → Checked SssType
unfolding is_union is_pointer join_units
or_type env l r =
    if is_bool l && is_bool r || is_bool l && is_abort r
    then ok l
    else if is_union l && type_eq l r
    then ok l
    else if is_integral l && is_integral r
    then join_units l r
    else if is_pointer l
    then or_pointer l r
    else get_math_type env or_ l r

unfoldable pub xor_type : Env → (lhs_t rhs_t : SssType) → Checked SssType
unfolding is_union join_units
xor_type env l r =
    if is_bool l && is_bool r
    then ok l
    else if is_union l && type_eq l r
    then ok l
    else if is_integral l && is_integral r
    then join_units l r
    else get_math_type env xor_ l r

unfoldable pub binary_type : Env → MathOp → (lhs_t rhs_t : SssType) → Checked SssType
binary_type env and_ l r = and_type env l r
binary_type env or_ l r = or_type env l r
binary_type env xor_ l r = xor_type env l r
binary_type env op l r = get_math_type env op l r

unfoldable pub concatenate_type : (lhs_t rhs_t : SssType) → Checked SssType
concatenate_type l r = do
  refuse (not (type_eq l r))
  refuse (not (tag (base_variant l) == 11))
  ok l

unfoldable pub equality_type : (lhs_t rhs_t : SssType) → Checked SssType
equality_type l r =
    if type_is_a l r || type_is_a r l
    then ok bool_type
    else if is_numeric l && is_numeric r
    then ok bool_type
    else compiler_err

-- An optional pointer, behind variants.
unfoldable pub is_optional_pointer : SssType → Bool
is_optional_pointer (pointer_type t is_optional is_stack is_readonly) = is_optional
is_optional_pointer t = false

unfoldable pub not_type : SssType → Checked SssType
not_type t =
    if is_union (base_variant t)
    then ok t
    else if is_bool (base_variant t) || is_integral t
    then ok t
    else if is_optional_pointer (base_variant t)
    then ok bool_type
    else compiler_err

unfoldable pub negative_type : SssType → Checked SssType
negative_type t = do refuse (not (is_numeric t)); ok t

-- `value[]` on a pointer.
unfoldable pub dereferenced : SssType → Option (Checked SssType)
dereferenced (pointer_type t is_optional is_stack is_readonly) =
    some (if is_optional then compiler_err else ok t)
dereferenced t = none

-- The type of an array indexed by a value.
unfoldable pub indexed_array : (array_t item_t index_t : SssType) → Checked SssType
indexed_array array_t item_t range_type = ok array_t
indexed_array array_t item_t (int_type units bits is_unsigned) = ok item_t
indexed_array array_t item_t char_type = ok item_t
indexed_array array_t item_t c_string_char_type = ok item_t
indexed_array array_t item_t index_t = compiler_err

unfoldable pub is_array : SssType → Bool
is_array t = tag t == 11

unfoldable pub is_range : SssType → Bool
is_range t = tag t == 10

-- The loop under `try_again`, with the type of the index.
unfoldable pub index_type : SssType → (index_t : Option SssType) → Checked SssType
unfolding indexed_array is_array is_range
index_type (array_type t) none = ok (array_type t)
index_type (array_type t) (some index_t) = indexed_array (array_type t) t index_t
index_type (table_type k v) index_t = ok v
index_type (pointer_type t is_optional is_stack is_readonly) index_t = index_type t index_t
index_type (variant_type name filename t) none =
    let rest = index_type t none in if is_array t then ok (variant_type name filename t) else rest
index_type (variant_type name filename t) (some index_t) =
    let rest = index_type t (some index_t) in
    if is_array t && is_range index_t then ok (variant_type name filename t) else rest
index_type t index_t = compiler_err

-- Whether the type of the index is asked for.
unfoldable pub needs_index : SssType → Bool
unfolding is_array
needs_index (array_type t) = true
needs_index (pointer_type t is_optional is_stack is_readonly) = needs_index t
needs_index (variant_type name filename t) =
    let rest = needs_index t in if is_array t then true else rest
needs_index t = false

unfoldable pub called_type : Env → SssType → Checked SssType
called_type env (function_type n d args ret) = ok ret
called_type env (type_type t) =
    ok (elim (env.members t (codes "new")) [ some (function_type n d args ret) ↦ ret | _ ↦ t ])
called_type env type_any = fault
called_type env t = compiler_err

-- `do` with an `else`, with a label, and without.
unfoldable pub do_type :
    SssType → (label : Option Bytes) → (else_t : Option SssType) → Checked SssType
do_type t label (some else_t) = join_units t else_t
do_type t (some label) none = ok (generate t)
do_type t none none = ok t

-- One more case of an `if`.
unfoldable pub merge_case : Option SssType → SssType → Checked SssType
unfolding joined_type
merge_case none t = joined_type (type_or_type none (some t))
merge_case (some t) case_t = join_units t case_t

-- The struct whose fields `using` makes known.
unfoldable pub used_fields : SssType → Checked (Bool × Fields)
used_fields (pointer_type t is_optional is_stack is_readonly) =
    let rest = used_fields t in if is_optional then compiler_err else rest
used_fields (variant_type name filename t) = used_fields t
used_fields (struct_type has_names fields units) = ok (has_names, fields)
used_fields t = compiler_err
