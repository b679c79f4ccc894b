-- ===== src/TypeCheck/Fields.antt =====
-- `get_field_type` and `get_iter_type` of typecheck.c: the type of a field, and of the items of a
-- loop. A type cached by its print (`table_entry_type`) is the type itself.
use blangc.Prelude.{
  ℕ, ◌+◌, Bool, true, false, ◌&&◌, ◌||◌, if◌then◌else◌, Option, none, some, ◌++◌, Bytes, codes,
  decimal, streq, str_eq,
}
use blangc.TypeCheck.{Checked, ok, compiler_err, fault, ◌>>=◌, Env, derive}
use blangc.Types.Cord.{type_eq}
use blangc.Types.Units.{with_units}
use blangc.Types.{
  SssType, Fields, Members, type_type, type_any, range_type, array_type, table_type, pointer_type,
  generator_type, struct_type, tagged_union_type, variant_type, end_fields, field, end_members,
  bare_member, member, base_variant, value_type, plain_int,
}

-- The name of field number `i`, which is made up where it has none.
unfoldable pub field_name : (name : Option Bytes) → (i : ℕ) → Bytes
field_name none i = codes "_" ++ decimal (i + 1)
field_name (some name) i = name

-- The first field of the name, from number `i` on.
unfoldable pub find_field : Fields → (i : ℕ) → Bytes → Option SssType
find_field end_fields i name = none
find_field (field n t fields) i name =
    let rest = find_field fields (i + 1) name in
    if str_eq (field_name n i) name then some t else rest

-- The first member of the name: its type, which is NULL for a member without a value.
unfoldable pub find_member : Members → Bytes → Option (Option SssType)
find_member end_members name = none
find_member (bare_member n tag_value members) name =
    let rest = find_member members name in if str_eq name n then some none else rest
find_member (member n tag_value has_names fields units members) name =
    let rest = find_member members name in
    if str_eq name n then some (some (struct_type has_names fields units)) else rest

-- The loop in front of the switch.
unfoldable pub strip : SssType → SssType
strip (pointer_type t is_optional is_stack is_readonly) = strip t
strip (variant_type name filename t) = strip t
strip t = t

-- What the switch finds: a type, NULL, or nothing, after which the class is looked up.
pub data Found : Type 0 where
  found : SssType → Found
  null : Found
  class_lookup : Found

unfoldable pub found_or_class : Option SssType → Found
found_or_class none = class_lookup
found_or_class (some t) = found t

unfoldable pub with_field_units : Env → Option Bytes → Option SssType → Checked Found
with_field_units env units none = ok class_lookup
with_field_units env none (some t) = ok (found t)
with_field_units env (some u) (some t) = do
  units ← derive env (some u)
  ok (found (with_units t units))

unfoldable pub member_found : Option (Option SssType) → Found
member_found none = class_lookup
member_found (some none) = null
member_found (some (some t)) = found t

-- `vecs.x` for an array of structs.
unfoldable pub item_field : SssType → Bytes → Checked Found
item_field (struct_type true fields units) name =
    ok (elim (find_field fields 0 name) [ none ↦ class_lookup | some t ↦ found (array_type t) ])
item_field (struct_type false fields units) name = fault
item_field _ name = ok class_lookup

unfoldable pub is_one_of : Bytes → Bytes → Bytes → Bytes → Bytes → Bool
is_one_of name a b c d = str_eq name a || str_eq name b || str_eq name c || str_eq name d

unfoldable pub table_field : (key_t value_t : SssType) → Bytes → Found
table_field key_t value_t name =
    if str_eq name (codes "length")
    then found plain_int
    else if str_eq name (codes "default")
    then found (pointer_type value_t true false true)
    else if str_eq name (codes "fallback")
    then found (pointer_type (table_type key_t value_t) true false true)
    else if str_eq name (codes "keys")
    then found (array_type key_t)
    else if str_eq name (codes "values")
    then found (array_type value_t)
    else class_lookup

-- The switch on the type without pointers and variants.
unfoldable pub own_field : Env → SssType → Bytes → Checked Found
unfolding with_field_units member_found item_field is_one_of table_field found_or_class
own_field env (struct_type true fields units) name =
    with_field_units env units (find_field fields 0 name)
own_field env (struct_type false fields units) name = fault
own_field env (tagged_union_type members bits) name = ok (member_found (find_member members name))
own_field env (type_type t) name = ok (found_or_class (env.members t name))
own_field env type_any name = fault
own_field env (array_type item_t) name =
    if str_eq name (codes "length")
    then ok (found plain_int)
    else item_field (base_variant item_t) name
own_field env range_type name = ok (
    if is_one_of name (codes "first") (codes "last") (codes "step") (codes "length")
    then found plain_int
    else class_lookup)
own_field env (table_type key_t value_t) name = ok (table_field key_t value_t name)
own_field env _ name = ok class_lookup

unfoldable pub method_of : Env → SssType → Bytes → Option SssType
method_of env (array_type t) name = env.methods (array_type t) name
method_of env (table_type k v) name = env.methods (table_type k v) name
method_of env t name = env.members t name

-- The loop under `class_lookup`; NULL at its end.
unfoldable pub class_field : Env → SssType → Bytes → Option SssType
unfolding method_of
class_field env (pointer_type t is_optional is_stack is_readonly) name =
    let rest = class_field env t name in
    elim (env.members (pointer_type t is_optional is_stack is_readonly) name) [
      | some f ↦ some f
      | none ↦ rest
    ]
class_field env (variant_type n filename t) name =
    let rest = class_field env t name in
    elim (env.members (variant_type n filename t) name) [ some f ↦ some f | none ↦ rest ]
class_field env t name = method_of env t name

unfoldable pub get_field_type : Env → SssType → Bytes → Checked (Option SssType)
get_field_type env t name = do
  result ← own_field env (strip t) name
  elim result [
    | found f ↦ ok (some f)
    | null ↦ ok none
    | class_lookup ↦ ok (class_field env t name)
  ]

-- A list of structs linked by a field `next`, with the struct's own type.
unfoldable pub has_next : SssType → Fields → Bool
has_next iter_t end_fields = false
has_next iter_t (field n t fields) =
    streq n (some (codes "next")) && type_eq t (pointer_type iter_t true false false)
    || has_next iter_t fields

unfoldable pub iterated : (iter_t base_t : SssType) → Checked SssType
iterated iter_t (array_type t) = ok t
iterated iter_t (table_type k v) = ok (
    struct_type true (field (some (codes "key")) k (field (some (codes "value")) v end_fields))
      none)
iterated iter_t range_type = ok plain_int
iterated iter_t (struct_type true fields units) =
    if has_next iter_t fields then ok (pointer_type iter_t false false false) else compiler_err
iterated iter_t (struct_type false fields units) = fault
iterated iter_t (generator_type t) = ok t
iterated iter_t t = compiler_err

-- `get_iter_type`, for the type of the expression.
unfoldable pub get_iter_type : SssType → Checked SssType
unfolding iterated has_next
get_iter_type t = iterated (value_type t) (base_variant (value_type t))
