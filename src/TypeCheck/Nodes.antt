-- ===== src/TypeCheck/Nodes.antt =====
-- The types of single nodes for `get_type` and `parse_type_ast` of typecheck.c: types by name, struct
-- types, literals, blocks, patterns and `using`, with `get_ast_binding` of environment.c.
use blangc.Arguments.{bind_arguments, Bound, bound, unknown_name, out_of_range}
use blangc.Prelude.{
  ℕ, Bool, true, false, not, ◌||◌, ◌==◌, if◌then◌else◌, Option, none, some, List, Bytes,
}
use blangc.TypeCheck.Fields.{get_field_type}
use blangc.TypeCheck.Patterns.{member_fields, field_names, is_definition}
use blangc.TypeCheck.Rules.{no_stack, needs_index, index_type}
use blangc.TypeCheck.Syntax.{
  Ast, var, field_access, declare, update, function_def, type_def, Asts, end, cons, argument_names,
}
use blangc.TypeCheck.{
  Checked, ok, compiler_err, fault, outside, ◌>>=◌, ◌>>◌, refuse, or_err, or_fault, Env,
  get_binding, bind, derive,
}
use blangc.Types.Promote.{can_promote}
use blangc.Types.Units.{type_units, with_units}
use blangc.Types.{
  SssType, Args, Fields, tag, int_type, num_type, type_type, type_any, array_type, pointer_type,
  struct_type, tagged_union_type, module_type, end_args, arg, end_fields, field, generator_type,
}

unfoldable pub or_outside : {A : Type 0} → Option A → Checked A
or_outside none = outside
or_outside (some a) = ok a

-- The type that a binding names, which is NULL for a `TypeType` of no type.
unfoldable pub named_type : SssType → Checked (Option SssType)
named_type (type_type t) = ok (some t)
named_type type_any = ok none
named_type (module_type path) = ok (some (module_type path))
named_type t = compiler_err

unfoldable pub member_type : Option SssType → Checked (Option SssType)
member_type (some (type_type t)) = ok (some t)
member_type (some type_any) = ok none
member_type t = compiler_err

unfoldable pub precision_type :
    (precision : ℕ) (is_unsigned : Bool) → Option Bytes → Checked SssType
precision_type n is_unsigned units =
    if n == 64 || n == 32 || n == 16 || n == 8
    then ok (int_type units n is_unsigned)
    else compiler_err

unfoldable pub num_precision_type : (precision : ℕ) → Option Bytes → Checked SssType
num_precision_type n units = if n == 64 || n == 32 then ok (num_type units n) else compiler_err

unfoldable pub bound_member : Env → SssType → Bytes → Checked SssType
bound_member env (type_type t) name = or_err (env.members t name)
bound_member env type_any name = fault
bound_member env t name = or_err (env.members t name)

-- `get_ast_binding` of environment.c: the type of the binding.
unfoldable pub get_ast_binding : Env → Ast → Checked SssType
unfolding bound_member
get_ast_binding env (var name) = do b ← or_err (get_binding env name); ok b.type
get_ast_binding env (field_access a name) = do t ← get_ast_binding env a; bound_member env t name
get_ast_binding env a = compiler_err

-- The union that a struct's type is a member of.
unfoldable pub union_type : SssType → Checked (Option SssType)
union_type (type_type (tagged_union_type members bits)) = ok (some (tagged_union_type members bits))
union_type type_any = fault
union_type t = ok none

-- The type of a struct, from the union or else the binding of its type, and its units.
unfoldable pub named_struct :
    Env → (union_t : Option SssType) → (binding_t : SssType) → Option Bytes → Checked SssType
named_struct env (some t) b none = ok t
named_struct env none (type_type t) none = ok t
named_struct env (some t) b (some u) = do units ← derive env (some u); ok (with_units t units)
named_struct env none (type_type t) (some u) = do
  units ← derive env (some u)
  ok (with_units t units)
named_struct env none b units = compiler_err

unfoldable pub bind_some : Env → Option Bytes → SssType → Env
bind_some env none t = env
bind_some env (some name) t = bind env name t false

-- `hset` with the name of an argument or a field; a hash of NULL is a fault.
unfoldable pub bind_named : Env → Option Bytes → SssType → Checked Env
bind_named env none t = fault
bind_named env (some name) t = ok (bind env name t false)

-- Whether a block that ends so is known to have no value.
unfoldable pub ends_void : Asts → Bool
ends_void end = true
ends_void (cons update end) = true
ends_void (cons (declare name value is_global) end) = true
ends_void (cons (function_def args ret_type) end) = true
ends_void (cons type_def end) = true
ends_void (cons a end) = false
ends_void (cons a rest) = ends_void rest

unfoldable pub has_definitions : Asts → Bool
has_definitions end = false
has_definitions (cons a rest) = is_definition a || has_definitions rest

unfoldable pub generate_missing : (is_missing : Bool) → Option SssType → Checked SssType
generate_missing true none = fault
generate_missing false none = outside
generate_missing true (some (generator_type t)) = ok (generator_type t)
generate_missing true (some t) = ok (generator_type t)
generate_missing false (some t) = ok t

unfoldable pub reduced :
    (item_t combo_t : SssType) → (fallback_t : Option SssType) → Checked SssType
reduced item_t combo_t none = do refuse (not (can_promote item_t combo_t)); ok combo_t
reduced item_t combo_t (some t) = do
  refuse (not (can_promote item_t combo_t))
  refuse (not (can_promote t combo_t))
  ok combo_t

-- A type that has units already is refused.
unfoldable pub unmeasured : SssType → Checked (Unit {0})
unmeasured t = elim (type_units t) [ none ↦ ok tt | some u ↦ compiler_err ]

unfoldable pub bind_args : Env → Args → Checked Env
bind_args env end_args = ok env
bind_args env (arg name t default args) = do env ← bind_named env name t; bind_args env args

unfoldable pub pointed_type : SssType → Option SssType
pointed_type (pointer_type t is_optional is_stack is_readonly) = some t
pointed_type t = none

unfoldable pub struct_parts : SssType → Option (Bool × (Fields × Option Bytes))
struct_parts (struct_type has_names fields units) = some (has_names, (fields, units))
struct_parts t = none

unfoldable pub union_member : SssType → Bytes → Option (Option (Bool × (Fields × Option Bytes)))
union_member (tagged_union_type members bits) name = member_fields members name
union_member t name = none

unfoldable pub bound_positions : Bound (List ℕ) → Checked (List ℕ)
bound_positions (bound ps) = ok ps
bound_positions unknown_name = compiler_err
bound_positions out_of_range = fault

-- The positions that `bind_arguments` gives the members of a struct pattern.
unfoldable pub positions : Bool → Fields → Asts → Checked (List ℕ)
unfolding bound_positions
positions false fields args = fault
positions true fields args =
    bound_positions (bind_arguments (field_names fields) (argument_names args))

-- `using`: a binding for each field, of the type that `used.field` has by then.
unfoldable pub bind_fields : (type_of_used : Env → Checked SssType) → Env → Fields → Checked Env
bind_fields f env end_fields = ok env
bind_fields f env (field none t fields) = fault
bind_fields f env (field (some name) t fields) = do
  used_t ← f env
  found ← get_field_type env used_t name
  field_t ← or_err found
  bind_fields f (bind env name field_t false) fields

unfoldable pub use_fields :
    (type_of_used : Env → Checked SssType) → Env → Bool → Fields → Checked Env
use_fields f env false fields = fault
use_fields f env true fields = bind_fields f env fields

-- The type of an index is asked for only where it is needed.
unfoldable pub indexed_type : SssType → (Unit {0} → Checked SssType) → Checked SssType
indexed_type t index_of =
    if needs_index t
    then (index_of tt >>= λ index_t. index_type t (some index_t))
    else index_type t none

-- The first of the parts of a `for` loop that is there.
unfoldable pub first_of :
    Checked (Option SssType) → Checked (Option SssType) → Checked (Option SssType)
first_of (ok none) rest = rest
first_of part rest = part

-- The types that `TypeArray` and `TypePointer` write.
unfoldable pub parsed_array : (item : Option SssType) → Checked SssType
parsed_array item = do t ← or_err item; no_stack t; ok (array_type t)

unfoldable pub parsed_pointer :
    (pointed : Option SssType) → (is_optional is_stack is_readonly : Bool) → Checked SssType
parsed_pointer pointed is_optional is_stack is_readonly = do
  t ← or_fault pointed
  refuse (tag t == 2)
  ok (pointer_type t is_optional is_stack is_readonly)
