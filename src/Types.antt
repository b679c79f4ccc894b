-- ===== src/Types.antt =====
-- The compiler's types: `sss_type_t` of types.h as a tree, with the two loops of types.c that strip
-- pointers and variants.
pub mod Cord
pub mod Units
pub mod Precision
pub mod Memory
pub mod Relations
pub mod Promote
use blangc.Prelude.{ℕ, Bool, Option, Bytes}
use blangc.Prelude.Int.{ℤ}

-- The parallel lists of a function's arguments and of a struct's fields are one list of entries,
-- so that `LIST_ITEM` is in range. The first flag of `function_type` says that `arg_names` is not
-- NULL, the second that `arg_defaults` is not, the flag of `struct_type` that `field_names` is
-- not; a default is the text of its syntax tree. `type_any` is a `TypeType` whose `type` is NULL.
-- A member's own type, where it has one, is a struct (`type_to_cord` insists on it), and stands
-- here as that struct's parts. The `env` of a function type is not read in types.c.
mutual
  pub data SssType : Type 0 where
    unknown_type abort_type void_type memory_type : SssType
    bool_type char_type c_string_char_type : SssType
    int_type : (units : Option Bytes) (bits : ℕ) (is_unsigned : Bool) → SssType
    num_type : (units : Option Bytes) (bits : ℕ) → SssType
    type_type : SssType → SssType
    type_any range_type : SssType
    array_type : SssType → SssType
    table_type : SssType → SssType → SssType
    function_type : Bool → Bool → Args → SssType → SssType
    pointer_type : SssType → (is_optional is_stack is_readonly : Bool) → SssType
    generator_type : SssType → SssType
    struct_type : Bool → Fields → (units : Option Bytes) → SssType
    tagged_union_type : Members → (tag_bits : ℕ) → SssType
    module_type : (path : Bytes) → SssType
    variant_type : (name filename : Bytes) → SssType → SssType

  pub data Args : Type 0 where
    end_args : Args
    arg : (name : Option Bytes) → SssType → (default : Option Bytes) → Args → Args

  pub data Fields : Type 0 where
    end_fields : Fields
    field : (name : Option Bytes) → SssType → Fields → Fields

  pub data Members : Type 0 where
    end_members : Members
    bare_member : (name : Bytes) (tag_value : ℤ) → Members → Members
    member :
        (name : Bytes) (tag_value : ℤ) → Bool → Fields → (units : Option Bytes) → Members → Members

-- The `tag`, as the number that the enumeration gives it.
unfoldable pub tag : SssType → ℕ
tag unknown_type = 0
tag abort_type = 1
tag void_type = 2
tag memory_type = 3
tag bool_type = 4
tag char_type = 5
tag c_string_char_type = 6
tag (int_type u b s) = 7
tag (num_type u b) = 8
tag (type_type t) = 9
tag type_any = 9
tag range_type = 10
tag (array_type t) = 11
tag (table_type k v) = 12
tag (function_type n d a r) = 13
tag (pointer_type t o s r) = 14
tag (generator_type t) = 15
tag (struct_type n fs u) = 16
tag (tagged_union_type ms b) = 17
tag (module_type p) = 18
tag (variant_type n f t) = 19

-- `while (t->tag == VariantType) t = variant_of;`
unfoldable pub base_variant : SssType → SssType
base_variant (variant_type n f t) = base_variant t
base_variant t = t

-- `while (t->tag == PointerType) t = pointed;`
unfoldable pub value_type : SssType → SssType
value_type (pointer_type t o s r) = value_type t
value_type t = t

-- `INT_TYPE` and `NUM_TYPE`
abbrev pub plain_int : SssType
plain_int = int_type Option.none 64 Bool.false

abbrev pub plain_num : SssType
plain_num = num_type Option.none 64
