-- ===== src/Types/Units.antt =====
-- `type_units` and `with_units` of types.c: the unit of measure that a type carries.
pub mod Laws
use blangc.Prelude.{false, Option, none, Bytes}
use blangc.Types.{SssType, int_type, num_type, array_type, pointer_type, struct_type, variant_type}

unfoldable pub type_units : SssType → Option Bytes
type_units (int_type units bits is_unsigned) = units
type_units (num_type units bits) = units
type_units (struct_type has_names fields units) = units
type_units (pointer_type t is_optional is_stack is_readonly) = type_units t
type_units (array_type t) = type_units t
type_units (variant_type name filename t) = type_units t
type_units _ = none

-- The new pointer type is given `pointed` and `is_optional`; the other flags are 0 in it. The new
-- struct type has no `field_defaults`, which is no part of the model.
unfoldable pub with_units : SssType → Option Bytes → SssType
with_units (int_type units bits is_unsigned) u = int_type u bits is_unsigned
with_units (num_type units bits) u = num_type u bits
with_units (struct_type has_names fields units) u = struct_type has_names fields u
with_units (pointer_type t is_optional is_stack is_readonly) u =
    pointer_type (with_units t u) is_optional false false
with_units (array_type t) u = array_type (with_units t u)
with_units (variant_type name filename t) u = variant_type name filename (with_units t u)
with_units t u = t
