-- ===== src/Types/Units/Laws.antt =====
-- What `with_units` does to the units of a type and to its memory.
use blangc.Prelude.{◌≡◌, refl, Bool, true, false, Option, none, Bytes, if◌then◌else◌}
use blangc.Types.Memory.{has_stack_memory}
use blangc.Types.Units.{type_units, with_units}
use blangc.Types.{SssType, int_type, num_type, array_type, pointer_type, struct_type, variant_type}

-- A number or a struct, perhaps behind pointers, arrays and variants: the types that can carry
-- units.
unfoldable pub is_measurable : SssType → Bool
is_measurable (int_type units bits is_unsigned) = true
is_measurable (num_type units bits) = true
is_measurable (struct_type has_names fields units) = true
is_measurable (pointer_type t is_optional is_stack is_readonly) = is_measurable t
is_measurable (array_type t) = is_measurable t
is_measurable (variant_type name filename t) = is_measurable t
is_measurable _ = false

-- After `with_units`, `type_units` returns the units given if the type is an integer, a number, a
-- structure, or a pointer, an array or a variant of such a type, and NULL for every other type.
pub type_units-with_units :
    (t : SssType) (u : Option Bytes)
    → type_units (with_units t u) ≡ (if is_measurable t then u else none)
unfolding type_units with_units is_measurable
type_units-with_units (int_type units bits is_unsigned) u = refl
type_units-with_units (num_type units bits) u = refl
type_units-with_units (struct_type has_names fields units) u = refl
type_units-with_units (pointer_type t is_optional is_stack is_readonly) u =
    type_units-with_units t u
type_units-with_units (array_type t) u = type_units-with_units t u
type_units-with_units (variant_type name filename t) u = type_units-with_units t u
type_units-with_units _ u = refl

-- Only the units given last count.
pub with_units-with_units :
    (t : SssType) (u v : Option Bytes) → with_units (with_units t u) v ≡ with_units t v
unfolding with_units
with_units-with_units (int_type units bits is_unsigned) u v = refl
with_units-with_units (num_type units bits) u v = refl
with_units-with_units (struct_type has_names fields units) u v = refl
with_units-with_units (pointer_type t is_optional is_stack is_readonly) u v =
    rw (with_units-with_units t u v)
with_units-with_units (array_type t) u v = rw (with_units-with_units t u v)
with_units-with_units (variant_type name filename t) u v = rw (with_units-with_units t u v)
with_units-with_units _ u v = refl

-- `has_stack_memory` sees whether a pointer type is a stack pointer, and no longer after
-- `with_units`, which gives the same type for a stack or read-only pointer as for one that is
-- neither.
with_units_forgets_stack :
    (t : SssType) (is_optional is_stack is_readonly : Bool) (u : Option Bytes)
    → (has_stack_memory (pointer_type t is_optional is_stack is_readonly) ≡ is_stack)
      × (has_stack_memory (with_units (pointer_type t is_optional is_stack is_readonly) u) ≡ false)
      × (with_units (pointer_type t is_optional is_stack is_readonly) u
          ≡ with_units (pointer_type t is_optional false false) u)
unfolding has_stack_memory with_units
with_units_forgets_stack t is_optional is_stack is_readonly u = (refl, refl, refl)
