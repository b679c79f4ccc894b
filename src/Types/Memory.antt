-- ===== src/Types/Memory.antt =====
-- What values of a type hold: `is_orderable`, `has_heap_memory`, `has_stack_memory` and
-- `can_leave_uninitialized` of types.c. The loops over fields and members stop at the first
-- answer.
pub mod Parts
use blangc.Prelude.{Bool, true, false, ◌&&◌, ◌||◌}
use blangc.Types.{
  SssType, Fields, Members, bool_type, char_type, c_string_char_type, int_type, num_type,
  range_type, array_type, table_type, function_type, pointer_type, generator_type, struct_type,
  tagged_union_type, end_fields, field, end_members, bare_member, member,
}

unfoldable mutual
  pub is_orderable : SssType → Bool
  is_orderable (array_type t) = is_orderable t
  is_orderable (pointer_type t is_optional is_stack is_readonly) = false
  is_orderable (function_type has_names has_defaults args ret) = false
  is_orderable (table_type k v) = false
  is_orderable (struct_type has_names fields units) = fields_orderable fields
  is_orderable (tagged_union_type members tag_bits) = members_orderable members
  is_orderable _ = true

  pub fields_orderable : Fields → Bool
  fields_orderable end_fields = true
  fields_orderable (field name t rest) = is_orderable t && fields_orderable rest

  pub members_orderable : Members → Bool
  members_orderable end_members = true
  members_orderable (bare_member name v rest) = members_orderable rest
  members_orderable (member name v has_names fields units rest) =
      fields_orderable fields && members_orderable rest

unfoldable mutual
  pub has_heap_memory : SssType → Bool
  has_heap_memory (array_type t) = true
  has_heap_memory (table_type k v) = true
  has_heap_memory (pointer_type t is_optional is_stack is_readonly) = true
  has_heap_memory (generator_type t) = has_heap_memory t
  has_heap_memory (struct_type has_names fields units) = fields_heap_memory fields
  has_heap_memory (tagged_union_type members tag_bits) = members_heap_memory members
  has_heap_memory _ = false

  pub fields_heap_memory : Fields → Bool
  fields_heap_memory end_fields = false
  fields_heap_memory (field name t rest) = has_heap_memory t || fields_heap_memory rest

  pub members_heap_memory : Members → Bool
  members_heap_memory end_members = false
  members_heap_memory (bare_member name v rest) = members_heap_memory rest
  members_heap_memory (member name v has_names fields units rest) =
      fields_heap_memory fields || members_heap_memory rest

unfoldable pub has_stack_memory : SssType → Bool
has_stack_memory (pointer_type t is_optional is_stack is_readonly) = is_stack
has_stack_memory (generator_type t) = has_stack_memory t
has_stack_memory _ = false

unfoldable mutual
  pub can_leave_uninitialized : SssType → Bool
  can_leave_uninitialized (pointer_type t is_optional is_stack is_readonly) = is_optional
  can_leave_uninitialized (array_type t) = true
  can_leave_uninitialized (int_type units bits is_unsigned) = true
  can_leave_uninitialized (num_type units bits) = true
  can_leave_uninitialized char_type = true
  can_leave_uninitialized c_string_char_type = true
  can_leave_uninitialized bool_type = true
  can_leave_uninitialized range_type = true
  can_leave_uninitialized (struct_type has_names fields units) = fields_uninitialized fields
  can_leave_uninitialized (tagged_union_type members tag_bits) = members_uninitialized members
  can_leave_uninitialized _ = false

  pub fields_uninitialized : Fields → Bool
  fields_uninitialized end_fields = true
  fields_uninitialized (field name t rest) = can_leave_uninitialized t && fields_uninitialized rest

  pub members_uninitialized : Members → Bool
  members_uninitialized end_members = true
  members_uninitialized (bare_member name v rest) = members_uninitialized rest
  members_uninitialized (member name v has_names fields units rest) =
      fields_uninitialized fields && members_uninitialized rest
