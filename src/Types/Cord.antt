-- ===== src/Types/Cord.antt =====
-- `type_to_cord` of types.c and the functions that print a type, and `type_eq`, which compares
-- types by their print. The argument `expanded` is only passed on there, never read.
pub mod Equality
use blangc.Prelude.{
  ℕ, suc, ◌+◌, ◌++◌, ◌==◌, Bool, true, false, ◌&&◌, ◌||◌, not, Option, none, some, ltb,
  if◌then◌else◌, Bytes, codes, str_eq, decimal, length,
}
use blangc.Prelude.Int.{ℤ, pos, negsuc, ◌+ℤ◌, eq_ℤ}
use blangc.Types.{
  SssType, Args, Fields, Members, tag, unknown_type, abort_type, void_type, memory_type, bool_type,
  char_type, c_string_char_type, int_type, num_type, type_type, type_any, range_type, array_type,
  table_type, function_type, pointer_type, generator_type, struct_type, tagged_union_type,
  module_type, variant_type, end_args, arg, end_fields, field, end_members, bare_member, member,
}

-- `stringify_flags_e`
pub record StringifyFlags : Type 0 where
  pub filenames : Bool
  pub arg_names : Bool
  pub expand_args : Bool

abbrev pub default_flags : StringifyFlags
default_flags = record { filenames = false; arg_names = false; expand_args = false }

-- `%ld`
pub signed_decimal : ℤ → Bytes
signed_decimal (pos n) = decimal n
signed_decimal (negsuc n) = codes "-" ++ decimal (suc n)

-- The suffix `<units>`, where the units are not NULL.
units_suffix : Option Bytes → Bytes
units_suffix none = codes ""
units_suffix (some u) = codes "<" ++ (u ++ codes ">")

int_to_cord : Option Bytes → ℕ → Bool → Bytes
unfolding units_suffix
int_to_cord units bits is_unsigned =
    (if is_unsigned then codes "UInt" else codes "Int") ++ (decimal bits ++ units_suffix units)

num_to_cord : Option Bytes → ℕ → Bytes
unfolding units_suffix
num_to_cord units bits = (if bits == 64 then codes "Num" else codes "Num32") ++ units_suffix units

-- A NULL text is the empty cord.
or_empty : Option Bytes → Bytes
or_empty none = codes ""
or_empty (some s) = s

-- One round of the loop over a function's arguments; `text` is the print of the argument's type.
arg_to_cord : StringifyFlags → Bool → Bool → Option Bytes → Option Bytes → Bytes → Bytes
unfolding or_empty
arg_to_cord flags has_names has_defaults name default text =
    let label = if flags.arg_names && has_names then or_empty name else codes "" in
    let typed = (if flags.arg_names && has_names then codes ":" else codes "") ++ text in
    label
    ++ (if flags.arg_names && has_defaults
        then elim default [ none ↦ typed | some d ↦ codes "=" ++ d ]
        else typed)

-- One round of the loop over a struct's fields: a name like `_2` at the second field is left out.
field_to_cord : ℕ → Bool → Option Bytes → Bytes → Bytes
field_to_cord i has_names name text = (if ltb 0 i then codes "," else codes "") ++ (elim name [
  | none ↦ text
  | some s ↦
      if has_names && not (str_eq s (codes "_" ++ decimal (i + 1)))
      then s ++ (codes ":" ++ text)
      else text
])

-- `=value` behind a member whose value is not the one after its predecessor's.
tag_value_suffix : Option ℤ → ℤ → Bytes
unfolding signed_decimal
tag_value_suffix none v = if eq_ℤ v (pos 0) then codes "" else codes "=" ++ signed_decimal v
tag_value_suffix (some prev) v =
    if eq_ℤ v (pos 1 +ℤ prev) then codes "" else codes "=" ++ signed_decimal v

pointer_sigil : Bool → Bool → Bool → Bytes
pointer_sigil is_optional is_stack is_readonly =
    (if is_stack then codes "&" else if is_optional then codes "?" else codes "@")
    ++ (if is_readonly then codes "(read-only)" else codes "")

member_separator : Option ℤ → Bytes
member_separator none = codes ""
member_separator (some prev) = codes "|"

-- An array of characters is printed as `Str`.
array_to_cord : SssType → Bytes → Bytes
array_to_cord char_type text = codes "Str"
array_to_cord _ text = codes "[" ++ (text ++ codes "]")

unfoldable mutual
  unfolding int_to_cord num_to_cord arg_to_cord field_to_cord tag_value_suffix pointer_sigil
      units_suffix array_to_cord member_separator

  pub type_to_cord : StringifyFlags → SssType → Bytes
  type_to_cord flags unknown_type = codes "???"
  type_to_cord flags abort_type = codes "Abort"
  type_to_cord flags void_type = codes "Void"
  type_to_cord flags memory_type = codes "Memory"
  type_to_cord flags bool_type = codes "Bool"
  type_to_cord flags char_type = codes "Char"
  type_to_cord flags c_string_char_type = codes "CStringChar"
  type_to_cord flags (int_type units bits is_unsigned) = int_to_cord units bits is_unsigned
  type_to_cord flags (num_type units bits) = num_to_cord units bits
  type_to_cord flags (type_type t) = codes "Type(" ++ (type_to_cord flags t ++ codes ")")
  type_to_cord flags type_any = codes "Type(...)"
  type_to_cord flags range_type = codes "Range"
  type_to_cord flags (array_type t) = array_to_cord t (type_to_cord flags t)
  type_to_cord flags (table_type k v) =
      codes "{" ++ (type_to_cord flags k ++ (codes "=>" ++ (type_to_cord flags v ++ codes "}")))
  type_to_cord flags (function_type has_names has_defaults args ret) =
      codes "func("
      ++ (args_to_cord flags has_names has_defaults true args
          ++ (codes ")->" ++ type_to_cord flags ret))
  type_to_cord flags (pointer_type t is_optional is_stack is_readonly) =
      pointer_sigil is_optional is_stack is_readonly ++ type_to_cord flags t
  type_to_cord flags (generator_type t) = codes "Generator(" ++ (type_to_cord flags t ++ codes ")")
  type_to_cord flags (struct_type has_names fields units) =
      codes "struct("
      ++ (fields_to_cord flags has_names 0 fields ++ (codes ")" ++ units_suffix units))
  type_to_cord flags (tagged_union_type members tag_bits) =
      codes "enum(" ++ (members_to_cord flags none members ++ codes ")")
  type_to_cord flags (module_type path) = codes "Module(\"" ++ (path ++ codes "\")")
  type_to_cord flags (variant_type name filename t) =
      if flags.filenames then filename ++ (codes ":" ++ name) else name

  pub args_to_cord : StringifyFlags → Bool → Bool → Bool → Args → Bytes
  args_to_cord flags has_names has_defaults first end_args = codes ""
  args_to_cord flags has_names has_defaults first (arg name t default rest) =
      (if first then codes "" else codes ", ")
      ++ (arg_to_cord flags has_names has_defaults name default (type_to_cord flags t)
          ++ args_to_cord flags has_names has_defaults false rest)

  pub fields_to_cord : StringifyFlags → Bool → ℕ → Fields → Bytes
  fields_to_cord flags has_names i end_fields = codes ""
  fields_to_cord flags has_names i (field name t rest) =
      field_to_cord i has_names name (type_to_cord flags t)
      ++ fields_to_cord flags has_names (i + 1) rest

  -- The second argument is the preceding member's value.
  pub members_to_cord : StringifyFlags → Option ℤ → Members → Bytes
  members_to_cord flags prev end_members = codes ""
  members_to_cord flags prev (bare_member name v rest) =
      member_separator prev
      ++ (name ++ (tag_value_suffix prev v ++ members_to_cord flags (some v) rest))
  members_to_cord flags prev (member name v has_names fields units rest) =
      member_separator prev
      ++ (name
          ++ (codes "("
              ++ (fields_to_cord flags has_names 0 fields
                  ++ (codes ")"
                      ++ (tag_value_suffix prev v ++ members_to_cord flags (some v) rest)))))

unfoldable pub type_to_string : SssType → Bytes
type_to_string t =
    type_to_cord (record { filenames = true; arg_names = false; expand_args = true }) t

unfoldable pub type_to_string_concise : SssType → Bytes
type_to_string_concise t = type_to_cord default_flags t

unfoldable pub type_to_typeof_string : SssType → Bytes
type_to_typeof_string t = type_to_cord default_flags t

-- The text that `%T` prints, with the flag `#` and the width of the conversion.
unfoldable pub printf_type : (alt : Bool) (width : ℕ) → SssType → Bytes
printf_type alt width t =
    let flags : StringifyFlags = record {
      filenames = false;
      arg_names = alt;
      expand_args = false;
    } in
    let c = type_to_cord flags t in
    if not alt || ltb 0 width && ltb width (length c) then type_to_cord flags t else c

unfoldable pub type_eq : SssType → SssType → Bool
type_eq a b = tag a == tag b && str_eq (type_to_string a) (type_to_string b)
