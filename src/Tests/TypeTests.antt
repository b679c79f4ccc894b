-- ===== src/Tests/TypeTests.antt =====
-- Types, printed and compared, and the theorems about them at concrete types.
use blangc.Prelude.Int.{pos, negsuc, ◌+ℤ◌}
use blangc.Prelude.{
  ◌-◌, ◌^◌, ◌≡◌, refl, ◌↔◌, ◌⊎◌, inl, inr, true, false, ◌&&◌, not, none, some, codes, str_eq, streq,
  decimal, arith, ◌*◌,
}
use blangc.Types.Cord.{type_eq, type_to_string, type_to_cord}
use blangc.Types.Memory.Parts.{
  is_plain, HeapPart, UnorderedPart, has_heap_memory_iff, is_orderable_iff,
}
use blangc.Types.Memory.{has_heap_memory, is_orderable}
use blangc.Types.Precision.Range.{
  w8, w16, InRange, Within, at_most, at_least, compare_precision-range,
}
use blangc.Types.Precision.{compare_precision, type_min_magnitude, type_max_magnitude, is_numeric}
use blangc.Types.Promote.Pointers.{can_promote_pointer, type_is_a_drops_readonly}
use blangc.Types.Promote.{can_promote, promote_early, promote_pointer, promote_numeric}
use blangc.Types.Relations.Join.{type_or_type-holds, type_or_type_narrow}
use blangc.Types.Relations.{type_or_type, type_is_a, join, join_numeric, settle, joined}
use blangc.Types.Units.Laws.{is_measurable, type_units-with_units, with_units-with_units}
use blangc.Types.Units.{type_units, with_units}
use blangc.Types.{
  SssType, tag, plain_int, base_variant, int_type, bool_type, array_type, char_type, pointer_type,
  struct_type, variant_type, field, end_fields, table_type, tagged_union_type, member, bare_member,
  end_members, function_type, arg, end_args,
}

-- Whatever a test has to compute with.
types_code : Unit {0}
unfolding can_promote promote_early promote_numeric promote_pointer type_eq type_to_string
    type_to_cord decimal str_eq streq tag type_units is_numeric base_variant compare_precision
    type_min_magnitude type_max_magnitude type_or_type type_is_a join settle join_numeric ◌+ℤ◌
types_code = tt

abbrev meters : SssType
meters = int_type (some (codes "m")) 32 false

abbrev str : SssType
str = array_type char_type

abbrev person : SssType
person =
    struct_type true
      (field (some (codes "name")) str (field (some (codes "_2")) plain_int end_fields)) none

abbrev person_variant : SssType
person_variant = variant_type (codes "Person") (codes "people.sss") person

abbrev shape : SssType
shape =
    tagged_union_type
      (bare_member (codes "None") (pos 0) (
        member (codes "Some") (pos 5) true (field (some (codes "x")) bool_type end_fields) none
          end_members))
      8

abbrev callback : SssType
callback =
    function_type true false (arg (some (codes "x")) plain_int none (arg none str none end_args))
      bool_type

prints_type :
    type_to_string (table_type person_variant meters) ≡ codes "{people.sss:Person=>Int32<m>}"
unfolding types_code
prints_type = refl

prints_struct : type_to_string person ≡ codes "struct(name:Str,Int64)"
unfolding types_code
prints_struct = refl

prints_union : type_to_string shape ≡ codes "enum(None|Some(x:Bool)=5)"
unfolding types_code
prints_union = refl

prints_function : type_to_string callback ≡ codes "func(Int64, Str)->Bool"
unfolding types_code
prints_function = refl

compare_precision-range_example :
    ((at_most (compare_precision (int_type none 8 true) (int_type none 16 false)) ≡ true)
      ↔ Within w8 true w16 false)
    × ((at_least (compare_precision (int_type none 8 true) (int_type none 16 false)) ≡ true)
        ↔ Within w16 false w8 true)
compare_precision-range_example = compare_precision-range none none w8 w16 true false

type_or_type-holds_example : InRange 16 false (negsuc 127)
unfolding types_code
type_or_type-holds_example =
    type_or_type-holds none none w8 w8 false true (int_type none 16 false) (inr (inr (omega arith)))
      refl (negsuc 127) (inl (omega arith))

type_or_type_narrow_example :
    (type_or_type (some (int_type none 8 false)) (some (int_type none 16 true))
      ≡ joined (int_type none (8 * 2) false))
    × InRange 16 true (pos (2 ^ 16 - 1))
    × ¬ InRange (8 * 2) false (pos (2 ^ 16 - 1))
type_or_type_narrow_example = type_or_type_narrow none none w8 w16 (omega arith)

type_units-with_units_example :
    type_units (with_units (pointer_type meters true false false) none) ≡ none
unfolding is_measurable
type_units-with_units_example = type_units-with_units (pointer_type meters true false false) none

with_units-with_units_example :
    with_units (with_units (array_type meters) (some (codes "s"))) none
    ≡ with_units (array_type meters) none
with_units-with_units_example = with_units-with_units (array_type meters) (some (codes "s")) none

has_heap_memory_iff_example : (has_heap_memory person ≡ true) ↔ HeapPart person
unfolding is_plain
has_heap_memory_iff_example = has_heap_memory_iff person refl

is_orderable_iff_example :
    (is_orderable (array_type (pointer_type str false false false)) ≡ false)
    ↔ UnorderedPart (array_type (pointer_type str false false false))
unfolding is_plain
is_orderable_iff_example = is_orderable_iff (array_type (pointer_type str false false false)) refl

can_promote_pointer_example :
    ((false && not false) ≡ false)
    × ((false && not true && not false) ≡ false)
    × ((type_eq (pointer_type str false false false) (pointer_type str true false true) ≡ true)
        ⊎ ((false && not true) ≡ false))
unfolding types_code
can_promote_pointer_example = can_promote_pointer str str false false false true false true refl

type_is_a_drops_readonly_example :
    (type_is_a (pointer_type str false false true) (pointer_type str true false false) ≡ true)
    × (can_promote (pointer_type str false false true) (pointer_type str true false false) ≡ false)
type_is_a_drops_readonly_example = type_is_a_drops_readonly str
