-- ===== src/Tests/TypeCheckTests.antt =====
-- Programs checked and matched, and the theorems about the checker at concrete programs.
use blangc.TypeCheck.{
  lookup_binding, get_binding, bind, visible, file_scope, derive, Env, Checked, ok, compiler_err,
}
use blangc.TypeCheck.Math.{
  is_logical, is_multiply, is_divide, has_units, same_units, left_units, math_units, is_variant,
  is_compound, is_bool, at_least, numeric_result, numeric_type, no_percent, operand_type,
  get_math_type, or_, and_,
}
use blangc.TypeCheck.Fields.{
  field_name, find_field, find_member, strip, found_or_class, with_field_units, member_found,
  item_field, is_one_of, table_field, own_field, method_of, class_field, get_field_type, has_next,
  iterated, get_iter_type,
}
use blangc.TypeCheck.Rules.{
  joined_type, join_units, merge_item, strip_generators, generate, no_stack, heap_pointer, array_of,
  table_of, entry_types, entry_type, reference_is_stack, is_union, is_pointer, and_pointers,
  and_type, or_pointer, or_type, xor_type, binary_type, concatenate_type, equality_type,
  is_optional_pointer, not_type, negative_type, dereferenced, indexed_array, is_array, is_range,
  index_type, needs_index, called_type, do_type, merge_case, used_fields,
}
use blangc.TypeCheck.Patterns.{
  patterns, is_definition, is_member, any_pattern, is_wildcard, is_bare, handlers, is_end, is_nil,
  is_constant, pointed_patterns, keyword_members, named_member, free_field, positional,
  positional_members, named_members, has_field, any_of, missing_struct, member_missing,
  missing_value, field_type_at, field_names, member_fields, get_missing_pattern,
}
use blangc.TypeCheck.Nodes.{
  or_outside, named_type, member_type, precision_type, num_precision_type, bound_member,
  get_ast_binding, union_type, named_struct, bind_some, bind_named, ends_void, has_definitions,
  generate_missing, reduced, unmeasured, bind_args, pointed_type, struct_parts, union_member,
  bound_positions, positions, bind_fields, use_fields, indexed_type, first_of, parsed_array,
  parsed_pointer,
}
use blangc.TypeCheck.Infer.{is_no_value, is_discardable, get_type}
use blangc.TypeCheck.Syntax.{
  argument_name, argument_names, Ast, Asts, end, cons, var, bool_, array_, lambda, end_params,
  binary, heap_allocate, stack_reference, nothing, keyword_arg, function_call, wildcard,
}
use blangc.Match.{
  defaults_left, values_field, field_test, pointed_test, has_tag, member_test, member_tag,
  union_tag, compared, compare_values, pattern_pointed, typed_fields, plain_fields, payload_fields,
  match_tests, first_match, perform_conditional_match, Value, bool_value, union_value, end_values,
  value, null_pointer, Test,
}
use blangc.Match.Typed.{no_values, distinct_members, has_members, has_type, well_named}
use blangc.Arguments.{
  position_of, is_keyword, no_keywords, skips, next_position, drop_names, prepend, bind_loop,
  has_position, defaults, stored, fill_infos, with_defaults, bind_arguments,
}
use blangc.Prelude.{
  Bytes, str_eq, streq, decimal, ◌≡◌, refl, ◌⊎◌, inl, inr, true, false, Option, none, some, List,
  [], ◌∷◌, codes, arith,
}
use blangc.Prelude.Int.{ℤ, ◌+ℤ◌, ◌-ℤ◌, pos}
use blangc.Types.Cord.{type_eq, type_to_string, type_to_cord}
use blangc.Types.{
  tag, base_variant, value_type, SssType, bool_type, int_type, array_type, pointer_type,
  tagged_union_type, field, end_fields, member, bare_member, end_members, plain_int,
}
use blangc.Types.Units.{type_units, with_units}
use blangc.Types.Precision.{
  is_numeric, is_integral, compare_precision, type_min_magnitude, type_max_magnitude,
}
use blangc.Types.Relations.{
  type_or_type, type_is_a, join, join_numeric, settle, make_generator, is_abort, non_optional,
  is_int_or_num, join_incomparable,
}
use blangc.Types.Promote.{can_promote, promote_early, promote_pointer, promote_numeric}
use blangc.Types.Memory.{has_stack_memory}
use blangc.Measures.{
  cmp_component_names, cmp_component_exponents, merge_run, merge, make_unit, unit_mul, negate,
  unit_div, abs, separator, power_suffix, print_components, unit_to_string, is_name, scan_name,
  skip_spaces, signed_by, scan_exponent, parse_loop, or_empty, unit_from_string, Scan,
}
use blangc.Measures.Derive.{
  quotient, exponent_of, power_in, multiply_by, convert, convert_all, unit_derive,
}
use blangc.Match.Named.{distinct_names}
use blangc.TypeCheck.Infer.Stack.{is_lasting, OffStack, get_type-OffStack}
use blangc.TypeCheck.Infer.Integers.{get_type-holds}
use blangc.Types.Precision.Range.{w16, w32, InRange}
use blangc.Types.Relations.Join.{InType}

checker_code : Unit {0}
unfolding defaults_left is_lasting lookup_binding get_binding bind visible file_scope derive
    is_logical is_multiply is_divide has_units same_units left_units math_units is_variant
    is_compound is_bool at_least numeric_result numeric_type no_percent operand_type get_math_type
    field_name find_field find_member strip found_or_class with_field_units member_found item_field
    is_one_of table_field own_field method_of class_field get_field_type has_next iterated
    get_iter_type joined_type join_units merge_item strip_generators generate no_stack heap_pointer
    array_of table_of entry_types entry_type reference_is_stack is_union is_pointer and_pointers
    and_type or_pointer or_type xor_type binary_type concatenate_type equality_type
    is_optional_pointer not_type negative_type dereferenced indexed_array is_array is_range
    index_type needs_index called_type do_type merge_case used_fields patterns is_definition
    is_member any_pattern is_wildcard is_bare handlers is_end is_nil is_constant pointed_patterns
    keyword_members named_member free_field positional positional_members named_members has_field
    any_of missing_struct member_missing missing_value field_type_at field_names member_fields
    get_missing_pattern or_outside named_type member_type precision_type num_precision_type
    bound_member get_ast_binding union_type named_struct bind_some bind_named ends_void
    has_definitions generate_missing reduced unmeasured bind_args pointed_type struct_parts
    union_member bound_positions positions bind_fields use_fields indexed_type first_of parsed_array
    parsed_pointer is_no_value is_discardable get_type argument_name argument_names values_field
    field_test pointed_test has_tag member_test member_tag union_tag compared compare_values
    pattern_pointed typed_fields plain_fields payload_fields match_tests first_match
    perform_conditional_match no_values distinct_members has_members has_type well_named position_of
    is_keyword no_keywords skips next_position drop_names prepend bind_loop has_position defaults
    stored fill_infos with_defaults bind_arguments str_eq streq decimal ◌+ℤ◌ ◌-ℤ◌ type_eq
    type_to_string type_to_cord tag base_variant value_type type_units with_units is_numeric
    is_integral compare_precision type_min_magnitude type_max_magnitude type_or_type type_is_a join
    join_numeric settle make_generator is_abort non_optional is_int_or_num join_incomparable
    can_promote promote_early promote_pointer promote_numeric has_stack_memory cmp_component_names
    cmp_component_exponents merge_run merge make_unit unit_mul negate unit_div abs separator
    power_suffix print_components unit_to_string is_name scan_name skip_spaces signed_by
    scan_exponent parse_loop or_empty unit_from_string quotient exponent_of power_in multiply_by
    convert convert_all unit_derive distinct_names
checker_code = tt

abbrev scan : Scan
scan = record { is_alpha = λ c. true; is_space = λ c. false; strtol = λ s. (pos 0, s) }

abbrev env : Env
env = record {
  bindings =
      (codes "a", record { type = int_type none 32 false; visible_in_closures = true })
      ∷ (codes "b", record { type = int_type none 16 true; visible_in_closures = false })
      ∷ [];
  file_bindings = [];
  members = λ t name. none;
  methods = λ t name. none;
  derived_units = [];
  scan = scan;
  qsort = λ cmp cs. cs;
  has_default = λ fields p. false;
}

-- `[&a]` is refused, and so is `@&a`.
stack_items : get_type env (array_ (cons (stack_reference (var (codes "a"))) end)) ≡ compiler_err
unfolding checker_code
stack_items = refl

stack_on_heap : get_type env (heap_allocate (stack_reference (var (codes "a")))) ≡ compiler_err
unfolding checker_code
stack_on_heap = refl

get_type-OffStack_example : OffStack (pointer_type (int_type none 32 false) false false false)
unfolding checker_code
get_type-OffStack_example =
    get_type-OffStack env (heap_allocate (var (codes "a")))
      (pointer_type (int_type none 32 false) false false false) refl refl

-- `[&a and &a]` is not.
and_forgets_stack :
    get_type env (
      array_ (
        cons
          (binary and_ (stack_reference (var (codes "a"))) (stack_reference (var (codes "a"))))
          end))
    ≡ ok (array_type (pointer_type (int_type none 32 false) false false false))
unfolding checker_code
and_forgets_stack = refl

-- A lambda sees `a`, which is global, and not `b`.
sees_global : get_type env (lambda end_params (var (codes "b"))) ≡ compiler_err
unfolding checker_code
sees_global = refl

either : get_type env (binary or_ (var (codes "a")) (var (codes "b"))) ≡ ok (int_type none 32 false)
unfolding checker_code
either = refl

abbrev no_units : Option Bytes
no_units = none

get_type-holds_example :
    (no_units ≡ no_units)
    × ((z : ℤ) → InRange 32 false z ⊎ InRange 16 true z → InType (int_type none 32 false) z)
unfolding checker_code
get_type-holds_example =
    get_type-holds env (binary or_ (var (codes "a")) (var (codes "b"))) (var (codes "a"))
      (var (codes "b")) no_units no_units w32 w16 false true (int_type none 32 false) (inl refl)
      refl refl (inr (inr (omega arith))) refl

-- `Circle(filled:Bool, next:?@Int)` and `Nothing`
abbrev shape : SssType
shape =
    tagged_union_type
      (member (codes "Circle") (pos 1) true
        (field (some (codes "filled")) bool_type
          (field (some (codes "next")) (pointer_type plain_int true false false) end_fields))
        none (bare_member (codes "Nothing") (pos 2) end_members))
      8

-- `is Nothing`, `is Circle(next=*n, *f)`
abbrev pats : Asts
pats = cons (var (codes "Nothing")) (
    cons
      (function_call (var (codes "Circle"))
        (cons (keyword_arg (some (codes "next")) (wildcard (some (codes "n"))))
          (cons (wildcard (some (codes "f"))) end))
        nothing)
      end)

abbrev tests_of : Checked (List Test) → List Test
tests_of (ok tests) = tests
tests_of _ = []

abbrev equals : Ast → Test
equals a v = false

shape_tests : List Test
unfolding checker_code
shape_tests = tests_of (match_tests equals env shape pats)

abbrev circle : Value
circle = union_value (pos 1) (value (bool_value true) (value null_pointer end_values))

-- A pattern for one of two values is not enough.
missing :
    get_missing_pattern env shape (
      cons
        (var (codes "Nothing"))
        (cons (function_call (var (codes "Circle")) (cons (bool_ true) end) nothing) end))
    ≡ ok true
unfolding checker_code
missing = refl
