-- ===== src/Match.antt =====
-- compile/match.c: `perform_conditional_match`, as the test of a value that the code it makes is,
-- with the names that it binds.
pub mod Named
pub mod Looked
pub mod Typed
pub mod Accept
pub mod Cases
pub mod Codes
pub mod Missing
pub mod Single
pub mod Exhaustive
use blangc.Prelude.Int.{ℤ, eq_ℤ}
use blangc.Prelude.{
  ℕ, zero, suc, Bool, true, false, not, ◌&&◌, ◌||◌, ◌==◌, if◌then◌else◌, Option, none, some, List,
  [], ◌∷◌, Bytes, str_eq, streq,
}
use blangc.TypeCheck.Infer.{get_type}
use blangc.TypeCheck.Nodes.{positions, pointed_type, struct_parts, union_member}
use blangc.TypeCheck.Patterns.{field_type_at}
use blangc.TypeCheck.Syntax.{
  Ast, nil_, bool_, var, wildcard, heap_allocate, stack_reference, struct_, function_call,
  keyword_arg, nothing, just, Asts, end, cons,
}
use blangc.TypeCheck.{
  Checked, ok, compiler_err, fault, outside, ◌>>=◌, ◌>>◌, refuse, or_fault, Env, bind,
}
use blangc.Types.Cord.{type_eq}
use blangc.Types.Promote.{can_promote}
use blangc.Types.{
  SssType, Fields, Members, tag, base_variant, bool_type, type_type, type_any, pointer_type,
  struct_type, tagged_union_type, variant_type, end_fields, field, end_members, bare_member, member,
}

-- Values of compiled programs, as far as patterns look into them. A union has the number of its tag;
-- the values of all other types are one constructor.
mutual
  pub data Value : Type 0 where
    bool_value : Bool → Value
    null_pointer : Value
    pointer_to : Value → Value
    struct_value : Values → Value
    union_value : (tag : ℤ) → Values → Value
    other_value : ℕ → Value

  pub data Values : Type 0 where
    end_values : Values
    value : Value → Values → Values

-- The test that the code makes of a value: whether it goes on in `match_block`.
abbrev pub Test : Type 0
Test = Value → Bool

-- A test of the field of a number, and of what a pointer points to.
unfoldable pub values_field : ℕ → Test → Values → Bool
values_field i f end_values = false
values_field zero f (value v values) = f v
values_field (suc i) f (value v values) = values_field i f values

unfoldable pub field_test : ℕ → Test → Test
unfolding values_field
field_test i f (struct_value values) = values_field i f values
field_test i f v = false

unfoldable pub pointed_test : Test → Test
pointed_test f (pointer_to v) = f v
pointed_test f v = false

unfoldable pub has_tag : ℤ → Test
has_tag tag (union_value t values) = eq_ℤ t tag
has_tag tag v = false

unfoldable pub member_test : ℤ → Test → Test
member_test tag f (union_value t values) = eq_ℤ t tag && f (struct_value values)
member_test tag f v = false

-- The tag of a union's first member of a name.
unfoldable pub member_tag : Members → Bytes → Option ℤ
member_tag end_members name = none
member_tag (bare_member n tag_value members) name =
    let rest = member_tag members name in if str_eq n name then some tag_value else rest
member_tag (member n tag_value has_names fields units members) name =
    let rest = member_tag members name in if str_eq n name then some tag_value else rest

unfoldable pub union_tag : SssType → Bytes → Option ℤ
union_tag (tagged_union_type members bits) name = member_tag members name
union_tag t name = none

-- The comparison of a value with an expression's: of a Bool or `nil`, and of others by `equals`,
-- which stands for the code of the expression and of the comparison.
unfoldable pub compared : (equals : Ast → Test) → Ast → Test
compared equals (bool_ true) (bool_value b) = b
compared equals (bool_ false) (bool_value b) = not b
compared equals (nil_ t) null_pointer = true
compared equals (nil_ t) (pointer_to v) = false
compared equals a v = equals a v

-- Under `compare_values`.
unfoldable pub compare_values : (equals : Ast → Test) → Env → SssType → Ast → Checked (Env × Test)
unfolding compared
compare_values equals env t a = do
  pattern_t ← get_type env a
  refuse (not (can_promote pattern_t t))
  ok (env, compared equals a)

-- The type that a pointer pattern is for, by whether it is one for the stack.
unfoldable pub pattern_pointed : SssType → (is_stack : Bool) → Checked SssType
pattern_pointed (pointer_type t is_optional true is_readonly) true = ok t
pattern_pointed (pointer_type t is_optional false is_readonly) false = ok t
pattern_pointed t is_stack = compiler_err

-- The fields that a struct pattern is for, with the type that it names, or else with its units.
unfoldable pub typed_fields : (t pat_t : SssType) → Checked (Bool × Fields)
typed_fields t (type_type pat_t) = elim (struct_parts (base_variant t)) [
  | none ↦ compiler_err
  | some (has_names, (fields, units)) ↦
      if type_eq t pat_t then ok (has_names, fields) else compiler_err
]
typed_fields t type_any = fault
typed_fields t pat_t = compiler_err

unfoldable pub plain_fields : SssType → Option Bytes → Checked (Bool × Fields)
plain_fields t units = elim (struct_parts (base_variant t)) [
  | none ↦ compiler_err
  | some (has_names, (fields, field_units)) ↦
      if streq field_units units then ok (has_names, fields) else compiler_err
]

-- The fields of a member, whose pattern is a struct pattern without units.
unfoldable pub payload_fields : Option (Bool × (Fields × Option Bytes)) → Checked (Bool × Fields)
payload_fields none = compiler_err
payload_fields (some (has_names, (fields, units))) =
    if streq units none then ok (has_names, fields) else compiler_err

-- Whether one of the fields at these positions, for which a pattern has no argument, has a default.
unfoldable pub defaults_left : Env → Fields → List ℕ → Bool
defaults_left env fields [] = false
defaults_left env fields (p ∷ ps) =
    let rest = defaults_left env fields ps in if env.has_default fields p then true else rest

unfoldable mutual
  pub perform_conditional_match : (equals : Ast → Test) → Env → SssType → Ast → Checked (Env × Test)
  perform_conditional_match equals env t (wildcard none) = ok (env, λ v. true)
  perform_conditional_match equals env t (wildcard (some name)) =
      ok (bind env name t false, λ v. true)
  perform_conditional_match equals env t (var name) = elim (union_tag (base_variant t) name) [
    | some tag ↦ ok (env, has_tag tag)
    | none ↦ compare_values equals env t (var name)
  ]
  perform_conditional_match equals env t (heap_allocate a) = do
    pointed_t ← pattern_pointed t false
    (match_env, test) ← perform_conditional_match equals env pointed_t a
    ok (match_env, pointed_test test)
  perform_conditional_match equals env t (stack_reference a) = do
    pointed_t ← pattern_pointed t true
    (match_env, test) ← perform_conditional_match equals env pointed_t a
    ok (match_env, pointed_test test)
  perform_conditional_match equals env t (struct_ (just a) args units) = do
    refuse (not (tag (base_variant t) == 16))
    pat_t ← get_type env a
    (has_names, fields) ← typed_fields t pat_t
    ps ← positions has_names fields args
    match_members equals env fields args ps
  perform_conditional_match equals env t (struct_ nothing args units) = do
    (has_names, fields) ← plain_fields t units
    ps ← positions has_names fields args
    match_members equals env fields args ps
  perform_conditional_match equals env t (function_call (var name) args extern_type) =
      elim (union_tag (base_variant t) name) [
        | none ↦ compare_values equals env t (function_call (var name) args extern_type)
        | some tag ↦ do
          parts ← or_fault (union_member (base_variant t) name)
          (has_names, fields) ← payload_fields parts
          ps ← positions has_names fields args
          (match_env, test) ← match_members equals env fields args ps
          ok (match_env, member_test tag test)
      ]
  perform_conditional_match equals env t a = compare_values equals env t a

  -- The loop over the members of a struct pattern, and then over the fields that it leaves out. Those
  -- with a default value are matched against it, which is `outside`.
  pub match_members : (equals : Ast → Test) → Env → Fields → Asts → List ℕ → Checked (Env × Test)
  match_members equals env fields end ps =
      if defaults_left env fields ps then outside else ok (env, λ v. true)
  match_members equals env fields (cons a args) [] = fault
  match_members equals env fields (cons (keyword_arg name a) args) (p ∷ ps) = do
    t ← or_fault (field_type_at fields p)
    (match_env, test) ← perform_conditional_match equals env t a
    (members_env, rest) ← match_members equals match_env fields args ps
    ok (members_env, λ v. field_test p test v && rest v)
  match_members equals env fields (cons a args) (p ∷ ps) = do
    t ← or_fault (field_type_at fields p)
    (match_env, test) ← perform_conditional_match equals env t a
    (members_env, rest) ← match_members equals match_env fields args ps
    ok (members_env, λ v. field_test p test v && rest v)

-- The tests of an `if`, which compile/expr.c makes one behind another, and the case that runs.
unfoldable pub match_tests : (equals : Ast → Test) → Env → SssType → Asts → Checked (List Test)
match_tests equals env t end = ok []
match_tests equals env t (cons a pats) = do
  (match_env, test) ← perform_conditional_match equals env t a
  tests ← match_tests equals env t pats
  ok (test ∷ tests)

unfoldable pub first_match : List Test → Value → (i : ℕ) → Option ℕ
first_match [] v i = none
first_match (test ∷ tests) v i =
    let rest = first_match tests v (suc i) in if test v then some i else rest
