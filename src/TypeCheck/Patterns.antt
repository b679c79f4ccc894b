-- ===== src/TypeCheck/Patterns.antt =====
-- `get_missing_pattern` of typecheck.c: whether a list of patterns leaves a value of a type
-- unmatched. A missing pattern is described by a text there, and is `true` here; the fields' default
-- values, which take no part, are left out.
use blangc.Prelude.{
  ℕ, zero, suc, Bool, true, false, not, ◌&&◌, ◌||◌, if◌then◌else◌, Option, none, some, List, [],
  ◌∷◌, Bytes, str_eq,
}
use blangc.TypeCheck.Syntax.{
  Ast, nil_, bool_, var, wildcard, struct_, heap_allocate, stack_reference, keyword_arg,
  function_call, declare, function_def, type_def, other_definition, use_, nothing, Asts, end, cons,
  Cases, end_cases, case_,
}
use blangc.TypeCheck.{Checked, ok, fault, ◌>>=◌, Env, get_binding}
use blangc.Types.{
  SssType, Fields, Members, bool_type, pointer_type, struct_type, tagged_union_type, end_fields,
  field, end_members, bare_member, member,
}

unfoldable pub patterns : Cases → Asts
patterns end_cases = end
patterns (case_ pattern body cases) = cons pattern (patterns cases)

-- Statements that bind types, functions or modules for the whole block.
unfoldable pub is_definition : Ast → Bool
is_definition (use_ path) = true
is_definition (declare name (use_ path) is_global) = true
is_definition type_def = true
is_definition (function_def args ret_type) = true
is_definition other_definition = true
is_definition a = false

unfoldable pub is_member : Members → Bytes → Bool
is_member end_members name = false
is_member (bare_member n v members) name =
    let rest = is_member members name in if str_eq n name then true else rest
is_member (member n v has_names fields units members) name =
    let rest = is_member members name in if str_eq n name then true else rest

-- The loop over the patterns, from the front.
unfoldable pub any_pattern : (Ast → Bool) → Asts → Bool
any_pattern f end = false
any_pattern f (cons a rest) = f a || any_pattern f rest

unfoldable pub is_wildcard : Ast → Bool
is_wildcard (wildcard name) = true
is_wildcard a = false

-- Patterns that are for a member of a union: its name alone, and its name with arguments.
unfoldable pub is_bare : Bytes → Ast → Bool
is_bare member_name (var name) = str_eq member_name name
is_bare member_name a = false

unfoldable pub handlers : Bytes → Asts → Asts
handlers member_name end = end
handlers member_name (cons (function_call (var name) args extern_type) rest) =
    let others = handlers member_name rest in
    if str_eq member_name name then cons (struct_ nothing args none) others else others
handlers member_name (cons (var name) rest) =
    let others = handlers member_name rest in
    if str_eq member_name name then cons (var name) others else others
handlers member_name (cons a rest) = handlers member_name rest

unfoldable pub is_end : Asts → Bool
is_end end = true
is_end (cons a rest) = false

unfoldable pub is_nil : Env → Ast → Bool
is_nil env (nil_ t) = true
is_nil env (var name) = elim (get_binding env name) [ none ↦ true | some b ↦ false ]
is_nil env a = false

unfoldable pub is_constant : Bool → Ast → Bool
is_constant true (bool_ b) = b
is_constant false (bool_ b) = not b
is_constant b a = false

-- The patterns for what a pointer points to.
unfoldable pub pointed_patterns : Asts → Asts
pointed_patterns end = end
pointed_patterns (cons (heap_allocate a) rest) = cons a (pointed_patterns rest)
pointed_patterns (cons (stack_reference a) rest) = cons a (pointed_patterns rest)
pointed_patterns (cons a rest) = pointed_patterns rest

-- `named_members`, the newest value of a name first.
unfoldable pub keyword_members : Asts → List (Bytes × Ast) → List (Bytes × Ast)
keyword_members end named = named
keyword_members (cons (keyword_arg (some name) a) rest) named =
    keyword_members rest ((name, a) ∷ named)
keyword_members (cons a rest) named = keyword_members rest named

unfoldable pub named_member : List (Bytes × Ast) → Bytes → Option Ast
named_member [] name = none
named_member ((n, a) ∷ named) name =
    let rest = named_member named name in if str_eq n name then some a else rest

-- The first named field without a pattern.
unfoldable pub free_field : Fields → List (Bytes × Ast) → Option Bytes
free_field end_fields named = none
free_field (field none t fields) named = free_field fields named
free_field (field (some name) t fields) named =
    let rest = free_field fields named in
    elim (named_member named name) [ none ↦ some name | some a ↦ rest ]

unfoldable pub positional : Fields → Ast → List (Bytes × Ast) → List (Bytes × Ast)
unfolding free_field
positional fields a named = elim (free_field fields named) [
  | none ↦ named
  | some name ↦ (name, a) ∷ named
]

unfoldable pub positional_members : Fields → Asts → List (Bytes × Ast) → List (Bytes × Ast)
unfolding positional
positional_members fields end named = named
positional_members fields (cons (keyword_arg (some name) a) rest) named =
    positional_members fields rest named
positional_members fields (cons a rest) named =
    positional_members fields rest (positional fields a named)

unfoldable pub named_members : Fields → Asts → List (Bytes × Ast)
unfolding positional_members
named_members fields members = positional_members fields members (keyword_members members [])

-- Whether a later field has the name, so that `field_types` has the later one's type.
unfoldable pub has_field : Fields → Bytes → Bool
has_field end_fields name = false
has_field (field none t fields) name = has_field fields name
has_field (field (some n) t fields) name =
    let rest = has_field fields name in if str_eq n name then true else rest

unfoldable pub any_of : Bool → Checked Bool → Checked Bool
any_of true rest = ok true
any_of false rest = rest

-- No struct pattern is there without a missing field; `missing` looks for one in the patterns of the
-- fields.
unfoldable pub missing_struct :
    (missing : List (Bytes × Ast) → Checked Bool) → Fields → Asts → Checked Bool
missing_struct missing fields end = ok true
missing_struct missing fields (cons (struct_ t members units) pats) = do
  this ← missing (named_members fields members)
  elim this [ false ↦ ok false | true ↦ missing_struct missing fields pats ]
missing_struct missing fields (cons a pats) = missing_struct missing fields pats

-- A member with a value: whether its bare name is a pattern, and the patterns for it.
unfoldable pub member_missing :
    (missing : List (Bytes × Ast) → Checked Bool) → Bool → Fields → Bool → Asts → Checked Bool
member_missing missing has_names fields is_bare_name end = ok true
member_missing missing has_names fields true pats = ok false
member_missing missing true fields false pats = missing_struct missing fields pats
member_missing missing false fields false pats = fault

unfoldable pub missing_value :
    (missing : Asts → Checked Bool) → (is_hidden : Bool) → Option Ast → Checked Bool
missing_value missing true a = ok false
missing_value missing false none = ok false
missing_value missing false (some a) = missing (cons a end)

-- Whether `get_missing_pattern` returns a text. For the members of a union each is asked with all of
-- the patterns; for a struct pattern each field that it has a pattern for.
unfoldable mutual
  pub get_missing_pattern : Env → SssType → Asts → Checked Bool
  get_missing_pattern env (tagged_union_type members bits) pats =
      if any_pattern is_wildcard pats then ok false else missing_member env members pats
  get_missing_pattern env (pointer_type t is_optional is_stack is_readonly) pats =
      let pointed = get_missing_pattern env t (pointed_patterns pats) in
      if any_pattern is_wildcard pats
      then ok false
      else if is_optional && not (any_pattern (is_nil env) pats)
      then ok true
      else pointed
  get_missing_pattern env bool_type pats =
      if any_pattern is_wildcard pats
      then ok false
      else ok (not (any_pattern (is_constant false) pats && any_pattern (is_constant true) pats))
  get_missing_pattern env (struct_type true fields units) pats =
      if any_pattern is_wildcard pats
      then ok false
      else missing_struct (λ named. missing_field env fields named) fields pats
  get_missing_pattern env (struct_type false fields units) pats =
      if any_pattern is_wildcard pats then ok false else fault
  get_missing_pattern env t pats = ok (not (any_pattern is_wildcard pats))

  pub missing_member : Env → Members → Asts → Checked Bool
  missing_member env end_members pats = ok false
  missing_member env (bare_member name v members) pats = do
    rest ← missing_member env members pats
    ok (is_end (handlers name pats) || rest)
  missing_member env (member name v has_names fields units members) pats = do
    this ←
        member_missing (λ named. missing_field env fields named) has_names fields
          (any_pattern (is_bare name) pats) (handlers name pats)
    rest ← missing_member env members pats
    ok (this || rest)

  pub missing_field : Env → Fields → List (Bytes × Ast) → Checked Bool
  missing_field env end_fields named = ok false
  missing_field env (field none t fields) named = missing_field env fields named
  missing_field env (field (some name) t fields) named = do
    this ←
        missing_value (λ pats. get_missing_pattern env t pats) (has_field fields name)
          (named_member named name)
    any_of this (missing_field env fields named)

-- The field of a number, for `bind_match_patterns`.
unfoldable pub field_type_at : Fields → ℕ → Option SssType
field_type_at end_fields i = none
field_type_at (field name t fields) zero = some t
field_type_at (field name t fields) (suc i) = field_type_at fields i

unfoldable pub field_names : Fields → List (Option Bytes)
field_names end_fields = []
field_names (field name t fields) = name ∷ field_names fields

-- The first member of the name; `none` for one that has no value.
unfoldable pub member_fields : Members → Bytes → Option (Option (Bool × (Fields × Option Bytes)))
member_fields end_members name = none
member_fields (bare_member n v members) name =
    let rest = member_fields members name in if str_eq n name then some none else rest
member_fields (member n v has_names fields units members) name =
    let rest = member_fields members name in
    if str_eq n name then some (some (has_names, (fields, units))) else rest
