-- ===== src/TypeCheck/Infer.antt =====
-- `get_type` and `parse_type_ast` of typecheck.c, with `bind_match_patterns` and `is_discardable`: the
-- type of a syntax tree, by recursion on it.
pub mod Scope
pub mod Integers
pub mod Stack
use blangc.Arguments.{bind_arguments, Bound, bound, unknown_name, out_of_range}
use blangc.Prelude.{
  ℕ, Bool, true, false, not, ◌||◌, ◌==◌, if◌then◌else◌, Option, none, some, List, [], ◌∷◌, Bytes,
  codes, streq,
}
use blangc.TypeCheck.Fields.{get_field_type, get_iter_type}
use blangc.TypeCheck.Patterns.{
  patterns, get_missing_pattern, member_fields, field_type_at, field_names, is_definition,
}
use blangc.TypeCheck.Rules.{
  merge_item, strip_generators, generate, no_stack, heap_pointer, array_of, table_of, entry_types,
  entry_type, reference_is_stack, binary_type, concatenate_type, equality_type, not_type,
  negative_type, dereferenced, needs_index, index_type, called_type, do_type, merge_case,
  join_units, used_fields,
}
use blangc.TypeCheck.Syntax.{
  Ast, nil_, bool_, var, wildcard, int_, num_, range_, char_, string_literal, interp, string_join,
  array_of_type, array_, array_of_nothing, table_of_types, table_, table_entry, struct_, lambda,
  variant, binary, concatenate, equality, comparison, min_max, not_, negative, type_of,
  heap_allocate, stack_reference, size_of, field_access, index, keyword_arg, function_call, cast,
  extern, block, do_, abort, pass, if_, loop, for_, reduction, with_, using, declare, update,
  function_def, type_def, other_definition, use_, other_statement, type_array, type_table,
  type_pointer, type_measure, type_function, type_struct, type_tagged_union, type_type_ast,
  MaybeAst, nothing, just, Asts, end, cons, Params, end_params, param, default_param, Cases,
  end_cases, case_, Tags, end_tags, tag_, argument_names,
}
use blangc.TypeCheck.{
  Checked, ok, compiler_err, fault, outside, ◌>>=◌, ◌>>◌, refuse, or_err, or_fault, Env,
  get_binding, bind, file_scope, derive,
}
use blangc.Types.Cord.{type_eq}
use blangc.Types.Promote.{can_promote}
use blangc.Types.Units.{type_units, with_units}
use blangc.Types.{
  SssType, Args, Fields, Members, tag, base_variant, void_type, abort_type, bool_type, char_type,
  int_type, num_type, range_type, type_type, type_any, array_type, table_type, function_type,
  pointer_type, struct_type, tagged_union_type, module_type, end_args, arg, end_fields, field,
  end_members, member, plain_int, generator_type,
}
use blangc.TypeCheck.Nodes.{
  or_outside, named_type, member_type, precision_type, num_precision_type, bound_member,
  get_ast_binding, union_type, named_struct, bind_some, bind_named, ends_void, has_definitions,
  generate_missing, reduced, unmeasured, bind_args, pointed_type, struct_parts, union_member,
  bound_positions, positions, bind_fields, use_fields, indexed_type, first_of, parsed_array,
  parsed_pointer,
}

unfoldable mutual
  -- The result is NULL where a binding is a `TypeType` without a type.
  pub parse_type_ast : Env → Ast → Checked (Option SssType)
  parse_type_ast env (var name) = do b ← or_err (get_binding env name); named_type b.type
  parse_type_ast env (field_access a name) = do
    fielded ← parse_type_ast env a
    fielded_t ← or_outside fielded
    member_type (env.members fielded_t name)
  parse_type_ast env (type_array a) = do
    item ← parse_type_ast env a
    t ← parsed_array item
    ok (some t)
  parse_type_ast env (type_table k v) = do
    key ← parse_type_ast env k
    key_t ← or_err key
    no_stack key_t
    value ← parse_type_ast env v
    value_t ← or_err value
    no_stack value_t
    ok (some (table_type key_t value_t))
  parse_type_ast env (type_pointer a is_optional is_stack is_readonly) = do
    pointed ← parse_type_ast env a
    t ← parsed_pointer pointed is_optional is_stack is_readonly
    ok (some t)
  parse_type_ast env (type_measure a units) = do
    raw ← parse_type_ast env a
    raw_t ← or_fault raw
    unmeasured raw_t
    derived ← derive env units
    ok (some (with_units raw_t derived))
  parse_type_ast env (type_function params a) = do
    ret ← parse_type_ast env a
    ret_t ← or_fault ret
    no_stack ret_t
    args ← parse_args env params
    ok (some (function_type true true args ret_t))
  parse_type_ast env (type_struct params) = do
    fields ← parse_fields env params
    ok (some (struct_type true fields none))
  parse_type_ast env (type_tagged_union tags bits) = do
    members ← parse_members env tags
    ok (some (tagged_union_type members bits))
  parse_type_ast env (type_type_ast a) = do
    of ← parse_type_ast env a
    t ← or_outside of
    ok (some (type_type t))
  parse_type_ast env a = compiler_err

  pub parse_args : Env → Params → Checked Args
  parse_args env end_params = ok end_args
  parse_args env (param name a params) = do
    of ← parse_type_ast env a
    t ← or_outside of
    args ← parse_args env params
    ok (arg name t none args)
  parse_args env (default_param name a text params) = do
    t ← get_type env a
    args ← parse_args env params
    ok (arg name t (some text) args)

  pub parse_fields : Env → Params → Checked Fields
  parse_fields env end_params = ok end_fields
  parse_fields env (param name a params) = do
    of ← parse_type_ast env a
    t ← or_fault of
    no_stack t
    fields ← parse_fields env params
    ok (field name t fields)
  parse_fields env (default_param name a text params) = do
    t ← get_type env a
    no_stack t
    fields ← parse_fields env params
    ok (field name t fields)

  pub parse_members : Env → Tags → Checked Members
  parse_members env end_tags = ok end_members
  parse_members env (tag_ name value params tags) = do
    fields ← parse_fields env params
    members ← parse_members env tags
    ok (member name value true fields none members)

  -- The environment of a case.
  pub bind_match_patterns : Env → SssType → Ast → Checked Env
  bind_match_patterns env t (wildcard (some name)) =
      ok
        (elim (get_binding env name) [ none ↦ bind env name (base_variant t) false | some b ↦ env ])
  bind_match_patterns env t (heap_allocate a) = elim (pointed_type (base_variant t)) [
    | none ↦ ok env
    | some u ↦ bind_match_patterns env u a
  ]
  bind_match_patterns env t (struct_ (just a) args units) = elim (struct_parts (base_variant t)) [
    | none ↦ ok env
    | some (has_names, (fields, field_units)) ↦ do
      pat_t ← get_type env a
      if type_eq (base_variant t) pat_t
          then (positions has_names fields args >>= λ ps. bind_positions env fields args ps)
          else ok env
  ]
  bind_match_patterns env t (struct_ nothing args units) = elim (struct_parts (base_variant t)) [
    | none ↦ ok env
    | some (has_names, (fields, field_units)) ↦
        if streq field_units units
        then (positions has_names fields args >>= λ ps. bind_positions env fields args ps)
        else ok env
  ]
  bind_match_patterns env t (function_call (var name) args extern_type) =
      elim (union_member (base_variant t) name) [
        | none ↦ ok env
        | some none ↦ compiler_err
        | some (some (has_names, (fields, field_units))) ↦
            if streq field_units none
            then (positions has_names fields args >>= λ ps. bind_positions env fields args ps)
            else ok env
      ]
  bind_match_patterns env t a = ok env

  pub bind_positions : Env → Fields → Asts → List ℕ → Checked Env
  bind_positions env fields end ps = ok env
  bind_positions env fields (cons a args) [] = ok env
  bind_positions env fields (cons (keyword_arg none a) args) (p ∷ ps) = do
    t ← or_fault (field_type_at fields p)
    env ← bind_match_patterns env t a
    bind_positions env fields args ps
  bind_positions env fields (cons a args) (p ∷ ps) = do
    t ← or_fault (field_type_at fields p)
    env ← bind_match_patterns env t a
    bind_positions env fields args ps

  pub get_type : Env → Ast → Checked SssType
  get_type env (nil_ a) = do
    pointed ← parse_type_ast env a
    t ← or_outside pointed
    ok (pointer_type t true false false)
  get_type env (bool_ b) = ok bool_type
  get_type env (int_ precision is_unsigned units) = do
    derived ← derive env units
    precision_type precision is_unsigned derived
  get_type env char_ = ok char_type
  get_type env (num_ precision units) = do
    derived ← derive env units
    num_precision_type precision derived
  get_type env (type_of a) = do t ← get_type env a; ok (type_type t)
  get_type env size_of = ok plain_int
  get_type env (heap_allocate a) = do t ← get_type env a; heap_pointer t
  get_type env (stack_reference (field_access a name)) = do
    pointed_t ← get_type env (field_access a name)
    t ← get_type env a
    ok (pointer_type pointed_t false (reference_is_stack t) false)
  get_type env (stack_reference (index a i)) = do
    pointed_t ← get_type env (index a i)
    t ← get_type env a
    ok (pointer_type pointed_t false (reference_is_stack t) false)
  get_type env (stack_reference a) = do
    pointed_t ← get_type env a
    ok (pointer_type pointed_t false true false)
  get_type env range_ = ok range_type
  get_type env string_join = ok (array_type char_type)
  get_type env interp = ok (array_type char_type)
  get_type env string_literal = ok (array_type char_type)
  get_type env (var name) = do b ← or_err (get_binding env name); ok b.type
  get_type env (wildcard name) = compiler_err
  get_type env (array_of_type a) = do item ← parse_type_ast env a; array_of item
  get_type env (array_ items) = do item ← items_type env none items; array_of item
  get_type env array_of_nothing = compiler_err
  get_type env (table_of_types k v) = do
    key ← parse_type_ast env k
    value ← parse_type_ast env v
    table_of key value
  get_type env (table_ default entries) = do
    value ← maybe_type env default
    (key, value) ← entries_type env none value entries
    table_of key value
  get_type env (table_entry k v) = do
    key_t ← get_type env k
    value_t ← get_type env v
    ok (entry_type key_t value_t)
  get_type env (field_access a name) = do
    t ← get_type env a
    found ← get_field_type env t name
    or_err found
  get_type env (index a nothing) = do
    t ← get_type env a
    elim (dereferenced t) [ some r ↦ r | none ↦ index_type t none ]
  get_type env (index a (just i)) = do t ← get_type env a; indexed_type t (λ _. get_type env i)
  get_type env (keyword_arg name a) = get_type env a
  get_type env (function_call a args (just ret)) = do t ← parse_type_ast env ret; or_outside t
  get_type env (function_call a args nothing) = do t ← get_type env a; called_type env t
  get_type env (block statements) =
      if ends_void statements
      then ok void_type
      else if has_definitions statements
      then outside
      else block_type env statements
  get_type env (do_ label a nothing) = do t ← get_type env a; do_type t label none
  get_type env (do_ label a (just e)) = do
    t ← get_type env a
    else_t ← get_type env e
    do_type t label (some else_t)
  get_type env (extern a address) = do
    of ← parse_type_ast env a
    t ← or_outside of
    ok (if address then pointer_type t false false false else t)
  get_type env (declare name a is_global) = ok void_type
  get_type env update = ok void_type
  get_type env (use_ path) = ok (module_type path)
  get_type env abort = ok abort_type
  get_type env pass = ok void_type
  get_type env (cast a) = do t ← parse_type_ast env a; or_outside t
  get_type env (type_array a) = do
    item ← parse_type_ast env a
    t ← parsed_array item
    ok (type_type t)
  get_type env (type_pointer a is_optional is_stack is_readonly) = do
    pointed ← parse_type_ast env a
    t ← parsed_pointer pointed is_optional is_stack is_readonly
    ok (type_type t)
  get_type env (type_function params a) = do
    ret ← parse_type_ast env a
    ret_t ← or_fault ret
    no_stack ret_t
    args ← parse_args env params
    ok (type_type (function_type true true args ret_t))
  get_type env (negative a) = do t ← get_type env a; negative_type t
  get_type env (binary op l r) = do
    lhs_t ← get_type env l
    rhs_t ← get_type env r
    binary_type env op lhs_t rhs_t
  get_type env (concatenate l r) = do
    lhs_t ← get_type env l
    rhs_t ← get_type env r
    concatenate_type lhs_t rhs_t
  get_type env (comparison l r) = ok bool_type
  get_type env (min_max l r) = do
    lhs_t ← get_type env l
    rhs_t ← get_type env r
    join_units lhs_t rhs_t
  get_type env (not_ a) = do t ← get_type env a; not_type t
  get_type env (equality l r) = do
    lhs_t ← get_type env l
    rhs_t ← get_type env r
    equality_type lhs_t rhs_t
  get_type env (lambda params body) = do
    args ← lambda_args env params
    body_env ← bind_args (file_scope env) args
    ret_t ← get_type body_env body
    no_stack ret_t
    ok (function_type true false args ret_t)
  get_type env (function_def params ret) = do
    default_env ← bind_typed env (file_scope env) params
    args ← def_args env default_env params
    of ← maybe_parsed env ret
    ret_t ← or_fault of
    no_stack ret_t
    ok (function_type true true args ret_t)
  get_type env type_def = ok void_type
  get_type env other_definition = ok void_type
  get_type env (struct_ nothing args units) = do
    fields ← struct_fields env args
    derived ← derive env units
    ok (struct_type true fields derived)
  get_type env (struct_ (just (field_access a name)) args units) = do
    b ← get_ast_binding env (field_access a name)
    fielded_t ← get_type env a
    union_t ← union_type fielded_t
    named_struct env union_t b units
  get_type env (struct_ (just a) args units) = do
    b ← get_ast_binding env a
    named_struct env none b units
  get_type env (if_ (declare name a is_global) cases) = do
    subject_t ← get_type env a
    t ← cases_type (bind env name subject_t false) subject_t none cases
    is_missing ← get_missing_pattern (bind env name subject_t false) subject_t (patterns cases)
    generate_missing is_missing t
  get_type env (if_ a cases) = do
    subject_t ← get_type env a
    t ← cases_type env subject_t none cases
    is_missing ← get_missing_pattern env subject_t (patterns cases)
    generate_missing is_missing t
  get_type env (loop a) = do t ← get_type env a; ok (generate t)
  get_type env (for_ i x iter first body between empty) = do
    iter_t ← get_type env iter
    value_t ← get_iter_type iter_t
    loop_env ← ok (bind_some (bind_some env i plain_int) x value_t)
    part ← first_of (maybe_type loop_env first) (
        first_of (maybe_type loop_env body)
          (first_of (maybe_type loop_env between) (maybe_type loop_env empty)))
    t ← or_err part
    ok (generate t)
  get_type env (reduction iter a fallback) = do
    iter_t ← get_type env iter
    item_t ← get_iter_type iter_t
    combo_t ← get_type (bind (bind env (codes "x") item_t false) (codes "y") item_t false) a
    _ ← reduced item_t combo_t none
    fallback_t ←
        maybe_type (bind (bind env (codes "x") item_t false) (codes "y") item_t false) fallback
    reduced item_t combo_t fallback_t
  get_type env (with_ none a body) = get_type env body
  get_type env (with_ (some name) a body) = do
    t ← get_type env a
    get_type (bind env name t false) body
  get_type env (using used body) = do using_env ← use_all env used; get_type using_env body
  get_type env (variant a) = do t ← parse_type_ast env a; or_outside t
  get_type env other_statement = ok void_type
  get_type env a = compiler_err

  pub maybe_type : Env → MaybeAst → Checked (Option SssType)
  maybe_type env nothing = ok none
  maybe_type env (just a) = do t ← get_type env a; ok (some t)

  -- The return type of a definition, `Void` where it has none.
  pub maybe_parsed : Env → MaybeAst → Checked (Option SssType)
  maybe_parsed env nothing = ok (some void_type)
  maybe_parsed env (just a) = parse_type_ast env a

  pub items_type : Env → Option SssType → Asts → Checked (Option SssType)
  items_type env item_type end = ok item_type
  items_type env item_type (cons a items) = do
    t ← get_type env a
    merged ← merge_item item_type (strip_generators t)
    items_type env (some merged) items

  pub entries_type :
      Env → (key_t value_t : Option SssType) → Asts → Checked (Option SssType × Option SssType)
  entries_type env key_t value_t end = ok (key_t, value_t)
  entries_type env key_t value_t (cons a entries) = do
    t ← get_type env a
    (k, v) ← entry_types (strip_generators t)
    key_merged ← merge_item key_t k
    value_merged ← merge_item value_t v
    entries_type env (some key_merged) (some value_merged) entries

  -- The statements in turn, and the type of the last one.
  pub block_type : Env → Asts → Checked SssType
  block_type env end = ok void_type
  block_type env (cons a end) = get_type env a
  block_type env (cons (declare name a is_global) rest) = do
    t ← get_type env a
    block_type (bind env name t is_global) rest
  block_type env (cons a rest) = block_type env rest

  pub lambda_args : Env → Params → Checked Args
  lambda_args env end_params = ok end_args
  lambda_args env (param name a params) = do
    of ← parse_type_ast env a
    t ← or_outside of
    args ← lambda_args env params
    ok (arg name t none args)
  lambda_args env (default_param name a text params) = fault

  -- The arguments that have types, which the defaults may refer to.
  pub bind_typed : Env → Env → Params → Checked Env
  bind_typed env default_env end_params = ok default_env
  bind_typed env default_env (param name a params) = do
    of ← parse_type_ast env a
    t ← or_outside of
    default_env ← bind_named default_env name t
    bind_typed env default_env params
  bind_typed env default_env (default_param name a text params) = bind_typed env default_env params

  pub def_args : Env → Env → Params → Checked Args
  def_args env default_env end_params = ok end_args
  def_args env default_env (param name a params) = do
    of ← parse_type_ast env a
    t ← or_outside of
    args ← def_args env default_env params
    ok (arg name t none args)
  def_args env default_env (default_param name a text params) = do
    t ← get_type default_env a
    default_env ← bind_named default_env name t
    args ← def_args env default_env params
    ok (arg name t (some text) args)

  pub struct_fields : Env → Asts → Checked Fields
  struct_fields env end = ok end_fields
  struct_fields env (cons (keyword_arg name a) args) = do
    t ← get_type env a
    no_stack t
    fields ← struct_fields env args
    ok (field name t fields)
  struct_fields env (cons a args) = compiler_err

  pub cases_type : Env → (subject_t : SssType) → Option SssType → Cases → Checked (Option SssType)
  cases_type env subject_t t end_cases = ok t
  cases_type env subject_t t (case_ pattern a cases) = do
    case_env ← bind_match_patterns env subject_t pattern
    case_t ← get_type case_env a
    merged ← merge_case t case_t
    cases_type env subject_t (some merged) cases

  pub use_all : Env → Asts → Checked Env
  use_all env end = ok env
  use_all env (cons a used) = do
    t ← get_type env a
    (has_names, fields) ← used_fields t
    using_env ← use_fields (λ e. get_type e a) env has_names fields
    use_all using_env used

unfoldable pub is_no_value : SssType → Bool
is_no_value t = tag (strip_generators t) == 2 || tag (strip_generators t) == 1

-- Whether a statement's value may be dropped.
unfoldable pub is_discardable : Env → Ast → Checked Bool
unfolding is_no_value
is_discardable env update = ok true
is_discardable env (declare name a is_global) = ok true
is_discardable env (function_def params ret) = ok true
is_discardable env type_def = ok true
is_discardable env (use_ path) = ok true
is_discardable env a = do t ← get_type env a; ok (is_no_value t)
