-- ===== src/Match/Codes.antt =====
-- The code of `perform_conditional_match` for each kind of pattern, and the values that it lets through.
use blangc.Match.Accept.{accepts, accepts-bind, FieldsTake, members-accepts}
use blangc.Match.Named.{distinct_names}
use blangc.Match.Typed.{fields_hold}
use blangc.Match.{
  Value, null_pointer, pointer_to, struct_value, bool_value, union_value, Values, Test,
  perform_conditional_match, match_members, plain_fields, typed_fields, payload_fields,
  compare_values, compared, pointed_test, pattern_pointed, member_test, has_tag, member_tag,
  union_tag,
}
use blangc.Prelude.Int.{ℤ, eq_ℤ}
use blangc.Prelude.{
  ◌≡◌, refl, sym, ap, subst, ◌∙◌, Bool, true, false, not, Option, none, some, Bytes, arith,
}
use blangc.TypeCheck.Infer.{get_type}
use blangc.TypeCheck.Nodes.{positions, struct_parts, union_member}
use blangc.TypeCheck.Patterns.{is_wildcard, is_constant, named_members, member_fields}
use blangc.TypeCheck.Syntax.{
  Ast, nil_, bool_, var, wildcard, heap_allocate, stack_reference, struct_, function_call, MaybeAst,
  nothing, just, Asts,
}
use blangc.TypeCheck.{Checked, ok, ◌>>=◌, refuse, or_fault, Env}
use blangc.Types.Promote.{can_promote}
use blangc.Types.{
  SssType, Fields, Members, base_variant, bool_type, pointer_type, struct_type, tagged_union_type,
  type_type,
}

module _ (equals : Ast → Test) where
  abbrev pub Code : Env → SssType → Ast → Value → Type 0
  Code env t a v = accepts (perform_conditional_match equals env t a) v ≡ true

  pub wildcard-accepts :
      (env : Env) (t : SssType) (a : Ast) (v : Value) → is_wildcard a ≡ true → Code env t a v
  unfolding is_wildcard perform_conditional_match accepts
  wildcard-accepts env t (wildcard none) v h = refl
  wildcard-accepts env t (wildcard (some name)) v h = refl
  wildcard-accepts env t _ v h = absurd (ground arith)

  pub plain_fields-struct :
      (fields : Fields) (field_units units : Option Bytes) (r : Bool × Fields)
      → plain_fields (struct_type true fields field_units) units ≡ ok r
      → r ≡ (true, fields)
  unfolding plain_fields struct_parts base_variant
  plain_fields-struct fields field_units units r h = ground arith

  pub typed_fields-struct :
      (fields : Fields) (field_units : Option Bytes) (pat_t : SssType) (r : Bool × Fields)
      → typed_fields (struct_type true fields field_units) pat_t ≡ ok r
      → r ≡ (true, fields)
  unfolding typed_fields struct_parts base_variant
  typed_fields-struct fields field_units (type_type pat_t) r h = ground arith
  typed_fields-struct fields field_units _ r h = absurd (ground arith)

  pub struct-accepts :
      (env : Env) (fields : Fields) (field_units : Option Bytes) (t : MaybeAst) (args : Asts)
      (units : Option Bytes) (values : Values)
      → distinct_names fields ≡ true
      → FieldsTake equals fields (named_members fields args)
      → fields_hold fields values ≡ true
      → Code env (struct_type true fields field_units) (struct_ t args units) (struct_value values)
  unfolding perform_conditional_match
  struct-accepts env fields field_units nothing args units values d h b =
      accepts-bind (plain_fields (struct_type true fields field_units) units) _ _ (λ r e.
        subst
          (λ x.
            accepts (positions (x.0) (x.1) args >>= λ ps. match_members equals env (x.1) args ps)
              (struct_value values)
            ≡ true)
          (sym (plain_fields-struct fields field_units units r e))
          (members-accepts equals env fields args values d h b))
  struct-accepts env fields field_units (just a) args units values d h b =
      accepts-bind (refuse _) _ _ (λ _ _. accepts-bind (get_type env a) _ _ (λ pat_t _.
        accepts-bind (typed_fields (struct_type true fields field_units) pat_t) _ _ (λ r e.
          subst
            (λ x.
              accepts (positions (x.0) (x.1) args >>= λ ps. match_members equals env (x.1) args ps)
                (struct_value values)
              ≡ true)
            (sym (typed_fields-struct fields field_units pat_t r e))
            (members-accepts equals env fields args values d h b))))

  -- A member by its name, and with patterns for its fields.
  pub var-accepts :
      (env : Env) (members : Members) (bits : _) (n : Bytes) (v_tag tag_value : ℤ) (values : Values)
      → member_tag members n ≡ some tag_value
      → eq_ℤ v_tag tag_value ≡ true
      → Code env (tagged_union_type members bits) (var n) (union_value v_tag values)
  unfolding perform_conditional_match accepts union_tag base_variant has_tag
  var-accepts env members bits n v_tag tag_value values m e =
      subst
        (λ o.
          accepts
            (elim o [
              | some t ↦ ok (env, has_tag t)
              | none ↦ compare_values equals env (tagged_union_type members bits) (var n)
            ])
            (union_value v_tag values)
          ≡ true)
        (sym m) e

  -- The code of a constructor pattern, once the member's tag is found.
  abbrev pub CallCode :
      Env → ℤ → Option (Bool × (Fields × Option Bytes)) → Asts → Checked (Env × Test)
  CallCode env tag_value parts args = payload_fields parts >>= λ r.
      positions (r.0) (r.1) args >>= λ ps.
      match_members equals env (r.1) args ps >>= λ s. ok (s.0, member_test tag_value (s.1))

  pub call-found :
      (env : Env) (members : Members) (bits : _) (n : Bytes) (args : Asts) (r : MaybeAst)
      (v : Value) (tag_value : ℤ) (parts : Option (Bool × (Fields × Option Bytes)))
      → member_tag members n ≡ some tag_value
      → member_fields members n ≡ some parts
      → accepts (CallCode env tag_value parts args) v ≡ true
      → Code env (tagged_union_type members bits) (function_call (var n) args r) v
  unfolding perform_conditional_match union_tag union_member base_variant
  call-found env members bits n args r v tag_value parts m f h =
      subst
        (λ o.
          accepts
            (elim o [
              | some t ↦ or_fault (member_fields members n) >>= λ q. CallCode env t q args
              | none ↦
                  compare_values equals env (tagged_union_type members bits)
                    (function_call (var n) args r)
            ])
            v
          ≡ true)
        (sym m)
        (subst (λ o. accepts (or_fault o >>= λ q. CallCode env tag_value q args) v ≡ true) (sym f)
          h)

  pub payload_fields-eq :
      (has_names : Bool) (fields : Fields) (units : Option Bytes) (r : Bool × Fields)
      → payload_fields (some (has_names, (fields, units))) ≡ ok r
      → r ≡ (has_names, fields)
  unfolding payload_fields
  payload_fields-eq has_names fields units r h = ground arith

  pub call-accepts :
      (env : Env) (tag_value v_tag : ℤ) (fields : Fields) (units : Option Bytes) (args : Asts)
      (values : Values)
      → eq_ℤ v_tag tag_value ≡ true
      → distinct_names fields ≡ true
      → FieldsTake equals fields (named_members fields args)
      → fields_hold fields values ≡ true
      → accepts
          (CallCode env tag_value (some (true, (fields, units))) args)
          (union_value v_tag values)
        ≡ true
  unfolding accepts member_test
  call-accepts env tag_value v_tag fields units args values e d h b =
      accepts-bind (payload_fields (some (true, (fields, units)))) _ _ (λ r f.
        subst
          (λ x.
            accepts
              (positions (x.0) (x.1) args >>= λ ps. match_members equals env (x.1) args ps >>= λ s.
                ok (s.0, member_test tag_value (s.1)))
              (union_value v_tag values)
            ≡ true)
          (sym (payload_fields-eq true fields units r f))
          (accepts-bind (positions true fields args) _ _ (λ ps g.
            accepts-bind (match_members equals env fields args ps) _ _ (λ s g'.
              let m = members-accepts equals env fields args values d h b in
              let m' =
                subst
                  (λ c.
                    accepts (c >>= λ ps. match_members equals env fields args ps)
                      (struct_value values)
                    ≡ true)
                  g m in
              let m'' = ap (λ c. accepts c (struct_value values)) g' in ground arith))))

  pub bare_call-accepts :
      (env : Env) (tag_value : ℤ) (args : Asts) (v : Value)
      → accepts (CallCode env tag_value none args) v ≡ true
  unfolding accepts payload_fields
  bare_call-accepts env tag_value args v = refl

  pub pointer-accepts :
      (env : Env) (t : SssType) (is_optional is_stack is_readonly : Bool) (a : Ast) (v : Value)
      → Code env t a v
      → Code env (pointer_type t is_optional is_stack is_readonly) (heap_allocate a) (pointer_to v)
        × Code env
            (pointer_type t is_optional is_stack is_readonly)
            (stack_reference a)
            (pointer_to v)
  unfolding perform_conditional_match pattern_pointed accepts pointed_test
  pointer-accepts env t is_optional true is_readonly a v h = (
    refl,
    accepts-bind (perform_conditional_match equals env t a) _ _
        (λ r e. sym (ap (λ c. accepts c v) e) ∙ h),
  )
  pointer-accepts env t is_optional false is_readonly a v h = (
    accepts-bind (perform_conditional_match equals env t a) _ _
        (λ r e. sym (ap (λ c. accepts c v) e) ∙ h),
    refl,
  )

  pub compare_values-accepts :
      (env : Env) (t : SssType) (a : Ast) (v : Value)
      → compared equals a v ≡ true
      → accepts (compare_values equals env t a) v ≡ true
  unfolding compare_values accepts
  compare_values-accepts env t a v h = accepts-bind (get_type env a) _ v (λ u _.
      accepts-bind (refuse (not (can_promote u t))) (λ _. ok (env, compared equals a)) v (λ _ _. h))

  pub nil-accepts : (env : Env) (t : SssType) (a : Ast) → Code env t (nil_ a) null_pointer
  unfolding perform_conditional_match compared
  nil-accepts env t a = compare_values-accepts env t (nil_ a) null_pointer refl

  pub constant-accepts :
      (env : Env) (b : Bool) (a : Ast)
      → is_constant b a ≡ true
      → Code env bool_type a (bool_value b)
  unfolding is_constant perform_conditional_match compared
  constant-accepts env true (bool_ true) h =
      compare_values-accepts env bool_type (bool_ true) (bool_value true) refl
  constant-accepts env false (bool_ false) h =
      compare_values-accepts env bool_type (bool_ false) (bool_value false) refl
  constant-accepts env true (bool_ false) h = absurd (ground arith)
  constant-accepts env false (bool_ true) h = absurd (ground arith)
  constant-accepts env true _ h = absurd (ground arith)
  constant-accepts env false _ h = absurd (ground arith)
