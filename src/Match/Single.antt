-- ===== src/Match/Single.antt =====
-- `get_missing_pattern` of typecheck.c on a single pattern, against the code of compile/match.c, with
-- whatever names the earlier parts of a pattern have bound.
use blangc.Match.Accept.{accepts, Takes, FieldsTake, target}
use blangc.Match.Cases.{
  InPats, bind_ok, missing_struct-InPats, missing_struct-Call, handlers-InPats,
}
use blangc.Match.Named.{distinct_names, here, there}
use blangc.Match.Typed.{
  has_type, fields_hold, members_hold, no_values, well_named, fields_named, members_named,
  distinct_members, MemberIn, here_bare, here_member, past_bare, past_member, MemberIn-member_tag,
  MemberIn-member_fields,
}
use blangc.Match.{Value, pointer_to, struct_value, bool_value, union_value, Values, Test}
use blangc.Prelude.Int.{ℤ, eq_ℤ}
use blangc.Prelude.{
  ℕ, zero, suc, ◌≡◌, refl, sym, ap, subst, ◌∙◌, ◌⊎◌, inl, inr, Bool, true, false, not, ◌&&◌,
  Bool-cases, Option, none, some, List, Bytes, arith,
}
use blangc.TypeCheck.Patterns.{
  any_pattern, is_wildcard, is_bare, is_nil, is_constant, pointed_patterns, handlers, named_member,
  named_members, member_missing, missing_value, has_field, get_missing_pattern, missing_member,
  missing_field,
}
use blangc.TypeCheck.Syntax.{
  Ast, var, wildcard, heap_allocate, stack_reference, function_call, keyword_arg, MaybeAst, Asts,
  end, cons,
}
use blangc.TypeCheck.{ok, Env}
use blangc.Types.{
  SssType, Fields, Members, bool_type, pointer_type, struct_type, tagged_union_type, end_fields,
  field, end_members, bare_member, member,
}
use blangc.Match.Codes.{
  Code, CallCode, wildcard-accepts, struct-accepts, var-accepts, call-found, call-accepts,
  bare_call-accepts, pointer-accepts, constant-accepts,
}
use blangc.Match.Missing.{
  unnamed, keyword_missing, InPats-bare, member_missing-cases, single_pattern, if_false,
  any_pattern-single, any_of-false, and_left, and_right, not-true, or_false, or_right, nil-pointed,
}

module _ (equals : Ast → Test) where
  -- What lets a value through as it stands does so under `target`.
  Takes-of :
      (envm : Env) (t : SssType) (a : Ast) (v : Value)
      → well_named t ≡ true
      → get_missing_pattern envm t (cons a end) ≡ ok false
      → ((env : Env) → Code equals env t a v)
      → Takes equals t a v
  unfolding target
  Takes-of envm t (keyword_arg none a) v w h k env =
      absurd (let f = unnamed envm t w (sym (keyword_missing envm t none a) ∙ h) in ground arith)
  Takes-of envm t _ v w h k env = (k env, k env)

  -- The pattern for the member of a union value.
  abbrev Handled : Bytes → ℤ → Option (Bool × (Fields × Option Bytes)) → Asts → ℤ → Values → Type 0
  Handled n tag_value parts pats v_tag values =
      InPats (var n) pats
      ⊎ ((args : Asts) × (r : MaybeAst) × InPats (function_call (var n) args r) pats
          × ((env : Env)
              → accepts (CallCode equals env tag_value parts args) (union_value v_tag values)
                ≡ true))

  pub record Found (members : Members) (pats : Asts) (v_tag : ℤ) (values : Values) : Type 0 where
    name : Bytes
    tag_value : ℤ
    parts : Option (Bool × (Fields × Option Bytes))
    is_in : MemberIn name tag_value parts members
    same_tag : eq_ℤ v_tag tag_value ≡ true
    handled : Handled name tag_value parts pats v_tag values

  Found-bare :
      {members : Members} {pats : Asts} {v_tag : ℤ} {values : Values} (n : Bytes) (tag_value : ℤ)
      → Found members pats v_tag values
      → Found (bare_member n tag_value members) pats v_tag values
  Found-bare n tag_value f = record {
    name = f.name;
    tag_value = f.tag_value;
    parts = f.parts;
    is_in = past_bare f.is_in;
    same_tag = f.same_tag;
    handled = f.handled;
  }

  Found-member :
      {members : Members} {pats : Asts} {v_tag : ℤ} {values : Values} (n : Bytes) (tag_value : ℤ)
      (has_names : Bool) (fields : Fields) (units : Option Bytes)
      → Found members pats v_tag values
      → Found (member n tag_value has_names fields units members) pats v_tag values
  Found-member n tag_value has_names fields units f = record {
    name = f.name;
    tag_value = f.tag_value;
    parts = f.parts;
    is_in = past_member f.is_in;
    same_tag = f.same_tag;
    handled = f.handled;
  }

  pub Found-accepts :
      (members : Members) (bits : ℕ) (pats : Asts) (v_tag : ℤ) (values : Values)
      → distinct_members members ≡ true
      → Found members pats v_tag values
      → (a : Ast) × InPats a pats
        × ((env : Env)
            → Code equals env (tagged_union_type members bits) a (union_value v_tag values))
  Found-accepts members bits pats v_tag values d f = elim f.handled [
    | inl i ↦ (
      var f.name,
      i,
      λ env.
          var-accepts equals env members bits f.name v_tag f.tag_value values
            (MemberIn-member_tag d f.is_in) f.same_tag,
    )
    | inr (args, r, i, k) ↦ (
      function_call (var f.name) args r,
      i,
      λ env.
          call-found equals env members bits f.name args r (union_value v_tag values) f.tag_value
            f.parts (MemberIn-member_tag d f.is_in) (MemberIn-member_fields d f.is_in) (k env),
    )
  ]

  -- One pattern alone, with the names that earlier parts of a pattern have bound.
  mutual
    unfolding get_missing_pattern well_named has_type pointed_patterns any_pattern is_wildcard
        missing_field missing_value fields_named distinct_names missing_member members_named
        members_hold

    single :
        (t : SssType) (envm : Env) (a : Ast)
        → well_named t ≡ true
        → get_missing_pattern envm t (cons a end) ≡ ok false
        → (v : Value) → has_type t v ≡ true
        → (env : Env) → Code equals env t a v
    single (tagged_union_type members bits) envm a w h (union_value v_tag values) b env =
        elim (Bool-cases (any_pattern is_wildcard (cons a end))) [
          | inl e ↦
              wildcard-accepts equals env (tagged_union_type members bits) a
                (union_value v_tag values) (sym (any_pattern-single is_wildcard a) ∙ e)
          | inr e ↦
              let f =
                single_members members envm (cons a end) v_tag values (and_right _ _ w)
                  (if_false _ _ _ _ e h) b in
              let (a', i, k) =
                Found-accepts members bits (cons a end) v_tag values
                  (and_right _ _ (and_left _ _ w)) f in
              subst
                (λ x. Code equals env (tagged_union_type members bits) x (union_value v_tag values))
                (single_pattern i) (k env)
        ]
    single (tagged_union_type members bits) envm a w h _ b env = absurd (ground arith)
    single (pointer_type t true is_stack is_readonly) envm a w h v b env =
        elim (Bool-cases (any_pattern is_wildcard (cons a end))) [
          | inl e ↦
              wildcard-accepts equals env (pointer_type t true is_stack is_readonly) a v
                (sym (any_pattern-single is_wildcard a) ∙ e)
          | inr e ↦ elim (Bool-cases (any_pattern (is_nil envm) (cons a end))) [
            | inl n ↦
                let g = if_false _ _ _ _ (ap not n) (if_false _ _ _ _ e h) in
                absurd (
                  let f = unnamed envm t w (
                    sym (
                      ap (get_missing_pattern envm t)
                        (nil-pointed envm a (sym (any_pattern-single (is_nil envm) a) ∙ n)))
                    ∙ g) in
                  ground arith)
            | inr n ↦ absurd (let g = if_false _ _ _ _ e h in ground arith)
          ]
        ]
    single (pointer_type t false is_stack is_readonly) envm (heap_allocate a) w h (pointer_to v) b
          env =
        (pointer-accepts equals env t false is_stack is_readonly a v
          (single t envm a w h v b env)).0
    single (pointer_type t false is_stack is_readonly) envm (stack_reference a) w h (pointer_to v) b
          env =
        (pointer-accepts equals env t false is_stack is_readonly a v
          (single t envm a w h v b env)).1
    single (pointer_type t false is_stack is_readonly) envm (wildcard name) w h (pointer_to v) b
          env =
        wildcard-accepts equals env (pointer_type t false is_stack is_readonly) (wildcard name)
          (pointer_to v) refl
    single (pointer_type t false is_stack is_readonly) envm _ w h (pointer_to v) b env =
        absurd (let f = unnamed envm t w h in ground arith)
    single (pointer_type t false is_stack is_readonly) envm a w h _ b env = absurd (ground arith)
    single bool_type envm a w h (bool_value c) b env =
        elim (Bool-cases (any_pattern is_wildcard (cons a end))) [
          | inl e ↦
              wildcard-accepts equals env bool_type a (bool_value c)
                (sym (any_pattern-single is_wildcard a) ∙ e)
          | inr e ↦
              let g = if_false _ _ _ _ e h in
              let x = any_pattern-single (is_constant true) a in
              let y = any_pattern-single (is_constant false) a in
              constant-accepts equals env c a (elim c as (λ c. is_constant c a ≡ true) [
                | true ↦ ground arith
                | false ↦ ground arith
              ])
        ]
    single bool_type envm a w h _ b env = absurd (ground arith)
    single (struct_type true fields units) envm a w h (struct_value values) b env =
        elim (Bool-cases (any_pattern is_wildcard (cons a end))) [
          | inl e ↦
              wildcard-accepts equals env (struct_type true fields units) a (struct_value values)
                (sym (any_pattern-single is_wildcard a) ∙ e)
          | inr e ↦
              let (t, args, u, i, g) =
                missing_struct-InPats (λ named. missing_field envm fields named) fields (cons a end)
                  (if_false _ _ _ _ e h) in
              let k =
                single_fields fields envm (named_members fields args) (and_left _ _ w)
                  (and_right _ _ w) g in
              subst (λ x. Code equals env (struct_type true fields units) x (struct_value values))
                (single_pattern i)
                (struct-accepts equals env fields units t args u values (and_left _ _ w) k b)
        ]
    single (struct_type true fields units) envm a w h _ b env = absurd (ground arith)
    single (struct_type false fields units) envm a w h v b env =
        elim (Bool-cases (any_pattern is_wildcard (cons a end))) [
          | inl e ↦
              wildcard-accepts equals env (struct_type false fields units) a v
                (sym (any_pattern-single is_wildcard a) ∙ e)
          | inr e ↦ absurd (let g = if_false _ _ _ _ e h in ground arith)
        ]
    single t envm a w h v b env =
        wildcard-accepts equals env t a v (let x = any_pattern-single is_wildcard a in ground arith)

    pub single_fields :
        (fields : Fields) (envm : Env) (named : List (Bytes × Ast))
        → distinct_names fields ≡ true
        → fields_named fields ≡ true
        → missing_field envm fields named ≡ ok false
        → FieldsTake equals fields named
    single_fields end_fields envm named d w h p n t a f e v b = elim f [ ]
    single_fields (field none u fields) envm named d w h p n t a f e v b = absurd (ground arith)
    single_fields (field (some m) u fields) envm named d w h zero n t a here e v b =
        let (this, g, g') =
          bind_ok
            (missing_value (λ pats. get_missing_pattern envm u pats) (has_field fields m)
              (named_member named m))
            _ false h in
        let (f, f') = any_of-false this (missing_field envm fields named) g' in
        let hidden : has_field fields m ≡ false = not-true _ (and_left _ _ d) in
        let q : get_missing_pattern envm u (cons a end) ≡ ok false =
          sym (ap (λ x. missing_value (λ pats. get_missing_pattern envm u pats) x (some a)) hidden)
          ∙ (sym (
                ap
                  (λ x.
                    missing_value (λ pats. get_missing_pattern envm u pats) (has_field fields m) x)
                  e)
              ∙ (g ∙ ap ok f)) in
        Takes-of envm u a v (and_left _ _ w) q (single u envm a (and_left _ _ w) q v b)
    single_fields (field (some m) u fields) envm named d w h (suc p) n t a (there f) e v b =
        let (this, g, g') =
          bind_ok
            (missing_value (λ pats. get_missing_pattern envm u pats) (has_field fields m)
              (named_member named m))
            _ false h in
        let (_, f') = any_of-false this (missing_field envm fields named) g' in
        single_fields fields envm named (and_right _ _ d) (and_right _ _ w) f' p n t a f e v b

    pub single_members :
        (members : Members) (envm : Env) (pats : Asts) (v_tag : ℤ) (values : Values)
        → members_named members ≡ true
        → missing_member envm members pats ≡ ok false
        → members_hold members v_tag values ≡ true
        → Found members pats v_tag values
    single_members end_members envm pats v_tag values w h b = absurd (ground arith)
    single_members (bare_member n tag_value members) envm pats v_tag values w h b =
        let (rest, g, g') = bind_ok (missing_member envm members pats) _ false h in
        elim (Bool-cases (eq_ℤ v_tag tag_value && no_values values)) [
          | inl e ↦ record {
            name = n;
            tag_value = tag_value;
            parts = none;
            is_in = here_bare refl;
            same_tag = and_left _ _ e;
            handled = elim (handlers-InPats n pats ((or_false _ _ g').0)) [
              | inl i ↦ inl i
              | inr (args, r, i) ↦ inr (
                args,
                r,
                i,
                λ env. bare_call-accepts equals env tag_value args (union_value v_tag values),
              )
            ];
          }
          | inr e ↦ Found-bare n tag_value (
              single_members members envm pats v_tag values w (g ∙ ap ok ((or_false _ _ g').1))
                (or_right _ _ e b))
        ]
    single_members (member n tag_value has_names fields units members) envm pats v_tag values w h
          b =
        let (this, g, g') =
          bind_ok
            (member_missing (λ named. missing_field envm fields named) has_names fields
              (any_pattern (is_bare n) pats) (handlers n pats))
            _ false h in
        let (rest, q, q') = bind_ok (missing_member envm members pats) _ false g' in
        let (this_false, rest_false) = or_false this rest q' in
        elim (Bool-cases (eq_ℤ v_tag tag_value && fields_hold fields values)) [
          | inl e ↦ record {
            name = n;
            tag_value = tag_value;
            parts = some (has_names, (fields, units));
            is_in = here_member refl;
            same_tag = and_left _ _ e;
            handled =
                elim (member_missing-cases (λ named. missing_field envm fields named) has_names
                  fields (any_pattern (is_bare n) pats) (handlers n pats) (g ∙ ap ok this_false)) [
                    | inl i ↦ inl (InPats-bare n pats i)
                    | inr (s, m) ↦
                        let (args, r, i, k) =
                          missing_struct-Call (λ named. missing_field envm fields named) fields n
                            pats m in
                        let z =
                          single_fields fields envm (named_members fields args)
                            (and_left _ _ (and_left _ _ w)) (and_right _ _ (and_left _ _ w)) k in
                        inr (
                          args,
                          r,
                          i,
                          λ env.
                              subst
                                (λ x.
                                  accepts
                                    (CallCode equals env tag_value (some (x, (fields, units))) args)
                                    (union_value v_tag values)
                                  ≡ true)
                                (sym s)
                                (call-accepts equals env tag_value v_tag fields units args values
                                  (and_left _ _ e) (and_left _ _ (and_left _ _ w)) z
                                  (and_right _ _ e)),
                        )
                  ];
          }
          | inr e ↦ Found-member n tag_value has_names fields units (
              single_members members envm pats v_tag values (and_right _ _ w) (q ∙ ap ok rest_false)
                (or_right _ _ e b))
        ]
