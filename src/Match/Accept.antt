-- ===== src/Match/Accept.antt =====
-- Values that the code of a pattern in compile/match.c lets through, for struct patterns by the
-- patterns of their members.
use blangc.Arguments.{bind_arguments, bind_loop, Bound, bound, unknown_name, out_of_range, defaults}
use blangc.Arguments.Distinct.{count, count-append, fill_infos-count, with_defaults-bound}
use blangc.Match.Looked.{Looked, all_looked, look, pattern_of, named_members-Looked}
use blangc.Match.Named.{distinct_names, FieldAt, FieldAt-type}
use blangc.Match.Typed.{has_type, fields_hold, fields_hold-FieldAt}
use blangc.Match.{
  Value, struct_value, Values, Test, values_field, field_test, perform_conditional_match,
  match_members, defaults_left,
}
use blangc.Prelude.{
  inl, inr, Bool-cases, ℕ, ◌≡◌, refl, sym, ap, subst, Bool, true, ◌&&◌, Option, none, some, List,
  [], ◌∷◌, ◌++◌, Bytes, arith,
}
use blangc.TypeCheck.Nodes.{positions, bound_positions}
use blangc.TypeCheck.Patterns.{field_names, field_type_at, named_member, named_members}
use blangc.TypeCheck.Syntax.{Ast, keyword_arg, Asts, end, cons, argument_names}
use blangc.TypeCheck.{Checked, ok, compiler_err, fault, outside, ◌>>=◌, or_fault, Env}
use blangc.Types.{SssType, Fields}

-- Where the compiler makes no code there is nothing to say.
unfoldable pub accepts : Checked (Env × Test) → Value → Bool
accepts (ok (env, test)) v = test v
accepts _ v = true

pub accepts-bind :
    {A : Type 0} (m : Checked A) (k : A → Checked (Env × Test)) (v : Value)
    → ((a : A) → m ≡ ok a → accepts (k a) v ≡ true)
    → accepts (m >>= k) v ≡ true
unfolding accepts
accepts-bind (ok a) k v h = h a refl
accepts-bind compiler_err k v h = refl
accepts-bind fault k v h = refl
accepts-bind outside k v h = refl

-- The pattern under a keyword argument without a name.
unfoldable pub target : Ast → Ast
target (keyword_arg none a) = a
target a = a

or_fault-accepts :
    {A : Type 0} (o : Option A) (a : A) (k : A → Checked (Env × Test)) (v : Value)
    → o ≡ some a
    → accepts (k a) v ≡ true
    → accepts (or_fault o >>= k) v ≡ true
or_fault-accepts o a k v e h = subst (λ x. accepts (or_fault x >>= k) v ≡ true) (sym e) h

abbrev Step : Checked (Env × Test) → (Env → Checked (Env × Test)) → ℕ → Checked (Env × Test)
Step first rest p = first >>= λ r. rest (r.0) >>= λ s. ok (s.0, λ v. field_test p (r.1) v && s.1 v)

step-accepts :
    (first : Checked (Env × Test)) (rest : Env → Checked (Env × Test)) (p : ℕ) (values : Values)
    (w : Value)
    → ((f : Test) → values_field p f values ≡ f w)
    → accepts first w ≡ true
    → ((env : Env) → accepts (rest env) (struct_value values) ≡ true)
    → accepts (Step first rest p) (struct_value values) ≡ true
unfolding accepts field_test
step-accepts first rest p values w at h k = accepts-bind first _ _ (λ r e.
    accepts-bind (rest (r.0)) _ _ (λ s e'.
      let f = at (r.1) in
      let h' = ap (λ c. accepts c w) e in
      let k' = ap (λ c. accepts c (struct_value values)) e' in let k'' = k (r.0) in ground arith))

Looked-append :
    (fields : Fields) (named : List (Bytes × Ast)) (args : Asts) (ps qs : List ℕ)
    → Looked fields named args ps
    → Looked fields named args (ps ++ qs)
Looked-append fields named end ps qs l = all_looked
Looked-append fields named (cons a args) [] qs l = elim l [ ]
Looked-append fields named (cons a args) (p ∷ ps) qs (look f e l) =
    look f e (Looked-append fields named args ps qs l)

bound_ok : (b : Bound (List ℕ)) (ps : List ℕ) → bound_positions b ≡ ok ps → b ≡ bound ps
unfolding bound_positions
bound_ok (bound qs) ps h = ground arith
bound_ok unknown_name ps h = absurd (ground arith)
bound_ok out_of_range ps h = absurd (ground arith)

positions-Looked :
    (fields : Fields) (args : Asts) (ps : List ℕ)
    → distinct_names fields ≡ true
    → positions true fields args ≡ ok ps
    → Looked fields (named_members fields args) args ps
unfolding positions bind_arguments
positions-Looked fields args ps d h =
    let b = bound_ok (bind_arguments (field_names fields) (argument_names args)) ps h in
    let (used, e, f) =
      with_defaults-bound (field_names fields)
        (bind_loop (argument_names args) (field_names fields) (argument_names args) 0) ps b in
    let (g, l, c) = fill_infos-count (field_names fields) used ps f in
    subst (λ x. Looked fields (named_members fields args) args x) (sym g)
      (Looked-append fields (named_members fields args) args used
        (defaults (field_names fields) 0 used)
        (named_members-Looked fields args used d e (λ p lt.
          let one = c p lt in
          let sum = count-append p used (defaults (field_names fields) 0 used) in
          let e' = ap (count p) g in omega (arith, one, sum, e'))))

module _ (equals : Ast → Test) where
  -- Both the pattern and what stands under it let the value through.
  abbrev pub Takes : SssType → Ast → Value → Type 0
  Takes t a v =
      (env : Env)
      → (accepts (perform_conditional_match equals env t a) v ≡ true)
        × (accepts (perform_conditional_match equals env t (target a)) v ≡ true)

  abbrev pub FieldsTake : Fields → List (Bytes × Ast) → Type 0
  FieldsTake fields named =
      (p : ℕ) (n : Bytes) (t : SssType) (a : Ast)
      → FieldAt n t fields p
      → named_member named n ≡ some a
      → (v : Value) → has_type t v ≡ true
      → Takes t a v

  match_members-accepts :
      (env : Env) (fields : Fields) (named : List (Bytes × Ast)) (args : Asts) (ps : List ℕ)
      (values : Values)
      → Looked fields named args ps
      → FieldsTake fields named
      → fields_hold fields values ≡ true
      → accepts (match_members equals env fields args ps) (struct_value values) ≡ true
  unfolding match_members accepts pattern_of target
  match_members-accepts env fields named end ps values l h b =
      elim (Bool-cases (defaults_left env fields ps)) [
        | inl e ↦ rw (e, match_members) refl
        | inr e ↦ rw (e, match_members) refl
      ]
  match_members-accepts env fields named (cons a args) [] values l h b = elim l [ ]
  match_members-accepts env fields named (cons (keyword_arg none a) args) (p ∷ ps) values
        (look {n} {t} f e l) h b =
      let (w, b', at) = fields_hold-FieldAt values b f in
      or_fault-accepts (field_type_at fields p) t _ _ (FieldAt-type f) (
        step-accepts (perform_conditional_match equals env t a)
          (λ env'. match_members equals env' fields args ps) p values w at
          ((h p n t (keyword_arg none a) f e w b' env).1)
          (λ env'. match_members-accepts env' fields named args ps values l h b))
  match_members-accepts env fields named (cons (keyword_arg (some m) a) args) (p ∷ ps) values
        (look {n} {t} f e l) h b =
      let (w, b', at) = fields_hold-FieldAt values b f in
      or_fault-accepts (field_type_at fields p) t _ _ (FieldAt-type f) (
        step-accepts (perform_conditional_match equals env t a)
          (λ env'. match_members equals env' fields args ps) p values w at
          ((h p n t a f e w b' env).0)
          (λ env'. match_members-accepts env' fields named args ps values l h b))
  match_members-accepts env fields named (cons a args) (p ∷ ps) values (look {n} {t} f e l) h b =
      let (w, b', at) = fields_hold-FieldAt values b f in
      or_fault-accepts (field_type_at fields p) t _ _ (FieldAt-type f) (
        step-accepts (perform_conditional_match equals env t a)
          (λ env'. match_members equals env' fields args ps) p values w at
          ((h p n t a f e w b' env).0)
          (λ env'. match_members-accepts env' fields named args ps values l h b))

  -- All members of a struct pattern, once `bind_arguments` has given them positions.
  pub members-accepts :
      (env : Env) (fields : Fields) (args : Asts) (values : Values)
      → distinct_names fields ≡ true
      → FieldsTake fields (named_members fields args)
      → fields_hold fields values ≡ true
      → accepts
          (positions true fields args >>= λ ps. match_members equals env fields args ps)
          (struct_value values)
        ≡ true
  members-accepts env fields args values d h b =
      accepts-bind (positions true fields args) _ _ (λ ps e.
        match_members-accepts env fields (named_members fields args) args ps values
          (positions-Looked fields args ps d e) h b)
