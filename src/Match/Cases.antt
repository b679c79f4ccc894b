-- ===== src/Match/Cases.antt =====
-- The steps of `get_missing_pattern`: which pattern of a list lets a value through, for each kind of
-- type.
use blangc.Prelude.{
  ◌≡◌, refl, sym, ap, subst, ◌∙◌, ◌⊎◌, inl, inr, Bool, true, false, if◌then◌else◌, Bool-cases,
  Option, none, List, Bytes, str_eq, str_eq→eq, arith,
}
use blangc.TypeCheck.Patterns.{any_pattern, handlers, is_end, named_members, missing_struct}
use blangc.TypeCheck.Syntax.{Ast, var, struct_, function_call, MaybeAst, nothing, Asts, end, cons}
use blangc.TypeCheck.{Checked, ok, compiler_err, fault, outside, ◌>>=◌}
use blangc.Types.{Fields}

pub data InPats (a : Ast) : Asts → Type 0 where
  first : {pats : Asts} → InPats a (cons a pats)
  later : {b : Ast} {pats : Asts} → InPats a pats → InPats a (cons b pats)

pub bind_ok :
    {A B : Type 0} (m : Checked A) (k : A → Checked B) (b : B)
    → (m >>= k) ≡ ok b
    → (a : A) × (m ≡ ok a) × (k a ≡ ok b)
bind_ok (ok a) k b h = (a, refl, h)
bind_ok compiler_err k b h = absurd (ground arith)
bind_ok fault k b h = absurd (ground arith)
bind_ok outside k b h = absurd (ground arith)

-- A pattern that satisfies a test.
pub any_pattern-InPats :
    (f : Ast → Bool) (pats : Asts)
    → any_pattern f pats ≡ true
    → (a : Ast) × InPats a pats × (f a ≡ true)
unfolding any_pattern
any_pattern-InPats f end h = absurd (ground arith)
any_pattern-InPats f (cons b pats) h = elim (Bool-cases (f b)) [
  | inl e ↦ (b, first, e)
  | inr e ↦ let (a, i, e') = any_pattern-InPats f pats (ground arith) in (a, later i, e')
]

-- A struct pattern of a list whose fields miss nothing.
pub missing_struct-InPats :
    (missing : List (Bytes × Ast) → Checked Bool) (fields : Fields) (pats : Asts)
    → missing_struct missing fields pats ≡ ok false
    → (t : MaybeAst) × (args : Asts) × (units : Option Bytes) × InPats (struct_ t args units) pats
      × (missing (named_members fields args) ≡ ok false)
unfolding missing_struct
missing_struct-InPats missing fields end h = absurd (ground arith)
missing_struct-InPats missing fields (cons (struct_ t args units) pats) h =
    let (this, e, e') = bind_ok (missing (named_members fields args)) _ _ h in
    elim (Bool-cases this) [
      | inr f ↦ (t, args, units, first, e ∙ ap ok f)
      | inl f ↦
          let (t', args', units', i, g) =
            missing_struct-InPats missing fields pats (ground arith) in
          (t', args', units', later i, g)
    ]
missing_struct-InPats missing fields (cons a pats) h =
    let (t', args', units', i, g) = missing_struct-InPats missing fields pats h in
    (t', args', units', later i, g)

-- The constructor patterns of a name among the handlers of a member.
handlers-call :
    (name m : Bytes) (args : Asts) (r : MaybeAst) (pats : Asts)
    → str_eq name m ≡ true
    → handlers name (cons (function_call (var m) args r) pats)
      ≡ cons (struct_ nothing args none) (handlers name pats)
unfolding handlers
handlers-call name m args r pats s = ground arith

handlers-other :
    (name m : Bytes) (args : Asts) (r : MaybeAst) (pats : Asts)
    → str_eq name m ≡ false
    → handlers name (cons (function_call (var m) args r) pats) ≡ handlers name pats
unfolding handlers
handlers-other name m args r pats s = ground arith

missing_struct-var :
    (missing : List (Bytes × Ast) → Checked Bool) (fields : Fields) (name m : Bytes) (pats : Asts)
    → missing_struct missing fields (handlers name (cons (var m) pats))
      ≡ missing_struct missing fields (handlers name pats)
unfolding handlers missing_struct
missing_struct-var missing fields name m pats =
    elim (str_eq name m)
      as (λ b.
        missing_struct missing fields
          (if b then cons (var m) (handlers name pats) else handlers name pats)
        ≡ missing_struct missing fields (handlers name pats)) [ true ↦ refl | false ↦ refl ]

abbrev pub Call : (List (Bytes × Ast) → Checked Bool) → Fields → Bytes → Asts → Type 0
Call missing fields name pats =
    (args : Asts) × (r : MaybeAst) × InPats (function_call (var name) args r) pats
    × (missing (named_members fields args) ≡ ok false)

past :
    (missing : List (Bytes × Ast) → Checked Bool) (fields : Fields) (name : Bytes) {pats : Asts}
    (a : Ast)
    → Call missing fields name pats
    → Call missing fields name (cons a pats)
past missing fields name a (args, r, i, e) = (args, r, later i, e)

-- A constructor pattern whose fields miss nothing, among the handlers of a member.
pub missing_struct-Call :
    (missing : List (Bytes × Ast) → Checked Bool) (fields : Fields) (name : Bytes) (pats : Asts)
    → missing_struct missing fields (handlers name pats) ≡ ok false
    → Call missing fields name pats
unfolding missing_struct handlers
missing_struct-Call missing fields name end h = absurd (ground arith)
missing_struct-Call missing fields name (cons (function_call (var m) args r) pats) h =
    elim (Bool-cases (str_eq name m)) [
      | inl s ↦
          let h' =
            sym (ap (missing_struct missing fields) (handlers-call name m args r pats s)) ∙ h in
          let (this, e, e') = bind_ok (missing (named_members fields args)) _ _ h' in
          elim (Bool-cases this) [
            | inr f ↦ (
              args,
              r,
              subst
                  (λ x.
                    InPats (function_call (var x) args r)
                      (cons (function_call (var m) args r) pats))
                  (sym (str_eq→eq name m s)) first,
              e ∙ ap ok f,
            )
            | inl f ↦
                past missing fields name (function_call (var m) args r)
                  (missing_struct-Call missing fields name pats (ground arith))
          ]
      | inr s ↦ past missing fields name (function_call (var m) args r) (
          missing_struct-Call missing fields name pats
            (sym (ap (missing_struct missing fields) (handlers-other name m args r pats s)) ∙ h))
    ]
missing_struct-Call missing fields name (cons (var m) pats) h = past missing fields name (var m) (
    missing_struct-Call missing fields name pats
      (sym (missing_struct-var missing fields name m pats) ∙ h))
missing_struct-Call missing fields name (cons a pats) h =
    past missing fields name a (missing_struct-Call missing fields name pats h)

abbrev pub Handler : Bytes → Asts → Type 0
Handler name pats =
    InPats (var name) pats
    ⊎ ((args : Asts) × (r : MaybeAst) × InPats (function_call (var name) args r) pats)

past-Handler :
    {name : Bytes} {pats : Asts} (a : Ast) → Handler name pats → Handler name (cons a pats)
past-Handler a (inl i) = inl (later i)
past-Handler a (inr (args, r, i)) = inr (args, r, later i)

-- A pattern that is one of a member's handlers.
pub handlers-InPats :
    (name : Bytes) (pats : Asts) → is_end (handlers name pats) ≡ false → Handler name pats
unfolding handlers is_end
handlers-InPats name end h = absurd (ground arith)
handlers-InPats name (cons (function_call (var m) args r) pats) h =
    elim (Bool-cases (str_eq name m)) [
      | inl s ↦ inr (
        args,
        r,
        subst
            (λ x. InPats (function_call (var x) args r) (cons (function_call (var m) args r) pats))
            (sym (str_eq→eq name m s)) first,
      )
      | inr s ↦
          past-Handler _
            (handlers-InPats name pats (sym (ap is_end (handlers-other name m args r pats s)) ∙ h))
    ]
handlers-InPats name (cons (var m) pats) h = elim (Bool-cases (str_eq name m)) [
  | inl s ↦ inl (subst (λ x. InPats (var x) (cons (var m) pats)) (sym (str_eq→eq name m s)) first)
  | inr s ↦ past-Handler _ (handlers-InPats name pats (ground arith))
]
handlers-InPats name (cons a pats) h = past-Handler _ (handlers-InPats name pats h)
