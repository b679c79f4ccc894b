-- ===== src/Match/Looked.antt =====
-- The table `named_members` of `get_missing_pattern` in typecheck.c against the positions that
-- `bind_arguments` of args.c gives the arguments of a struct pattern.
use blangc.Arguments.{bound, bind_loop, position_of, is_keyword, next_position, drop_names}
use blangc.Arguments.Distinct.{count}
use blangc.Match.Named.{
  FieldAt, distinct_names, is_bound, BoundBefore, NextFree, next_free, FieldAt-position,
  FieldAt-name, FieldAt-bound, position_of-FieldAt, bind_loop-name, bind_loop-next,
  is_keyword-count,
}
use blangc.Prelude.{
  ℕ, ◌+◌, ◌≤◌, ◌<◌, ◌≡◌, refl, sym, ap, subst, ◌∙◌, true, false, ◌||◌, Bool-cases, Option-cases,
  ltb, ◌==◌, inl, inr, Option, none, some, List, [], ◌∷◌, Bytes, str_eq, str_eq_refl, str_eq→eq,
  length, arith,
}
use blangc.TypeCheck.Patterns.{
  field_names, named_member, free_field, positional, keyword_members, positional_members,
  named_members,
}
use blangc.TypeCheck.Syntax.{Ast, keyword_arg, Asts, end, cons, argument_name, argument_names}
use blangc.Types.{SssType, Fields, end_fields, field}

-- The pattern that the table has for an argument.
unfoldable pub pattern_of : Ast → Ast
pattern_of (keyword_arg (some name) a) = a
pattern_of a = a

-- Each argument stands under the name of the field of its position.
pub data Looked (fields : Fields) (named : List (Bytes × Ast)) : Asts → List ℕ → Type 0 where
  all_looked : {ps : List ℕ} → Looked fields named end ps
  look :
      {a : Ast} {args : Asts} {p : ℕ} {ps : List ℕ} {n : Bytes} {t : SssType}
      → FieldAt n t fields p
      → named_member named n ≡ some (pattern_of a)
      → Looked fields named args ps
      → Looked fields named (cons a args) (p ∷ ps)

data HasKeyword (n : Bytes) (a : Ast) : Asts → Type 0 where
  here : {args : Asts} → HasKeyword n a (cons (keyword_arg (some n) a) args)
  there : {b : Ast} {args : Asts} → HasKeyword n a args → HasKeyword n a (cons b args)

keyword_members-is_bound :
    (args : Asts) (named : List (Bytes × Ast)) (n : Bytes)
    → is_bound (keyword_members args named) n
      ≡ (is_keyword (argument_names args) n || is_bound named n)
unfolding keyword_members is_keyword argument_names argument_name is_bound named_member
keyword_members-is_bound end named n = refl
keyword_members-is_bound (cons (keyword_arg (some m) a) args) named n =
    let ih = keyword_members-is_bound args ((m, a) ∷ named) n in ground arith
keyword_members-is_bound (cons _ args) named n = keyword_members-is_bound args named n

keyword_members-other :
    (args : Asts) (named : List (Bytes × Ast)) (n : Bytes)
    → is_keyword (argument_names args) n ≡ false
    → named_member (keyword_members args named) n ≡ named_member named n
unfolding keyword_members is_keyword argument_names argument_name named_member
keyword_members-other end named n h = refl
keyword_members-other (cons (keyword_arg (some m) a) args) named n h =
    let ih = keyword_members-other args ((m, a) ∷ named) n (ground arith) in ground arith
keyword_members-other (cons _ args) named n h = keyword_members-other args named n h

fewer : (p q : ℕ) (ps qs : List ℕ) → ps ≡ p ∷ qs → count q ps ≤ 1 → count q qs ≤ 1
unfolding count
fewer p q ps qs g h = let e = ap (count q) g in omega (arith, e, h)

-- A name that is given once is no keyword of the arguments behind.
single_keyword :
    (all names args : List (Option Bytes)) (n : Bytes) (k p : ℕ) (ps qs : List ℕ)
    → ps ≡ p ∷ qs
    → position_of names 0 n ≡ some p
    → bind_loop all names args k ≡ bound qs
    → count p ps ≤ 1
    → is_keyword args n ≡ false
unfolding count
single_keyword all names args n k p ps qs g f h u = elim (Bool-cases (is_keyword args n)) [
  | inr e ↦ e
  | inl e ↦
      let c = is_keyword-count all names args n k p qs e f h in
      let e' = ap (count p) g in absurd (ground arith)
]

keyword_members-member :
    (all names : List (Option Bytes)) (args : Asts) (named : List (Bytes × Ast)) (k : ℕ)
    (ps : List ℕ) (n : Bytes) (a : Ast)
    → bind_loop all names (argument_names args) k ≡ bound ps
    → ((p : ℕ) → position_of names 0 n ≡ some p → count p ps ≤ 1)
    → HasKeyword n a args
    → named_member (keyword_members args named) n ≡ some a
unfolding keyword_members argument_names argument_name named_member
keyword_members-member all names end named k ps n a h u w = elim w [ ]
keyword_members-member all names (cons (keyword_arg (some m) b) args) named k ps n a h u here =
    let e = str_eq_refl n in
    let (p, qs, g, f, h') = bind_loop-name all names (argument_names args) n k ps h in
    keyword_members-other args ((n, a) ∷ named) n
      (single_keyword all names (argument_names args) n k p ps qs g f h' (u p f))
    ∙ ground arith
keyword_members-member all names (cons (keyword_arg (some m) b) args) named k ps n a h u (there w) =
    let (p, qs, g, f, h') = bind_loop-name all names (argument_names args) m k ps h in
    keyword_members-member all names args ((m, b) ∷ named) k qs n a h'
      (λ q e. fewer p q ps qs g (u q e)) w
keyword_members-member all names (cons _ args) named k ps n a h u (there w) =
    let (p, qs, g, f, h') = bind_loop-next all names (argument_names args) k ps h in
    keyword_members-member all names args named (p + 1) qs n a h' (λ q e. fewer p q ps qs g (u q e))
      w

member-is_bound :
    (named : List (Bytes × Ast)) (n : Bytes)
    → named_member named n ≡ none
    → is_bound named n ≡ false
unfolding is_bound
member-is_bound named n e = ground arith

-- A name that has a pattern keeps it.
free_field-is_bound :
    (fields : Fields) (named : List (Bytes × Ast)) (m : Bytes)
    → free_field fields named ≡ some m
    → is_bound named m ≡ false
unfolding free_field is_bound
free_field-is_bound end_fields named m h = absurd (ground arith)
free_field-is_bound (field none t fields) named m h = free_field-is_bound fields named m h
free_field-is_bound (field (some n) t fields) named m h =
    elim (Option-cases (named_member named n)) [
      | inl e ↦
          let b = member-is_bound named n e in
          let f : n ≡ m = ground arith in subst (λ x. is_bound named x ≡ false) f b
      | inr (a, e) ↦ let ih = free_field-is_bound fields named m in ground arith
    ]

positional-keeps :
    (fields : Fields) (b : Ast) (named : List (Bytes × Ast)) (n : Bytes) (a : Ast)
    → named_member named n ≡ some a
    → named_member (positional fields b named) n ≡ some a
unfolding positional named_member is_bound
positional-keeps fields b named n a h = elim (Option-cases (free_field fields named)) [
  | inl e ↦ ground arith
  | inr (m, e) ↦
      let f = free_field-is_bound fields named m e in
      elim (Bool-cases (str_eq m n)) [
        | inl s ↦
            let f' = subst (λ x. is_bound named x ≡ false) (str_eq→eq m n s) f in
            absurd (ground arith)
        | inr s ↦ ground arith
      ]
]

positional_members-keeps :
    (fields : Fields) (args : Asts) (named : List (Bytes × Ast)) (n : Bytes) (a : Ast)
    → named_member named n ≡ some a
    → named_member (positional_members fields args named) n ≡ some a
unfolding positional_members
positional_members-keeps fields end named n a h = h
positional_members-keeps fields (cons (keyword_arg (some m) b) args) named n a h =
    positional_members-keeps fields args named n a h
positional_members-keeps fields (cons b args) named n a h =
    positional_members-keeps fields args (positional fields b named) n a
      (positional-keeps fields b named n a h)

positional-free :
    (fields : Fields) (a : Ast) (named : List (Bytes × Ast)) (m : Bytes)
    → free_field fields named ≡ some m
    → positional fields a named ≡ (m, a) ∷ named
unfolding positional
positional-free fields a named m e = ground arith

positional-found :
    (fields : Fields) (a : Ast) (named : List (Bytes × Ast)) (m : Bytes)
    → free_field fields named ≡ some m
    → named_member (positional fields a named) m ≡ some a
unfolding named_member
positional-found fields a named m e =
    subst (λ l. named_member l m ≡ some a) (sym (positional-free fields a named m e))
      (let s = str_eq_refl m in ground arith)

is_bound-cons :
    (named : List (Bytes × Ast)) (m n : Bytes) (a : Ast)
    → is_bound ((m, a) ∷ named) n ≡ (str_eq m n || is_bound named n)
unfolding is_bound named_member
is_bound-cons named m n a = ground arith

-- With the next argument for the field that is free.
BoundBefore-next :
    (all : List (Option Bytes)) (fields : Fields) (k p : ℕ) (named : List (Bytes × Ast)) (a : Ast)
    → distinct_names fields ≡ true
    → BoundBefore all fields k named
    → NextFree all fields k 0 p named
    → BoundBefore all fields (p + 1) (positional fields a named)
BoundBefore-next all fields k p named a d inv r i n t f =
    subst (λ l. is_bound l n ≡ (is_keyword all n || ltb i (p + 1)))
      (sym (positional-free fields a named r.name r.is_free))
      (is_bound-cons named r.name n a ∙ step)
  where
    step : (str_eq r.name n || is_bound named n) ≡ (is_keyword all n || ltb i (p + 1))
    step =
        let b = inv i n t f in
        let q = r.at_number in
        let le = r.not_before in
        elim (Bool-cases (str_eq r.name n)) [
          | inl s ↦ let e = FieldAt-position d (str_eq→eq r.name n s) r.is_at f in ground arith
          | inr s ↦ elim (Bool-cases (i == r.number)) [
            | inl e ↦
                let i_eq : i ≡ r.number = ground arith in
                let same = FieldAt-name r.is_at (subst (λ x. FieldAt n t fields x) i_eq f) in
                let s' = subst (λ x. str_eq r.name x ≡ true) same (str_eq_refl r.name) in
                absurd (ground arith)
            | inr e ↦ elim (Bool-cases (ltb i k)) [
              | inl l ↦ ground arith
              | inr l ↦ elim (Bool-cases (ltb i r.number)) [
                | inl l' ↦
                    let w = r.keywords_between i n t f (ground arith) (ground arith) in ground arith
                | inr l' ↦ ground arith
              ]
            ]
          ]
        ]

abbrev Keywords : Asts → List (Bytes × Ast) → Type 0
Keywords args named = (n : Bytes) (a : Ast) → HasKeyword n a args → named_member named n ≡ some a

positional_members-Looked :
    (all : List (Option Bytes)) (fields : Fields) (k : ℕ) (named : List (Bytes × Ast)) (args : Asts)
    (ps : List ℕ)
    → distinct_names fields ≡ true
    → BoundBefore all fields k named
    → Keywords args named
    → bind_loop all (field_names fields) (argument_names args) k ≡ bound ps
    → Looked fields (positional_members fields args named) args ps
unfolding positional_members argument_names argument_name pattern_of
positional_members-Looked all fields k named end ps d inv w h = all_looked
positional_members-Looked all fields k named (cons (keyword_arg (some n) a) args) ps d inv w h =
    let (p, qs, g, e, h') =
      bind_loop-name all (field_names fields) (argument_names args) n k ps h in
    let (i, t, e', f) = position_of-FieldAt fields 0 n p e in
    subst
      (λ l.
        Looked fields (positional_members fields args named) (cons (keyword_arg (some n) a) args) l)
      (sym g)
      (look (subst (λ x. FieldAt n t fields x) (omega (arith, e')) f)
        (positional_members-keeps fields args named n a (w n a here))
        (positional_members-Looked all fields k named args qs d inv (λ m b x. w m b (there x)) h'))
positional_members-Looked all fields k named (cons a args) ps d inv w h =
    let (p, qs, g, e, h') = bind_loop-next all (field_names fields) (argument_names args) k ps h in
    let r = next_free all fields k 0 p named d inv (
      subst (λ x. next_position all (drop_names k (field_names fields)) x ≡ some p) (omega arith)
        e) in
    let later =
      positional_members-Looked all fields (p + 1) (positional fields a named) args qs d
        (BoundBefore-next all fields k p named a d inv r)
        (λ m b x. positional-keeps fields a named m b (w m b (there x))) h' in
    subst
      (λ l.
        Looked fields (positional_members fields args (positional fields a named)) (cons a args) l)
      (sym g)
      (look (subst (λ x. FieldAt r.name r.type fields x) (sym (r.at_number ∙ omega arith)) r.is_at)
        (positional_members-keeps fields args (positional fields a named) r.name a
          (positional-found fields a named r.name r.is_free))
        later)

-- If no position is used twice.
pub named_members-Looked :
    (fields : Fields) (args : Asts) (ps : List ℕ)
    → distinct_names fields ≡ true
    → bind_loop (argument_names args) (field_names fields) (argument_names args) 0 ≡ bound ps
    → ((p : ℕ) → p < length (field_names fields) → count p ps ≤ 1)
    → Looked fields (named_members fields args) args ps
unfolding named_members is_bound named_member
named_members-Looked fields args ps d h u =
    positional_members-Looked (argument_names args) fields 0 (keyword_members args []) args ps d
      (λ i n t f. keyword_members-is_bound args [] n ∙ ground arith)
      (λ n a w.
        keyword_members-member (argument_names args) (field_names fields) args [] 0 ps n a h
          (λ p e.
            let (i, t, e', f) = position_of-FieldAt fields 0 n p e in
            u p (let b = FieldAt-bound f in omega (arith, e', b)))
          w)
      h
