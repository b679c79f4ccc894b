-- ===== src/Match/Named.antt =====
-- The members of a struct pattern by name, for `get_missing_pattern` of typecheck.c, and by position,
-- for `bind_arguments` of args.c.
use blangc.Arguments.{
  Bound, bound, unknown_name, out_of_range, bind_loop, prepend, position_of, next_position, skips,
  is_keyword, drop_names,
}
use blangc.Arguments.Distinct.{count}
use blangc.Prelude.{
  ℕ, zero, suc, ◌+◌, ◌-◌, ◌≤◌, ◌<◌, ◌≡◌, refl, sym, ap, subst, ◌∙◌, Bool, true, false, not, ◌&&◌,
  ◌||◌, Bool-cases, Option-cases, ltb, inl, inr, Option, none, some, List, [], ◌∷◌, Bytes, str_eq,
  str_eq_refl, str_eq→eq, length, arith,
}
use blangc.TypeCheck.Patterns.{has_field, field_names, field_type_at, named_member, free_field}
use blangc.TypeCheck.Syntax.{Ast}
use blangc.Types.{SssType, Fields, end_fields, field}

-- All fields have names, and the names differ.
unfoldable pub distinct_names : Fields → Bool
distinct_names end_fields = true
distinct_names (field none t fields) = false
distinct_names (field (some name) t fields) = not (has_field fields name) && distinct_names fields

pub data FieldAt (n : Bytes) (t : SssType) : Fields → ℕ → Type 0 where
  here : {fields : Fields} → FieldAt n t (field (some n) t fields) 0
  there :
      {m : Option Bytes} {u : SssType} {fields : Fields} {i : ℕ}
      → FieldAt n t fields i
      → FieldAt n t (field m u fields) (suc i)

pub FieldAt-has_field :
    {n : Bytes} {t : SssType} {fields : Fields} {i : ℕ}
    → FieldAt n t fields i
    → has_field fields n ≡ true
unfolding has_field
FieldAt-has_field {n} here = let e = str_eq_refl n in ground arith
FieldAt-has_field (there {m = none} f) = FieldAt-has_field f
FieldAt-has_field (there {m = some m} f) = let ih = FieldAt-has_field f in ground arith

pub FieldAt-position :
    {n m : Bytes} {t u : SssType} {fields : Fields} {i j : ℕ}
    → distinct_names fields ≡ true
    → n ≡ m
    → FieldAt n t fields i
    → FieldAt m u fields j
    → i ≡ j
unfolding distinct_names
FieldAt-position d e here here = refl
FieldAt-position {n} d e here (there f) = let h = FieldAt-has_field f in absurd (ground arith)
FieldAt-position {n} d e (there f) here = let h = FieldAt-has_field f in absurd (ground arith)
FieldAt-position {fields = field (some m) u fs} d e (there f) (there g) =
    let ih = FieldAt-position (ground arith) e f g in omega (arith, ih)
FieldAt-position {fields = field none u fs} d e (there f) (there g) = absurd (ground arith)

pub FieldAt-name :
    {n m : Bytes} {t u : SssType} {fields : Fields} {i : ℕ}
    → FieldAt n t fields i
    → FieldAt m u fields i
    → n ≡ m
FieldAt-name here here = refl
FieldAt-name (there f) (there g) = FieldAt-name f g

pub FieldAt-type :
    {n : Bytes} {t : SssType} {fields : Fields} {i : ℕ}
    → FieldAt n t fields i
    → field_type_at fields i ≡ some t
unfolding field_type_at
FieldAt-type here = refl
FieldAt-type (there f) = FieldAt-type f

pub FieldAt-bound :
    {n : Bytes} {t : SssType} {fields : Fields} {i : ℕ}
    → FieldAt n t fields i
    → i < length (field_names fields)
unfolding field_names
FieldAt-bound here = ground arith
FieldAt-bound (there f) = let ih = FieldAt-bound f in omega (arith, ih)

pub position_of-FieldAt :
    (fields : Fields) (k : ℕ) (n : Bytes) (p : ℕ)
    → position_of (field_names fields) k n ≡ some p
    → (i : ℕ) × (t : SssType) × (p ≡ k + i) × FieldAt n t fields i
unfolding position_of field_names
position_of-FieldAt end_fields k n p h = absurd (ground arith)
position_of-FieldAt (field none u fields) k n p h =
    let (i, t, e, f) = position_of-FieldAt fields (k + 1) n p h in
    (suc i, t, omega (arith, e), there f)
position_of-FieldAt (field (some m) u fields) k n p h =
    elim (Option-cases (position_of (field_names fields) (k + 1) n)) [
      | inr (q, e) ↦
          let (i, t, e', f) = position_of-FieldAt fields (k + 1) n q e in
          (suc i, t, ground arith, there f)
      | inl e ↦ elim (Bool-cases (str_eq m n)) [
        | inl s ↦ (
          0,
          u,
          ground arith,
          subst (λ x. FieldAt x u (field (some m) u fields) 0) (str_eq→eq m n s) here,
        )
        | inr s ↦ absurd (ground arith)
      ]
    ]

-- Whether a name has a pattern.
unfoldable pub is_bound : List (Bytes × Ast) → Bytes → Bool
is_bound named n = elim (named_member named n) [ none ↦ false | some a ↦ true ]

-- The patterns so far are those of the keywords and of the fields before number `k`.
abbrev pub BoundBefore :
    (all : List (Option Bytes)) → Fields → (k : ℕ) → List (Bytes × Ast) → Type 0
BoundBefore all fields k named =
    (i : ℕ) (n : Bytes) (t : SssType)
    → FieldAt n t fields i
    → is_bound named n ≡ (is_keyword all n || ltb i k)

-- The field that is free for the next argument without a name, from number `j` on.
pub record NextFree (all : List (Option Bytes)) (fields : Fields) (k j p : ℕ)
    (named : List (Bytes × Ast)) : Type 0 where
  pub number : ℕ
  pub name : Bytes
  pub type : SssType
  pub at_number : p ≡ j + number
  pub is_at : FieldAt name type fields number
  pub is_free : free_field fields named ≡ some name
  pub not_before : k ≤ number
  pub keywords_between :
      (i : ℕ) (n : Bytes) (t : SssType)
      → FieldAt n t fields i
      → k ≤ i
      → i < number
      → is_keyword all n ≡ true

-- A field that is passed over.
NextFree-there :
    {all : List (Option Bytes)} {fields : Fields} {k l j p : ℕ} {named : List (Bytes × Ast)}
    (m : Bytes) (u : SssType)
    → is_bound named m ≡ true
    → (k ≡ 0 → is_keyword all m ≡ true)
    → l ≡ k - 1
    → NextFree all fields l (j + 1) p named
    → NextFree all (field (some m) u fields) k j p named
unfolding is_bound free_field
NextFree-there {all} {fields} {k} {named} m u b z s r = record {
  number = suc r.number;
  name = r.name;
  type = r.type;
  at_number = omega (arith, r.at_number);
  is_at = there r.is_at;
  is_free = let e = r.is_free in ground arith;
  not_before = omega (arith, r.not_before);
  keywords_between = between;
}
  where
    between :
        (i : ℕ) (n : Bytes) (t : SssType)
        → FieldAt n t (field (some m) u fields) i
        → k ≤ i
        → i < suc r.number
        → is_keyword all n ≡ true
    between zero n t here le lt = z (omega arith)
    between (suc i) n t (there f) le lt = r.keywords_between i n t f (omega arith) (omega arith)

next_position-keyword :
    (all names : List (Option Bytes)) (m : Bytes) (q : ℕ)
    → is_keyword all m ≡ true
    → next_position all (some m ∷ names) q ≡ next_position all names (q + 1)
unfolding next_position skips
next_position-keyword all names m q h = ground arith

free_field-first :
    (fields : Fields) (m : Bytes) (u : SssType) (named : List (Bytes × Ast))
    → is_bound named m ≡ false
    → free_field (field (some m) u fields) named ≡ some m
unfolding free_field is_bound
free_field-first fields m u named h = ground arith

pub next_free :
    (all : List (Option Bytes)) (fields : Fields) (k j p : ℕ) (named : List (Bytes × Ast))
    → distinct_names fields ≡ true
    → BoundBefore all fields k named
    → next_position all (drop_names k (field_names fields)) (j + k) ≡ some p
    → NextFree all fields k j p named
unfolding next_position drop_names field_names distinct_names skips
next_free all end_fields zero j p named d inv h = absurd (ground arith)
next_free all end_fields (suc k) j p named d inv h = absurd (ground arith)
next_free all (field none u fields) k j p named d inv h = absurd (ground arith)
next_free all (field (some m) u fields) (suc k) j p named d inv h =
    let b = inv 0 m u here in
    NextFree-there m u (ground arith) (λ e. absurd (omega arith)) (omega arith)
      (next_free all fields k (j + 1) p named (ground arith)
        (λ i n t f. let b = inv (suc i) n t (there f) in ground arith)
        (subst (λ x. next_position all (drop_names k (field_names fields)) x ≡ some p) (omega arith)
          h))
next_free all (field (some m) u fields) zero j p named d inv h =
    elim (Bool-cases (is_keyword all m)) [
      | inl s ↦
          let b = inv 0 m u here in
          NextFree-there m u (ground arith) (λ e. s) (omega arith)
            (next_free all fields 0 (j + 1) p named (ground arith)
              (λ i n t f. let b = inv (suc i) n t (there f) in ground arith)
              (subst (λ x. next_position all (field_names fields) x ≡ some p) (omega arith)
                (sym (next_position-keyword all (field_names fields) m (j + 0) s) ∙ h)))
      | inr s ↦
          let b = inv 0 m u here in
          record {
            number = 0;
            name = m;
            type = u;
            at_number = ground arith;
            is_at = here;
            is_free = free_field-first fields m u named (ground arith);
            not_before = omega arith;
            keywords_between = λ i n t f le lt. absurd (omega (arith, lt));
          }
    ]

prepend-bound :
    (p : ℕ) (b : Bound (List ℕ)) (ps : List ℕ)
    → prepend p b ≡ bound ps
    → (qs : List ℕ) × (b ≡ bound qs) × (ps ≡ p ∷ qs)
unfolding prepend
prepend-bound p (bound qs) ps h = (qs, refl, ground arith)
prepend-bound p unknown_name ps h = absurd (ground arith)
prepend-bound p out_of_range ps h = absurd (ground arith)

-- What `bind_loop` returns for a first argument with a name, and for one without.
pub bind_loop-name :
    (all names args : List (Option Bytes)) (n : Bytes) (k : ℕ) (ps : List ℕ)
    → bind_loop all names (some n ∷ args) k ≡ bound ps
    → (p : ℕ) × (qs : List ℕ) × (ps ≡ p ∷ qs)
      × (position_of names 0 n ≡ some p)
      × (bind_loop all names args k ≡ bound qs)
unfolding bind_loop
bind_loop-name all names args n k ps h = elim (Option-cases (position_of names 0 n)) [
  | inl e ↦ absurd (ground arith)
  | inr (p, e) ↦
      let (qs, f, g) = prepend-bound p (bind_loop all names args k) ps (ground arith) in
      (p, qs, g, e, f)
]

pub bind_loop-next :
    (all names args : List (Option Bytes)) (k : ℕ) (ps : List ℕ)
    → bind_loop all names (none ∷ args) k ≡ bound ps
    → (p : ℕ) × (qs : List ℕ) × (ps ≡ p ∷ qs)
      × (next_position all (drop_names k names) k ≡ some p)
      × (bind_loop all names args (p + 1) ≡ bound qs)
unfolding bind_loop
bind_loop-next all names args k ps h =
    elim (Option-cases (next_position all (drop_names k names) k)) [
      | inl e ↦ absurd (ground arith)
      | inr (p, e) ↦
          let (qs, f, g) = prepend-bound p (bind_loop all names args (p + 1)) ps (ground arith) in
          (p, qs, g, e, f)
    ]

pub is_keyword-count :
    (all names args : List (Option Bytes)) (n : Bytes) (k p : ℕ) (ps : List ℕ)
    → is_keyword args n ≡ true
    → position_of names 0 n ≡ some p
    → bind_loop all names args k ≡ bound ps
    → 1 ≤ count p ps
unfolding is_keyword count
is_keyword-count all names [] n k p ps h e f = absurd (ground arith)
is_keyword-count all names (none ∷ args) n k p ps h e f =
    let (q, qs, g, _, f') = bind_loop-next all names args k ps f in
    let ih = is_keyword-count all names args n (q + 1) p qs h e f' in
    subst (λ l. 1 ≤ count p l) (sym g) (omega (arith, ih))
is_keyword-count all names (some m ∷ args) n k p ps h e f =
    let (q, qs, g, e', f') = bind_loop-name all names args m k ps f in
    elim (Bool-cases (str_eq m n)) [
      | inl s ↦
          let s' = str_eq→eq m n s in
          let e'' = ap (position_of names 0) s' in subst (λ l. 1 ≤ count p l) (sym g) (ground arith)
      | inr s ↦
          let ih = is_keyword-count all names args n k p qs (ground arith) e f' in
          subst (λ l. 1 ≤ count p l) (sym g) (omega (arith, ih))
    ]
