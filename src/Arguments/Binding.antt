-- ===== src/Arguments/Binding.antt =====
-- What `bind_arguments` of args.c binds each argument to.
use blangc.Arguments.Distinct.{count, fill_infos-count, with_defaults-bound, prepend-bound}
use blangc.Arguments.{
  bound, position_of, is_keyword, no_keywords, skips, next_position, drop_names, bind_loop,
  defaults, bind_arguments,
}
use blangc.Prelude.{
  ℕ, zero, suc, ◌+◌, ◌-◌, ◌≤◌, ◌<◌, ◌≡◌, refl, sym, ap, subst, ◌∙◌, true, Bool-cases, inl, inr,
  Option, none, some, Option-cases, List, [], ◌∷◌, ◌++◌, Bytes, str_eq, length, get_elem?, arith,
}

-- One of the arguments is given with the name.
abbrev pub Keyword : List (Option Bytes) → Bytes → Type 0
Keyword all name =
    (i : ℕ) × (k : Bytes) × (get_elem? all i ≡ some (some k)) × (str_eq k name ≡ true)

-- A parameter that an argument is given for by name, and one that none is given for.
abbrev pub IsTaken : (all names : List (Option Bytes)) → ℕ → Type 0
IsTaken all names q = (n : Bytes) × (get_elem? names q ≡ some (some n)) × Keyword all n

abbrev pub IsFree : (all names : List (Option Bytes)) → ℕ → Type 0
IsFree all names q = (n : Bytes) → get_elem? names q ≡ some (some n) → ¬ Keyword all n

-- The positions that the arguments of a call get: one that is given with a name that of a parameter
-- with the name, and one without a name the next parameter behind that of the one before that no
-- argument is given for by name.
pub data Assigned (all names : List (Option Bytes))
    : (next : ℕ) → List (Option Bytes) → List ℕ → Type 0 where
  no_more : {next : ℕ} → Assigned all names next [] []
  by_name :
      {next p : ℕ} {name n : Bytes} {args : List (Option Bytes)} {ps : List ℕ}
      → get_elem? names p ≡ some (some n)
      → str_eq n name ≡ true
      → Assigned all names next args ps
      → Assigned all names next (some name ∷ args) (p ∷ ps)
  by_place :
      {next p : ℕ} {args : List (Option Bytes)} {ps : List ℕ}
      → next ≤ p
      → p < length names
      → IsFree all names p
      → ((q : ℕ) → next ≤ q → q < p → IsTaken all names q)
      → Assigned all names (p + 1) args ps
      → Assigned all names next (none ∷ args) (p ∷ ps)

position_of-named :
    (names : List (Option Bytes)) (i : ℕ) (name : Bytes) (p : ℕ)
    → position_of names i name ≡ some p
    → (k : ℕ) × (n : Bytes) × (p ≡ i + k)
      × (get_elem? names k ≡ some (some n))
      × (str_eq n name ≡ true)
unfolding position_of
position_of-named [] i name p h = cc
position_of-named (none ∷ names) i name p h =
    let (k, n, e, g, s) = position_of-named names (i + 1) name p h in
    (suc k, n, omega (arith, e), g, s)
position_of-named (some m ∷ names) i name p h =
    elim (Option-cases (position_of names (i + 1) name)) [
      | inl e ↦ elim (Bool-cases (str_eq m name)) [
        | inl s ↦ (0, m, ground (arith, h, e, s), refl, s)
        | inr s ↦ absurd (ground (arith, h, e, s))
      ]
      | inr (j, e) ↦
          let (k, n, f, g, s) = position_of-named names (i + 1) name p (ground (arith, h, e)) in
          (suc k, n, omega (arith, f), g, s)
    ]

is_keyword-Keyword :
    (all : List (Option Bytes)) (name : Bytes) → is_keyword all name ≡ true → Keyword all name
unfolding is_keyword
is_keyword-Keyword [] name h = cc
is_keyword-Keyword (none ∷ all) name h =
    let (i, k, g, s) = is_keyword-Keyword all name h in (suc i, k, g, s)
is_keyword-Keyword (some m ∷ all) name h = elim (Bool-cases (str_eq m name)) [
  | inl s ↦ (0, m, refl, s)
  | inr s ↦
      let (i, k, g, t) = is_keyword-Keyword all name (ground (arith, h, s)) in (suc i, k, g, t)
]

Keyword-is_keyword :
    (all : List (Option Bytes)) (name : Bytes) (i : ℕ) (k : Bytes)
    → get_elem? all i ≡ some (some k)
    → str_eq k name ≡ true
    → is_keyword all name ≡ true
unfolding is_keyword
Keyword-is_keyword [] name i k g s = cc
Keyword-is_keyword (none ∷ all) name zero k g s = cc
Keyword-is_keyword (none ∷ all) name (suc i) k g s = Keyword-is_keyword all name i k g s
Keyword-is_keyword (some m ∷ all) name zero k g s = ground (arith, g, s)
Keyword-is_keyword (some m ∷ all) name (suc i) k g s =
    let ih = Keyword-is_keyword all name i k g s in ground (arith, ih)

-- The parameters that the loop over those given by name passes, and the one it stops at.
next_position-first :
    (all names : List (Option Bytes)) (next p : ℕ)
    → next_position all names next ≡ some p
    → (k : ℕ) × (p ≡ next + k)
      × (k < length names)
      × IsFree all names k
      × ((j : ℕ) → j < k → IsTaken all names j)
unfolding next_position skips
next_position-first all [] next p h = cc
next_position-first all (none ∷ names) next p h = elim (Bool-cases (no_keywords all)) [
  | inl e ↦ (0, ground (arith, h, e), omega arith, λ n g kw. cc, λ j l. elim l [ ])
  | inr e ↦ absurd (ground (arith, h, e))
]
next_position-first all (some m ∷ names) next p h = elim (Bool-cases (is_keyword all m)) [
  | inl e ↦
      let (k, f, l, free, taken) =
        next_position-first all names (next + 1) p (ground (arith, h, e)) in
      (
        suc k,
        omega (arith, f),
        omega (arith, l),
        λ n g. free n g,
        λ j. passed m names (is_keyword-Keyword all m e) k taken j,
      )
  | inr e ↦ (
    0,
    ground (arith, h, e),
    omega arith,
    λ n g (i, k, a, s). let t = Keyword-is_keyword all n i k a s in cc,
    λ j l. elim l [ ],
  )
]
  where
    passed :
        (m : Bytes) (names : List (Option Bytes))
        → Keyword all m
        → (k : ℕ) → ((j : ℕ) → j < k → IsTaken all names j)
        → (j : ℕ) → j < suc k
        → IsTaken all (some m ∷ names) j
    passed m names kw k taken zero l = (m, refl, kw)
    passed m names kw k taken (suc j) l = taken j (omega (arith, l))

get_elem?-drop_names :
    (n : ℕ) (names : List (Option Bytes)) (k : ℕ)
    → get_elem? (drop_names n names) k ≡ get_elem? names (n + k)
unfolding drop_names
get_elem?-drop_names zero names k = let e : k ≡ 0 + k = omega arith in ap (get_elem? names) e
get_elem?-drop_names (suc n) [] k = refl
get_elem?-drop_names (suc n) (m ∷ names) k =
    let e : suc (n + k) ≡ suc n + k = omega arith in
    get_elem?-drop_names n names k ∙ ap (get_elem? (m ∷ names)) e

length-drop_names :
    (n : ℕ) (names : List (Option Bytes)) (k : ℕ)
    → k < length (drop_names n names)
    → n + k < length names
unfolding drop_names
length-drop_names zero names k h = omega (arith, h)
length-drop_names (suc n) [] k h = elim h [ ]
length-drop_names (suc n) (m ∷ names) k h = omega (arith, length-drop_names n names k h)

bind_loop-Assigned :
    (all names args : List (Option Bytes)) (next : ℕ) (ps : List ℕ)
    → bind_loop all names args next ≡ bound ps
    → Assigned all names next args ps
unfolding bind_loop
bind_loop-Assigned all names [] next [] h = no_more
bind_loop-Assigned all names [] next (p ∷ ps) h = cc
bind_loop-Assigned all names (some name ∷ args) next ps h =
    elim (Option-cases (position_of names 0 name)) [
      | inl e ↦ absurd (ground (arith, h, e))
      | inr (p, e) ↦
          let (rest, f, g) =
            prepend-bound p (bind_loop all names args next) ps (ground (arith, h, e)) in
          let (k, n, at, named, s) = position_of-named names 0 name p e in
          let here : get_elem? names p ≡ some (some n) =
            ap (get_elem? names) (omega (arith, at)) ∙ named in
          subst (Assigned all names next (some name ∷ args)) (sym g)
            (by_name here s (bind_loop-Assigned all names args next rest f))
    ]
bind_loop-Assigned all names (none ∷ args) next ps h =
    elim (Option-cases (next_position all (drop_names next names) next)) [
      | inl e ↦ absurd (ground (arith, h, e))
      | inr (p, e) ↦
          let (rest, f, g) =
            prepend-bound p (bind_loop all names args (p + 1)) ps (ground (arith, h, e)) in
          let (k, at, l, free, taken) = next_position-first all (drop_names next names) next p e in
          let d = get_elem?-drop_names next names in
          subst (Assigned all names next (none ∷ args)) (sym g) (
            by_place (omega (arith, at)) (omega (arith, at, length-drop_names next names k l))
              (λ n named. free n (d k ∙ (ap (get_elem? names) (sym at) ∙ named)))
              (λ q low high. behind q low (taken (q - next) (omega (arith, at, low, high))))
              (bind_loop-Assigned all names args (p + 1) rest f))
    ]
  where
    behind :
        (q : ℕ) → next ≤ q → IsTaken all (drop_names next names) (q - next) → IsTaken all names q
    behind q low (n, named, kw) =
        let e : q ≡ next + (q - next) = omega (arith, low) in
        (n, ap (get_elem? names) e ∙ (sym (get_elem?-drop_names next names (q - next)) ∙ named), kw)

-- Where `bind_arguments` returns, the arguments of the call come first, each with the position of the
-- parameter that it is for: with a name that of a parameter with the name, and without one the next
-- parameter that no argument is given for by name. The parameters left for defaults follow, and each
-- parameter stands in the result exactly once.
pub bind_arguments-Assigned :
    (names args : List (Option Bytes)) (ps : List ℕ)
    → bind_arguments names args ≡ bound ps
    → (used : List ℕ) × (rest : List ℕ) × (ps ≡ used ++ rest)
      × Assigned args names 0 args used
      × (length ps ≡ length names)
      × ((i : ℕ) → i < length names → count i ps ≡ 1)
unfolding bind_arguments
bind_arguments-Assigned names args ps h =
    let (used, e, f) = with_defaults-bound names (bind_loop args names args 0) ps h in
    let (g, l, c) = fill_infos-count names used ps f in
    (used, defaults names 0 used, g, bind_loop-Assigned args names args 0 used e, l, c)
