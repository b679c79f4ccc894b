-- ===== src/Parser/Operators/Precedence.antt =====
-- The specification of the order of operators that `parse_expr` of parse.c sorts out: the tree in
-- which every operator binds the terms beside it.
use blangc.Parser.Operators.{Operator, op_tightness, Joined, tightest_from, tightest_op}
use mathlib.Core.List.{append_assoc}
use blangc.Prelude.{
  subst, ℕ, zero, suc, ◌+◌, ◌≤◌, ◌<◌, ◌≡◌, refl, ap, sym, ltb, Option, none, some, List, [], ◌∷◌,
  ◌++◌, length, arith, Bool-cases, ◌⊎◌, inl, inr,
}

pub data Tree (K A : Type 0) : Type 0 where
  leaf : A → Tree K A
  node : Operator → K → Tree K A → Tree K A → Tree K A

-- Trees with operators between them.
abbrev pub Row : (K A : Type 0) → Type 0
Row K A = List (Joined K (Tree K A))

one_plus : (p : ℕ) → 1 + p ≡ suc p
one_plus p = omega arith

module _ {K A : Type 0} where
  -- The first term, and the others with the operators before them, from left to right.
  unfoldable pub first_term : Tree K A → A
  first_term (leaf a) = a
  first_term (node op key l r) = first_term l

  unfoldable pub other_terms : Tree K A → List (Joined K A)
  unfolding first_term
  other_terms (leaf a) = []
  other_terms (node op key l r) =
      other_terms l ++ (record { operator = op; key = key; term = first_term r } ∷ other_terms r)

  -- Each operator is tighter than the bound.
  unfoldable pub TighterThan : ℕ → Tree K A → Type 0
  TighterThan b (leaf a) = Unit
  TighterThan b (node op key l r) = (op_tightness op < b) × TighterThan b l × TighterThan b r

  -- Tighter operators are bound first, and of those that are equally tight the left ones.
  unfoldable pub IsPrecedence : Tree K A → Type 0
  IsPrecedence (leaf a) = Unit
  IsPrecedence (node op key l r) =
      TighterThan (suc (op_tightness op)) l
      × TighterThan (op_tightness op) r
      × IsPrecedence l
      × IsPrecedence r

  module _ (merge : Operator → K → A → A → Option A) where
    abbrev pub merged : Operator → K → Option A → Option A → Option A
    merged op key none b = none
    merged op key (some a) none = none
    merged op key (some a) (some b) = merge op key a b

    unfoldable pub evaluate : Tree K A → Option A
    evaluate (leaf a) = some a
    evaluate (node op key l r) = merged op key (evaluate l) (evaluate r)

  TighterThan-mono : (t : Tree K A) {b c : ℕ} → b ≤ c → TighterThan b t → TighterThan c t
  unfolding TighterThan
  TighterThan-mono (leaf a) h p = tt
  TighterThan-mono (node op key l r) h p =
      (omega arith, TighterThan-mono l h p.1, TighterThan-mono r h p.2)

  unfoldable pub rest_of : Row K A → List (Joined K A)
  unfolding first_term other_terms
  rest_of [] = []
  rest_of (j ∷ js) =
      record { operator = j.operator; key = j.key; term = first_term j.term }
      ∷ (other_terms j.term ++ rest_of js)

  -- What the rounds keep: an operator between two trees is at most as tight as the operators in
  -- the left one, and less than those in the right one.
  unfoldable pub Chain : Tree K A → Row K A → Type 0
  Chain t [] = IsPrecedence t
  Chain t (j ∷ js) =
      IsPrecedence t
      × TighterThan (suc (op_tightness j.operator)) t
      × TighterThan (op_tightness j.operator) j.term
      × Chain j.term js

  unfoldable pub AtLeast : ℕ → Row K A → Type 0
  AtLeast b [] = Unit
  AtLeast b (j ∷ js) = (b ≤ op_tightness j.operator) × AtLeast b js

  -- The operator at the place has the tightness `b`, the ones before it are less tight, and the
  -- ones behind it not tighter.
  unfoldable pub IsTightest : ℕ → ℕ → Row K A → Type 0
  IsTightest place b [] = ⊥
  IsTightest zero b (j ∷ js) = (op_tightness j.operator ≡ b) × AtLeast b js
  IsTightest (suc place) b (j ∷ js) = (b < op_tightness j.operator) × IsTightest place b js

  tightest_from-IsTightest :
      (b at i : ℕ) (js : Row K A)
      → ((tightest_from b at i js ≡ at) × AtLeast b js)
        ⊎ ((p : ℕ) × (c : ℕ) × (tightest_from b at i js ≡ i + p) × (c < b) × IsTightest p c js)
  unfolding tightest_from AtLeast IsTightest
  tightest_from-IsTightest b at i [] = inl (refl, tt)
  tightest_from-IsTightest b at i (j ∷ js) = elim (Bool-cases (ltb (op_tightness j.operator) b)) [
    | inl h ↦ elim (tightest_from-IsTightest (op_tightness j.operator) i (suc i) js) [
      | inl (e, l) ↦
          inr (0, op_tightness j.operator, rw h (omega (arith, e)), ground arith, (refl, l))
      | inr (p, c, e, l, t) ↦ inr (suc p, c, rw h (omega (arith, e)), ground arith, (l, t))
    ]
    | inr h ↦ elim (tightest_from-IsTightest b at (suc i) js) [
      | inl (e, l) ↦ inl (rw h e, (ground arith, l))
      | inr (p, c, e, l, t) ↦ inr (suc p, c, rw h (omega (arith, e)), l, (ground arith, t))
    ]
  ]

  pub tightest_op-IsTightest :
      (j : Joined K (Tree K A)) (js : Row K A)
      → (c : ℕ) × IsTightest (tightest_op (j ∷ js)) c (j ∷ js)
  unfolding tightest_op IsTightest
  tightest_op-IsTightest j js = elim (tightest_from-IsTightest (op_tightness j.operator) 0 1 js) [
    | inl (e, l) ↦ (op_tightness j.operator, rw e (refl, l))
    | inr (p, c, e, l, t) ↦ (c, rw (e, one_plus p) (l, t))
  ]

  -- A round on trees.
  unfoldable pub grown_at : (place : ℕ) → Tree K A → Row K A → Tree K A × Row K A
  grown_at place t [] = (t, [])
  grown_at zero t (j ∷ js) = (node j.operator j.key t j.term, js)
  grown_at (suc place) t (j ∷ js) =
      let (grown, rest) = grown_at place j.term js in (t, record j { term = grown } ∷ rest)

  unfoldable pub grown : (rounds : ℕ) → Tree K A → Row K A → Tree K A
  grown zero t js = t
  grown (suc rounds) t js =
      let (first, rest) = grown_at (tightest_op js) t js in grown rounds first rest

  -- The terms and the operators keep their order.
  pub grown_at-terms :
      (place : ℕ) (t : Tree K A) (js : Row K A)
      → let (g, rest) = grown_at place t js in
        (first_term g ≡ first_term t)
        × (other_terms g ++ rest_of rest ≡ other_terms t ++ rest_of js)
  unfolding grown_at first_term other_terms rest_of
  grown_at-terms place t [] = (refl, refl)
  grown_at-terms zero t (j ∷ js) = (refl, simp append_assoc)
  grown_at-terms (suc place) t (j ∷ js) =
      let (first, others) = grown_at-terms place j.term js in (refl, rw (first, others) refl)

  pub grown_at-length :
      (place c : ℕ) (t : Tree K A) (js : Row K A)
      → IsTightest place c js
      → suc (length (grown_at place t js).1) ≡ length js
  unfolding grown_at IsTightest
  grown_at-length zero c t [] h = absurd h
  grown_at-length (suc place) c t [] h = absurd h
  grown_at-length zero c t (j ∷ js) h = refl
  grown_at-length (suc place) c t (j ∷ js) h = ap suc (grown_at-length place c j.term js h.1)

  grown_at-TighterThan :
      (place c b : ℕ) (t : Tree K A) (js : Row K A)
      → IsTightest place c js
      → Chain t js
      → c < b
      → TighterThan b t
      → TighterThan b (grown_at place t js).0
  unfolding grown_at IsTightest Chain TighterThan
  grown_at-TighterThan zero c b t [] h chain l q = absurd h
  grown_at-TighterThan (suc place) c b t [] h chain l q = absurd h
  grown_at-TighterThan zero c b t (j ∷ js) h chain l q =
      (omega (arith, h.0), q, TighterThan-mono j.term (omega (arith, h.0)) chain.2)
  grown_at-TighterThan (suc place) c b t (j ∷ js) h chain l q = q

  pub Chain-IsPrecedence : (t : Tree K A) (js : Row K A) → Chain t js → IsPrecedence t
  unfolding Chain
  Chain-IsPrecedence t [] h = h
  Chain-IsPrecedence t (j ∷ js) h = h.0

  Chain-bounded :
      (t : Tree K A) (js : Row K A) (b : ℕ)
      → Chain t js
      → AtLeast b js
      → (u : Tree K A) → IsPrecedence u
      → TighterThan (suc b) u
      → Chain u js
  unfolding Chain AtLeast
  Chain-bounded t [] b chain h u p r = p
  Chain-bounded t (j ∷ js) b chain h u p r =
      (p, TighterThan-mono u (omega (arith, h.0)) r, chain.2, chain.3)

  pub grown_at-Chain :
      (place c : ℕ) (t : Tree K A) (js : Row K A)
      → IsTightest place c js
      → Chain t js
      → let (g, rest) = grown_at place t js in Chain g rest
  unfolding grown_at IsTightest Chain TighterThan IsPrecedence
  grown_at-Chain zero c t [] h chain = absurd h
  grown_at-Chain (suc place) c t [] h chain = absurd h
  grown_at-Chain zero c t (j ∷ js) h chain =
      let op = op_tightness j.operator in
      Chain-bounded j.term js op chain.3 (subst (λ n. AtLeast n js) (sym h.0) h.1)
        (node j.operator j.key t j.term)
        (chain.1, chain.2, chain.0, Chain-IsPrecedence j.term js chain.3)
        (omega arith, chain.1, TighterThan-mono j.term (omega arith) chain.2)
  grown_at-Chain (suc place) c t (j ∷ js) h chain = (
    chain.0,
    chain.1,
    grown_at-TighterThan place c (op_tightness j.operator) j.term js h.1 chain.3 h.0 chain.2,
    grown_at-Chain place c j.term js h.1 chain.3,
  )
