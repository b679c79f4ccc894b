-- ===== src/Parser/Operators/Values.antt =====
-- The values of trees of terms, and the rounds of the loop of `parse_expr` of parse.c.
use blangc.Parser.Operators.{
  Operator, Joined, tightest_from, tightest_op, merge_at, merge_rounds, op_tightness,
}
use blangc.Parser.Operators.Precedence.{
  Tree, node, Row, merged, evaluate, grown_at, grown, tightest_op-IsTightest, grown_at-length,
}
use blangc.Prelude.{
  ℕ, zero, suc, ◌≡◌, refl, sym, Option, none, some, List, [], ◌∷◌, length, arith, Option-cases, ◌⊎◌,
  inl, inr,
}

module _ {K A : Type 0} where
  module _ (merge : Operator → K → A → A → Option A) where
    -- The trees have the terms of the code as their values.
    unfoldable pub Values : Tree K A → Row K A → A → List (Joined K A) → Type 0
    Values t [] a [] = evaluate merge t ≡ some a
    Values t (j ∷ js) a (k ∷ ks) =
        (evaluate merge t ≡ some a)
        × (j.operator ≡ k.operator)
        × (j.key ≡ k.key)
        × Values j.term js k.term ks
    Values t js a ks = ⊥

    -- One of the trees has no value.
    unfoldable Fails : Tree K A → Row K A → Type 0
    Fails t [] = evaluate merge t ≡ none
    Fails t (j ∷ js) = (evaluate merge t ≡ none) ⊎ Fails j.term js

    Fails-first : (t : Tree K A) (js : Row K A) → evaluate merge t ≡ none → Fails t js
    unfolding Fails
    Fails-first t [] h = h
    Fails-first t (j ∷ js) h = inl h

    merged-none : (op : Operator) (key : K) (o : Option A) → merged merge op key o none ≡ none
    merged-none op key none = refl
    merged-none op key (some a) = refl

    Fails-replaced :
        (t u : Tree K A) (js : Row K A)
        → (evaluate merge t ≡ none → evaluate merge u ≡ none)
        → Fails t js
        → Fails u js
    unfolding Fails
    Fails-replaced t u [] f h = f h
    Fails-replaced t u (j ∷ js) f (inl h) = inl (f h)
    Fails-replaced t u (j ∷ js) f (inr h) = inr h

    grown_at-Fails :
        (place : ℕ) (t : Tree K A) (js : Row K A)
        → Fails t js
        → let (g, rest) = grown_at place t js in Fails g rest
    unfolding grown_at Fails evaluate
    grown_at-Fails place t [] h = h
    grown_at-Fails zero t (j ∷ js) (inl h) =
        Fails-first (node j.operator j.key t j.term) js (rw h refl)
    grown_at-Fails zero t (j ∷ js) (inr h) =
        Fails-replaced j.term (node j.operator j.key t j.term) js
          (λ e. rw e (merged-none j.operator j.key (evaluate merge t))) h
    grown_at-Fails (suc place) t (j ∷ js) (inl h) = inl h
    grown_at-Fails (suc place) t (j ∷ js) (inr h) = inr (grown_at-Fails place j.term js h)

    grown-none :
        (rounds : ℕ) (t : Tree K A) (js : Row K A)
        → length js ≡ rounds
        → Fails t js
        → evaluate merge (grown rounds t js) ≡ none
    unfolding grown Fails
    grown-none zero t [] h f = f
    grown-none zero t (j ∷ js) h f = cc
    grown-none (suc rounds) t [] h f = cc
    grown-none (suc rounds) t (j ∷ js) h f =
        let place = tightest_op (j ∷ js) in
        let (c, tightest) = tightest_op-IsTightest j js in
        let (u, rest) = grown_at place t (j ∷ js) in
        grown-none rounds u rest (omega (arith, h, grown_at-length place c t (j ∷ js) tightest))
          (grown_at-Fails place t (j ∷ js) f)

    Values-first :
        (t : Tree K A) (js : Row K A) (a : A) (ks : List (Joined K A))
        → Values t js a ks
        → evaluate merge t ≡ some a
    unfolding Values
    Values-first t [] a [] v = v
    Values-first t [] a (k ∷ ks) v = absurd v
    Values-first t (j ∷ js) a [] v = absurd v
    Values-first t (j ∷ js) a (k ∷ ks) v = v.0

    Values-replaced :
        (t : Tree K A) (js : Row K A) (a : A) (ks : List (Joined K A))
        → Values t js a ks
        → (u : Tree K A) (b : A) → evaluate merge u ≡ some b
        → Values u js b ks
    unfolding Values
    Values-replaced t [] a [] v u b e = e
    Values-replaced t [] a (k ∷ ks) v u b e = absurd v
    Values-replaced t (j ∷ js) a [] v u b e = absurd v
    Values-replaced t (j ∷ js) a (k ∷ ks) v u b e = (e, v.1, v.2, v.3)

    -- A round on the terms does what it does on the trees.
    merge_at-Values :
        (place : ℕ) (t : Tree K A) (js : Row K A) (a : A) (ks : List (Joined K A))
        → Values t js a ks
        → let (g, rest) = grown_at place t js in
          ((b : A) × (ls : List (Joined K A)) × (merge_at merge place a ks ≡ some (b, ls))
            × Values g rest b ls)
          ⊎ ((merge_at merge place a ks ≡ none) × Fails g rest)
    unfolding grown_at Values merge_at evaluate Fails
    merge_at-Values place t [] a [] v = inl (a, [], refl, v)
    merge_at-Values place t [] a (k ∷ ks) v = absurd v
    merge_at-Values place t (j ∷ js) a [] v = absurd v
    merge_at-Values zero t (j ∷ js) a (k ∷ ks) (e, op, key, v) =
        let evaluated = Values-first j.term js k.term ks v in
        elim (Option-cases (merge k.operator k.key a k.term)) [
          | inl h ↦ inr (
            rw (h, merge_at) refl,
            Fails-first (node j.operator j.key t j.term) js (rw (e, evaluated, op, key) h),
          )
          | inr (m, h) ↦ inl (
            m,
            ks,
            rw (h, merge_at) refl,
            Values-replaced j.term js k.term ks v (node j.operator j.key t j.term) m
                (rw (e, evaluated, op, key) h),
          )
        ]
    merge_at-Values (suc place) t (j ∷ js) a (k ∷ ks) (e, op, key, v) =
        elim (merge_at-Values place j.term js k.term ks v) [
          | inl (b, ls, h, w) ↦
              inl (a, record k { term = b } ∷ ls, rw (h, merge_at) refl, (e, op, key, w))
          | inr (h, f) ↦ inr (rw (h, merge_at) refl, inr f)
        ]

    tightest_from-Values :
        (b at i : ℕ) (t : Tree K A) (js : Row K A) (a : A) (ks : List (Joined K A))
        → Values t js a ks
        → tightest_from b at i js ≡ tightest_from b at i ks
    unfolding Values tightest_from
    tightest_from-Values b at i t [] a [] v = refl
    tightest_from-Values b at i t [] a (k ∷ ks) v = absurd v
    tightest_from-Values b at i t (j ∷ js) a [] v = absurd v
    tightest_from-Values b at i t (j ∷ js) a (k ∷ ks) (e, op, key, v) =
        let tighter =
          tightest_from-Values (op_tightness k.operator) i (suc i) j.term js k.term ks v in
        let other = tightest_from-Values b at (suc i) j.term js k.term ks v in
        rw (op, tighter, other) refl

    tightest_op-Values :
        (t : Tree K A) (js : Row K A) (a : A) (ks : List (Joined K A))
        → Values t js a ks
        → tightest_op js ≡ tightest_op ks
    unfolding Values tightest_op
    tightest_op-Values t [] a [] v = refl
    tightest_op-Values t [] a (k ∷ ks) v = absurd v
    tightest_op-Values t (j ∷ js) a [] v = absurd v
    tightest_op-Values t (j ∷ js) a (k ∷ ks) (e, op, key, v) =
        rw (op, tightest_from-Values (op_tightness k.operator) 0 1 j.term js k.term ks v) refl

    -- The loop gives the value of the tree that the rounds give.
    pub merge_rounds-grown :
        (rounds : ℕ) (t : Tree K A) (js : Row K A) (a : A) (ks : List (Joined K A))
        → length js ≡ rounds
        → Values t js a ks
        → merge_rounds merge rounds a ks ≡ evaluate merge (grown rounds t js)
    unfolding merge_rounds grown
    merge_rounds-grown zero t js a ks h v = sym (Values-first t js a ks v)
    merge_rounds-grown (suc rounds) t [] a ks h v = cc
    merge_rounds-grown (suc rounds) t (j ∷ js) a ks h v =
        let place = tightest_op (j ∷ js) in
        let (c, tightest) = tightest_op-IsTightest j js in
        let same = tightest_op-Values t (j ∷ js) a ks v in
        let (u, rest) = grown_at place t (j ∷ js) in
        let shorter : length rest ≡ rounds =
          omega (arith, h, grown_at-length place c t (j ∷ js) tightest) in
        elim (merge_at-Values place t (j ∷ js) a ks v) [
          | inl (b, ls, e, w) ↦
              rw (← same, e, merge_rounds) (merge_rounds-grown rounds u rest b ls shorter w)
          | inr (e, f) ↦ rw (← same, e, merge_rounds) (sym (grown-none rounds u rest shorter f))
        ]
