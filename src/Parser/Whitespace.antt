-- ===== src/Parser/Whitespace.antt =====
-- The loop of `whitespace` of parse.c.
use blangc.Parser.Text.{some_of, some_not, comment, after, skip, whitespace, blanks, member}
use blangc.Prelude.{
  ℕ, zero, suc, ◌≤◌, ◌<◌, ◌≡◌, refl, ltb, none, some, [], ◌∷◌, Bytes, length, arith, Bool-cases,
  Option-cases, ◌⊎◌, inl, inr,
}

some_of-length : (set p : Bytes) → length (some_of set p) ≤ length p
unfolding some_of
some_of-length set [] = omega arith
some_of-length set (c ∷ p) = ground (arith, some_of-length set p)

-- Either there is no character of the set, or the rest is shorter.
some_of-cases : (set p : Bytes) → (some_of set p ≡ p) ⊎ (length (some_of set p) < length p)
unfolding some_of
some_of-cases set [] = inl refl
some_of-cases set (c ∷ p) = elim (Bool-cases (member c set)) [
  | inl h ↦ inr (rw h (omega (arith, some_of-length set p)))
  | inr h ↦ inl (rw h refl)
]

some_not-length : (set p : Bytes) → length (some_not set p) ≤ length p
unfolding some_not
some_not-length set [] = omega arith
some_not-length set (c ∷ p) = ground (arith, some_not-length set p)

comment-length : (p rest : Bytes) → comment p ≡ some rest → length rest < length p
unfolding comment after
comment-length [] rest h = ground arith
comment-length (c ∷ []) rest h = ground arith
comment-length (c ∷ d ∷ p) rest h = let shorter = some_not-length (13 ∷ 10 ∷ []) p in ground arith

done_at_end : (some_of blanks [] ≡ []) × (comment [] ≡ none)
unfolding some_of comment after
done_at_end = (refl, refl)

skip-done :
    (fuel : ℕ) (p : Bytes)
    → length p ≤ fuel
    → (some_of blanks (skip fuel p) ≡ skip fuel p) × (comment (skip fuel p) ≡ none)
unfolding skip
skip-done zero [] h = done_at_end
skip-done zero (c ∷ p) h = absurd (omega arith)
skip-done (suc fuel) p h = elim (Bool-cases (ltb (length (some_of blanks p)) (length p))) [
  | inl shorter ↦ rw (shorter, skip) (skip-done fuel (some_of blanks p) (ground arith))
  | inr same ↦ elim (Option-cases (comment p)) [
    | inl e ↦
        rw (same, e, skip)
          (elim (some_of-cases blanks p) [
            | inl unchanged ↦ (unchanged, e)
            | inr shorter ↦ absurd (ground arith)
          ])
    | inr (rest, e) ↦
        rw (same, e, skip) (skip-done fuel rest (omega (arith, comment-length p rest e)))
  ]
]

-- Behind the white space there is neither white space nor a comment: the rounds of the loop, one for
-- each character, are enough.
pub whitespace-done :
    (p : Bytes) → (some_of blanks (whitespace p) ≡ whitespace p) × (comment (whitespace p) ≡ none)
unfolding whitespace
whitespace-done p = skip-done (length p) p (omega arith)
