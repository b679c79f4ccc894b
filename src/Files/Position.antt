-- ===== src/Files/Position.antt =====
-- The line number that the binary search of files.c finds.
use blangc.Files.{Line, search, get_line_number}
use blangc.Prelude.Int.{pos}
use blangc.Prelude.{
  ℕ, zero, suc, ◌+◌, ◌-◌, ◌/◌, ◌≤◌, ◌<◌, ◌≡◌, refl, Bool-cases, ltb, ◌⊎◌, inl, inr, some, List, [],
  ◌∷◌, length, get_elem?, arith,
}

-- Lines begin one behind the other.
abbrev pub Ascending : List Line → Type 0
Ascending lines =
    (i j : ℕ) (a b : Line)
    → i < j
    → get_elem? lines i ≡ some a
    → get_elem? lines j ≡ some b
    → a.offset < b.offset

-- The lines before number `n` begin at the offset or before it, and the others behind it.
abbrev pub Begun : List Line → (offset n : ℕ) → Type 0
Begun lines offset n = (i : ℕ) (a : Line) → i < n → get_elem? lines i ≡ some a → a.offset ≤ offset

abbrev pub Ahead : List Line → (offset n : ℕ) → Type 0
Ahead lines offset n = (i : ℕ) (a : Line) → n ≤ i → get_elem? lines i ≡ some a → offset < a.offset

elem-at : {A : Type 0} (xs : List A) (i : ℕ) → i < length xs → (x : A) × (get_elem? xs i ≡ some x)
elem-at [] i h = absurd (omega (arith, h))
elem-at (x ∷ xs) zero h = (x, refl)
elem-at (x ∷ xs) (suc i) h = elem-at xs i (omega (arith, h))

behind_all :
    {A : Type 0} (xs : List A) (i : ℕ) (x : A) → length xs ≤ i → ¬ (get_elem? xs i ≡ some x)
behind_all [] i x h e = cc
behind_all (y ∷ xs) zero x h e = omega (arith, h)
behind_all (y ∷ xs) (suc i) x h e = behind_all xs i x (omega (arith, h)) e

three : (a b : ℕ) → (a ≡ b) ⊎ ((a < b) ⊎ (b < a))
three a b = omega arith

module _ (lines : List Line) (offset : ℕ) (sorted : Ascending lines) where
  at_or_before :
      (mid : ℕ) (line : Line)
      → get_elem? lines mid ≡ some line
      → line.offset ≤ offset
      → Begun lines offset (mid + 1)
  at_or_before mid line g h i x l q = elim (three i mid) [
    | inl e ↦ ground (arith, e, q, g)
    | inr (inl e) ↦ let r = sorted i mid x line e q g in omega arith
    | inr (inr e) ↦ absurd (omega (arith, e, l))
  ]

  after_all :
      (mid : ℕ) (line : Line)
      → get_elem? lines mid ≡ some line
      → offset < line.offset
      → Ahead lines offset mid
  after_all mid line g h i x l q = elim (three i mid) [
    | inl e ↦ ground (arith, e, q, g)
    | inr (inl e) ↦ absurd (omega (arith, e, l))
    | inr (inr e) ↦ let r = sorted mid i line x e g q in omega arith
  ]

  search-finds :
      (fuel lo above : ℕ)
      → lo ≤ above
      → above ≤ length lines
      → above - lo ≤ fuel
      → Begun lines offset lo
      → Ahead lines offset above
      → (n : ℕ) × (search lines offset fuel lo above ≡ some n)
        × (n ≤ above)
        × Begun lines offset n
        × Ahead lines offset n
  unfolding search
  search-finds zero lo above h k f b a =
      (lo, ground arith, h, b, λ i x l e. a i x (omega (arith, l)) e)
  search-finds (suc fuel) lo above h k f b a = elim (Bool-cases (ltb lo above)) [
    | inr e ↦ (lo, ground arith, h, b, λ i x l q. a i x (ground (arith, l)) q)
    | inl e ↦
        let mid = (lo + above - 1) / 2 in
        let low : lo ≤ mid = ground arith in
        let high : mid < above = ground arith in
        let (line, g) = elem-at lines mid (omega arith) in
        elim (three line.offset offset) [
          | inl s ↦ (
            mid + 1,
            ground arith,
            omega arith,
            λ i x l q. at_or_before mid line g (omega arith) i x l q,
            λ i x l q. let r = sorted mid i line x (omega (arith, l)) g q in omega arith,
          )
          | inr (inl s) ↦
              let (n, r, c', b', a') =
                search-finds fuel (mid + 1) above (omega arith) k (omega arith)
                  (λ i x l q. at_or_before mid line g (omega arith) i x l q) a in
              (n, ground arith, omega arith, b', a')
          | inr (inr s) ↦
              let (n, r, c', b', a') =
                search-finds fuel lo mid low (omega arith) (omega arith) b
                  (λ i x l q. after_all mid line g (omega arith) i x l q) in
              (n, ground arith, omega arith, b', a')
        ]
  ]

  -- For a position in the text of a file whose lines begin one behind the other,
  -- `sss_get_line_number` returns the number of lines that begin at the position or before it: a number
  -- of lines that the file has, of which the lines up to that number do, and the ones behind do not.
  pub get_line_number-counts :
      (n : ℕ) × (get_line_number lines (pos offset) ≡ some n)
      × (n ≤ length lines)
      × Begun lines offset n
      × Ahead lines offset n
  unfolding get_line_number
  get_line_number-counts =
      search-finds (length lines) 0 (length lines) (omega arith) (omega arith) (omega arith)
        (λ i x l q. absurd (omega (arith, l))) (λ i x l q. absurd (behind_all lines i x l q))
