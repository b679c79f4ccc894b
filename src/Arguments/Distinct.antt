-- ===== src/Arguments/Distinct.antt =====
-- The positions that `bind_arguments` of args.c gives, counted.
use blangc.Arguments.{
  Bound, bound, unknown_name, out_of_range, with_defaults, prepend, stored, fill_infos, defaults,
  has_position,
}
use blangc.Prelude.{
  ap, ◌∙◌, ℕ, zero, suc, ◌+◌, ◌≤◌, ◌<◌, ◌≡◌, refl, true, false, Bool-cases, ltb, ◌==◌,
  if◌then◌else◌, inl, inr, Option, List, [], ◌∷◌, ◌++◌, Bytes, length, arith,
}

-- How often a number stands in a list, and the numbers below a bound.
unfoldable pub count : ℕ → List ℕ → ℕ
count i [] = 0
count i (p ∷ ps) = (if p == i then 1 else 0) + count i ps

unfoldable pub total : ℕ → List ℕ → ℕ
unfolding count
total zero ps = 0
total (suc n) ps = count n ps + total n ps

total-cons : (n p : ℕ) (ps : List ℕ) → total n (p ∷ ps) ≡ (if ltb p n then 1 else 0) + total n ps
unfolding total
total-cons zero p ps = ground arith
total-cons (suc n) p ps = let ih = total-cons n p ps in grind arith

total-empty : (n : ℕ) → total n [] ≡ 0
unfolding total
total-empty zero = refl
total-empty (suc n) = omega (arith, total-empty n)

total-bound : (n : ℕ) (ps : List ℕ) → total n ps ≤ length ps
total-bound n [] = let e = total-empty n in grind arith
total-bound n (p ∷ ps) = let ih = total-bound n ps in let e = total-cons n p ps in grind arith

total-full : (n : ℕ) (ps : List ℕ) → ((i : ℕ) → i < n → 1 ≤ count i ps) → n ≤ total n ps
unfolding total
total-full zero ps h = omega arith
total-full (suc n) ps h =
    let ih = total-full n ps (λ i b. h i (omega arith)) in omega (arith, h n (omega arith))

total-excess :
    (n : ℕ) (ps : List ℕ) (i : ℕ)
    → ((j : ℕ) → j < n → 1 ≤ count j ps)
    → i < n
    → n + count i ps ≤ total n ps + 1
unfolding total
total-excess zero ps i h b = elim b [ ]
total-excess (suc n) ps i h b = elim (Bool-cases (i == n)) [
  | inl e ↦ let f = total-full n ps (λ j b'. h j (omega arith)) in ground arith
  | inr ne ↦
      let ih = total-excess n ps i (λ j b'. h j (omega arith)) (ground arith) in
      omega (arith, h n (omega arith))
]

pub count-append : (i : ℕ) (ps qs : List ℕ) → count i (ps ++ qs) ≡ count i ps + count i qs
unfolding count
count-append i [] qs = omega arith
count-append i (p ∷ ps) qs = omega (arith, count-append i ps qs)

has_position-count : (ps : List ℕ) (i : ℕ) → has_position ps i ≡ true → 1 ≤ count i ps
unfolding has_position count
has_position-count [] i h = ground arith
has_position-count (p ∷ ps) i h = let ih = has_position-count ps i in grind arith

defaults-count :
    (names : List (Option Bytes)) (i : ℕ) (used : List ℕ) (k : ℕ)
    → k < length names
    → has_position used (i + k) ≡ false
    → 1 ≤ count (i + k) (defaults names i used)
unfolding defaults count
defaults-count [] i used k b h = elim b [ ]
defaults-count (name ∷ names) i used zero b h = grind arith
defaults-count (name ∷ names) i used (suc k) b h =
    let ih = defaults-count names (i + 1) used k (omega arith) in grind arith

covered :
    (names : List (Option Bytes)) (used : List ℕ) (i : ℕ)
    → i < length names
    → 1 ≤ count i (used ++ defaults names 0 used)
covered names used i b =
    let e = count-append i used (defaults names 0 used) in
    elim (Bool-cases (has_position used i)) [
      | inl h ↦ let c = has_position-count used i h in grind arith
      | inr h ↦ let c = defaults-count names 0 used i b (ground (arith, h)) in grind arith
    ]

pub prepend-bound :
    (p : ℕ) (b : Bound (List ℕ)) (qs : List ℕ)
    → prepend p b ≡ bound qs
    → (rest : List ℕ) × (b ≡ bound rest) × (qs ≡ p ∷ rest)
unfolding prepend
prepend-bound p (bound ps) qs h = (ps, refl, cc)
prepend-bound p unknown_name qs h = cc
prepend-bound p out_of_range qs h = cc

stored-bound :
    (room : ℕ) (ps qs : List ℕ) → stored room ps ≡ bound qs → (qs ≡ ps) × (length ps ≤ room)
unfolding stored
stored-bound room [] qs h = (cc, omega arith)
stored-bound zero (p ∷ ps) qs h = cc
stored-bound (suc room) (p ∷ ps) qs h =
    let (rest, e, f) = prepend-bound p (stored room ps) qs h in
    let (g, l) = stored-bound room ps rest e in (cc, omega (arith, l))

pub fill_infos-count :
    (names : List (Option Bytes)) (used ps : List ℕ)
    → fill_infos names used ≡ bound ps
    → (ps ≡ used ++ defaults names 0 used)
      × (length ps ≡ length names)
      × ((i : ℕ) → i < length names → count i ps ≡ 1)
unfolding fill_infos
fill_infos-count names used ps h =
    let c = covered names used in
    let all = used ++ defaults names 0 used in
    let full = total-full (length names) all c in
    let most = total-bound (length names) all in
    let (same, room) = stored-bound (length names) all ps h in
    (
      same,
      ap length same ∙ omega (arith, full, most, room),
      λ i b.
          let e = total-excess (length names) all i c b in
          let c' = c i b in ap (count i) same ∙ omega (arith, e, c', full, most, room),
    )

pub with_defaults-bound :
    (names : List (Option Bytes)) (b : Bound (List ℕ)) (ps : List ℕ)
    → with_defaults names b ≡ bound ps
    → (used : List ℕ) × (b ≡ bound used) × (fill_infos names used ≡ bound ps)
unfolding with_defaults
with_defaults-bound names (bound used) ps h = (used, refl, h)
with_defaults-bound names unknown_name ps h = absurd (ground (arith, h))
with_defaults-bound names out_of_range ps h = absurd (ground (arith, h))
