-- ===== src/Arrays/Copy.antt =====
-- `array_cow` and `array_flatten` of libsss/utils.c.
use blangc.Arrays.Cells.{append_assoc, write_cells-run}
use blangc.Arrays.Insertion.{Holds}
use blangc.Arrays.{cells, array_cow, copy_items}
use blangc.Prelude.Int.{ℤ, pos, ◌+ℤ◌, ◌*ℤ◌}
use blangc.Prelude.{
  ℕ, zero, suc, Option, Bool-cases, inl, inr, ◌∙◌, take, drop, get_elem?, length-replicate, ◌≤◌,
  ◌+◌, ◌<◌, ◌≡◌, refl, sym, true, none, some, List, [], ◌∷◌, ◌++◌, length, length-append, replicate,
  arith, ap,
}
use blangc.Slice.{Slice, is_one, items_from, item, items, items-length}

one-stride : (k : ℤ) → is_one k ≡ true → k ≡ pos 1
one-stride k h = ground (arith, h)

module _ {A : Type 0} where
  append_nil : (xs : List A) → xs ++ [] ≡ xs
  append_nil [] = refl
  append_nil (x ∷ xs) = ap (λ r. x ∷ r) (append_nil xs)

  items_from-cons :
      (s : Slice A) (rounds i : ℕ) (x : A) (xs : List A)
      → items_from s (suc rounds) i ≡ some (x ∷ xs)
      → (item s i ≡ some x) × (items_from s rounds (suc i) ≡ some xs)
  unfolding items_from
  items_from-cons s rounds i x xs h = split (item s i) (items_from s rounds (suc i)) h
    where
      split :
          (o : Option A) (l : Option (List A))
          → elim o [ none ↦ none | some c ↦ elim l [ none ↦ none | some rest ↦ some (c ∷ rest) ] ]
            ≡ some (x ∷ xs)
          → (o ≡ some x) × (l ≡ some xs)
      split none l h = cc
      split (some c) none h = cc
      split (some c) (some rest) h = (cc, cc)

  -- The loop of `array_cow` writes the items that the array has from there on.
  copy_items-run :
      (s : Slice A) (z : A) (copied xs : List A) (rounds i : ℕ)
      → items_from s rounds i ≡ some xs
      → length copied ≡ i
      → copy_items s (copied ++ replicate rounds z) rounds i ≡ some (copied ++ xs)
  unfolding copy_items items_from
  copy_items-run s z copied xs zero i h l = ground (arith, h)
  copy_items-run s z copied [] (suc rounds) i h l =
      absurd (omega (arith, items-length s (suc rounds) i [] h))
  copy_items-run s z copied (x ∷ xs) (suc rounds) i h l =
      let (e, f) = items_from-cons s rounds i x xs h in
      let w = write_cells-run copied (z ∷ []) (replicate rounds z) (x ∷ []) i l refl in
      let a = append_assoc copied (x ∷ []) (replicate rounds z) in
      let b = append_assoc copied (x ∷ []) xs in
      let n = length-append copied (x ∷ []) in
      let rest =
        copy_items-run s z (copied ++ x ∷ []) xs rounds (i + 1)
          (ap (items_from s rounds) (omega arith) ∙ f) (omega (arith, n, l)) in
      rw (e, w, copy_items, ← a, rest, b) refl

  drop-elem :
      (memory : List A) (k : ℕ) (x : A)
      → get_elem? memory k ≡ some x
      → drop k memory ≡ x ∷ drop (suc k) memory
  drop-elem [] k x h = cc
  drop-elem (y ∷ memory) zero x h = cc
  drop-elem (y ∷ memory) (suc k) x h = drop-elem memory k x h

  elem-below : (memory : List A) (k : ℕ) (x : A) → get_elem? memory k ≡ some x → k < length memory
  elem-below [] k x h = cc
  elem-below (y ∷ memory) zero x h = omega arith
  elem-below (y ∷ memory) (suc k) x h = let ih = elem-below memory k x h in omega (arith, ih)

  item-whole :
      (s : Slice A) (i : ℕ) → s.stride ≡ pos 1 → item s i ≡ get_elem? s.memory (s.start + i)
  unfolding item ◌+ℤ◌ ◌*ℤ◌
  item-whole s i h = ground (arith, h)

  -- The items of an array of whole stride are a run of its memory.
  items_from-cells :
      (s : Slice A) (xs : List A) (rounds i : ℕ)
      → s.stride ≡ pos 1
      → s.start + i ≤ length s.memory
      → items_from s rounds i ≡ some xs
      → (s.start + i + rounds ≤ length s.memory) × (take rounds (drop (s.start + i) s.memory) ≡ xs)
  unfolding items_from
  items_from-cells s xs zero i u b h = (omega (arith, b), cc)
  items_from-cells s [] (suc rounds) i u b h =
      absurd (omega (arith, items-length s (suc rounds) i [] h))
  items_from-cells s (x ∷ xs) (suc rounds) i u b h =
      let (e, f) = items_from-cons s rounds i x xs h in
      let g = sym (item-whole s i u) ∙ e in
      let below = elem-below s.memory (s.start + i) x g in
      let (c, t) = items_from-cells s xs rounds (suc i) u (omega (arith, below)) f in
      let k : s.start + suc i ≡ suc (s.start + i) = omega arith in
      (
        omega (arith, c),
        rw (drop-elem s.memory (s.start + i) x g)
            (ap (λ r. x ∷ r) (ap (λ j. take rounds (drop j s.memory)) (sym k) ∙ t)),
      )

  whole-cells :
      (s : Slice A) (xs : List A)
      → s.stride ≡ pos 1
      → s.start ≤ length s.memory
      → items_from s s.length 0 ≡ some xs
      → cells s.memory s.start s.length ≡ some xs
  unfolding cells
  whole-cells s xs u b h =
      let k : s.start + 0 ≡ s.start = omega arith in
      let (c, t) = items_from-cells s xs s.length 0 u (omega (arith, b)) h in
      let t' = ap (λ j. take s.length (drop j s.memory)) (sym k) ∙ t in ground (arith, c, t')

  -- On an array that holds `xs`, whatever its stride, `array_cow` returns an array that holds `xs`
  -- side by side in a memory of its own, if the array's pointer is not behind the memory.
  pub array_cow-Holds :
      (z : A) (s : Slice A) (xs : List A)
      → s.start ≤ length s.memory
      → items s ≡ some xs
      → (r : Slice A) × (array_cow z s ≡ some r) × Holds r [] xs []
  unfolding array_cow items
  array_cow-Holds z s xs b h =
      let e : xs ++ [] ≡ xs = append_nil xs in
      let n = items-length s s.length 0 xs h in
      let one_by_one = copy_items-run s z [] xs s.length 0 h refl in
      let w =
        write_cells-run [] (replicate s.length z) [] xs 0 refl
          (length-replicate s.length z ∙ sym n) in
      (
        record { memory = xs; start = 0; length = s.length; stride = pos 1; free = pos 0 },
        elim (Bool-cases (is_one s.stride)) [
          | inl one ↦
              let run = whole-cells s xs (one-stride s.stride one) b h in
              let z' = append_nil (replicate s.length z) in rw (one, run) (ground (arith, w, z'))
          | inr strided ↦ rw (strided, one_by_one) refl
        ],
        record { memory = sym e; start = refl; length = sym n; stride = refl },
      )
