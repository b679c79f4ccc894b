-- ===== src/Arrays/Cells.antt =====
-- Runs of cells inside a memory, for libsss/utils.c: what a write and a move of cells make of a
-- memory that is written as pieces, and what a slice of whole stride holds in one.
use blangc.Arrays.{cells, write_cells}
use blangc.Prelude.Int.{pos, ◌+ℤ◌, ◌*ℤ◌}
use blangc.Prelude.{
  ℕ, zero, suc, ◌+◌, ◌≡◌, refl, ap, ◌∙◌, some, List, [], ◌∷◌, ◌++◌, length, length-append, take,
  drop, replicate, get_elem?, arith,
}
use blangc.Slice.{Slice, item, items_from}

module _ {A : Type 0} where
  pub append_assoc : (a b c : List A) → a ++ b ++ c ≡ a ++ (b ++ c)
  append_assoc [] b c = refl
  append_assoc (x ∷ a) b c = ap (λ r. x ∷ r) (append_assoc a b c)

  take-append : (a r : List A) → take (length a) (a ++ r) ≡ a
  take-append [] r = refl
  take-append (x ∷ a) r = ap (λ t. x ∷ t) (take-append a r)

  drop-append : (a r : List A) → drop (length a) (a ++ r) ≡ r
  drop-append [] r = refl
  drop-append (x ∷ a) r = drop-append a r

  get_elem?-append : (a r : List A) (x : A) → get_elem? (a ++ x ∷ r) (length a) ≡ some x
  get_elem?-append [] r x = refl
  get_elem?-append (y ∷ a) r x = get_elem?-append a r x

  pub replicate-split : (m n : ℕ) (z : A) → replicate (m + n) z ≡ replicate m z ++ replicate n z
  replicate-split zero n z = ground arith
  replicate-split (suc m) n z =
      let e : suc m + n ≡ suc (m + n) = omega arith in
      ap (λ k. replicate k z) e ∙ ap (λ r. z ∷ r) (replicate-split m n z)

  pub write_cells-run :
      (a b c xs : List A) (at : ℕ)
      → length a ≡ at
      → length b ≡ length xs
      → write_cells (a ++ (b ++ c)) at xs ≡ some (a ++ (xs ++ c))
  unfolding write_cells
  write_cells-run a b c xs at h k =
      let l1 = length-append a (b ++ c) in
      let l2 = length-append b c in
      let l3 = length-append a b in
      let t = take-append a (b ++ c) in
      let d = drop-append (a ++ b) c in
      let e = append_assoc a b c in let f = append_assoc a xs c in ground arith

  pub cells-run :
      (a b c : List A) (at n : ℕ)
      → length a ≡ at
      → length b ≡ n
      → cells (a ++ (b ++ c)) at n ≡ some b
  unfolding cells
  cells-run a b c at n h k =
      let l1 = length-append a (b ++ c) in
      let l2 = length-append b c in
      let t = take-append b c in let d = drop-append a (b ++ c) in ground arith

  -- What a slice of whole stride holds at a place of its memory.
  pub items_from-run :
      (s : Slice A) (a xs c : List A) (rounds i : ℕ)
      → s.memory ≡ a ++ (xs ++ c)
      → s.stride ≡ pos 1
      → s.start + i ≡ length a
      → rounds ≡ length xs
      → items_from s rounds i ≡ some xs
  unfolding items_from item ◌+ℤ◌ ◌*ℤ◌
  items_from-run s a [] c zero i m st h l = refl
  items_from-run s a [] c (suc rounds) i m st h l = absurd (omega (arith, l))
  items_from-run s a (x ∷ xs) c zero i m st h l = absurd (omega (arith, l))
  items_from-run s a (x ∷ xs) c (suc rounds) i m st h l =
      let g = get_elem?-append a (xs ++ c) x in
      let e = append_assoc a (x ∷ []) (xs ++ c) in
      let n = length-append a (x ∷ []) in
      let rest =
        items_from-run s (a ++ x ∷ []) xs c rounds (suc i) (ground arith) st (ground arith)
          (ground arith) in
      ground arith
