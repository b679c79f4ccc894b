-- ===== src/Arrays/Insertion.antt =====
-- `array_insert` of libsss/utils.c on an array whose items lie side by side.
use blangc.Arrays.Cells.{write_cells-run, cells-run, items_from-run, replicate-split, append_assoc}
use blangc.Arrays.{
  array_insert, open_gap, must_copy, insert_position, copied_around, write_cells, move_cells,
}
use blangc.Prelude.Int.{pos, ◌-ℤ◌, ltb_ℤ, ◌≤ℤ◌}
use blangc.Prelude.{
  ℕ, ◌+◌, ◌-◌, ◌≤◌, ◌≡◌, refl, sym, true, false, some, List, [], ◌∷◌, ◌++◌, length, length-append,
  length-replicate, replicate, arith,
}
use blangc.Slice.{Slice, item, items, items_from, ◌>>=◌, bind_some}

insert_position-at : (n len : ℕ) → n ≤ len → insert_position (pos (n + 1)) len ≡ n
unfolding insert_position
insert_position-at n len h = ground arith

module _ {A : Type 0} where
  -- The array holds the list, between `before` and `behind` in its memory.
  pub record Holds (s : Slice A) (before xs behind : List A) : Type 0 where
    pub memory : s.memory ≡ before ++ (xs ++ behind)
    pub start : s.start ≡ length before
    pub length : s.length ≡ length xs
    pub stride : s.stride ≡ pos 1

  pub Holds-items :
      (s : Slice A) (before xs behind : List A) → Holds s before xs behind → items s ≡ some xs
  unfolding items
  Holds-items s before xs behind h =
      items_from-run s before xs behind s.length 0 h.memory h.stride (omega (arith, h.start))
        h.length

  uncons :
      (mid : List A) (last : A)
      → (q : A) × (tl : List A) × (mid ++ last ∷ [] ≡ q ∷ tl) × (length tl ≡ length mid)
  uncons [] last = (last, [], refl, refl)
  uncons (m ∷ mid) last = (m, mid ++ last ∷ [], refl, omega (arith, length-append mid (last ∷ [])))

  -- The move of `array_insert` and the write of the item.
  shifted :
      (bf mid behind : List A) (item last cell : A) (at : ℕ)
      → at ≡ length bf
      → (move_cells (bf ++ ((mid ++ last ∷ []) ++ cell ∷ behind)) (at + 1) at (length mid) >>= λ m.
          write_cells m at (item ∷ []))
        ≡ some (bf ++ (item ∷ (mid ++ cell ∷ behind)))
  unfolding move_cells
  shifted bf mid behind item last cell at h =
      let (q, tl, e, n) = uncons mid last in
      let c1 = cells-run bf mid (last ∷ cell ∷ behind) at (length mid) (sym h) refl in
      let c2 = append_assoc mid (last ∷ []) (cell ∷ behind) in
      let l = length-append bf (q ∷ []) in
      let w1 =
        write_cells-run (bf ++ q ∷ []) tl (cell ∷ behind) mid (at + 1) (omega (arith, l)) n in
      let c3 = append_assoc bf (q ∷ []) (tl ++ cell ∷ behind) in
      let c4 = append_assoc bf (q ∷ []) (mid ++ cell ∷ behind) in
      let w2 = write_cells-run bf (q ∷ []) (mid ++ cell ∷ behind) (item ∷ []) at (sym h) refl in
      ground arith

  -- `array_insert` of an item before another one, in an array of whole stride with a free cell,
  -- returns an array without the last item of the old one: what the free cell held stands in its
  -- place.
  pub array_insert_in_place :
      (z : A) (s : Slice A) (before front mid behind : List A) (item last cell : A)
      → Holds s before (front ++ (mid ++ last ∷ [])) (cell ∷ behind)
      → pos 1 ≤ℤ s.free
      → (r : Slice A) × (array_insert z false s item (pos (length front + 1)) ≡ some r)
        × Holds r before (front ++ (item ∷ (mid ++ cell ∷ []))) behind
  unfolding array_insert open_gap must_copy
  array_insert_in_place z s before front mid behind item last cell h f =
      let l1 = length-append front (mid ++ last ∷ []) in
      let l2 = length-append mid (last ∷ []) in
      let l3 = length-append front (item ∷ (mid ++ cell ∷ [])) in
      let l4 = length-append mid (cell ∷ []) in
      let l5 = length-append before front in
      let at = insert_position-at (length front) s.length (omega (arith, h.length, l1)) in
      let sh =
        shifted (before ++ front) mid behind item last cell (s.start + length front)
          (omega (arith, h.start, l5)) in
      let (m, p, q) =
        bind_some
          (move_cells ((before ++ front) ++ ((mid ++ last ∷ []) ++ cell ∷ behind))
            (s.start + length front + 1) (s.start + length front) (length mid))
          _ sh in
      let c1 = append_assoc before front ((mid ++ last ∷ []) ++ cell ∷ behind) in
      let c2 = append_assoc front (mid ++ last ∷ []) (cell ∷ behind) in
      let c3 = append_assoc before front (item ∷ (mid ++ cell ∷ behind)) in
      let c4 = append_assoc front (item ∷ (mid ++ cell ∷ [])) behind in
      let c5 = append_assoc mid (cell ∷ []) behind in
      let mem = h.memory in
      let len = h.length in
      let st = h.stride in
      let start = h.start in
      let r = record s {
        memory = (before ++ front) ++ (item ∷ (mid ++ cell ∷ behind));
        length = s.length + 1;
        free = s.free -ℤ pos 1;
      } in
      (
        r,
        ground arith,
        record { memory = ground arith; start = start; length = ground arith; stride = st },
      )

  -- The copy that the operations make, with `gap` cells between the two parts.
  pub copied_around-run :
      (z : A) (s : Slice A) (front back : List A) (gap spare room at from dest : ℕ)
      → items_from s at 0 ≡ some front
      → items_from s (s.length - from) from ≡ some back
      → room ≡ length front + (gap + (length back + spare))
      → dest ≡ length front + gap
      → copied_around z s room at from dest
        ≡ some (front ++ (replicate gap z ++ (back ++ replicate spare z)))
  unfolding copied_around
  copied_around-run z s front back gap spare room at from dest f b n d =
      let r1 = replicate-split (length front) (gap + (length back + spare)) z in
      let r2 = replicate-split gap (length back + spare) z in
      let r3 = replicate-split (length back) spare z in
      let n1 = length-replicate (length front) z in
      let n2 = length-replicate gap z in
      let n3 = length-replicate (length back) z in
      let w1 =
        write_cells-run [] (replicate (length front) z) (replicate (gap + (length back + spare)) z)
          front 0 refl n1 in
      let l = length-append front (replicate gap z) in
      let w2 =
        write_cells-run (front ++ replicate gap z) (replicate (length back) z) (replicate spare z)
          back dest (omega (arith, l, n2, d)) n3 in
      let c1 =
        append_assoc front (replicate gap z) (replicate (length back) z ++ replicate spare z) in
      let c2 = append_assoc front (replicate gap z) (back ++ replicate spare z) in ground arith

  -- `array_insert`, at an index in bounds of an array of whole stride without a free cell, returns an
  -- array in a memory of its own that holds the items before the index, the new item and the items
  -- from the index on, and has 5 free cells.
  pub array_insert_copy :
      (z : A) (s : Slice A) (before front back behind : List A) (item : A)
      → Holds s before (front ++ back) behind
      → ltb_ℤ s.free (pos 1) ≡ true
      → (r : Slice A) × (array_insert z false s item (pos (length front + 1)) ≡ some r)
        × Holds r [] (front ++ (item ∷ back)) (replicate 5 z)
        × (r.free ≡ pos 5)
  unfolding array_insert open_gap must_copy ◌-ℤ◌
  array_insert_copy z s before front back behind item h f =
      let mem = h.memory in
      let len = h.length in
      let st = h.stride in
      let start = h.start in
      let l1 = length-append front back in
      let l2 = length-append front (item ∷ back) in
      let l5 = length-append before front in
      let at = insert_position-at (length front) s.length (omega (arith, len, l1)) in
      let c1 = append_assoc front back behind in
      let c2 = append_assoc before front (back ++ behind) in
      let i1 =
        items_from-run s before front (back ++ behind) (length front) 0 (ground arith) st
          (omega (arith, start)) refl in
      let i2 =
        items_from-run s (before ++ front) back behind (s.length - length front) (length front)
          (ground arith) st (omega (arith, start, l5)) (omega (arith, len, l1)) in
      let k =
        copied_around-run z s front back 1 5 (s.length + 6) (length front) (length front)
          (length front + 1) i1 i2 (omega (arith, len, l1)) refl in
      let w =
        write_cells-run front (z ∷ []) (back ++ replicate 5 z) (item ∷ []) (length front) refl
          refl in
      let c3 = append_assoc front (item ∷ back) (replicate 5 z) in
      let r = record s {
        memory = front ++ (item ∷ (back ++ replicate 5 z));
        start = 0;
        length = s.length + 1;
        free = pos 5;
      } in
      (
        r,
        ground arith,
        record { memory = ground arith; start = refl; length = ground arith; stride = st },
        refl,
      )
