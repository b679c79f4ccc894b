-- ===== src/Arrays/Removal.antt =====
-- `array_remove` of libsss/utils.c on an array whose items lie side by side.
use blangc.Arrays.Cells.{items_from-run, append_assoc}
use blangc.Arrays.Insertion.{Holds, copied_around-run}
use blangc.Arrays.{array_remove, close_gap, remove_count, must_copy, cells, move_cells}
use blangc.Prelude.Int.{pos, ◌≤ℤ◌, ltb_ℤ}
use blangc.Prelude.{
  ◌+◌, ◌*◌, ◌-◌, ◌<◌, ◌≡◌, refl, sym, true, none, some, List, [], ◌∷◌, ◌++◌, length, length-append,
  replicate, arith,
}
use blangc.Slice.{Slice, item}

module _ {A : Type 0} where
  -- `array_remove` of a run of items that others follow, in an array of whole stride that does not
  -- own its memory, returns an array in a memory of its own that holds the items before and behind
  -- the run.
  pub array_remove_copy :
      (z : A) (s : Slice A) (before front back behind : List A) (item next : A) (more : List A)
      → Holds s before (front ++ ((item ∷ more) ++ (next ∷ back))) behind
      → ltb_ℤ s.free (pos 0) ≡ true
      → (r : Slice A) × (array_remove z s (pos (length front + 1)) (pos (length more + 1)) ≡ some r)
        × Holds r [] (front ++ (next ∷ back)) (replicate (length more) z)
  unfolding array_remove close_gap remove_count must_copy
  array_remove_copy z s before front back behind item next more h f =
      let mem = h.memory in
      let len = h.length in
      let st = h.stride in
      let start = h.start in
      let l1 = length-append front ((item ∷ more) ++ (next ∷ back)) in
      let l2 = length-append more (next ∷ back) in
      let l3 = length-append front (next ∷ back) in
      let l4 = length-append before front in
      let l5 = length-append (before ++ front) (item ∷ more) in
      let c1 = append_assoc front ((item ∷ more) ++ (next ∷ back)) behind in
      let c2 = append_assoc (item ∷ more) (next ∷ back) behind in
      let c3 = append_assoc before front ((item ∷ more) ++ ((next ∷ back) ++ behind)) in
      let c4 = append_assoc (before ++ front) (item ∷ more) ((next ∷ back) ++ behind) in
      let i1 =
        items_from-run s before front ((item ∷ more) ++ ((next ∷ back) ++ behind)) (length front) 0
          (ground arith) st (omega (arith, start)) refl in
      let i2 =
        items_from-run s ((before ++ front) ++ (item ∷ more)) (next ∷ back) behind
          (s.length - (length front + (length more + 1))) (length front + (length more + 1))
          (ground arith) st (omega (arith, start, l4, l5)) (omega (arith, len, l1, l2)) in
      let k =
        copied_around-run z s front (next ∷ back) 0 (length more) (s.length - 1) (length front)
          (length front + (length more + 1)) (length front) i1 i2 (omega (arith, len, l1, l2))
          (omega arith) in
      let c5 = append_assoc front (next ∷ back) (replicate (length more) z) in
      let r = record s {
        memory = front ++ ((next ∷ back) ++ replicate (length more) z);
        start = 0;
        length = s.length - (length more + 1);
        free = pos 0;
      } in
      (
        r,
        ground arith,
        record {
          memory = sym c5;
          start = refl;
          length = omega (arith, len, l1, l2, l3);
          stride = st;
        },
      )

  -- `array_remove` of a run of items that others follow, in an array of whole stride that owns its
  -- memory, accesses cells outside the memory if less than twice as many cells lie behind the array
  -- as the run has items behind its first one.
  pub array_remove_overrun :
      (z : A) (s : Slice A) (before front back behind : List A) (item next : A) (more : List A)
      → Holds s before (front ++ ((item ∷ more) ++ (next ∷ back))) behind
      → pos 0 ≤ℤ s.free
      → length behind < 2 * length more
      → array_remove z s (pos (length front + 1)) (pos (length more + 1)) ≡ none
  unfolding array_remove close_gap remove_count must_copy move_cells cells
  array_remove_overrun z s before front back behind item next more h f short =
      let mem = h.memory in
      let len = h.length in
      let st = h.stride in
      let start = h.start in
      let l1 = length-append front ((item ∷ more) ++ (next ∷ back)) in
      let l2 = length-append more (next ∷ back) in
      let l3 = length-append before ((front ++ ((item ∷ more) ++ (next ∷ back))) ++ behind) in
      let l4 = length-append (front ++ ((item ∷ more) ++ (next ∷ back))) behind in ground arith
