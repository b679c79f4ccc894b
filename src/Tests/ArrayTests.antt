-- ===== src/Tests/ArrayTests.antt =====
-- Arrays at work, and the theorems about them on those arrays.
use blangc.Arrays.Insertion.{Holds, array_insert_in_place, array_insert_copy}
use blangc.Arrays.Ranges.{
  up, range_slice, range_stride, clamped, first_up, first_down, raise, rem, quot, capped, slice_up,
  slice_down, slice_at, nothing_of, wrap_int16, in_items, with_stride, range_slice-item,
}
use blangc.Arrays.Copy.{array_cow-Holds}
use blangc.Arrays.Removal.{array_remove_copy, array_remove_overrun}
use blangc.Arrays.{
  cells, write_cells, move_cells, array_cow, copy_items, copied_around, insert_position, must_copy,
  open_gap, array_insert, open_gap_all, array_insert_all, close_gap, remove_count, array_remove,
}
use blangc.Prelude.Int.{ℤ, pos, negsuc, ◌+ℤ◌, ◌*ℤ◌, ◌-ℤ◌}
use blangc.Prelude.{
  ℕ, Option, ◌+◌, ◌*◌, ◌<◌, ◌≡◌, refl, none, some, [], ◌∷◌, false, replicate, arith,
}
use blangc.Slice.{Slice, fresh, item, items, items_from, ◌>>=◌}

array_code : Unit {0}
unfolding item items items_from cells write_cells move_cells array_cow copy_items copied_around
    insert_position must_copy open_gap array_insert open_gap_all array_insert_all close_gap
    remove_count array_remove ◌+ℤ◌ ◌*ℤ◌ ◌-ℤ◌
array_code = tt

-- 1, 2, 3 and two free cells.
abbrev roomy : Slice ℕ
roomy = record {
  memory = 1 ∷ 2 ∷ 3 ∷ 0 ∷ 0 ∷ [];
  start = 0;
  length = 3;
  stride = pos 1;
  free = pos 2;
}

-- 3, 1: every other item, backwards.
abbrev strided : Slice ℕ
strided = record {
  memory = 1 ∷ 2 ∷ 3 ∷ [];
  start = 2;
  length = 2;
  stride = negsuc 1;
  free = negsuc 0;
}

inserted : (array_insert 0 false roomy 9 (pos 1) >>= items) ≡ some (9 ∷ 1 ∷ 2 ∷ 0 ∷ [])
unfolding array_code
inserted = refl

-- The copy lies side by side, and is read with the old stride.
inserted_strided : (array_insert 0 false strided 9 (pos 3) >>= items) ≡ none
unfolding array_code
inserted_strided = refl

removed_one : (array_remove 0 roomy (pos 1) (pos 1) >>= items) ≡ some (2 ∷ 3 ∷ [])
unfolding array_code
removed_one = refl

inserted_all :
    (array_insert_all 0 false (fresh (1 ∷ 2 ∷ [])) strided (pos 2) >>= items)
    ≡ some (1 ∷ 3 ∷ 1 ∷ 2 ∷ [])
unfolding array_code
inserted_all = refl

array_insert_in_place_example :
    (r : Slice ℕ) × (array_insert 0 false roomy 9 (pos 2) ≡ some r)
    × Holds r [] (1 ∷ 9 ∷ 2 ∷ 0 ∷ []) (0 ∷ [])
array_insert_in_place_example =
    array_insert_in_place 0 roomy [] (1 ∷ []) (2 ∷ []) (0 ∷ []) 9 3 0
      (record { memory = refl; start = refl; length = refl; stride = refl }) (omega arith)

array_insert_copy_example :
    (r : Slice ℕ) × (array_insert 0 false (fresh (1 ∷ 2 ∷ [])) 9 (pos 2) ≡ some r)
    × Holds r [] (1 ∷ 9 ∷ 2 ∷ []) (replicate 5 0)
    × (r.free ≡ pos 5)
array_insert_copy_example =
    array_insert_copy 0 (fresh (1 ∷ 2 ∷ [])) [] (1 ∷ []) (2 ∷ []) [] 9
      (record { memory = refl; start = refl; length = refl; stride = refl }) refl

array_cow-Holds_example :
    (r : Slice ℕ) × (array_cow 0 strided ≡ some r) × Holds r [] (3 ∷ 1 ∷ []) []
unfolding array_code
array_cow-Holds_example = array_cow-Holds 0 strided (3 ∷ 1 ∷ []) (omega arith) refl

-- A slice of a larger array, which owns no free cells.
abbrev borrowed : Slice ℕ
borrowed = record {
  memory = 1 ∷ 2 ∷ 3 ∷ 4 ∷ 5 ∷ [];
  start = 0;
  length = 4;
  stride = pos 1;
  free = negsuc 0;
}

array_remove_copy_example :
    (r : Slice ℕ) × (array_remove 0 borrowed (pos 2) (pos 2) ≡ some r)
    × Holds r [] (1 ∷ 4 ∷ []) (0 ∷ [])
array_remove_copy_example =
    array_remove_copy 0 borrowed [] (1 ∷ []) [] (5 ∷ []) 2 4 (3 ∷ [])
      (record { memory = refl; start = refl; length = refl; stride = refl }) refl

array_remove_overrun_example :
    array_remove {A = ℕ} 0 (fresh (1 ∷ 2 ∷ 3 ∷ 4 ∷ [])) (pos 2) (pos 2) ≡ none
array_remove_overrun_example =
    array_remove_overrun {A = ℕ} 0 (fresh (1 ∷ 2 ∷ 3 ∷ 4 ∷ [])) [] (1 ∷ []) [] [] 2 4 (3 ∷ [])
      (record { memory = refl; start = refl; length = refl; stride = refl }) (omega arith)
      (omega arith)

range_code : Unit {0}
unfolding range_slice range_stride clamped first_up first_down raise rem quot capped slice_up
    slice_down slice_at nothing_of wrap_int16 in_items with_stride item items items_from ◌+ℤ◌ ◌*ℤ◌
    ◌-ℤ◌
range_code = tt

abbrev five : Slice ℕ
five = fresh (1 ∷ 2 ∷ 3 ∷ 4 ∷ 5 ∷ [])

-- Places 2 to 5 by 3, and 4 to 1 by -2.
every_third : (range_slice 8 five (up 1 2 5) >>= items) ≡ some (2 ∷ 5 ∷ [])
unfolding range_code
every_third = refl

downwards :
    (range_slice 8 five (record { first = pos 4; stride = negsuc 1; last = pos 1 }) >>= items)
    ≡ some (4 ∷ 2 ∷ [])
unfolding range_code
downwards = refl

abbrev map_stride : Option (Slice ℕ) → Option ℤ
map_stride none = none
map_stride (some s) = some s.stride

-- A range that goes on behind the array makes a slice that does so too.
overrun : (range_slice 8 five (up 1 0 100) >>= items) ≡ none
unfolding range_code
overrun = refl

-- Places 5 to 4 by 2, which are none.
none_counted : (range_slice 8 five (up 4 1 4) >>= items) ≡ some (5 ∷ [])
unfolding range_code
none_counted = refl

-- A stride of 5000 items of 8 bytes.
cut_stride : map_stride (range_slice 8 five (up 0 4999 1)) ≡ some (negsuc 3191)
unfolding range_code
cut_stride = refl

range_slice-item_example :
    (r : Slice ℕ) × (range_slice 8 five (up 1 2 5) ≡ some r)
    × ((i : ℕ) → i < r.length → (1 + i * 3 < 5) × (item r i ≡ item five (1 + i * 3)))
range_slice-item_example =
    range_slice-item 8 five 1 5 2 refl (omega arith) (omega arith) (omega arith) (omega arith)
