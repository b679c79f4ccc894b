-- ===== src/Arrays.antt =====
-- libsss/utils.c: the arrays of the run time, which are slices of cells. `z` is what a fresh cell
-- holds, and `is_null` says that `data` is NULL. A loop that copies items into a new buffer is a
-- read of these items and a write of them, since the buffer does not overlap the array. `none` is
-- an access outside the memory.
pub mod Cells
pub mod Insertion
pub mod Copy
pub mod Removal
pub mod Ranges
use blangc.Prelude.Int.{ℤ, pos, negsuc, ◌+ℤ◌, ◌-ℤ◌, ltb_ℤ}
use blangc.Prelude.{
  ℕ, zero, suc, ◌+◌, ◌-◌, Bool, true, false, not, ◌&&◌, ◌||◌, ◌==◌, ltb, leb, if◌then◌else◌, Option,
  none, some, List, [], ◌∷◌, ◌++◌, length, take, drop, replicate,
}
use blangc.Slice.{Slice, is_one, item, items, items_from, ◌>>=◌}

-- The index of `array_insert` in bounds, less 1.
unfoldable pub insert_position : (index : ℤ) (len : ℕ) → ℕ
insert_position (negsuc n) len = 0
insert_position (pos n) len = if ltb n 1 then 0 else if ltb (len + 1) n then len else n - 1

-- A count in bounds.
unfoldable pub remove_count : (len at count : ℕ) → ℕ
remove_count len at count = if ltb (len - at) count then len - at else count

module _ {A : Type 0} where
  -- Reading and writing a run of cells.
  unfoldable pub cells : List A → (at n : ℕ) → Option (List A)
  cells memory at n = if leb (at + n) (length memory) then some (take n (drop at memory)) else none

  unfoldable pub write_cells : List A → (at : ℕ) → List A → Option (List A)
  write_cells memory at xs =
      if leb (at + length xs) (length memory)
      then some (take at memory ++ xs ++ drop (at + length xs) memory)
      else none

  -- `memmove` of cells.
  unfoldable pub move_cells : List A → (dest src n : ℕ) → Option (List A)
  move_cells memory dest src n = cells memory src n >>= λ moved. write_cells memory dest moved

  -- The loop of `array_cow` that copies one item in each round, from number `i` on.
  unfoldable pub copy_items : Slice A → (copy : List A) → (rounds i : ℕ) → Option (List A)
  copy_items s copy zero i = some copy
  copy_items s copy (suc rounds) i =
      item s i >>= λ x. write_cells copy i (x ∷ []) >>= λ copy'. copy_items s copy' rounds (i + 1)

  -- `array_cow` and `array_flatten`, which are the same.
  unfoldable pub array_cow : A → Slice A → Option (Slice A)
  unfolding copy_items
  array_cow z s =
      let fresh_cells = replicate s.length z in
      let run = cells s.memory s.start s.length >>= λ xs. write_cells fresh_cells 0 xs in
      let one_by_one = copy_items s fresh_cells s.length 0 in
      (if is_one s.stride then run else one_by_one) >>= λ copy.
      some (record { memory = copy; start = 0; length = s.length; stride = pos 1; free = pos 0 })

  -- A new buffer of so many cells, with the first `at` items, and the items from number `from` on
  -- at `dest`.
  unfoldable pub copied_around : A → Slice A → (room at from dest : ℕ) → Option (List A)
  copied_around z s room at from dest = items_from s at 0 >>= λ front.
      items_from s (s.length - from) from >>= λ back.
      write_cells (replicate room z) 0 front >>= λ copy. write_cells copy dest back

  unfoldable pub must_copy : Slice A → (needed : ℕ) → Bool
  must_copy s needed = ltb_ℤ s.free (pos needed) || not (is_one s.stride)

  -- The branches of `array_insert` that make room at position `at`.
  unfoldable pub open_gap : A → (is_null : Bool) → Slice A → (at : ℕ) → Option (Slice A)
  unfolding must_copy
  open_gap z is_null s at =
      if is_null
      then some (record s { memory = z ∷ []; start = 0; free = pos 1 })
      else if must_copy s 1
      then copied_around z s (s.length + 6) at at (at + 1)
        >>= (λ copy. some (record s { memory = copy; start = 0; free = pos 6 }))
      else if at == s.length
      then some s
      else move_cells s.memory (s.start + at + 1) (s.start + at) (s.length - (at + 1)) >>= λ m.
          some (record s { memory = m })

  unfoldable pub array_insert :
      A → (is_null : Bool) → Slice A → (item : A) (index : ℤ) → Option (Slice A)
  array_insert z is_null s item index =
      let at = insert_position index s.length in
      open_gap z is_null s at >>= λ s'. write_cells s'.memory (s'.start + at) (item ∷ []) >>= λ m.
      some (record s' { memory = m; length = s'.length + 1; free = s'.free -ℤ pos 1 })

  -- The branches of `array_insert_all` that make room for `len2` items. A count below 0 is a huge
  -- `size_t`.
  unfoldable pub open_gap_all : A → (is_null : Bool) → Slice A → (at len2 : ℕ) → Option (Slice A)
  unfolding must_copy
  open_gap_all z is_null s at len2 =
      if is_null
      then some (record s { memory = replicate len2 z; start = 0; free = pos len2 })
      else if must_copy s len2
      then copied_around z s (s.length + len2) at at (at + len2)
        >>= (λ copy. some (record s { memory = copy; start = 0; free = pos len2 }))
      else if at == s.length
      then some s
      else if (s.length == at + 1) && (len2 == 0)
      then none
      else move_cells s.memory (s.start + at + 1) (s.start + at) (s.length - (at + 1) + len2 - 1)
        >>= λ m. some (record s { memory = m })

  unfoldable pub array_insert_all :
      A → (is_null : Bool) → Slice A → Slice A → (index : ℤ) → Option (Slice A)
  array_insert_all z is_null s s2 index =
      let at = insert_position index s.length in
      open_gap_all z is_null s at s2.length >>= λ s'. items s2 >>= λ xs.
      write_cells s'.memory (s'.start + at) xs >>= λ m.
      some
        (record s' { memory = m; length = s'.length + s2.length; free = s'.free -ℤ pos s2.length })

  -- The branches of `array_remove` on `count` items from position `at` on, which are in bounds.
  unfoldable pub close_gap : A → Slice A → (at count : ℕ) → Option (Slice A)
  unfolding must_copy
  close_gap z s at count =
      if ltb s.length (at + 1 + count)
      then some (if ltb_ℤ s.free (pos 0) then s else record s { free = s.free +ℤ pos count })
      else if must_copy s 0
      then copied_around z s (s.length - 1) at (at + count) at
        >>= (λ copy. some (record s { memory = copy; start = 0; free = pos 0 }))
      else move_cells s.memory (s.start + at) (s.start + at + count)
          (s.length - (at + 1) + count - 1)
        >>= λ m. some (record s { memory = m; free = s.free +ℤ pos count })

  unfoldable pub array_remove : A → Slice A → (index count : ℤ) → Option (Slice A)
  array_remove z s (negsuc n) count = some s
  array_remove z s (pos n) (negsuc c) = some s
  array_remove z s (pos n) (pos c) =
      if ltb n 1 || ltb s.length n || ltb c 1
      then some s
      else let count = remove_count s.length (n - 1) c in
        close_gap z s (n - 1) count >>= λ s'. some (record s' { length = s'.length - count })
