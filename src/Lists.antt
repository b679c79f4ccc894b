-- ===== src/Lists.antt =====
-- libsss/list.c: the growing lists of the compiler. `items` is the allocation, of which `len` cells
-- are in use and `slack` more, counted in 8 bits, may be used; `z` is what a fresh cell holds.
pub mod Contents
use blangc.Arrays.{cells, write_cells, move_cells}
use blangc.Prelude.Int.{ℤ, pos, negsuc}
use blangc.Prelude.{
  ℕ, ◌+◌, ◌-◌, ◌%◌, ◌^◌, Bool, true, false, ◌||◌, ◌==◌, ltb, if◌then◌else◌, Option, none, some,
  List, [], ◌∷◌, replicate, length,
}
use blangc.Slice.{◌>>=◌}

pub record GrowingList (A : Type 0) : Type 0 where
  pub items : List A
  pub len : ℕ
  pub slack : ℕ

-- What a call makes of a list: the new one, a message about a wrong index, or a fault of memory.
pub data Outcome (A : Type 0) : Type 0 where
  done : GrowingList A → Outcome A
  bad_index : Outcome A
  fault : Outcome A

unfoldable pub or_fault : {A : Type 0} → Option (GrowingList A) → Outcome A
or_fault none = fault
or_fault (some l) = done l

module _ {A : Type 0} where
  unfoldable pub list_new : A → (min_items : ℕ) → GrowingList A
  list_new z min_items = record {
    items = replicate min_items z;
    len = 0;
    slack = min_items % 2 ^ 8;
  }

  unfoldable pub list_new_items : List A → GrowingList A
  list_new_items xs = record { items = xs; len = length xs; slack = 0 }

  -- The test of `list_append`, and the larger allocation.
  unfoldable pub reserve : A → GrowingList A → Option (GrowingList A)
  reserve z l =
      if ltb 0 l.slack
      then some (record l { slack = l.slack - 1 })
      else cells l.items 0 l.len >>= λ old.
          write_cells (replicate (l.len + 1 + 8) z) 0 old >>= λ copy.
          some (record l { items = copy; slack = 8 })

  unfoldable pub list_append : A → GrowingList A → A → Option (GrowingList A)
  list_append z l item = reserve z l >>= λ l'. write_cells l'.items l'.len (item ∷ []) >>= λ items.
      some (record l' { items = items; len = l'.len + 1 })

  -- `index` and `count` are in bounds.
  unfoldable pub remove_run : GrowingList A → (index count : ℕ) → Option (GrowingList A)
  remove_run l index count =
      move_cells l.items index (index + count) (l.len - (index + count)) >>= λ items.
      some (record { items = items; len = l.len - count; slack = (l.slack + count) % 2 ^ 8 })

  unfoldable pub list_remove : GrowingList A → (index count : ℤ) → Outcome A
  list_remove l (pos index) (pos count) =
      if count == 0 || ltb l.len (index + count)
      then bad_index
      else or_fault (remove_run l index count)
  list_remove l (pos index) (negsuc count) = bad_index
  list_remove l (negsuc index) count = bad_index
