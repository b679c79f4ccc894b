-- ===== src/Hashmap/Overflow.antt =====
-- The room that copying on write leaves for entries in libsss/hashmap.c.
use blangc.Hashmap.CopyOnWrite.{set_bucket-Keeps}
use blangc.Hashmap.Ops.{
  copy_cells, copy_entries, copy_buckets, copy_on_write, unshare, make_room, new_value, value_or,
  write_cell, insert, set_entry, prepare, put,
}
use blangc.Hashmap.{KeyOps, Map, bind_some, get_raw, set_bucket}
use blangc.Prelude.{
  ℕ, ◌+◌, ◌-◌, ◌<◌, ◌≡◌, sym, ◌∙◌, true, false, Option, none, some, List, arith, length, take,
  replicate, length-append, length-take, length-replicate, length-set, ◌==◌, if◌then◌else◌, ◌&&◌,
  not,
}

length-copy_cells :
    {A : Type 0} (n : ℕ) (cells : List (Option A)) {c : List (Option A)}
    → copy_cells n n cells ≡ some c
    → length c ≡ n
unfolding copy_cells
length-copy_cells {A} n cells h = ground (
  arith,
  length-append (take n cells) (replicate (n - n) none),
  length-take n cells,
  length-replicate {A = Option A} (n - n) none,
)

module _ {K V : Type 0} (ops : KeyOps K) where
  -- The map after its first write of a new key: the entries fill their array.
  record Filled (m m' : Map K V) : Type 0 where
    full : length m'.entries ≡ m.count + 1
    count : m'.count ≡ m.count + 1
    capacity : m'.capacity ≡ m.capacity
    cow : m'.copy_on_write ≡ false

  entries_copied :
      (m : Map K V) {m' : Map K V}
      → copy_entries m ≡ some m'
      → (length m'.entries ≡ m.count + 1) × (m'.count ≡ m.count) × (m'.capacity ≡ m.capacity)
  unfolding copy_entries
  entries_copied m h =
      let (cells, r, p) = bind_some (copy_cells (m.count + 1) (m.count + 1) m.entries) _ h in
      let l = length-copy_cells (m.count + 1) m.entries r in
      (ground arith, ground arith, ground arith)

  unshared :
      (m : Map K V) (b : ℕ) {m' : Map K V}
      → 0 < m.entries_id
      → copy_on_write m b m.entries_id ≡ some m'
      → (length m'.entries ≡ m.count + 1)
        × (m'.count ≡ m.count)
        × (m'.capacity ≡ m.capacity)
        × (m'.copy_on_write ≡ false)
  unfolding copy_on_write copy_buckets
  unshared m b pe h =
      let (m1, r, p) =
        bind_some
          (if not (m.entries_id == 0) && m.entries_id == m.entries_id
            then copy_entries m
            else some m)
          _ h in
      let r' : copy_entries m ≡ some m1 = ground arith in
      let k = entries_copied m r' in (ground arith, ground arith, ground arith, ground arith)

  make_room_full : (m : Map K V) → m.count < m.capacity → make_room ops m ≡ some m
  unfolding make_room
  make_room_full m h = ground arith

  unshare_cow :
      (m : Map K V) (b e : ℕ) → m.copy_on_write ≡ true → unshare m b e ≡ copy_on_write m b e
  unfolding unshare
  unshare_cow m b e h = ground arith

  written :
      (m : Map K V) (i : ℕ) (c : K × V) {m' : Map K V}
      → write_cell m i c ≡ some m'
      → (length m'.entries ≡ length m.entries)
        × (m'.capacity ≡ m.capacity)
        × (m'.copy_on_write ≡ m.copy_on_write)
  unfolding write_cell
  written m i c h = ground (arith, length-set m.entries i (some c))

  insert-Filled :
      (z : V) (m : Map K V) (fb : List (Map K V)) (b : ℕ) (k : K) (v : V) {m' : Map K V} {j : ℕ}
      → m.count + 1 < m.capacity
      → m.copy_on_write ≡ true
      → 0 < m.entries_id
      → insert ops z m fb b m.entries_id k (some v) ≡ some (m', j)
      → Filled m m'
  unfolding insert new_value value_or
  insert-Filled z m fb b k v room cow pe h =
      let h1 = rw (make_room_full m (omega arith), unshare_cow m b m.entries_id cow) at h in
      let (m2, r2, p2) = bind_some (copy_on_write m b m.entries_id) _ h1 in
      let (m3, r3, p3) = bind_some (write_cell m2 m2.count (k, v)) _ p2 in
      let (m4, r4, p4) =
        bind_some (set_bucket ops (record m3 { count = m2.count + 1 }) k (m2.count + 1)) _ p3 in
      let k2 = unshared m b pe r2 in
      let k3 = written m2 m2.count (k, v) r3 in
      let k4 = set_bucket-Keeps ops _ k _ r4 in ground arith

  insert_full :
      (z : V) (m : Map K V) (fb : List (Map K V)) (b e : ℕ) (k : K) (v : V)
      → m.count < m.capacity
      → m.copy_on_write ≡ false
      → length m.entries ≡ m.count
      → insert ops z m fb b e k (some v) ≡ none
  unfolding insert make_room new_value write_cell unshare
  insert_full z m fb b e k v room cow full = ground arith

  prepare_used : (m : Map K V) → 0 < m.capacity → prepare ops m ≡ some m
  unfolding prepare
  prepare_used m h = ground arith

  set_entry_new :
      (z : V) (m : Map K V) (fb : List (Map K V)) (k : K) (v : Option V)
      → 0 < m.capacity
      → get_raw ops m k ≡ some none
      → set_entry ops z m fb k v ≡ insert ops z m fb m.buckets_id m.entries_id k v
  unfolding set_entry put
  set_entry_new z m fb k v h e = rw (prepare_used m h, e)

  -- Where `sss_hashmap_set` writes a new key to a map whose copy-on-write flag is set and whose
  -- capacity is more than its count and one, the array of entries is then as long as the new count,
  -- which is below the capacity, and the write of a second new key is outside that array.
  pub set_entry_overflow :
      (z : V) (m : Map K V) (fallback : List (Map K V)) (k l : K) (v w : V) (m' : Map K V) (j : ℕ)
      → m.count + 1 < m.capacity
      → m.copy_on_write ≡ true
      → 0 < m.entries_id
      → get_raw ops m k ≡ some none
      → set_entry ops z m fallback k (some v) ≡ some (m', j)
      → get_raw ops m' l ≡ some none
      → (length m'.entries ≡ m.count + 1)
        × (m'.count < m'.capacity)
        × (set_entry ops z m' fallback l (some w) ≡ none)
  set_entry_overflow z m fallback k l v w m' j room cow pe new h new' =
      let f =
        insert-Filled z m fallback m.buckets_id k v room cow pe
          (sym (set_entry_new z m fallback k (some v) (omega arith) new) ∙ h) in
      (
        f.full,
        omega (arith, f.count, f.capacity),
        set_entry_new z m' fallback l (some w) (omega (arith, f.capacity)) new'
            ∙ insert_full z m' fallback m'.buckets_id m'.entries_id l w
                (omega (arith, f.count, f.capacity)) f.cow (f.full ∙ sym f.count),
      )
