-- ===== src/Hashmap/Ops.antt =====
-- The operations of libsss/hashmap.c. A fallback is the list of the maps that the chain of
-- `fallback` pointers reaches.
use blangc.Hashmap.{KeyOps, Bucket, Map, no_bucket, entry_at, home, get_raw, set_bucket, ◌>>=◌}
use blangc.Prelude.{
  ℕ, zero, suc, ◌+◌, ◌-◌, ◌*◌, ◌/◌, ◌%◌, ◌^◌, true, false, not, ◌&&◌, ◌||◌, Option, none, some,
  List, [], ◌∷◌, ◌++◌, get_elem?, set, replicate, take, ltb, leb, ◌==◌, if◌then◌else◌, length,
}
use Prim.Native.Nat.{bit_xor}

unfoldable pub len : {K V : Type 0} → Map K V → ℕ
len m = m.count

unfoldable pub mark_cow : {K V : Type 0} → Map K V → Map K V
mark_cow m = record m { copy_on_write = true }

-- The first `n` cells of an array, copied to a new array of `size` cells; `none` if either is
-- shorter.
unfoldable pub copy_cells : {A : Type 0} → ℕ → ℕ → List (Option A) → Option (List (Option A))
copy_cells n size cells =
    if ltb (length cells) n || ltb size n
    then none
    else some (take n cells ++ replicate (size - n) none)

-- The entries are replaced by a copy, with room for `count + 1` of them.
unfoldable pub copy_entries : {K V : Type 0} → Map K V → Option (Map K V)
copy_entries m = do
  cells ← copy_cells (m.count + 1) (m.count + 1) m.entries
  some (record m { entries = cells; entries_id = m.allocs; allocs = m.allocs + 1 })

unfoldable pub copy_buckets : {K V : Type 0} → Map K V → Map K V
copy_buckets m = record m { buckets_id = m.allocs; allocs = m.allocs + 1 }

-- `copy_on_write`: the arrays that are still the original ones are replaced by copies.
unfoldable pub copy_on_write :
    {K V : Type 0} → Map K V → (original_buckets original_entries : ℕ) → Option (Map K V)
copy_on_write m original_buckets original_entries = do
  m1 ←
      if not (m.entries_id == 0) && m.entries_id == original_entries then copy_entries m else some m
  let m2 =
      if not (m1.buckets_id == 0) && m1.buckets_id == original_buckets then copy_buckets m1 else m1
  some (record m2 { copy_on_write = false })

-- The bucket `i` is taken out of its chain; the result has the bucket to clear.
unfoldable pub unlink : List Bucket → ℕ → (prev : Option ℕ) → Option (List Bucket × ℕ)
unlink bs i prev = do
  bucket ← get_elem? bs i
  elim prev [
    | some p ↦ do
      before ← get_elem? bs p
      some (set bs p (record before { next1 = bucket.next1 }), i + 1)
    | none ↦
        if bucket.next1 == 0
        then some (bs, i + 1)
        else do following ← get_elem? bs (bucket.next1 - 1); some (set bs i following, bucket.next1)
  ]

-- The cell's value stays zeroed where there is none to write.
unfoldable pub value_or : {V : Type 0} → V → Option V → V
value_or zero_value none = zero_value
value_or zero_value (some v) = v

module _ {K V : Type 0} where
  -- The second loop: the first default value.
  -- `if (h->copy_on_write) copy_on_write(…);`
  unfoldable pub unshare : Map K V → (original_buckets original_entries : ℕ) → Option (Map K V)
  unshare m original_buckets original_entries =
      if m.copy_on_write then copy_on_write m original_buckets original_entries else some m

  unfoldable pub get_default : List (Map K V) → Option V
  get_default [] = none
  get_default (m ∷ rest) =
      let later = get_default rest in elim m.default_value [ none ↦ later | some v ↦ some v ]

  unfoldable pub value_at : Map K V → ℕ → Option V
  value_at m i = elim (entry_at m i) [ none ↦ none | some e ↦ some e.1 ]

  -- The capacity for one more entry, in 32 bits.
  unfoldable pub new_size : Map K V → ℕ
  new_size m =
      if ltb m.capacity (m.count + 1)
      then m.capacity * 2 % 2 ^ 32
      else if leb (m.count + 1) (m.capacity / 2)
      then m.capacity / 2
      else m.capacity

  -- Writing an entry: its cell has to be there.
  unfoldable pub write_cell : Map K V → ℕ → K × V → Option (Map K V)
  write_cell m i e =
      if ltb i (length m.entries)
      then some (record m { entries = set m.entries i (some e) })
      else none

  -- `memcpy(value_home, …)`: `value_home` is an array of entries, by its identity, with the number of
  -- the entry in it. No map is left where the array is not the map's, since it is another map's then.
  unfoldable pub write_home : Map K V → (value_home : ℕ × ℕ) → K × V → Option (Map K V)
  write_home m (array_id, i) e = if array_id == m.entries_id then write_cell m i e else none

  -- The key is in entry `i`.
  unfoldable pub update :
      Map K V → (original_buckets original_entries : ℕ) → ℕ → Option V → Option (Map K V × ℕ)
  unfolding write_home
  update m original_buckets original_entries i value = do
    m1 ← unshare m original_buckets original_entries
    let value_home = if m.copy_on_write then (m1.entries_id, i) else (m.entries_id, i)
    e ← entry_at m1 i
    m2 ← elim value [ none ↦ some m1 | some v ↦ write_home m1 value_home (e.0, v) ]
    some (m2, i)

  -- `while (h->buckets[i].index1 != last_index1) i = h->buckets[i].next1 - 1;`
  unfoldable pub bucket_of : ℕ → Map K V → (last_index1 : ℕ) → ℕ → Option ℕ
  bucket_of zero m last_index1 i = none
  bucket_of (suc fuel) m last_index1 i = elim (get_elem? m.buckets i) [
    | none ↦ none
    | some b ↦
        if b.index1 == last_index1
        then some i
        else if b.next1 == 0
        then none
        else bucket_of fuel m last_index1 (b.next1 - 1)
  ]

  -- `sss_hashmap_nth`: the assertion fails outside the range.
  unfoldable pub nth : Map K V → (n : ℕ) → Option ℕ
  nth m n = if leb 1 n && leb n m.count then some (n - 1) else none

  unfoldable pub hash_entries : (K × V → ℕ) → Map K V → (rounds i : ℕ) → ℕ → Option ℕ
  hash_entries entry_hash m zero i hash = some hash
  hash_entries entry_hash m (suc rounds) i hash = elim (entry_at m i) [
    | none ↦ none
    | some e ↦ hash_entries entry_hash m rounds (i + 1) (bit_xor hash (entry_hash e))
  ]

  -- `sss_hashmap_hash` of a map with its fallbacks; of NULL it is 0.
  unfoldable pub hash_map : (K × V → ℕ) → List (Map K V) → Option ℕ
  hash_map entry_hash [] = some 0
  hash_map entry_hash (m ∷ fallback) =
      let later = hash_map entry_hash fallback in
      elim (hash_entries entry_hash m m.count 0 0x12345678) [
        | none ↦ none
        | some hash ↦ elim later [ none ↦ none | some h ↦ some (bit_xor hash h) ]
      ]

  -- The key to remove: without one, that of the entry that `arc4random_uniform` picks.
  unfoldable pub chosen : Map K V → (random : ℕ) → Option K → Option K
  chosen m random (some k) = some k
  chosen m random none = elim (entry_at m random) [ none ↦ none | some e ↦ some e.0 ]

module _ {K V : Type 0} (ops : KeyOps K) where
  -- The first loop of `sss_hashmap_get`: the map whose entry it is, with the entry's number.
  unfoldable pub get_entry : List (Map K V) → K → Option (Option (Map K V × ℕ))
  get_entry [] k = some none
  get_entry (m ∷ rest) k =
      let later = get_entry rest k in
      elim (get_raw ops m k) [
        | none ↦ none
        | some none ↦ later
        | some (some i) ↦ some (some (m, i))
      ]

  -- `sss_hashmap_get` of a map with its fallbacks: the value at the address, if it is not NULL.
  unfoldable pub get : List (Map K V) → K → Option (Option V)
  get maps k = elim (get_entry maps k) [
    | none ↦ none
    | some none ↦ some (get_default maps)
    | some (some (m, i)) ↦ elim (value_at m i) [ none ↦ none | some v ↦ some (some v) ]
  ]

  -- The loop of `hashmap_resize` over the entries from number `i`, with the rounds left.
  unfoldable pub rehash : ℕ → ℕ → Map K V → Option (Map K V)
  rehash zero i m = some m
  rehash (suc rounds) i m = elim (entry_at m (i - 1)) [
    | none ↦ none
    | some e ↦ elim (set_bucket ops m e.0 i) [ none ↦ none | some m' ↦ rehash rounds (i + 1) m' ]
  ]

  unfoldable pub resize : Map K V → (new_capacity : ℕ) → Option (Map K V)
  resize m new_capacity = do
    m1 ← rehash m.count 1 (record m {
      buckets = replicate new_capacity no_bucket;
      buckets_id = m.allocs;
      allocs = m.allocs + 1;
      capacity = new_capacity;
      lastfree_index1 = new_capacity;
    })
    cells ← copy_cells m1.count new_capacity m1.entries
    some (record m1 { entries = cells; entries_id = m1.allocs; allocs = m1.allocs + 1 })

  -- "Resize buckets if necessary"
  unfoldable pub make_room : Map K V → Option (Map K V)
  make_room m = if leb m.capacity m.count then resize m (new_size m) else some m

  -- The value for a new entry when none is given: of the first fallback that has the key, else the
  -- first default value.
  unfoldable pub inherited : Map K V → List (Map K V) → K → Option (Option V)
  inherited m fallback k = elim (get_entry fallback k) [
    | none ↦ none
    | some none ↦ some (get_default (m ∷ fallback))
    | some (some (f, i)) ↦ elim (value_at f i) [ none ↦ none | some v ↦ some (some v) ]
  ]

  unfoldable pub new_value : Map K V → List (Map K V) → K → Option V → Option (Option V)
  new_value m fallback k none = inherited m fallback k
  new_value m fallback k (some v) = some (some v)

  -- The key is new. `zero_value` is what the zeroed memory of a new entry reads as.
  unfoldable pub insert :
      V
      → Map K V
      → List (Map K V)
      → (original_buckets original_entries : ℕ) → K
      → Option V
      → Option (Map K V × ℕ)
  insert zero_value m fallback original_buckets original_entries k value = do
    m1 ← make_room m
    value' ← new_value m1 fallback k value
    m2 ← unshare m1 original_buckets original_entries
    let i = m2.count
    m3 ← write_cell m2 i (k, value_or zero_value value')
    m4 ← set_bucket ops (record m3 { count = i + 1 }) k (i + 1)
    some (m4, i)

  -- `if (h->capacity == 0) hashmap_resize(…, 4, …);`
  unfoldable pub prepare : Map K V → Option (Map K V)
  prepare m = if m.capacity == 0 then resize m 4 else some m

  -- What `sss_hashmap_set` does with the answer of the lookup.
  unfoldable pub put :
      V
      → Map K V
      → List (Map K V)
      → (original_buckets original_entries : ℕ) → K
      → Option V
      → (found : Option ℕ) → Option (Map K V × ℕ)
  put zero_value m fallback original_buckets original_entries k value (some i) =
      update m original_buckets original_entries i value
  put zero_value m fallback original_buckets original_entries k value none =
      insert zero_value m fallback original_buckets original_entries k value

  -- `sss_hashmap_set` with the number of the entry that it returns.
  unfoldable pub set_entry : V → Map K V → List (Map K V) → K → Option V → Option (Map K V × ℕ)
  set_entry zero_value m fallback k value = do
    m1 ← prepare m
    found ← get_raw ops m1 k
    put zero_value m1 fallback m.buckets_id m.entries_id k value found

  -- The loop of `sss_hashmap_remove`: the key's bucket and the one before it in the chain.
  unfoldable pub find_bucket :
      ℕ → Map K V → K → ℕ → (prev : Option ℕ) → Option (Option (ℕ × Option ℕ))
  find_bucket zero m k i prev = none
  find_bucket (suc fuel) m k i prev = elim (get_elem? m.buckets i) [
    | none ↦ none
    | some b ↦ if b.index1 == 0 then some none else elim (entry_at m (b.index1 - 1)) [
      | none ↦ none
      | some e ↦
          if ops.key_equal e.0 k
          then some (some (i, prev))
          else if b.next1 == 0
          then some none
          else find_bucket fuel m k (b.next1 - 1) (some i)
    ]
  ]

  -- The last entry takes the place of entry `index1`.
  unfoldable pub move_last : Map K V → (index1 : ℕ) → Option (Map K V)
  move_last m index1 = do
    last ← entry_at m (m.count - 1)
    j ← bucket_of m.capacity m m.count (home ops m last.0)
    b ← get_elem? m.buckets j
    some (record m {
      buckets = set m.buckets j (record b { index1 = index1 });
      entries = set (set m.entries (index1 - 1) (some last)) (m.count - 1) none;
    })

  -- The entry of bucket `i` is taken out of the entries, which stay without a hole.
  unfoldable pub fill_hole : Map K V → ℕ → Option (Map K V)
  fill_hole m i = do
    bucket ← get_elem? m.buckets i
    if bucket.index1 == m.count
        then some (record m { entries = set m.entries (m.count - 1) none })
        else move_last m bucket.index1

  unfoldable pub remove_found : Map K V → ℕ → (prev : Option ℕ) → Option (Map K V)
  remove_found m i prev = do
    m1 ← fill_hole m i
    cleared ← unlink m1.buckets i prev
    some (record m1 {
      count = m1.count - 1;
      buckets = set cleared.0 (cleared.1 - 1) no_bucket;
      lastfree_index1 = if ltb m1.lastfree_index1 cleared.1 then cleared.1 else m1.lastfree_index1;
    })

  -- What follows the search for the bucket.
  unfoldable pub remove_from : Map K V → Option (ℕ × Option ℕ) → Option (Map K V)
  remove_from m none = some m
  remove_from m (some (i, prev)) = remove_found m i prev

  unfoldable pub remove_key : Map K V → (random : ℕ) → Option K → Option (Map K V)
  remove_key m random key = do
    m1 ← unshare m 0 0
    k ← chosen m1 random key
    found ← find_bucket m1.capacity m1 k (home ops m1 k) none
    remove_from m1 found

  -- `sss_hashmap_remove`; `random` is what `arc4random_uniform` returns where no key is given.
  unfoldable pub remove : Map K V → (random : ℕ) → Option K → Option (Map K V)
  remove m random key = if m.capacity == 0 then some m else remove_key m random key
