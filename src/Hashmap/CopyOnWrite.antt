-- ===== src/Hashmap/CopyOnWrite.antt =====
-- Copying on write in libsss/hashmap.c: which arrays an operation writes to, by their identities.
use blangc.Hashmap.Ops.{
  copy_entries, copy_buckets, copy_on_write, unshare, rehash, find_bucket, move_last, fill_hole,
  unlink, bucket_of, chosen, remove_from, remove_key, remove_found, remove,
}
use blangc.Hashmap.{KeyOps, Map, bind_some, set_bucket, displace, append, collide, home, entry_at}
use blangc.Prelude.{
  ℕ, zero, suc, ◌+◌, ◌-◌, ◌<◌, ◌≡◌, ◌≢◌, ◌⊎◌, inl, inr, false, Bool-cases, Option, none, some, List,
  arith, get_elem?, take, set, set-set, ◌==◌,
}

module _ {K V : Type 0} (ops : KeyOps K) where
  -- What the placing of an entry leaves alone.
  pub record Keeps (m m' : Map K V) : Type 0 where
    pub entries : m'.entries ≡ m.entries
    pub default_value : m'.default_value ≡ m.default_value
    pub capacity : m'.capacity ≡ m.capacity
    pub count : m'.count ≡ m.count
    pub cow : m'.copy_on_write ≡ m.copy_on_write
    pub entries_id : m'.entries_id ≡ m.entries_id
    pub buckets_id : m'.buckets_id ≡ m.buckets_id
    pub allocs : m'.allocs ≡ m.allocs

  append-Keeps :
      (m : Map K V) (k : K) (hash free i : ℕ) {m' : Map K V}
      → append ops m k hash free i ≡ some m'
      → Keeps m m'
  unfolding append
  append-Keeps m k hash free i e = ground arith

  displace-Keeps :
      (m : Map K V) (hash collided free i : ℕ) {m' : Map K V}
      → displace ops m hash collided free i ≡ some m'
      → Keeps m m'
  unfolding displace
  displace-Keeps m hash collided free i e = ground arith

  pub set_bucket-Keeps :
      (m : Map K V) (k : K) (i : ℕ) {m' : Map K V} → set_bucket ops m k i ≡ some m' → Keeps m m'
  unfolding set_bucket collide
  set_bucket-Keeps m k i e = grind (arith, append-Keeps, displace-Keeps)

  rehash-Keeps :
      (rounds i : ℕ) (m : Map K V) {m' : Map K V} → rehash ops rounds i m ≡ some m' → Keeps m m'
  unfolding rehash
  rehash-Keeps zero i m e = ground arith
  rehash-Keeps (suc rounds) i m e = grind (arith, set_bucket-Keeps, rehash-Keeps rounds)

  -- What a map that shared its arrays with `m` has after entry `i` of it is set: arrays of its own, of
  -- which the entries are the old ones but for that one, and the buckets the same.
  pub record Updated (m m' : Map K V) (i : ℕ) (e : K × V) : Type 0 where
    pub entries : m'.entries ≡ set (take (m.count + 1) m.entries) i (some e)
    pub buckets : m'.buckets ≡ m.buckets
    pub count : m'.count ≡ m.count
    pub other_entries : m'.entries_id ≢ m.entries_id
    pub other_buckets : m'.buckets_id ≢ m.buckets_id
    pub cow : m'.copy_on_write ≡ false

  move_last-ids :
      (m : Map K V) (i : ℕ) {m' : Map K V}
      → move_last ops m i ≡ some m'
      → (m'.entries_id ≡ m.entries_id)
        × (m'.buckets_id ≡ m.buckets_id)
        × (m'.count ≡ m.count)
        × (set m'.entries (m.count - 1) none ≡ m'.entries)
  unfolding move_last
  move_last-ids m i h =
      let (last, r1, p1) = bind_some (entry_at m (m.count - 1)) _ h in
      let (j, r2, p2) = bind_some (bucket_of m.capacity m m.count (home ops m last.0)) _ p1 in
      let (b, r3, p3) = bind_some (get_elem? m.buckets j) _ p2 in
      ground (arith, set-set (set m.entries (i - 1) (some last)) (m.count - 1) none none)

  fill_hole-ids :
      (m : Map K V) (i : ℕ) {m' : Map K V}
      → fill_hole ops m i ≡ some m'
      → (m'.entries_id ≡ m.entries_id)
        × (m'.buckets_id ≡ m.buckets_id)
        × (m'.count ≡ m.count)
        × (set m'.entries (m.count - 1) none ≡ m'.entries)
  unfolding fill_hole
  fill_hole-ids m i h =
      let (bucket, r, p) = bind_some (get_elem? m.buckets i) _ h in
      elim (Bool-cases (bucket.index1 == m.count)) [
        | inl e ↦ ground (arith, set-set m.entries (m.count - 1) none none)
        | inr e ↦ move_last-ids m bucket.index1 (rw e at p)
      ]

  -- The arrays are the same ones.
  abbrev Shares : Map K V → Map K V → Type 0
  Shares m m' = (m'.entries_id ≡ m.entries_id) × (m'.buckets_id ≡ m.buckets_id)

  -- The arrays of a map after a removal, and the cell of the entry that was the last.
  abbrev InPlace : Map K V → Map K V → Type 0
  InPlace m m' =
      (m'.entries_id ≡ m.entries_id)
      × (m'.buckets_id ≡ m.buckets_id)
      × ((m'.count ≡ m.count)
          ⊎ ((m'.count ≡ m.count - 1) × (set m'.entries (m.count - 1) none ≡ m'.entries)))

  remove_from-InPlace :
      (m : Map K V) (found : Option (ℕ × Option ℕ)) {m' : Map K V}
      → remove_from ops m found ≡ some m'
      → InPlace m m'
  unfolding remove_from remove_found
  remove_from-InPlace m none h = ground arith
  remove_from-InPlace m (some (i, prev)) h =
      let (m1, r1, p1) = bind_some (fill_hole ops m i) _ h in
      let (bs, r2, p2) = bind_some (unlink m1.buckets i prev) _ p1 in
      let k = fill_hole-ids m i r1 in ground arith

  -- Where neither original array is given, nothing is copied.
  unshare_nothing :
      (m : Map K V) {m' : Map K V}
      → 0 < m.entries_id
      → 0 < m.buckets_id
      → unshare m 0 0 ≡ some m'
      → (m'.entries_id ≡ m.entries_id) × (m'.buckets_id ≡ m.buckets_id) × (m'.count ≡ m.count)
  unfolding unshare copy_on_write copy_entries copy_buckets
  unshare_nothing m pe pb h = (ground arith, ground arith, ground arith)

  remove_key-InPlace :
      (m : Map K V) (random : ℕ) (key : Option K) {m' : Map K V}
      → 0 < m.entries_id
      → 0 < m.buckets_id
      → remove_key ops m random key ≡ some m'
      → InPlace m m'
  unfolding remove_key
  remove_key-InPlace m random key pe pb h =
      let (m1, r1, p1) = bind_some (unshare m 0 0) _ h in
      let (k, r2, p2) = bind_some (chosen m1 random key) _ p1 in
      let (found, r3, p3) =
        bind_some (find_bucket ops m1.capacity m1 k (home ops m1 k) none) _ p2 in
      let same = unshare_nothing m pe pb r1 in
      let k = remove_from-InPlace m1 found p3 in ground arith

  -- If `sss_hashmap_remove` returns on a map whose arrays exist, the map goes on with the same
  -- arrays, whatever its copy-on-write flag, and either its count is the same, or it is one less and
  -- the cell of the last entry is clear in the array of entries.
  pub remove-InPlace :
      (m : Map K V) (random : ℕ) (key : Option K) (m' : Map K V)
      → 0 < m.entries_id
      → 0 < m.buckets_id
      → remove ops m random key ≡ some m'
      → (m'.entries_id ≡ m.entries_id)
        × (m'.buckets_id ≡ m.buckets_id)
        × ((m'.count ≡ m.count)
            ⊎ ((m'.count ≡ m.count - 1) × (set m'.entries (m.count - 1) none ≡ m'.entries)))
  unfolding remove
  remove-InPlace m random key m' pe pb h = elim (Bool-cases (m.capacity == 0)) [
    | inl e ↦ ground arith
    | inr e ↦ remove_key-InPlace m random key pe pb (rw e at h)
  ]
