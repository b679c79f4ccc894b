-- ===== src/Hashmap.antt =====
-- libsss/hashmap.c: the hash map of the compiler and of its run-time tables, a chained scatter
-- table in one array of buckets (Brent's variation). This file has the state, the lookup and the
-- placing of an entry; Hashmap/Ops.antt has the operations that callers use.
pub mod Ops
pub mod CopyOnWrite
pub mod Overflow
pub mod Lookup
use Prim.Native.Nat.{ℕ, zero, suc, ◌+◌, ◌-◌, ◌*◌, ◌%◌, ◌^◌}
use blangc.Prelude.{
  Bool, true, false, not, Option, none, some, List, get_elem?, set, replicate, take, ltb, ◌==◌,
  if◌then◌else◌, [], ◌≡◌, refl,
}

-- `key_hash`, a 32-bit hash, and `key_cmp(a, b) == 0`.
pub record KeyOps (K : Type 0) : Type 0 where
  pub key_hash : K → ℕ
  pub key_equal : K → K → Bool

-- `sss_hash_bucket_t`
pub record Bucket : Type 0 where
  pub index1 : ℕ
  pub next1 : ℕ

-- `sss_hashmap_t` without its fallback. The entries are all the cells of the allocated array; a
-- cell that holds no entry is `none`. Arrays have an identity, 0 for NULL, so that sharing shows;
-- `allocs` is the next identity that the allocator gives.
pub record Map (K V : Type 0) : Type 0 where
  pub entries : List (Option (K × V))
  pub buckets : List Bucket
  pub default_value : Option V
  pub capacity : ℕ
  pub count : ℕ
  pub lastfree_index1 : ℕ
  pub copy_on_write : Bool
  pub entries_id : ℕ
  pub buckets_id : ℕ
  pub allocs : ℕ

-- `none` is a fault: an access outside an array, a read of a cell with no entry, a failed
-- assertion, or a loop that does not end.
infixl 5 ◌>>=◌
abbrev pub ◌>>=◌ : {A B : Type 0} → Option A → (A → Option B) → Option B
none >>= f = none
some a >>= f = f a

pub bind_some :
    {A B : Type 0} (o : Option A) (f : A → Option B) {b : B}
    → (o >>= f) ≡ some b
    → (a : A) × (o ≡ some a) × (f a ≡ some b)
bind_some none f h = cc
bind_some (some a) f h = (a, refl, h)

abbrev pub no_bucket : Bucket
no_bucket = record { index1 = 0; next1 = 0 }

-- `sss_hashmap_t h = {0}`
unfoldable pub empty_map : {K V : Type 0} → ℕ → Map K V
empty_map allocs = record {
  entries = [];
  buckets = [];
  default_value = none;
  capacity = 0;
  count = 0;
  lastfree_index1 = 0;
  copy_on_write = false;
  entries_id = 0;
  buckets_id = 0;
  allocs = allocs;
}

-- `h->entries + entry_size_padded*i`, read as an entry.
abbrev pub cell : {A : Type 0} → Option (Option A) → Option A
cell none = none
cell (some c) = c

unfoldable pub entry_at : {K V : Type 0} → Map K V → ℕ → Option (K × V)
entry_at m i = cell (get_elem? m.entries i)

-- `while (h->buckets[h->lastfree_index1-1].index1) --h->lastfree_index1;`
unfoldable pub find_free : List Bucket → ℕ → Option ℕ
find_free bs zero = none
find_free bs (suc n) = elim (get_elem? bs n) [
  | none ↦ none
  | some b ↦ if b.index1 == 0 then some (suc n) else find_free bs n
]

-- The loop that finds the predecessor of the bucket `hash` in its chain.
unfoldable pub predecessor : ℕ → List Bucket → ℕ → ℕ → Option ℕ
predecessor zero bs hash i = none
predecessor (suc fuel) bs hash i = elim (get_elem? bs i) [
  | none ↦ none
  | some b ↦
      if b.next1 == hash + 1
      then some i
      else if b.next1 == 0
      then none
      else predecessor fuel bs hash (b.next1 - 1)
]

module _ {K V : Type 0} (ops : KeyOps K) where
  -- `key_hash(key) % capacity`
  unfoldable pub home : Map K V → K → ℕ
  home m k = ops.key_hash k % m.capacity

  -- The loop of `sss_hashmap_get_raw` from bucket `i`. A chain has no more buckets than the table.
  unfoldable pub walk : ℕ → Map K V → K → ℕ → Option (Option ℕ)
  walk zero m k i = none
  walk (suc fuel) m k i = elim (get_elem? m.buckets i) [
    | none ↦ none
    | some b ↦ if b.index1 == 0 then some none else elim (entry_at m (b.index1 - 1)) [
      | none ↦ none
      | some e ↦
          if ops.key_equal e.0 k
          then some (some (b.index1 - 1))
          else if b.next1 == 0
          then some none
          else walk fuel m k (b.next1 - 1)
    ]
  ]

  -- The address of the value is given by the number of its entry.
  unfoldable pub get_raw : Map K V → K → Option (Option ℕ)
  get_raw m k = if m.capacity == 0 then some none else walk m.capacity m k (home m k)

  -- The loop to the end of a chain; the assertion in it says that the key is new.
  unfoldable pub chain_end : ℕ → Map K V → K → ℕ → Option ℕ
  chain_end zero m k i = none
  chain_end (suc fuel) m k i = elim (get_elem? m.buckets i) [
    | none ↦ none
    | some b ↦ elim (entry_at m (b.index1 - 1)) [
      | none ↦ none
      | some e ↦
          if ops.key_equal e.0 k
          then none
          else if b.next1 == 0
          then some i
          else chain_end fuel m k (b.next1 - 1)
    ]
  ]

  -- Collided with a mid-chain entry: that moves to the free bucket, and the new one takes its place.
  unfoldable pub displace :
      Map K V → (hash collided_hash free : ℕ) → (index1 : ℕ) → Option (Map K V)
  displace m hash collided_hash free index1 = do
    p ← predecessor m.capacity m.buckets hash collided_hash
    prev ← get_elem? m.buckets p
    let linked = set m.buckets p (record prev { next1 = free })
    bucket ← get_elem? linked hash
    let moved = set linked (free - 1) bucket
    some (record m {
      buckets = set moved hash (record { index1 = index1; next1 = 0 });
      lastfree_index1 = free - 1;
    })

  -- Collided with the start of a chain: the new entry goes to the free bucket, at the chain's end.
  unfoldable pub append : Map K V → K → (hash free : ℕ) → (index1 : ℕ) → Option (Map K V)
  append m k hash free index1 = do
    q ← chain_end m.capacity m k hash
    last ← get_elem? m.buckets q
    let linked = set m.buckets q (record last { next1 = free })
    some (record m {
      buckets = set linked (free - 1) (record { index1 = index1; next1 = 0 });
      lastfree_index1 = free - 1;
    })

  -- The bucket of the key's hash is taken.
  unfoldable pub collide : Map K V → K → (hash : ℕ) → Bucket → (index1 : ℕ) → Option (Map K V)
  collide m k hash bucket index1 = do
    free ← find_free m.buckets m.lastfree_index1
    e ← entry_at m (bucket.index1 - 1)
    let collided_hash = home m e.0
    if collided_hash == hash
        then append m k hash free index1
        else displace m hash collided_hash free index1

  unfoldable pub set_bucket : Map K V → K → (index1 : ℕ) → Option (Map K V)
  set_bucket m k index1 = do
    let hash = home m k
    bucket ← get_elem? m.buckets hash
    let placed = record m { buckets = set m.buckets hash (record bucket { index1 = index1 }) }
    if bucket.index1 == 0 then some placed else collide m k hash bucket index1
