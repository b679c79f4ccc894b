-- ===== src/Tests/HashmapTests.antt =====
-- A hash map at work, and the theorems about it on that map.
use blangc.Hashmap.CopyOnWrite.{remove-InPlace}
use blangc.Hashmap.Lookup.{get_raw_sound, Matches}
use blangc.Hashmap.Ops.{
  len, mark_cow, copy_cells, copy_entries, copy_buckets, copy_on_write, unshare, get_entry,
  get_default, value_at, get, rehash, resize, new_size, write_cell, make_room, inherited, new_value,
  value_or, write_home, update, insert, prepare, put, set_entry, find_bucket, bucket_of, move_last,
  fill_hole, unlink, remove_found, chosen, remove_from, remove_key, remove, nth,
}
use blangc.Hashmap.Overflow.{set_entry_overflow}
use blangc.Hashmap.{
  KeyOps, Map, empty_map, entry_at, find_free, predecessor, home, walk, get_raw, chain_end,
  displace, append, collide, set_bucket, ◌>>=◌,
}
use blangc.Prelude.{
  ℕ, ◌+◌, ◌-◌, ◌<◌, ◌≡◌, refl, ◌⊎◌, Option, none, some, List, [], ◌∷◌, ◌==◌, set, arith, length,
}

hashmap_code : Unit {0}
unfolding len mark_cow copy_cells copy_entries copy_buckets copy_on_write unshare get_entry
    get_default value_at get rehash resize new_size write_cell make_room inherited new_value
    value_or write_home update insert prepare put set_entry find_bucket bucket_of move_last
    fill_hole unlink remove_found chosen remove_from remove_key remove nth empty_map entry_at
    find_free predecessor home walk get_raw chain_end displace append collide set_bucket
hashmap_code = tt

-- Keys that hash to themselves.
abbrev ops : KeyOps ℕ
ops = record { key_hash = λ k. k; key_equal = λ a b. a == b }

-- Entries one after the other.
abbrev set_all : Map ℕ ℕ → List (ℕ × ℕ) → Option (Map ℕ ℕ)
set_all m [] = some m
set_all m ((k, v) ∷ rest) = set_entry ops 0 m [] k (some v) >>= λ r. set_all r.0 rest

-- 0, 4 and 8 collide; 1 comes to stand in the chain of 0 and 4, and moves out of the way of 3.
abbrev keys : List (ℕ × ℕ)
keys = (0, 100) ∷ (4, 104) ∷ (8, 108) ∷ (3, 103) ∷ (1, 101) ∷ []

session : set_all (empty_map 1) keys >>= (λ m. get ops (m ∷ []) 8) ≡ some (some 108)
unfolding hashmap_code
session = refl

session_removed :
    set_all (empty_map 1) keys >>= (λ m. remove ops m 0 (some 4) >>= λ m'. get ops (m' ∷ []) 8)
    ≡ some (some 108)
unfolding hashmap_code
session_removed = refl

session_absent :
    set_all (empty_map 1) keys >>= (λ m. remove ops m 0 (some 4) >>= λ m'. get ops (m' ∷ []) 4)
    ≡ some none
unfolding hashmap_code
session_absent = refl

abbrev or_empty_map : Option (Map ℕ ℕ) → Map ℕ ℕ
or_empty_map none = empty_map 1
or_empty_map (some m) = m

-- Two entries, in arrays that a copy shares.
abbrev shared : Map ℕ ℕ
shared = mark_cow (or_empty_map (set_all (empty_map 1) ((0, 100) ∷ (4, 104) ∷ [])))

abbrev after : Option (Map ℕ ℕ × ℕ) → Map ℕ ℕ
after none = empty_map 1
after (some r) = r.0

abbrev grown : Map ℕ ℕ
grown = after (set_entry ops 0 shared [] 2 (some 102))

abbrev shrunk : Map ℕ ℕ
shrunk = or_empty_map (remove ops shared 0 (some 0))

remove-InPlace_example :
    (shrunk.entries_id ≡ shared.entries_id)
    × (shrunk.buckets_id ≡ shared.buckets_id)
    × ((shrunk.count ≡ shared.count)
        ⊎ ((shrunk.count ≡ shared.count - 1)
            × (set shrunk.entries (shared.count - 1) none ≡ shrunk.entries)))
unfolding hashmap_code
remove-InPlace_example =
    remove-InPlace ops shared 0 (some 0) shrunk (omega arith) (omega arith) refl

set_entry_overflow_example :
    (length grown.entries ≡ shared.count + 1)
    × (grown.count < grown.capacity)
    × (set_entry ops 0 grown [] 3 (some 103) ≡ none)
unfolding hashmap_code
set_entry_overflow_example =
    set_entry_overflow ops 0 shared [] 2 3 102 103 grown 2 (omega arith) refl (omega arith) refl
      refl refl

get_raw_sound_example : Matches ops shared 4 1
unfolding hashmap_code
get_raw_sound_example = get_raw_sound ops shared 4 1 refl
