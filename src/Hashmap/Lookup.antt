-- ===== src/Hashmap/Lookup.antt =====
-- What the lookups of libsss/hashmap.c return.
use blangc.Hashmap.{KeyOps, Map, home, entry_at, walk, get_raw}
use blangc.Prelude.{
  ℕ, zero, suc, ◌-◌, ◌≡◌, ◌⊎◌, inl, inr, true, Bool-cases, Option-cases, some, ◌==◌, get_elem?,
  arith,
}

module _ {K V : Type 0} (ops : KeyOps K) where
  -- An entry of the map whose key is equal to the given one.
  abbrev pub Matches : Map K V → K → ℕ → Type 0
  Matches m k i = (e : K × V) × (entry_at m i ≡ some e) × (ops.key_equal e.0 k ≡ true)

  walk_step :
      (fuel : ℕ) (m : Map K V) (k : K) (p i : ℕ)
      → walk ops (suc fuel) m k p ≡ some (some i)
      → Matches m k i ⊎ ((q : ℕ) × (walk ops fuel m k q ≡ some (some i)))
  unfolding walk
  walk_step fuel m k p i h = elim (Option-cases (get_elem? m.buckets p)) [
    | inl e ↦ ground arith
    | inr (b, e) ↦ elim (Option-cases (entry_at m (b.index1 - 1))) [
      | inl f ↦ ground arith
      | inr (c, f) ↦ elim (Bool-cases (ops.key_equal c.0 k)) [
        | inl g ↦ let same : b.index1 - 1 ≡ i = ground arith in inl (c, rw (← same) f, g)
        | inr g ↦ inr (b.next1 - 1, ground arith)
      ]
    ]
  ]

  walk_sound :
      (fuel : ℕ) (m : Map K V) (k : K) (p i : ℕ)
      → walk ops fuel m k p ≡ some (some i)
      → Matches m k i
  walk_sound zero m k p i h = unfold walk in cc
  walk_sound (suc fuel) m k p i h =
      let rec = λ (q : ℕ). walk_sound fuel m k q i in
      elim (walk_step fuel m k p i h) [ inl found ↦ found | inr (q, e) ↦ rec q e ]

  -- Whatever the buckets hold, if `sss_hashmap_get_raw` finds an entry, that entry is one of the
  -- map under a key that the map's comparison takes for the key looked up.
  pub get_raw_sound :
      (m : Map K V) (k : K) (i : ℕ) → get_raw ops m k ≡ some (some i) → Matches m k i
  unfolding get_raw
  get_raw_sound m k i h = elim (Bool-cases (m.capacity == 0)) [
    | inl e ↦ ground arith
    | inr e ↦ walk_sound m.capacity m k (home ops m k) i (rw e at h)
  ]
