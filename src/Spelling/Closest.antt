-- ===== src/Spelling/Closest.antt =====
-- The names that `spellcheck` of environment.c suggests.
use blangc.Prelude.{
  ℕ, zero, suc, ◌+◌, ◌/◌, ◌≤◌, ◌≡◌, refl, Bool-cases, ltb, ◌<◌, ◌⊎◌, ap, sym, ◌∙◌, inl, inr, Option,
  none, some, List, [], ◌∷◌, Bytes, length, get_elem?, arith,
}
use blangc.Spelling.{
  Closest, closer, search_names, search_namespaces, suggest, spellcheck, word_distance,
}

-- The name stands in one of the namespaces.
abbrev pub IsName : List (List Bytes) → Bytes → Type 0
IsName nss k =
    (j : ℕ) × (i : ℕ) × (keys : List Bytes) × (get_elem? nss j ≡ some keys)
    × (get_elem? keys i ≡ some k)

module _ (distance : Bytes → ℕ) where
  -- The name found is no farther than the one before it, and its distance is right if that one's was.
  record Closer (before found : Closest) : Type 0 where
    nearer :
        (k : Bytes) (d : ℕ)
        → before ≡ some (k, d)
        → (l : Bytes) (e : ℕ) → found ≡ some (l, e)
        → e ≤ d
    right :
        ((k : Bytes) (d : ℕ) → before ≡ some (k, d) → d ≡ distance k)
        → (k : Bytes) (d : ℕ) → found ≡ some (k, d)
        → d ≡ distance k
    kept :
        (k : Bytes) (d : ℕ) → before ≡ some (k, d) → (l : Bytes) × (e : ℕ) × (found ≡ some (l, e))

  same_Closer : (found : Closest) → Closer found found
  same_Closer found = record {
    nearer = λ k d p l e q. ground (arith, p, q);
    right = λ h. h;
    kept = λ k d p. (k, d, p);
  }

  trans_Closer : {a b c : Closest} → Closer a b → Closer b c → Closer a c
  trans_Closer p q = record {
    nearer = λ k d h l e f.
        let (l', e', g) = p.kept k d h in
        omega (arith, p.nearer k d h l' e' g, q.nearer l' e' g l e f);
    right = λ h. q.right (p.right h);
    kept = λ k d h. let (l, e, g) = p.kept k d h in q.kept l e g;
  }

  closer-Closer : (found : Closest) (key : Bytes) → Closer found (closer found key (distance key))
  unfolding closer
  closer-Closer none key = record {
    nearer = λ k d p l e q. absurd (ground (arith, p));
    right = λ h k d p. ground (arith, p);
    kept = λ k d p. absurd (ground (arith, p));
  }
  closer-Closer (some (k, d)) key = elim (Bool-cases (ltb (distance key) d)) [
    | inl f ↦ record {
      nearer = λ k' d' p l e q. ground (arith, p, q);
      right = λ h k' d' p. ground (arith, p);
      kept = λ k' d' p. (key, distance key, ground (arith, p));
    }
    | inr f ↦ record {
      nearer = λ k' d' p l e q. ground (arith, p, q);
      right = λ h k' d' p. ground (arith, p, h k d refl);
      kept = λ k' d' p. (k, d, ground (arith, p));
    }
  ]

  search_names-Closer :
      (keys : List Bytes) (found : Closest) → Closer found (search_names distance keys found)
  unfolding search_names
  search_names-Closer [] found = same_Closer found
  search_names-Closer (key ∷ keys) found =
      trans_Closer (closer-Closer found key)
        (search_names-Closer keys (closer found key (distance key)))

  closer-at :
      (found : Closest) (key : Bytes)
      → (l : Bytes) × (e : ℕ) × (closer found key (distance key) ≡ some (l, e)) × (e ≤ distance key)
  unfolding closer
  closer-at none key = (key, distance key, refl, omega arith)
  closer-at (some (k, d)) key = elim (Bool-cases (ltb (distance key) d)) [
    | inl f ↦ (key, distance key, ground arith, omega arith)
    | inr f ↦ (k, d, ground arith, ground arith)
  ]

  search_names-at :
      (keys : List Bytes) (found : Closest) (i : ℕ) (key l : Bytes) (e : ℕ)
      → get_elem? keys i ≡ some key
      → search_names distance keys found ≡ some (l, e)
      → e ≤ distance key
  unfolding search_names
  search_names-at [] found i key l e p q = absurd (ground (arith, p))
  search_names-at (k ∷ keys) found zero key l e p q =
      let (l', e', f, b) = closer-at found k in
      let n = (search_names-Closer keys (closer found k (distance k))).nearer l' e' f l e q in
      ground arith
  search_names-at (k ∷ keys) found (suc i) key l e p q =
      search_names-at keys (closer found k (distance k)) i key l e p q

  search_namespaces-Closer :
      (nss : List (List Bytes)) (found : Closest)
      → Closer found (search_namespaces distance nss found)
  unfolding search_namespaces
  search_namespaces-Closer [] found = same_Closer found
  search_namespaces-Closer (keys ∷ nss) found =
      trans_Closer (search_names-Closer keys found)
        (search_namespaces-Closer nss (search_names distance keys found))

  search_names-some :
      (keys : List Bytes) (found : Closest) (i : ℕ) (key : Bytes)
      → get_elem? keys i ≡ some key
      → (l : Bytes) × (e : ℕ) × (search_names distance keys found ≡ some (l, e))
  unfolding search_names
  search_names-some [] found i key p = absurd (ground (arith, p))
  search_names-some (k ∷ keys) found zero key p =
      let (l', e', f, b) = closer-at found k in
      (search_names-Closer keys (closer found k (distance k))).kept l' e' f
  search_names-some (k ∷ keys) found (suc i) key p =
      search_names-some keys (closer found k (distance k)) i key p

  search_namespaces-at :
      (nss : List (List Bytes)) (found : Closest) (j : ℕ) (keys : List Bytes) (i : ℕ)
      (key l : Bytes) (e : ℕ)
      → get_elem? nss j ≡ some keys
      → get_elem? keys i ≡ some key
      → search_namespaces distance nss found ≡ some (l, e)
      → e ≤ distance key
  unfolding search_namespaces
  search_namespaces-at [] found j keys i key l e p q h = absurd (ground (arith, p))
  search_namespaces-at (ns ∷ nss) found zero keys i key l e p q h =
      let q' : get_elem? ns i ≡ some key = ground (arith, p, q) in
      let (l', e', f) = search_names-some ns found i key q' in
      let a = search_names-at ns found i key l' e' q' f in
      let n =
        (search_namespaces-Closer nss (search_names distance ns found)).nearer l' e' f l e h in
      omega arith
  search_namespaces-at (ns ∷ nss) found (suc j) keys i key l e p q h =
      search_namespaces-at nss (search_names distance ns found) j keys i key l e p q h

  closer-from :
      (found : Closest) (key k : Bytes) (d : ℕ)
      → closer found key (distance key) ≡ some (k, d)
      → (found ≡ some (k, d)) ⊎ (key ≡ k)
  unfolding closer
  closer-from none key k d h = inr (ground (arith, h))
  closer-from (some (l, e)) key k d h = elim (Bool-cases (ltb (distance key) e)) [
    | inl f ↦ inr (ground (arith, h))
    | inr f ↦ inl (ground (arith, h))
  ]

  search_names-from :
      (keys : List Bytes) (found : Closest) (k : Bytes) (d : ℕ)
      → search_names distance keys found ≡ some (k, d)
      → (found ≡ some (k, d)) ⊎ ((i : ℕ) × (get_elem? keys i ≡ some k))
  unfolding search_names
  search_names-from [] found k d h = inl h
  search_names-from (key ∷ keys) found k d h =
      elim (search_names-from keys (closer found key (distance key)) k d h) [
        | inl e ↦ elim (closer-from found key k d e) [ inl f ↦ inl f | inr f ↦ inr (0, ap some f) ]
        | inr (i, e) ↦ inr (suc i, e)
      ]

  -- The name found stands in one of the namespaces, or was found before.
  search_namespaces-from :
      (nss : List (List Bytes)) (found : Closest) (k : Bytes) (d : ℕ)
      → search_namespaces distance nss found ≡ some (k, d)
      → (found ≡ some (k, d)) ⊎ IsName nss k
  unfolding search_namespaces
  search_namespaces-from [] found k d h = inl h
  search_namespaces-from (ns ∷ nss) found k d h =
      elim (search_namespaces-from nss (search_names distance ns found) k d h) [
        | inl e ↦ elim (search_names-from ns found k d e) [
          | inl f ↦ inl f
          | inr (i, f) ↦ inr (0, i, ns, refl, f)
        ]
        | inr (j, i, keys, e, f) ↦ inr (suc j, i, keys, e, f)
      ]

  -- Where there is a name, one is found.
  search_namespaces-some :
      (nss : List (List Bytes)) (found : Closest) (j : ℕ) (keys : List Bytes) (i : ℕ) (key : Bytes)
      → get_elem? nss j ≡ some keys
      → get_elem? keys i ≡ some key
      → (l : Bytes) × (e : ℕ) × (search_namespaces distance nss found ≡ some (l, e))
  unfolding search_namespaces
  search_namespaces-some [] found j keys i key p q = absurd (ground (arith, p))
  search_namespaces-some (ns ∷ nss) found zero keys i key p q =
      let q' : get_elem? ns i ≡ some key = ground (arith, p, q) in
      let (l, e, f) = search_names-some ns found i key q' in
      (search_namespaces-Closer nss (search_names distance ns found)).kept l e f
  search_namespaces-some (ns ∷ nss) found (suc j) keys i key p q =
      search_namespaces-some nss (search_names distance ns found) j keys i key p q

suggest-some :
    (found : Closest) (word k : Bytes)
    → suggest found word ≡ some k
    → (d : ℕ) × (found ≡ some (k, d)) × (d ≤ (length word + 3) / 4)
unfolding suggest
suggest-some none word k h = absurd (ground (arith, h))
suggest-some (some (l, d)) word k h = (d, ground arith, ground arith)

suggest-far :
    (word k : Bytes) (d : ℕ) → suggest (some (k, d)) word ≡ none → (length word + 3) / 4 < d
unfolding suggest
suggest-far word k d h = ground (arith, h)

-- What `spellcheck` has to answer: a name of one of the namespaces that is near enough, and as near as
-- any name; or nothing, where no name is near enough.
abbrev pub IsBest : (unset : ℕ) (nss : List (List Bytes)) (word : Bytes) → Option Bytes → Type 0
IsBest unset nss word (some k) =
    IsName nss k
    × (word_distance unset word k ≤ (length word + 3) / 4)
    × ((key : Bytes) → IsName nss key → word_distance unset word k ≤ word_distance unset word key)
IsBest unset nss word none =
    (key : Bytes) → IsName nss key → (length word + 3) / 4 < word_distance unset word key

-- `spellcheck` suggests a name of the namespace or of its fallbacks, such that none of these is nearer
-- to the word by `word_distance` and its distance is at most a quarter of the word's length, rounded
-- up; it suggests nothing only where no name is as near as that.
pub spellcheck-closest :
    (unset : ℕ) (nss : List (List Bytes)) (word : Bytes)
    → IsBest unset nss word (spellcheck unset nss word)
unfolding spellcheck
spellcheck-closest unset nss word = best (spellcheck unset nss word) refl
  where
    best :
        (o : Option Bytes)
        → suggest (search_namespaces (word_distance unset word) nss none) word ≡ o
        → IsBest unset nss word o
    best none h = λ key (j, i, keys, p, q).
        let (l, e, f) =
          search_namespaces-some (word_distance unset word) nss none j keys i key p q in
        let a = search_namespaces-at (word_distance unset word) nss none j keys i key l e p q f in
        let far = suggest-far word l e (ap (λ c. suggest c word) (sym f) ∙ h) in
        omega (arith, a, far)
    best (some k) h =
        let (d, f, b) =
          suggest-some (search_namespaces (word_distance unset word) nss none) word k h in
        let r : d ≡ word_distance unset word k =
          (search_namespaces-Closer (word_distance unset word) nss none).right
            (λ k' d' p. absurd (ground (arith, p))) k d f in
        (
          elim (search_namespaces-from (word_distance unset word) nss none k d f) [
            | inl e ↦ absurd (ground (arith, e))
            | inr e ↦ e
          ],
          omega (arith, r),
          λ key (j, i, keys, p, q).
              let a =
                search_namespaces-at (word_distance unset word) nss none j keys i key k d p q f in
              omega (arith, r),
        )
