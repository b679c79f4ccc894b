-- ===== src/Strings/Laws.antt =====
-- The contents of the strings that libsss/string.c makes, and the answers of its tests, against
-- the lists of characters that the strings hold.
use blangc.Prelude.{
  ℕ, zero, suc, ◌+◌, ◌-◌, ◌≤◌, ◌<◌, ◌≡◌, refl, ◌⊎◌, inl, inr, Bool, true, false, Bool-cases, not,
  ◌==◌, ltb, if◌then◌else◌, Option, none, some, [], ◌∷◌, length, get_elem?, arith, Bytes,
}
use blangc.Slice.{items-length, item, items, items_from}
use blangc.Strings.{
  Str, CType, made, title_char, titlecase_loop, titlecased, match_loop, starts_with, find_at,
  find_loop, find,
}

pub out-cases : {A : Type 0} (r : Option A) → (r ≡ none) ⊎ ((x : A) × (r ≡ some x))
out-cases none = inl refl
out-cases (some x) = inr (x, refl)

module _ (ctype : CType) where
  -- The letter `b` behind the character `a`.
  abbrev title : (a b : ℕ) → ℕ
  title a b = title_char ctype (not (ctype.is_alpha a)) b

  titlecase_loop-first :
      (s : Str) (first : Bool) (rounds i : ℕ) (x : ℕ) (xs out : Bytes)
      → items_from s rounds i ≡ some (x ∷ xs)
      → titlecase_loop ctype s first rounds i ≡ some out
      → get_elem? out 0 ≡ some (title_char ctype first x)
  unfolding items_from titlecase_loop
  titlecase_loop-first s first zero i x xs out h e = ground arith
  titlecase_loop-first s first (suc rounds) i x xs out h e = ground arith

  titlecase_loop-at :
      (s : Str) (first : Bool) (rounds i : ℕ) (xs out : Bytes) (k a b : ℕ)
      → items_from s rounds i ≡ some xs
      → titlecase_loop ctype s first rounds i ≡ some out
      → get_elem? xs k ≡ some a
      → get_elem? xs (suc k) ≡ some b
      → get_elem? out (suc k) ≡ some (title a b)
  unfolding items_from titlecase_loop
  titlecase_loop-at s first zero i xs out k a b h e p q = ground arith
  titlecase_loop-at s first (suc rounds) i [] out k a b h e p q = ground arith
  titlecase_loop-at s first (suc rounds) i (x ∷ []) out k a b h e p q = ground arith
  titlecase_loop-at s first (suc rounds) i (x ∷ y ∷ xs) out zero a b h e p q =
      grind (arith, titlecase_loop-first s (not (ctype.is_alpha x)) rounds (suc i) y xs)
  titlecase_loop-at s first (suc rounds) i (x ∷ y ∷ xs) out (suc k) a b h e p q =
      grind (arith, titlecase_loop-at s (not (ctype.is_alpha x)) rounds (suc i) (y ∷ xs))

-- In the string that `sss_string_titlecased` makes, if it makes one, of one that holds `xs`, behind
-- the first character: a letter behind a letter stands in lower case, a letter behind any other
-- character in upper case, and every other character as it is.
titlecased-at :
    (ctype : CType) (s r : Str) (xs : Bytes) (k a b : ℕ)
    → items s ≡ some xs
    → titlecased ctype s ≡ some r
    → get_elem? xs k ≡ some a
    → get_elem? xs (suc k) ≡ some b
    → get_elem? r.memory (suc k)
      ≡ some (
          if ctype.is_alpha b
          then (if ctype.is_alpha a then ctype.to_lower b else ctype.to_upper b)
          else b)
unfolding items titlecased made title_char
titlecased-at ctype s r xs k a b h e p q =
    elim (out-cases (titlecase_loop ctype s true s.length 0)) [
      | inl f ↦ absurd (ground arith)
      | inr (out, f) ↦ grind (arith, titlecase_loop-at ctype s true s.length 0 xs out k a b h f p q)
    ]

-- Whether the first list is a prefix of the second.
abbrev pub is_prefix : Bytes → Bytes → Bool
is_prefix [] xs = true
is_prefix (y ∷ ys) [] = false
is_prefix (y ∷ ys) (x ∷ xs) = elim (x == y) [ true ↦ is_prefix ys xs | false ↦ false ]

pub is_prefix_long : (ys xs : Bytes) → length xs < length ys → is_prefix ys xs ≡ false
is_prefix_long [] xs h = elim h [ ]
is_prefix_long (y ∷ ys) [] h = refl
is_prefix_long (y ∷ ys) (x ∷ xs) h = grind (arith, is_prefix_long ys xs)

pub match_loop-is_prefix :
    (s : Str) (offset : ℕ) (p : Str) (rounds n i : ℕ) (xs ys : Bytes)
    → rounds ≤ n
    → items_from s n (offset + i) ≡ some xs
    → items_from p rounds i ≡ some ys
    → match_loop s offset p rounds i ≡ some (is_prefix ys xs)
unfolding items_from match_loop
match_loop-is_prefix s offset p zero n i xs ys l h k = ground arith
match_loop-is_prefix s offset p (suc rounds) zero i xs ys l h k = elim l [ ]
match_loop-is_prefix s offset p (suc rounds) (suc n) i [] ys l h k = ground arith
match_loop-is_prefix s offset p (suc rounds) (suc n) i (x ∷ xs) [] l h k = ground arith
match_loop-is_prefix s offset p (suc rounds) (suc n) i (x ∷ xs) (y ∷ ys) l h k =
    grind (arith, match_loop-is_prefix s offset p rounds n (suc i) xs ys)

-- For two strings that hold lists of characters, whatever their strides, `sss_string_starts_with`
-- answers whether the list of the second is a prefix of the list of the first.
starts_with_lem :
    (s p : Str) (xs ys : Bytes)
    → items s ≡ some xs
    → items p ≡ some ys
    → starts_with s p ≡ some (is_prefix ys xs)
unfolding starts_with items
starts_with_lem s p xs ys h k = elim (Bool-cases (ltb s.length p.length)) [
  | inl e ↦
      grind
        (arith, items-length s s.length 0 xs, items-length p p.length 0 ys, is_prefix_long ys xs)
  | inr e ↦ grind (arith, match_loop-is_prefix s 0 p p.length s.length 0 xs ys)
]

find_at_same :
    (s : Str) (at : ℕ) (pat : Str) (rounds p : ℕ) (ys : Bytes) (x : ℕ)
    → item s at ≡ some x
    → items_from pat rounds p ≡ some ys
    → find_at s at pat rounds p ≡ some true
    → (k : ℕ) → k < length ys
    → get_elem? ys k ≡ some x
unfolding items_from find_at
find_at_same s at pat zero p ys x h q e k l = ground arith
find_at_same s at pat (suc rounds) p [] x h q e k l = ground arith
find_at_same s at pat (suc rounds) p (y ∷ ys) x h q e zero l = ground arith
find_at_same s at pat (suc rounds) p (y ∷ ys) x h q e (suc k) l =
    grind (arith, find_at_same s at pat rounds (suc p) ys x)

answer_cases : (r : Option Bool) → (r ≡ some true) ⊎ ((r ≡ some false) ⊎ (r ≡ none))
answer_cases none = inr (inr refl)
answer_cases (some true) = inl refl
answer_cases (some false) = inr (inl refl)

find_loop-at :
    (s pat : Str) (rounds at n : ℕ)
    → find_loop s pat rounds at ≡ some (some n)
    → (i : ℕ) × (n ≡ suc i) × (find_at s i pat pat.length 0 ≡ some true)
unfolding find_loop
find_loop-at s pat zero at n h = absurd (ground arith)
find_loop-at s pat (suc rounds) at n h = elim (answer_cases (find_at s at pat pat.length 0)) [
  | inl e ↦ (at, ground arith, e)
  | inr (inl e) ↦ find_loop-at s pat rounds (suc at) n (ground arith)
  | inr (inr e) ↦ absurd (ground arith)
]

find_at-reads :
    (s : Str) (at : ℕ) (pat : Str) (rounds p : ℕ)
    → find_at s at pat (suc rounds) p ≡ some true
    → (x : ℕ) × (item s at ≡ some x)
unfolding find_at
find_at-reads s at pat rounds p h = elim (out-cases (item s at)) [
  | inl e ↦ absurd (ground arith)
  | inr e ↦ e
]

-- If `sss_string_find` finds a pattern of one character or more, all characters of the pattern are
-- the character of the string at the index that it returns.
pub find_one_character :
    (s pat : Str) (ys : Bytes) (n : ℕ)
    → items pat ≡ some ys
    → 0 < length ys
    → find s pat ≡ some (some n)
    → (i x : ℕ) × (n ≡ suc i)
      × (item s i ≡ some x)
      × ((k : ℕ) → k < length ys → get_elem? ys k ≡ some x)
unfolding find items
find_one_character s pat ys n h pos e =
    let len = items-length pat pat.length 0 ys h in
    let (i, p, q) = find_loop-at s pat s.length 0 n (ground arith) in
    let (x, r) = find_at-reads s i pat (pat.length - 1) 0 (ground arith) in
    (i, x, p, r, find_at_same s i pat pat.length 0 ys x r h q)
