-- ===== src/Strings/Parts.antt =====
-- The parts of a string that libsss/string.c makes without copying: prefixes and suffixes taken
-- away, and trimming. They share the memory, and their items are items of the string.
use blangc.Prelude.Int.{ℤ, pos, negsuc, ◌+ℤ◌, ◌*ℤ◌, +ℤ_assoc}
use blangc.Prelude.{
  ℕ, zero, suc, ◌+◌, ◌-◌, ◌≤◌, ◌≡◌, refl, sym, ap, ◌∙◌, ◌⊎◌, inl, inr, Bool-cases, leb, ◌&&◌, ltb,
  if◌then◌else◌, some, [], ◌∷◌, length, length-drop, drop, take, arith, Bytes,
}
use blangc.Slice.{items-length, item, items, items_from}
use blangc.Strings.Laws.{is_prefix, is_prefix_long, match_loop-is_prefix}
use blangc.Strings.{Str, advance, substring, ends_with, without_prefix}

add_mul : (a i : ℕ) (z : ℤ) → pos (a + i) *ℤ z ≡ pos a *ℤ z +ℤ pos i *ℤ z
unfolding ◌+ℤ◌ ◌*ℤ◌
add_mul a i (pos n) = ground arith
add_mul a i (negsuc n) = ground arith

place :
    (start off i n : ℕ) (z : ℤ)
    → pos start +ℤ pos off *ℤ z ≡ pos n
    → pos start +ℤ pos (off + i) *ℤ z ≡ pos n +ℤ pos i *ℤ z
place start off i n z h =
    ap (λ w. pos start +ℤ w) (add_mul off i z)
    ∙ sym (+ℤ_assoc (pos start) (pos off *ℤ z) (pos i *ℤ z))
    ∙ ap (λ w. w +ℤ pos i *ℤ z) h

ℤ-cases : (z : ℤ) → ((n : ℕ) × (z ≡ pos n)) ⊎ ((n : ℕ) × (z ≡ negsuc n))
ℤ-cases (pos n) = inl (n, refl)
ℤ-cases (negsuc n) = inr (n, refl)

-- What a substring is: its length, and its items.
pub record IsPart (s : Str) (off len : ℕ) (r : Str) : Type 0 where
  pub length_eq : r.length ≡ len
  pub item_eq : (i : ℕ) → item r i ≡ item s (off + i)

pub substring-IsPart :
    (s : Str) (off len : ℕ) (r : Str) → substring s off len ≡ some r → IsPart s off len r
unfolding substring advance item
substring-IsPart s off len r h = elim (ℤ-cases (pos s.start +ℤ pos off *ℤ s.stride)) [
  | inl (n, e) ↦ record {
    length_eq = ground arith;
    item_eq = λ i. ground (arith, place s.start off i n s.stride e);
  }
  | inr (n, e) ↦ absurd (ground arith)
]

-- The items of a part that a string holds.
items_from-part :
    (s r : Str) (off : ℕ) (same : (i : ℕ) → item r i ≡ item s (off + i)) (rounds i : ℕ)
    → items_from r rounds i ≡ items_from s rounds (off + i)
unfolding items_from
items_from-part s r off same zero i = refl
items_from-part s r off same (suc rounds) i =
    let e = same i in let f = items_from-part s r off same rounds (suc i) in ground arith

pub items_from-drop :
    (s : Str) (k n i : ℕ) (xs : Bytes)
    → k ≤ n
    → items_from s n i ≡ some xs
    → items_from s (n - k) (i + k) ≡ some (drop k xs)
unfolding items_from
items_from-drop s zero n i xs l h = ground arith
items_from-drop s (suc k) zero i xs l h = elim l [ ]
items_from-drop s (suc k) (suc n) i [] l h = absurd (ground arith)
items_from-drop s (suc k) (suc n) i (x ∷ xs) l h =
    let e : items_from s n (suc i) ≡ some xs = ground arith in
    let f = items_from-drop s k n (suc i) xs (omega arith) e in ground arith

pub items_from-take :
    (s : Str) (k n i : ℕ) (xs : Bytes)
    → k ≤ n
    → items_from s n i ≡ some xs
    → items_from s k i ≡ some (take k xs)
unfolding items_from
items_from-take s zero n i xs l h = ground arith
items_from-take s (suc k) zero i xs l h = elim l [ ]
items_from-take s (suc k) (suc n) i [] l h = absurd (ground arith)
items_from-take s (suc k) (suc n) i (x ∷ xs) l h =
    let e : items_from s n (suc i) ≡ some xs = ground arith in
    let f = items_from-take s k n (suc i) xs (omega arith) e in ground arith

-- What a part holds.
pub substring-items :
    (s : Str) (off len : ℕ) (r : Str) (xs : Bytes)
    → items s ≡ some xs
    → off + len ≤ s.length
    → substring s off len ≡ some r
    → items r ≡ some (take len (drop off xs))
unfolding items
substring-items s off len r xs h l e =
    let p = substring-IsPart s off len r e in
    let d = items_from-drop s off s.length 0 xs (omega arith) h in
    let t = items_from-take s len (s.length - off) off (drop off xs) (omega arith) (ground arith) in
    let q = items_from-part s r off p.item_eq len 0 in ground arith

-- For two strings that hold lists of characters, whatever their strides, `sss_string_ends_with`
-- answers whether the list of the second is no longer than the list of the first and stands at
-- the end of it.
pub ends_with_lem :
    (s p : Str) (xs ys : Bytes)
    → items s ≡ some xs
    → items p ≡ some ys
    → ends_with s p
      ≡ some (leb (length ys) (length xs) && is_prefix ys (drop (length xs - length ys) xs))
unfolding ends_with items
ends_with_lem s p xs ys h k =
    let m = items-length s s.length 0 xs h in
    let n = items-length p p.length 0 ys k in
    elim (Bool-cases (ltb s.length p.length)) [
      | inl e ↦ ground arith
      | inr e ↦
          let d = items_from-drop s (s.length - p.length) s.length 0 xs (ground arith) h in
          let f =
            match_loop-is_prefix s (s.length - p.length) p p.length
              (s.length - (s.length - p.length)) 0 (drop (s.length - p.length) xs) ys (ground arith)
              (ground arith) k in
          ground arith
    ]

take_all : (n : ℕ) (xs : Bytes) → length xs ≤ n → take n xs ≡ xs
take_all zero [] l = refl
take_all zero (x ∷ xs) l = elim l [ ]
take_all (suc n) [] l = refl
take_all (suc n) (x ∷ xs) l = ap (λ r. x ∷ r) (take_all n xs (ground arith))

-- For two strings that hold lists of characters, whatever their strides, the string that
-- `sss_string_without_prefix` returns, if it returns one, holds the first list less the second where
-- that is a prefix of it, and else the first list.
pub without_prefix-items :
    (s p r : Str) (xs ys : Bytes)
    → items s ≡ some xs
    → items p ≡ some ys
    → without_prefix s p ≡ some r
    → items r ≡ some (if is_prefix ys xs then drop (length ys) xs else xs)
unfolding without_prefix items
without_prefix-items s p r xs ys h k e =
    let m = items-length s s.length 0 xs h in
    let n = items-length p p.length 0 ys k in
    elim (Bool-cases (ltb s.length p.length)) [
      | inl short ↦ let q = is_prefix_long ys xs (ground arith) in ground arith
      | inr enough ↦
          let f = match_loop-is_prefix s 0 p p.length s.length 0 xs ys (ground arith) h k in
          elim (Bool-cases (is_prefix ys xs)) [
            | inl begins ↦
                let t =
                  substring-items s p.length (s.length - p.length) r xs h (ground arith)
                    (ground arith) in
                let a =
                  take_all (s.length - p.length) (drop p.length xs)
                    (omega (arith, length-drop p.length xs)) in
                ground arith
            | inr other ↦ ground arith
          ]
    ]
