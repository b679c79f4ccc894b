-- ===== src/Spelling/Distance.antt =====
-- `word_distance` of environment.c against the recursive definition of Levenshtein's distance.
use blangc.Prelude.{
  ℕ, suc, ◌+◌, ◌-◌, ◌≡◌, refl, ap, ◌∙◌, ◌==◌, ◌<◌, if◌then◌else◌, List, [], ◌∷◌, Bytes, length,
  arith,
}
use blangc.Spelling.{min3, row, rows, count_up, last_cell, word_distance}

-- The distance of two words by their first characters: one is dropped from either word, or from
-- both, where it is free if they are the same one.
unfoldable pub levenshtein : Bytes → Bytes → ℕ
unfolding min3
levenshtein [] ys = length ys
levenshtein (x ∷ xs) [] = suc (length xs)
levenshtein (x ∷ xs) (y ∷ ys) =
    min3 (levenshtein (x ∷ xs) ys + 1) (levenshtein xs (y ∷ ys) + 1)
      (levenshtein xs ys + (if x == y then 0 else 1))

-- A word from its end, behind a part that is read.
abbrev pub onto : Bytes → Bytes → Bytes
onto seen [] = seen
onto seen (c ∷ rest) = onto (c ∷ seen) rest

-- The column for the part of the second word that is read.
column_of : (seen rest ys : Bytes) → List ℕ
unfolding levenshtein
column_of seen [] ys = []
column_of seen (a ∷ rest) ys = levenshtein (a ∷ seen) ys ∷ column_of (a ∷ seen) rest ys

row-column_of :
    (seen rest ys : Bytes) (c : ℕ)
    → row rest (column_of seen rest ys) (levenshtein seen (c ∷ ys)) (levenshtein seen ys) c
      ≡ column_of seen rest (c ∷ ys)
unfolding row column_of levenshtein
row-column_of seen [] ys c = refl
row-column_of seen (a ∷ rest) ys c =
    ap (λ r. levenshtein (a ∷ seen) (c ∷ ys) ∷ r) (row-column_of (a ∷ seen) rest ys c)

row_start :
    (s1 ys : Bytes) (x c : ℕ)
    → x ≡ suc (length ys)
    → row s1 (column_of [] s1 ys) x (x - 1) c ≡ column_of [] s1 (c ∷ ys)
unfolding levenshtein
row_start s1 ys x c h =
    let e : x - 1 ≡ length ys = omega (arith, h) in rw (e, h) (row-column_of [] s1 ys c)

rows-column_of :
    (s1 s2 ys : Bytes) (x first : ℕ)
    → x ≡ suc (length ys)
    → (rows s1 s2 x first (column_of [] s1 ys)).1 ≡ column_of [] s1 (onto ys s2)
unfolding rows
rows-column_of s1 [] ys x first h = refl
rows-column_of s1 (c ∷ s2) ys x first h =
    ap (λ column. (rows s1 s2 (x + 1) x column).1) (row_start s1 ys x c h)
    ∙ rows-column_of s1 s2 (c ∷ ys) (x + 1) x (omega (arith, h))

rows-first :
    (s1 s2 ys : Bytes) (x first : ℕ) (column : List ℕ)
    → x ≡ suc (length ys)
    → first ≡ length ys
    → (rows s1 s2 x first column).0 ≡ length (onto ys s2)
unfolding rows
rows-first s1 [] ys x first column h k = k
rows-first s1 (c ∷ s2) ys x first column h k =
    rows-first s1 s2 (c ∷ ys) (x + 1) x _ (omega (arith, h)) h

count_up-column_of :
    (seen s1 : Bytes) (y : ℕ) → y ≡ suc (length seen) → count_up s1 y ≡ column_of seen s1 []
unfolding count_up column_of levenshtein
count_up-column_of seen [] y h = refl
count_up-column_of seen (a ∷ s1) y h =
    ground (arith, count_up-column_of (a ∷ seen) s1 (y + 1) (omega (arith, h)))

last_cell-column_of :
    (seen rest ys : Bytes) (n : ℕ)
    → n ≡ levenshtein seen ys
    → last_cell n (column_of seen rest ys) ≡ levenshtein (onto seen rest) ys
unfolding last_cell column_of
last_cell-column_of seen [] ys n h = h
last_cell-column_of seen (a ∷ rest) ys n h =
    last_cell-column_of (a ∷ seen) rest ys (levenshtein (a ∷ seen) ys) refl

-- Unless both words are empty, `word_distance` returns Levenshtein's distance of the two words read
-- backwards.
pub word_distance-levenshtein :
    (unset : ℕ) (s1 s2 : Bytes)
    → 0 < length s1 + length s2
    → word_distance unset s1 s2 ≡ levenshtein (onto [] s1) (onto [] s2)
unfolding word_distance rows last_cell column_of levenshtein
word_distance-levenshtein unset [] [] h = elim h [ ]
word_distance-levenshtein unset (a ∷ s1) [] h =
    let e = count_up-column_of [] (a ∷ s1) 1 refl in
    let l = last_cell-column_of (a ∷ []) s1 [] (levenshtein (a ∷ []) []) refl in
    ap (λ column. last_cell unset column) e ∙ l
word_distance-levenshtein unset s1 (c ∷ s2) h =
    let e = count_up-column_of [] s1 1 refl in
    let r1 = rows-column_of s1 (c ∷ s2) [] 1 unset refl in
    let r0 = rows-first s1 s2 (c ∷ []) 2 1 (row s1 (column_of [] s1 []) 1 0 c) refl refl in
    ap (λ column. last_cell (rows s1 (c ∷ s2) 1 unset column).0 (rows s1 (c ∷ s2) 1 unset column).1)
      e
    ∙ ap (λ column. last_cell (rows s1 (c ∷ s2) 1 unset (column_of [] s1 [])).0 column) r1
    ∙ last_cell-column_of [] s1 (onto (c ∷ []) s2) (rows s1 (c ∷ s2) 1 unset (column_of [] s1 [])).0
        r0
