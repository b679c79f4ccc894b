-- ===== src/Spelling.antt =====
-- environment.c: the distance of two words, and the search for the name next to a misspelt one.
-- `unset` is what the first cell of the column holds before it is written.
pub mod Distance
pub mod Closest
use blangc.Prelude.{
  ℕ, zero, suc, ◌+◌, ◌-◌, ◌/◌, Bool, true, false, ◌==◌, ltb, leb, if◌then◌else◌, Option, none, some,
  List, [], ◌∷◌, Bytes, length,
}

-- The macro MIN3.
unfoldable pub min3 : ℕ → ℕ → ℕ → ℕ
min3 a b c = let m = if ltb a b then a else b in if ltb m c then m else c

-- The inner loop of `word_distance`, over the characters of the first word and the cells
-- `column[y]`; `left` is `column[y-1]`.
unfoldable pub row : (s1 : Bytes) (column : List ℕ) (left lastdiag c : ℕ) → List ℕ
row (a ∷ s1) (up ∷ column) left lastdiag c =
    let new = min3 (up + 1) (left + 1) (lastdiag + (if a == c then 0 else 1)) in
    new ∷ row s1 column new up c
row _ _ left lastdiag c = []

-- The outer loop, with the cell `column[0]` and the others.
unfoldable pub rows : (s1 s2 : Bytes) (x first : ℕ) (column : List ℕ) → ℕ × List ℕ
rows s1 [] x first column = (first, column)
rows s1 (c ∷ s2) x first column = rows s1 s2 (x + 1) x (row s1 column x (x - 1) c)

-- `column[y] = y`
unfoldable pub count_up : (s1 : Bytes) (y : ℕ) → List ℕ
count_up [] y = []
count_up (a ∷ s1) y = y ∷ count_up s1 (y + 1)

unfoldable pub last_cell : ℕ → List ℕ → ℕ
last_cell first [] = first
last_cell first (n ∷ column) = last_cell n column

unfoldable pub word_distance : (unset : ℕ) (s1 s2 : Bytes) → ℕ
word_distance unset s1 s2 =
    let column = rows s1 s2 1 unset (count_up s1 1) in last_cell column.0 column.1

-- The name found so far, with its distance; `none` is NULL.
abbrev pub Closest : Type 0
Closest = Option (Bytes × ℕ)

-- One entry of the inner loop of `spellcheck`.
unfoldable pub closer : Closest → (key : Bytes) (dist : ℕ) → Closest
closer none key dist = some (key, dist)
closer (some (k, d)) key dist = if ltb dist d then some (key, dist) else some (k, d)

-- The loop over the names of one namespace.
unfoldable pub search_names : (distance : Bytes → ℕ) → List Bytes → Closest → Closest
search_names distance [] found = found
search_names distance (key ∷ keys) found =
    search_names distance keys (closer found key (distance key))

-- The loop over a namespace and its fallbacks.
unfoldable pub search_namespaces : (distance : Bytes → ℕ) → List (List Bytes) → Closest → Closest
search_namespaces distance [] found = found
search_namespaces distance (keys ∷ rest) found =
    search_namespaces distance rest (search_names distance keys found)

-- A quarter of the length of the word, rounded up, is the greatest distance of a suggestion.
unfoldable pub suggest : Closest → (word : Bytes) → Option Bytes
suggest none word = none
suggest (some (k, d)) word = if leb d ((length word + 3) / 4) then some k else none

unfoldable pub spellcheck : (unset : ℕ) → List (List Bytes) → (word : Bytes) → Option Bytes
spellcheck unset namespaces word =
    suggest (search_namespaces (word_distance unset word) namespaces none) word
