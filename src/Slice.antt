-- ===== src/Slice.antt =====
-- `string_t` of libsss/string.h, the layout of strings and of arrays at run time: a pointer into
-- some memory, a length, a stride and a count of free cells behind the last item. Lengths and
-- strides count items.
use blangc.Prelude.Int.{ℤ, pos, negsuc, ◌+ℤ◌, ◌*ℤ◌}
use blangc.Prelude.{
  arith, ◌≡◌, refl, Bool, false, ◌==◌, ℕ, zero, suc, Option, none, some, List, [], ◌∷◌, get_elem?,
  length,
}

-- `data` is the position `start` of `memory`.
pub record Slice (A : Type 0) : Type 0 where
  pub memory : List A
  pub start : ℕ
  pub length : ℕ
  pub stride : ℤ
  pub free : ℤ

-- A fresh string or array that holds the list.
abbrev pub fresh : {A : Type 0} → List A → Slice A
fresh xs = record { memory = xs; start = 0; length = length xs; stride = pos 1; free = pos 0 }

abbrev pub read : {A : Type 0} → List A → ℤ → Option A
read memory (pos n) = get_elem? memory n
read memory (negsuc n) = none

-- `data[i*stride]`; `none` is a read outside the memory.
unfoldable pub item : {A : Type 0} → Slice A → ℕ → Option A
item s i = read s.memory (pos s.start +ℤ pos i *ℤ s.stride)

abbrev pub is_one : ℤ → Bool
is_one (pos n) = n == 1
is_one (negsuc n) = false

infixl 5 ◌>>=◌
abbrev pub ◌>>=◌ : {A B : Type 0} → Option A → (A → Option B) → Option B
none >>= f = none
some a >>= f = f a

pub bind_some :
    {A B : Type 0} (o : Option A) (f : A → Option B) {b : B}
    → (o >>= f) ≡ some b
    → (a : A) × (o ≡ some a) × (f a ≡ some b)
bind_some none f h = cc
bind_some (some a) f h = (a, refl, h)

-- The items from number `i` on, as many as rounds: the loop of `flatten` and of every copy.
unfoldable pub items_from : {A : Type 0} → Slice A → (rounds i : ℕ) → Option (List A)
items_from s zero i = some []
items_from s (suc rounds) i = elim (item s i) [
  | none ↦ none
  | some c ↦ elim (items_from s rounds (suc i)) [ none ↦ none | some rest ↦ some (c ∷ rest) ]
]

unfoldable pub items : {A : Type 0} → Slice A → Option (List A)
items s = items_from s s.length 0

-- The number of items is the length of the string.
pub items-length :
    {A : Type 0} (s : Slice A) (rounds i : ℕ) (xs : List A)
    → items_from s rounds i ≡ some xs
    → length xs ≡ rounds
unfolding items_from
items-length s zero i xs h = ground arith
items-length s (suc rounds) i [] h = ground arith
items-length s (suc rounds) i (x ∷ xs) h = grind (arith, items-length s rounds (suc i) xs)
