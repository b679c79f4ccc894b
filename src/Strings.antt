-- ===== src/Strings.antt =====
-- libsss/string.c: the operations on strings. A loop over a string recurs on the rounds left, with
-- the index; `none` is an access outside the memory.
pub mod Laws
pub mod Parts
use blangc.Prelude.Int.{ℤ, pos, negsuc, ◌+ℤ◌, ◌*ℤ◌}
use blangc.Prelude.{
  ℕ, zero, suc, ◌+◌, ◌-◌, ◌≡◌, refl, Bool, true, false, not, ◌==◌, ltb, if◌then◌else◌, Option, none,
  some, List, [], ◌∷◌, ◌++◌, get_elem?, drop, ◌%◌, length, map, Bytes,
}
use blangc.Slice.{is_one, Slice, fresh, item, items, items_from, ◌>>=◌}

abbrev pub Str : Type 0
Str = Slice ℕ

-- The functions of ctype.h that the program calls.
pub record CType : Type 0 where
  pub to_upper : ℕ → ℕ
  pub to_lower : ℕ → ℕ
  pub is_alpha : ℕ → Bool

-- `s2[i] = f(s.data[i*s.stride])` for the rounds left.
unfoldable pub map_loop : (ℕ → ℕ) → Str → (rounds i : ℕ) → Option Bytes
map_loop f s zero i = some []
map_loop f s (suc rounds) i = elim (item s i) [
  | none ↦ none
  | some c ↦ elim (map_loop f s rounds (suc i)) [ none ↦ none | some rest ↦ some (f c ∷ rest) ]
]

unfoldable pub made : Option Bytes → Option Str
made none = none
made (some out) = some (fresh out)

module _ (ctype : CType) where
  unfoldable pub uppercased : Str → Option Str
  uppercased s = made (map_loop ctype.to_upper s s.length 0)

  unfoldable pub lowercased : Str → Option Str
  lowercased s = made (map_loop ctype.to_lower s s.length 0)

  -- The first loop of `sss_string_capitalized`; after the first letter the second loop copies.
  unfoldable pub capitalize_loop : Str → (rounds i : ℕ) → Option Bytes
  capitalize_loop s zero i = some []
  capitalize_loop s (suc rounds) i = elim (item s i) [
    | none ↦ none
    | some c ↦ elim (ctype.is_alpha c) [
      | true ↦ elim (items_from s rounds (suc i)) [
        | none ↦ none
        | some rest ↦ some (ctype.to_upper c ∷ rest)
      ]
      | false ↦ elim (capitalize_loop s rounds (suc i)) [
        | none ↦ none
        | some rest ↦ some (c ∷ rest)
      ]
    ]
  ]

  unfoldable pub capitalized : Str → Option Str
  capitalized s = made (capitalize_loop s s.length 0)

  -- One character of `sss_string_titlecased`, with the flag before it, and the flag behind it.
  unfoldable pub title_char : Bool → ℕ → ℕ
  title_char should_uppercase c =
      if ctype.is_alpha c
      then (if should_uppercase then ctype.to_upper c else ctype.to_lower c)
      else c

  unfoldable pub titlecase_loop : Str → Bool → (rounds i : ℕ) → Option Bytes
  titlecase_loop s should_uppercase zero i = some []
  titlecase_loop s should_uppercase (suc rounds) i = elim (item s i) [
    | none ↦ none
    | some c ↦ elim (titlecase_loop s (not (ctype.is_alpha c)) rounds (suc i)) [
      | none ↦ none
      | some rest ↦ some (title_char should_uppercase c ∷ rest)
    ]
  ]

  unfoldable pub titlecased : Str → Option Str
  titlecased s = made (titlecase_loop s true s.length 0)

-- `s.data[(offset+i)*s.stride] == prefix.data[i*prefix.stride]` for the rounds left.
unfoldable pub match_loop : Str → (offset : ℕ) → Str → (rounds i : ℕ) → Option Bool
match_loop s offset p zero i = some true
match_loop s offset p (suc rounds) i = elim (item s (offset + i)) [
  | none ↦ none
  | some a ↦ elim (item p i) [
    | none ↦ none
    | some b ↦ elim (a == b) [ true ↦ match_loop s offset p rounds (suc i) | false ↦ some false ]
  ]
]

unfoldable pub starts_with : Str → Str → Option Bool
starts_with s prefix =
    if ltb s.length prefix.length then some false else match_loop s 0 prefix prefix.length 0

unfoldable pub ends_with : Str → Str → Option Bool
ends_with s suffix =
    if ltb s.length suffix.length
    then some false
    else match_loop s (s.length - suffix.length) suffix suffix.length 0

-- The position `i` items behind the start; a pointer in front of the memory is no position.
unfoldable pub advance : Str → ℕ → Option ℕ
advance s i = elim (pos s.start +ℤ pos i *ℤ s.stride) [ pos n ↦ some n | negsuc n ↦ none ]

-- `data + i*stride`, with a length.
unfoldable pub substring : Str → (i len : ℕ) → Option Str
substring s i len = elim (advance s i) [
  | none ↦ none
  | some n ↦
      some (record { memory = s.memory; start = n; length = len; stride = s.stride; free = pos 0 })
]

unfoldable pub without_prefix : Str → Str → Option Str
without_prefix s prefix =
    if ltb s.length prefix.length
    then some s
    else match_loop s 0 prefix prefix.length 0 >>= λ matches.
        if matches then substring s prefix.length (s.length - prefix.length) else some s

unfoldable pub without_suffix : Str → Str → Option Str
without_suffix s suffix =
    if ltb s.length suffix.length
    then some s
    else match_loop s (s.length - suffix.length) suffix suffix.length 0 >>= λ matches.
        if matches then substring s 0 (s.length - suffix.length) else some s

-- The loop over the trimmed characters: whether `c` is one of them.
unfoldable pub is_trimmed : Str → ℕ → (rounds i : ℕ) → Option Bool
is_trimmed chars c zero i = some false
is_trimmed chars c (suc rounds) i = elim (item chars i) [
  | none ↦ none
  | some d ↦ elim (c == d) [ true ↦ some true | false ↦ is_trimmed chars c rounds (suc i) ]
]

-- `start` when the loop on the left ends.
unfoldable pub trim_left_loop : Str → Str → (rounds start : ℕ) → Option ℕ
trim_left_loop s chars zero start = some start
trim_left_loop s chars (suc rounds) start = elim (item s start) [
  | none ↦ none
  | some c ↦ elim (is_trimmed chars c chars.length 0) [
    | none ↦ none
    | some false ↦ some start
    | some true ↦ trim_left_loop s chars rounds (suc start)
  ]
]

-- `len` when the loop on the right ends.
unfoldable pub trim_right_loop : Str → Str → (start len : ℕ) → Option ℕ
trim_right_loop s chars start zero = some zero
trim_right_loop s chars start (suc len) = elim (item s (start + len)) [
  | none ↦ none
  | some c ↦ elim (is_trimmed chars c chars.length 0) [
    | none ↦ none
    | some false ↦ some (suc len)
    | some true ↦ trim_right_loop s chars start len
  ]
]

unfoldable pub trimmed : Str → (trim_chars : Str) → (trim_left trim_right : Bool) → Option Str
trimmed s chars trim_left trim_right = do
  start ← if trim_left then trim_left_loop s chars s.length 0 else some 0
  len ←
      if trim_right
      then trim_right_loop s chars start (s.length - start)
      else some (s.length - start)
  substring s start len

unfoldable pub flatten : Str → Option Str
flatten s = if is_one s.stride then some s else made (items s)

-- The inner loop of `sss_string_find` at position `at`. It reads the same character of the string
-- in every round.
unfoldable pub find_at : Str → (at : ℕ) → Str → (rounds p : ℕ) → Option Bool
find_at s at pat zero p = some true
find_at s at pat (suc rounds) p = elim (item s at) [
  | none ↦ none
  | some a ↦ elim (item pat p) [
    | none ↦ none
    | some b ↦ elim (a == b) [ true ↦ find_at s at pat rounds (suc p) | false ↦ some false ]
  ]
]

unfoldable pub find_loop : Str → Str → (rounds at : ℕ) → Option (Option ℕ)
find_loop s pat zero at = some none
find_loop s pat (suc rounds) at = elim (find_at s at pat pat.length 0) [
  | none ↦ none
  | some true ↦ some (some (at + 1))
  | some false ↦ find_loop s pat rounds (suc at)
]

-- `sss_string_find`: the index from 1, or `none` for no success.
unfoldable pub find : Str → Str → Option (Option ℕ)
find s pat =
    if ltb s.length pat.length
    then some none
    else if pat.length == 0
    then some (some 1)
    else find_loop s pat s.length 0

-- `from_c_string`, a NULL pointer included. The buffer has one byte more than the string; it takes
-- the string with its NUL, and then one more byte is written behind the NUL.
unfoldable pub from_c_string : Option Bytes → Option Str
from_c_string none =
    some (record { memory = []; start = 0; length = 0; stride = pos 0; free = pos 0 })
from_c_string (some []) =
    some (record { memory = []; start = 0; length = 0; stride = pos 0; free = pos 0 })
from_c_string (some (c ∷ cs)) =
    let buf : Bytes = (c ∷ cs) ++ 0 ∷ [] in
    let len = length (c ∷ cs) in
    if ltb (len + 1) (length buf)
    then some (record { memory = buf; start = 0; length = len; stride = pos 1; free = pos 0 })
    else none

-- The last two tests of `c_string` for a string that may be passed as it is; `address` is the one
-- of the memory.
unfoldable pub is_terminated : (address : ℕ) → Str → Option Bool
is_terminated address s =
    if (address + s.start + s.length + 1) % 4096 == 0
    then some false
    else elim (get_elem? s.memory (s.start + s.length + 1)) [ none ↦ none | some c ↦ some (c == 0) ]

-- `c_string`: the bytes from the pointer on.
unfoldable pub c_string : (address : ℕ) → Str → Option Bytes
c_string address s =
    let copy = items s >>= λ xs. some (xs ++ 0 ∷ []) in
    if s.length == 0
    then some (0 ∷ [])
    else if is_one s.stride
    then is_terminated address s
      >>= (λ terminated. if terminated then some (drop s.start s.memory) else copy)
    else copy
