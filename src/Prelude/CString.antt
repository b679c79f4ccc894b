-- ===== src/Prelude/CString.antt =====
-- C strings and other byte sequences as lists of numbers; `streq` and `strcmp` as the program uses
-- them. A C string that may be NULL is an `Option`.
use Prim.Native.Nat.{ℕ, suc, ◌+◌, ◌/◌, ◌%◌, compare, Ordering}
use Prim.Native.Char.{code}
use Prim.Native.String.{String}
use mathlib.Core.Path.{◌≡◌, refl}
use mathlib.Core.Logic.{◌↔◌}
use mathlib.Core.List.{List, [], ◌∷◌}
use mathlib.Core.Bool.{Bool, true, false, ◌&&◌}
use mathlib.Core.Option.{Option, none, some}
use native.Mathlib.Omega.{arith}
use blangc.Prelude.Tests.{◌==◌, ltb, if◌then◌else◌}

abbrev pub Bytes : Type 0
Bytes = List ℕ

-- The code points of a literal; these are its bytes when the text is ASCII.
abbrev pub codes : String → Bytes
codes String.[] = []
codes (String.◌∷◌ c s) = code c ∷ codes s

-- `strcmp(a, b) == 0`
unfoldable pub str_eq : Bytes → Bytes → Bool
str_eq [] [] = true
str_eq [] (y ∷ ys) = false
str_eq (x ∷ xs) [] = false
str_eq (x ∷ xs) (y ∷ ys) = x == y && str_eq xs ys

pub str_eq_refl : (xs : Bytes) → str_eq xs xs ≡ true
unfolding str_eq
str_eq_refl [] = refl
str_eq_refl (x ∷ xs) = ground (arith, str_eq_refl xs)

pub str_eq→eq : (xs ys : Bytes) → str_eq xs ys ≡ true → xs ≡ ys
unfolding str_eq
str_eq→eq [] [] h = refl
str_eq→eq [] (y ∷ ys) h = cc
str_eq→eq (x ∷ xs) [] h = cc
str_eq→eq (x ∷ xs) (y ∷ ys) h = ground (arith, str_eq→eq xs ys)

pub str_eq_iff : (xs ys : Bytes) → (str_eq xs ys ≡ true) ↔ (xs ≡ ys)
str_eq_iff xs ys = (str_eq→eq xs ys, λ e. rw e (str_eq_refl ys))

-- The macro `streq` of util.h, which takes NULL.
unfoldable pub streq : Option Bytes → Option Bytes → Bool
streq none none = true
streq none (some b) = false
streq (some a) none = false
streq (some a) (some b) = str_eq a b

pub streq_iff : (a b : Option Bytes) → (streq a b ≡ true) ↔ (a ≡ b)
unfolding streq
streq_iff none none = (λ _. refl, λ _. refl)
streq_iff none (some b) = (λ h. cc, λ h. cc)
streq_iff (some a) none = (λ h. cc, λ h. cc)
streq_iff (some a) (some b) = (λ h. cc (str_eq→eq a b h), λ h. ground (arith, str_eq_iff a b))

-- The sign of `strcmp(a, b)`.
unfoldable pub strcmp : Bytes → Bytes → Ordering
strcmp [] [] = Ordering.eq
strcmp [] (y ∷ ys) = Ordering.lt
strcmp (x ∷ xs) [] = Ordering.gt
strcmp (x ∷ xs) (y ∷ ys) = elim (compare x y) [
  | Ordering.lt ↦ Ordering.lt
  | Ordering.gt ↦ Ordering.gt
  | Ordering.eq ↦ strcmp xs ys
]

-- `%lu`, with a bound on the digits; `n` digits are enough for `n`.
decimal_digits : ℕ → ℕ → Bytes → Bytes
decimal_digits ℕ.zero n out = out
decimal_digits (suc fuel) n out =
    let rest = decimal_digits fuel (n / 10) ((b'0' + n % 10) ∷ out) in
    if ltb n 10 then (b'0' + n) ∷ out else rest

unfoldable pub decimal : ℕ → Bytes
unfolding decimal_digits
decimal n = decimal_digits (suc n) n []

decimal_runs : decimal 1204 ≡ codes "1204"
unfolding decimal
decimal_runs = refl
