-- ===== src/Types/Precision/Range.antt =====
-- The order of precision on integer types is the inclusion of their ranges.
use blangc.Prelude.{
  ℕ, zero, suc, ◌-◌, ◌^◌, ◌≤◌, ◌<◌, ◌≡◌, ◌↔◌, Bool, true, false, ◌&&◌, leb, Option, Bytes, arith,
  if◌then◌else◌,
}
use blangc.Prelude.Int.{ℤ, pos, negsuc}
use blangc.Types.Precision.{
  PrecisionCmp, equal, less, more, compare_precision, type_min_magnitude, type_max_magnitude,
}
use blangc.Types.{int_type}

-- The widths that the compiler has integer types of.
pub data Width : Type 0 where
  w8 w16 w32 w64 : Width

abbrev pub bits_of : Width → ℕ
bits_of w8 = 8
bits_of w16 = 16
bits_of w32 = 32
bits_of w64 = 64

-- The integers that a machine integer of a width and a signedness can hold.
abbrev pub InRange : ℕ → Bool → ℤ → Type 0
InRange bits true (pos n) = n < 2 ^ bits
InRange bits true (negsuc n) = ⊥
InRange bits false (pos n) = n < 2 ^ (bits - 1)
InRange bits false (negsuc n) = n < 2 ^ (bits - 1)

-- The bounds of that range: values below `above`, and `negsuc n` for `n` below `below`.
abbrev above : Width → Bool → ℕ
above w s = if s then 2 ^ bits_of w else 2 ^ (bits_of w - 1)

abbrev below : Width → Bool → ℕ
below w s = if s then 0 else 2 ^ (bits_of w - 1)

InRange-pos : (w : Width) (s : Bool) (n : ℕ) → InRange (bits_of w) s (pos n) ↔ (n < above w s)
InRange-pos w true n = (λ h. h, λ h. h)
InRange-pos w false n = (λ h. h, λ h. h)

InRange-negsuc : (w : Width) (s : Bool) (n : ℕ) → InRange (bits_of w) s (negsuc n) ↔ (n < below w s)
InRange-negsuc w true n = (λ h. absurd h, λ h. absurd (omega arith))
InRange-negsuc w false n = (λ h. h, λ h. h)

bound : (a b : ℕ) → ((n : ℕ) → n < a → n < b) → a ≤ b
bound zero b h = omega arith
bound (suc a) b h = h a (omega arith)

range_inclusion :
    (w w' : Width) (s s' : Bool)
    → ((z : ℤ) → InRange (bits_of w) s z → InRange (bits_of w') s' z)
      ↔ ((above w s ≤ above w' s') × (below w s ≤ below w' s'))
range_inclusion w w' s s' = (
  λ h. (
    bound (above w s) (above w' s')
        λ n lt. (InRange-pos w' s' n).0 (h (pos n) ((InRange-pos w s n).1 lt)),
    bound (below w s) (below w' s')
        λ n lt. (InRange-negsuc w' s' n).0 (h (negsuc n) ((InRange-negsuc w s n).1 lt)),
  ),
  λ le z. elim z as (λ z. InRange (bits_of w) s z → InRange (bits_of w') s' z) [
    | pos n ↦ λ h. (InRange-pos w' s' n).1 (omega (arith, (InRange-pos w s n).0 h))
    | negsuc n ↦ λ h. (InRange-negsuc w' s' n).1 (omega (arith, (InRange-negsuc w s n).0 h))
  ],
)

-- The answers that rank the first type at most, and at least, as high as the second.
abbrev pub at_most : PrecisionCmp → Bool
at_most equal = true
at_most less = true
at_most _ = false

abbrev pub at_least : PrecisionCmp → Bool
at_least equal = true
at_least more = true
at_least _ = false

-- All integers of the first range are in the second.
abbrev pub Within : Width → Bool → Width → Bool → Type 0
Within w s w' s' = (z : ℤ) → InRange (bits_of w) s z → InRange (bits_of w') s' z

table :
    (u u' : Option Bytes) (w w' : Width) (s s' : Bool)
    → (at_most (compare_precision (int_type u (bits_of w) s) (int_type u' (bits_of w') s'))
        ≡ (leb (above w s) (above w' s') && leb (below w s) (below w' s')))
      × (at_least (compare_precision (int_type u (bits_of w) s) (int_type u' (bits_of w') s'))
          ≡ (leb (above w' s') (above w s) && leb (below w' s') (below w s)))
unfolding compare_precision type_min_magnitude type_max_magnitude
table u u' w w' s s' = (ground arith, ground arith)

-- For the integer types of the four widths, whatever their units: `compare_precision` answers
-- "equal" or "less" exactly when every integer of the first type's range is in the second's, and
-- "equal" or "more" exactly when every integer of the second's is in the first's.
pub compare_precision-range :
    (u u' : Option Bytes) (w w' : Width) (s s' : Bool)
    → ((at_most (compare_precision (int_type u (bits_of w) s) (int_type u' (bits_of w') s')) ≡ true)
        ↔ Within w s w' s')
      × ((at_least (compare_precision (int_type u (bits_of w) s) (int_type u' (bits_of w') s'))
            ≡ true)
          ↔ Within w' s' w s)
compare_precision-range u u' w w' s s' =
    let (most, least) = table u u' w w' s s' in
    (
      (
        λ h. (range_inclusion w w' s s').1 (ground arith),
        λ h. ground (arith, (range_inclusion w w' s s').0 h),
      ),
      (
        λ h. (range_inclusion w' w s' s).1 (ground arith),
        λ h. ground (arith, (range_inclusion w' w s' s).0 h),
      ),
    )
