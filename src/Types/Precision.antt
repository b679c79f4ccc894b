-- ===== src/Types/Precision.antt =====
-- The numeric types' order of precision: `type_min_magnitude`, `type_max_magnitude` and
-- `compare_precision` of types.c, and the tests for numeric types.
pub mod Range
use blangc.Prelude.{ℕ, Bool, true, false, ◌&&◌, ◌||◌, ◌==◌, leb, if◌then◌else◌}
use blangc.Types.{
  SssType, base_variant, bool_type, char_type, c_string_char_type, int_type, num_type, variant_type,
}

unfoldable pub is_integral : SssType → Bool
is_integral t = elim (base_variant t) [
  | int_type units bits is_unsigned ↦ true
  | char_type ↦ true
  | c_string_char_type ↦ true
  | _ ↦ false
]

unfoldable pub is_floating_point : SssType → Bool
is_floating_point t = elim (base_variant t) [ num_type units bits ↦ true | _ ↦ false ]

unfoldable pub is_numeric : SssType → Bool
is_numeric t = elim (base_variant t) [
  | int_type units bits is_unsigned ↦ true
  | num_type units bits ↦ true
  | _ ↦ false
]

-- `magnitude_e` as the numbers of the enumeration: 0 is `MAG_INAPPLICABLE`, 1 is `MAG_ZERO`, and
-- `MAG1` to `MAG12` are 2 to 13.
abbrev pub mag_inapplicable : ℕ
mag_inapplicable = 0

-- `switch (bits)` with cases for the four widths.
switch_bits : ℕ → ℕ → ℕ → ℕ → ℕ → ℕ
switch_bits bits a b c d =
    if bits == 8
    then a
    else if bits == 16
    then b
    else if bits == 32
    then c
    else if bits == 64
    then d
    else mag_inapplicable

unfoldable pub type_min_magnitude : SssType → ℕ
unfolding switch_bits
type_min_magnitude bool_type = 1
type_min_magnitude char_type = 1
type_min_magnitude c_string_char_type = 1
type_min_magnitude (int_type units bits is_unsigned) =
    if is_unsigned then 1 else switch_bits bits 2 3 4 5
type_min_magnitude (num_type units bits) = if bits == 32 then 6 else 7
type_min_magnitude (variant_type name filename t) = type_min_magnitude t
type_min_magnitude _ = mag_inapplicable

unfoldable pub type_max_magnitude : SssType → ℕ
unfolding switch_bits
type_max_magnitude bool_type = 2
type_max_magnitude char_type = 3
type_max_magnitude c_string_char_type = 3
type_max_magnitude (int_type units bits is_unsigned) =
    if is_unsigned then switch_bits bits 5 7 9 11 else switch_bits bits 4 6 8 10
type_max_magnitude (num_type units bits) = if bits == 32 then 12 else 13
type_max_magnitude (variant_type name filename t) = type_max_magnitude t
type_max_magnitude _ = mag_inapplicable

-- `precision_cmp_e`
pub data PrecisionCmp : Type 0 where
  equal less more incomparable : PrecisionCmp

-- The comparison of two ranges of magnitudes.
unfoldable pub compare_magnitudes : ℕ → ℕ → ℕ → ℕ → PrecisionCmp
compare_magnitudes a_min b_min a_max b_max =
    if a_min == mag_inapplicable
      || b_min == mag_inapplicable
      || a_max == mag_inapplicable
      || b_max == mag_inapplicable
    then incomparable
    else if a_min == b_min && a_max == b_max
    then equal
    else if leb a_min b_min && leb a_max b_max
    then less
    else if leb b_min a_min && leb b_max a_max
    then more
    else incomparable

unfoldable pub compare_precision : SssType → SssType → PrecisionCmp
unfolding compare_magnitudes
compare_precision a b =
    compare_magnitudes (type_min_magnitude a) (type_min_magnitude b) (type_max_magnitude a)
      (type_max_magnitude b)
