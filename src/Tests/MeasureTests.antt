-- ===== src/Tests/MeasureTests.antt =====
-- Units of measure at work, and the theorems about them on those units.
use blangc.Measures.{
  Component, Sort, Scan, cmp_component_names, cmp_component_exponents, wrap_int, int_of, merge_run,
  merge, make_unit, unit_mul, negate, unit_div, abs, separator, power_suffix, print_components,
  unit_to_string, is_name, scan_name, skip_spaces, signed_by, scan_exponent, parse_loop, or_empty,
  unit_from_string, unit_string, unit_string_op, unit_string_mul, unit_string_div,
}
use blangc.Prelude.Int.{ℤ, pos, ◌+ℤ◌, ◌-ℤ◌}
use blangc.Prelude.{
  ℕ, ◌+◌, ◌-◌, ◌*◌, ◌≡◌, refl, ◌&&◌, ◌||◌, leb, ◌==◌, if◌then◌else◌, none, some, List, [], ◌∷◌,
  Ordering, Bytes, codes, str_eq, strcmp, decimal,
}
use mathlib.Core.List.{Permᴰ}
use mathlib.Core.List.Permᴰ

unit_code : Unit {0}
unfolding wrap_int int_of cmp_component_names cmp_component_exponents merge_run merge make_unit
    unit_mul negate unit_div abs separator power_suffix print_components unit_to_string is_name
    scan_name skip_spaces signed_by scan_exponent parse_loop or_empty unit_from_string unit_string
    unit_string_op unit_string_mul unit_string_div ◌+ℤ◌ ◌-ℤ◌ str_eq strcmp decimal
unit_code = tt

-- Sorting by insertion, which permutes.
abbrev place : Ordering → (c d : Component) (ds rest : List Component) → List Component
place Ordering.gt c d ds rest = d ∷ rest
place Ordering.lt c d ds rest = c ∷ d ∷ ds
place Ordering.eq c d ds rest = c ∷ d ∷ ds

abbrev insert_by : (Component → Component → Ordering) → Component → List Component → List Component
insert_by cmp c [] = c ∷ []
insert_by cmp c (d ∷ ds) = place (cmp c d) c d ds (insert_by cmp c ds)

abbrev sort : Sort
sort cmp [] = []
sort cmp (c ∷ cs) = insert_by cmp c (sort cmp cs)

-- Digits read to the end of the number.
abbrev digits : ℕ → Bytes → ℤ × Bytes
digits n [] = (pos n, [])
digits n (c ∷ p) =
    let rest = digits (n * 10 + (c - 48)) p in if leb 48 c && leb c 57 then rest else (pos n, c ∷ p)

abbrev ascii : Scan
ascii = record {
  is_alpha = λ c. (leb 97 c && leb c 122) || (leb 65 c && leb c 90);
  is_space = λ c. c == 32;
  strtol = digits 0;
}

abbrev speed : List Component
speed =
    record { exponent = pos 1; name = codes "m" }
    ∷ record { exponent = pos 0 -ℤ pos 1; name = codes "s" }
    ∷ []

printed : unit_string ascii sort (some (codes "kg m^2 / s^2 m")) ≡ some (some (codes "kg m/s^2"))
unfolding unit_code
printed = refl

multiplied :
    unit_string_mul ascii sort (some (codes "m/s")) (some (codes "s")) ≡ some (some (codes "m"))
unfolding unit_code
multiplied = refl

cancelled : unit_string_div ascii sort (some (codes "m")) (some (codes "m")) ≡ some none
unfolding unit_code
cancelled = refl
