-- ===== src/Measures/Totals.antt =====
-- What `make_unit` and `unit_mul` of units.c do to the exponent of each name.
use blangc.Measures.{Component, cmp_component_names}
use blangc.Prelude.Int.{ℤ, pos, ◌+ℤ◌}
use blangc.Prelude.{ℕ, ◌+◌, ◌≢◌, if◌then◌else◌, List, [], ◌∷◌, Bytes, Ordering, str_eq}

-- The exponent of a name in a product, and how often the name stands in it.
abbrev pub total : Bytes → List Component → ℤ
total name [] = pos 0
total name (c ∷ rest) = (if str_eq c.name name then c.exponent else pos 0) +ℤ total name rest

abbrev pub occurrences : Bytes → List Component → ℕ
occurrences name [] = 0
occurrences name (c ∷ rest) = (if str_eq c.name name then 1 else 0) + occurrences name rest

-- No component stands before one whose name is less than its own.
abbrev pub After : Component → List Component → Type 0
After c [] = Unit
After c (d ∷ rest) = (cmp_component_names c d ≢ Ordering.gt) × After c rest

abbrev pub InOrder : List Component → Type 0
InOrder [] = Unit
InOrder (c ∷ rest) = After c rest × InOrder rest

abbrev term : Bytes → Component → ℤ
term n c = if str_eq c.name n then c.exponent else pos 0

abbrev once : Bytes → Component → ℕ
once n c = if str_eq c.name n then 1 else 0
