-- ===== src/Measures.antt =====
-- units.c: units of measure as products of powers. A component is a name and an exponent; a unit is
-- a list of components, made by `make_unit`. `qsort`, `strtol` and ctype.h are the C library's.
-- Exponents are `int`, of 32 bits, whose overflow, which C leaves open, is taken to wrap around.
pub mod Wrap
pub mod Totals
pub mod Parsing
pub mod Derive
use blangc.Prelude.Int.{ℤ, pos, negsuc, sub_ℕ, ◌+ℤ◌, ◌-ℤ◌, eq_ℤ, pos_part, neg_part, ltb_ℤ}
use blangc.Prelude.{
  ℕ, zero, suc, ◌+◌, ◌-◌, ◌%◌, ◌^◌, ◌≡◌, Bool, true, false, not, ◌&&◌, ◌||◌, ◌==◌, ltb,
  if◌then◌else◌, Option, none, some, List, [], ◌∷◌, ◌++◌, map, Ordering, Bytes, codes, str_eq,
  strcmp, decimal, length,
}

-- `(int)`
unfoldable pub wrap_int : ℤ → ℤ
wrap_int (pos n) = let m = n % 2 ^ 32 in if ltb m (2 ^ 31) then pos m else sub_ℕ m (2 ^ 32)
wrap_int (negsuc n) =
    let m = 2 ^ 32 - 1 - n % 2 ^ 32 in if ltb m (2 ^ 31) then pos m else sub_ℕ m (2 ^ 32)

-- `component_t`
pub record Component : Type 0 where
  pub exponent : ℤ
  pub name : Bytes

-- A sorting function of the C library, by a comparison.
abbrev pub Sort : Type 0
Sort = (Component → Component → Ordering) → List Component → List Component

unfoldable pub cmp_component_names : Component → Component → Ordering
cmp_component_names a b = strcmp a.name b.name

unfoldable pub cmp_component_exponents : Component → Component → Ordering
cmp_component_exponents a b =
    if eq_ℤ a.exponent b.exponent
    then strcmp a.name b.name
    else if ltb_ℤ (wrap_int (pos 0 -ℤ wrap_int (a.exponent -ℤ b.exponent))) (pos 0)
    then Ordering.lt
    else Ordering.gt

-- The loop that merges runs of one name, which stands at the run of `name` with the sum so far.
unfoldable pub merge_run : (name : Bytes) → (exponent : ℤ) → List Component → List Component
merge_run name exponent [] =
    if eq_ℤ exponent (pos 0) then [] else record { exponent = exponent; name = name } ∷ []
merge_run name exponent (c ∷ rest) =
    let same = merge_run name (wrap_int (exponent +ℤ c.exponent)) rest in
    let next = merge_run c.name (wrap_int c.exponent) rest in
    if str_eq c.name name
    then same
    else if eq_ℤ exponent (pos 0)
    then next
    else record { exponent = exponent; name = name } ∷ next

unfoldable pub merge : List Component → List Component
merge [] = []
merge (c ∷ rest) = merge_run c.name (wrap_int c.exponent) rest

unfoldable pub make_unit : Sort → List Component → List Component
make_unit qsort components =
    qsort cmp_component_exponents (merge (qsort cmp_component_names components))

unfoldable pub unit_mul : Sort → (a b : List Component) → List Component
unit_mul qsort a b = make_unit qsort (a ++ b)

unfoldable pub negate : Component → Component
negate c = record { exponent = wrap_int (pos 0 -ℤ c.exponent); name = c.name }

unfoldable pub unit_div : Sort → (a b : List Component) → List Component
unit_div qsort a b = make_unit qsort (a ++ map negate b)

-- `abs`; of the least `int` C leaves it open.
unfoldable pub abs : ℤ → ℕ
abs z = pos_part z + neg_part z

-- What the loop of `unit_to_string` puts before a name, by the sign of the exponent and the flags.
unfoldable pub separator : (negative numerator slash denominator : Bool) → Bytes
separator false numerator slash denominator = if numerator then codes " " else []
separator true numerator slash denominator =
    (if numerator then [] else codes "1")
    ++ (if slash then [] else codes "/")
    ++ (if denominator then codes " " else [])

unfoldable pub power_suffix : ℤ → Bytes
power_suffix exponent = if ltb 1 (abs exponent) then codes "^" ++ decimal (abs exponent) else []

unfoldable pub print_components : List Component → (numerator slash denominator : Bool) → Bytes
print_components [] numerator slash denominator = []
print_components (c ∷ rest) numerator slash denominator =
    let skipped = print_components rest numerator slash denominator in
    let above = print_components rest true slash denominator in
    let below = print_components rest true true true in
    if eq_ℤ c.exponent (pos 0)
    then skipped
    else if ltb_ℤ (pos 0) c.exponent
    then separator false numerator slash denominator
      ++ (c.name ++ (power_suffix c.exponent ++ above))
    else separator true numerator slash denominator
      ++ (c.name ++ (power_suffix c.exponent ++ below))

unfoldable pub unit_to_string : List Component → Option Bytes
unit_to_string [] = none
unit_to_string (c ∷ rest) = some (print_components (c ∷ rest) false false false)

-- The functions of the C library that the parser calls. `strtol` takes the base 10, and returns the
-- number with the characters behind it.
pub record Scan : Type 0 where
  pub is_alpha : ℕ → Bool
  pub is_space : ℕ → Bool
  pub strtol : Bytes → ℤ × Bytes

unfoldable pub signed_by : Bool → ℤ → ℤ
signed_by in_denominator exponent =
    if in_denominator then wrap_int (pos 0 -ℤ exponent) else exponent

unfoldable pub or_empty : Option Bytes → Bytes
or_empty none = []
or_empty (some str) = str

-- `(int)strtol(…)`
unfoldable pub int_of : ℤ × Bytes → ℤ × Bytes
int_of (n, rest) = (wrap_int n, rest)

module _ (scan : Scan) where
  unfoldable pub is_name : ℕ → Bool
  is_name c = scan.is_alpha c || c == 95 || c == 37

  -- The name at the head of a text, and what follows.
  unfoldable pub scan_name : Bytes → Bytes × Bytes
  scan_name [] = ([], [])
  scan_name (c ∷ p) =
      let rest = scan_name p in if is_name c then (c ∷ rest.0, rest.1) else ([], c ∷ p)

  unfoldable pub skip_spaces : Bytes → Bytes
  skip_spaces [] = []
  skip_spaces (c ∷ p) = let rest = skip_spaces p in if scan.is_space c then rest else c ∷ p

  -- The exponent behind a name and its spaces, if there is one.
  unfoldable pub scan_exponent : Bytes → ℤ × Bytes
  scan_exponent [] = (pos 1, [])
  scan_exponent (c ∷ p) = if c == 94 then int_of (scan.strtol (skip_spaces p)) else (pos 1, c ∷ p)

  -- The loop of `unit_from_string`; `none` when the fuel is used up.
  unfoldable pub parse_loop : (fuel : ℕ) → (in_denominator : Bool) → Bytes → Option (List Component)
  parse_loop fuel in_denominator [] = some []
  parse_loop zero in_denominator (c ∷ p) = none
  parse_loop (suc fuel) in_denominator (c ∷ p) =
      let name = scan_name (c ∷ p) in
      let exponent = scan_exponent (skip_spaces name.1) in
      let named = parse_loop fuel in_denominator exponent.1 in
      let skipped = parse_loop fuel (in_denominator || c == 47) p in
      if is_name c
      then elim named [
        | none ↦ none
        | some rest ↦
            some (record { exponent = signed_by in_denominator exponent.0; name = name.0 } ∷ rest)
      ]
      else skipped

  unfoldable pub unit_from_string : Sort → Option Bytes → Option (List Component)
  unfolding or_empty
  unit_from_string qsort str = elim (parse_loop (length (or_empty str)) false (or_empty str)) [
    | none ↦ none
    | some cs ↦ some (make_unit qsort cs)
  ]

  unfoldable pub unit_string : Sort → Option Bytes → Option (Option Bytes)
  unit_string qsort str = elim (unit_from_string qsort str) [
    | none ↦ none
    | some u ↦ some (unit_to_string u)
  ]

  -- `unit_string_mul` and `unit_string_div`, by the operation.
  unfoldable pub unit_string_op :
      Sort
      → (List Component → List Component → List Component)
      → (a b : Option Bytes) → Option (Option Bytes)
  unit_string_op qsort op a b = elim (unit_from_string qsort a) [
    | none ↦ none
    | some u ↦ elim (unit_from_string qsort b) [
      | none ↦ none
      | some v ↦ some (unit_to_string (op u v))
    ]
  ]

  unfoldable pub unit_string_mul : Sort → (a b : Option Bytes) → Option (Option Bytes)
  unit_string_mul qsort = unit_string_op qsort (unit_mul qsort)

  unfoldable pub unit_string_div : Sort → (a b : Option Bytes) → Option (Option Bytes)
  unit_string_div qsort = unit_string_op qsort (unit_div qsort)
