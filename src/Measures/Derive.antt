-- ===== src/Measures/Derive.antt =====
-- `unit_derive` of units.c without a number to convert (`d` is NULL): derived units are replaced by
-- their base units.
use blangc.Measures.{
  Component, Scan, Sort, unit_from_string, unit_mul, unit_div, unit_to_string, abs,
}
use blangc.Prelude.Int.{ℤ, pos, ◌-ℤ◌, ltb_ℤ, eq_ℤ}
use blangc.Prelude.{
  ℕ, zero, suc, ◌*◌, ◌/◌, ltb, if◌then◌else◌, Option, none, some, List, [], ◌∷◌, Bytes, str_eq,
}

-- `derived_units_t`; the ratio is not read.
pub record Conversion : Type 0 where
  pub derived : Bytes
  pub base : Bytes

-- Division of `int`s, towards 0.
unfoldable pub quotient : ℤ → ℤ → ℤ
quotient a b =
    let q = abs a / abs b in
    if ltb_ℤ a (pos 0)
    then (if ltb_ℤ b (pos 0) then pos q else pos 0 -ℤ pos q)
    else if ltb_ℤ b (pos 0)
    then pos 0 -ℤ pos q
    else pos q

-- The first component of the name, and its exponent.
unfoldable pub exponent_of : Bytes → List Component → Option ℤ
exponent_of name [] = none
exponent_of name (c ∷ unit) =
    let rest = exponent_of name unit in if str_eq c.name name then some c.exponent else rest

-- The loop over the components of the derived unit: the power of it that is in the unit.
unfoldable pub power_in : (unit derived : List Component) → (exponent : ℤ) → ℤ
power_in unit [] exponent = exponent
power_in unit (d ∷ derived) exponent = elim (exponent_of d.name unit) [
  | none ↦ pos 0
  | some u ↦
      let e = quotient u d.exponent in
      power_in unit derived
        (if ltb (abs e * abs e) (abs exponent * abs exponent) then e else exponent)
]

-- `unit = unit_mul(unit, factor)`, as often as the rounds.
unfoldable pub multiply_by : Sort → (rounds : ℕ) → (unit factor : List Component) → List Component
multiply_by qsort zero unit factor = unit
multiply_by qsort (suc rounds) unit factor =
    multiply_by qsort rounds (unit_mul qsort unit factor) factor

module _ (scan : Scan) (qsort : Sort) where
  -- One conversion of the loop.
  unfoldable pub convert : List Component → Conversion → Option (List Component)
  convert unit conversion = elim (unit_from_string scan qsort (some conversion.derived)) [
    | none ↦ none
    | some derived ↦
        let exponent = power_in unit derived (pos 999) in
        if eq_ℤ exponent (pos 0)
        then some unit
        else elim (unit_from_string scan qsort (some conversion.base)) [
          | none ↦ none
          | some base ↦
              let factor =
                if ltb_ℤ (pos 0) exponent
                then unit_div qsort base derived
                else unit_div qsort derived base in
              some (multiply_by qsort (abs exponent) unit factor)
        ]
  ]

  unfoldable pub convert_all : List Component → List Conversion → Option (List Component)
  convert_all unit [] = some unit
  convert_all unit (c ∷ conversions) = elim (convert unit c) [
    | none ↦ none
    | some unit' ↦ convert_all unit' conversions
  ]

  unfoldable pub unit_derive : Option Bytes → List Conversion → Option (Option Bytes)
  unit_derive str conversions = elim (unit_from_string scan qsort str) [
    | none ↦ none
    | some unit ↦ elim (convert_all unit conversions) [
      | none ↦ none
      | some unit' ↦ some (unit_to_string unit')
    ]
  ]
