-- ===== src/Types/Relations/Join.antt =====
-- `type_or_type` on integer types: when the result holds the values of both.
use blangc.Prelude.{
  ◌-◌, ◌*◌, ◌^◌, ◌≤◌, ◌<◌, ◌≡◌, refl, sym, subst, ◌⊎◌, inl, inr, Bool, true, false, Option, none,
  some, Bytes, arith, Bool-cases, str_eq, decimal,
}
use blangc.Prelude.Int.{ℤ, pos, negsuc}
use blangc.Types.Cord.{type_eq, type_to_string, type_to_cord}
use blangc.Types.Precision.Range.{
  Width, bits_of, InRange, at_most, at_least, compare_precision-range,
}
use blangc.Types.Precision.{
  PrecisionCmp, equal, less, more, incomparable, compare_precision, type_min_magnitude,
  type_max_magnitude,
}
use blangc.Types.Relations.{
  joined, join, settle, type_is_a, type_or_type, join_numeric, join_incomparable,
}
use blangc.Types.{SssType, int_type, tag}

int-type_eq :
    (u u' : Option Bytes) (w w' : Width) (s s' : Bool)
    → type_eq (int_type u (bits_of w) s) (int_type u' (bits_of w') s') ≡ true
    → (w ≡ w') × (s ≡ s')
unfolding type_eq tag type_to_string type_to_cord str_eq decimal
int-type_eq u u' w w' s s' h = (ground arith, ground arith)

-- The integers that a type holds, if it is an integer type.
abbrev pub InType : SssType → ℤ → Type 0
InType (int_type units bits is_unsigned) z = InRange bits is_unsigned z
InType _ z = ⊥

-- The case of ranges that are not comparable.
doubled :
    (u u' : Option Bytes) (w w' : Width) (s s' : Bool) (z : ℤ)
    → compare_precision (int_type u (bits_of w) s) (int_type u' (bits_of w') s') ≡ incomparable
    → (s ≡ true) ⊎ (s' ≡ false) ⊎ (bits_of w' ≤ bits_of w)
    → InRange (bits_of w) s z ⊎ InRange (bits_of w') s' z
    → InRange (bits_of w * 2) false z
unfolding compare_precision type_min_magnitude type_max_magnitude
doubled u u' w w' true true z e h r = ground arith
doubled u u' w w' false false z e h r = ground arith
doubled u u' w w' true false (pos n) e h r = ground arith
doubled u u' w w' true false (negsuc n) e h r = ground arith
doubled u u' w w' false true (pos n) e h r = ground arith
doubled u u' w w' false true (negsuc n) e h r = ground arith

module _ (u u' : Option Bytes) (w w' : Width) (s s' : Bool) where
  abbrev first : SssType
  first = int_type u (bits_of w) s

  abbrev second : SssType
  second = int_type u' (bits_of w') s'

  -- The tests before the numeric case find equal types, or nothing.
  settle-first :
      ((w ≡ w')
        × (s ≡ s')
        × ((settle first second ≡ some first) ⊎ (settle first second ≡ some second)))
      ⊎ (settle first second ≡ none)
  unfolding settle type_is_a
  settle-first = elim (Bool-cases (type_eq second first)) [
    | inl e ↦ let (p, q) = int-type_eq u' u w' w s' s e in inl (sym p, sym q, inl (rw e))
    | inr e ↦ elim (Bool-cases (type_eq first second)) [
      | inl e' ↦ let (p, q) = int-type_eq u u' w w' s s' e' in inl (p, q, inr (rw (e, e')))
      | inr e' ↦ inr (rw (e, e'))
    ]
  ]

  abbrev ByPrecision : PrecisionCmp → SssType → Type 0
  ByPrecision c t =
      (elim c [
        | equal ↦ joined first
        | more ↦ joined first
        | less ↦ joined second
        | incomparable ↦ join_incomparable first second
      ])
      ≡ joined t

  abbrev BothIn : SssType → Type 0
  BothIn t = (z : ℤ) → InType first z ⊎ InType second z → InType t z

  first-BothIn : at_least (compare_precision first second) ≡ true → BothIn first
  first-BothIn h z (inl r) = r
  first-BothIn h z (inr r) = (compare_precision-range u u' w w' s s').1.0 h z r

  second-BothIn : at_most (compare_precision first second) ≡ true → BothIn second
  second-BothIn h z (inl r) = (compare_precision-range u u' w w' s s').0.0 h z r
  second-BothIn h z (inr r) = r

  transfer : (t' t : SssType) → joined t' ≡ joined t → BothIn t' → BothIn t
  transfer t' t e = let p : t' ≡ t = cc in subst BothIn p

  by_precision :
      (c : PrecisionCmp) (t : SssType)
      → (s ≡ true) ⊎ (s' ≡ false) ⊎ (bits_of w' ≤ bits_of w)
      → compare_precision first second ≡ c
      → ByPrecision c t
      → BothIn t
  unfolding join_incomparable
  by_precision equal t h e j = transfer first t j (first-BothIn (rw e))
  by_precision more t h e j = transfer first t j (first-BothIn (rw e))
  by_precision less t h e j = transfer second t j (second-BothIn (rw e))
  by_precision incomparable t h e j =
      let p : int_type none (bits_of w * 2) false ≡ t = ground arith in
      subst BothIn p (λ z r. doubled u u' w w' s s' z e h r)

  numeric_range :
      (t : SssType)
      → (s ≡ true) ⊎ (s' ≡ false) ⊎ (bits_of w' ≤ bits_of w)
      → join_numeric first second ≡ joined t
      → BothIn t
  unfolding join_numeric
  numeric_range t h e = by_precision (compare_precision first second) t h refl e

  -- Equal types have one range.
  same_range : w ≡ w' → s ≡ s' → BothIn first × BothIn second
  same_range p q = (
    λ z r. elim r [ inl a ↦ a | inr b ↦ rw (p, q) b ],
    λ z r. elim r [ inl a ↦ rw (← p, ← q) a | inr b ↦ b ],
  )

  join-BothIn :
      (t : SssType)
      → (s ≡ true) ⊎ (s' ≡ false) ⊎ (bits_of w' ≤ bits_of w)
      → join first second ≡ joined t
      → BothIn t
  unfolding join
  join-BothIn t h e = elim settle-first [
    | inl (p, q, inl f) ↦ transfer first t (rw (f, join) at e) (same_range p q).0
    | inl (p, q, inr f) ↦ transfer second t (rw (f, join) at e) (same_range p q).1
    | inr f ↦ numeric_range t h (rw (f, join) at e)
  ]

-- If `type_or_type` finds a type for two integer types of the four widths, this type holds every
-- integer of both, unless the first is signed and the second unsigned and wider.
pub type_or_type-holds :
    (u u' : Option Bytes) (w w' : Width) (s s' : Bool) (t : SssType)
    → (s ≡ true) ⊎ (s' ≡ false) ⊎ (bits_of w' ≤ bits_of w)
    → type_or_type (some (int_type u (bits_of w) s)) (some (int_type u' (bits_of w') s')) ≡ joined t
    → (z : ℤ) → InRange (bits_of w) s z ⊎ InRange (bits_of w') s' z
    → InType t z
unfolding type_or_type
type_or_type-holds u u' w w' s s' t h e z r = join-BothIn u u' w w' s s' t h e z r

-- For a signed integer type and a wider unsigned one, in this order, `type_or_type` finds the
-- signed type of twice the first width, and the greatest integer of the second type is not in it.
pub type_or_type_narrow :
    (u u' : Option Bytes) (w w' : Width)
    → bits_of w < bits_of w'
    → (type_or_type (some (int_type u (bits_of w) false)) (some (int_type u' (bits_of w') true))
        ≡ joined (int_type none (bits_of w * 2) false))
      × InRange (bits_of w') true (pos (2 ^ bits_of w' - 1))
      × ¬ InRange (bits_of w * 2) false (pos (2 ^ bits_of w' - 1))
unfolding type_or_type join settle type_is_a join_numeric compare_precision type_min_magnitude
    type_max_magnitude type_eq tag type_to_string type_to_cord str_eq decimal
type_or_type_narrow u u' w w' h = (ground arith, ground arith, ground arith)
