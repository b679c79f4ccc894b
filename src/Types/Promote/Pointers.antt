-- ===== src/Types/Promote/Pointers.antt =====
-- `can_promote` on pointers, and beside it `type_is_a`.
use blangc.Prelude.{
  ◌≡◌, ◌⊎◌, inl, inr, Bool, true, false, Bool-cases, ◌&&◌, not, streq, str_eq, arith,
}
use blangc.Types.Cord.{type_eq, type_to_string, type_to_cord}
use blangc.Types.Cord.Equality.{type_eq_refl}
use blangc.Types.Promote.{can_promote, promote_early, promote_pointer}
use blangc.Types.Precision.{is_numeric}
use blangc.Types.Relations.{type_is_a}
use blangc.Types.Units.{type_units}
use blangc.Types.{SssType, pointer_type, base_variant, tag}

module _ (t n : SssType) (t_optional t_stack t_readonly n_optional n_stack n_readonly : Bool) where
  abbrev actual : SssType
  actual = pointer_type t t_optional t_stack t_readonly

  abbrev needed : SssType
  needed = pointer_type n n_optional n_stack n_readonly

  -- Equal prints begin with the same sigil.
  sigils :
      type_eq actual needed ≡ true
      → (t_stack ≡ n_stack) × ((t_stack ≡ true) ⊎ (t_optional ≡ n_optional))
  unfolding type_eq tag type_to_string type_to_cord str_eq
  sigils h = (ground arith, ground arith)

  promoted :
      type_eq actual needed ≡ false
      → can_promote actual needed ≡ true
      → (t_stack && not n_stack ≡ false)
        × (t_optional && not n_optional ≡ false)
        × (t_readonly && not n_readonly ≡ false)
  unfolding can_promote promote_early promote_pointer is_numeric base_variant
  promoted e h = elim (Bool-cases (streq (type_units actual) (type_units needed))) [
    | inl u ↦ ground arith
    | inr u ↦ ground arith
  ]

-- A pointer that may be promoted to another pointer type never leaves the stack, and is never
-- optional where the other is not, unless it points to the stack; nor does it lose its protection
-- against writes, unless `type_eq` takes the types for equal.
pub can_promote_pointer :
    (t n : SssType) (t_optional t_stack t_readonly n_optional n_stack n_readonly : Bool)
    → can_promote
        (pointer_type t t_optional t_stack t_readonly)
        (pointer_type n n_optional n_stack n_readonly)
      ≡ true
    → ((t_stack && not n_stack) ≡ false)
      × ((t_optional && not n_optional && not t_stack) ≡ false)
      × ((type_eq
              (pointer_type t t_optional t_stack t_readonly)
              (pointer_type n n_optional n_stack n_readonly)
            ≡ true)
          ⊎ ((t_readonly && not n_readonly) ≡ false))
can_promote_pointer t n a b c d e f h =
    elim (Bool-cases (type_eq (pointer_type t a b c) (pointer_type n d e f))) [
      | inl same ↦
          let (p, q) = sigils t n a b c d e f same in (ground arith, ground arith, inl same)
      | inr differ ↦ let (p, q, r) = promoted t n a b c d e f differ h in (p, ground arith, inr r)
    ]

-- `type_is_a` takes a read-only pointer for a writable optional pointer to the same type, which
-- `can_promote` refuses.
pub type_is_a_drops_readonly :
    (t : SssType)
    → (type_is_a (pointer_type t false false true) (pointer_type t true false false) ≡ true)
      × (can_promote (pointer_type t false false true) (pointer_type t true false false) ≡ false)
unfolding type_is_a can_promote promote_early promote_pointer type_eq tag type_to_string
    type_to_cord str_eq is_numeric base_variant
type_is_a_drops_readonly t = (ground (arith, type_eq_refl t), ground arith)
