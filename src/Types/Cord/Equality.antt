-- ===== src/Types/Cord/Equality.antt =====
-- `type_eq` of types.c, by tags and prints.
use blangc.Prelude.{◌≡◌, refl, ◌↔◌, true, str_eq_iff, arith}
use blangc.Types.Cord.{type_eq, type_to_string}
use blangc.Types.{SssType, tag}

type_eq_iff :
    (a b : SssType)
    → (type_eq a b ≡ true) ↔ ((tag a ≡ tag b) × (type_to_string a ≡ type_to_string b))
unfolding type_eq
type_eq_iff a b = (
  λ h. (ground arith, ground (arith, str_eq_iff (type_to_string a) (type_to_string b))),
  λ (p, q). ground (arith, str_eq_iff (type_to_string a) (type_to_string b)),
)

pub type_eq_refl : (a : SssType) → type_eq a a ≡ true
type_eq_refl a = (type_eq_iff a a).1 (refl, refl)
