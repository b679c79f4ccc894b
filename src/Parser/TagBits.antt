-- ===== src/Parser/TagBits.antt =====
-- The number of bits that `parse_enum_type` of parse.c takes for the values of tags.
use blangc.Parser.Enums.{get_tag_bits, wider}
use blangc.Prelude.Int.{ℤ, pos_part}
use blangc.Prelude.{ℕ, ◌≤◌, ◌≡◌, refl, ◌⊎◌, inl, List, [], ◌∷◌, arith, ltb, if◌then◌else◌}

-- A number of bits that an enumeration can have.
abbrev IsWidth : ℕ → Type 0
IsWidth bits = (bits ≡ 8) ⊎ (bits ≡ 16) ⊎ (bits ≡ 32) ⊎ (bits ≡ 64)

-- The largest value of a width, as a signed integer.
unfoldable pub max_value : ℕ → ℕ
max_value bits =
    if ltb bits 16
    then 127
    else if ltb bits 32
    then 32767
    else if ltb bits 64
    then 2147483647
    else 9223372036854775807

unfoldable pub AllBelow : ℕ → List ℤ → Type 0
AllBelow limit [] = Unit
AllBelow limit (value ∷ values) = (pos_part value ≤ limit) × AllBelow limit values

wider-IsWidth : (bits : ℕ) (value : ℤ) → IsWidth bits → IsWidth (wider bits value)
wider-IsWidth bits value h = ground arith

wider-grows : (bits : ℕ) (value : ℤ) → IsWidth bits → max_value bits ≤ max_value (wider bits value)
unfolding max_value
wider-grows bits value h = ground arith

wider-holds :
    (bits : ℕ) (value : ℤ)
    → IsWidth bits
    → pos_part value ≤ 9223372036854775807
    → pos_part value ≤ max_value (wider bits value)
unfolding max_value
wider-holds bits value h l = ground arith

get_tag_bits-bounds :
    (bits : ℕ) (values : List ℤ)
    → IsWidth bits
    → AllBelow 9223372036854775807 values
    → IsWidth (get_tag_bits bits values)
      × (max_value bits ≤ max_value (get_tag_bits bits values))
      × AllBelow (max_value (get_tag_bits bits values)) values
unfolding get_tag_bits AllBelow
get_tag_bits-bounds bits [] w h = (w, omega arith, tt)
get_tag_bits-bounds bits (value ∷ values) w (l, h) =
    let (width, grown, below) =
      get_tag_bits-bounds (wider bits value) values (wider-IsWidth bits value w) h in
    let first = wider-grows bits value w in
    let holds = wider-holds bits value w l in (width, omega arith, (omega arith, below))

-- The bits of an enumeration are 8, 16, 32 or 64, and hold each of its values that is not negative
-- as a signed integer, where the values are 64-bit integers.
pub get_tag_bits-holds :
    (values : List ℤ)
    → AllBelow 9223372036854775807 values
    → IsWidth (get_tag_bits 8 values) × AllBelow (max_value (get_tag_bits 8 values)) values
get_tag_bits-holds values h =
    let (width, grown, below) = get_tag_bits-bounds 8 values (inl refl) h in (width, below)
