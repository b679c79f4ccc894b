-- ===== src/Types/Relations.antt =====
-- The relations between types in types.c: `type_is_a`, and `type_or_type`, the type of a value
-- that comes from either of two places.
pub mod Join
use blangc.Prelude.{◌*◌, Bool, true, false, not, ◌&&◌, ◌||◌, Option, none, some, ltb, if◌then◌else◌}
use blangc.Types.Cord.{type_eq}
use blangc.Types.Precision.{compare_precision, equal, less, more, incomparable}
use blangc.Types.{SssType, abort_type, int_type, num_type, pointer_type, generator_type}

-- `type_is_a` of two pointer types whose pointed types are equal.
pointer_is_a : SssType → SssType → Bool
pointer_is_a (pointer_type t t_optional t_stack t_readonly)
      (pointer_type r r_optional r_stack r_readonly) =
    type_eq t r && (not t_stack && not t_optional && r_stack || not t_stack && r_optional)
pointer_is_a _ _ = false

unfoldable pub type_is_a : SssType → SssType → Bool
unfolding pointer_is_a
type_is_a t req = if type_eq t req then true else pointer_is_a t req

unfoldable pub non_optional : SssType → SssType
non_optional (pointer_type t is_optional is_stack is_readonly) =
    if is_optional
    then pointer_type t false false false
    else pointer_type t is_optional is_stack is_readonly
non_optional t = t

unfoldable pub is_abort : SssType → Bool
is_abort abort_type = true
is_abort _ = false

unfoldable pub is_int_or_num : SssType → Bool
is_int_or_num (int_type units bits is_unsigned) = true
is_int_or_num (num_type units bits) = true
is_int_or_num _ = false

-- What `type_or_type` returns: a type, NULL, or a new generator type around such a pointer that is
-- no type.
pub data Joined : Type 0 where
  joined : SssType → Joined
  null : Joined
  generator_of : Joined → Joined

unfoldable pub make_generator : Joined → Joined
make_generator (joined t) = joined (generator_type t)
make_generator j = generator_of j

-- The case NUM_PRECISION_INCOMPARABLE.
unfoldable pub join_incomparable : SssType → SssType → Joined
join_incomparable (int_type units bits is_unsigned) (int_type units' bits' is_unsigned') =
    if ltb bits 64 then joined (int_type none (bits * 2) false) else null
join_incomparable _ _ = null

unfoldable pub join_numeric : SssType → SssType → Joined
unfolding is_int_or_num join_incomparable
join_numeric a b =
    if is_int_or_num a && is_int_or_num b
    then elim (compare_precision a b) [
      | equal ↦ joined a
      | more ↦ joined a
      | less ↦ joined b
      | incomparable ↦ join_incomparable a b
    ]
    else null

-- The tests before the cases of generators.
unfoldable pub settle : SssType → SssType → Option SssType
unfolding is_abort
settle a b =
    if type_is_a b a
    then some a
    else if type_is_a a b
    then some b
    else if is_abort a
    then some (non_optional b)
    else if is_abort b
    then some (non_optional a)
    else none

-- `type_or_type` of two types.
unfoldable pub join : SssType → SssType → Joined
join (generator_type a) b =
    let rest = make_generator (join a b) in
    elim (settle (generator_type a) b) [ some t ↦ joined t | none ↦ rest ]
join a (generator_type b) =
    let rest = make_generator (join a b) in
    elim (settle a (generator_type b)) [ some t ↦ joined t | none ↦ rest ]
join a b = elim (settle a b) [ some t ↦ joined t | none ↦ join_numeric a b ]

or_null : Option SssType → Joined
or_null none = null
or_null (some t) = joined t

-- The arguments may be NULL.
unfoldable pub type_or_type : Option SssType → Option SssType → Joined
unfolding or_null
type_or_type none b = or_null b
type_or_type (some a) none = joined a
type_or_type (some a) (some b) = join a b
