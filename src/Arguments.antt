-- ===== src/Arguments.antt =====
-- args.c: which parameter each argument of a call is for. An argument is the name that it is given
-- with, or `none`; what it stands for is the caller's. The list of parameter names is not NULL.
pub mod Distinct
pub mod Binding
pub mod Unnamed
use blangc.Prelude.{
  ℕ, zero, suc, ◌+◌, ◌-◌, Bool, true, false, ◌==◌, ltb, if◌then◌else◌, Option, none, some, List, [],
  ◌∷◌, ◌++◌, Bytes, str_eq, length,
}

-- The positions of the arguments in order, a call of `compiler_err`, or a fault (a list read or
-- written out of range, or a hash of NULL).
pub data Bound (A : Type 0) : Type 0 where
  bound : A → Bound A
  unknown_name : Bound A
  out_of_range : Bound A

-- `arg_positions`: the last parameter of the name, from number `i` on.
unfoldable pub position_of : (names : List (Option Bytes)) → (i : ℕ) → Bytes → Option ℕ
position_of [] i name = none
position_of (none ∷ names) i name = position_of names (i + 1) name
position_of (some n ∷ names) i name = elim (position_of names (i + 1) name) [
  | some j ↦ some j
  | none ↦ if str_eq n name then some i else none
]

-- Whether `kwargs` has the name.
unfoldable pub is_keyword : (args : List (Option Bytes)) → Bytes → Bool
is_keyword [] name = false
is_keyword (none ∷ args) name = is_keyword args name
is_keyword (some k ∷ args) name =
    let rest = is_keyword args name in if str_eq k name then true else rest

unfoldable pub no_keywords : List (Option Bytes) → Bool
no_keywords [] = true
no_keywords (none ∷ args) = no_keywords args
no_keywords (some k ∷ args) = false

-- Whether the loop over parameters that are given by name skips this one; an empty table answers
-- without a hash of the name.
unfoldable pub skips : (all : List (Option Bytes)) → (name : Option Bytes) → Option Bool
skips all none = if no_keywords all then some false else none
skips all (some name) = some (is_keyword all name)

-- The parameter for the next argument without a name, from number `next` on, which is the first one
-- of `names`.
unfoldable pub next_position : (all names : List (Option Bytes)) → (next : ℕ) → Option ℕ
unfolding skips
next_position all [] next = none
next_position all (name ∷ names) next = elim (skips all name) [
  | none ↦ none
  | some true ↦ next_position all names (next + 1)
  | some false ↦ some next
]

unfoldable pub drop_names : ℕ → List (Option Bytes) → List (Option Bytes)
drop_names zero names = names
drop_names (suc n) [] = []
drop_names (suc n) (name ∷ names) = drop_names n names

unfoldable pub prepend : ℕ → Bound (List ℕ) → Bound (List ℕ)
prepend p (bound ps) = bound (p ∷ ps)
prepend p unknown_name = unknown_name
prepend p out_of_range = out_of_range

-- The loop over the arguments; `next` is `next_spec_arg`.
unfoldable pub bind_loop : (all names args : List (Option Bytes)) → (next : ℕ) → Bound (List ℕ)
bind_loop all names [] next = bound []
bind_loop all names (some name ∷ args) next =
    let rest = bind_loop all names args next in
    elim (position_of names 0 name) [ none ↦ unknown_name | some p ↦ prepend p rest ]
bind_loop all names (none ∷ args) next = elim (next_position all (drop_names next names) next) [
  | none ↦ out_of_range
  | some p ↦ prepend p (bind_loop all names args (p + 1))
]

-- The parameters that no argument is for, from number `i` on.
unfoldable pub has_position : List ℕ → ℕ → Bool
has_position [] i = false
has_position (p ∷ ps) i = let rest = has_position ps i in if p == i then true else rest

unfoldable pub defaults : (names : List (Option Bytes)) → (i : ℕ) → (used : List ℕ) → List ℕ
defaults [] i used = []
defaults (name ∷ names) i used =
    let rest = defaults names (i + 1) used in if has_position used i then rest else i ∷ rest

-- The writes to `arg_infos[next_arg++]` in order, in an array with room for so many.
unfoldable pub stored : (room : ℕ) → List ℕ → Bound (List ℕ)
stored room [] = bound []
stored zero (p ∷ ps) = out_of_range
stored (suc room) (p ∷ ps) = prepend p (stored room ps)

-- All arguments with the parameters left for defaults behind them; `arg_infos` has room for as many
-- as there are parameters.
unfoldable pub fill_infos : (names : List (Option Bytes)) → List ℕ → Bound (List ℕ)
unfolding stored
fill_infos names used = stored (length names) (used ++ defaults names 0 used)

unfoldable pub with_defaults : (names : List (Option Bytes)) → Bound (List ℕ) → Bound (List ℕ)
unfolding fill_infos
with_defaults names (bound used) = fill_infos names used
with_defaults names unknown_name = unknown_name
with_defaults names out_of_range = out_of_range

-- `bind_arguments`: the `position`s of its result.
unfoldable pub bind_arguments : (names args : List (Option Bytes)) → Bound (List ℕ)
unfolding with_defaults
bind_arguments names args = with_defaults names (bind_loop args names args 0)
