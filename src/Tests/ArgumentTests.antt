-- ===== src/Tests/ArgumentTests.antt =====
-- Arguments of calls bound to parameters.
use blangc.Arguments.Binding.{Assigned, bind_arguments-Assigned}
use blangc.Arguments.Distinct.{count}
use blangc.Arguments.Unnamed.{numbers, unnamed, bind_arguments-unnamed}
use blangc.Arguments.{
  bound, unknown_name, out_of_range, bind_arguments, bind_loop, with_defaults, stored, fill_infos,
  defaults, has_position, position_of, next_position, skips, is_keyword, no_keywords, drop_names,
  prepend,
}
use blangc.Prelude.{
  ℕ, ◌<◌, ◌≡◌, refl, Option, none, some, List, [], ◌∷◌, ◌++◌, arith, Bytes, codes, length, str_eq,
}

arguments_code : Unit {0}
unfolding bind_arguments bind_loop with_defaults stored fill_infos defaults has_position position_of
    next_position skips is_keyword no_keywords drop_names prepend str_eq
arguments_code = tt

abbrev names : List (Option Bytes)
names = some (codes "a") ∷ some (codes "b") ∷ some (codes "c") ∷ []

-- `f(c=1, 2)`
abbrev args : List (Option Bytes)
args = some (codes "c") ∷ none ∷ []

abbrev positions : List ℕ
positions = 2 ∷ 0 ∷ 1 ∷ []

keyword_first : bind_arguments names args ≡ bound positions
unfolding arguments_code
keyword_first = refl

-- `f(a=1, 2)` skips the parameter that is given by name.
skipped : bind_arguments names (some (codes "a") ∷ none ∷ []) ≡ bound (0 ∷ 1 ∷ 2 ∷ [])
unfolding arguments_code
skipped = refl

unknown : bind_arguments names (some (codes "x") ∷ []) ≡ unknown_name
unfolding arguments_code
unknown = refl

-- A name given twice overruns `arg_infos`.
twice : bind_arguments names (some (codes "a") ∷ some (codes "a") ∷ []) ≡ out_of_range
unfolding arguments_code
twice = refl

bind_arguments-Assigned_example :
    (used : List ℕ) × (rest : List ℕ) × (positions ≡ used ++ rest)
    × Assigned args names 0 args used
    × (length positions ≡ length names)
    × ((i : ℕ) → i < length names → count i positions ≡ 1)
bind_arguments-Assigned_example = bind_arguments-Assigned names args positions keyword_first

bind_arguments-unnamed_example : bind_arguments names (unnamed 2) ≡ bound (numbers 0 3)
bind_arguments-unnamed_example = bind_arguments-unnamed names 2 (omega arith)
