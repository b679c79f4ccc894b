-- ===== src/Tests/ListTests.antt =====
-- Growing lists at work, and the theorems about them on those lists.
use blangc.Lists.Contents.{Contains, list_append-Contains, list_remove-Contains}
use blangc.Lists.{GrowingList, done, bad_index, list_append, list_remove}
use blangc.Prelude.Int.{pos}
use blangc.Prelude.{ℕ, ◌≡◌, refl, some, List, [], ◌∷◌, arith}

-- Two items in an allocation of two, and the list of the second one alone.
abbrev two : GrowingList ℕ
two = record { items = 5 ∷ 6 ∷ []; len = 2; slack = 0 }

two-Contains : Contains two (5 ∷ 6 ∷ []) []
two-Contains = record { items = refl; len = refl; slack = omega arith }

list_append-Contains_example :
    (r : GrowingList ℕ) × (rest : List ℕ) × (list_append 0 two 7 ≡ some r)
    × Contains r (5 ∷ 6 ∷ 7 ∷ []) rest
list_append-Contains_example = list_append-Contains 0 two (5 ∷ 6 ∷ []) [] 7 two-Contains

list_remove-Contains_example :
    (r : GrowingList ℕ) × (rest : List ℕ) × (list_remove two (pos 0) (pos 1) ≡ done r)
    × Contains r (6 ∷ []) rest
list_remove-Contains_example =
    list_remove-Contains two [] (5 ∷ []) (6 ∷ []) [] two-Contains (omega arith)

removed_too_many : list_remove two (pos 1) (pos 2) ≡ bad_index
unfolding list_remove
removed_too_many = refl
