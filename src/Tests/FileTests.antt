-- ===== src/Tests/FileTests.antt =====
-- Lines of a small file, and the theorem about positions in it.
use blangc.Files.Position.{Ascending, Begun, Ahead, get_line_number-counts}
use blangc.Files.{
  Line, line_info, load_lines, search, get_line_number, get_line, line_of, get_indent,
  get_line_column,
}
use blangc.Prelude.Int.{pos}
use blangc.Prelude.{
  ℕ, ◌≤◌, length, zero, suc, ◌≡◌, refl, true, false, some, List, [], ◌∷◌, codes, ◌++◌, arith,
}

file_code : Unit {0}
unfolding line_info load_lines search get_line_number get_line line_of get_indent get_line_column
file_code = tt

-- "ab", then a line that is indented, then an empty one.
abbrev text : List (List ℕ)
text = (codes "ab" ++ 10 ∷ []) ∷ (codes "  c" ++ 10 ∷ []) ∷ (10 ∷ []) ∷ []

abbrev lines : List Line
lines =
    record { offset = 0; indent = 0; is_empty = true }
    ∷ record { offset = 3; indent = 2; is_empty = true }
    ∷ record { offset = 7; indent = 0; is_empty = false }
    ∷ []

-- The flag `is_empty` is set on the lines that are not empty.
loaded : load_lines 0 text ≡ lines
unfolding file_code
loaded = refl

column : get_line_column lines 5 ≡ some 3
unfolding file_code
column = refl

lines-Ascending : Ascending lines
lines-Ascending zero zero a b l p q = ground (arith, l, p, q)
lines-Ascending zero (suc zero) a b l p q = ground (arith, l, p, q)
lines-Ascending zero (suc (suc zero)) a b l p q = ground (arith, l, p, q)
lines-Ascending zero (suc (suc (suc j))) a b l p q = ground (arith, l, p, q)
lines-Ascending (suc zero) zero a b l p q = ground (arith, l, p, q)
lines-Ascending (suc zero) (suc zero) a b l p q = ground (arith, l, p, q)
lines-Ascending (suc zero) (suc (suc zero)) a b l p q = ground (arith, l, p, q)
lines-Ascending (suc zero) (suc (suc (suc j))) a b l p q = ground (arith, l, p, q)
lines-Ascending (suc (suc i)) zero a b l p q = ground (arith, l, p, q)
lines-Ascending (suc (suc i)) (suc zero) a b l p q = ground (arith, l, p, q)
lines-Ascending (suc (suc i)) (suc (suc zero)) a b l p q = ground (arith, l, p, q)
lines-Ascending (suc (suc i)) (suc (suc (suc j))) a b l p q = ground (arith, l, p, q)

get_line_number-counts_example :
    (n : ℕ) × (get_line_number lines (pos 5) ≡ some n)
    × (n ≤ length lines)
    × Begun lines 5 n
    × Ahead lines 5 n
get_line_number-counts_example = get_line_number-counts lines 5 lines-Ascending
