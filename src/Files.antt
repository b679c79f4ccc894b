-- ===== src/Files.antt =====
-- files.c: the lines of a loaded file, and the line of a position in it. A position is its distance
-- from the start of the text.
pub mod Position
use blangc.Prelude.Int.{ℤ, pos, negsuc}
use blangc.Prelude.{
  ℕ, zero, suc, ◌+◌, ◌-◌, ◌/◌, Bool, true, false, not, ◌&&◌, ◌||◌, ◌==◌, ltb, if◌then◌else◌, Option,
  none, some, List, [], ◌∷◌, length, get_elem?, Bytes,
}

-- `sss_line_t`
pub record Line : Type 0 where
  pub offset : ℕ
  pub indent : ℕ
  pub is_empty : Bool

-- The loop over the white space of a line, with the indentation so far; then the flag. A line ends
-- with a NUL.
unfoldable pub line_info : (offset indent : ℕ) → Bytes → Line
line_info offset indent [] = record { offset = offset; indent = indent; is_empty = true }
line_info offset indent (c ∷ p) =
    let space = line_info offset (indent + 1) p in
    let tab = line_info offset (indent + 4) p in
    if c == 32
    then space
    else if c == 9
    then tab
    else record { offset = offset; indent = indent; is_empty = not (c == 13) && not (c == 10) }

-- The loop of `_load_file` over the lines that `getline` returns.
unfoldable pub load_lines : (file_size : ℕ) → List Bytes → List Line
load_lines file_size [] = []
load_lines file_size (line ∷ rest) =
    line_info file_size 0 line ∷ load_lines (file_size + length line) rest

-- The binary search of `sss_get_line_number`; `above` is `hi + 1`.
unfoldable pub search : List Line → (offset fuel lo above : ℕ) → Option ℕ
search lines offset zero lo above = if ltb lo above then none else some lo
search lines offset (suc fuel) lo above =
    let mid = (lo + above - 1) / 2 in
    let right = search lines offset fuel (mid + 1) above in
    let left = search lines offset fuel lo mid in
    if ltb lo above
    then elim (get_elem? lines mid) [
      | none ↦ none
      | some line ↦
          if line.offset == offset
          then some (mid + 1)
          else if ltb line.offset offset
          then right
          else left
    ]
    else some lo

unfoldable pub get_line_number : List Line → ℤ → Option ℕ
get_line_number lines (negsuc n) = some 0
get_line_number lines (pos offset) = search lines offset (length lines) 0 (length lines)

unfoldable pub get_line : List Line → (line_number : ℕ) → Option ℕ
get_line lines zero = none
get_line lines (suc n) = elim (get_elem? lines n) [ none ↦ none | some line ↦ some line.offset ]

-- The line of a position, as `sss_get_line_column` and `sss_get_indent` read it.
unfoldable pub line_of : List Line → ℤ → Option Line
line_of lines p = elim (get_line_number lines p) [
  | none ↦ none
  | some zero ↦ none
  | some (suc n) ↦ get_elem? lines n
]

unfoldable pub get_indent : List Line → ℤ → Option ℕ
get_indent lines p = elim (line_of lines p) [ none ↦ none | some line ↦ some line.indent ]

unfoldable pub get_line_column : List Line → (offset : ℕ) → Option ℕ
get_line_column lines offset = elim (line_of lines (pos offset)) [
  | none ↦ none
  | some line ↦ some (1 + (offset - line.offset))
]
