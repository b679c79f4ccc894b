-- ===== src/Tests/StringTests.antt =====
-- Strings at work, and the theorems about them on those strings.
use blangc.Prelude.Int.{pos, negsuc, ◌+ℤ◌, ◌*ℤ◌}
use blangc.Prelude.{
  ◌∷◌, [], ◌++◌, ℕ, suc, ◌+◌, ◌-◌, ◌<◌, ◌≡◌, refl, true, ◌&&◌, ◌||◌, leb, none, some, codes,
  get_elem?, arith, if◌then◌else◌,
}
use blangc.Slice.{fresh, item, items, items_from, ◌>>=◌}
use blangc.Strings.Laws.{find_one_character}
use blangc.Strings.Parts.{ends_with_lem, without_prefix-items}
use blangc.Strings.{
  Str, CType, map_loop, made, uppercased, lowercased, capitalize_loop, capitalized, title_char,
  titlecase_loop, titlecased, match_loop, starts_with, ends_with, advance, substring,
  without_prefix, without_suffix, is_trimmed, trim_left_loop, trim_right_loop, trimmed, flatten,
  find_at, find_loop, find, from_c_string, c_string, is_terminated,
}

string_code : Unit {0}
unfolding item items items_from map_loop made uppercased lowercased capitalize_loop capitalized
    title_char titlecase_loop titlecased match_loop starts_with ends_with advance substring
    without_prefix without_suffix is_trimmed trim_left_loop trim_right_loop trimmed flatten find_at
    find_loop find from_c_string ◌+ℤ◌ ◌*ℤ◌
string_code = tt

-- The C locale.
abbrev ascii : CType
ascii = record {
  to_upper = λ c. if leb 97 c && leb c 122 then c - 32 else c;
  to_lower = λ c. if leb 65 c && leb c 90 then c + 32 else c;
  is_alpha = λ c. (leb 97 c && leb c 122) || (leb 65 c && leb c 90);
}

-- "cba" read backwards.
abbrev backwards : Str
backwards = record { memory = codes "cba"; start = 2; length = 3; stride = negsuc 0; free = pos 0 }

upper : uppercased ascii backwards ≡ some (fresh (codes "ABC"))
unfolding string_code
upper = refl

ends_with_lem_example : ends_with backwards (fresh (codes "bc")) ≡ some true
unfolding string_code
ends_with_lem_example =
    ends_with_lem backwards (fresh (codes "bc")) (codes "abc") (codes "bc") refl refl

-- What is left of `backwards` behind "a".
abbrev behind : Str
behind = record { memory = codes "cba"; start = 1; length = 2; stride = negsuc 0; free = pos 0 }

without_prefix-items_example : items behind ≡ some (codes "bc")
unfolding string_code
without_prefix-items_example =
    without_prefix-items backwards (fresh (codes "a")) behind (codes "abc") (codes "a") refl refl
      refl

find_one_character_example :
    (i x : ℕ) × (2 ≡ suc i)
    × (item (fresh (codes "abc")) i ≡ some x)
    × ((k : ℕ) → k < 2 → get_elem? (codes "bb") k ≡ some x)
unfolding string_code
find_one_character_example =
    find_one_character (fresh (codes "abc")) (fresh (codes "bb")) (codes "bb") 2 refl (omega arith)
      refl

-- A pattern that stands in the string, and is not found.
find_misses : find (fresh (codes "abc")) (fresh (codes "bc")) ≡ some none
unfolding string_code
find_misses = refl

trimmed_both :
    (trimmed (fresh (codes "  a b ")) (fresh (codes " ")) true true >>= items) ≡ some (codes "a b")
unfolding string_code
trimmed_both = refl

capitalized_one : (capitalized ascii (fresh (codes "1ab")) >>= items) ≡ some (codes "1Ab")
unfolding string_code
capitalized_one = refl

-- The byte that `from_c_string` writes behind its buffer.
from_c_string_overflow : from_c_string (some (codes "a")) ≡ none
unfolding string_code
from_c_string_overflow = refl

-- The NUL is looked for one byte too far, so that "abx" is passed for the string "ab".
c_string_unterminated :
    c_string 8 (record {
      memory = codes "abx" ++ 0 ∷ [];
      start = 0;
      length = 2;
      stride = pos 1;
      free = pos 0;
    })
    ≡ some (codes "abx" ++ 0 ∷ [])
unfolding c_string is_terminated items items_from item ◌+ℤ◌ ◌*ℤ◌
c_string_unterminated = refl
