-- ===== src/Tests/SpellingTests.antt =====
-- Misspelt words, and the theorems about distances on them.
use blangc.Prelude.{◌≡◌, refl, some, List, [], ◌∷◌, Bytes, codes, arith}
use blangc.Spelling.Closest.{IsBest, spellcheck-closest}
use blangc.Spelling.Distance.{levenshtein, onto, word_distance-levenshtein}
use blangc.Spelling.{
  min3, row, rows, count_up, last_cell, word_distance, closer, search_names, search_namespaces,
  suggest, spellcheck,
}

spelling_code : Unit {0}
unfolding min3 row rows count_up last_cell word_distance closer search_names search_namespaces
    suggest spellcheck levenshtein
spelling_code = tt

kitten : word_distance 9 (codes "kitten") (codes "sitting") ≡ 3
unfolding spelling_code
kitten = refl

abbrev namespaces : List (List Bytes)
namespaces = (codes "say" ∷ codes "length" ∷ []) ∷ (codes "sqrt" ∷ []) ∷ []

suggestion : spellcheck 9 namespaces (codes "lenght") ≡ some (codes "length")
unfolding spelling_code
suggestion = refl

word_distance-levenshtein_example :
    word_distance 9 (codes "ab") (codes "cab")
    ≡ levenshtein (onto [] (codes "ab")) (onto [] (codes "cab"))
word_distance-levenshtein_example =
    word_distance-levenshtein 9 (codes "ab") (codes "cab") (omega arith)

spellcheck-closest_example :
    IsBest 9 namespaces (codes "lenght") (spellcheck 9 namespaces (codes "lenght"))
spellcheck-closest_example = spellcheck-closest 9 namespaces (codes "lenght")
