-- ===== src/Parser/Forward/Steps.antt =====
-- The positions that the text-based primitives of parse.c leave.
use blangc.Parser.Forward.{
  IsSuffix, here, later, IsSuffix-trans, fixed, Ends, ends, no_node, error, Forward,
}
use blangc.Parser.Text.{
  some_of, some_not, comment, after, skip, whitespace, spaces, skip_spaces, skip_whitespace,
  matches, token, peek, position, expect_closing, member, moved, found, expected, from_option,
}
use blangc.Parser.Escapes.{octal_escape, hex_escape, unescape, unescapes}
use blangc.Prelude.{
  ℕ, zero, suc, Bool, true, false, ltb, ◌==◌, Option, none, some, [], ◌∷◌, Bytes, codes, length,
  drop, if◌then◌else◌,
}

-- A position that may be NULL.
pub data Reaches (start : Bytes) : Option Bytes → Type 0 where
  reaches : {rest : Bytes} → IsSuffix rest start → Reaches start (some rest)
  nowhere : Reaches start none

pub data Reads {ℓ} {A : Type ℓ} (start : Bytes) : Option (A × Bytes) → Type ℓ where
  reads : {a : A} {rest : Bytes} → IsSuffix rest start → Reads start (some (a, rest))
  unread : Reads start none

pub IsSuffix-if :
    (b : Bool) {x y p : Bytes} → IsSuffix x p → IsSuffix y p → IsSuffix (if b then x else y) p
IsSuffix-if true h k = h
IsSuffix-if false h k = k

pub Reaches-if :
    (b : Bool) {x y : Option Bytes} {p : Bytes}
    → Reaches p x
    → Reaches p y
    → Reaches p (if b then x else y)
Reaches-if true h k = h
Reaches-if false h k = k

pub some_of-IsSuffix : (set p : Bytes) → IsSuffix (some_of set p) p
unfolding some_of
some_of-IsSuffix set [] = here
some_of-IsSuffix set (c ∷ p) = IsSuffix-if (member c set) (later (some_of-IsSuffix set p)) here

pub some_not-IsSuffix : (set p : Bytes) → IsSuffix (some_not set p) p
unfolding some_not
some_not-IsSuffix set [] = here
some_not-IsSuffix set (c ∷ p) = IsSuffix-if (member c set) here (later (some_not-IsSuffix set p))

pub drop-IsSuffix : (n : ℕ) (p : Bytes) → IsSuffix (drop n p) p
drop-IsSuffix zero p = here
drop-IsSuffix (suc n) [] = here
drop-IsSuffix (suc n) (c ∷ p) = later (drop-IsSuffix n p)

pub Reads-if {ℓ} :
    {A : Type ℓ} (b : Bool) {x y : Option (A × Bytes)} {p : Bytes}
    → Reads p x
    → Reads p y
    → Reads p (if b then x else y)
Reads-if true h k = h
Reads-if false h k = k

pub Ends-option {ℓ} :
    {A : Type ℓ} {p : Bytes} (o : Option (A × Bytes)) → Reads p o → Ends p (from_option o)
Ends-option none h = no_node
Ends-option (some (a, rest)) (reads s) = ends s

Reaches-later : (c : ℕ) {p : Bytes} {o : Option Bytes} → Reaches p o → Reaches (c ∷ p) o
Reaches-later c (reaches s) = reaches (later s)
Reaches-later c nowhere = nowhere

pub Reaches-trans : {q p : Bytes} {o : Option Bytes} → IsSuffix q p → Reaches q o → Reaches p o
Reaches-trans s (reaches t) = reaches (IsSuffix-trans t s)
Reaches-trans s nowhere = nowhere

pub after-Reaches : (target p : Bytes) → Reaches p (after target p)
unfolding after
after-Reaches [] p = reaches here
after-Reaches (t ∷ ts) [] = nowhere
after-Reaches (t ∷ ts) (c ∷ p) = Reaches-if (t == c) (Reaches-later c (after-Reaches ts p)) nowhere

comment-Reaches : (p : Bytes) → Reaches p (comment p)
unfolding comment
comment-Reaches p = commented (after (codes "//") p) (after-Reaches (codes "//") p)
  where
    commented :
        {p : Bytes} (o : Option Bytes)
        → Reaches p o
        → Reaches p (elim o [ none ↦ none | some rest ↦ some (some_not (13 ∷ 10 ∷ []) rest) ])
    commented none h = nowhere
    commented (some rest) (reaches s) =
        reaches (IsSuffix-trans (some_not-IsSuffix (13 ∷ 10 ∷ []) rest) s)

skip-IsSuffix : (fuel : ℕ) (p : Bytes) → IsSuffix (skip fuel p) p
unfolding skip
skip-IsSuffix zero p = here
skip-IsSuffix (suc fuel) p =
    let blank = 32 ∷ 9 ∷ 13 ∷ 10 ∷ [] in
    skipped (ltb (length (some_of blank p)) (length p)) (comment p) (comment-Reaches p)
      (IsSuffix-trans (skip-IsSuffix fuel (some_of blank p)) (some_of-IsSuffix blank p))
      (λ rest. skip-IsSuffix fuel rest)
  where
    skipped :
        (b : Bool) (o : Option Bytes) {p q : Bytes} {f : Bytes → Bytes}
        → Reaches p o
        → IsSuffix q p
        → ((rest : Bytes) → IsSuffix (f rest) rest)
        → IsSuffix (elim b [ true ↦ q | false ↦ elim o [ none ↦ p | some rest ↦ f rest ] ]) p
    skipped true o r h k = h
    skipped false none r h k = here
    skipped false (some rest) (reaches s) h k = IsSuffix-trans (k rest) s

whitespace-IsSuffix : (p : Bytes) → IsSuffix (whitespace p) p
unfolding whitespace
whitespace-IsSuffix p = skip-IsSuffix (length p) p

pub skip_spaces-Forward : Forward skip_spaces skip_spaces
unfolding skip_spaces
skip_spaces-Forward = fixed λ p. ends (some_of-IsSuffix (32 ∷ 9 ∷ []) p)

pub skip_whitespace-Forward : Forward skip_whitespace skip_whitespace
unfolding skip_whitespace
skip_whitespace-Forward = fixed λ p. ends (whitespace-IsSuffix p)

pub Ends-moved : {p : Bytes} (o : Option Bytes) → Reaches p o → Ends p (moved o p)
Ends-moved none h = ends here
Ends-moved (some rest) (reaches s) = ends s

pub Ends-found : {p : Bytes} (o : Option Bytes) → Reaches p o → Ends p (found o)
Ends-found none h = no_node
Ends-found (some rest) (reaches s) = ends s

pub Ends-expected : {p : Bytes} (o : Option Bytes) → Reaches p o → Ends p (expected o)
Ends-expected none h = error
Ends-expected (some rest) (reaches s) = ends s

pub matches-Forward : (target : Bytes) → Forward (matches target) (matches target)
unfolding matches
matches-Forward target = fixed λ p. Ends-moved (after target p) (after-Reaches target p)

pub token-Forward : (target : Bytes) → Forward (token target) (token target)
unfolding token
token-Forward target = fixed λ p. Ends-found (after target p) (after-Reaches target p)

pub peek-Forward : Forward peek peek
unfolding peek
peek-Forward = fixed λ p. ends here

pub position-Forward : Forward position position
unfolding position
position-Forward = fixed λ p. ends here

pub after-spaces : (target p : Bytes) → Reaches p (after target (spaces p))
after-spaces target p =
    Reaches-trans (some_of-IsSuffix (32 ∷ 9 ∷ []) p) (after-Reaches target (spaces p))

pub expect_closing-Forward :
    (closing : Bytes) → Forward (expect_closing closing) (expect_closing closing)
unfolding expect_closing
expect_closing-Forward closing =
    fixed λ p. Ends-expected (after closing (spaces p)) (after-spaces closing p)

octal_escape-Reads : (c : ℕ) (p : Bytes) → Reads p (octal_escape c p)
unfolding octal_escape
octal_escape-Reads c [] = reads here
octal_escape-Reads c (d ∷ []) = reads here
octal_escape-Reads c (d ∷ e ∷ p) = Reads-if _ (reads (later (later here))) (reads here)

hex_escape-Reads : (c : ℕ) (p : Bytes) → Reads p (hex_escape c p)
unfolding hex_escape
hex_escape-Reads c [] = octal_escape-Reads c []
hex_escape-Reads c (d ∷ []) = octal_escape-Reads c (d ∷ [])
hex_escape-Reads c (d ∷ e ∷ p) =
    Reads-if (c == b'x') (reads (later (later here))) (octal_escape-Reads c (d ∷ e ∷ p))

pub unescape-Reads : (p : Bytes) → Reads p (unescape p)
unfolding unescape
unescape-Reads [] = unread
unescape-Reads (c ∷ p) = escaped (unescapes c) (hex_escape-Reads c p)
  where
    escaped :
        {p : Bytes} (o : Option ℕ) {e : Option (Bytes × Bytes)}
        → Reads p e
        → Reads (c ∷ p) (elim o [ some d ↦ some (d ∷ [], p) | none ↦ e ])
    escaped (some d) h = reads (later here)
    escaped none (reads s) = reads (later s)
    escaped none unread = unread
