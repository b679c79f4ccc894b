-- ===== src/Parser/Forward/Literals.antt =====
-- The positions that the parsers of literals of parse.c leave.
use blangc.Parser.{Context}
use blangc.Parser.Forward.{
  IsSuffix, here, later, IsSuffix-trans, fixed, Ends, ends, no_node, fault, Forward,
}
use blangc.Parser.Forward.Steps.{
  Reads, reads, unread, Reaches, reaches, nowhere, some_of-IsSuffix, drop-IsSuffix, unescape-Reads,
  IsSuffix-if, Reaches-if, Reaches-trans,
}
use blangc.Parser.Forward.Words.{text_steps}
use blangc.Parser.Literals.{
  scanned, based, magnitude, suffixed, bracketed_units, match_units, int_with_suffix, parse_int,
  num_end, num_digits, parse_num, parse_bool, parse_var, parse_wildcard, parse_char, units_of,
  digits_until, exponent_end, first_char, digits,
}
use blangc.Parser.Node.{char_}
use blangc.Parser.Outcome.{Result, bind, pure}
use blangc.Parser.Text
use blangc.Parser.Text.{some_of, after}
use blangc.Prelude.{
  ℕ, Bool, true, false, ◌==◌, ◌||◌, Option, none, some, List, [], ◌∷◌, Bytes, codes, drop,
  if◌then◌else◌,
}
use blangc.Prelude.Int.{ℤ}

pub scanned-Forward : (set : Bytes) → Forward (scanned set) (scanned set)
unfolding scanned
scanned-Forward set = fixed λ p. ends (some_of-IsSuffix set p)

based-Forward : (base : ℕ) (set : Bytes) → Forward (based base set) (based base set)
unfolding based
based-Forward base set = search (text_steps, scanned-Forward) depth 20 fits 3000

magnitude-Forward : Forward magnitude magnitude
unfolding magnitude
magnitude-Forward = search (text_steps, based-Forward) depth 20 fits 3000

suffixed-Forward : (list : List (Bytes × ℕ × Bool)) → Forward (suffixed list) (suffixed list)
unfolding suffixed
suffixed-Forward [] = search text_steps
suffixed-Forward ((suffix, precision, is_unsigned) ∷ more) =
    let rest = suffixed-Forward more in search text_steps depth 20 fits 3000

module _ (ctx : Context) where
  units_of-Forward : (o : Option (Option Bytes)) → Forward (units_of ctx o) (units_of ctx o)
  units_of-Forward none = fixed λ p. fault
  units_of-Forward (some units) = fixed λ p. ends here

  pub match_units-Forward : Forward (match_units ctx) (match_units ctx)
  unfolding match_units bracketed_units
  match_units-Forward = search (text_steps, scanned-Forward, units_of-Forward) depth 20 fits 3000

  int_with_suffix-Forward : (i : ℤ) → Forward (int_with_suffix ctx i) (int_with_suffix ctx i)
  unfolding int_with_suffix
  int_with_suffix-Forward i =
      search (text_steps, suffixed-Forward, match_units-Forward) depth 20 fits 3000

  pub parse_int-Forward : Forward (parse_int ctx) (parse_int ctx)
  unfolding parse_int
  parse_int-Forward =
      search (text_steps, magnitude-Forward, int_with_suffix-Forward) depth 30 fits 3000

  exponent_end-IsSuffix : (p : Bytes) → IsSuffix (exponent_end ctx p) p
  exponent_end-IsSuffix p =
      IsSuffix-if _
        (IsSuffix-trans (some_of-IsSuffix (codes "-0123456789_") (drop 1 p)) (drop-IsSuffix 1 p))
        here

  num_end-Reaches : (p : Bytes) → Reaches p (num_end ctx p)
  unfolding num_end
  num_end-Reaches p = Reaches-trans (some_of-IsSuffix (codes "0123456789_") p) (
      ranged (some_of (codes "0123456789_") p)
        (after (codes "..") (some_of (codes "0123456789_") p)))
    where
      ranged :
          (rest : Bytes) (o : Option Bytes)
          → Reaches rest (elim o [
            | some q ↦ none
            | none ↦
                if Text.here rest == b'.'
                then some (exponent_end ctx (some_of digits (drop 1 rest)))
                else if Text.here rest == b'e' || Text.here rest == b'f' || Text.here rest == b'%'
                then some (exponent_end ctx rest)
                else none
          ])
      ranged rest (some q) = nowhere
      ranged rest none =
          Reaches-if _
            (reaches (
              IsSuffix-trans (exponent_end-IsSuffix (some_of digits (drop 1 rest)))
                (IsSuffix-trans (some_of-IsSuffix digits (drop 1 rest)) (drop-IsSuffix 1 rest))))
            (Reaches-if _ (reaches (exponent_end-IsSuffix rest)) nowhere)

  Ends-digits_until : {p : Bytes} (o : Option Bytes) → Reaches p o → Ends p (digits_until ctx o p)
  Ends-digits_until none h = no_node
  Ends-digits_until (some rest) (reaches s) = ends s

  num_digits-Forward : Forward (num_digits ctx) (num_digits ctx)
  unfolding num_digits
  num_digits-Forward = fixed λ p. Ends-digits_until (num_end ctx p) (num_end-Reaches p)

  pub parse_num-Forward : Forward (parse_num ctx) (parse_num ctx)
  unfolding parse_num
  parse_num-Forward =
      search (text_steps, num_digits-Forward, suffixed-Forward, match_units-Forward) depth 30 fits
        3000

  pub parse_bool-Forward : Forward (parse_bool ctx) (parse_bool ctx)
  unfolding parse_bool
  parse_bool-Forward = search text_steps depth 20 fits 3000

  pub parse_var-Forward : Forward (parse_var ctx) (parse_var ctx)
  unfolding parse_var
  parse_var-Forward = search text_steps

  pub parse_wildcard-Forward : Forward (parse_wildcard ctx) (parse_wildcard ctx)
  unfolding parse_wildcard
  parse_wildcard-Forward = search text_steps depth 20 fits 3000

Ends-char :
    {p : Bytes} (c : ℕ) {o : Option (Bytes × Bytes)}
    → Reads p o
    → Ends (c ∷ p) (bind (first_char o) (λ e. pure (char_ e)))
unfolding pure
Ends-char c unread = fault
Ends-char c (reads s) = ends (later s)

Ends-if {ℓ} :
    {A : Type ℓ} {p : Bytes} (b : Bool) {x y : Result A}
    → Ends p x
    → Ends p y
    → Ends p (if b then x else y)
Ends-if true h k = h
Ends-if false h k = k

Ends-parse_char : (p : Bytes) → Ends p (parse_char p)
unfolding parse_char
Ends-parse_char [] = no_node
Ends-parse_char (c ∷ []) = Ends-if _ fault no_node
Ends-parse_char (c ∷ d ∷ p) =
    Ends-if (c == b'`') (ends (later (later here)))
      (Ends-if _ (Ends-char c (unescape-Reads (d ∷ p))) no_node)

pub parse_char-Forward : Forward parse_char parse_char
parse_char-Forward = fixed Ends-parse_char
