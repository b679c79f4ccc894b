-- ===== src/Parser/Forward.antt =====
-- The positions that the parsers of parse.c leave, and two parsers of different depth side by side.
pub mod Steps
pub mod Words
pub mod Literals
pub mod Grammar
pub mod Suffixes
pub mod Operators
pub mod Params
pub mod Enums
pub mod TypeGrammar
pub mod Quoted
pub mod Containers
pub mod Terms
pub mod Control
pub mod Expressions
pub mod Declarations
pub mod Definitions
pub mod Statements
use blangc.Parser.Outcome.{
  Result, ok, absent, failed, stuck, Parser, Step, pure, null, parser_err, ◌>>=◌, ◌>>◌, ◌<|>◌,
  optionally, required, either_of, with_option, null_if, error_if, assert, rounds, out_of_rounds,
  item_loop, items, suffix_loop, suffixes, bind, or_else, optional_result,
}
use blangc.Prelude.{
  ℕ, zero, suc, Bool, true, false, Option, none, some, List, [], ◌∷◌, Bytes, length,
}

pub data IsSuffix : Bytes → Bytes → Type 0 where
  here : {p : Bytes} → IsSuffix p p
  later : {c : ℕ} {q p : Bytes} → IsSuffix q p → IsSuffix q (c ∷ p)

pub IsSuffix-trans : {r q p : Bytes} → IsSuffix r q → IsSuffix q p → IsSuffix r p
IsSuffix-trans h here = h
IsSuffix-trans h (later k) = later (IsSuffix-trans h k)

-- A result from a position: where there is a value, the position behind it is not before that one.
pub data Ends {ℓ} {A : Type ℓ} (start : Bytes) : Result A → Type ℓ where
  ends : {a : A} {rest : Bytes} → IsSuffix rest start → Ends start (ok a rest)
  no_node : Ends start absent
  error : Ends start failed
  fault : Ends start stuck

-- Two results from a position: the first is no further than a fault, or both are the same.
pub data Agree {ℓ} {A : Type ℓ} (start : Bytes) : Result A → Result A → Type ℓ where
  same : {r : Result A} → Ends start r → Agree start r r
  unknown : {r : Result A} → Agree start stuck r

pub record Forward {ℓ} {A : Type ℓ} (p q : Parser A) : Type ℓ where
  pub at : (start : Bytes) → Agree start (p start) (q start)

pub fixed {ℓ} : {A : Type ℓ} {p : Parser A} → ((start : Bytes) → Ends start (p start)) → Forward p p
fixed h = record { at = λ start. same (h start) }

module _ {ℓ} {A : Type ℓ} where
  Ends-later :
      {start rest : Bytes} {r : Result A} → IsSuffix rest start → Ends rest r → Ends start r
  Ends-later s (ends t) = ends (IsSuffix-trans t s)
  Ends-later s no_node = no_node
  Ends-later s error = error
  Ends-later s fault = fault

  Agree-later :
      {start rest : Bytes} {r t : Result A} → IsSuffix rest start → Agree rest r t → Agree start r t
  Agree-later s (same e) = same (Ends-later s e)
  Agree-later s unknown = unknown

module _ {ℓ κ} {A : Type ℓ} {B : Type κ} where
  Agree-bind :
      {start : Bytes} {r t : Result A} {f k : A → Parser B}
      → Agree start r t
      → ((a : A) → Forward (f a) (k a))
      → Agree start (bind r f) (bind t k)
  Agree-bind (same (ends {a} {rest} s)) h = Agree-later s ((h a).at rest)
  Agree-bind (same no_node) h = same no_node
  Agree-bind (same error) h = same error
  Agree-bind (same fault) h = unknown
  Agree-bind unknown h = unknown

  pub >>=-Forward :
      {p q : Parser A} {f k : A → Parser B}
      → Forward p q
      → ((a : A) → Forward (f a) (k a))
      → Forward (p >>= f) (q >>= k)
  unfolding ◌>>=◌
  >>=-Forward h i = record { at = λ start. Agree-bind (h.at start) i }

  pub >>-Forward :
      {p q : Parser A} {r s : Parser B} → Forward p q → Forward r s → Forward (p >> r) (q >> s)
  unfolding ◌>>◌
  >>-Forward h i = record { at = λ start. Agree-bind (h.at start) (λ _. i) }

module _ {ℓ} {A : Type ℓ} where
  pub pure-Forward : (a : A) → Forward (pure a) (pure a)
  unfolding pure
  pure-Forward a = fixed λ start. ends here

  pub null-Forward : Forward (null {A = A}) null
  unfolding null
  null-Forward = fixed λ start. no_node

  pub parser_err-Forward : Forward (parser_err {A = A}) parser_err
  unfolding parser_err
  parser_err-Forward = fixed λ start. error

  pub out_of_rounds-Forward : {p : Parser A} → Forward out_of_rounds p
  unfolding out_of_rounds
  out_of_rounds-Forward = record { at = λ start. unknown }

  Agree-or_else :
      {start : Bytes} {r t : Result A} {p q : Parser A}
      → Agree start r t
      → Forward p q
      → Agree start (or_else r p start) (or_else t q start)
  Agree-or_else (same (ends s)) h = same (ends s)
  Agree-or_else {start} (same no_node) h = h.at start
  Agree-or_else (same error) h = same error
  Agree-or_else (same fault) h = unknown
  Agree-or_else unknown h = unknown

  pub <|>-Forward : {p q r s : Parser A} → Forward p q → Forward r s → Forward (p <|> r) (q <|> s)
  unfolding ◌<|>◌
  <|>-Forward h k = record { at = λ start. Agree-or_else (h.at start) k }

  pub required-Forward : {p q : Parser A} → Forward p q → Forward (required p) (required q)
  unfolding required
  required-Forward h = <|>-Forward h parser_err-Forward

  Agree-optional :
      {start : Bytes} {r t : Result A}
      → Agree start r t
      → Agree start (optional_result r start) (optional_result t start)
  Agree-optional (same (ends s)) = same (ends s)
  Agree-optional (same no_node) = same (ends here)
  Agree-optional (same error) = same error
  Agree-optional (same fault) = unknown
  Agree-optional unknown = unknown

  pub optionally-Forward : {p q : Parser A} → Forward p q → Forward (optionally p) (optionally q)
  unfolding optionally
  optionally-Forward h = record { at = λ start. Agree-optional (h.at start) }

  pub either_of-Forward :
      (b : Bool) {p q r s : Parser A}
      → Forward p q
      → Forward r s
      → Forward (either_of b p r) (either_of b q s)
  unfolding either_of
  either_of-Forward true h k = h
  either_of-Forward false h k = k

  pub with_option-Forward {κ} :
      {B : Type κ} (o : Option B) {f k : B → Parser A} {p q : Parser A}
      → ((b : B) → Forward (f b) (k b))
      → Forward p q
      → Forward (with_option o f p) (with_option o k q)
  unfolding with_option
  with_option-Forward none h i = i
  with_option-Forward (some b) h i = h b

  pub rounds-Forward :
      {p q : ℕ → Parser A} → ((n : ℕ) → Forward (p n) (q n)) → Forward (rounds p) (rounds q)
  unfolding rounds
  rounds-Forward h = record { at = λ start. (h (suc (length start))).at start }

pub null_if-Forward : (b : Bool) → Forward (null_if b) (null_if b)
unfolding null_if
null_if-Forward true = fixed λ start. no_node
null_if-Forward false = fixed λ start. ends here

pub error_if-Forward : (b : Bool) → Forward (error_if b) (error_if b)
unfolding error_if
error_if-Forward true = fixed λ start. error
error_if-Forward false = fixed λ start. ends here

pub assert-Forward : (b : Bool) → Forward (assert b) (assert b)
unfolding assert
assert-Forward true = fixed λ start. ends here
assert-Forward false = fixed λ start. fault

-- The rules for sequences of parsers.
pub ruleset sequence = (
  >>=-Forward, >>-Forward, pure-Forward, null-Forward, parser_err-Forward, out_of_rounds-Forward,
  <|>-Forward, required-Forward, optionally-Forward, either_of-Forward, with_option-Forward,
  rounds-Forward, null_if-Forward, error_if-Forward, assert-Forward,
)

module _ {ℓ} {A : Type ℓ} where
  item_loop-Forward :
      (fuel : ℕ) {item item' : Parser (Option A)} {separator : Parser Bool}
      → Forward item item'
      → Forward separator separator
      → Forward (item_loop fuel item separator) (item_loop fuel item' separator)
  unfolding item_loop
  item_loop-Forward zero h k = out_of_rounds-Forward
  item_loop-Forward (suc fuel) h k =
      let rest = item_loop-Forward fuel h k in search sequence depth 20 fits 3000

  pub items-Forward :
      {item item' : Parser (Option A)} {separator : Parser Bool}
      → Forward item item'
      → Forward separator separator
      → Forward (items item separator) (items item' separator)
  unfolding items
  items-Forward h k = rounds-Forward λ n. item_loop-Forward n h k

  suffix_loop-Forward :
      (fuel : ℕ) {suffix suffix' : A → Parser A}
      → ((a : A) → Forward (suffix a) (suffix' a))
      → (a : A) → Forward (suffix_loop fuel suffix a) (suffix_loop fuel suffix' a)
  unfolding suffix_loop
  suffix_loop-Forward zero h a = out_of_rounds-Forward
  suffix_loop-Forward (suc fuel) h a =
      let rest = suffix_loop-Forward fuel h in search sequence depth 20 fits 3000

  pub suffixes-Forward :
      {suffix suffix' : A → Parser A}
      → ((a : A) → Forward (suffix a) (suffix' a))
      → (a : A) → Forward (suffixes suffix a) (suffixes suffix' a)
  unfolding suffixes
  suffixes-Forward h a = rounds-Forward λ n. suffix_loop-Forward n h a
