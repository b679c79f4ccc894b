-- ===== src/Parser/Outcome.antt =====
-- The outcome of a parser of parse.c, and the sequence of parsers. A position in the text is the
-- text from there on.
use blangc.Prelude.{
  Bool, true, false, Option, none, some, ℕ, zero, suc, length, List, [], ◌∷◌, Bytes,
}

-- A node (or other value) with the position behind it; NULL; `parser_err`, which does not return.
-- `stuck` is a read outside the file's table of lines, or the end of the fuel.
pub data Result {ℓ} (A : Type ℓ) : Type ℓ where
  ok : A → Bytes → Result A
  absent failed stuck : Result A

abbrev pub Parser {ℓ} : Type ℓ → Type ℓ
Parser A = Bytes → Result A

-- A parser that only moves the position.
abbrev pub Step : Type 0
Step = Parser (Unit {0})

abbrev pub bind {ℓ κ} : {A : Type ℓ} {B : Type κ} → Result A → (A → Parser B) → Result B
bind (ok a pos) f = f a pos
bind absent f = absent
bind failed f = failed
bind stuck f = stuck

unfoldable pub pure {ℓ} : {A : Type ℓ} → A → Parser A
pure a pos = ok a pos

module _ {ℓ κ} {A : Type ℓ} {B : Type κ} where
  infixl 1 ◌>>=◌ ◌>>◌
  unfoldable pub ◌>>=◌ : Parser A → (A → Parser B) → Parser B
  p >>= f = λ pos. bind (p pos) f

  unfoldable pub ◌>>◌ : Parser A → Parser B → Parser B
  p >> q = λ pos. bind (p pos) (λ _. q)

module _ {ℓ} {A : Type ℓ} where
  -- `return NULL`
  unfoldable pub null : Parser A
  null pos = absent

  unfoldable pub parser_err : Parser A
  parser_err pos = failed

  abbrev pub or_else : Result A → Parser A → Parser A
  or_else (ok a rest) q pos = ok a rest
  or_else absent q pos = q pos
  or_else failed q pos = failed
  or_else stuck q pos = stuck

  -- The second parser, from the same position, where the first gives NULL.
  infixr 2 ◌<|>◌
  unfoldable pub ◌<|>◌ : Parser A → Parser A → Parser A
  p <|> q = λ pos. or_else (p pos) q pos

  abbrev pub optional_result : Result A → Bytes → Result (Option A)
  optional_result (ok a rest) pos = ok (some a) rest
  optional_result absent pos = ok none pos
  optional_result failed pos = failed
  optional_result stuck pos = stuck

  -- A parser that leaves the position where it gives NULL.
  unfoldable pub optionally : Parser A → Parser (Option A)
  optionally p pos = optional_result (p pos) pos

  -- `parser_err` where the parser gives NULL.
  unfoldable pub required : Parser A → Parser A
  unfolding ◌<|>◌ parser_err
  required p = p <|> parser_err

  -- One parser or the other, by a condition.
  unfoldable pub either_of : Bool → Parser A → Parser A → Parser A
  either_of true p q = p
  either_of false p q = q

  -- By whether there is a value.
  unfoldable pub with_option {κ} : {B : Type κ} → Option B → (B → Parser A) → Parser A → Parser A
  with_option none f q = q
  with_option (some b) f q = f b

  -- A loop with one round for each character that is left, and one more.
  unfoldable pub rounds : (ℕ → Parser A) → Parser A
  rounds p pos = p (suc (length pos)) pos

  unfoldable pub out_of_rounds : Parser A
  out_of_rounds pos = stuck

  -- A loop that adds suffixes to a node as long as one parses.
  unfoldable pub suffix_loop : ℕ → (A → Parser A) → A → Parser A
  suffix_loop zero suffix a = out_of_rounds
  suffix_loop (suc fuel) suffix a = optionally (suffix a) >>= λ longer.
      with_option longer (λ b. suffix_loop fuel suffix b) (pure a)

  unfoldable pub suffixes : (A → Parser A) → A → Parser A
  suffixes suffix a = rounds λ fuel. suffix_loop fuel suffix a

-- `if (…) return NULL;`
unfoldable pub null_if : Bool → Step
null_if true pos = absent
null_if false pos = ok tt pos

-- `assert(…);`
unfoldable pub assert : Bool → Step
assert true pos = ok tt pos
assert false pos = stuck

-- `if (…) parser_err(…);`
unfoldable pub error_if : Bool → Step
error_if true pos = failed
error_if false pos = ok tt pos

module _ {ℓ} {A : Type ℓ} where
  -- A loop that collects items while they are followed by a separator.
  unfoldable pub item_loop : ℕ → Parser (Option A) → Parser Bool → Parser (List A)
  item_loop zero item separator = out_of_rounds
  item_loop (suc fuel) item separator = item >>= λ i.
      with_option i
        (λ a. separator >>= λ more.
          either_of more (item_loop fuel item separator >>= λ rest. pure (a ∷ rest))
            (pure (a ∷ [])))
        (pure [])

  unfoldable pub items : Parser (Option A) → Parser Bool → Parser (List A)
  items item separator = rounds λ fuel. item_loop fuel item separator

module _ {ℓ} {A : Type ℓ} where
  abbrev pub is_empty : List A → Bool
  is_empty [] = true
  is_empty (a ∷ rest) = false

  abbrev pub is_some : Option A → Bool
  is_some none = false
  is_some (some a) = true
