-- ===== src/Parser/Forward/Operators.antt =====
-- The position that `match_binary_operator` of parse.c leaves.
use blangc.Parser.{Context}
use blangc.Parser.Forward.{IsSuffix, here, later, IsSuffix-trans}
use blangc.Parser.Forward.Steps.{Reaches, reaches, after-Reaches}
use blangc.Parser.Forward.Words.{match_word-Reaches}
use blangc.Parser.Operators.{
  Operator, Matched, then_one, shifted, match_operator_word, operator_words, match_equals,
  match_binary_operator, subtract, multiply, divide, power, concatenate, add, less, less_equal,
  left_shift, greater, greater_equal, right_shift,
}
use blangc.Parser.Text.{after}
use blangc.Parser.Words.{match_word}
use blangc.Prelude.{
  Bool, true, false, ◌==◌, Option, none, some, List, [], ◌∷◌, Bytes, codes, if◌then◌else◌,
}

-- The position of an operator, or of `Unknown`.
data Within (start : Bytes) : Matched → Type 0 where
  within : {op : Option Operator} {rest : Bytes} → IsSuffix rest start → Within start (op, rest)

Within-if :
    (b : Bool) {x y : Matched} {p : Bytes} → Within p x → Within p y → Within p (if b then x else y)
Within-if true h k = h
Within-if false h k = k

Within-moved : {q p : Bytes} {m : Matched} → IsSuffix q p → Within q m → Within p m
Within-moved s (within t) = within (IsSuffix-trans t s)

-- By whether a target stands here.
Within-after :
    (o : Option Bytes) {p : Bytes} {m : Matched} {f : Bytes → Matched}
    → Reaches p o
    → Within p m
    → ((rest : Bytes) → Within rest (f rest))
    → Within p (elim o [ none ↦ m | some rest ↦ f rest ])
Within-after none r h k = h
Within-after (some rest) (reaches s) h k = Within-moved s (k rest)

-- The same, where a target that stands here is left.
Within-peek :
    (o : Option Bytes) {p : Bytes} {m n : Matched}
    → Within p m
    → Within p n
    → Within p (elim o [ none ↦ m | some rest ↦ n ])
Within-peek none h k = h
Within-peek (some rest) h k = k

then_one-Within :
    (target : Bytes) (one other : Operator) (p : Bytes) → Within p (then_one target one other p)
then_one-Within target one other p =
    Within-after (after target p) (after-Reaches target p) (within here) (λ rest. within here)

shifted-Within : (target : Bytes) (a b c : Operator) (p : Bytes) → Within p (shifted target a b c p)
shifted-Within target a b c p =
    Within-after (after (codes "=") p) (after-Reaches (codes "=") p) (then_one-Within target b c p)
      (λ rest. within here)

module _ (ctx : Context) where
  match_operator_word-Within :
      (words : List (Bytes × Operator)) (p : Bytes) → Within p (match_operator_word ctx words p)
  unfolding match_operator_word
  match_operator_word-Within [] p =
      Within-after (after (codes "..") p) (after-Reaches (codes "..") p) (within here)
        (λ rest. within here)
  match_operator_word-Within ((word, op) ∷ words) p =
      Within-after (match_word ctx word p) (match_word-Reaches ctx word p)
        (match_operator_word-Within words p) (λ rest. within here)

  match_equals-Within : (p : Bytes) → Within p (match_equals ctx p)
  match_equals-Within p =
      let words = match_operator_word-Within (operator_words ctx) in
      Within-after (after (codes "!=") p) (after-Reaches (codes "!=") p)
        (Within-after (after (codes "==") p) (after-Reaches (codes "==") p) (words p)
          (λ rest. Within-peek (after (codes "=") rest) (within here) (words rest)))
        (λ rest. within here)

  match_binary_operator-Within : (p : Bytes) → Within p (match_binary_operator ctx p)
  unfolding match_binary_operator
  match_binary_operator-Within [] = match_operator_word-Within (operator_words ctx) []
  match_binary_operator-Within (c ∷ p) =
      let one : (op : Option Operator) → Within (c ∷ p) (op, p) = λ op. within (later here) in
      Within-if (c == b'+')
        (Within-moved (later here) (then_one-Within (codes "+") concatenate add p))
        (Within-if (c == b'-') (Within-if _ (one none) (one (some subtract))) (
          Within-if (c == b'*') (one (some multiply)) (
            Within-if (c == b'/') (one (some divide)) (
              Within-if (c == b'^') (one (some power)) (
                Within-if (c == b'<')
                  (Within-moved (later here)
                    (shifted-Within (codes "<") less_equal left_shift less p))
                  (Within-if (c == b'>')
                    (Within-moved (later here)
                      (shifted-Within (codes ">") greater_equal right_shift greater p))
                    (match_equals-Within (c ∷ p))))))))

  position_of : {p : Bytes} {m : Matched} → Within p m → IsSuffix m.1 p
  position_of (within s) = s

  pub match_binary_operator-IsSuffix : (p : Bytes) → IsSuffix (match_binary_operator ctx p).1 p
  match_binary_operator-IsSuffix p = position_of (match_binary_operator-Within p)
