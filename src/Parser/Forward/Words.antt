-- ===== src/Parser/Forward/Words.antt =====
-- The positions that the parsers of words and identifiers of parse.c leave.
use blangc.Parser.{Context}
use blangc.Parser.Forward.{
  IsSuffix, here, later, IsSuffix-trans, fixed, Ends, ends, no_node, error, fault, Forward,
  sequence,
}
use blangc.Parser.Text.{between, after, spaces}
use blangc.Parser.Words.{
  is_xid_continue_next, match_word, word_token, matches_word, expect_word, word_end, get_word_end,
  get_word, get_id, identifier, is_keyword, indent_here, line_number_here, indent, deeper, or_stuck,
}
use blangc.Prelude.{ℕ, zero, suc, Option, none, some, [], ◌∷◌, Bytes, length, drop, if◌then◌else◌}
use blangc.Parser.Forward.Steps.{
  Ends-expected, Ends-found, Ends-moved, Ends-option, IsSuffix-if, Reaches, Reaches-if,
  Reaches-trans, Reads, Reads-if, after-spaces, drop-IsSuffix, expect_closing-Forward,
  matches-Forward, peek-Forward, position-Forward, skip_spaces-Forward, skip_whitespace-Forward,
  some_of-IsSuffix, token-Forward, reaches, nowhere, reads, unread,
}

module _ (ctx : Context) where
  pub match_word-Reaches : (word p : Bytes) → Reaches p (match_word ctx word p)
  unfolding match_word
  match_word-Reaches word p = ended (after word (spaces p)) (after-spaces word p)
    where
      ended :
          {p : Bytes} (o : Option Bytes)
          → Reaches p o
          → Reaches p (elim o [
            | none ↦ none
            | some rest ↦ if is_xid_continue_next ctx rest then none else some rest
          ])
      ended none h = nowhere
      ended (some rest) h = Reaches-if (is_xid_continue_next ctx rest) nowhere h

  pub word_token-Forward : (word : Bytes) → Forward (word_token ctx word) (word_token ctx word)
  unfolding word_token
  word_token-Forward word =
      fixed λ p. Ends-found (match_word ctx word p) (match_word-Reaches word p)

  pub matches_word-Forward :
      (word : Bytes) → Forward (matches_word ctx word) (matches_word ctx word)
  unfolding matches_word
  matches_word-Forward word =
      fixed λ p. Ends-moved (match_word ctx word p) (match_word-Reaches word p)

  pub expect_word-Forward : (word : Bytes) → Forward (expect_word ctx word) (expect_word ctx word)
  unfolding expect_word
  expect_word-Forward word =
      fixed λ p. Ends-expected (match_word ctx word p) (match_word-Reaches word p)

  word_end-IsSuffix : (fuel : ℕ) (p : Bytes) → IsSuffix (word_end ctx fuel p) p
  unfolding word_end
  word_end-IsSuffix fuel [] = here
  word_end-IsSuffix zero (c ∷ p) = here
  word_end-IsSuffix (suc fuel) (c ∷ p) =
      let size = (ctx.u8_next (c ∷ p)).1 in
      IsSuffix-if (ctx.xid_continue (ctx.u8_next (c ∷ p)).0)
        (IsSuffix-trans (word_end-IsSuffix fuel (drop size (c ∷ p))) (drop-IsSuffix size (c ∷ p)))
        here

  get_word_end-Reaches : (p : Bytes) → Reaches p (get_word_end ctx p)
  unfolding get_word_end
  get_word_end-Reaches [] = nowhere
  get_word_end-Reaches (c ∷ p) =
      let size = (ctx.u8_next (c ∷ p)).1 in
      Reaches-if _
        (reaches (
          IsSuffix-trans (word_end-IsSuffix (length p) (drop size (c ∷ p)))
            (drop-IsSuffix size (c ∷ p))))
        nowhere

  get_word-Reads : (p : Bytes) → Reads p (get_word ctx p)
  unfolding get_word
  get_word-Reads p =
      named (spaces p) (get_word_end ctx (spaces p))
        (Reaches-trans (some_of-IsSuffix (32 ∷ 9 ∷ []) p) (get_word_end-Reaches (spaces p)))
    where
      named :
          {p : Bytes} (q : Bytes) (o : Option Bytes)
          → Reaches p o
          → Reads p (elim o [ none ↦ none | some rest ↦ some (between q rest, rest) ])
      named q none h = unread
      named q (some rest) (reaches s) = reads s

  get_id-Reads : (p : Bytes) → Reads p (get_id ctx p)
  unfolding get_id
  get_id-Reads p = checked (get_word ctx p) (get_word-Reads p)
    where
      checked :
          {p : Bytes} (o : Option (Bytes × Bytes))
          → Reads p o
          → Reads p (elim o [
            | none ↦ none
            | some (word, rest) ↦ if is_keyword word then none else some (word, rest)
          ])
      checked none h = unread
      checked (some (word, rest)) (reads s) = Reads-if (is_keyword word) unread (reads s)

  pub identifier-Forward : Forward (identifier ctx) (identifier ctx)
  unfolding identifier
  identifier-Forward = fixed λ p. Ends-option (get_id ctx p) (get_id-Reads p)

  Ends-or_stuck : {p : Bytes} (o : Option ℕ) → Ends p (or_stuck ctx o p)
  Ends-or_stuck none = fault
  Ends-or_stuck (some n) = ends here

  pub indent_here-Forward : Forward (indent_here ctx) (indent_here ctx)
  unfolding indent_here
  indent_here-Forward = fixed λ p. Ends-or_stuck _

  pub line_number_here-Forward : Forward (line_number_here ctx) (line_number_here ctx)
  unfolding line_number_here
  line_number_here-Forward = fixed λ p. Ends-or_stuck _

  pub indent-Forward : Forward (indent ctx) (indent ctx)
  unfolding indent deeper
  indent-Forward =
      search (sequence, indent_here-Forward, line_number_here-Forward, skip_whitespace-Forward)
        depth 20 fits 3000

pub ruleset text_steps = (
  sequence, skip_spaces-Forward, skip_whitespace-Forward, matches-Forward, token-Forward,
  peek-Forward, position-Forward, expect_closing-Forward, word_token-Forward, matches_word-Forward,
  expect_word-Forward, identifier-Forward, indent_here-Forward, line_number_here-Forward,
  indent-Forward,
)
