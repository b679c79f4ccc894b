-- ===== src/Parser/Params.antt =====
-- parse.c: the parameters of functions, structs and tags.
use blangc.Parser.{Context}
use blangc.Parser.Grammar.{Grammar, expect_ast, optional_ast}
use blangc.Parser.Node.{Args, MaybeNode, arg, end_args, just, nothing}
use blangc.Parser.Outcome.{
  Parser, either_of, error_if, is_some, null_if, optionally, out_of_rounds, pure, rounds,
  with_option, ◌<|>◌, ◌>>=◌, ◌>>◌,
}
use blangc.Parser.Text.{after, matches, position, skip_spaces, skip_whitespace, token}
use blangc.Parser.Words.{identifier}
use blangc.Prelude.{
  Bool, Bytes, List, Option, [], codes, false, none, not, some, suc, true, zero, ℕ, ◌∷◌,
}

-- One pass of the inner loop of `parse_args` and what follows it: names that share a type or a
-- default value.
pub record Batch : Type 0 where
  pub names : List (Option Bytes)
  pub type_ : MaybeNode
  pub default : MaybeNode

abbrev pub batch_of : List (Option Bytes) → MaybeNode → MaybeNode → Batch
batch_of names type default = record { names = names; type_ = type; default = default }

abbrev pub with_name : Bytes → Batch → Batch
with_name name b = record b { names = some name ∷ b.names }

abbrev pub batch_args : List (Option Bytes) → (type default : MaybeNode) → Args → Args
batch_args [] type default rest = rest
batch_args (name ∷ names) type default rest =
    arg name type default (batch_args names type default rest)

module _ (ctx : Context) (g : Grammar) where
  unfoldable pub default_arg : Parser Batch
  default_arg = do
    name ← optionally (identifier ctx)
    skip_whitespace
    here ← position
    null_if (is_some (after (codes "==") here))
    token (codes "=")
    value ← expect_ast g.term
    pure (batch_of (name ∷ []) nothing (just value))

  unfoldable pub typed_arg : Parser Batch
  typed_arg = do
    name ← optionally (identifier ctx)
    skip_whitespace
    token (codes ":")
    type ← expect_ast g.type_
    pure (batch_of (name ∷ []) (just type) nothing)

  unfoldable pub unnamed_arg : Parser Batch
  unnamed_arg = do
    type ← optional_ast g.type_
    with_option type (λ t. pure (batch_of (none ∷ []) (just t) nothing))
        (pure (batch_of [] nothing nothing))

  -- The inner loop.
  unfoldable pub batch : (fuel : ℕ) → (allow_unnamed : Bool) → Parser Batch
  unfolding default_arg typed_arg unnamed_arg
  batch zero allow_unnamed = out_of_rounds
  batch (suc fuel) allow_unnamed =
      skip_whitespace
      >> (default_arg
          <|> typed_arg
          <|> either_of allow_unnamed unnamed_arg (
              (do
                name ← identifier ctx
                skip_whitespace
                skip_spaces
                more ← matches (codes ",")
                either_of more (batch fuel allow_unnamed >>= λ b. pure (with_name name b))
                    (pure (batch_of (some name ∷ []) nothing nothing)))
              <|> pure (batch_of [] nothing nothing)))

  abbrev pub is_typed : Batch → Bool
  is_typed b = elim b.type_ [
    | just t ↦ true
    | nothing ↦ elim b.default [ just a ↦ true | nothing ↦ false ]
  ]

  abbrev pub has_names : Batch → Bool
  has_names b = elim b.names [ [] ↦ false | name ∷ names ↦ true ]

  -- The outer loop.
  unfoldable pub args_loop : (fuel : ℕ) → (allow_unnamed : Bool) → Parser Args
  unfolding batch
  args_loop zero allow_unnamed = out_of_rounds
  args_loop (suc fuel) allow_unnamed = do
    b ← rounds λ inner. batch inner allow_unnamed
    either_of (has_names b)
        (do
          error_if (not (is_typed b))
          skip_whitespace
          comma ← matches (codes ",")
          rest ← args_loop fuel allow_unnamed
          pure (batch_args b.names b.type_ b.default rest))
        (pure end_args)

  unfoldable pub parse_args : (allow_unnamed : Bool) → Parser Args
  unfolding args_loop
  parse_args allow_unnamed = rounds λ fuel. args_loop fuel allow_unnamed
