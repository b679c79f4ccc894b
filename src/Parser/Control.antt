-- ===== src/Parser/Control.antt =====
-- parse.c: blocks of control flow. A clause such as `else` belongs to the block that begins at its
-- indentation.
use blangc.Parser.{Context}
use blangc.Parser.Grammar.{Grammar, expect_ast, optional_ast, ast_or_null}
use blangc.Parser.Literals.{parse_var}
use blangc.Parser.Node.{
  Node, MaybeNode, nothing, just, maybe, nodes, bool_, wildcard, if_, Cases, end_cases, case_, pass,
  do_, defer, with_, using, for_, repeat_, while_,
}
use blangc.Parser.Outcome.{
  is_some, ok, Parser, Step, pure, ◌>>=◌, ◌>>◌, ◌<|>◌, optionally, either_of, with_option, null_if,
  rounds, out_of_rounds, items,
}
use blangc.Parser.Suffixes.{declaration_or_expr, loop_variables}
use blangc.Parser.Text.{skip_spaces, skip_whitespace, matches}
use blangc.Parser.Words.{match_word, matches_word, word_token, identifier, indent_here}
use blangc.Prelude.{
  ℕ, zero, suc, Bool, true, false, not, ◌==◌, Option, none, some, List, [], ◌∷◌, Bytes, codes,
}

-- Each pattern of a clause stands with the clause's block.
abbrev clause_cases : List Node → (body : Node) → Cases → Cases
clause_cases [] body rest = rest
clause_cases (pattern ∷ patterns) body rest = case_ pattern body (clause_cases patterns body rest)

abbrev or_pass : Option Node → Node
or_pass none = pass
or_pass (some a) = a

abbrev else_case : Option Node → Cases
else_case none = end_cases
else_case (some a) = case_ (wildcard none) a end_cases

module _ (ctx : Context) (g : Grammar) where
  -- A word where the indentation of the line is the one given.
  unfoldable pub word_at_indent : Bytes → ℕ → Step
  word_at_indent word starting_indent = do
    indent ← indent_here ctx
    null_if (not (indent == starting_indent))
    word_token ctx word

  -- The word may stand on a later line; NULL leaves the position.
  unfoldable pub clause : Bytes → ℕ → Parser (Option Node)
  unfolding word_at_indent
  clause word starting_indent =
      optionally
        (skip_whitespace >> word_at_indent word starting_indent >> expect_ast g.opt_indented_block)

  unfoldable pub body : Parser Node
  body = expect_ast g.opt_indented_block

  unfoldable pub then_body : Parser Node
  unfolding body
  then_body = do word ← matches_word ctx (codes "then"); body

  unfoldable pub parse_unless : ℕ → Parser Node
  unfolding then_body word_at_indent
  parse_unless starting_indent = do
    word_token ctx (codes "unless")
    subject ← declaration_or_expr ctx g
    has_pattern ← matches_word ctx (codes "matches")
    pattern ← either_of has_pattern (expect_ast g.expr) (pure (bool_ true))
    block ← then_body
    else_body ← optionally (word_at_indent (codes "else") starting_indent >> body)
    pure (if_ subject (case_ pattern (or_pass else_body) (case_ (wildcard none) block end_cases)))

  unfoldable pub patterns : Parser (List Node)
  patterns =
      items (expect_ast g.expr >>= λ pattern. pure (some pattern))
        (skip_spaces >> matches (codes ";"))

  -- The loop over the clauses of an `if` with patterns.
  unfoldable pub clauses : (fuel : ℕ) → ℕ → Parser Cases
  unfolding clause then_body patterns word_at_indent
  clauses zero starting_indent = out_of_rounds
  clauses (suc fuel) starting_indent = do
    else_body ← clause (codes "else") starting_indent
    with_option else_body (λ a. pure (case_ (wildcard none) a end_cases))
        (do
          matched ← optionally (skip_whitespace >> word_at_indent (codes "matches") starting_indent)
          either_of (is_some matched)
              (do
                list ← patterns
                block ← then_body
                rest ← clauses fuel starting_indent
                pure (clause_cases list block rest))
              (pure end_cases))

  unfoldable pub simple_cases : ℕ → Parser Cases
  unfolding then_body clause
  simple_cases starting_indent = do
    block ← then_body
    else_body ← clause (codes "else") starting_indent
    pure (case_ (bool_ true) block (else_case else_body))

  unfoldable pub word_follows : Bytes → Parser Bool
  word_follows word p = ok (is_some (match_word ctx word p)) p

  unfoldable pub parse_if : Parser Node
  unfolding parse_unless clauses simple_cases word_follows
  parse_if = do
    starting_indent ← indent_here ctx
    parse_unless starting_indent <|> (do
      word_token ctx (codes "if")
      subject ← declaration_or_expr ctx g
      has_patterns ← word_follows (codes "matches")
      cases ←
          either_of has_patterns (rounds λ fuel. clauses fuel starting_indent)
            (simple_cases starting_indent)
      pure (if_ subject cases))

  unfoldable pub parse_do : Parser Node
  unfolding body clause
  parse_do = do
    word_token ctx (codes "do")
    starting_indent ← indent_here ctx
    label ← optionally (identifier ctx)
    block ← body
    else_body ← clause (codes "else") starting_indent
    pure (do_ label block (maybe else_body))

  unfoldable pub parse_defer : Parser Node
  unfolding body
  parse_defer = do word_token ctx (codes "defer"); block ← body; pure (defer block)

  unfoldable pub with_variable : Parser (MaybeNode × Node)
  with_variable = do
    var ← ast_or_null (parse_var ctx)
    word_token ctx (codes ":=")
    expr ← expect_ast g.expr
    pure (just var, expr)

  unfoldable pub parse_with : Parser Node
  unfolding body with_variable
  parse_with = do
    word_token ctx (codes "with")
    (var, expr) ← with_variable <|> (expect_ast g.expr >>= λ expr. pure (nothing, expr))
    has_cleanup ← matches_word ctx (codes "then")
    cleanup ← either_of has_cleanup (expect_ast g.statement >>= λ a. pure (just a)) (pure nothing)
    block ← body
    pure (with_ var expr cleanup block)

  unfoldable pub semicolon : Parser Bool
  semicolon = do
    skip_spaces
    found ← matches (codes ";")
    either_of found (skip_whitespace >> pure true) (pure false)

  unfoldable pub parse_using : Parser Node
  unfolding body semicolon
  parse_using = do
    word_token ctx (codes "using")
    exprs ← items (optional_ast g.expr) semicolon
    block ← body
    pure (using (nodes exprs) block)

  unfoldable pub first_block : Parser (Option Node)
  unfolding body
  first_block = do
    has_first ← matches_word ctx (codes "first")
    either_of has_first (do block ← body; skip_whitespace; pure (some block)) (pure none)

  abbrev body_word : Option Node → Bytes
  body_word none = codes "do"
  body_word (some a) = codes "then"

  unfoldable pub parse_for : Parser Node
  unfolding body first_block clause word_at_indent
  parse_for = do
    word_token ctx (codes "for")
    starting_indent ← indent_here ctx
    (index, value) ← loop_variables ctx g
    iter ← expect_ast g.expr
    first ← first_block
    word ← optionally (word_at_indent (body_word first) starting_indent)
    block ← body
    between ← clause (codes "between") starting_indent
    empty ← clause (codes "else") starting_indent
    pure (for_ index value iter (maybe first) block (maybe between) (maybe empty))

  -- The white space behind the body is part of the node.
  unfoldable pub parse_repeat : Parser Node
  unfolding body word_at_indent
  parse_repeat = do
    word_token ctx (codes "repeat")
    starting_indent ← indent_here ctx
    block ← body
    skip_whitespace
    between ← optionally (word_at_indent (codes "between") starting_indent >> body)
    pure (repeat_ block (maybe between))

  unfoldable pub parse_while : Parser Node
  unfolding body clause
  parse_while = do
    word_token ctx (codes "while")
    starting_indent ← indent_here ctx
    condition ← expect_ast g.expr
    word ← matches (codes "do")
    block ← body
    between ← clause (codes "between") starting_indent
    pure (while_ condition block (maybe between))

  -- The first part of `parse_extended_expr`.
  unfoldable pub parse_control : Parser Node
  unfolding parse_for parse_while parse_if parse_repeat parse_do parse_defer parse_with parse_using
  parse_control =
      parse_for <|> parse_while <|> parse_if <|> parse_repeat <|> parse_do <|> parse_defer
      <|> parse_with <|> parse_using
