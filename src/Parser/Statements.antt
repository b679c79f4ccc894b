-- ===== src/Parser/Statements.antt =====
-- parse.c: statements, blocks, and the parser of a file: the parsers that call each other are tied
-- together by the depth of their calls.
use blangc.Parser.{Context}
use blangc.Parser.Definitions.{parse_def, parse_doctest}
use blangc.Parser.Declarations.{
  parse_declaration, parse_predeclaration, parse_linker, parse_use, parse_update, parse_assignment,
}
use blangc.Parser.Expressions.{parse_expr, parse_extended_expr}
use blangc.Parser.Grammar.{Grammar, optional_ast}
use blangc.Parser.Node.{Node, nodes, var, unnamed_var, block}
use blangc.Parser.Outcome.{
  is_some, Result, ok, absent, failed, stuck, Parser, Step, pure, null, ◌>>=◌, ◌>>◌, ◌<|>◌,
  optionally, either_of, with_option, null_if, error_if, rounds, out_of_rounds, items, suffixes,
}
use blangc.Parser.Quoted.{scanned_not}
use blangc.Parser.Suffixes.{parse_suffix_for, parse_suffix_while, parse_fncall_suffix}
use blangc.Parser.Terms.{parse_term, parse_term_no_suffix}
use blangc.Parser.Text.{skip_spaces, skip_whitespace, matches, peek}
use blangc.Parser.Words.{indent, indent_here}
use blangc.Parser.TypeGrammar.{parse_type_node}
use blangc.Prelude.{
  ℕ, zero, suc, Bool, true, false, not, ◌||◌, ◌==◌, Option, none, List, [], ◌∷◌, codes,
}

abbrev is_var : Node → Bool
is_var (var name) = true
is_var unnamed_var = true
is_var a = false

module _ (ctx : Context) (g : Grammar) where
  unfoldable pub statement_suffix : Node → Parser Node
  statement_suffix stmt =
      parse_suffix_for ctx g stmt
      <|> parse_suffix_while ctx g stmt
      <|> either_of (is_var stmt) (parse_fncall_suffix ctx g false false stmt) null

  unfoldable pub parse_statement : Parser Node
  unfolding statement_suffix
  parse_statement =
      parse_declaration ctx g
      <|> parse_predeclaration ctx g
      <|> g.def
      <|> parse_doctest ctx g
      <|> parse_linker ctx g
      <|> parse_use ctx g
      <|> (parse_update ctx g <|> parse_assignment ctx g <|> g.extended_expr
          >>= suffixes statement_suffix)

  -- The line that follows is of the block, too; NULL leaves the position behind the statement.
  unfoldable pub same_block : (block_indent : ℕ) → Step
  same_block block_indent = do
    skip_whitespace
    indent ← indent_here ctx
    null_if (not (indent == block_indent))

  unfoldable pub block_loop : (fuel block_indent : ℕ) → Parser (List Node)
  unfolding same_block
  block_loop zero block_indent = out_of_rounds
  block_loop (suc fuel) block_indent = do
    first ← peek
    either_of (first == 0) (pure []) (do
      stmt ← optional_ast g.statement
      with_option stmt
          (λ s. do
            more ← optionally (same_block block_indent)
            either_of (is_some more) (block_loop fuel block_indent >>= λ rest. pure (s ∷ rest))
                (pure (s ∷ [])))
          (do skip_spaces; c ← peek; error_if (not (c == 0 || c == 13 || c == 10)); pure []))

  unfoldable pub parse_block : Parser Node
  unfolding block_loop
  parse_block = do
    block_indent ← indent_here ctx
    skip_whitespace
    statements ← rounds λ fuel. block_loop fuel block_indent
    pure (block (nodes statements))

  unfoldable pub inline_statement : Parser (Option Node)
  inline_statement = do c ← peek; either_of (c == 0) (pure none) (optional_ast g.statement)

  unfoldable pub parse_inline_block : Parser Node
  unfolding inline_statement
  parse_inline_block = do
    skip_spaces
    statements ← items inline_statement (skip_spaces >> matches (codes ";"))
    pure (block (nodes statements))

  unfoldable pub parse_opt_indented_block : Parser Node
  unfolding parse_block parse_inline_block
  parse_opt_indented_block = indent ctx >>= λ found. either_of found parse_block parse_inline_block

module _ (ctx : Context) where
  -- The parsers, with a bound on the depth of their calls.
  unfoldable pub grammar : (depth : ℕ) → Grammar
  unfolding parse_statement parse_opt_indented_block
  grammar zero = record {
    type_ = out_of_rounds;
    expr = out_of_rounds;
    extended_expr = out_of_rounds;
    term = out_of_rounds;
    term_no_suffix = out_of_rounds;
    declaration = out_of_rounds;
    statement = out_of_rounds;
    def = out_of_rounds;
    opt_indented_block = out_of_rounds;
  }
  grammar (suc depth) = record {
    type_ = parse_type_node ctx (grammar depth);
    expr = parse_expr ctx (grammar depth);
    extended_expr = parse_extended_expr ctx (grammar depth);
    term = parse_term ctx (grammar depth);
    term_no_suffix = parse_term_no_suffix ctx (grammar depth);
    declaration = parse_declaration ctx (grammar depth);
    statement = parse_statement ctx (grammar depth);
    def = parse_def ctx (grammar depth);
    opt_indented_block = parse_opt_indented_block ctx (grammar depth);
  }

  unfoldable pub shebang : Step
  shebang = do
    found ← matches (codes "#!")
    either_of found (scanned_not (13 ∷ 10 ∷ []) >> pure tt) (pure tt)

  unfoldable pub at_end : Node → Parser Node
  at_end ast [] = ok ast []
  at_end ast (c ∷ p) = failed

  unfoldable pub file_parser : (depth : ℕ) → Parser Node
  unfolding shebang grammar at_end
  file_parser depth = do
    shebang
    skip_whitespace
    ast ← parse_block ctx (grammar depth)
    skip_whitespace
    at_end ast

  unfoldable pub parse_file : (depth : ℕ) → Result Node
  unfolding file_parser
  parse_file depth = file_parser depth ctx.text

  abbrev or_fault : Result Node → Result Node
  or_fault absent = stuck
  or_fault (ok a rest) = ok a rest
  or_fault failed = failed
  or_fault stuck = stuck

  -- Where there is no type, the code reads the end of NULL.
  unfoldable pub parse_type : (depth : ℕ) → Result Node
  unfolding grammar at_end
  parse_type depth =
      or_fault (((grammar (suc depth)).type_ >>= λ ast. skip_whitespace >> at_end ast) ctx.text)
