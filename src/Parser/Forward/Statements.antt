-- ===== src/Parser/Forward/Statements.antt =====
-- The positions that the parsers of statements and blocks of parse.c leave.
use blangc.Parser.{Context}
use blangc.Parser.Forward.{Ends, Forward, ends, error, fixed, here, out_of_rounds-Forward}
use blangc.Parser.Forward.Declarations.{
  parse_assignment-Forward, parse_declaration-Forward, parse_linker-Forward,
  parse_predeclaration-Forward, parse_update-Forward, parse_use-Forward,
}
use blangc.Parser.Forward.Definitions.{parse_def-Forward, parse_doctest-Forward}
use blangc.Parser.Forward.Expressions.{parse_expr-Forward, parse_extended_expr-Forward}
use blangc.Parser.Forward.Grammar.{IsForward, ast_steps}
use blangc.Parser.Forward.Quoted.{scanned_not-Forward}
use blangc.Parser.Forward.Suffixes.{
  parse_fncall_suffix-Forward, parse_suffix_for-Forward, parse_suffix_while-Forward,
}
use blangc.Parser.Forward.Terms.{parse_term-Forward, parse_term_no_suffix-Forward}
use blangc.Parser.Forward.TypeGrammar.{parse_type_node-Forward}
use blangc.Parser.Grammar.{Grammar}
use blangc.Parser.Node.{Node}
use blangc.Parser.Statements.{
  at_end, block_loop, file_parser, grammar, inline_statement, parse_block, parse_inline_block,
  parse_opt_indented_block, parse_statement, same_block, shebang, statement_suffix,
}
use blangc.Prelude.{Bytes, [], suc, zero, ℕ, ◌∷◌}

module _ (ctx : Context) (g g' : Grammar) (h : IsForward g g') where
  statement_suffix-Forward :
      (lhs : Node) → Forward (statement_suffix ctx g lhs) (statement_suffix ctx g' lhs)
  unfolding statement_suffix
  statement_suffix-Forward lhs =
      search
        (
          ast_steps, parse_fncall_suffix-Forward, parse_suffix_for-Forward,
          parse_suffix_while-Forward,
        )
        depth 60 fits 20000

  parse_statement-Forward : Forward (parse_statement ctx g) (parse_statement ctx g')
  unfolding parse_statement
  parse_statement-Forward =
      search
        (
          ast_steps, parse_assignment-Forward, parse_declaration-Forward, parse_doctest-Forward,
          parse_linker-Forward, parse_predeclaration-Forward, parse_update-Forward,
          parse_use-Forward, statement_suffix-Forward,
        )
        depth 60 fits 20000

  same_block-Forward :
      (block_indent : ℕ) → Forward (same_block ctx g block_indent) (same_block ctx g' block_indent)
  unfolding same_block
  same_block-Forward block_indent = search ast_steps depth 60 fits 20000

  block_loop-Forward :
      (fuel block_indent : ℕ)
      → Forward (block_loop ctx g fuel block_indent) (block_loop ctx g' fuel block_indent)
  unfolding block_loop
  block_loop-Forward zero block_indent = out_of_rounds-Forward
  block_loop-Forward (suc fuel) block_indent =
      let rest = block_loop-Forward fuel in
      search (ast_steps, same_block-Forward) depth 60 fits 20000

  parse_block-Forward : Forward (parse_block ctx g) (parse_block ctx g')
  unfolding parse_block
  parse_block-Forward = search (ast_steps, block_loop-Forward) depth 60 fits 20000

  inline_statement-Forward : Forward (inline_statement ctx g) (inline_statement ctx g')
  unfolding inline_statement
  inline_statement-Forward = search ast_steps depth 60 fits 20000

  parse_inline_block-Forward : Forward (parse_inline_block ctx g) (parse_inline_block ctx g')
  unfolding parse_inline_block
  parse_inline_block-Forward = search (ast_steps, inline_statement-Forward) depth 60 fits 20000

  parse_opt_indented_block-Forward :
      Forward (parse_opt_indented_block ctx g) (parse_opt_indented_block ctx g')
  unfolding parse_opt_indented_block
  parse_opt_indented_block-Forward =
      search (ast_steps, parse_block-Forward, parse_inline_block-Forward) depth 60 fits 20000

module _ (ctx : Context) where
  shebang-Forward : Forward (shebang ctx) (shebang ctx)
  unfolding shebang
  shebang-Forward = search (ast_steps, scanned_not-Forward) depth 60 fits 20000

module _ (ctx : Context) where
  -- One more level of calls never changes what a parser of the language gives, unless it has run
  -- out of levels or met a fault; and every parser leaves a position in the text that is not before
  -- the one it starts from.
  pub grammar-IsForward : (depth : ℕ) → IsForward (grammar ctx depth) (grammar ctx (suc depth))
  unfolding grammar
  grammar-IsForward zero = record {
    type_ = out_of_rounds-Forward;
    expr = out_of_rounds-Forward;
    extended_expr = out_of_rounds-Forward;
    term = out_of_rounds-Forward;
    term_no_suffix = out_of_rounds-Forward;
    declaration = out_of_rounds-Forward;
    statement = out_of_rounds-Forward;
    def = out_of_rounds-Forward;
    opt_indented_block = out_of_rounds-Forward;
  }
  grammar-IsForward (suc depth) =
      let g = grammar ctx depth in
      let g' = grammar ctx (suc depth) in
      let h = grammar-IsForward depth in
      record {
        type_ = parse_type_node-Forward ctx g g' h;
        expr = parse_expr-Forward ctx g g' h;
        extended_expr = parse_extended_expr-Forward ctx g g' h;
        term = parse_term-Forward ctx g g' h;
        term_no_suffix = parse_term_no_suffix-Forward ctx g g' h;
        declaration = parse_declaration-Forward ctx g g' h;
        statement = parse_statement-Forward ctx g g' h;
        def = parse_def-Forward ctx g g' h;
        opt_indented_block = parse_opt_indented_block-Forward ctx g g' h;
      }

  at_end-Forward : (ast : Node) → Forward (at_end ctx ast) (at_end ctx ast)
  unfolding at_end
  at_end-Forward ast = fixed (ended ast)
    where
      ended : (ast : Node) (p : Bytes) → Ends p (at_end ctx ast p)
      ended ast [] = ends here
      ended ast (c ∷ p) = error

  pub file_parser-Forward :
      (depth : ℕ) → Forward (file_parser ctx depth) (file_parser ctx (suc depth))
  unfolding file_parser
  file_parser-Forward depth =
      let h = grammar-IsForward depth in
      search (ast_steps, shebang-Forward, parse_block-Forward, at_end-Forward) depth 60 fits 20000
