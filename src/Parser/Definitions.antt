-- ===== src/Parser/Definitions.antt =====
-- parse.c: definitions and documentation tests.
use blangc.Parser.{Context}
use blangc.Parser.Grammar.{Grammar, ast_or_null, expect_ast, optional_ast}
use blangc.Parser.Literals.{parse_int, parse_num}
use blangc.Parser.Node.{
  MaybeNode, Node, convert_def, doc_test, from_int, function_def, int_, just, maybe, nodes, nothing,
  num_, type_def, unit_def,
}
use blangc.Parser.Outcome.{
  Parser, either_of, error_if, failed, is_empty, is_some, null, null_if, ok, optionally,
  out_of_rounds, pure, required, rounds, with_option, ◌<|>◌, ◌>>=◌, ◌>>◌,
}
use blangc.Parser.Quoted.{scanned_not}
use blangc.Parser.Text.{expect_closing, matches, peek, skip_spaces, skip_whitespace, token}
use blangc.Parser.Words.{expect_word, identifier, indent_here, word_token}
use blangc.Parser.Escapes.{is_digit}
use blangc.Parser.Params.{parse_args}
use blangc.Prelude.Int.{pos}
use blangc.Prelude.{
  Bool, List, [], codes, false, leb, ltb, none, not, some, suc, true, zero, ℕ, ◌&&◌, ◌-◌, ◌==◌, ◌^◌,
  ◌||◌, ◌∷◌,
}
use blangc.Parser.Declarations.{parse_declaration, parse_predeclaration}

abbrev cache_all : Node
cache_all = int_ (pos (2 ^ 63 - 1)) 64 false none

abbrev first_cache : MaybeNode → MaybeNode
first_cache nothing = just cache_all
first_cache (just cache) = just cache

-- A measure of a unit definition: an integer becomes a number, and there have to be units.
unfoldable pub as_measure : Node → Parser Node
as_measure (int_ i precision is_unsigned (some units)) p =
    ok (num_ (from_int i false) 0 (some units)) p
as_measure (num_ n precision (some units)) p = ok (num_ n precision (some units)) p
as_measure a p = failed

module _ (ctx : Context) (g : Grammar) where
  -- A declaration, a predeclaration or a definition, at the indentation of the others.
  unfoldable pub definition_loop : (fuel starting_indent indent : ℕ) → Parser (List Node)
  unfolding parse_declaration parse_predeclaration
  definition_loop zero starting_indent indent = out_of_rounds
  definition_loop (suc fuel) starting_indent indent = do
    next ← optionally (do
      skip_whitespace
      here ← indent_here ctx
      null_if (not (here == indent))
      def ← optionally (
          ast_or_null (parse_declaration ctx g)
          <|> ast_or_null (parse_predeclaration ctx g)
          <|> ast_or_null g.def)
      skip_spaces
      skip_whitespace
      after ← indent_here ctx
      c ← peek
      error_if (not (is_some def) && ltb starting_indent after && not (c == 0 || c == 10))
      with_option def (λ d. pure d) null)
    with_option next (λ d. definition_loop fuel starting_indent indent >>= λ rest. pure (d ∷ rest))
        (pure [])

  -- `parse_def_definitions`
  unfoldable pub definitions : ℕ → Parser (List Node)
  unfolding definition_loop
  definitions starting_indent = do
    found ← optionally (do
      skip_whitespace
      indent ← indent_here ctx
      null_if (leb indent starting_indent)
      rounds λ fuel. definition_loop fuel starting_indent indent)
    with_option found (λ list. pure list) (pure [])

  unfoldable pub parse_type_def : Parser Node
  unfolding definitions
  parse_type_def = do
    word_token ctx (codes "type")
    starting_indent ← indent_here ctx
    name ← identifier ctx
    skip_spaces
    token (codes ":=")
    type ← expect_ast g.type_
    list ← definitions starting_indent
    pure (type_def name type (nodes list))

  unfoldable pub cache_size : Parser Node
  cache_size = do skip_whitespace; required (token (codes "=")); skip_whitespace; expect_ast g.expr

  unfoldable pub flag : (is_inline : Bool) → MaybeNode → Parser (Bool × MaybeNode)
  unfolding cache_size
  flag is_inline cache =
      (word_token ctx (codes "inline") >> pure (true, cache))
      <|> (word_token ctx (codes "cached") >> pure (is_inline, first_cache cache))
      <|> (word_token ctx (codes "cache_size") >> cache_size >>= λ a. pure (is_inline, just a))
      <|> pure (is_inline, cache)

  -- The loop over the flags behind the parameters.
  unfoldable pub flags : (fuel : ℕ) → (is_inline : Bool) → MaybeNode → Parser (Bool × MaybeNode)
  unfolding flag
  flags zero is_inline cache = out_of_rounds
  flags (suc fuel) is_inline cache = do
    skip_whitespace
    found ← optionally (token (codes ";") <|> token (codes ","))
    either_of (is_some found)
        (flag is_inline cache >>= λ (now_inline, now_cache). flags fuel now_inline now_cache)
        (pure (is_inline, cache))

  unfoldable pub return_type : Parser MaybeNode
  return_type = do
    arrow ← optionally (token (codes "->") <|> token (codes ":"))
    either_of (is_some arrow) (optional_ast g.type_ >>= λ type. pure (maybe type)) (pure nothing)

  unfoldable pub parse_func_def : Parser Node
  unfolding flags return_type
  parse_func_def = do
    word_token ctx (codes "func")
    name ← identifier ctx
    skip_spaces
    token (codes "(")
    args ← parse_args ctx g false
    skip_whitespace
    (is_inline, cache) ← rounds λ fuel. flags fuel false nothing
    expect_closing (codes ")")
    skip_spaces
    ret_type ← return_type
    body ← expect_ast g.opt_indented_block
    pure (function_def name args ret_type body cache is_inline)

  unfoldable pub parse_convert_def : Parser Node
  parse_convert_def = do
    word_token ctx (codes "convert")
    name ← identifier ctx
    skip_spaces
    token (codes ":")
    source_type ← expect_ast g.type_
    expect_word ctx (codes "as")
    target_type ← expect_ast g.type_
    body ← expect_ast g.opt_indented_block
    pure (convert_def name source_type target_type body)

  unfoldable pub measure : Parser Node
  unfolding as_measure
  measure = required (ast_or_null (parse_num ctx) <|> ast_or_null (parse_int ctx)) >>= as_measure

  unfoldable pub parse_unit_def : Parser Node
  unfolding measure
  parse_unit_def = do
    word_token ctx (codes "unit")
    skip_spaces
    c ← peek
    null_if (not (is_digit c))
    derived ← measure
    skip_spaces
    required (token (codes ":="))
    base ← measure
    pure (unit_def derived base)

  unfoldable pub parse_doctest : Parser Node
  parse_doctest = do
    token (codes ">>>")
    skip_spaces
    expr ← expect_ast g.statement
    skip_whitespace
    has_output ← matches (codes "===")
    either_of has_output
        (do
          skip_spaces
          output ← scanned_not (10 ∷ [])
          error_if (is_empty output)
          pure (doc_test expr (some output)))
        (pure (doc_test expr none))

  unfoldable pub parse_def : Parser Node
  unfolding parse_func_def parse_type_def parse_unit_def parse_convert_def
  parse_def = parse_func_def <|> parse_type_def <|> parse_unit_def <|> parse_convert_def
