-- ===== src/Parser/Forward/Definitions.antt =====
-- The positions that the parsers of definitions of parse.c leave.
use blangc.Parser.{Context}
use blangc.Parser.Definitions.{
  as_measure, cache_size, definition_loop, definitions, flag, flags, measure, parse_convert_def,
  parse_def, parse_doctest, parse_func_def, parse_type_def, parse_unit_def, return_type,
}
use blangc.Parser.Forward.{Forward, ends, error, fixed, here, out_of_rounds-Forward}
use blangc.Parser.Forward.Declarations.{parse_declaration-Forward, parse_predeclaration-Forward}
use blangc.Parser.Forward.Grammar.{IsForward, ast_steps}
use blangc.Parser.Forward.Literals.{parse_int-Forward, parse_num-Forward}
use blangc.Parser.Forward.Params.{parse_args-Forward}
use blangc.Parser.Forward.Quoted.{scanned_not-Forward}
use blangc.Parser.Grammar.{Grammar}
use blangc.Parser.Node.{MaybeNode, Node, int_, num_}
use blangc.Prelude.{Bool, some, suc, zero, ℕ}

as_measure-Forward : (a : Node) → Forward (as_measure a) (as_measure a)
unfolding as_measure
as_measure-Forward (int_ i precision is_unsigned (some units)) = fixed λ p. ends here
as_measure-Forward (num_ n precision (some units)) = fixed λ p. ends here
as_measure-Forward _ = fixed λ p. error

module _ (ctx : Context) (g g' : Grammar) (h : IsForward g g') where
  definition_loop-Forward :
      (fuel starting_indent indent : ℕ)
      → Forward
          (definition_loop ctx g fuel starting_indent indent)
          (definition_loop ctx g' fuel starting_indent indent)
  unfolding definition_loop
  definition_loop-Forward zero starting_indent indent = out_of_rounds-Forward
  definition_loop-Forward (suc fuel) starting_indent indent =
      let rest = definition_loop-Forward fuel in
      search (ast_steps, parse_declaration-Forward, parse_predeclaration-Forward) depth 60 fits
        20000

  definitions-Forward : (n : ℕ) → Forward (definitions ctx g n) (definitions ctx g' n)
  unfolding definitions
  definitions-Forward n = search (ast_steps, definition_loop-Forward) depth 60 fits 20000

  parse_type_def-Forward : Forward (parse_type_def ctx g) (parse_type_def ctx g')
  unfolding parse_type_def
  parse_type_def-Forward = search (ast_steps, definitions-Forward) depth 60 fits 20000

  cache_size-Forward : Forward (cache_size ctx g) (cache_size ctx g')
  unfolding cache_size
  cache_size-Forward = search ast_steps depth 60 fits 20000

  flag-Forward :
      (is_inline : Bool) (cache : MaybeNode)
      → Forward (flag ctx g is_inline cache) (flag ctx g' is_inline cache)
  unfolding flag
  flag-Forward is_inline cache = search (ast_steps, cache_size-Forward) depth 60 fits 20000

  flags-Forward :
      (fuel : ℕ) (is_inline : Bool) (cache : MaybeNode)
      → Forward (flags ctx g fuel is_inline cache) (flags ctx g' fuel is_inline cache)
  unfolding flags
  flags-Forward zero is_inline cache = out_of_rounds-Forward
  flags-Forward (suc fuel) is_inline cache =
      let rest = flags-Forward fuel in search (ast_steps, flag-Forward) depth 60 fits 20000

  return_type-Forward : Forward (return_type ctx g) (return_type ctx g')
  unfolding return_type
  return_type-Forward = search ast_steps depth 60 fits 20000

  parse_func_def-Forward : Forward (parse_func_def ctx g) (parse_func_def ctx g')
  unfolding parse_func_def
  parse_func_def-Forward =
      search (ast_steps, flags-Forward, parse_args-Forward, return_type-Forward) depth 60 fits 20000

  parse_convert_def-Forward : Forward (parse_convert_def ctx g) (parse_convert_def ctx g')
  unfolding parse_convert_def
  parse_convert_def-Forward = search ast_steps depth 60 fits 20000

  measure-Forward : Forward (measure ctx g) (measure ctx g')
  unfolding measure
  measure-Forward =
      search (ast_steps, as_measure-Forward, parse_int-Forward, parse_num-Forward) depth 60 fits
        20000

  parse_unit_def-Forward : Forward (parse_unit_def ctx g) (parse_unit_def ctx g')
  unfolding parse_unit_def
  parse_unit_def-Forward = search (ast_steps, measure-Forward) depth 60 fits 20000

  pub parse_doctest-Forward : Forward (parse_doctest ctx g) (parse_doctest ctx g')
  unfolding parse_doctest
  parse_doctest-Forward = search (ast_steps, scanned_not-Forward) depth 60 fits 20000

  pub parse_def-Forward : Forward (parse_def ctx g) (parse_def ctx g')
  unfolding parse_def
  parse_def-Forward =
      search
        (
          ast_steps, parse_convert_def-Forward, parse_func_def-Forward, parse_type_def-Forward,
          parse_unit_def-Forward,
        )
        depth 60 fits 20000
