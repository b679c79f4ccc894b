-- ===== src/Parser/Forward/Params.antt =====
-- The positions that the parsers of parameters of parse.c leave.
use blangc.Parser.{Context}
use blangc.Parser.Forward.{Forward, out_of_rounds-Forward}
use blangc.Parser.Forward.Grammar.{IsForward, ast_steps}
use blangc.Parser.Grammar.{Grammar}
use blangc.Parser.Params.{args_loop, batch, default_arg, parse_args, typed_arg, unnamed_arg}
use blangc.Prelude.{Bool, suc, zero, ℕ}

module _ (ctx : Context) (g g' : Grammar) (h : IsForward g g') where
  default_arg-Forward : Forward (default_arg ctx g) (default_arg ctx g')
  unfolding default_arg
  default_arg-Forward = search ast_steps depth 60 fits 20000

  typed_arg-Forward : Forward (typed_arg ctx g) (typed_arg ctx g')
  unfolding typed_arg
  typed_arg-Forward = search ast_steps depth 60 fits 20000

  unnamed_arg-Forward : Forward (unnamed_arg ctx g) (unnamed_arg ctx g')
  unfolding unnamed_arg
  unnamed_arg-Forward = search ast_steps depth 60 fits 20000

  batch-Forward :
      (fuel : ℕ) (allow_unnamed : Bool)
      → Forward (batch ctx g fuel allow_unnamed) (batch ctx g' fuel allow_unnamed)
  unfolding batch
  batch-Forward zero allow_unnamed = out_of_rounds-Forward
  batch-Forward (suc fuel) allow_unnamed =
      let rest = batch-Forward fuel in
      search (ast_steps, default_arg-Forward, typed_arg-Forward, unnamed_arg-Forward) depth 60 fits
        20000

  args_loop-Forward :
      (fuel : ℕ) (allow_unnamed : Bool)
      → Forward (args_loop ctx g fuel allow_unnamed) (args_loop ctx g' fuel allow_unnamed)
  unfolding args_loop
  args_loop-Forward zero allow_unnamed = out_of_rounds-Forward
  args_loop-Forward (suc fuel) allow_unnamed =
      let rest = args_loop-Forward fuel in search (ast_steps, batch-Forward) depth 60 fits 20000

  pub parse_args-Forward :
      (allow_unnamed : Bool)
      → Forward (parse_args ctx g allow_unnamed) (parse_args ctx g' allow_unnamed)
  unfolding parse_args
  parse_args-Forward allow_unnamed = search (ast_steps, args_loop-Forward) depth 60 fits 20000
