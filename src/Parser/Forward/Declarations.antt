-- ===== src/Parser/Forward/Declarations.antt =====
-- The positions that the parsers of declarations and updates of parse.c leave.
use blangc.Parser.{Context}
use blangc.Parser.Declarations.{
  directive, directives, parse_assignment, parse_declaration, parse_linker, parse_predeclaration,
  parse_update, parse_use, resolved, semicolons, update_sign,
}
use blangc.Parser.Forward.{Forward, ends, error, fixed, here, out_of_rounds-Forward}
use blangc.Parser.Forward.Grammar.{IsForward, ast_steps, comma-Forward}
use blangc.Parser.Forward.Literals.{parse_var-Forward}
use blangc.Parser.Forward.Quoted.{scanned_not-Forward}
use blangc.Parser.Grammar.{Grammar}
use blangc.Prelude.{Bytes, Option, none, some, suc, zero, ℕ}

resolved-Forward : (path : Option Bytes) → Forward (resolved path) (resolved path)
unfolding resolved
resolved-Forward none = fixed λ p. error
resolved-Forward (some path) = fixed λ p. ends here

update_sign-Forward : Forward update_sign update_sign
unfolding update_sign
update_sign-Forward = search ast_steps depth 60 fits 20000

semicolons-Forward : (fuel : ℕ) → Forward (semicolons fuel) (semicolons fuel)
unfolding semicolons
semicolons-Forward zero = out_of_rounds-Forward
semicolons-Forward (suc fuel) =
    let rest = semicolons-Forward fuel in search ast_steps depth 60 fits 20000

directive-Forward : Forward directive directive
unfolding directive
directive-Forward = search (ast_steps, scanned_not-Forward) depth 60 fits 20000

directives-Forward : Forward directives directives
unfolding directives
directives-Forward = search (ast_steps, directive-Forward) depth 60 fits 20000

module _ (ctx : Context) (g g' : Grammar) (h : IsForward g g') where
  pub parse_predeclaration-Forward :
      Forward (parse_predeclaration ctx g) (parse_predeclaration ctx g')
  unfolding parse_predeclaration
  parse_predeclaration-Forward = search (ast_steps, parse_var-Forward) depth 60 fits 20000

  pub parse_use-Forward : Forward (parse_use ctx g) (parse_use ctx g')
  unfolding parse_use
  parse_use-Forward =
      search (ast_steps, resolved-Forward, scanned_not-Forward, semicolons-Forward) depth 60 fits
        20000

  pub parse_declaration-Forward : Forward (parse_declaration ctx g) (parse_declaration ctx g')
  unfolding parse_declaration
  parse_declaration-Forward =
      search (ast_steps, parse_use-Forward, parse_var-Forward) depth 60 fits 20000

  pub parse_update-Forward : Forward (parse_update ctx g) (parse_update ctx g')
  unfolding parse_update
  parse_update-Forward = search (ast_steps, update_sign-Forward) depth 60 fits 20000

  pub parse_assignment-Forward : Forward (parse_assignment ctx g) (parse_assignment ctx g')
  unfolding parse_assignment
  parse_assignment-Forward = search (ast_steps, comma-Forward) depth 60 fits 20000

  pub parse_linker-Forward : Forward (parse_linker ctx g) (parse_linker ctx g')
  unfolding parse_linker
  parse_linker-Forward = search (ast_steps, directives-Forward) depth 60 fits 20000
