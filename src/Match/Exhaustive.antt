-- ===== src/Match/Exhaustive.antt =====
-- `get_missing_pattern` of typecheck.c against `perform_conditional_match` of compile/match.c, for the
-- cases of an `if`.
use blangc.Match.Cases.{InPats}
use blangc.Match.{Value, Test}
use blangc.TypeCheck.Syntax.{Ast, Asts}
use blangc.TypeCheck.{Env}
use blangc.Types.{SssType}
use blangc.Match.Codes.{Code}

module _ (equals : Ast → Test) where
  abbrev Some : Env → SssType → Asts → Value → Type 0
  Some env t pats v = (a : Ast) × InPats a pats × Code equals env t a v
