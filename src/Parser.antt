-- ===== src/Parser.antt =====
-- parse.c: the recursive-descent parser.
pub mod Outcome
pub mod Text
pub mod Words
pub mod Escapes
pub mod Operators
pub mod Node
pub mod Literals
pub mod Grammar
pub mod Suffixes
pub mod TypeGrammar
pub mod Enums
pub mod Params
pub mod Quoted
pub mod Terms
pub mod Containers
pub mod Control
pub mod Expressions
pub mod Definitions
pub mod Declarations
pub mod Statements
pub mod Forward
pub mod Whitespace
pub mod TagBits
use blangc.Files.{Line}
use blangc.Prelude.{ℕ, Bool, Option, List, Bytes}

-- `parse_ctx_t`, with what the parser takes from elsewhere: libunistring's `u8_next` as the code
-- point and the number of bytes at a position before the end, its two tests for identifiers,
-- `unit_string`, and `resolve_path` for the file.
pub record Context : Type 0 where
  pub text : Bytes
  pub lines : List Line
  pub u8_next : Bytes → ℕ × ℕ
  pub xid_start : ℕ → Bool
  pub xid_continue : ℕ → Bool
  pub unit_string : Bytes → Option (Option Bytes)
  pub resolve_path : Bytes → Option Bytes
