-- ===== src/TypeCheck.antt =====
-- typecheck.c: the type of an expression. This file has the outcome of a check and the environment;
-- the children have the rules for operators and fields, the syntax tree and the checker itself.
pub mod Math
pub mod Fields
pub mod Syntax
pub mod Rules
pub mod Patterns
pub mod Nodes
pub mod Infer
use blangc.Measures.Derive.{Conversion, unit_derive}
use blangc.Measures.{Scan, Sort}
use blangc.Prelude.{
  ℕ, Bool, true, false, if◌then◌else◌, Option, none, some, List, [], ◌∷◌, Bytes, str_eq,
}
use blangc.Types.{SssType}

-- A check returns, or calls `compiler_err`, which does not return, or does what C leaves open (it
-- reads through NULL, or an assertion fails), or leaves the part of the program that is modelled.
pub data Checked (A : Type 0) : Type 0 where
  ok : A → Checked A
  compiler_err : Checked A
  fault : Checked A
  outside : Checked A

infixl 5 ◌>>=◌ ◌>>◌
abbrev pub ◌>>=◌ : {A B : Type 0} → Checked A → (A → Checked B) → Checked B
ok a >>= f = f a
compiler_err >>= f = compiler_err
fault >>= f = fault
outside >>= f = outside

abbrev pub ◌>>◌ : {B : Type 0} → Checked (Unit {0}) → Checked B → Checked B
m >> k = m >>= λ _. k

-- `if (test) compiler_err(...)`
abbrev pub refuse : Bool → Checked (Unit {0})
refuse true = compiler_err
refuse false = ok tt

abbrev pub or_err : {A : Type 0} → Option A → Checked A
or_err none = compiler_err
or_err (some a) = ok a

abbrev pub or_fault : {A : Type 0} → Option A → Checked A
or_fault none = fault
or_fault (some a) = ok a

-- What the checker reads of `binding_t`.
pub record Binding : Type 0 where
  pub type : SssType
  pub visible_in_closures : Bool

-- A table with its fallbacks, the newest binding first.
abbrev pub Bindings : Type 0
Bindings = List (Bytes × Binding)

unfoldable pub lookup_binding : Bindings → Bytes → Option Binding
lookup_binding [] name = none
lookup_binding ((k, b) ∷ bindings) name =
    let rest = lookup_binding bindings name in if str_eq k name then some b else rest

-- What the checker reads of `env_t`. `members` is `get_from_namespace` for the namespaces of types,
-- and `methods` the methods of arrays and tables, which the compiler makes on demand; `has_default`
-- says of which fields of a struct `field_defaults` has a value.
pub record Env : Type 0 where
  pub bindings : Bindings
  pub file_bindings : Bindings
  pub members : SssType → Bytes → Option SssType
  pub methods : SssType → Bytes → Option SssType
  pub derived_units : List Conversion
  pub scan : Scan
  pub qsort : Sort
  pub has_default : blangc.Types.Fields → ℕ → Bool

unfoldable pub get_binding : Env → Bytes → Option Binding
get_binding env name = lookup_binding env.bindings name

-- `hset(env->bindings, name, ...)` in a scope of its own.
unfoldable pub bind : Env → Bytes → SssType → (is_global : Bool) → Env
bind env name t is_global = record env {
  bindings = (name, record { type = t; visible_in_closures = is_global }) ∷ env.bindings;
}

-- The bindings that closures see, over those of the file: each is put in front of the newer ones, as
-- `hset` overwrites what an inner scope has under the name.
unfoldable pub visible : Bindings → Bindings → Bindings
visible [] file = file
visible ((k, b) ∷ bindings) file =
    visible bindings (if b.visible_in_closures then (k, b) ∷ file else file)

unfoldable pub file_scope : Env → Env
file_scope env = record env { bindings = visible env.bindings env.file_bindings }

unfoldable pub derive : Env → Option Bytes → Checked (Option Bytes)
derive env units = or_fault (unit_derive env.scan env.qsort units env.derived_units)
