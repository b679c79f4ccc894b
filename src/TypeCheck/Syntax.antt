-- ===== src/TypeCheck/Syntax.antt =====
-- The syntax tree of ast.h, as far as typecheck.c reads it. A node has the parts that the checker
-- reads; nodes that it treats alike are one constructor. A default value stands with its text,
-- which is how types hold it. Parallel lists (parameters, cases) are lists of entries.
use blangc.Prelude.{ℕ, Bool, Option, none, List, [], ◌∷◌, Bytes}
use blangc.Prelude.Int.{ℤ}
use blangc.TypeCheck.Math.{MathOp}

mutual
  pub data Ast : Type 0 where
    -- Values
    nil_ : Ast → Ast
    bool_ : Bool → Ast
    var : Bytes → Ast
    wildcard : Option Bytes → Ast
    int_ : (precision : ℕ) (is_unsigned : Bool) → Option Bytes → Ast
    num_ : (precision : ℕ) → Option Bytes → Ast
    range_ char_ string_literal interp string_join : Ast
    -- An array with its type, with items, and with neither.
    array_of_type : Ast → Ast
    array_ : Asts → Ast
    array_of_nothing : Ast
    -- A table with both types, and one without, with its default value and entries.
    table_of_types : Ast → Ast → Ast
    table_ : MaybeAst → Asts → Ast
    table_entry : (key value : Ast) → Ast
    struct_ : MaybeAst → Asts → Option Bytes → Ast
    lambda : Params → Ast → Ast
    variant : Ast → Ast
    -- Operators: the ones of `get_math_type`, `Concatenate`, `Equal` and `NotEqual`, the orders and
    -- `In`, and `Min`, `Max` and `Mix`.
    binary : MathOp → Ast → Ast → Ast
    concatenate equality comparison min_max : Ast → Ast → Ast
    not_ negative type_of heap_allocate stack_reference : Ast → Ast
    size_of : Ast
    field_access : Ast → Bytes → Ast
    index : Ast → MaybeAst → Ast
    keyword_arg : Option Bytes → Ast → Ast
    function_call : Ast → Asts → MaybeAst → Ast
    -- `Cast` and `Bitcast` have their type.
    cast : Ast → Ast
    extern : Ast → (address : Bool) → Ast
    -- Control flow: `Return`, `Fail`, `Stop` and `Skip` are one, and so are `While` and `Repeat`.
    block : Asts → Ast
    do_ : (label : Option Bytes) → Ast → MaybeAst → Ast
    abort pass : Ast
    if_ : Ast → Cases → Ast
    loop : Ast → Ast
    for_ : (index value : Option Bytes) → Ast → (first body between empty : MaybeAst) → Ast
    reduction : (iter combination : Ast) → (fallback : MaybeAst) → Ast
    with_ : (name : Option Bytes) → (expr body : Ast) → Ast
    using : Asts → Ast → Ast
    -- Statements: a declaration; the updates, assignments and `Predeclare`; definitions; the rest is
    -- `LinkerDirective`, `Defer` and `Extend`.
    declare : (name : Bytes) → Ast → (is_global : Bool) → Ast
    update : Ast
    function_def : Params → (ret_type : MaybeAst) → Ast
    type_def : Ast
    -- `UnitDef`, `ConvertDef` and `DocTest`.
    other_definition : Ast
    use_ : (path : Bytes) → Ast
    other_statement : Ast
    -- Types
    type_array : Ast → Ast
    type_table : Ast → Ast → Ast
    type_pointer : Ast → (is_optional is_stack is_readonly : Bool) → Ast
    type_measure : Ast → Option Bytes → Ast
    type_function : Params → Ast → Ast
    type_struct : Params → Ast
    type_tagged_union : Tags → (tag_bits : ℕ) → Ast
    type_type_ast : Ast → Ast

  pub data MaybeAst : Type 0 where
    nothing : MaybeAst
    just : Ast → MaybeAst

  pub data Asts : Type 0 where
    end : Asts
    cons : Ast → Asts → Asts

  -- A parameter has a type, or a default value with its text.
  pub data Params : Type 0 where
    end_params : Params
    param : Option Bytes → Ast → Params → Params
    default_param : Option Bytes → Ast → (text : Bytes) → Params → Params

  pub data Cases : Type 0 where
    end_cases : Cases
    case_ : (pattern block : Ast) → Cases → Cases

  pub data Tags : Type 0 where
    end_tags : Tags
    tag_ : (name : Bytes) → (value : ℤ) → Params → Tags → Tags

-- The name that `bind_arguments` sees of an argument.
unfoldable pub argument_name : Ast → Option Bytes
argument_name (keyword_arg name a) = name
argument_name a = none

unfoldable pub argument_names : Asts → List (Option Bytes)
argument_names end = []
argument_names (cons a args) = argument_name a ∷ argument_names args
