-- ===== src/Parser/Node.antt =====
-- The nodes of ast.h that the parser makes, without their places in the file.
use blangc.Prelude.{ℕ, Bool, Option, none, some, List, [], ◌∷◌, Bytes}
use blangc.Prelude.Int.{ℤ}
use blangc.Parser.Operators.{Operator}

-- The `double` of a `Num`: what `strtod` or a conversion makes of the number, the sign, and
-- whether it is divided by 100.
pub data Number : Type 0 where
  decimal : (is_negative : Bool) → (digits : Bytes) → (percent : Bool) → Number
  from_int : ℤ → (percent : Bool) → Number

-- `AddUpdate` and so on.
pub data Update : Type 0 where
  add_update concatenate_update subtract_update multiply_update divide_update : Update
  and_update or_update xor_update : Update

-- `parse_unary`
pub data Unary : Type 0 where
  negative heap_allocate stack_reference not_ type_of size_of : Unary

mutual
  pub data Node : Type 0 where
    nil_ : Node → Node
    bool_ : Bool → Node
    var : Bytes → Node
    -- A `Var` whose name is NULL.
    unnamed_var : Node
    wildcard : Option Bytes → Node
    int_ : ℤ → (precision : ℕ) → (is_unsigned : Bool) → (units : Option Bytes) → Node
    num_ : Number → (precision : ℕ) → (units : Option Bytes) → Node
    range_ : (first last step : MaybeNode) → Node
    char_ : ℕ → Node
    string_literal : Bytes → Node
    string_join : Nodes → Node
    interp : Node → (labelled : Bool) → Node
    predeclare declare : (var value : Node) → Node
    assign : (targets values : Nodes) → Node
    update : Update → Node → Node → Node
    -- The operators of `op_tightness` but for the ranges; `cast` has a type on the right. The key
    -- is the one of `Min`, `Max` and `Mix`.
    binary : Operator → Node → Node → (key : MaybeNode) → Node
    unary : Unary → Node → Node
    array_ : (type : MaybeNode) → (items : Nodes) → Node
    table_ : (key_type value_type : MaybeNode) → Nodes → (fallback default_value : MaybeNode) → Node
    table_entry : (key value : Node) → Node
    function_def :
        (name : Bytes)
        → Args
        → (ret_type : MaybeNode) → (body : Node) → (cache : MaybeNode) → (is_inline : Bool) → Node
    lambda : Args → (body : MaybeNode) → Node
    function_call : (fn : Node) → (args : Nodes) → (extern_return_type : MaybeNode) → Node
    keyword_arg : (name : Option Bytes) → Node → Node
    block : Nodes → Node
    do_ : (label : Option Bytes) → (body : Node) → (else_body : MaybeNode) → Node
    for_ :
        (index : MaybeNode)
        → (value iter : Node) → (first : MaybeNode) → (body : Node) → (between empty : MaybeNode)
        → Node
    while_ : (condition body : Node) → (between : MaybeNode) → Node
    repeat_ : (body : Node) → (between : MaybeNode) → Node
    if_ : (subject : Node) → Cases → Node
    skip_ stop_ : (target : Option Bytes) → Node
    pass : Node
    return_ fail_ : MaybeNode → Node
    extern_ : (name : Option Bytes) → (type : Node) → (address : Bool) → Node
    type_array : Node → Node
    type_table : Node → Node → Node
    type_struct : Args → Node
    type_function : Args → MaybeNode → Node
    type_pointer : Node → (is_optional is_stack is_readonly : Bool) → Node
    type_measure : Node → (units : Bytes) → Node
    type_type_ast : Node → Node
    type_tagged_union : Tags → (tag_bits : ℕ) → Node
    bitcast : (value type : Node) → Node
    struct_ : (type : MaybeNode) → (members : Nodes) → (units : Option Bytes) → Node
    type_def : (name : Bytes) → (type : Node) → (definitions : Nodes) → Node
    index : Node → MaybeNode → (unchecked : Bool) → Node
    field_access : Node → Bytes → Node
    unit_def : (derived base : Node) → Node
    convert_def : (name : Bytes) → (source_type target_type body : Node) → Node
    reduction : (iter combination : Node) → (fallback : MaybeNode) → Node
    doc_test : Node → (output : Option Bytes) → Node
    defer : Node → Node
    with_ : (var : MaybeNode) → (expr : Node) → (cleanup : MaybeNode) → (body : Node) → Node
    use_ : (path : Bytes) → Node
    linker_directive : List Bytes → Node
    variant : (type value : Node) → Node
    using : Nodes → Node → Node

  pub data MaybeNode : Type 0 where
    nothing : MaybeNode
    just : Node → MaybeNode

  pub data Nodes : Type 0 where
    end : Nodes
    cons : Node → Nodes → Nodes

  -- `args_t`: names, types and defaults.
  pub data Args : Type 0 where
    end_args : Args
    arg : (name : Option Bytes) → (type default : MaybeNode) → Args → Args

  -- The patterns and blocks of an `If`.
  pub data Cases : Type 0 where
    end_cases : Cases
    case_ : (pattern block : Node) → Cases → Cases

  pub data Tags : Type 0 where
    end_tags : Tags
    tag_ : (name : Bytes) → (value : ℤ) → Args → Tags → Tags

abbrev pub maybe : Option Node → MaybeNode
maybe none = nothing
maybe (some a) = just a

abbrev pub nodes : List Node → Nodes
nodes [] = end
nodes (a ∷ rest) = cons a (nodes rest)
