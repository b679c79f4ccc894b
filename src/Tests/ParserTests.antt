-- ===== src/Tests/ParserTests.antt =====
-- Runs of the parser.
use blangc.Parser.Outcome.{
  pure, ◌>>=◌, ◌>>◌, null, parser_err, ◌<|>◌, optionally, required, either_of, with_option, rounds,
  out_of_rounds, suffix_loop, suffixes, null_if, assert, error_if, item_loop, items, Result, ok,
  failed, stuck,
}
use blangc.Parser.Text.{
  here, member, some_of, some_not, after, comment, skip, whitespace, mirror_delim, close_group,
  match_group, match_indentation, skip_spaces, skip_whitespace, matches, token, peek, position,
  expect_closing, blanks,
}
use blangc.Parser.Escapes.{hex_digit, number, unescapes, octal_escape, hex_escape, unescape}
use blangc.Parser.Words.{
  any_eq, is_keyword, is_xid_continue_next, match_word, word_token, matches_word, expect_word,
  word_end, get_word_end, get_word, get_id, identifier, indent_here, line_number_here, deeper,
  indent,
}
use blangc.Parser.Operators.{
  op_tightness, match_operator_word, match_binary_operator, tightest_from, tightest_op, merge_at,
  merge_rounds, merge_terms, Joined, add, multiply,
}
use blangc.Parser.Literals.{
  without_underscores, scanned, based, magnitude, suffixed, bracketed_units, match_units,
  int_with_suffix, parse_int, num_end, num_digits, parse_num, parse_bool, parse_var, parse_wildcard,
  parse_char,
}
use blangc.Parser.Grammar.{expect_ast, optional_ast, ast_or_null, comma, comma_anywhere}
use blangc.Parser.Suffixes.{
  parse_index_suffix, parse_variant_suffix, parse_field_suffix, is_infix, infix_follows,
  keyword_argument, no_arguments, closing_paren, some_arguments, extern_return_type,
  parse_fncall_suffix, condition_word, declaration_or_expr, condition, optional_suffix_condition,
  loop_variables, parse_suffix_for, parse_suffix_while,
}
use blangc.Parser.Params.{default_arg, typed_arg, unnamed_arg, batch, args_loop, parse_args}
use blangc.Parser.Enums.{
  get_tag_bits, type_letters, has_value, int_value, short_number, last_or_bits, after_semicolon,
  after_tag, typed_tag, tag_args, tag_value, named_tag, after_tag_loop, tag_loop, parse_enum_type,
}
use blangc.Parser.TypeGrammar.{
  parse_table_type, parse_struct_type, parse_func_type, parse_array_type, pointer_sign,
  parse_pointer_type, parse_type_type, parse_type_name, parse_group_type, get_units, measure_suffix,
  parse_type_node,
}
use blangc.Parser.Quoted.{
  escape_char, interp_char, next_char, opening_quotes, scanned_not, unescaped, parse_parens,
  parse_interpolation, special_char, inline_loop, indented_string, parse_string,
}
use blangc.Parser.Containers.{
  array_item, colon_type, parse_array, table_types, entry_suffix, suffixed_entry, table_item,
  attribute, attributes, parse_table, named_member, struct_member, optional_comma, parse_struct,
}
use blangc.Parser.Terms.{
  binary_operator, parse_unary, key_suffix, longer_key, mix_key, operator_key, parse_ellipsis,
  combination, parse_reduction, parse_splat, parse_nil, parse_lambda, jump_target, parse_skip,
  parse_stop, parse_return, parse_fail, parse_bitcast, parse_extern, parse_term_no_suffix,
  term_suffix, parse_term,
}
use blangc.Parser.Control.{
  word_at_indent, clause, body, then_body, parse_unless, patterns, clauses, simple_cases,
  word_follows, parse_if, parse_do, parse_defer, with_variable, parse_with, semicolon, parse_using,
  first_block, parse_for, parse_repeat, parse_while, parse_control,
}
use blangc.Parser.Expressions.{
  merge_nodes, or_error, no_rhs, rhs_of, following_operator, following_term, continued, term_loop,
  parse_expr, parse_extended_expr,
}
use blangc.Parser.Declarations.{
  update_sign, resolved, semicolons, directive, directives, parse_predeclaration, parse_use,
  parse_declaration, parse_update, parse_assignment, parse_linker,
}
use blangc.Parser.Definitions.{
  as_measure, definition_loop, definitions, parse_type_def, cache_size, flag, flags, return_type,
  parse_func_def, parse_convert_def, measure, parse_unit_def, parse_doctest, parse_def,
}
use blangc.Parser.Statements.{
  statement_suffix, parse_statement, same_block, block_loop, parse_block, inline_statement,
  parse_inline_block, parse_opt_indented_block, grammar, shebang, at_end, file_parser, parse_file,
  parse_type,
}
use blangc.Files.{get_indent, get_line_number, line_of, search, line_info, load_lines}
use blangc.Parser.{Context}
use blangc.Parser.Forward.Grammar.{IsForward}
use blangc.Parser.Forward.Statements.{grammar-IsForward}
use blangc.Parser.Node.{
  Node, MaybeNode, nothing, just, int_, var, binary, range_, reduction, block, declare,
  function_call, type_tagged_union, tag_, end_tags, end_args, nodes,
}
use blangc.Parser.Operators.Merging.{Groups, merge_terms-Groups}
use blangc.Parser.Operators.Precedence.{Tree, evaluate}
use blangc.Parser.TagBits.{AllBelow, max_value, get_tag_bits-holds}
use blangc.Parser.Whitespace.{whitespace-done}
use blangc.Prelude.Int.{ℤ, pos, negsuc, ◌+ℤ◌}
use blangc.Prelude.{
  ℕ, ◌||◌, ◌&&◌, leb, ◌==◌, Bool, false, none, some, List, [], ◌∷◌, Bytes, codes, str_eq, ◌≡◌, refl,
  ◌⊎◌, arith,
}

-- The definitions that the runs unfold.
parser_code : Unit {0}
unfolding pure ◌>>=◌ ◌>>◌ null parser_err ◌<|>◌ optionally required either_of with_option rounds
    out_of_rounds suffix_loop suffixes null_if assert error_if item_loop items here member some_of
    some_not after comment skip whitespace mirror_delim close_group match_group match_indentation
    skip_spaces skip_whitespace matches token peek position expect_closing hex_digit number
    unescapes octal_escape hex_escape unescape any_eq is_keyword is_xid_continue_next match_word
    word_token matches_word expect_word word_end get_word_end get_word get_id identifier indent_here
    line_number_here deeper indent op_tightness match_operator_word match_binary_operator
    tightest_from tightest_op merge_at merge_rounds merge_terms without_underscores scanned based
    magnitude suffixed bracketed_units match_units int_with_suffix parse_int num_end num_digits
    parse_num parse_bool parse_var parse_wildcard parse_char expect_ast optional_ast ast_or_null
    comma comma_anywhere parse_index_suffix parse_variant_suffix parse_field_suffix is_infix
    infix_follows keyword_argument no_arguments closing_paren some_arguments extern_return_type
    parse_fncall_suffix condition_word declaration_or_expr condition optional_suffix_condition
    loop_variables parse_suffix_for parse_suffix_while default_arg typed_arg unnamed_arg batch
    args_loop parse_args get_tag_bits type_letters has_value int_value short_number last_or_bits
    after_semicolon after_tag typed_tag tag_args tag_value named_tag after_tag_loop tag_loop
    parse_enum_type parse_table_type parse_struct_type parse_func_type parse_array_type pointer_sign
    parse_pointer_type parse_type_type parse_type_name parse_group_type get_units measure_suffix
    parse_type_node escape_char interp_char next_char opening_quotes scanned_not unescaped
    parse_parens parse_interpolation special_char inline_loop indented_string parse_string
    array_item colon_type parse_array table_types entry_suffix suffixed_entry table_item attribute
    attributes parse_table named_member struct_member optional_comma parse_struct binary_operator
    parse_unary key_suffix longer_key mix_key operator_key parse_ellipsis combination
    parse_reduction parse_splat parse_nil parse_lambda jump_target parse_skip parse_stop
    parse_return parse_fail parse_bitcast parse_extern parse_term_no_suffix term_suffix parse_term
    word_at_indent clause body then_body parse_unless patterns clauses simple_cases word_follows
    parse_if parse_do parse_defer with_variable parse_with semicolon parse_using first_block
    parse_for parse_repeat parse_while parse_control merge_nodes or_error no_rhs rhs_of
    following_operator following_term continued term_loop parse_expr parse_extended_expr update_sign
    resolved semicolons directive directives parse_predeclaration parse_use parse_declaration
    parse_update parse_assignment parse_linker as_measure definition_loop definitions parse_type_def
    cache_size flag flags return_type parse_func_def parse_convert_def measure parse_unit_def
    parse_doctest parse_def statement_suffix parse_statement same_block block_loop parse_block
    inline_statement parse_inline_block parse_opt_indented_block grammar shebang at_end file_parser
    parse_file parse_type get_indent get_line_number line_of search line_info load_lines str_eq ◌+ℤ◌
parser_code = tt

abbrev is_letter : ℕ → Bool
is_letter c = (leb b'a' c && leb c b'z') || (leb b'A' c && leb c b'Z') || c == b'_'

abbrev ascii_next : Bytes → ℕ × ℕ
ascii_next [] = (0, 0)
ascii_next (c ∷ p) = (c, 1)

abbrev file_of : Bytes → Context
file_of text = record {
  text = text;
  lines = load_lines 0 (text ∷ []);
  u8_next = ascii_next;
  xid_start = is_letter;
  xid_continue = λ c. is_letter c || (leb b'0' c && leb c b'9');
  unit_string = λ units. some (some units);
  resolve_path = λ path. some path;
}

abbrev expression_of : Bytes → Result Node
expression_of text = let ctx = file_of text in parse_expr ctx (grammar ctx 4) text

abbrev number_node : ℕ → Node
number_node n = int_ (pos n) 64 false none

abbrev x : Node
x = var (codes "x")

abbrev y : Node
y = var (codes "y")

-- Multiplication binds tighter than addition.
sums :
    expression_of (codes "1+2*x")
    ≡ ok (binary add (number_node 1) (binary multiply (number_node 2) x nothing) nothing) []
unfolding parser_code
sums = refl

-- `by` gives the range its step.
steps :
    expression_of (codes "3..9 by 2")
    ≡ ok (range_ (just (number_node 3)) (just (number_node 9)) (just (number_node 2))) []
unfolding parser_code
steps = refl

-- An argument that begins with a name and an equals sign is a keyword argument, also where it is a
-- comparison.
equals_argument : expression_of (codes "f(x == y)") ≡ failed
unfolding parser_code
equals_argument = refl

-- The sign is lost.
negative_reduction : expression_of (codes "| -x | y") ≡ ok (reduction y x nothing) []
unfolding parser_code
negative_reduction = refl

-- The text ends inside the string.
unfinished : expression_of (codes "'unfinished") ≡ stuck
unfolding parser_code
unfinished = refl

tags :
    parse_type (file_of (codes "enum(A=5 | B; bits=16)")) 4
    ≡ ok
        (type_tagged_union
          (tag_ (codes "A") (pos 5) end_args (tag_ (codes "B") (pos 6) end_args end_tags))
          16)
        []
unfolding parser_code
tags = refl

-- A negative value of more than 8 bits.
narrow_tag :
    parse_type (file_of (codes "enum(A=-300)")) 4
    ≡ ok (type_tagged_union (tag_ (codes "A") (negsuc 299) end_args end_tags) 8) []
unfolding parser_code
narrow_tag = refl

calls :
    parse_file (file_of (codes "x := f(1, y)")) 8
    ≡ ok
        (block (
          nodes (
            declare x (function_call (var (codes "f")) (nodes (number_node 1 ∷ y ∷ [])) nothing)
            ∷ [])))
        []
unfolding parser_code
calls = refl

abbrev joined_terms : List (Joined MaybeNode Node)
joined_terms =
    record { operator = add; key = nothing; term = number_node 2 }
    ∷ record { operator = multiply; key = nothing; term = x }
    ∷ []

merge_terms-Groups_example :
    (t : Tree MaybeNode Node) × Groups (number_node 1) joined_terms t
    × (merge_terms merge_nodes (number_node 1) joined_terms ≡ evaluate merge_nodes t)
merge_terms-Groups_example = merge_terms-Groups merge_nodes (number_node 1) joined_terms

grammar-IsForward_example :
    IsForward (grammar (file_of (codes "1+2*x")) 4) (grammar (file_of (codes "1+2*x")) 5)
grammar-IsForward_example = grammar-IsForward (file_of (codes "1+2*x")) 4

whitespace-done_example :
    (some_of blanks (whitespace (codes " // c\n\tx")) ≡ whitespace (codes " // c\n\tx"))
    × (comment (whitespace (codes " // c\n\tx")) ≡ none)
whitespace-done_example = whitespace-done (codes " // c\n\tx")

abbrev tag_values : List ℤ
tag_values = pos 3 ∷ pos 300 ∷ []

small_values : AllBelow 9223372036854775807 tag_values
unfolding AllBelow
small_values = (omega arith, (omega arith, tt))

get_tag_bits-holds_example :
    ((get_tag_bits 8 tag_values ≡ 8)
      ⊎ (get_tag_bits 8 tag_values ≡ 16)
      ⊎ (get_tag_bits 8 tag_values ≡ 32)
      ⊎ (get_tag_bits 8 tag_values ≡ 64))
    × AllBelow (max_value (get_tag_bits 8 tag_values)) tag_values
get_tag_bits-holds_example = get_tag_bits-holds tag_values small_values
