-- ===== src/Parser/Forward/TypeGrammar.antt =====
-- The positions that the parsers of types of parse.c leave.
use blangc.Parser.{Context}
use blangc.Parser.Forward.{Forward, ends, fixed}
use blangc.Parser.Forward.Enums.{parse_enum_type-Forward}
use blangc.Parser.Forward.Grammar.{IsForward, ast_steps}
use blangc.Parser.Forward.Params.{parse_args-Forward}
use blangc.Parser.Forward.Steps.{some_not-IsSuffix}
use blangc.Parser.Forward.Suffixes.{parse_field_suffix-Forward}
use blangc.Parser.Grammar.{Grammar}
use blangc.Parser.Node.{Node}
use blangc.Parser.TypeGrammar.{
  get_units, measure_suffix, parse_array_type, parse_func_type, parse_group_type,
  parse_pointer_type, parse_struct_type, parse_table_type, parse_type_name, parse_type_node,
  parse_type_type, pointer_sign,
}
use blangc.Prelude.{codes}

module _ (ctx : Context) (g g' : Grammar) (h : IsForward g g') where
  parse_table_type-Forward : Forward (parse_table_type ctx g) (parse_table_type ctx g')
  unfolding parse_table_type
  parse_table_type-Forward = search ast_steps depth 60 fits 20000

  parse_struct_type-Forward : Forward (parse_struct_type ctx g) (parse_struct_type ctx g')
  unfolding parse_struct_type
  parse_struct_type-Forward = search (ast_steps, parse_args-Forward) depth 60 fits 20000

  parse_func_type-Forward : Forward (parse_func_type ctx g) (parse_func_type ctx g')
  unfolding parse_func_type
  parse_func_type-Forward = search (ast_steps, parse_args-Forward) depth 60 fits 20000

  parse_array_type-Forward : Forward (parse_array_type ctx g) (parse_array_type ctx g')
  unfolding parse_array_type
  parse_array_type-Forward = search ast_steps depth 60 fits 20000

  pointer_sign-Forward : Forward (pointer_sign ctx g) (pointer_sign ctx g')
  unfolding pointer_sign
  pointer_sign-Forward = search ast_steps depth 60 fits 20000

  parse_pointer_type-Forward : Forward (parse_pointer_type ctx g) (parse_pointer_type ctx g')
  unfolding parse_pointer_type
  parse_pointer_type-Forward = search (ast_steps, pointer_sign-Forward) depth 60 fits 20000

  parse_type_type-Forward : Forward (parse_type_type ctx g) (parse_type_type ctx g')
  unfolding parse_type_type
  parse_type_type-Forward = search ast_steps depth 60 fits 20000

  pub parse_type_name-Forward : Forward (parse_type_name ctx g) (parse_type_name ctx g')
  unfolding parse_type_name
  parse_type_name-Forward = search (ast_steps, parse_field_suffix-Forward) depth 60 fits 20000

  parse_group_type-Forward : Forward (parse_group_type ctx g) (parse_group_type ctx g')
  unfolding parse_group_type
  parse_group_type-Forward = search ast_steps depth 60 fits 20000

  get_units-Forward : Forward (get_units ctx g) (get_units ctx g')
  unfolding get_units
  get_units-Forward = fixed λ p. ends (some_not-IsSuffix (codes ">") p)

  measure_suffix-Forward :
      (lhs : Node) → Forward (measure_suffix ctx g lhs) (measure_suffix ctx g' lhs)
  unfolding measure_suffix
  measure_suffix-Forward lhs = search (ast_steps, get_units-Forward) depth 60 fits 20000

  pub parse_type_node-Forward : Forward (parse_type_node ctx g) (parse_type_node ctx g')
  unfolding parse_type_node
  parse_type_node-Forward =
      search
        (
          ast_steps, measure_suffix-Forward, parse_array_type-Forward, parse_enum_type-Forward,
          parse_func_type-Forward, parse_group_type-Forward, parse_pointer_type-Forward,
          parse_struct_type-Forward, parse_table_type-Forward, parse_type_name-Forward,
          parse_type_type-Forward,
        )
        depth 60 fits 20000
