-- ===== src/Parser/Forward/Containers.antt =====
-- The positions that the parsers of arrays, tables and structs of parse.c leave.
use blangc.Parser.{Context}
use blangc.Parser.Containers.{
  array_item, attribute, attributes, colon_type, entry_suffix, named_member, optional_comma,
  parse_array, parse_struct, parse_table, struct_member, suffixed_entry, table_item, table_types,
}
use blangc.Parser.Forward.{Forward, out_of_rounds-Forward}
use blangc.Parser.Forward.Grammar.{IsForward, ast_steps, comma_anywhere-Forward}
use blangc.Parser.Forward.Literals.{match_units-Forward}
use blangc.Parser.Forward.Suffixes.{
  optional_suffix_condition-Forward, parse_field_suffix-Forward, parse_fncall_suffix-Forward,
  parse_index_suffix-Forward, parse_suffix_for-Forward, parse_suffix_while-Forward,
}
use blangc.Parser.Forward.TypeGrammar.{parse_type_name-Forward}
use blangc.Parser.Grammar.{Grammar}
use blangc.Parser.Node.{Node}
use blangc.Prelude.{Bytes, Option, suc, zero, ℕ}

module _ (ctx : Context) (g g' : Grammar) (h : IsForward g g') where
  array_item-Forward : Forward (array_item ctx g) (array_item ctx g')
  unfolding array_item
  array_item-Forward = search (ast_steps, optional_suffix_condition-Forward) depth 60 fits 20000

  colon_type-Forward : Forward (colon_type ctx g) (colon_type ctx g')
  unfolding colon_type
  colon_type-Forward = search ast_steps depth 60 fits 20000

  pub parse_array-Forward : Forward (parse_array ctx g) (parse_array ctx g')
  unfolding parse_array
  parse_array-Forward =
      search (ast_steps, array_item-Forward, colon_type-Forward, comma_anywhere-Forward) depth 60
        fits 20000

  table_types-Forward : Forward (table_types ctx g) (table_types ctx g')
  unfolding table_types
  table_types-Forward = search ast_steps depth 60 fits 20000

  pub entry_suffix-Forward :
      (lhs : Node) → Forward (entry_suffix ctx g lhs) (entry_suffix ctx g' lhs)
  unfolding entry_suffix
  entry_suffix-Forward lhs =
      search
        (
          ast_steps, parse_field_suffix-Forward, parse_fncall_suffix-Forward,
          parse_index_suffix-Forward, parse_suffix_for-Forward, parse_suffix_while-Forward,
        )
        depth 60 fits 20000

  suffixed_entry-Forward :
      (lhs : Node) → Forward (suffixed_entry ctx g lhs) (suffixed_entry ctx g' lhs)
  unfolding suffixed_entry
  suffixed_entry-Forward lhs =
      search (ast_steps, entry_suffix-Forward, optional_suffix_condition-Forward) depth 60 fits
        20000

  table_item-Forward : Forward (table_item ctx g) (table_item ctx g')
  unfolding table_item
  table_item-Forward = search (ast_steps, suffixed_entry-Forward) depth 60 fits 20000

  attribute-Forward :
      (name : Bytes) (o : Option Node) → Forward (attribute ctx g name o) (attribute ctx g' name o)
  unfolding attribute
  attribute-Forward name o = search ast_steps depth 60 fits 20000

  attributes-Forward :
      (fuel : ℕ) (fallback default : Option Node)
      → Forward (attributes ctx g fuel fallback default) (attributes ctx g' fuel fallback default)
  unfolding attributes
  attributes-Forward zero fallback default = out_of_rounds-Forward
  attributes-Forward (suc fuel) fallback default =
      let rest = attributes-Forward fuel in
      search (ast_steps, attribute-Forward) depth 60 fits 20000

  pub parse_table-Forward : Forward (parse_table ctx g) (parse_table ctx g')
  unfolding parse_table
  parse_table-Forward =
      search
        (
          ast_steps, attributes-Forward, comma_anywhere-Forward, table_item-Forward,
          table_types-Forward,
        )
        depth 60 fits 20000

  named_member-Forward : Forward (named_member ctx g) (named_member ctx g')
  unfolding named_member
  named_member-Forward = search ast_steps depth 60 fits 20000

  struct_member-Forward : Forward (struct_member ctx g) (struct_member ctx g')
  unfolding struct_member
  struct_member-Forward = search (ast_steps, named_member-Forward) depth 60 fits 20000

  optional_comma-Forward : Forward (optional_comma ctx g) (optional_comma ctx g')
  unfolding optional_comma
  optional_comma-Forward = search ast_steps depth 60 fits 20000

  pub parse_struct-Forward : Forward (parse_struct ctx g) (parse_struct ctx g')
  unfolding parse_struct
  parse_struct-Forward =
      search
        (
          ast_steps, match_units-Forward, optional_comma-Forward, parse_type_name-Forward,
          struct_member-Forward,
        )
        depth 60 fits 20000
