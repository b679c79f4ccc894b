-- ===== src/Parser/Forward/Enums.antt =====
-- The positions that the parsers of enumerations of parse.c leave.
use blangc.Parser.{Context}
use blangc.Parser.Enums.{
  AfterTag, after_semicolon, after_tag, after_tag_loop, bits_given, int_value, last_or_bits,
  last_tag, named_tag, next_tag, parse_enum_type, short_number, tag_args, tag_loop, tag_value,
  typed_tag,
}
use blangc.Parser.Forward.{Forward, ends, fault, fixed, here, out_of_rounds-Forward}
use blangc.Parser.Forward.Grammar.{IsForward, ast_steps}
use blangc.Parser.Forward.Literals.{parse_int-Forward, scanned-Forward}
use blangc.Parser.Forward.Params.{parse_args-Forward}
use blangc.Parser.Grammar.{Grammar}
use blangc.Parser.Node.{Node, Tags, int_}
use blangc.Parser.Outcome.{Parser}
use blangc.Prelude.{List, suc, zero, ℕ}
use blangc.Prelude.Int.{ℤ}

int_value-Forward : (lhs : Node) → Forward (int_value lhs) (int_value lhs)
unfolding int_value
int_value-Forward (int_ i precision is_unsigned units) = fixed λ p. ends here
int_value-Forward _ = fixed λ p. fault

short_number-Forward : Forward short_number short_number
unfolding short_number
short_number-Forward = search (ast_steps, scanned-Forward) depth 60 fits 20000

last_or_bits-Forward : (values : List ℤ) → Forward (last_or_bits values) (last_or_bits values)
unfolding last_or_bits
last_or_bits-Forward values = search (ast_steps, short_number-Forward) depth 60 fits 20000

module _ (ctx : Context) where
  after_semicolon-Forward :
      (values : List ℤ) → Forward (after_semicolon ctx values) (after_semicolon ctx values)
  unfolding after_semicolon
  after_semicolon-Forward values = search (ast_steps, last_or_bits-Forward) depth 60 fits 20000

  after_tag-Forward : (values : List ℤ) → Forward (after_tag ctx values) (after_tag ctx values)
  unfolding after_tag
  after_tag-Forward values = search (ast_steps, after_semicolon-Forward) depth 60 fits 20000

module _ (ctx : Context) (g g' : Grammar) (h : IsForward g g') where
  typed_tag-Forward :
      (next_value : ℤ) → Forward (typed_tag ctx g next_value) (typed_tag ctx g' next_value)
  unfolding typed_tag
  typed_tag-Forward next_value = search ast_steps depth 60 fits 20000

  tag_args-Forward : Forward (tag_args ctx g) (tag_args ctx g')
  unfolding tag_args
  tag_args-Forward = search (ast_steps, parse_args-Forward) depth 60 fits 20000

  tag_value-Forward :
      (next_value : ℤ) → Forward (tag_value ctx g next_value) (tag_value ctx g' next_value)
  unfolding tag_value
  tag_value-Forward next_value =
      search (ast_steps, int_value-Forward, parse_int-Forward) depth 60 fits 20000

  named_tag-Forward :
      (next_value : ℤ) (seen : List ℤ)
      → Forward (named_tag ctx g next_value seen) (named_tag ctx g' next_value seen)
  unfolding named_tag
  named_tag-Forward next_value seen =
      search (ast_steps, tag_args-Forward, tag_value-Forward) depth 60 fits 20000

  after_tag_loop-Forward :
      (tag : Tags → Tags) (values : List ℤ) (following : AfterTag)
      {loop loop' : List ℤ → Parser (Tags × ℕ)}
      → ((all : List ℤ) → Forward (loop all) (loop' all))
      → Forward
          (after_tag_loop ctx g tag values following loop)
          (after_tag_loop ctx g' tag values following loop')
  unfolding after_tag_loop
  after_tag_loop-Forward tag values next_tag k = search ast_steps depth 60 fits 20000
  after_tag_loop-Forward tag values last_tag k = search ast_steps
  after_tag_loop-Forward tag values (bits_given bits) k = search ast_steps

  tag_loop-Forward :
      (fuel : ℕ) (next_value : ℤ) (seen : List ℤ)
      → Forward (tag_loop ctx g fuel next_value seen) (tag_loop ctx g' fuel next_value seen)
  unfolding tag_loop
  tag_loop-Forward zero next_value seen = out_of_rounds-Forward
  tag_loop-Forward (suc fuel) next_value seen =
      let rest = tag_loop-Forward fuel in
      search
        (ast_steps, after_tag_loop-Forward, after_tag-Forward, named_tag-Forward, typed_tag-Forward)
        depth 60 fits 20000

  pub parse_enum_type-Forward : Forward (parse_enum_type ctx g) (parse_enum_type ctx g')
  unfolding parse_enum_type
  parse_enum_type-Forward = search (ast_steps, tag_loop-Forward) depth 60 fits 20000
