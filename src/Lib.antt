-- ===== src/Lib.antt =====
-- A model of the SSS compiler (blangc) and of its run-time library, with theorems about it.
--
-- The program. A file of SSS source is parsed into a syntax tree (parse.c, ast.c), checked
-- (typecheck.c, environment.c, args.c) with the types of types.c and the units of measure of
-- units.c, and compiled in memory by libgccjit (compile/*.c). The compiled code calls the run-time
-- library (libsss/*.c): hash maps, strings, arrays. The compiler uses the hash map and the growing
-- list of that library for its own tables. The parts modelled here are the ones that compute: the
-- parser, types and their relations, units, the type checker with its patterns, and the containers
-- and strings of the run-time library.
--
-- The files.
-- * Types.antt and Types/ are types.c and types.h. `SssType` is `sss_type_s` as a tree, with the
--   constructors of the enumeration `tag`; lists of fields, arguments and union members are data
--   types of the same mutual block. Types/Cord prints and compares types (`type_to_cord`, `type_eq`),
--   Types/Units has the units in types, Types/Precision the magnitudes and `compare_precision`,
--   Types/Memory the tests for heap and stack memory and for order, Types/Relations `type_is_a` and
--   `type_or_type`, and Types/Promote `can_promote`.
-- * Measures.antt and Measures/ are units.c: a unit is a list of components. `qsort`, `strtol` and
--   the character tests of the C library are arguments.
-- * Arguments.antt and Arguments/ are args.c: the positions that `bind_arguments` gives to arguments.
-- * TypeCheck.antt and TypeCheck/ are typecheck.c. `Checked` is the outcome of a check, in which a call
--   of `compiler_err` ends it; `Env` is what the checker reads of `env_t`. TypeCheck/Syntax is the
--   syntax tree of ast.h, TypeCheck/Math `get_math_type`, TypeCheck/Fields `get_field_type` and
--   `get_iter_type`, TypeCheck/Rules and TypeCheck/Nodes the cases of `get_type` for types that are
--   known, TypeCheck/Infer `get_type`, `parse_type_ast` and `bind_match_patterns` by recursion on the
--   tree, and TypeCheck/Patterns `get_missing_pattern`.
-- * Match.antt and Match/ are compile/match.c: the code that `perform_conditional_match` makes, as a
--   test of values. It uses `bind_arguments` and `get_type`; Match/Exhaustive sets it against
--   `get_missing_pattern`, and the other children have the lemmas for that.
-- * Hashmap.antt and Hashmap/ are libsss/hashmap.c. `Map` is `sss_hashmap_t`; the two arrays are
--   lists with an identity each, a number that `allocs` counts, so that it is seen which operation
--   writes to an array that a copy shares. 0 is NULL. The chain of fallback maps is a list. Hashing
--   and comparing keys are the operations `KeyOps`, since the hash function is another project's.
-- * Slice.antt is the pair of a pointer and a stride that libsss/string.h defines; Strings.antt and
--   Strings/ are libsss/string.c, Arrays.antt and Arrays/ the arrays of libsss/utils.c. The memory
--   is a list, and the pointer a position in it. The strides of arrays, in bytes in the source, count
--   items here, so that the stride of the model is 1 where the source's is the size of an item.
-- * Lists.antt and Lists/ are libsss/list.c, with the allocation and the 8-bit slack.
-- * Parser.antt and Parser/ are parse.c. A parser is a function from a position, which is the text
--   from there on, to a node with the position behind it, NULL, an error, or a fault
--   (Parser/Outcome). Parser/Text, Words and Escapes have the text-based primitives, Parser/Node the
--   nodes, and Parser/Literals, Suffixes, Params, Enums, TypeGrammar, Quoted, Containers, Terms,
--   Control, Expressions, Declarations, Definitions and Statements the parsers. The ones that call
--   each other take a record `Grammar` of these, and `grammar` in Parser/Statements ties them
--   together by the depth of the calls. Parser/Operators is the precedence of operators, with its
--   specification; Parser/Forward and Parser/Forward/ are about the
--   positions that parsers leave and the depth of their calls. What libunistring does is an argument.
-- * Files.antt and Files/ are the table of lines of files.c.
-- * Base64.antt and Base64/ are libsss/base64.c, on the characters of a string in order.
-- * Spelling.antt and Spelling/ are the distance of words and the suggestions for misspelt names
--   of environment.c.
-- * Prelude.antt and Prelude/ have what these share: lists, integers, C strings, tests.
-- * Tests/ runs the definitions on small inputs and applies the theorems there.
--
-- Choices. A fault (an access outside an allocation) is `none`, or `fault` where a call has more
-- outcomes. Loops recur on the rounds that are left. The search of a chain of buckets in a hash map
-- recurs on the capacity, which is the number of buckets and so as many as a chain without a cycle
-- has; a longer walk counts as a fault. The loop over the text of a unit recurs on its length, which
-- is enough since each round takes a character. The binary search of lines recurs on their number,
-- since each round takes a line away. The loops of the parser recur on the characters that are left,
-- and its calls on a depth, which bounds how deep the nodes of a file are nested; out of either the
-- outcome is `stuck`. Integers of the source are numbers without a bound, except where the source's
-- width decides (the magnitudes of types, the slack of lists, the strides of slices, the exponents
-- of units, which wrap around).
--
-- Not modelled. The generation of code but for patterns, which calls libgccjit; the
-- opening of files (`resolve_path` is an argument) and the printing of messages; strings delimited by
-- indentation, whose outcome in the parser is `stuck`; hashing by SipHash, which is another project's.
-- Of the type checker: blocks that define types, functions or units or import modules, which
-- compile/blocks.c binds (their outcome is `outside`), the default values of struct fields (known is
-- only which fields have one, and matching a pattern that leaves such a field out is `outside`), and the
-- namespaces of types and the methods that are made on demand, which are arguments. Of the files named
-- above: `can_have_cycles` (types as graphs), the ratio that `unit_derive` computes,
-- `sss_hashmap_compare`, ranges of strings, quoting, splitting and replacing. Types as
-- trees leave out the recursive types that a variant can close.
pub mod Prelude
pub mod Arguments
pub mod Arrays
pub mod Base64
pub mod Files
pub mod Hashmap
pub mod Lists
pub mod Match
pub mod Measures
pub mod Parser
pub mod Slice
pub mod Spelling
pub mod Strings
pub mod TypeCheck
pub mod Types
pub mod Tests
