-- ===== src/Lib.antt =====
-- HolyPHP: the compiler front end, the runtime's strings, arrays, channels and string functions, and the
-- package manager's core.
--
-- The compiler (src/hphpc) reads a source in this order: lexer.c cuts it into tokens, lex_all of
-- parser.c drops the newlines that only continue an expression, a token stream with a cursor hands the
-- tokens to the parser, and the syntax tree of ast.c goes to sema.c and codegen.c, which writes C. The C
-- text is compiled with the runtime (src/hphpc/runtime), whose strings and arrays hold the values of the
-- program. pkgcore.c manages packages: manifests, versions and .hpx archives.
--
-- Modules and what they model:
--   Prelude            names shared by all: byte strings, lists over native numbers, signed integers.
--   Lexer              lexer.c and token.h. Lexer/Cursor is `Lexer` with peek, cur, eof, adv and matchc;
--                      the rest of the source stands for `src + pos`. Lexer/Token has the tokens and
--                      keywords, Lexer/Trivia skip_trivia, Lexer/Number lex_number, Lexer/Quoted the
--                      string literals, Lexer/Template lex_template_parts, Lexer/Operator the switch of
--                      lex_next, and Lexer/Next the function lex_next. Lexer/Progress is about the place
--                      of the cursor in its source.
--   Parser             parser.c and the token stream of lexer.c. Parser/Layout is lex_all,
--                      Parser/Stream has ts_init to ts_expect, Parser/Types is parse_type, and
--                      Parser/Expr has the operators from parse_assign to parse_unary, over
--                      parse_postfix, which Parser/Expr/Postfix has over parse_primary as a
--                      parameter; Parser/Expr/Grammar is the grammar they read.
--   Ast                ast.c and ast.h: the kinds of types, and type_to_string in Ast/Print.
--   Runtime            runtime/hphp_rt.c. Runtime/Str has the string functions on byte strings, and
--                      Runtime/Str/Builder hp_str_concat2 on a store of string objects, where sharing
--                      can be seen. Runtime/Value is hval with hp_key_eq, and its Convert
--                      the truth, equality and order of values; Runtime/Arr has harr and its
--                      hash index, Runtime/Arr/Ops the operations on arrays.
--                      Runtime/Std is runtime/hphp_std.c: Runtime/Std/Codec has base64, hexadecimal and
--                      URL encoding, Runtime/Std/Text the functions on strings, with explode, implode
--                      and str_split in its Pieces, levenshtein in its Distance and the matcher of
--                      glob in its Wildcard. Runtime/Regex has the regular expressions: the
--                      matcher, its parser of patterns in Regex/Parse and the functions preg_* in
--                      Regex/Preg. Runtime/Std/Json has json_encode and json_decode, and
--                      Runtime/Usort the insertion sort of usort, uasort and uksort.
--                      Runtime/Thr/Chan is a channel of runtime/hphp_thr.c: ChanRec with its ring and its
--                      queues, and the sections of chan_send_impl, chan_recv_impl and
--                      hpbi_chan_close under the channel's lock; Chan/History and Chan/Delivered
--                      have its histories. Runtime/Thr/Barrier is a barrier of it, with
--                      the arrivals and the wait loop of hpbi_barrier_wait.
--   Sema               sema.c: Sema/Types has unify_numeric, types_equal and types_compatible,
--                      Sema/Scopes scope_find and scope_declare, Sema/Borrow the loans of the borrow
--                      checker, and Sema/Returns stmt_chain_returns.
--   Package            pkgcore.c: Package/Manifest has pkg_manifest_parse and pkg_version_cmp,
--                      Package/Registry the installed packages of registry.json, and Package/Hpx the
--                      archives of pkg_pack_dir, pkg_extract and pkg_list_entries.
--
-- The threads of a program meet at a channel only under its lock, so that an interleaving of threads is a
-- list of operations on the channel; a thread that waits is a waiter in a queue, and waking it is an
-- operation of its own.
--
-- State is passed explicitly: a cursor, a token stream, a store of strings or an array goes in and comes
-- out. A call of fatal ends the program and is an error value: LexError, failed, ManifestError.
-- Reading memory that was never written is a parameter `junk`. The memory around the archive of
-- pkg_extract is the parameter `Memory`: a size near 2^64 leads there.
--
-- Fuel: every loop of the lexer consumes a byte per round, so its fuel is the number of bytes left and one
-- more; lex_all has the length of the source and one more, and `starved` would be a loop that has not
-- ended. The loops over an archive have the length of the archive and one more, that over registry.json
-- its length. pkg_extract does not end on every archive: where a sum of addresses wraps it may go back,
-- and its result after the fuel is `running`; what is said of its paths holds for any fuel. hp_str_replace
-- has the length of its subject and one more. parse_type nests on fuel, and runs out as `starved`. A probe
-- of the hash index has the size of the table; `endless` and `none` say that no slot stopped it. A decimal
-- print has 20 digits, which a 64-bit size never exceeds. The operators have one unit of fuel for each
-- token, explode has the length of its subject and one more, str_split the length. A repetition of a
-- regular expression has the bound of its source, the length of the subject with the least count and two
-- more; the parser of patterns has the length of the pattern and one more, the loops of preg_* two more
-- than the subject, and json_decode twice the length of the text and two more.
--
-- Not modelled: parse_primary, the statements and the declarations of parser.c; the rest of sema.c, which
-- is most of check_expr and check_stmt; codegen.c, main.c, builtins.c and util.c; the file system calls of
-- pkgcore.c and the sockets of pkgnet.c; the other functions of hphp_std.c on arrays, those on files,
-- sockets and dates, and hp_closure_call, so that the closure of usort is a function; the registries,
-- mutexes, atomics and threads of hphp_thr.c, and the memory of its waiters; the user interface files of
-- the runtime; and runtime_embed.h, which is generated. Floating point values are a type that the models
-- do not look into, and strtod is not computed. A NULL pointer to a string or an array is left out.
pub mod Prelude
pub mod Ast
pub mod Lexer
pub mod Package
pub mod Parser
pub mod Runtime
pub mod Sema
