-- ===== src/Lib.antt =====
-- The lexer, and the parser's operator precedence, its context and its tree, of the Cocktail compiler.
--
-- The program. The lexer (lib/Lex) cuts the source text into tokens: a loop skips whitespace and
-- dispatches on the next character; it matches brackets with one another, and scans identifiers
-- (TokenizedBuffer.cc), numeric literals (NumericLiteral.cc) and string literals (StringLiteral.cc)
-- by greedy loops over a view of the text, and computes the values of literals from the views,
-- with diagnostics for what is wrong in them. The kinds of tokens and their classes are tables
-- (TokenKind.def, TokenKind.cc). The parser (lib/Parse) asks Precedence.cc how two operators that
-- stand next to each other group, which is answered from a table that is built at compile time; its
-- handlers move over the tokens by the operations of the class Context, which also recover from
-- errors.
--
-- The files.
--   * Prelude: the names that all modules share, tests on numbers, lists over the native numbers.
--   * Common: CharacterSet.h as predicates on bytes; views of a text (`StringRef`) with their offset;
--     the interfaces of what llvm provides, `ApIntApi` for APInt and `UnicodeApi` for code points.
--   * Lex.TokenKind: the enumeration; Index numbers it, Tables and Spelling hold the tables of
--     TokenKind.cc, Matching and Kinds relate them.
--   * Lex.Identifier: `ScanForIdentifierPrefix`, the SIMD code as operations on the lanes of a block
--     and the scalar loop; Vector compares the two.
--   * Lex.NumericLiteral: `NumericLiteral::Lex` as a fold of `scan_step`, one round of the loop;
--     Scanning and Lexed prove what it returns; Digits and Parser are the checks of the class
--     `NumericLiteral::Parser`, method by method; Value is `ComputeValue`; Exponent is about the
--     arithmetic of `GetExponent`.
--   * Lex.StringLiteral: `StringLiteral::Lex` with `string_step` for one round of its loop;
--     Introduced, Bounds and Lexed prove what it returns; Escape and Expand are the expansion of
--     escape sequences and `ComputeValue`; Plain is a round trip, and Shorter and Fuel are about the end of its loops.
--   * Lex.LexHelpers, Lex.Diagnostic: the limit on digits, and the diagnostics as values.
--   * Parse.Precedence: Level holds the enumerations, Table the constructor of the table, Operators
--     the groups and `GetPriority`; Table.Closed and Table.Final are the two tables written out,
--     against which the constructor is run; Order, Bounds and Table.Closure are theorems.
--   * Lex.TokenizedBuffer: the tokens and lines, and the getters that the parser calls.
--   * Lex.Lexer: the class `Lexer` of TokenizedBuffer.cc with the buffer that it fills, as one record;
--     Whitespace, Symbols, Words and Literals hold its methods, Run the dispatch and
--     `TokenizedBuffer::Lex`. Groups says what it is for brackets to be matched, Growth and Linking
--     that an added token keeps them so, Keeps and Closing the same of the methods; Classes, Forms,
--     WordForms, LiteralForms and Skips are about the text that is taken, Balanced about the whole.
--     Parse.Context.Lexed hands the result to the searches of the parser.
--   * Parse.Context: the class `Context` of the parser, as a record of the tokens, the position, the
--     nodes, the stack of states and the diagnostics; NodeKind and State are its enumerations. Skip
--     holds the searches and skips, Fixity the rules on whitespace around operators, Lists the tokens
--     of lists and the context of a declaration; Search, Progress, Elements, Nodes and Operators are
--     theorems.
--   * Parse.Handle: the handlers of the parser's states, a function each. Statement is HandleStatement.cc,
--     CodeBlock is HandleCodeBlock.cc and HandleParenCondition.cc, Declaration is
--     HandleDeclarationScopeLoop.cc, HandleFunction.cc and HandleNamespace.cc, Binding is HandleLet.cc
--     and HandleVar.cc, Brackets is HandleIndexExpression.cc, HandleCallExpression.cc,
--     HandleArrayExpression.cc and HandleParenExpression.cc, Expression with its child modules is
--     HandleExpression.cc, Names is HandlePeriod.cc and HandleDeclarationNameAndParams.cc, Types is
--     HandleType.cc, Parameters is HandleParameter.cc and HandlePattern.cc, Braces is
--     HandleBraceExpression.cc and Package is HandlePackage.cc. Dispatch takes the handler of a state.
--     Statement.Finish, Declaration.Start, Declaration.Loop, Names.Designator, Braces.Uniform and Room
--     are theorems.
--   * Parse.Tree: Tree.cc, the start of `Tree::Parse` and `Tree::Verify`; NodeKind.Shape holds the tables
--     of NodeKind.cc. Shaped says what an accepted tree is, Sound that it is one; Start runs the parser's
--     start on the buffers of the lexer, and Run is `Tree::Parse` with its loop over the handlers.
--   * Tests: concrete runs, and concrete functions for the two interfaces.
--
-- The models. A method that changes its object returns the new object; the diagnostics that it emits
-- are a list. A failed check of the source and `llvm_unreachable` are `none`. Bytes are numbers and a
-- pointer into the buffer is an offset.
--
-- Fuel. The loop of the vector code has the number of bytes for fuel, which is enough as each round
-- takes 16. The transitive closure has one round more than there are entries; on the table of the
-- source it ends within that. The loop over the separators has the size of the text. The searches
-- and skips over tokens have the number of tokens, and each round moves forward. The expansion of
-- strings has twice the size and three: a round takes a character, or starts a line behind one. The
-- loops over whitespace and over tokens have one more than the size of the text, and each round of
-- them takes a character. The loop of the parser over its stack of states takes its fuel as an
-- argument, and says so where it ends before the loop does.
--
-- Not modelled. The iterators over a tree, the checker (lib/Check), SemIR, and lowering, which
-- only drives LLVM; lib/ParseBK, which is an older copy of the parser; the tools, which call
-- clang; input and output.
pub mod Prelude
pub mod Common
pub mod Lex
pub mod Parse
pub mod Tests
