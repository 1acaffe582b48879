-- ===== src/Lex.antt =====
-- The lexer, lib/Lex.
pub mod TokenKind
pub mod TokenizedBuffer
pub mod Diagnostic
pub mod LexHelpers
pub mod Identifier
pub mod NumericLiteral
pub mod StringLiteral
pub mod Lexer
