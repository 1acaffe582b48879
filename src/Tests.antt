-- ===== src/Tests.antt =====
-- Runs of the definitions on concrete inputs.
pub mod Precedence
pub mod Numeric
pub mod Strings
pub mod Parser
pub mod Lexer
pub mod Tree
pub mod Handlers
