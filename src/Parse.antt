-- ===== src/Parse.antt =====
-- lib/Parse: operator precedence, and the context of the parser.
pub mod Precedence
pub mod NodeKind
pub mod State
pub mod Context
pub mod Tree
pub mod Handle
