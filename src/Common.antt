-- ===== src/Common.antt =====
-- Shared components of include/Cocktail/Common and lib/Common.
pub mod CharacterSet
pub mod StringRef
pub mod ApInt
pub mod Unicode
