-- ===== src/Parse/Precedence.antt =====
-- include/Cocktail/Parse/Precedence.h and lib/Parse/Precedence.cc: operator precedence. The child
-- `Table` builds the priority table, `Operators` reads it, the others prove what it promises.
pub mod Level
pub mod Table
pub mod Operators
pub mod Order
pub mod Bounds
