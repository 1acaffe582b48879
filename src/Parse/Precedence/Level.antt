-- ===== src/Parse/Precedence/Level.antt =====
-- The enumerations of Precedence.h and Precedence.cc.
use cocktail_lang.Prelude.{ℕ, ◌<◌, arith}

-- `a $ b @ c` is `(a $ b) @ c`, an error, or `a $ (b @ c)`.
pub data OperatorPriority : Type 0 where
  left_first ambiguous right_first : OperatorPriority

pub data Associativity : Type 0 where
  left_to_right none right_to_left : Associativity

pub data PrecedenceLevel : Type 0 where
  highest : PrecedenceLevel
  term_prefix : PrecedenceLevel
  increment_decrement numeric_prefix modulo multiplicative additive : PrecedenceLevel
  bitwise_prefix bitwise_and bitwise_or bitwise_xor bit_shift : PrecedenceLevel
  type_prefix type_postfix : PrecedenceLevel
  as_cast : PrecedenceLevel
  logical_prefix relational logical_and logical_or : PrecedenceLevel
  conditional : PrecedenceLevel
  assignment : PrecedenceLevel
  lowest : PrecedenceLevel

-- The `int8_t` value of a level, by which the table is indexed.
unfoldable pub level_index : PrecedenceLevel → ℕ
level_index highest = 0
level_index term_prefix = 1
level_index increment_decrement = 2
level_index numeric_prefix = 3
level_index modulo = 4
level_index multiplicative = 5
level_index additive = 6
level_index bitwise_prefix = 7
level_index bitwise_and = 8
level_index bitwise_or = 9
level_index bitwise_xor = 10
level_index bit_shift = 11
level_index type_prefix = 12
level_index type_postfix = 13
level_index as_cast = 14
level_index logical_prefix = 15
level_index relational = 16
level_index logical_and = 17
level_index logical_or = 18
level_index conditional = 19
level_index assignment = 20
level_index lowest = 21

-- `NumPrecedenceLevels`
abbrev pub num_precedence_levels : ℕ
num_precedence_levels = 22

pub level_index-lt : (l : PrecedenceLevel) → level_index l < num_precedence_levels
unfolding level_index
level_index-lt highest = omega arith
level_index-lt _ = omega arith
