-- ===== src/Parse/Precedence/Operators.antt =====
-- `PrecedenceGroup` of include/Cocktail/Parse/Precedence.h and lib/Parse/Precedence.cc: the group
-- of each operator, and `GetPriority`, which reads the table.
use cocktail_lang.Prelude.{Bool, true, false, Option, List, if◌then◌else◌}
use cocktail_lang.Lex.TokenKind.{
  TokenKind, star, amp, not_keyword, minus, minus_minus, plus_plus, caret, if_keyword, const, equal,
  plus_equal, minus_equal, star_equal, slash_equal, percent_equal, amp_equal, pipe_equal,
  caret_equal, greater_greater_equal, less_less_equal, and, or, pipe, greater_greater, less_less,
  equal_equal, exclaim_equal, less, less_equal, greater, greater_equal, less_equal_greater, plus,
  slash, percent, as_keyword,
}
use cocktail_lang.Parse.Precedence.Level.{
  OperatorPriority, left_first, ambiguous, right_first, Associativity, left_to_right, right_to_left,
  PrecedenceLevel, level_index, highest, term_prefix, increment_decrement, numeric_prefix, modulo,
  multiplicative, additive, bitwise_prefix, bitwise_and, bitwise_or, bitwise_xor, bit_shift,
  type_prefix, type_postfix, as_cast, logical_prefix, relational, logical_and, logical_or,
  conditional, assignment, lowest,
}
use cocktail_lang.Parse.Precedence.Table.{Table, entry, operator_priority_table}

pub record PrecedenceGroup : Type 0 where
  pub level : PrecedenceLevel

abbrev pub group : PrecedenceLevel → PrecedenceGroup
group l = record { level = l }

pub record Trailing : Type 0 where
  pub level : PrecedenceGroup
  pub is_binary : Bool

unfoldable pub for_postfix_expression : PrecedenceGroup
for_postfix_expression = group highest

unfoldable pub for_top_level_expression : PrecedenceGroup
for_top_level_expression = group conditional

unfoldable pub for_expression_statement : PrecedenceGroup
for_expression_statement = group lowest

unfoldable pub for_type : PrecedenceGroup
unfolding for_top_level_expression
for_type = for_top_level_expression

unfoldable pub for_leading : TokenKind → Option PrecedenceGroup
for_leading star = Option.some (group term_prefix)
for_leading amp = Option.some (group term_prefix)
for_leading not_keyword = Option.some (group logical_prefix)
for_leading minus = Option.some (group numeric_prefix)
for_leading minus_minus = Option.some (group increment_decrement)
for_leading plus_plus = Option.some (group increment_decrement)
for_leading caret = Option.some (group bitwise_prefix)
for_leading if_keyword = Option.some (group conditional)
for_leading const = Option.some (group type_prefix)
for_leading _ = Option.none

abbrev binary : PrecedenceLevel → Option Trailing
binary l = Option.some (record { level = group l; is_binary = true })

unfoldable pub for_trailing : TokenKind → Bool → Option Trailing
for_trailing equal infix_use = binary assignment
for_trailing plus_equal infix_use = binary assignment
for_trailing minus_equal infix_use = binary assignment
for_trailing star_equal infix_use = binary assignment
for_trailing slash_equal infix_use = binary assignment
for_trailing percent_equal infix_use = binary assignment
for_trailing amp_equal infix_use = binary assignment
for_trailing pipe_equal infix_use = binary assignment
for_trailing caret_equal infix_use = binary assignment
for_trailing greater_greater_equal infix_use = binary assignment
for_trailing less_less_equal infix_use = binary assignment
for_trailing and infix_use = binary logical_and
for_trailing or infix_use = binary logical_or
for_trailing amp infix_use = binary bitwise_and
for_trailing pipe infix_use = binary bitwise_or
for_trailing caret infix_use = binary bitwise_xor
for_trailing greater_greater infix_use = binary bit_shift
for_trailing less_less infix_use = binary bit_shift
for_trailing equal_equal infix_use = binary relational
for_trailing exclaim_equal infix_use = binary relational
for_trailing less infix_use = binary relational
for_trailing less_equal infix_use = binary relational
for_trailing greater infix_use = binary relational
for_trailing greater_equal infix_use = binary relational
for_trailing less_equal_greater infix_use = binary relational
for_trailing plus infix_use = binary additive
for_trailing minus infix_use = binary additive
for_trailing slash infix_use = binary multiplicative
for_trailing percent infix_use = binary modulo
for_trailing star infix_use =
    if infix_use
    then binary multiplicative
    else Option.some (record { level = group type_postfix; is_binary = false })
for_trailing as_keyword infix_use = binary as_cast
for_trailing _ infix_use = Option.none

-- The table of a constructor whose checks succeed.
abbrev pub compiled : Option Table → Table
compiled Option.none = List.[]
compiled (Option.some t) = t

-- `static constexpr OperatorPriorityTable Lookup`; a table whose checks fail does not compile.
unfoldable pub lookup_table : Table
lookup_table = compiled operator_priority_table

unfoldable pub get_priority : PrecedenceGroup → PrecedenceGroup → OperatorPriority
get_priority left right = entry lookup_table (level_index left.level) (level_index right.level)

-- The cast between the two enumerations, whose values agree.
abbrev pub as_associativity : OperatorPriority → Associativity
as_associativity left_first = left_to_right
as_associativity ambiguous = Associativity.none
as_associativity right_first = right_to_left

unfoldable pub get_associativity : PrecedenceGroup → Associativity
get_associativity g = as_associativity (get_priority g g)
