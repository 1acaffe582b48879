-- ===== src/Parse/Handle/Expression.antt =====
-- lib/Parse/HandleExpression.cc: the operators of an expression. The child modules hold the primary
-- expressions, and `if` expressions with the ends of statements.
pub mod Primary
pub mod Choice
use cocktail_lang.Prelude.{Bool, true, false, not, ◌||◌, Option, none, some, if◌then◌else◌}
use cocktail_lang.Lex.TokenKind.{TokenKind, if_keyword, and, or}
use cocktail_lang.Lex.TokenKind.Index.{kind_eq}
use cocktail_lang.Parse.NodeKind.{
  NodeKind, short_circuit_operand, infix_operator, prefix_operator, postfix_operator,
}
use cocktail_lang.Parse.Precedence.Level.{OperatorPriority, left_first, right_first}
use cocktail_lang.Parse.Precedence.Operators.{
  PrecedenceGroup, Trailing, for_leading, for_trailing, for_postfix_expression,
  for_top_level_expression, get_priority,
}
use cocktail_lang.Parse.State.{
  State, if_expression_finish, if_expression_finish_condition, expression_loop_for_prefix,
  expression_loop, expression_in_postfix, expression_loop_for_binary,
}
use cocktail_lang.Parse.Context.{
  Context, StateStackEntry, pop_state, push_state, push_state_for_expression,
  push_state_for_expression_loop, push_entry, add_node, emit_at, position_kind, position_is,
  return_error_on_state, statement_operator_as_subexpression, unary_operator_requires_parentheses,
  operator_requires_parentheses,
}
use cocktail_lang.Parse.Context.Fixity
use cocktail_lang.Parse.Context.Fixity.{
  OperatorFixity, is_trailing_operator_infix, diagnose_operator_fixity,
}
use cocktail_lang.Parse.Handle.{◌>>=◌, advance, with_state, with_error}

abbrev pub is_right_first : OperatorPriority → Bool
is_right_first right_first = true
is_right_first _ = false

abbrev pub is_left_first : OperatorPriority → Bool
is_left_first left_first = true
is_left_first _ = false

-- `DiagnoseStatementOperatorAsSubexpression`
unfoldable pub diagnose_statement_operator_as_subexpression : Context → Context
diagnose_statement_operator_as_subexpression c =
    emit_at c.position (statement_operator_as_subexpression (position_kind c)) c

-- What is reported of a prefix operator.
unfoldable pub check_prefix_operator : PrecedenceGroup → PrecedenceGroup → Context → Option Context
unfolding diagnose_statement_operator_as_subexpression diagnose_operator_fixity
check_prefix_operator ambient operator_precedence c =
    if is_right_first (get_priority ambient operator_precedence)
    then diagnose_operator_fixity OperatorFixity.prefix_operator c
    else if is_right_first (get_priority for_top_level_expression operator_precedence)
    then some (emit_at c.position (unary_operator_requires_parentheses (position_kind c)) c)
    else some (diagnose_statement_operator_as_subexpression c)

-- The states behind a prefix operator.
unfoldable pub push_prefix_operator : PrecedenceGroup → PrecedenceGroup → Context → Option Context
unfolding push_state push_state_for_expression_loop
push_prefix_operator ambient operator_precedence c =
    if position_is if_keyword c
    then push_state if_expression_finish c >>= push_state if_expression_finish_condition
    else push_state_for_expression_loop expression_loop_for_prefix ambient operator_precedence c

-- `HandleExpression` behind the look for a prefix operator.
unfoldable pub start_expression :
    Option PrecedenceGroup → StateStackEntry → Context → Option Context
unfolding check_prefix_operator push_prefix_operator push_state_for_expression
    push_state_for_expression_loop push_state for_postfix_expression
start_expression (some operator_precedence) state c = do
  c1 ← check_prefix_operator state.ambient_precedence operator_precedence c
  c2 ← push_prefix_operator state.ambient_precedence operator_precedence c1
  push_state_for_expression operator_precedence (advance c2)
start_expression none state c = do
  c1 ←
      push_state_for_expression_loop expression_loop state.ambient_precedence for_postfix_expression
        c
  push_state expression_in_postfix c1

unfoldable pub handle_expression : Context → Option Context
unfolding pop_state start_expression for_leading
handle_expression c = do
  (state, c1) ← pop_state c
  start_expression (for_leading (position_kind c1)) state c1

-- The loop is left: an error goes to the state below.
unfoldable pub leave_loop : StateStackEntry → Context → Option Context
unfolding return_error_on_state
leave_loop state c = if state.has_error then return_error_on_state c else some c

-- What is reported of an operator behind an operand, with the state that goes on.
unfoldable pub check_trailing_operator :
    Trailing → StateStackEntry → Context → Option (StateStackEntry × Context)
unfolding diagnose_statement_operator_as_subexpression diagnose_operator_fixity
check_trailing_operator op state c =
    if is_left_first (get_priority state.lhs_precedence op.level)
    then (do
      c1 ←
          diagnose_operator_fixity
            (if op.is_binary
              then OperatorFixity.infix_operator
              else OperatorFixity.postfix_operator)
            c
      some (state, c1))
    else some (
      with_error state,
      (if is_right_first (get_priority for_top_level_expression op.level)
          then emit_at c.position operator_requires_parentheses c
          else diagnose_statement_operator_as_subexpression c),
    )

-- A binary operator: its second operand is an expression. For `and` and `or` the first one gets a
-- node.
unfoldable pub push_binary_operator :
    TokenKind → PrecedenceGroup → StateStackEntry → Context → Option Context
unfolding add_node push_entry push_state_for_expression
push_binary_operator operator_kind precedence state c = do
  c1 ← push_entry (with_state state expression_loop_for_binary) (
      if kind_eq operator_kind and || kind_eq operator_kind or
      then add_node short_circuit_operand state.token state.subtree_start state.has_error c
      else c)
  push_state_for_expression precedence c1

-- The operator is taken.
unfoldable pub take_operator : Trailing → StateStackEntry → Context → Option Context
unfolding check_trailing_operator push_binary_operator add_node push_entry
take_operator op state c = do
  (state1, c1) ← check_trailing_operator op state c
  let state2 : StateStackEntry = record state1 { token = c1.position; lhs_precedence = op.level }
  if op.is_binary
      then push_binary_operator (position_kind c) op.level state2 (advance c1)
      else push_entry (record state2 { has_error = false })
          (add_node postfix_operator state2.token state2.subtree_start state2.has_error
            (advance c1))

-- `HandleExpressionLoop` behind the look for an operator.
unfoldable pub loop_with : Option Trailing → StateStackEntry → Context → Option Context
unfolding leave_loop take_operator
loop_with none state c = leave_loop state c
loop_with (some op) state c =
    if is_right_first (get_priority state.ambient_precedence op.level)
    then take_operator op state c
    else leave_loop state c

unfoldable pub handle_expression_loop : Context → Option Context
unfolding pop_state is_trailing_operator_infix for_trailing loop_with
handle_expression_loop c = do
  (state, c1) ← pop_state c
  infix_use ← is_trailing_operator_infix c1
  loop_with (for_trailing (position_kind c1) infix_use) state c1

-- The node of an operator, behind which the loop goes on.
unfoldable pub add_operator : NodeKind → Context → Option Context
unfolding pop_state add_node push_entry
add_operator kind c = do
  (state, c1) ← pop_state c
  push_entry (record (with_state state expression_loop) { has_error = false })
      (add_node kind state.token state.subtree_start state.has_error c1)

unfoldable pub handle_expression_loop_for_binary : Context → Option Context
unfolding add_operator
handle_expression_loop_for_binary = add_operator NodeKind.infix_operator

unfoldable pub handle_expression_loop_for_prefix : Context → Option Context
unfolding add_operator
handle_expression_loop_for_prefix = add_operator NodeKind.prefix_operator
