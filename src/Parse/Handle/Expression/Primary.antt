-- ===== src/Parse/Handle/Expression/Primary.antt =====
-- The primary expressions and what stands behind them, of lib/Parse/HandleExpression.cc.
use cocktail_lang.Prelude.{true, false, Option, some, if◌then◌else◌}
use cocktail_lang.Lex.TokenKind.{
  TokenKind, identifier, false_keyword, true_keyword, integer_literal, real_literal, string_literal,
  bool, integer_type_literal, unsigned_integer_type_literal, floating_point_type_literal,
  string_type_literal, type, open_curly_brace, open_paren, open_square_bracket,
  self_value_identifier, self_type_identifier, period, minus_greater,
}
use cocktail_lang.Parse.NodeKind.{
  NodeKind, name_expression, literal_node, self_value_name, self_type_name_expression,
  invalid_parse,
}
use cocktail_lang.Parse.State.{
  State, expression_in_postfix_loop, brace_expression, paren_expression, array_expression,
  period_as_expression, arrow_expression, call_expression, index_expression,
}
use cocktail_lang.Parse.Context.{
  Context, StateStackEntry, pop_state, push_state, push_entry, add_leaf_node, emit_at,
  position_kind, return_error_on_state, expected_expression,
}
use cocktail_lang.Parse.Handle.{◌>>=◌, advance, with_state, with_token}

-- A primary expression that is one token.
unfoldable pub primary_leaf : NodeKind → StateStackEntry → Context → Option Context
unfolding add_leaf_node push_entry
primary_leaf kind state c = push_entry state (add_leaf_node kind c.position false (advance c))

-- A primary expression with a handler of its own.
unfoldable pub primary_state : State → StateStackEntry → Context → Option Context
unfolding push_entry push_state
primary_state above state c = push_entry state c >>= push_state above

-- The `switch` of `HandleExpressionInPostfix`.
unfoldable pub primary_for : TokenKind → StateStackEntry → Context → Option Context
unfolding primary_leaf primary_state add_leaf_node return_error_on_state
primary_for identifier state c = primary_leaf name_expression state c
primary_for false_keyword state c = primary_leaf literal_node state c
primary_for true_keyword state c = primary_leaf literal_node state c
primary_for integer_literal state c = primary_leaf literal_node state c
primary_for real_literal state c = primary_leaf literal_node state c
primary_for string_literal state c = primary_leaf literal_node state c
primary_for bool state c = primary_leaf literal_node state c
primary_for integer_type_literal state c = primary_leaf literal_node state c
primary_for unsigned_integer_type_literal state c = primary_leaf literal_node state c
primary_for floating_point_type_literal state c = primary_leaf literal_node state c
primary_for string_type_literal state c = primary_leaf literal_node state c
primary_for type state c = primary_leaf literal_node state c
primary_for open_curly_brace state c = primary_state brace_expression state c
primary_for open_paren state c = primary_state paren_expression state c
primary_for open_square_bracket state c = primary_state array_expression state c
primary_for self_value_identifier state c = primary_leaf self_value_name state c
primary_for self_type_identifier state c = primary_leaf self_type_name_expression state c
primary_for _ state c =
    return_error_on_state
      (emit_at c.position expected_expression (add_leaf_node invalid_parse c.position true c))

unfoldable pub handle_expression_in_postfix : Context → Option Context
unfolding pop_state primary_for
handle_expression_in_postfix c = do
  (state, c1) ← pop_state c
  primary_for (position_kind c1) (with_state state expression_in_postfix_loop) c1

-- The state stays, with another above it.
unfoldable pub postfix_with : State → StateStackEntry → Context → Option Context
unfolding push_entry
postfix_with above state c = push_entry state c >>= push_entry (with_state state above)

-- The `switch` of `HandleExpressionInPostfixLoop`.
unfoldable pub postfix_for : TokenKind → StateStackEntry → Context → Option Context
unfolding postfix_with return_error_on_state
postfix_for period state c = postfix_with period_as_expression state c
postfix_for minus_greater state c = postfix_with arrow_expression state c
postfix_for open_paren state c = postfix_with call_expression state c
postfix_for open_square_bracket state c = postfix_with index_expression state c
postfix_for _ state c = if state.has_error then return_error_on_state c else some c

unfoldable pub handle_expression_in_postfix_loop : Context → Option Context
unfolding pop_state postfix_for
handle_expression_in_postfix_loop c = do
  (state, c1) ← pop_state c
  postfix_for (position_kind c1) (with_token state c1.position) c1
