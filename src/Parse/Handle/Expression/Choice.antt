-- ===== src/Parse/Handle/Expression/Choice.antt =====
-- `if` expressions and the end of an expression statement, of lib/Parse/HandleExpression.cc.
use cocktail_lang.Prelude.{ℕ, Bool, true, false, ◌||◌, Option, none, some, if◌then◌else◌}
use cocktail_lang.Lex.TokenKind.{then_keyword, else_keyword, semi}
use cocktail_lang.Parse.NodeKind.{
  if_expression_if, if_expression_then, if_expression_else, invalid_parse, expression_statement,
}
use cocktail_lang.Parse.Precedence.Operators.{group}
use cocktail_lang.Parse.Precedence.Level.{conditional}
use cocktail_lang.Parse.State.{State, if_expression_finish_then, if_expression_finish_else}
use cocktail_lang.Parse.Context.{
  Context, StateStackEntry, ParseMessage, pop_state, push_state, push_state_for_expression,
  push_entry, add_leaf_node, add_node, emit_at, position_is, return_error_on_state,
  expected_then_after_if, expected_else_after_if, expected_expression_semi,
}
use cocktail_lang.Parse.Context.Skip.{skip_past_likely_end}
use cocktail_lang.Parse.Handle.{◌>>=◌, advance, with_token}
use cocktail_lang.Parse.Handle.Statement.{finish_with}

-- The keyword and the expression behind it.
unfoldable pub push_choice : State → Context → Option Context
unfolding push_state push_state_for_expression
push_choice next_state c = do
  c1 ← push_state next_state c
  push_state_for_expression (group conditional) (advance c1)

-- The error is reported, if none was before.
unfoldable pub report_once : Bool → ParseMessage → Context → Context
report_once true message c = c
report_once false message c = emit_at c.position message c

-- A leaf in place of an expression that is missing.
unfoldable pub add_placeholder : Context → Context
unfolding add_leaf_node
add_placeholder c = add_leaf_node invalid_parse c.position true c

unfoldable pub handle_if_expression_finish_condition : Context → Option Context
unfolding pop_state add_node push_choice report_once add_placeholder return_error_on_state
handle_if_expression_finish_condition c = do
  (state, c1) ← pop_state c
  let c2 = add_node if_expression_if state.token state.subtree_start state.has_error c1
  if position_is then_keyword c2
      then push_choice if_expression_finish_then c2
      else return_error_on_state (
          add_placeholder (add_placeholder (report_once state.has_error expected_then_after_if c2)))

unfoldable pub handle_if_expression_finish_then : Context → Option Context
unfolding pop_state add_node push_choice report_once add_placeholder return_error_on_state
handle_if_expression_finish_then c = do
  (state, c1) ← pop_state c
  let c2 = add_node if_expression_then state.token state.subtree_start state.has_error c1
  if position_is else_keyword c2
      then push_choice if_expression_finish_else c2
      else return_error_on_state
          (add_placeholder (report_once state.has_error expected_else_after_if c2))

unfoldable pub handle_if_expression_finish_else : Context → Option Context
unfolding pop_state push_entry
handle_if_expression_finish_else c = do
  (else_state, c1) ← pop_state c
  (if_state, c2) ← pop_state c1
  push_entry
      (record (with_token if_state else_state.token) {
        has_error = if_state.has_error || else_state.has_error;
      })
      c2

unfoldable pub handle_if_expression_finish : Context → Option Context
unfolding finish_with
handle_if_expression_finish = finish_with if_expression_else

-- The end of a statement without `;`: a node at a `;` that the skip found, or no node.
unfoldable pub recovered_statement : StateStackEntry → Option ℕ → Context → Option Context
unfolding add_node return_error_on_state
recovered_statement state (some token) c =
    some (add_node expression_statement token state.subtree_start true c)
recovered_statement state none c = return_error_on_state c

unfoldable pub handle_expression_statement_finish : Context → Option Context
unfolding pop_state add_node report_once skip_past_likely_end recovered_statement
handle_expression_statement_finish c = do
  (state, c1) ← pop_state c
  if position_is semi c1
      then some (
          add_node expression_statement c1.position state.subtree_start state.has_error
            (advance c1))
      else (do
        (found, c2) ←
            skip_past_likely_end state.token
              (report_once state.has_error expected_expression_semi c1)
        recovered_statement state found c2)
