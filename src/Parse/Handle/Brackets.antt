-- ===== src/Parse/Handle/Brackets.antt =====
-- lib/Parse/HandleIndexExpression.cc, HandleCallExpression.cc, HandleArrayExpression.cc and
-- HandleParenExpression.cc.
use cocktail_lang.Prelude.{Bool, true, false, Option, none, some, if◌then◌else◌}
use cocktail_lang.Lex.TokenKind.{
  open_square_bracket, close_square_bracket, open_paren, close_paren, semi,
}
use cocktail_lang.Parse.NodeKind.{
  NodeKind, index_expression_start, call_expression_start, call_expression_comma,
  array_expression_start, paren_expression_or_tuple_literal_start, tuple_literal_comma,
  tuple_literal,
}
use cocktail_lang.Parse.State.{
  State, index_expression_finish, expression, call_expression_finish,
  call_expression_parameter_finish, array_expression_finish, paren_expression_finish_as_tuple,
  paren_expression_finish_as_normal, paren_expression_parameter_finish_as_unknown,
  paren_expression_parameter_finish_as_tuple,
}
use cocktail_lang.Parse.Context.{
  Context, StateStackEntry, pop_state, push_state, push_entry, add_leaf_node, add_node, emit_at,
  position_is, consume, consume_checked, return_error_on_state, expected_array_semi,
}
use cocktail_lang.Parse.Context.Skip.{consume_and_add_close_symbol}
use cocktail_lang.Parse.Context.Lists.{ListTokenKind, list_comma, list_close, consume_list_token}
use cocktail_lang.Parse.Handle.{◌>>=◌, advance, with_state, with_error}
use cocktail_lang.Parse.Handle.Declaration.{finish_at_next}

unfoldable pub handle_index_expression : Context → Option Context
unfolding pop_state push_entry push_state add_node
handle_index_expression c = do
  (state, c1) ← pop_state c
  c2 ← push_entry (with_state state index_expression_finish) c1
  (token, c3) ← consume_checked open_square_bracket c2
  push_state expression
      (add_node index_expression_start token state.subtree_start state.has_error c3)

-- The state ends with a node at the closing symbol.
unfoldable pub finish_at_close : NodeKind → Context → Option Context
unfolding pop_state consume_and_add_close_symbol
finish_at_close kind c = do
  (state, c1) ← pop_state c
  consume_and_add_close_symbol state.token state kind c1

unfoldable pub handle_index_expression_finish : Context → Option Context
unfolding finish_at_close
handle_index_expression_finish = finish_at_close NodeKind.index_expression

unfoldable pub push_call_parameter : Context → Option Context
unfolding push_state
push_call_parameter c = do
  c1 ← push_state call_expression_parameter_finish c
  push_state expression c1

unfoldable pub handle_call_expression : Context → Option Context
unfolding pop_state push_entry add_node push_call_parameter
handle_call_expression c = do
  (state, c1) ← pop_state c
  c2 ← push_entry (with_state state call_expression_finish) c1
  let (token, c3) = consume c2
  let c4 = add_node call_expression_start token state.subtree_start state.has_error c3
  if position_is close_paren c4 then some c4 else push_call_parameter c4

abbrev pub is_comma : ListTokenKind → Bool
is_comma list_comma = true
is_comma _ = false

unfoldable pub handle_call_expression_parameter_finish : Context → Option Context
unfolding pop_state return_error_on_state consume_list_token push_call_parameter
handle_call_expression_parameter_finish c = do
  (state, c1) ← pop_state c
  c2 ← if state.has_error then return_error_on_state c1 else some c1
  (kind, c3) ← consume_list_token call_expression_comma close_paren state.has_error c2
  if is_comma kind then push_call_parameter c3 else some c3

unfoldable pub handle_call_expression_finish : Context → Option Context
unfolding finish_at_next
handle_call_expression_finish = finish_at_next NodeKind.call_expression

unfoldable pub handle_array_expression : Context → Option Context
unfolding pop_state add_leaf_node push_entry push_state
handle_array_expression c = do
  (state, c1) ← pop_state c
  (token, c2) ← consume_checked open_square_bracket c1
  c3 ←
      push_entry (with_state state State.array_expression_semi)
        (add_leaf_node array_expression_start token state.has_error c2)
  push_state expression c3

-- The `;` of an array, or the error at its place, with the state that goes on.
unfoldable pub array_semi : StateStackEntry → Context → StateStackEntry × Context
unfolding add_node
array_semi state c =
    if position_is semi c
    then (
      state,
      add_node NodeKind.array_expression_semi c.position state.subtree_start state.has_error
          (advance c),
    )
    else (
      with_error state,
      emit_at c.position expected_array_semi
          (add_node NodeKind.array_expression_semi c.position state.subtree_start true c),
    )

unfoldable pub handle_array_expression_semi : Context → Option Context
unfolding pop_state array_semi push_entry push_state
handle_array_expression_semi c = do
  (state, c1) ← pop_state c
  let (state', c2) = array_semi state c1
  c3 ← push_entry (with_state state' array_expression_finish) c2
  if position_is close_square_bracket c3 then some c3 else push_state expression c3

unfoldable pub handle_array_expression_finish : Context → Option Context
unfolding finish_at_close
handle_array_expression_finish = finish_at_close NodeKind.array_expression

unfoldable pub handle_paren_expression : Context → Option Context
unfolding pop_state add_leaf_node push_entry push_state
handle_paren_expression c = do
  (state, c1) ← pop_state c
  (token, c2) ← consume_checked open_paren c1
  let c3 = add_leaf_node paren_expression_or_tuple_literal_start token false c2
  if position_is close_paren c3
      then push_entry (with_state state paren_expression_finish_as_tuple) c3
      else (do
        c4 ← push_entry (with_state state paren_expression_finish_as_normal) c3
        c5 ← push_state paren_expression_parameter_finish_as_unknown c4
        push_state expression c5)

abbrev is_finish_as_normal : State → Bool
is_finish_as_normal paren_expression_finish_as_normal = true
is_finish_as_normal _ = false

-- The parent switches to a tuple, with the check on its state.
unfoldable pub switch_to_tuple : Context → Option Context
unfolding pop_state push_entry
switch_to_tuple c = do
  (finish_state, c1) ← pop_state c
  if is_finish_as_normal finish_state.state
      then push_entry (with_state finish_state paren_expression_finish_as_tuple) c1
      else none

-- What follows a list token that does not close.
unfoldable pub paren_parameter_after :
    Bool → StateStackEntry → ListTokenKind → Context → Option Context
unfolding switch_to_tuple push_entry push_state
paren_parameter_after as_tuple state list_close c = some c
paren_parameter_after as_tuple state kind c = do
  c1 ← if as_tuple then some c else switch_to_tuple c
  if is_comma kind
      then (do
        c2 ←
            push_entry
              (if as_tuple
                then state
                else with_state state paren_expression_parameter_finish_as_tuple)
              c1
        push_state expression c2)
      else some c1

-- `HandleParenExpressionParameterFinish`
unfoldable pub handle_paren_expression_parameter_finish : Bool → Context → Option Context
unfolding pop_state consume_list_token paren_parameter_after
handle_paren_expression_parameter_finish as_tuple c = do
  (state, c1) ← pop_state c
  (kind, c2) ← consume_list_token tuple_literal_comma close_paren state.has_error c1
  paren_parameter_after as_tuple state kind c2

unfoldable pub handle_paren_expression_parameter_finish_as_unknown : Context → Option Context
unfolding handle_paren_expression_parameter_finish
handle_paren_expression_parameter_finish_as_unknown = handle_paren_expression_parameter_finish false

unfoldable pub handle_paren_expression_parameter_finish_as_tuple : Context → Option Context
unfolding handle_paren_expression_parameter_finish
handle_paren_expression_parameter_finish_as_tuple = handle_paren_expression_parameter_finish true

unfoldable pub handle_paren_expression_finish_as_normal : Context → Option Context
unfolding finish_at_next
handle_paren_expression_finish_as_normal = finish_at_next NodeKind.paren_expression

unfoldable pub handle_paren_expression_finish_as_tuple : Context → Option Context
unfolding finish_at_next
handle_paren_expression_finish_as_tuple = finish_at_next tuple_literal
