-- ===== src/Parse/Handle/CodeBlock.antt =====
-- lib/Parse/HandleCodeBlock.cc and lib/Parse/HandleParenCondition.cc.
use cocktail_lang.Prelude.{ℕ, Bool, true, false, not, ◌&&◌, Option, none, some, if◌then◌else◌}
use cocktail_lang.Lex.TokenKind.{open_curly_brace}
use cocktail_lang.Lex.TokenKind.Index.{kind_eq}
use cocktail_lang.Lex.TokenizedBuffer.{get_kind}
use cocktail_lang.Parse.NodeKind.{
  NodeKind, code_block_start, code_block, invalid_parse, if_condition_start, if_condition,
  while_condition_start, while_condition,
}
use cocktail_lang.Parse.State.{
  State, code_block_finish, statement_scope_loop, statement, expression,
  paren_condition_finish_as_if, paren_condition_finish_as_while,
}
use cocktail_lang.Parse.Context.{
  Context, pop_state, push_state, push_entry, add_leaf_node, add_node, emit_at, position_is,
  consume, consume_and_add_leaf_node_if, consume_and_add_open_paren, expected_code_block,
}
use cocktail_lang.Parse.Context.Skip.{consume_and_add_close_symbol}
use cocktail_lang.Parse.Handle.{◌>>=◌, pop_and_discard_state, with_state, with_token, token_or}

abbrev is_found : Option ℕ → Bool
is_found none = false
is_found (some token) = true

unfoldable pub handle_code_block : Context → Option Context
unfolding pop_and_discard_state push_state consume_and_add_leaf_node_if add_leaf_node
handle_code_block c = do
  c1 ← pop_and_discard_state c
  c2 ← push_state code_block_finish c1
  let (found, c3) = consume_and_add_leaf_node_if open_curly_brace code_block_start c2
  if found
      then push_state statement_scope_loop c3
      else push_state statement (
          emit_at c3.position expected_code_block
            (add_leaf_node code_block_start c3.position true c3))

unfoldable pub handle_code_block_finish : Context → Option Context
unfolding pop_state add_node
handle_code_block_finish c = do
  (state, c1) ← pop_state c
  if kind_eq (get_kind c1.tokens state.token) open_curly_brace
      then (let (token, c2) = consume c1 in
          some (add_node code_block token state.subtree_start state.has_error c2))
      else some (add_node code_block state.token state.subtree_start true c1)

-- `HandleParenCondition`
unfoldable pub handle_paren_condition : NodeKind → State → Context → Option Context
unfolding pop_state consume_and_add_open_paren push_entry push_state add_leaf_node
handle_paren_condition start_kind finish_state c = do
  (state, c1) ← pop_state c
  let (open_paren, c2) = consume_and_add_open_paren state.token start_kind c1
  c3 ← push_entry (with_state (with_token state (token_or open_paren state.token)) finish_state) c2
  if not (is_found open_paren) && position_is open_curly_brace c3
      then some (add_leaf_node invalid_parse c3.position true c3)
      else push_state expression c3

unfoldable pub handle_paren_condition_as_if : Context → Option Context
unfolding handle_paren_condition
handle_paren_condition_as_if =
    handle_paren_condition if_condition_start paren_condition_finish_as_if

unfoldable pub handle_paren_condition_as_while : Context → Option Context
unfolding handle_paren_condition
handle_paren_condition_as_while =
    handle_paren_condition while_condition_start paren_condition_finish_as_while

unfoldable pub handle_paren_condition_finish : NodeKind → Context → Option Context
unfolding pop_state consume_and_add_close_symbol
handle_paren_condition_finish kind c = do
  (state, c1) ← pop_state c
  consume_and_add_close_symbol state.token state kind c1

unfoldable pub handle_paren_condition_finish_as_if : Context → Option Context
unfolding handle_paren_condition_finish
handle_paren_condition_finish_as_if = handle_paren_condition_finish if_condition

unfoldable pub handle_paren_condition_finish_as_while : Context → Option Context
unfolding handle_paren_condition_finish
handle_paren_condition_finish_as_while = handle_paren_condition_finish while_condition
