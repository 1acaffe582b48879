-- ===== src/Parse/Handle/Statement.antt =====
-- lib/Parse/HandleStatement.cc.
pub mod Finish
use cocktail_lang.Prelude.{ℕ, true, false, Option, none, some, [], ◌∷◌, if◌then◌else◌}
use cocktail_lang.Lex.TokenKind.{
  TokenKind, break, continue, for_keyword, if_keyword, let_keyword, return, var, while, semi,
  in_keyword, else_keyword, close_curly_brace,
}
use cocktail_lang.Lex.TokenizedBuffer.{get_kind}
use cocktail_lang.Parse.NodeKind.{
  NodeKind, break_statement_start, break_statement, continue_statement_start, continue_statement,
  for_header_start, for_header, for_statement, if_statement_else, if_statement,
  return_statement_start, return_statement, while_statement,
}
use cocktail_lang.Parse.Precedence.Operators.{for_expression_statement}
use cocktail_lang.Parse.State.{
  State, statement_break_finish, statement_continue_finish, statement_for_finish,
  statement_for_header, statement_if, let_state, statement_return, var_as_semicolon,
  statement_while, expression_statement_finish, statement_for_header_in, var_as_for,
  statement_for_header_finish, expression, code_block, statement_if_condition_finish,
  paren_condition_as_if, statement_if_then_block_finish, statement_if_else_block_finish,
  statement_return_finish, statement, statement_while_condition_finish, paren_condition_as_while,
  statement_while_block_finish,
}
use cocktail_lang.Parse.Context.{
  Context, StateStackEntry, pop_state, push_state, push_state_for_expression, push_entry,
  add_leaf_node, add_node, emit_at, position_kind, position_is, consume, consume_if,
  consume_and_add_leaf_node_if, consume_and_add_open_paren, return_error_on_state,
  expected_statement_semi, expected_variable_declaration,
}
use cocktail_lang.Parse.Context.Skip.{
  find_next_of, skip_to, skip_past_likely_end, consume_and_add_close_symbol,
}
use cocktail_lang.Parse.Handle.{
  ◌>>=◌, pop_and_discard_state, advance, with_state, with_error, with_token, token_or,
}

-- A statement that starts with its keyword as a leaf.
unfoldable pub start_keyword_statement : State → NodeKind → Context → Option Context
unfolding push_state add_leaf_node
start_keyword_statement finish_state start_kind c = do
  c1 ← push_state finish_state c
  let (token, c2) = consume c1
  some (add_leaf_node start_kind token false c2)

-- The `switch` of `HandleStatement`.
unfoldable pub statement_for : TokenKind → Context → Option Context
unfolding start_keyword_statement push_state push_state_for_expression for_expression_statement
statement_for break c = start_keyword_statement statement_break_finish break_statement_start c
statement_for continue c =
    start_keyword_statement statement_continue_finish continue_statement_start c
statement_for for_keyword c = do
  c1 ← push_state statement_for_finish c
  c2 ← push_state statement_for_header c1
  some (advance c2)
statement_for if_keyword c = push_state statement_if c
statement_for let_keyword c = push_state let_state c
statement_for return c = push_state statement_return c
statement_for var c = push_state var_as_semicolon c
statement_for while c = push_state statement_while c
statement_for _ c = do
  c1 ← push_state expression_statement_finish c
  push_state_for_expression for_expression_statement c1

unfoldable pub handle_statement : Context → Option Context
unfolding pop_and_discard_state statement_for
handle_statement c = do c1 ← pop_and_discard_state c; statement_for (position_kind c1) c1

-- The node of a statement whose `;` is missing: the error is reported, and tokens are skipped.
unfoldable pub recover_statement : NodeKind → StateStackEntry → Context → Option Context
unfolding skip_past_likely_end add_node
recover_statement node_kind state c = do
  let c1 = emit_at c.position (expected_statement_semi (get_kind c.tokens state.token)) c
  (found, c2) ← skip_past_likely_end state.token c1
  some (add_node node_kind (token_or found state.token) state.subtree_start true c2)

-- What follows the search for the `;`.
unfoldable pub finish_statement : NodeKind → StateStackEntry → Option ℕ → Context → Option Context
unfolding recover_statement add_node
finish_statement node_kind state none c = recover_statement node_kind state c
finish_statement node_kind state (some token) c =
    some (add_node node_kind token state.subtree_start state.has_error c)

-- `HandleStatementKeywordFinish`
unfoldable pub handle_statement_keyword_finish : NodeKind → Context → Option Context
unfolding pop_state finish_statement
handle_statement_keyword_finish node_kind c = do
  (state, c1) ← pop_state c
  let (found, c2) = consume_if semi c1
  finish_statement node_kind state found c2

unfoldable pub handle_statement_break_finish : Context → Option Context
unfolding handle_statement_keyword_finish
handle_statement_break_finish = handle_statement_keyword_finish break_statement

unfoldable pub handle_statement_continue_finish : Context → Option Context
unfolding handle_statement_keyword_finish
handle_statement_continue_finish = handle_statement_keyword_finish continue_statement

-- The recovery of the header of a `for` without `var`: on behind the next `in`.
abbrev pub skip_past_found : Option ℕ → Context → Option Context
skip_past_found none c = some c
skip_past_found (some token) c = do c1 ← skip_to token c; some (advance c1)

unfoldable pub handle_statement_for_header : Context → Option Context
unfolding pop_state consume_and_add_open_paren push_entry push_state find_next_of skip_to
handle_statement_for_header c = do
  (state, c1) ← pop_state c
  let (open_paren, c2) = consume_and_add_open_paren state.token for_header_start c1
  let state' =
      with_state (with_token state (token_or open_paren state.token)) statement_for_header_in
  if position_is var c2 then (do c3 ← push_entry state' c2; push_state var_as_for c3) else (do
    let c3 = emit_at c2.position expected_variable_declaration c2
    next_in ← find_next_of (in_keyword ∷ []) c3
    c4 ← skip_past_found next_in c3
    push_entry (with_error state') c4)

-- The state goes on as another, with one more above it.
unfoldable pub continue_with : State → State → Context → Option Context
unfolding pop_state push_entry push_state
continue_with next above c = do
  (state, c1) ← pop_state c
  c2 ← push_entry (with_state state next) c1
  push_state above c2

unfoldable pub handle_statement_for_header_in : Context → Option Context
unfolding continue_with
handle_statement_for_header_in = continue_with statement_for_header_finish expression

unfoldable pub handle_statement_for_header_finish : Context → Option Context
unfolding pop_state consume_and_add_close_symbol push_state
handle_statement_for_header_finish c = do
  (state, c1) ← pop_state c
  c2 ← consume_and_add_close_symbol state.token state for_header c1
  push_state code_block c2

-- The state ends with a node.
unfoldable pub finish_with : NodeKind → Context → Option Context
unfolding pop_state add_node
finish_with node_kind c = do
  (state, c1) ← pop_state c
  some (add_node node_kind state.token state.subtree_start state.has_error c1)

unfoldable pub handle_statement_for_finish : Context → Option Context
unfolding finish_with
handle_statement_for_finish = finish_with for_statement

-- A statement with a condition, behind its keyword.
unfoldable pub start_condition : State → State → Context → Option Context
unfolding pop_and_discard_state push_state
start_condition finish_state condition_state c = do
  c1 ← pop_and_discard_state c
  c2 ← push_state finish_state c1
  c3 ← push_state condition_state c2
  some (advance c3)

unfoldable pub handle_statement_if : Context → Option Context
unfolding start_condition
handle_statement_if = start_condition statement_if_condition_finish paren_condition_as_if

unfoldable pub handle_statement_if_condition_finish : Context → Option Context
unfolding continue_with
handle_statement_if_condition_finish = continue_with statement_if_then_block_finish code_block

unfoldable pub handle_statement_if_then_block_finish : Context → Option Context
unfolding pop_state consume_and_add_leaf_node_if push_entry push_state add_node
handle_statement_if_then_block_finish c = do
  (state, c1) ← pop_state c
  let (found, c2) = consume_and_add_leaf_node_if else_keyword if_statement_else c1
  if found
      then (do
        c3 ← push_entry (with_state state statement_if_else_block_finish) c2
        push_state (if position_is if_keyword c3 then statement_if else code_block) c3)
      else some (add_node if_statement state.token state.subtree_start state.has_error c2)

unfoldable pub handle_statement_if_else_block_finish : Context → Option Context
unfolding finish_with
handle_statement_if_else_block_finish = finish_with if_statement

unfoldable pub handle_statement_return : Context → Option Context
unfolding pop_state push_entry push_state add_leaf_node
handle_statement_return c = do
  (state, c1) ← pop_state c
  c2 ← push_entry (with_state state statement_return_finish) c1
  let (token, c3) = consume c2
  let c4 = add_leaf_node return_statement_start token false c3
  if position_is semi c4 then some c4 else push_state expression c4

unfoldable pub handle_statement_return_finish : Context → Option Context
unfolding handle_statement_keyword_finish
handle_statement_return_finish = handle_statement_keyword_finish return_statement

unfoldable pub handle_statement_scope_loop : Context → Option Context
unfolding pop_state return_error_on_state push_state
handle_statement_scope_loop c =
    if position_is close_curly_brace c
    then (do
      (state, c1) ← pop_state c
      if state.has_error then return_error_on_state c1 else some c1)
    else push_state statement c

unfoldable pub handle_statement_while : Context → Option Context
unfolding start_condition
handle_statement_while = start_condition statement_while_condition_finish paren_condition_as_while

unfoldable pub handle_statement_while_condition_finish : Context → Option Context
unfolding continue_with
handle_statement_while_condition_finish = continue_with statement_while_block_finish code_block

unfoldable pub handle_statement_while_block_finish : Context → Option Context
unfolding finish_with
handle_statement_while_block_finish = finish_with while_statement
