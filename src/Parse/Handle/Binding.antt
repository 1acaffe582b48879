-- ===== src/Parse/Handle/Binding.antt =====
-- lib/Parse/HandleLet.cc and lib/Parse/HandleVar.cc.
use cocktail_lang.Prelude.{Bool, true, false, Option, some, [], ◌∷◌, if◌then◌else◌}
use cocktail_lang.Lex.TokenKind.{TokenKind, semi, var, let_keyword, equal, in_keyword, colon}
use cocktail_lang.Parse.NodeKind.{
  NodeKind, let_introducer, let_initializer, let_declaration, variable_introducer,
  variable_initializer, variable_declaration, for_in,
}
use cocktail_lang.Parse.State.{
  State, let_finish, let_after_pattern, pattern_as_let, expression, var_finish_as_semicolon,
  var_finish_as_for, var_after_pattern, pattern_as_variable,
}
use cocktail_lang.Parse.Context.{
  Context, pop_state, push_state, add_leaf_node, add_node, emit_at, position_is, consume,
  return_error_on_state, emit_expected_declaration_semi, expected_initializer_after_let,
  expected_in_not_colon, expected_in,
}
use cocktail_lang.Parse.Context.Skip.{skip_past_likely_end}
use cocktail_lang.Parse.Handle.{◌>>=◌, pop_and_discard_state, advance, token_or, skip_to_next_of}

-- `let` and `var`: the introducer, and a pattern.
unfoldable pub start_binding : State → State → NodeKind → State → Context → Option Context
unfolding pop_and_discard_state push_state add_leaf_node
start_binding finish_state after_state start_kind pattern_state c = do
  c1 ← pop_and_discard_state c
  c2 ← push_state finish_state c1
  c3 ← push_state after_state c2
  let (token, c4) = consume c3
  push_state pattern_state (add_leaf_node start_kind token false c4)

unfoldable pub handle_let : Context → Option Context
unfolding start_binding
handle_let = start_binding let_finish let_after_pattern let_introducer pattern_as_let

unfoldable pub handle_var_as_semicolon : Context → Option Context
unfolding start_binding
handle_var_as_semicolon =
    start_binding var_finish_as_semicolon var_after_pattern variable_introducer pattern_as_variable

unfoldable pub handle_var_as_for : Context → Option Context
unfolding start_binding
handle_var_as_for =
    start_binding var_finish_as_for var_after_pattern variable_introducer pattern_as_variable

-- Behind a pattern with an error, on to the initializer or the end.
unfoldable pub skip_pattern : Bool → Context → Option Context
unfolding skip_to_next_of
skip_pattern false c = some c
skip_pattern true c = skip_to_next_of (equal ∷ semi ∷ []) c

-- The initializer, if there is one; else what `other` does.
unfoldable pub initializer : NodeKind → (Context → Option Context) → Context → Option Context
unfolding add_leaf_node push_state
initializer kind other c =
    if position_is equal c
    then push_state expression (add_leaf_node kind c.position false (advance c))
    else other c

unfoldable pub report_initializer : Bool → Context → Option Context
unfolding return_error_on_state
report_initializer true c = some c
report_initializer false c =
    return_error_on_state (emit_at c.position expected_initializer_after_let c)

unfoldable pub handle_let_after_pattern : Context → Option Context
unfolding pop_state skip_pattern initializer report_initializer
handle_let_after_pattern c = do
  (state, c1) ← pop_state c
  c2 ← skip_pattern state.has_error c1
  initializer let_initializer (report_initializer state.has_error) c2

unfoldable pub handle_var_after_pattern : Context → Option Context
unfolding pop_state skip_pattern initializer
handle_var_after_pattern c = do
  (state, c1) ← pop_state c
  c2 ← skip_pattern state.has_error c1
  initializer variable_initializer some c2

-- The `;` of a binding, or the recovery from its absence.
unfoldable pub finish_binding : TokenKind → NodeKind → Context → Option Context
unfolding pop_state add_node emit_expected_declaration_semi skip_past_likely_end
finish_binding keyword kind c = do
  (state, c1) ← pop_state c
  if position_is semi c1
      then some (add_node kind c1.position state.subtree_start state.has_error (advance c1))
      else (do
        (found, c2) ← skip_past_likely_end state.token (emit_expected_declaration_semi keyword c1)
        some (add_node kind (token_or found state.token) state.subtree_start true c2))

unfoldable pub handle_let_finish : Context → Option Context
unfolding finish_binding
handle_let_finish = finish_binding let_keyword let_declaration

unfoldable pub handle_var_finish_as_semicolon : Context → Option Context
unfolding finish_binding
handle_var_finish_as_semicolon = finish_binding var variable_declaration

unfoldable pub handle_var_finish_as_for : Context → Option Context
unfolding pop_state add_node
handle_var_finish_as_for c = do
  (state, c1) ← pop_state c
  some (
      if position_is in_keyword c1
      then add_node for_in c1.position state.subtree_start state.has_error (advance c1)
      else if position_is colon c1
      then add_node for_in c1.position state.subtree_start true
          (advance (emit_at c1.position expected_in_not_colon c1))
      else add_node for_in state.token state.subtree_start true
          (emit_at c1.position expected_in c1))
