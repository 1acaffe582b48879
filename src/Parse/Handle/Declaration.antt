-- ===== src/Parse/Handle/Declaration.antt =====
-- lib/Parse/HandleDeclarationScopeLoop.cc, HandleFunction.cc and HandleNamespace.cc.
pub mod Loop
pub mod Start
use cocktail_lang.Prelude.{Bool, true, false, Option, some, if◌then◌else◌, ◌==◌}
use cocktail_lang.Lex.TokenKind.{
  TokenKind, close_curly_brace, end_of_file, class, constraint, fn, interface, namespace, semi, var,
  let_keyword, minus_greater, open_curly_brace,
}
use cocktail_lang.Lex.TokenizedBuffer.{get_line}
use cocktail_lang.Parse.NodeKind.{
  NodeKind, empty_declaration, return_type, function_declaration, function_definition_start,
  function_definition, namespace_start,
}
use cocktail_lang.Parse.Precedence.Operators.{for_type}
use cocktail_lang.Parse.State.{
  State, type_introducer_as_class, type_introducer_as_named_constraint,
  type_introducer_as_interface, var_as_semicolon, let_state, function_after_parameters,
  declaration_name_and_params_as_required, function_signature_finish, function_return_type_finish,
  function_definition_finish, statement_scope_loop, namespace_finish,
  declaration_name_and_params_as_none,
}
use cocktail_lang.Parse.Context.{
  Context, StateStackEntry, pop_state, push_state, push_state_at, push_state_for_expression,
  push_entry, add_leaf_node, add_node, emit_at, position_kind, position_is, consume,
  emit_expected_declaration_semi, emit_expected_declaration_semi_or_definition,
  unrecognized_declaration, method_impl_not_allowed,
}
use cocktail_lang.Parse.Context.Skip.{skip_past_likely_end, recover_from_declaration_error}
use cocktail_lang.Parse.Context.Lists.{
  DeclarationContext, interface_context, named_constraint_context, get_declaration_context,
}
use cocktail_lang.Parse.Handle.{◌>>=◌, pop_and_discard_state, advance, with_state, token_or}

-- `HandleUnrecognizedDeclaration`
unfoldable pub handle_unrecognized_declaration : Context → Option Context
unfolding skip_past_likely_end add_leaf_node
handle_unrecognized_declaration c = do
  let cursor = c.position
  (found, c1) ← skip_past_likely_end cursor (emit_at cursor unrecognized_declaration c)
  some (add_leaf_node empty_declaration (token_or found cursor) true c1)

-- The `switch` of `HandleDeclarationScopeLoop`.
unfoldable pub declaration_for : TokenKind → Context → Option Context
unfolding handle_unrecognized_declaration pop_and_discard_state push_state add_leaf_node
declaration_for close_curly_brace c = pop_and_discard_state c
declaration_for end_of_file c = pop_and_discard_state c
declaration_for class c = push_state type_introducer_as_class c
declaration_for constraint c = push_state type_introducer_as_named_constraint c
declaration_for fn c = push_state State.function_introducer c
declaration_for interface c = push_state type_introducer_as_interface c
declaration_for namespace c = push_state State.namespace c
declaration_for semi c = some (add_leaf_node empty_declaration c.position false (advance c))
declaration_for var c = push_state var_as_semicolon c
declaration_for let_keyword c = push_state let_state c
declaration_for _ c = handle_unrecognized_declaration c

unfoldable pub handle_declaration_scope_loop : Context → Option Context
unfolding declaration_for
handle_declaration_scope_loop c = declaration_for (position_kind c) c

-- A declaration that starts with its keyword as a leaf, and goes on with a name.
unfoldable pub start_named : NodeKind → State → State → Context → Option Context
unfolding pop_state add_leaf_node push_entry push_state_at
start_named start_kind next name_state c = do
  (state, c1) ← pop_state c
  let (token, c2) = consume c1
  c3 ← push_entry (with_state state next) (add_leaf_node start_kind token false c2)
  push_state_at name_state state.token c3

unfoldable pub handle_function_introducer : Context → Option Context
unfolding start_named
handle_function_introducer =
    start_named NodeKind.function_introducer function_after_parameters
      declaration_name_and_params_as_required

unfoldable pub handle_function_after_parameters : Context → Option Context
unfolding pop_state push_entry push_state push_state_for_expression for_type
handle_function_after_parameters c = do
  (state, c1) ← pop_state c
  c2 ← push_entry (with_state state function_signature_finish) c1
  if position_is minus_greater c2
      then (do
        c3 ← push_state function_return_type_finish c2
        push_state_for_expression for_type (advance c3))
      else some c2

unfoldable pub handle_function_return_type_finish : Context → Option Context
unfolding pop_state add_node
handle_function_return_type_finish c = do
  (state, c1) ← pop_state c
  some (add_node return_type state.token state.subtree_start state.has_error c1)

abbrev allows_no_body : DeclarationContext → Bool
allows_no_body interface_context = true
allows_no_body named_constraint_context = true
allows_no_body _ = false

-- The body of a function is only started where one is allowed.
unfoldable pub start_function_body : StateStackEntry → Context → Option Context
unfolding get_declaration_context recover_from_declaration_error add_node push_entry push_state
start_function_body state c = do
  decl_context ← get_declaration_context c
  if allows_no_body decl_context
      then recover_from_declaration_error state function_declaration true
          (emit_at c.position method_impl_not_allowed c)
      else (do
        let (token, c1) = consume c
        c2 ←
            push_entry (record (with_state state function_definition_finish) { has_error = false })
              (add_node function_definition_start token state.subtree_start state.has_error c1)
        push_state statement_scope_loop c2)

-- The `switch` of `HandleFunctionSignatureFinish`.
unfoldable pub signature_finish_for : TokenKind → StateStackEntry → Context → Option Context
unfolding start_function_body recover_from_declaration_error add_node
    emit_expected_declaration_semi_or_definition
signature_finish_for semi state c =
    some (add_node function_declaration c.position state.subtree_start state.has_error (advance c))
signature_finish_for open_curly_brace state c = start_function_body state c
signature_finish_for _ state c =
    let c1 = if state.has_error then c else emit_expected_declaration_semi_or_definition fn c in
    recover_from_declaration_error state function_declaration
      (get_line c1.tokens c1.position == get_line c1.tokens state.token) c1

unfoldable pub handle_function_signature_finish : Context → Option Context
unfolding pop_state signature_finish_for
handle_function_signature_finish c = do
  (state, c1) ← pop_state c
  signature_finish_for (position_kind c1) state c1

-- The state ends with a node at the next token.
unfoldable pub finish_at_next : NodeKind → Context → Option Context
unfolding pop_state add_node
finish_at_next kind c = do
  (state, c1) ← pop_state c
  let (token, c2) = consume c1
  some (add_node kind token state.subtree_start state.has_error c2)

unfoldable pub handle_function_definition_finish : Context → Option Context
unfolding finish_at_next
handle_function_definition_finish = finish_at_next function_definition

unfoldable pub handle_namespace : Context → Option Context
unfolding start_named
handle_namespace = start_named namespace_start namespace_finish declaration_name_and_params_as_none

unfoldable pub handle_namespace_finish : Context → Option Context
unfolding pop_state add_node recover_from_declaration_error emit_expected_declaration_semi
handle_namespace_finish c = do
  (state, c1) ← pop_state c
  if state.has_error
      then recover_from_declaration_error state NodeKind.namespace true c1
      else if position_is semi c1
      then some
          (add_node NodeKind.namespace c1.position state.subtree_start state.has_error (advance c1))
      else recover_from_declaration_error state NodeKind.namespace true
          (emit_expected_declaration_semi TokenKind.namespace c1)
