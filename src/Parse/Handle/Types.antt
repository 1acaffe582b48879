-- ===== src/Parse/Handle/Types.antt =====
-- lib/Parse/HandleType.cc: classes, interfaces and named constraints.
use cocktail_lang.Prelude.{true, Option, some, if◌then◌else◌}
use cocktail_lang.Lex.TokenKind.{semi, open_curly_brace}
use cocktail_lang.Lex.TokenizedBuffer.{get_kind}
use cocktail_lang.Parse.NodeKind.{
  NodeKind, class_introducer, interface_introducer, named_constraint_introducer, class_declaration,
  interface_declaration, named_constraint_declaration, class_definition_start,
  interface_definition_start, named_constraint_definition_start, class_definition,
  interface_definition, named_constraint_definition,
}
use cocktail_lang.Parse.State.{
  State, type_after_params_as_class, type_after_params_as_interface,
  type_after_params_as_named_constraint, declaration_name_and_params_as_optional,
  type_definition_finish_as_class, type_definition_finish_as_interface,
  type_definition_finish_as_named_constraint, declaration_scope_loop,
}
use cocktail_lang.Parse.Context.{
  Context, StateStackEntry, pop_state, push_state, push_entry, add_node, position_is,
  emit_expected_declaration_semi_or_definition,
}
use cocktail_lang.Parse.Context.Skip.{recover_from_declaration_error}
use cocktail_lang.Parse.Handle.{◌>>=◌, advance, with_state}
use cocktail_lang.Parse.Handle.Declaration.{start_named, finish_at_next}

unfoldable pub handle_type_introducer_as_class : Context → Option Context
unfolding start_named
handle_type_introducer_as_class =
    start_named class_introducer type_after_params_as_class declaration_name_and_params_as_optional

unfoldable pub handle_type_introducer_as_interface : Context → Option Context
unfolding start_named
handle_type_introducer_as_interface =
    start_named interface_introducer type_after_params_as_interface
      declaration_name_and_params_as_optional

unfoldable pub handle_type_introducer_as_named_constraint : Context → Option Context
unfolding start_named
handle_type_introducer_as_named_constraint =
    start_named named_constraint_introducer type_after_params_as_named_constraint
      declaration_name_and_params_as_optional

-- Behind the name and the parameters: the scope, if `{` follows.
unfoldable pub start_type_scope :
    NodeKind → NodeKind → State → StateStackEntry → Context → Option Context
unfolding push_entry push_state add_node recover_from_declaration_error
    emit_expected_declaration_semi_or_definition
start_type_scope declaration_kind definition_start_kind definition_finish_state state c =
    if position_is open_curly_brace c
    then (do
      c1 ← push_entry (with_state state definition_finish_state) c
      c2 ← push_state declaration_scope_loop c1
      some (
          add_node definition_start_kind c2.position state.subtree_start state.has_error
            (advance c2)))
    else recover_from_declaration_error state declaration_kind true
        (emit_expected_declaration_semi_or_definition (get_kind c.tokens state.token) c)

unfoldable pub handle_type_after_params : NodeKind → NodeKind → State → Context → Option Context
unfolding pop_state add_node recover_from_declaration_error start_type_scope
handle_type_after_params declaration_kind definition_start_kind definition_finish_state c = do
  (state, c1) ← pop_state c
  if state.has_error
      then recover_from_declaration_error state declaration_kind true c1
      else if position_is semi c1
      then some
          (add_node declaration_kind c1.position state.subtree_start state.has_error (advance c1))
      else start_type_scope declaration_kind definition_start_kind definition_finish_state state c1

unfoldable pub handle_type_after_params_as_class : Context → Option Context
unfolding handle_type_after_params
handle_type_after_params_as_class =
    handle_type_after_params class_declaration class_definition_start
      type_definition_finish_as_class

unfoldable pub handle_type_after_params_as_interface : Context → Option Context
unfolding handle_type_after_params
handle_type_after_params_as_interface =
    handle_type_after_params interface_declaration interface_definition_start
      type_definition_finish_as_interface

unfoldable pub handle_type_after_params_as_named_constraint : Context → Option Context
unfolding handle_type_after_params
handle_type_after_params_as_named_constraint =
    handle_type_after_params named_constraint_declaration named_constraint_definition_start
      type_definition_finish_as_named_constraint

unfoldable pub handle_type_definition_finish_as_class : Context → Option Context
unfolding finish_at_next
handle_type_definition_finish_as_class = finish_at_next class_definition

unfoldable pub handle_type_definition_finish_as_interface : Context → Option Context
unfolding finish_at_next
handle_type_definition_finish_as_interface = finish_at_next interface_definition

unfoldable pub handle_type_definition_finish_as_named_constraint : Context → Option Context
unfolding finish_at_next
handle_type_definition_finish_as_named_constraint = finish_at_next named_constraint_definition
