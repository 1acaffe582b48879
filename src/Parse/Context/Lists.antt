-- ===== src/Parse/Context/Lists.antt =====
-- `ConsumeListToken` and `GetDeclarationContext` of lib/Parse/Context.cc.
use cocktail_lang.Prelude.{
  ◌+◌, Bool, true, false, not, ◌&&◌, Option, none, some, List, [], ◌∷◌, if◌then◌else◌,
}
use cocktail_lang.Lex.TokenKind.{TokenKind, comma}
use cocktail_lang.Parse.NodeKind.{NodeKind}
use cocktail_lang.Parse.State.{
  State, declaration_scope_loop, type_definition_finish_as_class,
  type_definition_finish_as_interface, type_definition_finish_as_named_constraint,
}
use cocktail_lang.Parse.Context.{
  Context, StateStackEntry, position_is, add_leaf_node, emit_at, return_error_on_state,
  unexpected_token_after_list_element,
}
use cocktail_lang.Parse.Context.Skip.{find_next_of, skip_to}

pub data ListTokenKind : Type 0 where
  list_comma list_close list_comma_close : ListTokenKind

-- The diagnostic for a token that cannot follow an element.
unfoldable pub report_list_element : TokenKind → Bool → Context → Option Context
report_list_element close_kind true c = some c
report_list_element close_kind false c =
    return_error_on_state (emit_at c.position (unexpected_token_after_list_element close_kind) c)

-- The recovery: on to the next comma or closing symbol at the level.
unfoldable pub recover_list_element : TokenKind → Bool → Context → Option Context
unfolding report_list_element
recover_list_element close_kind already_has_error c =
    elim (report_list_element close_kind already_has_error c) [
      | none ↦ none
      | some c' ↦ elim (find_next_of (comma ∷ close_kind ∷ []) c') [
        | none ↦ none
        | some none ↦ none
        | some (some token) ↦ skip_to token c'
      ]
    ]

-- What follows the recovery.
unfoldable pub finish_list_token : NodeKind → TokenKind → Context → ListTokenKind × Context
unfolding add_leaf_node
finish_list_token comma_kind close_kind c =
    if position_is close_kind c
    then (list_close, c)
    else let c' =
        add_leaf_node comma_kind c.position false (record c { position = c.position + 1 }) in
      ((if position_is close_kind c' then list_comma_close else list_comma), c')

-- `ConsumeListToken`
unfoldable pub consume_list_token :
    NodeKind → TokenKind → Bool → Context → Option (ListTokenKind × Context)
unfolding recover_list_element finish_list_token
consume_list_token comma_kind close_kind already_has_error c =
    elim (not (position_is comma c) && not (position_is close_kind c)) [
      | false ↦ some (finish_list_token comma_kind close_kind c)
      | true ↦ elim (recover_list_element close_kind already_has_error c) [
        | none ↦ none
        | some c' ↦ some (finish_list_token comma_kind close_kind c')
      ]
    ]

pub data DeclarationContext : Type 0 where
  file_context class_context interface_context named_constraint_context : DeclarationContext

abbrev pub is_scope_loop : State → Bool
is_scope_loop declaration_scope_loop = true
is_scope_loop _ = false

-- The context of the state below a `DeclarationScopeLoop`; `none` is `llvm_unreachable`.
abbrev pub scope_context : State → Option DeclarationContext
scope_context type_definition_finish_as_class = some class_context
scope_context type_definition_finish_as_interface = some interface_context
scope_context type_definition_finish_as_named_constraint = some named_constraint_context
scope_context _ = none

-- The check behind the loop, on the bottom of the stack.
unfoldable pub file_scope : List StateStackEntry → Option DeclarationContext
file_scope [] = none
file_scope (e ∷ []) = if is_scope_loop e.state then some file_context else none
file_scope (e ∷ f ∷ rest) = file_scope (f ∷ rest)

-- The loop of `GetDeclarationContext`, from the top of the stack down to the index 2.
unfoldable pub declaration_context : List StateStackEntry → Option DeclarationContext
declaration_context (e ∷ f ∷ g ∷ rest) =
    let below = declaration_context (f ∷ g ∷ rest) in
    if is_scope_loop e.state then scope_context f.state else below
declaration_context stack = file_scope stack

unfoldable pub get_declaration_context : Context → Option DeclarationContext
get_declaration_context c = declaration_context c.state_stack
