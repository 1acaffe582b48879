-- ===== src/Parse/Handle/Names.antt =====
-- lib/Parse/HandlePeriod.cc and HandleDeclarationNameAndParams.cc: names with their qualifiers, and
-- what follows the name of a declaration.
pub mod Designator
use cocktail_lang.Prelude.{Bool, true, false, Option, none, some, if◌then◌else◌, ℕ}
use cocktail_lang.Lex.TokenKind.{minus_greater, period, identifier, open_square_bracket, open_paren}
use cocktail_lang.Lex.TokenKind.Tables.{is_keyword}
use cocktail_lang.Lex.TokenizedBuffer.{get_kind}
use cocktail_lang.Parse.NodeKind.{
  NodeKind, name_node, name_expression, invalid_parse, qualified_declaration,
  member_access_expression, struct_field_designator, pointer_member_access_expression,
}
use cocktail_lang.Parse.State.{
  State, period_as_declaration, declaration_name_and_params_after_name_as_none,
  declaration_name_and_params_after_name_as_optional,
  declaration_name_and_params_after_name_as_required, declaration_name_and_params_after_deduced,
  parameter_list_as_deduced, parameter_list_as_regular,
}
use cocktail_lang.Parse.Context.{
  Context, StateStackEntry, pop_state, push_state, push_entry, add_leaf_node, add_node, emit_at,
  position_is, position_kind, consume_if, consume_checked, consume_and_add_leaf_node_if,
  return_error_on_state, expected_identifier_after_dot_or_arrow, expected_declaration_name,
  parameters_required_by_introducer, parameters_required_by_deduced,
}
use cocktail_lang.Parse.Handle.{◌>>=◌, pop_and_discard_state, advance, with_state}

-- The node of a name that is missing: a keyword is taken for it.
unfoldable pub recover_name : Bool → Context → Option Context
unfolding add_leaf_node return_error_on_state is_keyword
recover_name is_arrow c =
    let c1 = emit_at c.position (expected_identifier_after_dot_or_arrow is_arrow) c in
    if is_keyword (position_kind c1)
    then some (add_leaf_node name_node c1.position true (advance c1))
    else return_error_on_state (add_leaf_node name_node c1.position true c1)

unfoldable pub handle_period_or_arrow : NodeKind → Bool → Context → Option Context
unfolding pop_state consume_and_add_leaf_node_if recover_name add_node
handle_period_or_arrow node_kind is_arrow c = do
  (state, c1) ← pop_state c
  (dot, c2) ← consume_checked (if is_arrow then minus_greater else period) c1
  let (found, c3) = consume_and_add_leaf_node_if identifier name_node c2
  c4 ← if found then some c3 else recover_name is_arrow c3
  some (add_node node_kind dot state.subtree_start state.has_error c4)

unfoldable pub handle_period_as_declaration : Context → Option Context
unfolding handle_period_or_arrow
handle_period_as_declaration = handle_period_or_arrow qualified_declaration false

unfoldable pub handle_period_as_expression : Context → Option Context
unfolding handle_period_or_arrow
handle_period_as_expression = handle_period_or_arrow member_access_expression false

unfoldable pub handle_period_as_struct : Context → Option Context
unfolding handle_period_or_arrow
handle_period_as_struct = handle_period_or_arrow struct_field_designator false

unfoldable pub handle_arrow_expression : Context → Option Context
unfolding handle_period_or_arrow
handle_arrow_expression = handle_period_or_arrow pointer_member_access_expression true

-- The name at a token: the first segment of a qualified name is an expression.
unfoldable pub declaration_name : State → StateStackEntry → Option ℕ → Context → Option Context
unfolding push_entry add_leaf_node return_error_on_state
declaration_name after_name state (some token) c = do
  c1 ← push_entry (with_state state after_name) c
  if position_is period c1
      then push_entry (with_state state period_as_declaration)
          (add_leaf_node name_expression token false c1)
      else some (add_leaf_node name_node token false c1)
declaration_name after_name state none c = do
  c1 ←
      return_error_on_state
        (emit_at c.position (expected_declaration_name (get_kind c.tokens state.token)) c)
  some (add_leaf_node invalid_parse c1.position false c1)

unfoldable pub handle_declaration_name_and_params : State → Context → Option Context
unfolding pop_state declaration_name
handle_declaration_name_and_params after_name c = do
  (state, c1) ← pop_state c
  let (found, c2) = consume_if identifier c1
  declaration_name after_name state found c2

unfoldable pub handle_declaration_name_and_params_as_none : Context → Option Context
unfolding handle_declaration_name_and_params
handle_declaration_name_and_params_as_none =
    handle_declaration_name_and_params declaration_name_and_params_after_name_as_none

unfoldable pub handle_declaration_name_and_params_as_optional : Context → Option Context
unfolding handle_declaration_name_and_params
handle_declaration_name_and_params_as_optional =
    handle_declaration_name_and_params declaration_name_and_params_after_name_as_optional

unfoldable pub handle_declaration_name_and_params_as_required : Context → Option Context
unfolding handle_declaration_name_and_params
handle_declaration_name_and_params_as_required =
    handle_declaration_name_and_params declaration_name_and_params_after_name_as_required

pub data Params : Type 0 where
  no_params optional_params required_params : Params

-- Behind a name without a further qualifier, where there are no parameters.
unfoldable pub missing_params : Params → StateStackEntry → Context → Option Context
unfolding return_error_on_state
missing_params required_params state c =
    return_error_on_state
      (emit_at c.position (parameters_required_by_introducer (get_kind c.tokens state.token)) c)
missing_params _ state c = some c

-- Behind a name without a further qualifier.
unfoldable pub params_after_name : Params → StateStackEntry → Context → Option Context
unfolding push_state missing_params
params_after_name no_params state c = some c
params_after_name params state c =
    if position_is open_square_bracket c
    then push_state declaration_name_and_params_after_deduced c
      >>= push_state parameter_list_as_deduced
    else if position_is open_paren c
    then push_state parameter_list_as_regular c
    else missing_params params state c

unfoldable pub handle_declaration_name_and_params_after_name : Params → Context → Option Context
unfolding pop_state push_entry params_after_name
handle_declaration_name_and_params_after_name params c = do
  (state, c1) ← pop_state c
  if position_is period c1
      then push_entry state c1 >>= push_entry (with_state state period_as_declaration)
      else params_after_name params state c1

unfoldable pub handle_declaration_name_and_params_after_name_as_none : Context → Option Context
unfolding handle_declaration_name_and_params_after_name
handle_declaration_name_and_params_after_name_as_none =
    handle_declaration_name_and_params_after_name no_params

unfoldable pub handle_declaration_name_and_params_after_name_as_optional : Context → Option Context
unfolding handle_declaration_name_and_params_after_name
handle_declaration_name_and_params_after_name_as_optional =
    handle_declaration_name_and_params_after_name optional_params

unfoldable pub handle_declaration_name_and_params_after_name_as_required : Context → Option Context
unfolding handle_declaration_name_and_params_after_name
handle_declaration_name_and_params_after_name_as_required =
    handle_declaration_name_and_params_after_name required_params

unfoldable pub handle_declaration_name_and_params_after_deduced : Context → Option Context
unfolding pop_and_discard_state push_state return_error_on_state
handle_declaration_name_and_params_after_deduced c = do
  c1 ← pop_and_discard_state c
  if position_is open_paren c1
      then push_state parameter_list_as_regular c1
      else return_error_on_state (emit_at c1.position parameters_required_by_deduced c1)
