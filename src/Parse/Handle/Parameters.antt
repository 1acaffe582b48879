-- ===== src/Parse/Handle/Parameters.antt =====
-- lib/Parse/HandleParameter.cc and HandlePattern.cc: lists of parameters, and patterns.
use cocktail_lang.Prelude.{Bool, true, false, Option, some, if◌then◌else◌}
use cocktail_lang.Lex.TokenKind.{
  TokenKind, open_square_bracket, close_square_bracket, open_paren, close_paren, identifier,
  self_value_identifier, addr, colon, colon_exclaim,
}
use cocktail_lang.Parse.NodeKind.{
  NodeKind, parameter_list_comma, parameter_list_start, deduced_parameter_list_start,
  parameter_list, deduced_parameter_list, invalid_parse, name_node, self_value_name,
  generic_pattern_binding, pattern_binding, address,
}
use cocktail_lang.Parse.State.{
  State, pattern_as_deduced_parameter, pattern_as_parameter, parameter_as_deduced,
  parameter_as_regular, parameter_finish_as_deduced, parameter_finish_as_regular,
  parameter_list_finish_as_deduced, parameter_list_finish_as_regular, pattern_template,
  pattern_address, pattern_finish_as_regular, pattern_finish_as_generic,
}
use cocktail_lang.Parse.Precedence.Operators.{for_type}
use cocktail_lang.Parse.Context.{
  Context, StateStackEntry, ParseMessage, pop_state, push_state, push_entry, add_leaf_node,
  add_node, emit_at, position_is, consume_checked, consume_and_add_leaf_node_if,
  consume_if_pattern_keyword, push_state_for_expression, return_error_on_state,
  expected_parameter_name, expected_variable_name, expected_let_binding_name,
}
use cocktail_lang.Parse.Context.Lists.{consume_list_token}
use cocktail_lang.Parse.Handle.{
  ◌>>=◌, pop_and_discard_state, advance, with_state, with_error, with_token,
}
use cocktail_lang.Parse.Handle.Brackets.{is_comma}

unfoldable pub handle_parameter : State → State → Context → Option Context
unfolding pop_and_discard_state push_state
handle_parameter pattern_state finish_state c = do
  c1 ← pop_and_discard_state c
  c2 ← push_state finish_state c1
  push_state pattern_state c2

unfoldable pub handle_parameter_as_deduced : Context → Option Context
unfolding handle_parameter
handle_parameter_as_deduced =
    handle_parameter pattern_as_deduced_parameter parameter_finish_as_deduced

unfoldable pub handle_parameter_as_regular : Context → Option Context
unfolding handle_parameter
handle_parameter_as_regular = handle_parameter pattern_as_parameter parameter_finish_as_regular

unfoldable pub handle_parameter_finish : TokenKind → State → Context → Option Context
unfolding pop_state return_error_on_state consume_list_token push_state
handle_parameter_finish close_token param_state c = do
  (state, c1) ← pop_state c
  c2 ← if state.has_error then return_error_on_state c1 else some c1
  (kind, c3) ← consume_list_token parameter_list_comma close_token state.has_error c2
  if is_comma kind then push_state param_state c3 else some c3

unfoldable pub handle_parameter_finish_as_deduced : Context → Option Context
unfolding handle_parameter_finish
handle_parameter_finish_as_deduced =
    handle_parameter_finish close_square_bracket parameter_as_deduced

unfoldable pub handle_parameter_finish_as_regular : Context → Option Context
unfolding handle_parameter_finish
handle_parameter_finish_as_regular = handle_parameter_finish close_paren parameter_as_regular

unfoldable pub handle_parameter_list :
    NodeKind → TokenKind → TokenKind → State → State → Context → Option Context
unfolding pop_and_discard_state push_state add_leaf_node
handle_parameter_list node_kind open_kind close_kind param_state finish_state c = do
  c1 ← pop_and_discard_state c
  c2 ← push_state finish_state c1
  (token, c3) ← consume_checked open_kind c2
  let c4 = add_leaf_node node_kind token false c3
  if position_is close_kind c4 then some c4 else push_state param_state c4

unfoldable pub handle_parameter_list_as_deduced : Context → Option Context
unfolding handle_parameter_list
handle_parameter_list_as_deduced =
    handle_parameter_list deduced_parameter_list_start open_square_bracket close_square_bracket
      parameter_as_deduced parameter_list_finish_as_deduced

unfoldable pub handle_parameter_list_as_regular : Context → Option Context
unfolding handle_parameter_list
handle_parameter_list_as_regular =
    handle_parameter_list parameter_list_start open_paren close_paren parameter_as_regular
      parameter_list_finish_as_regular

unfoldable pub handle_parameter_list_finish : NodeKind → TokenKind → Context → Option Context
unfolding pop_state add_node
handle_parameter_list_finish node_kind token_kind c = do
  (state, c1) ← pop_state c
  (token, c2) ← consume_checked token_kind c1
  some (add_node node_kind token state.subtree_start state.has_error c2)

unfoldable pub handle_parameter_list_finish_as_deduced : Context → Option Context
unfolding handle_parameter_list_finish
handle_parameter_list_finish_as_deduced =
    handle_parameter_list_finish deduced_parameter_list close_square_bracket

unfoldable pub handle_parameter_list_finish_as_regular : Context → Option Context
unfolding handle_parameter_list_finish
handle_parameter_list_finish_as_regular = handle_parameter_list_finish parameter_list close_paren

pub data PatternKind : Type 0 where
  deduced_parameter_pattern parameter_pattern variable_pattern let_pattern : PatternKind

-- `Template` and `Addr` before a pattern, which a variable does not have.
unfoldable pub pattern_keywords : PatternKind → StateStackEntry → Context → Option Context
unfolding consume_if_pattern_keyword
pattern_keywords variable_pattern state c = some c
pattern_keywords _ state c = do
  c1 ← consume_if_pattern_keyword TokenKind.template pattern_template state.subtree_start c
  consume_if_pattern_keyword addr pattern_address state.subtree_start c1

abbrev pub missing_pattern : PatternKind → ParseMessage
missing_pattern deduced_parameter_pattern = expected_parameter_name
missing_pattern parameter_pattern = expected_parameter_name
missing_pattern variable_pattern = expected_variable_name
missing_pattern let_pattern = expected_let_binding_name

-- `on_error`
unfoldable pub pattern_error : PatternKind → StateStackEntry → Context → Option Context
unfolding add_leaf_node push_entry
pattern_error pattern_kind state c =
    push_entry (with_error (with_state state pattern_finish_as_regular)) (
      add_leaf_node invalid_parse c.position true
        (emit_at c.position (missing_pattern pattern_kind) c))

-- The name of a pattern, or `self` for a deduced parameter; whether there is one.
unfoldable pub pattern_name : PatternKind → Context → Bool × Context
unfolding consume_and_add_leaf_node_if
pattern_name deduced_parameter_pattern c =
    let (found, c1) = consume_and_add_leaf_node_if identifier name_node c in
    if found
    then (true, c1)
    else consume_and_add_leaf_node_if self_value_identifier self_value_name c1
pattern_name _ c = consume_and_add_leaf_node_if identifier name_node c

-- The type of a pattern, behind `:` or `:!`.
unfoldable pub pattern_type : State → StateStackEntry → Context → Option Context
unfolding push_entry push_state_for_expression for_type
pattern_type finish_state state c = do
  c1 ← push_entry (with_token (with_state state finish_state) c.position) (advance c)
  push_state_for_expression for_type c1

-- A pattern behind its name.
unfoldable pub pattern_binding_type : PatternKind → StateStackEntry → Context → Option Context
unfolding pattern_type pattern_error
pattern_binding_type pattern_kind state c =
    if position_is colon c
    then pattern_type pattern_finish_as_regular state c
    else if position_is colon_exclaim c
    then pattern_type pattern_finish_as_generic state c
    else pattern_error pattern_kind state c

unfoldable pub handle_pattern : PatternKind → Context → Option Context
unfolding pop_state pattern_keywords pattern_name pattern_binding_type pattern_error add_leaf_node
handle_pattern pattern_kind c = do
  (state, c1) ← pop_state c
  c2 ← pattern_keywords pattern_kind state c1
  let (has_name, c3) = pattern_name pattern_kind c2
  if has_name
      then pattern_binding_type pattern_kind state c3
      else pattern_error pattern_kind state (add_leaf_node name_node c3.position true c3)

unfoldable pub handle_pattern_as_deduced_parameter : Context → Option Context
unfolding handle_pattern
handle_pattern_as_deduced_parameter = handle_pattern deduced_parameter_pattern

unfoldable pub handle_pattern_as_parameter : Context → Option Context
unfolding handle_pattern
handle_pattern_as_parameter = handle_pattern parameter_pattern

unfoldable pub handle_pattern_as_variable : Context → Option Context
unfolding handle_pattern
handle_pattern_as_variable = handle_pattern variable_pattern

unfoldable pub handle_pattern_as_let : Context → Option Context
unfolding handle_pattern
handle_pattern_as_let = handle_pattern let_pattern

-- The node of a pattern or of a keyword before one; an error goes to the state below.
unfoldable pub handle_pattern_finish : NodeKind → Context → Option Context
unfolding pop_state add_node return_error_on_state
handle_pattern_finish node_kind c = do
  (state, c1) ← pop_state c
  let c2 = add_node node_kind state.token state.subtree_start state.has_error c1
  if state.has_error then return_error_on_state c2 else some c2

unfoldable pub handle_pattern_finish_as_generic : Context → Option Context
unfolding handle_pattern_finish
handle_pattern_finish_as_generic = handle_pattern_finish generic_pattern_binding

unfoldable pub handle_pattern_finish_as_regular : Context → Option Context
unfolding handle_pattern_finish
handle_pattern_finish_as_regular = handle_pattern_finish pattern_binding

unfoldable pub handle_pattern_address : Context → Option Context
unfolding handle_pattern_finish
handle_pattern_address = handle_pattern_finish address

unfoldable pub handle_pattern_template : Context → Option Context
unfolding handle_pattern_finish
handle_pattern_template = handle_pattern_finish NodeKind.template
