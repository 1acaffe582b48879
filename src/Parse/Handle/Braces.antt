-- ===== src/Parse/Handle/Braces.antt =====
-- lib/Parse/HandleBraceExpression.cc: literals of structs and of struct types.
pub mod Uniform
use cocktail_lang.Prelude.{
  Bool, true, false, not, ◌||◌, Option, none, some, [], ◌∷◌, if◌then◌else◌, ℕ,
}
use cocktail_lang.Lex.TokenKind.{open_curly_brace, close_curly_brace, period, equal, colon, comma}
use cocktail_lang.Lex.TokenKind.Index.{kind_eq}
use cocktail_lang.Lex.TokenizedBuffer.{get_kind}
use cocktail_lang.Parse.NodeKind.{
  NodeKind, struct_literal_or_struct_type_literal_start, struct_field_unknown, struct_field_type,
  struct_field_value, struct_comma, struct_literal, struct_type_literal,
}
use cocktail_lang.Parse.State.{
  State, brace_expression_finish_as_unknown, brace_expression_finish_as_type,
  brace_expression_finish_as_value, brace_expression_parameter_as_unknown,
  brace_expression_parameter_as_type, brace_expression_parameter_as_value,
  brace_expression_parameter_finish_as_type, brace_expression_parameter_finish_as_value,
  brace_expression_parameter_finish_as_unknown, brace_expression_parameter_after_designator_as_type,
  brace_expression_parameter_after_designator_as_value,
  brace_expression_parameter_after_designator_as_unknown, period_as_struct, expression,
}
use cocktail_lang.Parse.Context.{
  Context, StateStackEntry, pop_state, push_state, push_entry, add_leaf_node, add_node, emit_at,
  position_is, consume_and_add_leaf_node_if, expected_struct_literal_field,
}
use cocktail_lang.Parse.Context.Skip.{find_next_of, skip_to}
use cocktail_lang.Parse.Context.Lists.{consume_list_token}
use cocktail_lang.Parse.Handle.{◌>>=◌, advance, with_state, with_error, with_token}
use cocktail_lang.Parse.Handle.Brackets.{is_comma}
use cocktail_lang.Parse.Handle.Declaration.{finish_at_next}

unfoldable pub handle_brace_expression : Context → Option Context
unfolding pop_state push_entry push_state consume_and_add_leaf_node_if
handle_brace_expression c = do
  (state, c1) ← pop_state c
  c2 ← push_entry (with_state state brace_expression_finish_as_unknown) c1
  let (found, c3) =
      consume_and_add_leaf_node_if open_curly_brace struct_literal_or_struct_type_literal_start c2
  if not found
      then none
      else if position_is close_curly_brace c3
      then some c3
      else push_state brace_expression_parameter_as_unknown c3

abbrev pub is_type_field : State → Bool
is_type_field brace_expression_parameter_finish_as_type = true
is_type_field _ = false

abbrev pub is_value_field : State → Bool
is_value_field brace_expression_parameter_finish_as_value = true
is_value_field _ = false

abbrev is_unknown_field : State → Bool
is_unknown_field brace_expression_parameter_finish_as_unknown = true
is_unknown_field _ = false

-- `HandleBraceExpressionParameterError`, with its check on the state.
unfoldable pub brace_parameter_error : StateStackEntry → State → Context → Option Context
unfolding push_entry
brace_parameter_error state param_finish_state c =
    let is_type = is_type_field param_finish_state in
    let is_value = is_value_field param_finish_state in
    let is_unknown = is_unknown_field param_finish_state in
    if is_type || is_value || is_unknown
    then push_entry (with_error (with_state state param_finish_state)) (
        emit_at c.position
          (expected_struct_literal_field (is_type || is_unknown) is_unknown
            (is_value || is_unknown))
          c)
    else none

unfoldable pub handle_brace_expression_parameter : State → State → Context → Option Context
unfolding pop_state push_entry push_state brace_parameter_error
handle_brace_expression_parameter after_designator_state param_finish_state c = do
  (state, c1) ← pop_state c
  if position_is period c1
      then push_entry (with_state state after_designator_state) c1 >>= push_state period_as_struct
      else brace_parameter_error state param_finish_state c1

unfoldable pub handle_brace_expression_parameter_as_type : Context → Option Context
unfolding handle_brace_expression_parameter
handle_brace_expression_parameter_as_type =
    handle_brace_expression_parameter brace_expression_parameter_after_designator_as_type
      brace_expression_parameter_finish_as_type

unfoldable pub handle_brace_expression_parameter_as_value : Context → Option Context
unfolding handle_brace_expression_parameter
handle_brace_expression_parameter_as_value =
    handle_brace_expression_parameter brace_expression_parameter_after_designator_as_value
      brace_expression_parameter_finish_as_value

unfoldable pub handle_brace_expression_parameter_as_unknown : Context → Option Context
unfolding handle_brace_expression_parameter
handle_brace_expression_parameter_as_unknown =
    handle_brace_expression_parameter brace_expression_parameter_after_designator_as_unknown
      brace_expression_parameter_finish_as_unknown

abbrev pub field_state : Bool → State
field_state true = brace_expression_parameter_finish_as_type
field_state false = brace_expression_parameter_finish_as_value

abbrev pub literal_state : Bool → State
literal_state true = brace_expression_finish_as_type
literal_state false = brace_expression_finish_as_value

abbrev is_unknown_literal : State → Bool
is_unknown_literal brace_expression_finish_as_unknown = true
is_unknown_literal _ = false

-- The first field settles the kind of the literal, in the state below.
unfoldable pub settle_literal : Bool → State → Context → Option (State × Context)
unfolding pop_state push_entry
settle_literal is_type brace_expression_parameter_finish_as_unknown c = do
  (finish_state, c1) ← pop_state c
  c2 ←
      if is_unknown_literal finish_state.state
      then push_entry (with_state finish_state (literal_state is_type)) c1
      else none
  some (field_state is_type, c2)
settle_literal is_type param_finish_state c = some (param_finish_state, c)

-- `param_finish_state == want_param_finish_state`
abbrev pub is_wanted : Bool → State → Bool
is_wanted true state = is_type_field state
is_wanted false state = is_value_field state

-- A field whose kind is known goes on with an expression, if its literal is of the same kind.
unfoldable pub place_field : Bool → StateStackEntry → State → Context → Option Context
unfolding push_entry push_state brace_parameter_error
place_field is_type state settled c =
    if is_wanted is_type settled
    then (do
      c1 ← push_entry (with_token (with_state state settled) c.position) (advance c)
      push_state expression c1)
    else brace_parameter_error state settled c

-- A field whose kind is known.
unfoldable pub brace_field : Bool → StateStackEntry → State → Context → Option Context
unfolding settle_literal place_field
brace_field is_type state param_finish_state c = do
  (settled, c1) ← settle_literal is_type param_finish_state c
  place_field is_type state settled c1

-- The kind of a field.
unfoldable pub brace_field_kind : StateStackEntry → State → Context → Option Context
unfolding brace_field brace_parameter_error
brace_field_kind state param_finish_state c =
    if position_is colon c
    then brace_field true state param_finish_state c
    else if position_is equal c
    then brace_field false state param_finish_state c
    else brace_parameter_error state param_finish_state c

-- The recovery from an error in the designator: the field goes on at a `:` or `=`.
unfoldable pub recover_brace_field : StateStackEntry → State → Option ℕ → Context → Option Context
unfolding push_entry skip_to brace_field_kind
recover_brace_field state param_finish_state none c =
    push_entry (with_state state param_finish_state) c
recover_brace_field state param_finish_state (some recovery) c =
    if kind_eq (get_kind c.tokens recovery) comma
    then push_entry (with_state state param_finish_state) c
    else (do c1 ← skip_to recovery c; brace_field_kind state param_finish_state c1)

unfoldable pub handle_brace_expression_parameter_after_designator : State → Context → Option Context
unfolding pop_state find_next_of recover_brace_field brace_field_kind
handle_brace_expression_parameter_after_designator param_finish_state c = do
  (state, c1) ← pop_state c
  if state.has_error
      then (do
        found ← find_next_of (equal ∷ colon ∷ comma ∷ []) c1
        recover_brace_field state param_finish_state found c1)
      else brace_field_kind state param_finish_state c1

unfoldable pub handle_brace_expression_parameter_after_designator_as_type : Context → Option Context
unfolding handle_brace_expression_parameter_after_designator
handle_brace_expression_parameter_after_designator_as_type =
    handle_brace_expression_parameter_after_designator brace_expression_parameter_finish_as_type

unfoldable pub handle_brace_expression_parameter_after_designator_as_value :
    Context → Option Context
unfolding handle_brace_expression_parameter_after_designator
handle_brace_expression_parameter_after_designator_as_value =
    handle_brace_expression_parameter_after_designator brace_expression_parameter_finish_as_value

unfoldable pub handle_brace_expression_parameter_after_designator_as_unknown :
    Context → Option Context
unfolding handle_brace_expression_parameter_after_designator
handle_brace_expression_parameter_after_designator_as_unknown =
    handle_brace_expression_parameter_after_designator brace_expression_parameter_finish_as_unknown

unfoldable pub handle_brace_expression_parameter_finish :
    NodeKind → State → Context → Option Context
unfolding pop_state add_leaf_node add_node consume_list_token push_state
handle_brace_expression_parameter_finish node_kind param_state c = do
  (state, c1) ← pop_state c
  let c2 =
      if state.has_error
      then add_leaf_node struct_field_unknown state.token true c1
      else add_node node_kind state.token state.subtree_start false c1
  (kind, c3) ← consume_list_token struct_comma close_curly_brace state.has_error c2
  if is_comma kind then push_state param_state c3 else some c3

unfoldable pub handle_brace_expression_parameter_finish_as_type : Context → Option Context
unfolding handle_brace_expression_parameter_finish
handle_brace_expression_parameter_finish_as_type =
    handle_brace_expression_parameter_finish struct_field_type brace_expression_parameter_as_type

unfoldable pub handle_brace_expression_parameter_finish_as_value : Context → Option Context
unfolding handle_brace_expression_parameter_finish
handle_brace_expression_parameter_finish_as_value =
    handle_brace_expression_parameter_finish struct_field_value brace_expression_parameter_as_value

unfoldable pub handle_brace_expression_parameter_finish_as_unknown : Context → Option Context
unfolding handle_brace_expression_parameter_finish
handle_brace_expression_parameter_finish_as_unknown =
    handle_brace_expression_parameter_finish struct_field_unknown
      brace_expression_parameter_as_unknown

unfoldable pub handle_brace_expression_finish_as_type : Context → Option Context
unfolding finish_at_next
handle_brace_expression_finish_as_type = finish_at_next struct_type_literal

unfoldable pub handle_brace_expression_finish_as_value : Context → Option Context
unfolding finish_at_next
handle_brace_expression_finish_as_value = finish_at_next struct_literal

unfoldable pub handle_brace_expression_finish_as_unknown : Context → Option Context
unfolding finish_at_next
handle_brace_expression_finish_as_unknown = finish_at_next struct_literal
