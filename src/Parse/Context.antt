-- ===== src/Parse/Context.antt =====
-- lib/Parse/Context.cc and include/Cocktail/Parse/Context.h: the state of the parser and the
-- operations that the handlers of its states call. An operation returns the context that it
-- leaves; `none` is a failed check. The log and the stack dump are left out.
pub mod Skip
pub mod Fixity
pub mod Lists
pub mod Search
pub mod Progress
pub mod Operators
pub mod Elements
pub mod Nodes
pub mod Lexed
use cocktail_lang.Prelude.{
  ℕ, ◌+◌, ◌-◌, Bool, true, false, not, ◌&&◌, ◌||◌, Option, none, some, List, [], ◌∷◌, ◌++◌,
  if◌then◌else◌, ◌==◌, leb, ltb, length,
}
use cocktail_lang.Lex.TokenKind.{TokenKind, open_paren, end_of_file}
use cocktail_lang.Lex.TokenKind.Index.{kind_eq}
use cocktail_lang.Lex.TokenizedBuffer.{TokenizedBuffer, get_kind, token_count}
use cocktail_lang.Parse.NodeKind.{NodeKind}
use cocktail_lang.Parse.State.{State, expression}
use cocktail_lang.Parse.Precedence.Operators.{PrecedenceGroup, for_top_level_expression}

pub data RelativeLocation : Type 0 where
  around after before : RelativeLocation

pub data ParseMessage : Type 0 where
  expected_paren_after : TokenKind → ParseMessage
  expected_close_symbol : TokenKind → ParseMessage
  binary_operator_requires_whitespace : RelativeLocation → ParseMessage
  unary_operator_has_whitespace : RelativeLocation → ParseMessage
  unary_operator_requires_whitespace : RelativeLocation → ParseMessage
  unexpected_token_after_list_element : TokenKind → ParseMessage
  expected_declaration_semi : TokenKind → ParseMessage
  expected_declaration_semi_or_definition : TokenKind → ParseMessage
  expected_statement_semi : TokenKind → ParseMessage
  expected_variable_declaration expected_code_block expected_initializer_after_let : ParseMessage
  expected_in_not_colon expected_in expected_array_semi : ParseMessage
  unrecognized_declaration method_impl_not_allowed : ParseMessage
  statement_operator_as_subexpression : TokenKind → ParseMessage
  unary_operator_requires_parentheses : TokenKind → ParseMessage
  operator_requires_parentheses expected_expression : ParseMessage
  expected_then_after_if expected_else_after_if expected_expression_semi : ParseMessage
  expected_identifier_after_dot_or_arrow : Bool → ParseMessage
  expected_declaration_name parameters_required_by_introducer : TokenKind → ParseMessage
  parameters_required_by_deduced expected_parameter_name expected_variable_name : ParseMessage
  expected_let_binding_name : ParseMessage
  expected_struct_literal_field : Bool → Bool → Bool → ParseMessage
  expected_identifier_after_package expected_library_name : ParseMessage
  missing_library_keyword expected_api_or_impl : ParseMessage

pub record ParseDiagnostic : Type 0 where
  pub token : ℕ
  pub message : ParseMessage

pub record NodeImpl : Type 0 where
  pub kind : NodeKind
  pub has_error : Bool
  pub token : ℕ
  pub subtree_size : ℕ

pub record StateStackEntry : Type 0 where
  pub state : State
  pub has_error : Bool
  pub ambient_precedence : PrecedenceGroup
  pub lhs_precedence : PrecedenceGroup
  pub token : ℕ
  pub subtree_start : ℕ

-- The members of `Context` and of the tree that it builds; the top of the stack comes first.
pub record Context : Type 0 where
  pub tokens : TokenizedBuffer
  pub position : ℕ
  pub nodes : List NodeImpl
  pub has_errors : Bool
  pub state_stack : List StateStackEntry
  pub emitted : List ParseDiagnostic

-- `end_`, the token of the end of the file.
abbrev pub end_position : Context → ℕ
end_position c = token_count c.tokens - 1

abbrev pub tree_size : Context → ℕ
tree_size c = length c.nodes

-- The constructor, with its two checks.
unfoldable pub new_context : TokenizedBuffer → Option Context
new_context b =
    if not (token_count b == 0) && kind_eq (get_kind b (token_count b - 1)) end_of_file
    then some (record {
      tokens = b;
      position = 0;
      nodes = [];
      has_errors = false;
      state_stack = [];
      emitted = [];
    })
    else none

-- `emitter_->Emit`
abbrev pub emit_at : ℕ → ParseMessage → Context → Context
emit_at token message c = record c {
  emitted = c.emitted ++ record { token = token; message = message } ∷ [];
}

unfoldable pub add_leaf_node : NodeKind → ℕ → Bool → Context → Context
add_leaf_node kind token has_error c = record c {
  nodes =
      c.nodes
      ++ record { kind = kind; has_error = has_error; token = token; subtree_size = 1 } ∷ [];
  has_errors = c.has_errors || has_error;
}

-- The size is that of the source where the subtree starts among the nodes, as the offset of a state
-- does; the source's `int` would go below zero elsewhere.
unfoldable pub add_node : NodeKind → ℕ → ℕ → Bool → Context → Context
add_node kind token subtree_start has_error c = record c {
  nodes =
      c.nodes
      ++ record {
        kind = kind;
        has_error = has_error;
        token = token;
        subtree_size = tree_size c - subtree_start + 1;
      }
        ∷ [];
  has_errors = c.has_errors || has_error;
}

abbrev pub position_kind : Context → TokenKind
position_kind c = get_kind c.tokens c.position

abbrev pub position_is : TokenKind → Context → Bool
position_is kind c = kind_eq (position_kind c) kind

abbrev pub consume : Context → ℕ × Context
consume c = (c.position, record c { position = c.position + 1 })

abbrev pub consume_if : TokenKind → Context → Option ℕ × Context
consume_if kind c =
    if position_is kind c
    then (some c.position, record c { position = c.position + 1 })
    else (none, c)

abbrev pub consume_checked : TokenKind → Context → Option (ℕ × Context)
consume_checked kind c = if position_is kind c then some (consume c) else none

-- `PushState(StateStackEntry)`, with the check on the size of the stack.
unfoldable pub push_entry : StateStackEntry → Context → Option Context
push_entry entry c =
    if ltb (length c.state_stack + 1) 1048576
    then some (record c { state_stack = entry ∷ c.state_stack })
    else none

unfoldable pub push_state : State → Context → Option Context
unfolding push_entry
push_state state c =
    push_entry
      (record {
        state = state;
        has_error = false;
        ambient_precedence = for_top_level_expression;
        lhs_precedence = for_top_level_expression;
        token = c.position;
        subtree_start = tree_size c;
      })
      c

unfoldable pub push_state_for_expression : PrecedenceGroup → Context → Option Context
unfolding push_entry
push_state_for_expression ambient_precedence c =
    push_entry
      (record {
        state = expression;
        has_error = false;
        ambient_precedence = ambient_precedence;
        lhs_precedence = for_top_level_expression;
        token = c.position;
        subtree_start = tree_size c;
      })
      c

unfoldable pub push_state_at : State → ℕ → Context → Option Context
unfolding push_entry
push_state_at state token c =
    push_entry
      (record {
        state = state;
        has_error = false;
        ambient_precedence = for_top_level_expression;
        lhs_precedence = for_top_level_expression;
        token = token;
        subtree_start = tree_size c;
      })
      c

unfoldable pub push_state_for_expression_loop :
    State → PrecedenceGroup → PrecedenceGroup → Context → Option Context
unfolding push_entry
push_state_for_expression_loop state ambient_precedence lhs_precedence c =
    push_entry
      (record {
        state = state;
        has_error = false;
        ambient_precedence = ambient_precedence;
        lhs_precedence = lhs_precedence;
        token = c.position;
        subtree_start = tree_size c;
      })
      c

unfoldable pub pop_state : Context → Option (StateStackEntry × Context)
pop_state c = elim c.state_stack [
  | [] ↦ none
  | entry ∷ rest ↦ some (entry, record c { state_stack = rest })
]

-- `ReturnErrorOnState`; the stack is not empty there.
unfoldable pub return_error_on_state : Context → Option Context
return_error_on_state c = elim c.state_stack [
  | [] ↦ none
  | entry ∷ rest ↦ some (record c { state_stack = record entry { has_error = true } ∷ rest })
]

unfoldable pub consume_and_add_open_paren : ℕ → NodeKind → Context → Option ℕ × Context
unfolding add_leaf_node
consume_and_add_open_paren default_token start_kind c =
    let (found, c') = consume_if open_paren c in
    elim found [
      | some token ↦ (some token, add_leaf_node start_kind token false c')
      | none ↦ (
        none,
        add_leaf_node start_kind default_token true
            (emit_at c'.position (expected_paren_after (get_kind c'.tokens default_token)) c'),
      )
    ]

-- The leaf of a token, if it was consumed.
unfoldable pub add_leaf_if : NodeKind → Option ℕ → Context → Bool × Context
unfolding add_leaf_node
add_leaf_if node_kind (some token) c = (true, add_leaf_node node_kind token false c)
add_leaf_if node_kind none c = (false, c)

unfoldable pub consume_and_add_leaf_node_if : TokenKind → NodeKind → Context → Bool × Context
unfolding add_leaf_if
consume_and_add_leaf_node_if token_kind node_kind c =
    let (found, c') = consume_if token_kind c in add_leaf_if node_kind found c'

unfoldable pub consume_if_pattern_keyword : TokenKind → State → ℕ → Context → Option Context
unfolding push_entry
consume_if_pattern_keyword keyword_token keyword_state subtree_start c =
    let (found, c') = consume_if keyword_token c in
    elim found [
      | none ↦ some c'
      | some token ↦
          push_entry
            (record {
              state = keyword_state;
              has_error = false;
              ambient_precedence = for_top_level_expression;
              lhs_precedence = for_top_level_expression;
              token = token;
              subtree_start = subtree_start;
            })
            c'
    ]

unfoldable pub emit_expected_declaration_semi : TokenKind → Context → Context
emit_expected_declaration_semi expected_kind c =
    emit_at c.position (expected_declaration_semi expected_kind) c

unfoldable pub emit_expected_declaration_semi_or_definition : TokenKind → Context → Context
emit_expected_declaration_semi_or_definition expected_kind c =
    emit_at c.position (expected_declaration_semi_or_definition expected_kind) c
