-- ===== src/Parse/Handle/Braces/Uniform.antt =====
-- The fields of a literal are of one kind: lib/Parse/HandleBraceExpression.cc.
use cocktail_lang.Prelude.{
  ℕ, ◌+◌, ◌<◌, ◌≡◌, refl, ◌∙◌, Bool, true, false, not, some, List, [], ◌∷◌, ◌++◌, length, arith,
}
use cocktail_lang.Parse.State.{
  State, expression, brace_expression_finish_as_unknown, brace_expression_finish_as_type,
  brace_expression_finish_as_value, brace_expression_parameter_finish_as_type,
  brace_expression_parameter_finish_as_value, brace_expression_parameter_finish_as_unknown,
}
use cocktail_lang.Parse.Context.{
  Context, StateStackEntry, push_entry, pop_state, push_state, emit_at, tree_size,
  expected_struct_literal_field,
}
use cocktail_lang.Parse.Precedence.Operators.{for_top_level_expression}
use cocktail_lang.Parse.Handle.{advance, with_state, with_error, with_token}
use cocktail_lang.Parse.Handle.Room.{pushes}
use cocktail_lang.Parse.Handle.Braces.{
  field_state, literal_state, is_wanted, settle_literal, brace_parameter_error, place_field,
  brace_field,
}

-- The states of a field and of a literal of types (`true`), and of values.
abbrev pub field_of : Bool → State
field_of true = brace_expression_parameter_finish_as_type
field_of false = brace_expression_parameter_finish_as_value

abbrev pub literal_of : Bool → State
literal_of true = brace_expression_finish_as_type
literal_of false = brace_expression_finish_as_value

-- The state of a field and that of its literal, which is settled as the one of types, as the one of
-- values, or not yet.
pub data Agrees : State → State → Type 0 where
  unsettled : Agrees brace_expression_parameter_finish_as_unknown brace_expression_finish_as_unknown
  settled_as : (is_type : Bool) → Agrees (field_of is_type) (literal_of is_type)

-- The state of a literal that a field of a kind may be in.
pub data Fits (is_type : Bool) : State → Type 0 where
  open_literal : Fits is_type brace_expression_finish_as_unknown
  same_kind : Fits is_type (literal_of is_type)

-- The state of the expression at a token, over the nodes before.
abbrev pub expression_at : ℕ → ℕ → StateStackEntry
expression_at token subtree_start = record {
  state = expression;
  has_error = false;
  ambient_precedence = for_top_level_expression;
  lhs_precedence = for_top_level_expression;
  token = token;
  subtree_start = subtree_start;
}

-- What becomes of a field, over a literal in the state s. If the field fits, both get its kind and
-- an expression is next; else the literal is of the other kind, which is reported.
pub data FieldStep (is_type : Bool) (s : State) (state entry : StateStackEntry)
    (below : List StateStackEntry) (c c' : Context) : Type 0 where
  goes_on :
      Fits is_type s
      → c' ≡ record c {
        position = c.position + 1;
        state_stack =
            expression_at (c.position + 1) (tree_size c)
            ∷ with_token (with_state state (field_of is_type)) c.position
            ∷ with_state entry (literal_of is_type)
            ∷ below;
      }
      → FieldStep is_type s state entry below c c'
  other_kind :
      s ≡ literal_of (not is_type)
      → c' ≡ record c {
        state_stack =
            with_error (with_state state (field_of (not is_type)))
            ∷ with_state entry (literal_of (not is_type))
            ∷ below;
        emitted =
            c.emitted
            ++ record {
              token = c.position;
              message = expected_struct_literal_field (not is_type) false is_type;
            }
              ∷ [];
      }
      → FieldStep is_type s state entry below c c'

settles :
    (is_type : Bool) (entry : StateStackEntry) (below : List StateStackEntry) (c : Context)
    → c.state_stack ≡ with_state entry brace_expression_finish_as_unknown ∷ below
    → length below + 3 < 1048576
    → settle_literal is_type brace_expression_parameter_finish_as_unknown c
      ≡ some (
        field_state is_type,
        record c { state_stack = with_state entry (literal_state is_type) ∷ below },
      )
unfolding settle_literal pop_state
settles is_type entry below c on_top room =
    let popped : pop_state c
        ≡ some (
          with_state entry brace_expression_finish_as_unknown,
          record c { state_stack = below },
        ) =
      rw (on_top, pop_state) refl in
    let pushed =
      pushes (with_state entry (literal_state is_type)) below (record c { state_stack = below })
        refl (omega (arith, room)) in
    rw (popped, pushed, settle_literal) refl

is_wanted_field : (is_type : Bool) → is_wanted is_type (field_state is_type) ≡ true
is_wanted_field true = refl
is_wanted_field false = refl

reports :
    (is_type : Bool) (state : StateStackEntry) (c : Context)
    → place_field is_type state (field_state (not is_type)) c
      ≡ push_entry
          (with_error (with_state state (field_state (not is_type))))
          (emit_at c.position (expected_struct_literal_field (not is_type) false is_type) c)
unfolding place_field brace_parameter_error
reports true state c = refl
reports false state c = refl

places :
    (is_type : Bool) (state entry : StateStackEntry) (below : List StateStackEntry) (c : Context)
    → c.state_stack ≡ with_state entry (literal_state is_type) ∷ below
    → length below + 3 < 1048576
    → place_field is_type state (field_state is_type) c
      ≡ some (record c {
        position = c.position + 1;
        state_stack =
            expression_at (c.position + 1) (tree_size c)
            ∷ with_token (with_state state (field_state is_type)) c.position
            ∷ with_state entry (literal_state is_type)
            ∷ below;
      })
unfolding place_field push_state
places is_type state entry below c on_top room =
    let field = with_token (with_state state (field_state is_type)) c.position in
    let stack = with_state entry (literal_state is_type) ∷ below in
    let c1 = record (advance c) { state_stack = field ∷ stack } in
    let next = expression_at (c.position + 1) (tree_size c) in
    let pushed = pushes field stack (advance c) on_top (omega (arith, room)) in
    let pushed' = pushes next (field ∷ stack) c1 refl (omega (arith, room)) in
    let wanted : is_wanted is_type (field_state is_type) ≡ true = is_wanted_field is_type in
    rw (wanted, pushed, pushed', place_field, push_state) refl

refuses :
    (is_type : Bool) (state entry : StateStackEntry) (below : List StateStackEntry) (c : Context)
    → c.state_stack ≡ with_state entry (literal_state (not is_type)) ∷ below
    → length below + 3 < 1048576
    → place_field is_type state (field_state (not is_type)) c
      ≡ some (record c {
        state_stack =
            with_error (with_state state (field_state (not is_type)))
            ∷ with_state entry (literal_state (not is_type))
            ∷ below;
        emitted =
            c.emitted
            ++ record {
              token = c.position;
              message = expected_struct_literal_field (not is_type) false is_type;
            }
              ∷ [];
      })
unfolding place_field brace_parameter_error
refuses is_type state entry below c on_top room =
    let stack = with_state entry (literal_state (not is_type)) ∷ below in
    let told = emit_at c.position (expected_struct_literal_field (not is_type) false is_type) c in
    let field = with_error (with_state state (field_state (not is_type))) in
    reports is_type state c ∙ pushes field stack told on_top (omega (arith, room))

-- The first field of a literal.
first_field :
    (is_type : Bool) (state entry : StateStackEntry) (below : List StateStackEntry) (c : Context)
    → c.state_stack ≡ with_state entry brace_expression_finish_as_unknown ∷ below
    → length below + 3 < 1048576
    → brace_field is_type state brace_expression_parameter_finish_as_unknown c
      ≡ some (record c {
        position = c.position + 1;
        state_stack =
            expression_at (c.position + 1) (tree_size c)
            ∷ with_token (with_state state (field_state is_type)) c.position
            ∷ with_state entry (literal_state is_type)
            ∷ below;
      })
unfolding brace_field settle_literal
first_field is_type state entry below c on_top room =
    let c1 = record c { state_stack = with_state entry (literal_state is_type) ∷ below } in
    rw (settles is_type entry below c on_top room, brace_field)
      (places is_type state entry below c1 refl room)

-- With room for two more states on the stack, a field whose state agrees with the one of its literal
-- is handled without a failed check. If no field came before or they were of its kind, its token is
-- taken, an expression is next, and the states of the field and of the literal are those of its
-- kind. If they were of the other kind, the field is an error, which is reported once, no token is
-- taken, and both states stay of that kind.
pub brace_field-FieldStep :
    {p s : State}
    → Agrees p s
    → (is_type : Bool) (state entry : StateStackEntry) (below : List StateStackEntry) (c : Context)
    → c.state_stack ≡ with_state entry s ∷ below
    → length below + 3 < 1048576
    → (c' : Context) × (brace_field is_type state p c ≡ some c')
      × FieldStep is_type s state entry below c c'
unfolding brace_field settle_literal
brace_field-FieldStep unsettled true state entry below c on_top room =
    (_, first_field true state entry below c on_top room, goes_on open_literal refl)
brace_field-FieldStep unsettled false state entry below c on_top room =
    (_, first_field false state entry below c on_top room, goes_on open_literal refl)
brace_field-FieldStep (settled_as true) true state entry below c on_top room =
    (_, places true state entry below c on_top room, goes_on same_kind refl)
brace_field-FieldStep (settled_as true) false state entry below c on_top room =
    (_, refuses false state entry below c on_top room, other_kind refl refl)
brace_field-FieldStep (settled_as false) true state entry below c on_top room =
    (_, refuses true state entry below c on_top room, other_kind refl refl)
brace_field-FieldStep (settled_as false) false state entry below c on_top room =
    (_, places false state entry below c on_top room, goes_on same_kind refl)
