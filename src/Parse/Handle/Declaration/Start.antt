-- ===== src/Parse/Handle/Declaration/Start.antt =====
-- The keyword of a declaration is taken by the handler of the state that it is given.
use cocktail_lang.Prelude.{
  ℕ, ◌+◌, ◌<◌, ◌≡◌, refl, false, Option, some, List, [], ◌∷◌, ◌++◌, arith, length,
}
use cocktail_lang.Lex.TokenKind.{TokenKind, class, constraint, fn, interface, var, let_keyword}
use cocktail_lang.Parse.NodeKind.{NodeKind}
use cocktail_lang.Parse.Precedence.Operators.{for_top_level_expression}
use cocktail_lang.Parse.State.{
  State, type_introducer_as_class, type_introducer_as_named_constraint,
  type_introducer_as_interface, function_introducer, var_as_semicolon, let_state,
}
use cocktail_lang.Parse.Context.{
  Context, StateStackEntry, tree_size, pop_state, push_state, push_state_at, add_leaf_node,
}
use cocktail_lang.Parse.Handle.{pop_and_discard_state, advance, with_state}
use cocktail_lang.Parse.Handle.Room.{pushes}
use cocktail_lang.Parse.Handle.Dispatch.{handle_state}
use cocktail_lang.Parse.Handle.Binding.{start_binding, handle_let, handle_var_as_semicolon}
use cocktail_lang.Parse.Handle.Types.{
  handle_type_introducer_as_class, handle_type_introducer_as_interface,
  handle_type_introducer_as_named_constraint,
}
use cocktail_lang.Parse.Handle.Declaration.{
  start_named, handle_function_introducer, handle_namespace,
}

-- The keyword that a declaration starts with, and the state for it.
pub data Introduces : TokenKind → State → Type 0 where
  class_starts : Introduces class type_introducer_as_class
  constraint_starts : Introduces constraint type_introducer_as_named_constraint
  fn_starts : Introduces fn function_introducer
  interface_starts : Introduces interface type_introducer_as_interface
  namespace_starts : Introduces TokenKind.namespace State.namespace
  var_starts : Introduces var var_as_semicolon
  let_starts : Introduces let_keyword let_state

-- A state at a token, over the nodes before.
abbrev pub fresh : State → ℕ → ℕ → StateStackEntry
fresh state token subtree_start = record {
  state = state;
  has_error = false;
  ambient_precedence = for_top_level_expression;
  lhs_precedence = for_top_level_expression;
  token = token;
  subtree_start = subtree_start;
}

-- The token at the position is taken, and there are states above those given.
pub record Taken (c : Context) (below : List StateStackEntry) (o : Option Context) : Type 0 where
  pub after : Context
  pub runs : o ≡ some after
  pub takes : after.position ≡ c.position + 1
  pub more : List StateStackEntry
  pub stack : after.state_stack ≡ more ++ below

-- The stack before is of no account.
pub from_stack :
    {c : Context} {stack below : List StateStackEntry} {o : Option Context}
    → Taken (record c { state_stack = stack }) below o
    → Taken c below o
from_stack t = record {
  after = t.after;
  runs = t.runs;
  takes = t.takes;
  more = t.more;
  stack = t.stack;
}

-- The state on top of the stack starts a declaration.
module _ (c : Context) (entry : StateStackEntry) (below : List StateStackEntry)
    (on_top : c.state_stack ≡ entry ∷ below) (room : length below + 3 < 1048576) where
  abbrev popped : Context
  popped = record c { state_stack = below }

  start_named-Taken :
      (kind : NodeKind) (next name_state : State)
      → Taken c below (start_named kind next name_state c)
  unfolding start_named push_state_at add_leaf_node
  start_named-Taken kind next name_state =
      let leaf = add_leaf_node kind c.position false (advance popped) in
      let first = with_state entry next in
      let c3 = record leaf { state_stack = first ∷ below } in
      let name = fresh name_state entry.token (tree_size c3) in
      let pops : pop_state c ≡ some (entry, popped) = rw (on_top, pop_state) refl in
      let pushed = pushes first below leaf refl (omega (arith, room)) in
      let pushed' = pushes name (first ∷ below) c3 refl (omega (arith, room)) in
      record {
        after = record c3 { state_stack = name ∷ first ∷ below };
        runs = rw (pops, pushed, pushed', start_named, push_state_at) refl;
        takes = refl;
        more = name ∷ first ∷ [];
        stack = refl;
      }

  start_binding-Taken :
      (finish after : State) (kind : NodeKind) (pattern_state : State)
      → Taken c below (start_binding finish after kind pattern_state c)
  unfolding start_binding pop_and_discard_state push_state add_leaf_node
  start_binding-Taken finish after kind pattern_state =
      let last = fresh finish c.position (tree_size c) in
      let next = fresh after c.position (tree_size c) in
      let c3 = record c { state_stack = next ∷ last ∷ below } in
      let leaf = add_leaf_node kind c.position false (advance c3) in
      let pattern = fresh pattern_state (c.position + 1) (tree_size leaf) in
      let pops : pop_and_discard_state c ≡ some popped =
        rw (on_top, pop_and_discard_state, pop_state) refl in
      let pushed = pushes last below popped refl (omega (arith, room)) in
      let pushed' =
        pushes next (last ∷ below) (record c { state_stack = last ∷ below }) refl
          (omega (arith, room)) in
      let pushed'' = pushes pattern (next ∷ last ∷ below) leaf refl (omega (arith, room)) in
      record {
        after = record leaf { state_stack = pattern ∷ next ∷ last ∷ below };
        runs = rw (pops, pushed, pushed', pushed'', start_binding, push_state) refl;
        takes = refl;
        more = pattern ∷ next ∷ last ∷ [];
        stack = refl;
      }

-- The handler of a state that starts a declaration takes the keyword. It leaves the states below.
pub introduced-Taken :
    {kind : TokenKind} {state : State}
    → Introduces kind state
    → (c : Context) (entry : StateStackEntry) (below : List StateStackEntry)
    → c.state_stack ≡ entry ∷ below
    → length below + 3 < 1048576
    → Taken c below (handle_state state c)
unfolding handle_state handle_type_introducer_as_class handle_type_introducer_as_interface
    handle_type_introducer_as_named_constraint handle_function_introducer handle_namespace
    handle_var_as_semicolon handle_let
introduced-Taken class_starts c e below h room = start_named-Taken c e below h room _ _ _
introduced-Taken constraint_starts c e below h room = start_named-Taken c e below h room _ _ _
introduced-Taken fn_starts c e below h room = start_named-Taken c e below h room _ _ _
introduced-Taken interface_starts c e below h room = start_named-Taken c e below h room _ _ _
introduced-Taken namespace_starts c e below h room = start_named-Taken c e below h room _ _ _
introduced-Taken var_starts c e below h room = start_binding-Taken c e below h room _ _ _ _
introduced-Taken let_starts c e below h room = start_binding-Taken c e below h room _ _ _ _
