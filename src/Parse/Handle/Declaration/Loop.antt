-- ===== src/Parse/Handle/Declaration/Loop.antt =====
-- The loop over declarations goes on: it ends its scope, starts a declaration, or moves forward.
use cocktail_lang.Prelude.{
  ℕ, ◌+◌, ◌<◌, ◌≡◌, ◌≢◌, refl, ap, Bool, true, false, Option, some, List, [], ◌∷◌, ◌++◌, arith,
  length,
}
use cocktail_lang.Lex.TokenKind.{
  TokenKind, close_curly_brace, end_of_file, class, constraint, fn, interface, namespace, semi, var,
  let_keyword,
}
use cocktail_lang.Lex.TokenKind.Index.{as_int, kind_eq}
use cocktail_lang.Lex.TokenizedBuffer.{token_count}
use cocktail_lang.Parse.NodeKind.{empty_declaration}
use cocktail_lang.Parse.State.{State}
use cocktail_lang.Parse.Context.{
  Context, StateStackEntry, end_position, tree_size, pop_state, push_state, add_leaf_node,
  position_is, position_kind, emit_at, unrecognized_declaration,
}
use cocktail_lang.Parse.Context.Search.{IsBalanced}
use cocktail_lang.Parse.Context.Progress.{skip_past_likely_end-Skipped}
use cocktail_lang.Parse.Handle.{pop_and_discard_state, advance, token_or}
use cocktail_lang.Parse.Handle.Room.{pushes}
use cocktail_lang.Parse.Handle.Declaration.Start.{
  Introduces, class_starts, constraint_starts, fn_starts, interface_starts, namespace_starts,
  var_starts, let_starts, fresh, Taken, from_stack, introduced-Taken,
}
use cocktail_lang.Parse.Handle.Dispatch.{handle_state}
use cocktail_lang.Parse.Handle.Declaration.{
  handle_unrecognized_declaration, declaration_for, handle_declaration_scope_loop,
}

pub data EndsScope : TokenKind → Type 0 where
  at_brace : EndsScope close_curly_brace
  at_end : EndsScope end_of_file

-- The tokens that the scope of declarations knows.
abbrev pub is_recognized : TokenKind → Bool
is_recognized close_curly_brace = true
is_recognized end_of_file = true
is_recognized class = true
is_recognized constraint = true
is_recognized fn = true
is_recognized interface = true
is_recognized namespace = true
is_recognized semi = true
is_recognized var = true
is_recognized let_keyword = true
is_recognized _ = false

-- What one run of the handler does at a token, with the state on top of the stack.
pub data LoopStep (kind : TokenKind) (c c' : Context) : Type 0 where
  ends_scope :
      EndsScope kind
      → (state : StateStackEntry) (below : List StateStackEntry) → c.state_stack ≡ state ∷ below
      → c' ≡ record c { state_stack = below }
      → LoopStep kind c c'
  starts_declaration :
      (state : State)
      → Introduces kind state
      → c' ≡ record c { state_stack = fresh state c.position (tree_size c) ∷ c.state_stack }
      → Taken c c.state_stack (handle_state state c')
      → LoopStep kind c c'
  declares_nothing :
      kind ≡ semi
      → c' ≡ add_leaf_node empty_declaration c.position false (advance c)
      → LoopStep kind c c'
  skips :
      (token : ℕ)
      → is_recognized kind ≡ false
      → c.position < c'.position
      → c'.state_stack ≡ c.state_stack
      → c'.nodes
        ≡ c.nodes
          ++ record { kind = empty_declaration; has_error = true; token = token; subtree_size = 1 }
            ∷ []
      → c'.emitted
        ≡ c.emitted ++ record { token = c.position; message = unrecognized_declaration } ∷ []
      → LoopStep kind c c'

-- There is a state on the stack, and room for three more.
pub record HasRoom (c : Context) : Type 0 where
  pub state : StateStackEntry
  pub below : List StateStackEntry
  pub on_top : c.state_stack ≡ state ∷ below
  pub room : length c.state_stack + 3 < 1048576

abbrev Steps : TokenKind → Context → Option Context → Type 0
Steps kind c o = (c' : Context) × (o ≡ some c') × LoopStep kind c c'

push-Steps :
    {kind : TokenKind} {state : State}
    → Introduces kind state
    → (c : Context) → HasRoom c
    → Steps kind c (push_state state c)
unfolding push_state
push-Steps {kind} {state} starts c r =
    let entry = fresh state c.position (tree_size c) in
    let c1 = record c { state_stack = entry ∷ c.state_stack } in
    (
      c1,
      pushes entry c.state_stack c refl (omega (arith, r.room)),
      starts_declaration state starts refl
          (from_stack (introduced-Taken starts c1 entry c.state_stack refl r.room)),
    )

pop-Steps :
    {kind : TokenKind}
    → EndsScope kind
    → (c : Context) → HasRoom c
    → Steps kind c (pop_and_discard_state c)
unfolding pop_and_discard_state pop_state
pop-Steps ends c r = (
  record c { state_stack = r.below },
  rw (r.on_top, pop_and_discard_state, pop_state) refl,
  ends_scope ends r.state r.below r.on_top refl,
)

unrecognized-Steps :
    (kind : TokenKind) (c : Context)
    → is_recognized kind ≡ false
    → IsBalanced c.tokens
    → c.position < token_count c.tokens
    → position_is close_curly_brace c ≡ false
    → position_is end_of_file c ≡ false
    → Steps kind c (handle_unrecognized_declaration c)
unfolding handle_unrecognized_declaration add_leaf_node
unrecognized-Steps kind c unknown bal inside no_brace no_end =
    let c1 = emit_at c.position unrecognized_declaration c in
    let (r, runs, s) = skip_past_likely_end-Skipped c.position c1 bal inside in
    let before_end : c.position ≢ end_position c = λ e.
      let at_end : position_is end_of_file c ≡ true = rw e bal.last in ground (arith, at_end) in
    (
      add_leaf_node empty_declaration (token_or r.0 c.position) true
          (record c1 { position = s.to }),
      rw (runs, s.moved, handle_unrecognized_declaration) refl,
      skips (token_or r.0 c.position) unknown (s.moves no_brace (omega (arith, before_end))) refl
          refl refl,
    )

-- The tokens that a case of the `switch` names, and the others.
declaration_for-Steps :
    (k : TokenKind) (c : Context)
    → position_kind c ≡ k
    → IsBalanced c.tokens
    → c.position < token_count c.tokens
    → HasRoom c
    → Steps k c (declaration_for k c)
unfolding declaration_for add_leaf_node kind_eq as_int
declaration_for-Steps close_curly_brace c e bal inside r = pop-Steps at_brace c r
declaration_for-Steps end_of_file c e bal inside r = pop-Steps at_end c r
declaration_for-Steps class c e bal inside r = push-Steps class_starts c r
declaration_for-Steps constraint c e bal inside r = push-Steps constraint_starts c r
declaration_for-Steps fn c e bal inside r = push-Steps fn_starts c r
declaration_for-Steps interface c e bal inside r = push-Steps interface_starts c r
declaration_for-Steps namespace c e bal inside r = push-Steps namespace_starts c r
declaration_for-Steps semi c e bal inside r = (_, refl, declares_nothing refl refl)
declaration_for-Steps var c e bal inside r = push-Steps var_starts c r
declaration_for-Steps let_keyword c e bal inside r = push-Steps let_starts c r
declaration_for-Steps _ c e bal inside r =
    unrecognized-Steps _ c refl bal inside (ap (λ k. kind_eq k close_curly_brace) e)
      (ap (λ k. kind_eq k end_of_file) e)

-- On a balanced buffer, with room for three more on the stack of states, a run of
-- `HandleDeclarationScopeLoop` returns. At a `}` or the end of the file it pops its state. At a keyword
-- of a declaration it pushes the state for it, whose handler then takes the keyword and leaves the
-- state of the loop where it is. At a `;` it takes that and adds an empty declaration. At another
-- token it reports it exactly once, adds an empty declaration that is an error, and moves forward.
pub handle_declaration_scope_loop-LoopStep :
    (c : Context)
    → IsBalanced c.tokens
    → c.position < token_count c.tokens
    → HasRoom c
    → (c' : Context) × (handle_declaration_scope_loop c ≡ some c') × LoopStep (position_kind c) c c'
unfolding handle_declaration_scope_loop
handle_declaration_scope_loop-LoopStep c bal inside r =
    declaration_for-Steps (position_kind c) c refl bal inside r
