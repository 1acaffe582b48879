-- ===== src/Parse/Handle/Names/Designator.antt =====
-- What `.` and `->` leave: lib/Parse/HandlePeriod.cc.
use cocktail_lang.Prelude.{
  ℕ, ◌+◌, ◌-◌, ◌≡◌, refl, sym, ap, Bool, true, false, not, ◌||◌, none, some, List, [], ◌∷◌, ◌++◌,
  if◌then◌else◌, arith, inl, inr, Bool-cases, append-nil, append_assoc, length, length-append,
}
use cocktail_lang.Lex.TokenKind.{identifier, period, minus_greater}
use cocktail_lang.Lex.TokenKind.Tables.{is_keyword}
use cocktail_lang.Parse.NodeKind.{NodeKind, name_node}
use cocktail_lang.Parse.Context.{
  Context, StateStackEntry, NodeImpl, ParseDiagnostic, tree_size, pop_state, add_node,
  add_leaf_node, position_is, position_kind, emit_at, return_error_on_state, consume_if,
  add_leaf_if, consume_and_add_leaf_node_if, expected_identifier_after_dot_or_arrow,
}
use cocktail_lang.Parse.Handle.{advance, with_error}
use cocktail_lang.Parse.Handle.Names.{recover_name, handle_period_or_arrow}

-- An identifier follows the token, or a token that is taken for a name.
abbrev pub is_named : Context → Bool
is_named c = position_is identifier (advance c)

abbrev pub is_taken : Context → Bool
is_taken c = is_named c || is_keyword (position_kind (advance c))

abbrev name_missing : Bool → Context → List ParseDiagnostic
name_missing is_arrow c =
    if is_named c
    then []
    else record {
      token = c.position + 1;
      message = expected_identifier_after_dot_or_arrow is_arrow;
    }
      ∷ []

-- Two nodes are added, the name and the one over it. The state below gets an error if no token was
-- taken for the name.
pub record Designated (kind : NodeKind) (is_arrow : Bool) (state parent : StateStackEntry)
    (below : List StateStackEntry) (c c' : Context) : Type 0 where
  pub nodes :
      c'.nodes
      ≡ c.nodes
        ++ record {
          kind = name_node;
          has_error = not (is_named c);
          token = c.position + 1;
          subtree_size = 1;
        }
          ∷ record {
            kind = kind;
            has_error = state.has_error;
            token = c.position;
            subtree_size = tree_size c + 1 - state.subtree_start + 1;
          }
          ∷ []
  pub stack : c'.state_stack ≡ (if is_taken c then parent else with_error parent) ∷ below
  pub position : c'.position ≡ (if is_taken c then c.position + 2 else c.position + 1)
  pub emitted : c'.emitted ≡ c.emitted ++ name_missing is_arrow c

two_nodes :
    (nodes : List NodeImpl) (name : NodeImpl) (kind : NodeKind) (has_error : Bool) (token start : ℕ)
    (c : Context)
    → c.nodes ≡ nodes ++ name ∷ []
    → (add_node kind token start has_error c).nodes
      ≡ nodes
        ++ name
          ∷ record {
            kind = kind;
            has_error = has_error;
            token = token;
            subtree_size = length nodes + 1 - start + 1;
          }
          ∷ []
unfolding add_node
two_nodes nodes name kind has_error token start c e =
    rw (e, length-append nodes (name ∷ [])) (append_assoc nodes (name ∷ []) _)

-- Where the token stands, with its state and the one below on the stack.
module _ (kind : NodeKind) (is_arrow : Bool) (state parent : StateStackEntry)
    (below : List StateStackEntry) (c : Context) (on_top : c.state_stack ≡ state ∷ parent ∷ below)
    (at_token : position_is (if is_arrow then minus_greater else period) c ≡ true) where
  popped : pop_state c ≡ some (state, record c { state_stack = parent ∷ below })
  unfolding pop_state
  popped = rw (on_top, pop_state) refl

  abbrev behind : Context
  behind = record c { state_stack = parent ∷ below; position = c.position + 1 }

  abbrev Leaves : Type 0
  Leaves =
      (c' : Context) × (handle_period_or_arrow kind is_arrow c ≡ some c')
      × Designated kind is_arrow state parent below c c'

  consumes :
      is_named c ≡ true → consume_if identifier behind ≡ (some (c.position + 1), advance behind)
  consumes h = rw h refl

  leaves_it : is_named c ≡ false → consume_if identifier behind ≡ (none, behind)
  leaves_it h = rw h refl

  with_identifier : is_named c ≡ true → Leaves
  unfolding handle_period_or_arrow consume_and_add_leaf_node_if add_node add_leaf_node
  with_identifier h =
      let named = add_leaf_node name_node (c.position + 1) false (advance behind) in
      let found : consume_and_add_leaf_node_if identifier name_node behind ≡ (true, named) =
        ap (λ r. add_leaf_if name_node r.0 r.1) (consumes h) in
      (
        add_node kind c.position state.subtree_start state.has_error named,
        rw (popped, at_token, found, handle_period_or_arrow) refl,
        record {
          nodes =
              rw h (
                two_nodes c.nodes _ kind state.has_error c.position state.subtree_start named refl);
          stack = rw h refl;
          position = rw h (omega arith);
          emitted = rw h (sym (append-nil c.emitted));
        },
      )

  missing :
      is_named c ≡ false
      → consume_and_add_leaf_node_if identifier name_node behind ≡ (false, behind)
  unfolding consume_and_add_leaf_node_if
  missing h = ap (λ r. add_leaf_if name_node r.0 r.1) (leaves_it h)

  abbrev told : Context
  told = emit_at behind.position (expected_identifier_after_dot_or_arrow is_arrow) behind

  with_keyword : is_named c ≡ false → is_keyword (position_kind (advance c)) ≡ true → Leaves
  unfolding handle_period_or_arrow recover_name add_node add_leaf_node
  with_keyword h k =
      let named = add_leaf_node name_node (c.position + 1) true (advance told) in
      let recovers : recover_name is_arrow behind ≡ some named = rw (k, recover_name) refl in
      (
        add_node kind c.position state.subtree_start state.has_error named,
        rw (popped, at_token, missing h, recovers, handle_period_or_arrow) refl,
        record {
          nodes =
              rw h (
                two_nodes c.nodes _ kind state.has_error c.position state.subtree_start named refl);
          stack = rw (h, k) refl;
          position = rw (h, k) (omega arith);
          emitted = rw h refl;
        },
      )

  with_nothing : is_named c ≡ false → is_keyword (position_kind (advance c)) ≡ false → Leaves
  unfolding handle_period_or_arrow recover_name return_error_on_state add_node add_leaf_node
  with_nothing h k =
      let named = record (add_leaf_node name_node (c.position + 1) true told) {
        state_stack = with_error parent ∷ below;
      } in
      let recovers : recover_name is_arrow behind ≡ some named = rw (k, recover_name) refl in
      (
        add_node kind c.position state.subtree_start state.has_error named,
        rw (popped, at_token, missing h, recovers, handle_period_or_arrow) refl,
        record {
          nodes =
              rw h (
                two_nodes c.nodes _ kind state.has_error c.position state.subtree_start named refl);
          stack = rw (h, k) refl;
          position = rw (h, k) refl;
          emitted = rw h refl;
        },
      )

  -- Where `.` or `->` stands, with two states on the stack, its handler returns and pops its state. It
  -- adds two nodes, a name and the one over it. An identifier or a keyword behind the token is
  -- taken; without an identifier the name is an error, which is reported exactly once, and the state
  -- below gets the error exactly if there is no keyword either.
  pub handle_period_or_arrow-Designated :
      (c' : Context) × (handle_period_or_arrow kind is_arrow c ≡ some c')
      × Designated kind is_arrow state parent below c c'
  handle_period_or_arrow-Designated = elim (Bool-cases (is_named c)) [
    | inl h ↦ with_identifier h
    | inr h ↦ elim (Bool-cases (is_keyword (position_kind (advance c)))) [
      | inl k ↦ with_keyword h k
      | inr k ↦ with_nothing h k
    ]
  ]
