-- ===== src/Parse/Handle/Statement/Finish.antt =====
-- The `;` behind a statement: found, or reported and skipped for.
use cocktail_lang.Prelude.{
  ℕ, ◌+◌, ◌-◌, ◌<◌, ◌≤◌, ◌≡◌, refl, sym, append-nil, ap, true, false, some, List, [], ◌∷◌, ◌++◌,
  if◌then◌else◌, arith, ◌⊎◌, inl, inr, Bool-cases, Option-cases,
}
use cocktail_lang.Lex.TokenKind.{semi}
use cocktail_lang.Lex.TokenKind.Index.{kind_eq}
use cocktail_lang.Lex.TokenizedBuffer.{get_kind, token_count}
use cocktail_lang.Parse.NodeKind.{NodeKind}
use cocktail_lang.Parse.Context.{
  Context, StateStackEntry, ParseDiagnostic, tree_size, pop_state, add_node, position_is, emit_at,
  expected_statement_semi,
}
use cocktail_lang.Parse.Context.Search.{IsBalanced}
use cocktail_lang.Parse.Context.Progress.{skip_past_likely_end-Skipped}
use cocktail_lang.Parse.Handle.{token_or}
use cocktail_lang.Parse.Handle.Statement.{
  recover_statement, finish_statement, handle_statement_keyword_finish,
}

-- The diagnostics of the end of a statement: one, if the `;` is missing.
abbrev semi_missing : StateStackEntry → Context → List ParseDiagnostic
semi_missing state c =
    if position_is semi c
    then []
    else record {
      token = c.position;
      message = expected_statement_semi (get_kind c.tokens state.token);
    }
      ∷ []

-- How a statement ends: its state is popped, and one node is added, which is an error if the state
-- was one or if the `;` is missing. It stands at a `;` right before the position that follows, or at
-- the token of the state.
pub record Ended (kind : NodeKind) (state : StateStackEntry) (c c' : Context) : Type 0 where
  pub token : ℕ
  pub nodes :
      c'.nodes
      ≡ c.nodes
        ++ record {
          kind = kind;
          has_error = if position_is semi c then state.has_error else true;
          token = token;
          subtree_size = tree_size c - state.subtree_start + 1;
        }
          ∷ []
  pub stack : state ∷ c'.state_stack ≡ c.state_stack
  pub emitted : c'.emitted ≡ c.emitted ++ semi_missing state c
  pub forward : c.position ≤ c'.position
  pub at_semi :
      (token ≡ state.token)
      ⊎ ((kind_eq (get_kind c.tokens token) semi ≡ true) × (token + 1 ≡ c'.position))

-- The state on top of the stack.
module _ (kind : NodeKind) (state : StateStackEntry) (below : List StateStackEntry) (c : Context)
    (on_top : c.state_stack ≡ state ∷ below) where
  popped : pop_state c ≡ some (state, record c { state_stack = below })
  unfolding pop_state
  popped = rw (on_top, pop_state) refl

  with_semi :
      position_is semi c ≡ true
      → (c' : Context) × (handle_statement_keyword_finish kind c ≡ some c') × Ended kind state c c'
  unfolding handle_statement_keyword_finish finish_statement add_node
  with_semi h =
      let c1 = record c { state_stack = below; position = c.position + 1 } in
      (
        add_node kind c.position state.subtree_start state.has_error c1,
        rw (popped, h, handle_statement_keyword_finish) refl,
        record {
          token = c.position;
          nodes = rw h refl;
          stack = rw on_top refl;
          emitted = rw h (sym (append-nil c.emitted));
          forward = omega arith;
          at_semi = inr (h, refl);
        },
      )

  -- The context in which the missing `;` has been reported.
  abbrev reported : Context
  reported =
      emit_at c.position (expected_statement_semi (get_kind c.tokens state.token))
        (record c { state_stack = below })

  without_semi :
      IsBalanced c.tokens
      → c.position < token_count c.tokens
      → position_is semi c ≡ false
      → (c' : Context) × (handle_statement_keyword_finish kind c ≡ some c') × Ended kind state c c'
  unfolding handle_statement_keyword_finish finish_statement recover_statement add_node
  without_semi bal inside h =
      let (r, runs, s) = skip_past_likely_end-Skipped state.token reported bal inside in
      let token = token_or r.0 state.token in
      (
        add_node kind token state.subtree_start true (record reported { position = s.to }),
        rw (popped, h, runs, s.moved, handle_statement_keyword_finish) refl,
        record {
          token = token;
          nodes = rw h refl;
          stack = rw on_top refl;
          emitted = rw h refl;
          forward = s.forward;
          at_semi = elim (Option-cases r.0) [
            | inl none_found ↦ inl (ap (λ o. token_or o state.token) none_found)
            | inr (found, e) ↦
                let (next, is_semi) = s.semi_before found e in
                let t : token ≡ found = ap (λ o. token_or o state.token) e in
                inr (rw t is_semi, rw t next)
          ];
        },
      )

  -- On a balanced buffer `HandleStatementKeywordFinish` returns: it pops its state and adds one
  -- node, which is an error if the state was one or if no `;` follows; that is reported, exactly
  -- once, if none follows. The position does not move back, and the node stands at a `;` right before
  -- it, or at the token of the state.
  pub handle_statement_keyword_finish-Ended :
      IsBalanced c.tokens
      → c.position < token_count c.tokens
      → (c' : Context) × (handle_statement_keyword_finish kind c ≡ some c') × Ended kind state c c'
  handle_statement_keyword_finish-Ended bal inside = elim (Bool-cases (position_is semi c)) [
    | inl h ↦ with_semi h
    | inr h ↦ without_semi bal inside h
  ]
