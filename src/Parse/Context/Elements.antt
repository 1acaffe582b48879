-- ===== src/Parse/Context/Elements.antt =====
-- Lists of elements: where `ConsumeListToken` leaves the parser.
use mathlib.Core.Option.{some-injective}
use cocktail_lang.Prelude.{
  ℕ, suc, ◌+◌, ◌-◌, ◌≤◌, ◌<◌, ◌≡◌, ◌∙◌, sym, refl, true, false, not, ◌&&◌, some, List, [], ◌∷◌,
  if◌then◌else◌, Bool, arith, Bool-cases, inl, inr, length, length-append,
}
use cocktail_lang.Lex.TokenKind.{TokenKind, comma}
use cocktail_lang.Lex.TokenKind.Index.{kind_eq}
use cocktail_lang.Lex.TokenizedBuffer.{get_kind, token_count}
use cocktail_lang.Parse.NodeKind.{NodeKind}
use cocktail_lang.Parse.Context.{
  Context, StateStackEntry, end_position, position_is, position_kind, add_leaf_node, emit_at,
  unexpected_token_after_list_element, return_error_on_state, tree_size,
}
use cocktail_lang.Parse.Context.Skip.{is_one_of, find_from, find_next_of}
use cocktail_lang.Parse.Context.Lists.{
  ListTokenKind, list_comma, list_close, list_comma_close, report_list_element,
  recover_list_element, finish_list_token, consume_list_token,
}
use cocktail_lang.Parse.Context.Search.{IsBalanced, find_next_of-Found}
use cocktail_lang.Parse.Context.Progress.{skip_to_moves}

-- The outcome for a list token at `at`: a closing symbol is left there and adds no node; a comma is
-- passed and adds one node, and the kind says whether the closing symbol follows.
pub record ListStep (c : Context) (close_kind : TokenKind) (at : ℕ) (r : ListTokenKind × Context)
    : Type 0 where
  pub tokens : r.1.tokens ≡ c.tokens
  pub kind : r.0 ≡ (
      if kind_eq (get_kind c.tokens at) close_kind
      then list_close
      else if kind_eq (get_kind c.tokens (at + 1)) close_kind
      then list_comma_close
      else list_comma)
  pub position : r.1.position ≡ (if kind_eq (get_kind c.tokens at) close_kind then at else at + 1)
  pub nodes :
      tree_size r.1 ≡ tree_size c + (if kind_eq (get_kind c.tokens at) close_kind then 0 else 1)

finish_list_token-ListStep :
    (comma_kind : NodeKind) (close_kind : TokenKind) (c : Context)
    → ListStep c close_kind c.position (finish_list_token comma_kind close_kind c)
unfolding finish_list_token add_leaf_node
finish_list_token-ListStep comma_kind close_kind c = elim (Bool-cases (position_is close_kind c)) [
  | inl close ↦ rw close (record {
    tokens = refl;
    kind = rw close refl;
    position = rw close refl;
    nodes = rw close (omega arith);
  })
  | inr other ↦ rw other (record {
    tokens = refl;
    kind = rw other refl;
    position = rw other refl;
    nodes = rw other (length-append {0} c.nodes _);
  })
]

-- The diagnostic leaves the tokens, the position and the nodes.
report_list_element_keeps :
    (close_kind : TokenKind) (already_has_error : Bool) (c : Context) (s : List StateStackEntry)
    → c.state_stack ≡ s
    → 0 < length s
    → (c' : Context) × (report_list_element close_kind already_has_error c ≡ some c')
      × (c'.tokens ≡ c.tokens)
      × (c'.position ≡ c.position)
      × (c'.nodes ≡ c.nodes)
unfolding report_list_element return_error_on_state
report_list_element_keeps k true c s e h = (c, refl, refl, refl, refl)
report_list_element_keeps k false c [] e h = absurd (omega arith)
report_list_element_keeps k false c (x ∷ xs) e h = (
  record (emit_at c.position (unexpected_token_after_list_element k) c) {
    state_stack = record x { has_error = true } ∷ xs;
  },
  rw e refl,
  refl,
  refl,
  refl,
)

find_next_of_hit :
    (kinds : List TokenKind) (c : Context)
    → 0 < token_count c.tokens
    → is_one_of (position_kind c) kinds ≡ true
    → find_next_of kinds c ≡ some (some c.position)
unfolding find_next_of find_from
find_next_of_hit kinds c h hit =
    let e : token_count c.tokens ≡ suc (token_count c.tokens - 1) = omega arith in
    rw e (rw (hit, find_from) refl)

find_next_of-le :
    (kinds : List TokenKind) (c : Context) (at : ℕ)
    → IsBalanced c.tokens
    → c.position < token_count c.tokens
    → find_next_of kinds c ≡ some (some at)
    → c.position ≤ at
find_next_of-le kinds c at bal h found =
    let (r, runs, f) = find_next_of-Found kinds c bal h in
    let e : r ≡ some at = some-injective _ _ (sym runs ∙ found) in
    elim f.answer [
      | inl (hit, _) ↦
          let same : f.at ≡ at = some-injective _ _ (sym hit ∙ e) in omega (arith, f.at_least)
      | inr (none_found, _, _) ↦ absurd (cc (none_found, e))
    ]

find_next_of_same :
    (kinds : List TokenKind) (c c' : Context)
    → c'.tokens ≡ c.tokens
    → c'.position ≡ c.position
    → find_next_of kinds c' ≡ find_next_of kinds c
unfolding find_next_of
find_next_of_same kinds c c' tokens position = rw (tokens, position) refl

-- A step from a context with the same tokens and nodes.
ListStep-same :
    (c c' : Context) (close_kind : TokenKind) (at : ℕ) (r : ListTokenKind × Context)
    → c'.tokens ≡ c.tokens
    → c'.position ≡ at
    → c'.nodes ≡ c.nodes
    → ListStep c' close_kind c'.position r
    → ListStep c close_kind at r
ListStep-same c c' k at r tokens position nodes s = record {
  tokens = s.tokens ∙ tokens;
  kind = rw (tokens, position) at s.kind;
  position = rw (tokens, position) at s.position;
  nodes = rw (tokens, position, nodes) at s.nodes;
}

one_of_two :
    (close_kind : TokenKind) (c : Context)
    → (not (position_is comma c) && not (position_is close_kind c)) ≡ false
    → is_one_of (position_kind c) (comma ∷ close_kind ∷ []) ≡ true
unfolding is_one_of
one_of_two k c here = ground (arith, here)

recover_list_element_moves :
    (close_kind : TokenKind) (already_has_error : Bool) (c : Context) (at : ℕ)
    → 0 < length c.state_stack
    → find_next_of (comma ∷ close_kind ∷ []) c ≡ some (some at)
    → c.position ≤ at
    → at < end_position c
    → (c' : Context) × (recover_list_element close_kind already_has_error c ≡ some c')
      × (c'.tokens ≡ c.tokens)
      × (c'.position ≡ at)
      × (c'.nodes ≡ c.nodes)
unfolding recover_list_element
recover_list_element_moves k already c at stack found h inside =
    let (c1, reports, tokens, position, nodes) =
      report_list_element_keeps k already c c.state_stack refl stack in
    let found1 : find_next_of (comma ∷ k ∷ []) c1 ≡ some (some at) =
      find_next_of_same (comma ∷ k ∷ []) c c1 tokens position ∙ found in
    let skips = skip_to_moves at c1 (rw position h) (rw tokens inside) in
    (
      record c1 { position = at },
      rw (reports, found1, recover_list_element) skips,
      tokens,
      refl,
      nodes,
    )

-- On a balanced buffer with a list token ahead at the level, and an entry on the stack of states,
-- `ConsumeListToken` returns with no check failed, and does with the next list token as `ListStep`
-- says: a closing symbol is left in place and adds no node; a comma is passed and adds one node,
-- and the kind returned says whether the closing symbol follows it.
pub consume_list_token-ListStep :
    (comma_kind : NodeKind) (close_kind : TokenKind) (already_has_error : Bool) (c : Context)
    (at : ℕ)
    → IsBalanced c.tokens
    → c.position < token_count c.tokens
    → 0 < length c.state_stack
    → find_next_of (comma ∷ close_kind ∷ []) c ≡ some (some at)
    → at < end_position c
    → (r : ListTokenKind × Context) × (consume_list_token comma_kind close_kind already_has_error c
        ≡ some r)
      × ListStep c close_kind at r
unfolding consume_list_token
consume_list_token-ListStep comma_kind k already c at bal h stack found inside =
    elim (Bool-cases (not (position_is comma c) && not (position_is k c))) [
      | inl astray ↦
          let (c1, runs, tokens, position, nodes) =
            recover_list_element_moves k already c at stack found
              (find_next_of-le (comma ∷ k ∷ []) c at bal h found) inside in
          (
            finish_list_token comma_kind k c1,
            rw (astray, runs, consume_list_token) refl,
            ListStep-same c c1 k at _ tokens position nodes
                (finish_list_token-ListStep comma_kind k c1),
          )
      | inr here ↦
          let hit : is_one_of (position_kind c) (comma ∷ k ∷ []) ≡ true = one_of_two k c here in
          let e : some (some c.position) ≡ some (some at) =
            sym (find_next_of_hit (comma ∷ k ∷ []) c (omega arith) hit) ∙ found in
          let same : c.position ≡ at = some-injective _ _ (some-injective _ _ e) in
          (
            finish_list_token comma_kind k c,
            rw (here, consume_list_token) refl,
            ListStep-same c c k at _ refl same refl (finish_list_token-ListStep comma_kind k c),
          )
    ]
