-- ===== src/Tests/Parser.antt =====
-- The context of the parser on a small buffer of tokens.
use cocktail_lang.Prelude.{
  ℕ, ◌+◌, ◌<◌, ◌≡◌, not, ◌&&◌, ◌||◌, ltb, all_below, all_below_sound, refl, Bool, true, false,
  Option, some, [], ◌∷◌, arith,
}
use cocktail_lang.Lex.TokenKind.{
  TokenKind, start_of_file, identifier, open_paren, comma, close_paren, semi, plus, end_of_file,
}
use cocktail_lang.Lex.TokenKind.Index.{kind_eq, as_int}
use cocktail_lang.Lex.TokenKind.Tables.{is_opening_symbol, is_closing_symbol}
use cocktail_lang.Lex.TokenizedBuffer.{
  TokenInfo, TokenizedBuffer, get_kind, get_token_info, token_count,
}
use cocktail_lang.Parse.Context.{Context, add_node}
use cocktail_lang.Parse.Context.Skip.{
  find_from, is_one_of, next_at_level, find_next_of, skip_past_likely_end,
}
use cocktail_lang.Parse.Context.Fixity.{infix_operator, diagnose_operator_fixity}
use cocktail_lang.Parse.Context.Search.{IsBalanced, Found, find_next_of-Found}
use cocktail_lang.Parse.Context.Progress.{Skipped, skip_past_likely_end-Skipped}
use cocktail_lang.Parse.Context.Operators.{Judged, diagnose_operator_fixity-Judged}
use cocktail_lang.Parse.NodeKind.{name_node, name_expression}
use cocktail_lang.Parse.State.{expression}
use cocktail_lang.Parse.Precedence.Level.{conditional}
use cocktail_lang.Parse.Precedence.Operators.{group}
use cocktail_lang.Parse.Context.Lists.{ListTokenKind, consume_list_token}
use cocktail_lang.Parse.Context.Elements.{ListStep, consume_list_token-ListStep}
use cocktail_lang.Parse.Context.Nodes.{IsForest, no_tree, tree, add_node-IsForest}

abbrev pub token_of : TokenKind → Bool → ℕ → TokenInfo
token_of kind space payload = record {
  kind = kind;
  has_trailing_space = space;
  is_recovery = false;
  token_line = 0;
  column = 0;
  payload = payload;
}

-- `(a, b) + c;` on one line
abbrev pub small_buffer : TokenizedBuffer
small_buffer = record {
  token_infos =
      token_of start_of_file true 0
      ∷ token_of open_paren false 5
      ∷ token_of identifier false 0
      ∷ token_of comma true 0
      ∷ token_of identifier false 1
      ∷ token_of close_paren true 1
      ∷ token_of plus true 0
      ∷ token_of identifier false 2
      ∷ token_of semi true 0
      ∷ token_of end_of_file false 0
      ∷ [];
  line_infos = record { start = 0; length = 12; indent = 0 } ∷ [];
}

abbrev matched_at : ℕ → Bool
matched_at i =
    let partner = (get_token_info small_buffer i).payload in
    not (is_opening_symbol (get_kind small_buffer i)) || (ltb i partner && ltb (partner + 1) 10)

all_matched : all_below 10 matched_at ≡ true
unfolding all_below is_opening_symbol
all_matched = refl

small_matched :
    (i : ℕ)
    → i < token_count small_buffer
    → is_opening_symbol (get_kind small_buffer i) ≡ true
    → (i < (get_token_info small_buffer i).payload)
      × ((get_token_info small_buffer i).payload + 1 < token_count small_buffer)
small_matched i h opening =
    let at : matched_at i ≡ true = all_below_sound 10 matched_at i all_matched h in
    (ground (arith, at, opening), ground (arith, at, opening))

pub small_buffer-IsBalanced : IsBalanced small_buffer
unfolding kind_eq as_int
small_buffer-IsBalanced = record { nonempty = omega arith; last = refl; matched = small_matched }

abbrev pub at_token : ℕ → Context
at_token i = record {
  tokens = small_buffer;
  position = i;
  nodes = [];
  has_errors = false;
  state_stack = [];
  emitted = [];
}

find_next_of-Found_example :
    (r : Option ℕ) × (find_next_of (comma ∷ semi ∷ []) (at_token 1) ≡ some r)
    × Found small_buffer (comma ∷ semi ∷ []) 1 r
find_next_of-Found_example =
    find_next_of-Found (comma ∷ semi ∷ []) (at_token 1) small_buffer-IsBalanced (omega arith)

skip_past_likely_end-Skipped_example :
    (r : Option ℕ × Context) × (skip_past_likely_end 1 (at_token 1) ≡ some r)
    × Skipped (at_token 1) r
skip_past_likely_end-Skipped_example =
    skip_past_likely_end-Skipped 1 (at_token 1) small_buffer-IsBalanced (omega arith)

diagnose_operator_fixity-Judged_example :
    (c' : Context) × (diagnose_operator_fixity infix_operator (at_token 6) ≡ some c')
    × Judged infix_operator (at_token 6) c'
diagnose_operator_fixity-Judged_example =
    diagnose_operator_fixity-Judged infix_operator (at_token 6) refl

-- The closing parenthesis of `(a, b)` is the next list token behind `b`.
abbrev pub in_list : Context
in_list = record (at_token 4) {
  state_stack =
      record {
        state = expression;
        has_error = false;
        ambient_precedence = group conditional;
        lhs_precedence = group conditional;
        token = 1;
        subtree_start = 0;
      }
      ∷ [];
}

close_ahead : find_next_of (comma ∷ close_paren ∷ []) in_list ≡ some (some 5)
unfolding find_next_of find_from is_one_of next_at_level kind_eq as_int is_opening_symbol
    is_closing_symbol
close_ahead = refl

consume_list_token-ListStep_example :
    (r : ListTokenKind × Context) × (consume_list_token name_node close_paren false in_list
      ≡ some r)
    × ListStep in_list close_paren 5 r
consume_list_token-ListStep_example =
    consume_list_token-ListStep name_node close_paren false in_list 5 small_buffer-IsBalanced
      (omega arith) (omega arith) close_ahead (omega arith)

abbrev with_leaf : Context
with_leaf = record (at_token 3) {
  nodes = record { kind = name_node; has_error = false; token = 2; subtree_size = 1 } ∷ [];
}

with_leaf-IsForest : IsForest with_leaf.nodes
with_leaf-IsForest = tree [] [] _ no_tree no_tree refl

add_node-IsForest_example : IsForest (add_node name_expression 5 0 false with_leaf).nodes
add_node-IsForest_example =
    add_node-IsForest name_expression 5 0 false with_leaf (omega arith) no_tree with_leaf-IsForest
