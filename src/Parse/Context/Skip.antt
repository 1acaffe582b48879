-- ===== src/Parse/Context/Skip.antt =====
-- `FindNextOf`, `SkipMatchingGroup`, `SkipPastLikelyEnd` and `SkipTo` of lib/Parse/Context.cc, and the
-- operations that skip by them.
use cocktail_lang.Prelude.{
  ℕ, zero, suc, ◌+◌, Bool, true, false, not, ◌&&◌, ◌||◌, Option, none, some, List, [], ◌∷◌,
  if◌then◌else◌, ◌==◌, leb, ltb,
}
use cocktail_lang.Lex.TokenKind.{TokenKind, end_of_file, close_curly_brace, semi}
use cocktail_lang.Lex.TokenKind.Index.{kind_eq}
use cocktail_lang.Lex.TokenKind.Tables.{is_opening_symbol, is_closing_symbol, closing_symbol_table}
use cocktail_lang.Lex.TokenizedBuffer.{
  TokenizedBuffer, get_kind, get_line, get_indent_column_number, get_matched_closing_token,
  token_count,
}
use cocktail_lang.Parse.NodeKind.{NodeKind}
use cocktail_lang.Parse.Context.{
  Context, StateStackEntry, end_position, position_kind, position_is, consume_if, add_node, emit_at,
  expected_close_symbol,
}

-- `TokenKind::IsOneOf`
unfoldable pub is_one_of : TokenKind → List TokenKind → Bool
is_one_of kind [] = false
is_one_of kind (k ∷ ks) = kind_eq kind k || is_one_of kind ks

-- The next token at the level of brackets; `none` is a failed check.
unfoldable pub next_at_level : TokenizedBuffer → ℕ → Option ℕ
next_at_level b i =
    if is_opening_symbol (get_kind b i)
    then elim (get_matched_closing_token b i) [ none ↦ none | some j ↦ some (j + 1) ]
    else some (i + 1)

abbrev pub ends_level : TokenKind → Bool
ends_level kind = is_closing_symbol kind || kind_eq kind end_of_file

-- The loop of `FindNextOf`: the outer `none` is a failed check or the end of the fuel.
unfoldable pub find_from : ℕ → TokenizedBuffer → List TokenKind → ℕ → Option (Option ℕ)
find_from zero b desired_kinds i = none
find_from (suc fuel) b desired_kinds i = elim (is_one_of (get_kind b i) desired_kinds) [
  | true ↦ some (some i)
  | false ↦ elim (ends_level (get_kind b i)) [
    | true ↦ some none
    | false ↦ elim (next_at_level b i) [ none ↦ none | some j ↦ find_from fuel b desired_kinds j ]
  ]
]

-- `FindNextOf`. Each round goes on in the buffer, so its size is fuel enough.
unfoldable pub find_next_of : List TokenKind → Context → Option (Option ℕ)
find_next_of desired_kinds c = find_from (token_count c.tokens) c.tokens desired_kinds c.position

-- `SkipTo`, with its two checks.
unfoldable pub skip_to : ℕ → Context → Option Context
skip_to token c =
    if leb c.position token && not (token == end_position c)
    then some (record c { position = token })
    else none

unfoldable pub skip_matching_group : Context → Option (Bool × Context)
unfolding skip_to
skip_matching_group c =
    if not (is_opening_symbol (position_kind c))
    then some (false, c)
    else elim (get_matched_closing_token c.tokens c.position) [
      | none ↦ none
      | some token ↦ elim (skip_to token c) [
        | none ↦ none
        | some c' ↦ some (true, record c' { position = c'.position + 1 })
      ]
    ]

-- The test of the loop below: a token on the line of the root, or on one with more indentation.
abbrev pub on_line_or_indented : TokenizedBuffer → ℕ → ℕ → Bool
on_line_or_indented b root_line token =
    get_line b token == root_line
    || ltb (get_indent_column_number b root_line) (get_indent_column_number b (get_line b token))

-- What the body of the loop does with a token that ends no construct: a group is skipped whole.
unfoldable pub skip_one : Context → Option Context
unfolding skip_matching_group
skip_one c = elim (skip_matching_group c) [
  | none ↦ none
  | some (true, c') ↦ some c'
  | some (false, c') ↦ some (record c' { position = c'.position + 1 })
]

-- The loop of `SkipPastLikelyEnd`; the outer `none` is a failed check or the end of the fuel.
unfoldable pub skip_loop : ℕ → ℕ → Context → Option (Option ℕ × Context)
skip_loop zero root_line c = none
skip_loop (suc fuel) root_line c = elim (position_is close_curly_brace c) [
  | true ↦ some (none, c)
  | false ↦ elim (position_is semi c) [
    | true ↦ some (some c.position, record c { position = c.position + 1 })
    | false ↦ elim (skip_one c) [
      | none ↦ none
      | some c' ↦
          elim (not (c'.position == end_position c')
            && on_line_or_indented c'.tokens root_line c'.position) [
              | true ↦ skip_loop fuel root_line c'
              | false ↦ some (none, c')
            ]
    ]
  ]
]

-- `SkipPastLikelyEnd`
unfoldable pub skip_past_likely_end : ℕ → Context → Option (Option ℕ × Context)
skip_past_likely_end skip_root c =
    if c.position == end_position c
    then some (none, c)
    else skip_loop (token_count c.tokens) (get_line c.tokens skip_root) c

-- `RecoverFromDeclarationError`
unfoldable pub recover_from_declaration_error :
    StateStackEntry → NodeKind → Bool → Context → Option Context
unfolding add_node
recover_from_declaration_error state kind false c =
    some (add_node kind state.token state.subtree_start true c)
recover_from_declaration_error state kind true c = elim (skip_past_likely_end state.token c) [
  | none ↦ none
  | some (none, c') ↦ some (add_node kind state.token state.subtree_start true c')
  | some (some token, c') ↦ some (add_node kind token state.subtree_start true c')
]

-- The recovery of `ConsumeAndAddCloseSymbol`, where the closing symbol does not follow.
unfoldable pub skip_to_close_symbol : ℕ → StateStackEntry → NodeKind → Context → Option Context
unfolding add_node skip_to
skip_to_close_symbol expected_open state close_kind c =
    elim (get_matched_closing_token c.tokens expected_open) [
      | none ↦ none
      | some token ↦ elim (skip_to token c) [
        | none ↦ none
        | some c' ↦ some (
            add_node close_kind c'.position state.subtree_start true
              (record c' { position = c'.position + 1 }))
      ]
    ]

unfoldable pub consume_and_add_close_symbol :
    ℕ → StateStackEntry → NodeKind → Context → Option Context
unfolding add_node skip_to_close_symbol
consume_and_add_close_symbol expected_open state close_kind c =
    let kind = get_kind c.tokens expected_open in
    if not (is_opening_symbol kind)
    then some (add_node close_kind state.token state.subtree_start true c)
    else let (found, c') = consume_if (closing_symbol_table kind) c in
      elim found [
        | some token ↦ some (add_node close_kind token state.subtree_start state.has_error c')
        | none ↦
            skip_to_close_symbol expected_open state close_kind
              (emit_at c'.position (expected_close_symbol (closing_symbol_table kind)) c')
      ]
