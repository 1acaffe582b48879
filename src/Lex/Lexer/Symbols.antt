-- ===== src/Lex/Lexer/Symbols.antt =====
-- `LexError`, `CloseInvalidOpenGroups` and `LexSymbolToken` of the lexer.
use cocktail_lang.Prelude.{
  ℕ, suc, ◌-◌, Bool, true, false, not, ◌&&◌, ◌||◌, none, some, List, [], ◌∷◌, Bytes, if◌then◌else◌,
  ◌==◌, length,
}
use cocktail_lang.Common.CharacterSet.{is_alnum}
use cocktail_lang.Common.StringRef.{StringRef, drop_front, starts_with}
use cocktail_lang.Lex.Diagnostic.{unmatched_closing, unrecognized_characters, emit}
use cocktail_lang.Lex.TokenKind.{TokenKind, error}
use cocktail_lang.Lex.TokenKind.Index.{kind_eq}
use cocktail_lang.Lex.TokenKind.Spelling.{fixed_spelling, symbol_tokens}
use cocktail_lang.Lex.TokenKind.Tables.{is_opening_symbol, is_closing_symbol, closing_symbol_table}
use cocktail_lang.Lex.TokenizedBuffer.{TokenInfo}
use cocktail_lang.Lex.Lexer.{
  Lexer, Formed, token_info, token_with, report, report_token, add_token, set_token, token_at, link,
  note_indent, add_columns,
}

-- `StringSwitch`: the first of the kinds that passes the test, or `Error`.
unfoldable pub first_kind : (TokenKind → Bool) → List TokenKind → TokenKind
first_kind p [] = error
first_kind p (k ∷ ks) = let rest = first_kind p ks in if p k then k else rest

-- `compute_symbol_kind`
unfoldable pub compute_symbol_kind : Bytes → TokenKind
unfolding first_kind
compute_symbol_kind text = first_kind (λ k. starts_with (fixed_spelling k) text) symbol_tokens

-- The characters that an error token takes.
unfoldable pub is_unknown : ℕ → Bool
unfolding compute_symbol_kind
is_unknown c =
    not (is_alnum c || c == b'_' || c == b'\t' || c == b'\n')
    && kind_eq (compute_symbol_kind (c ∷ [])) error

unfoldable pub unknown_prefix : Bytes → ℕ
unknown_prefix [] = 0
unknown_prefix (c ∷ cs) = let rest = unknown_prefix cs in if is_unknown c then suc rest else 0

abbrev pub at_least_one : ℕ → ℕ
at_least_one n = if n == 0 then 1 else n

module _ {A : Type 0} where
  -- `LexError`
  unfoldable pub lex_error : StringRef → Lexer A → Formed A
  unfolding unknown_prefix
  lex_error source x =
      let n = at_least_one (unknown_prefix source.bytes) in
      let y = add_token (token_with error x.current_line x.current_column n) x in
      some
        (drop_front n source, add_columns n (report (emit source.begin unrecognized_characters) y))

  -- The token that closes the group that was opened last.
  abbrev pub recovery_token : Lexer A → ℕ → TokenInfo
  recovery_token x opening =
      record (token_info (closing_symbol_table (token_at x opening).kind) x.current_line
        x.current_column) {
          has_trailing_space = (token_at x (length x.token_infos - 1)).has_trailing_space;
          is_recovery = true;
        }

  -- A round of the loop of `CloseInvalidOpenGroups`; the groups below are `groups`. Its check that
  -- there is a token holds as the opening token is one.
  unfoldable pub close_group : ℕ → List ℕ → Lexer A → Lexer A
  unfolding link
  close_group opening groups x =
      let y = report_token opening (record x { open_groups = groups }) in
      link opening (length y.token_infos) (add_token (recovery_token y opening) y)

  unfoldable pub close_groups : List ℕ → TokenKind → Lexer A → Lexer A
  unfolding close_group
  close_groups [] kind x = x
  close_groups (opening ∷ groups) kind x =
      elim (kind_eq kind (closing_symbol_table (token_at x opening).kind)) [
        | true ↦ x
        | false ↦ close_groups groups kind (close_group opening groups x)
      ]

  -- `CloseInvalidOpenGroups`
  unfoldable pub close_invalid_open_groups : TokenKind → Lexer A → Lexer A
  unfolding close_groups
  close_invalid_open_groups kind x =
      if is_closing_symbol kind || kind_eq kind error then close_groups x.open_groups kind x else x

  -- What becomes of the groups with the symbol that was added last.
  unfoldable pub group_symbol : TokenKind → ℕ → ℕ → List ℕ → Lexer A → Lexer A
  group_symbol kind location token groups x =
      if is_opening_symbol kind
      then record x { open_groups = token ∷ groups }
      else if not (is_closing_symbol kind)
      then x
      else elim groups [
        | [] ↦ report (emit location unmatched_closing) (
            set_token token
              (record (token_at x token) { kind = error; payload = length (fixed_spelling kind) })
              x)
        | opening ∷ groups' ↦ link opening token (record x { open_groups = groups' })
      ]

  -- `LexSymbolToken` behind the choice of the kind.
  unfoldable pub form_symbol : TokenKind → StringRef → Lexer A → StringRef × Lexer A
  unfolding group_symbol
  form_symbol kind source x =
      let y = close_invalid_open_groups kind (note_indent x) in
      let n = length (fixed_spelling kind) in
      let z = add_columns n (add_token (token_info kind y.current_line y.current_column) y) in
      (drop_front n source, group_symbol kind source.begin (length y.token_infos) z.open_groups z)

  -- `LexSymbolToken`, with the kind that the caller knows, or `Error`; `none` is the failed check.
  unfoldable pub lex_symbol_token : TokenKind → StringRef → Lexer A → Formed A
  unfolding compute_symbol_kind
  lex_symbol_token kind source x =
      let computed = compute_symbol_kind source.bytes in
      if kind_eq kind error
      then (if kind_eq computed error
          then lex_error source x
          else some (form_symbol computed source x))
      else if kind_eq kind computed
      then some (form_symbol kind source x)
      else none
