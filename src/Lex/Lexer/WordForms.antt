-- ===== src/Lex/Lexer/WordForms.antt =====
-- The words that the lexer forms take at least one character, and keep the tokens grouped.
use mathlib.Core.Path.{subst}
use cocktail_lang.Prelude.{
  ℕ, ◌<◌, ◌≡◌, refl, not, ◌||◌, Option, none, some, ◌==◌, if_case, if_either, arith, length,
  Option-cases, inl, inr, ltb, Bytes, get_or,
}
use cocktail_lang.Common.ApInt.{ApIntApi}
use cocktail_lang.Common.StringRef.{StringRef, size, drop_front}
use cocktail_lang.Common.CharacterSet.{is_alpha, within}
use cocktail_lang.Lex.LexHelpers.{can_lex_integer}
use cocktail_lang.Lex.Identifier.{scan_for_identifier_prefix}
use cocktail_lang.Lex.TokenKind.{TokenKind, error}
use cocktail_lang.Lex.TokenKind.Index.{kind_eq, as_int}
use cocktail_lang.Lex.TokenKind.Tables.{is_opening_symbol, is_closing_symbol}
use cocktail_lang.Lex.Lexer.{Lexer, note_indent, add_columns}
use cocktail_lang.Lex.Lexer.Words.{
  type_literal_kind, type_literal_word, add_type_literal, lex_word_as_type_literal,
  get_or_create_identifier, keyword_kind, add_word, or_else, lex_keyword_or_identifier, index_of,
}
use cocktail_lang.Lex.Lexer.Linking.{add_other-Grouped}
use cocktail_lang.Lex.Lexer.Keeps.{IsGrouped, note_indent-IsGrouped}
use cocktail_lang.Lex.Lexer.Classes.{IsOther, keyword_kind-IsOther, error-IsOther}
use cocktail_lang.Lex.Lexer.Forms.{Forms, lex_error-Forms, drop_front-shorter}

abbrev OtherOrNone : Option TokenKind → Type 0
OtherOrNone none = Unit
OtherOrNone (some k) = IsOther k

type_literal_kind-Other : (c : ℕ) → OtherOrNone (type_literal_kind c)
unfolding type_literal_kind is_opening_symbol is_closing_symbol kind_eq as_int
type_literal_kind-Other c =
    if_either OtherOrNone (c == b'i') _ _ (refl, refl, refl)
      (if_either OtherOrNone (c == b'u') _ _ (refl, refl, refl)
        (if_either OtherOrNone (c == b'f') _ _ (refl, refl, refl) tt))

type_literal_word-Other : (word : Bytes) → OtherOrNone (type_literal_word word)
unfolding type_literal_word
type_literal_word-Other word = if_either OtherOrNone (ltb (length word) 2) _ _ tt (
    if_either OtherOrNone (not (within b'1' b'9' (get_or word 1 0))) _ _ tt
      (type_literal_kind-Other (get_or word 0 0)))

-- The state is grouped, if there is one.
abbrev pub GroupedOrNone : {A : Type 0} → Option (Lexer A) → Type 0
GroupedOrNone none = Unit
GroupedOrNone (some x) = IsGrouped x

module _ (api : ApIntApi) where
  add_type_literal-Grouped :
      (kind : TokenKind) (column : ℕ) (value : Option (api.ApInt)) (x : Lexer (api.ApInt))
      → IsOther kind
      → IsGrouped x
      → GroupedOrNone (add_type_literal api kind column value x)
  unfolding add_type_literal
  add_type_literal-Grouped kind column none x o g = tt
  add_type_literal-Grouped kind column (some v) x o g =
      add_other-Grouped (x.token_infos) (x.open_groups) _ (o.0) (o.1) (o.2) g

  -- A word as a type literal of a kind, if it has one.
  type_literal-Grouped :
      (found : Option TokenKind) (word : StringRef) (column : ℕ) (x : Lexer (api.ApInt))
      → type_literal_word (word.bytes) ≡ found
      → IsGrouped x
      → GroupedOrNone (lex_word_as_type_literal api word column x)
  unfolding lex_word_as_type_literal
  type_literal-Grouped none word column x e g = rw (e, lex_word_as_type_literal) tt
  type_literal-Grouped (some kind) word column x e g =
      let o : IsOther kind = subst OtherOrNone e (type_literal_word-Other (word.bytes)) in
      let suffix = drop_front 1 word in
      rw (e, lex_word_as_type_literal)
        (if_either GroupedOrNone (not (can_lex_integer suffix).0) _ _
          (add_other-Grouped (x.token_infos) (x.open_groups) _ (error-IsOther.0) (error-IsOther.1)
            (error-IsOther.2) g)
          (add_type_literal-Grouped kind column _ x o g))

  identifier-IsGrouped :
      (text : Bytes) (x : Lexer (api.ApInt))
      → IsGrouped x
      → IsGrouped ((get_or_create_identifier api text x).1)
  unfolding get_or_create_identifier
  identifier-IsGrouped text x g = elim (Option-cases (index_of text 0 (x.identifier_infos))) [
    | inl e ↦ rw (e, get_or_create_identifier) g
    | inr (i, e) ↦ rw (e, get_or_create_identifier) g
  ]

  add_word-IsGrouped :
      (word : Bytes) (column : ℕ) (x : Lexer (api.ApInt))
      → IsGrouped x
      → IsGrouped (add_word api word column x)
  unfolding add_word is_opening_symbol is_closing_symbol kind_eq as_int
  add_word-IsGrouped word column x g =
      let o = keyword_kind-IsOther word in
      if_either IsGrouped (not (kind_eq (keyword_kind word) error)) _ _
        (add_other-Grouped (x.token_infos) (x.open_groups) _ (o.0) (o.1) (o.2) g)
        (add_other-Grouped _ _ _ refl refl refl (identifier-IsGrouped word x g))

  or_else-IsGrouped :
      (o : Option (Lexer (api.ApInt))) (x : Lexer (api.ApInt))
      → GroupedOrNone o
      → IsGrouped x
      → IsGrouped (or_else o x)
  or_else-IsGrouped none x g h = h
  or_else-IsGrouped (some y) x g h = g

  pub lex_keyword_or_identifier-Forms :
      (source : StringRef) (x : Lexer (api.ApInt))
      → 0 < size source
      → IsGrouped x
      → Forms source (lex_keyword_or_identifier api source x)
  unfolding lex_keyword_or_identifier
  lex_keyword_or_identifier-Forms source x h g =
      let front = get_or (source.bytes) 0 0 in
      let word : StringRef = record {
        begin = source.begin;
        bytes = scan_for_identifier_prefix (source.bytes);
      } in
      let y = add_columns (size word) (note_indent x) in
      let column = x.current_column in
      let indented = note_indent-IsGrouped x g in
      if_case (Forms source) (ltb 0x7F front) _ _ (λ _. lex_error-Forms source x h g)
        (λ _.
          if_case (Forms source) (not (is_alpha front || front == b'_') || size word == 0) _ _
            (λ _. tt)
            (λ e. (
              drop_front-shorter (size word) source (ground arith) h,
              or_else-IsGrouped _ _
                  (type_literal-Grouped (type_literal_word (word.bytes)) word column y refl
                    indented)
                  (add_word-IsGrouped (word.bytes) column y indented),
            )))
