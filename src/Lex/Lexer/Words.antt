-- ===== src/Lex/Lexer/Words.antt =====
-- `LexKeywordOrIdentifier` of the lexer, and what it calls.
use cocktail_lang.Prelude.{
  ℕ, ◌+◌, Bool, not, ◌&&◌, ◌||◌, Option, none, some, List, [], ◌∷◌, ◌++◌, Bytes, if◌then◌else◌,
  ◌==◌, ltb, length, get_or,
}
use cocktail_lang.Common.ApInt.{ApIntApi}
use cocktail_lang.Common.CharacterSet.{within, is_alpha}
use cocktail_lang.Common.StringRef.{StringRef, size, drop_front, starts_with}
use cocktail_lang.Lex.LexHelpers.{can_lex_integer}
use cocktail_lang.Lex.Identifier.{scan_for_identifier_prefix}
use cocktail_lang.Lex.TokenKind.{
  TokenKind, error, identifier, integer_type_literal, unsigned_integer_type_literal,
  floating_point_type_literal,
}
use cocktail_lang.Lex.TokenKind.Index.{kind_eq}
use cocktail_lang.Lex.TokenKind.Spelling.{fixed_spelling, keyword_tokens}
use cocktail_lang.Lex.Lexer.{
  Lexer, Formed, token_info, token_with, report, add_token, note_indent, add_columns,
}
use cocktail_lang.Lex.Lexer.Symbols.{first_kind, lex_error}

abbrev pub bytes_eq : Bytes → Bytes → Bool
bytes_eq a b = length a == length b && starts_with a b

-- The state behind the first of two methods that forms a token.
abbrev pub or_else {ℓ} : {A : Type ℓ} → Option A → A → A
or_else (some x) y = x
or_else none y = y

-- The kind of type literal that the first character stands for.
unfoldable pub type_literal_kind : ℕ → Option TokenKind
type_literal_kind c =
    if c == b'i'
    then some integer_type_literal
    else if c == b'u'
    then some unsigned_integer_type_literal
    else if c == b'f'
    then some floating_point_type_literal
    else none

-- The kind that a word of two characters or more has as a type literal, if its second is one of 1
-- to 9.
unfoldable pub type_literal_word : Bytes → Option TokenKind
unfolding type_literal_kind
type_literal_word word =
    if ltb (length word) 2
    then none
    else if not (within b'1' b'9' (get_or word 1 0))
    then none
    else type_literal_kind (get_or word 0 0)

-- The position of a name in the list of the names, from a first position on.
unfoldable pub index_of : Bytes → ℕ → List Bytes → Option ℕ
index_of text i [] = none
index_of text i (name ∷ names) =
    let rest = index_of text (i + 1) names in if bytes_eq text name then some i else rest

-- The keyword that a word is, or `Error`.
unfoldable pub keyword_kind : Bytes → TokenKind
unfolding first_kind
keyword_kind word = first_kind (λ k. bytes_eq (fixed_spelling k) word) keyword_tokens

module _ (api : ApIntApi) where
  -- The token of a type literal with the suffix parsed, if it was a number.
  unfoldable pub add_type_literal :
      TokenKind → ℕ → Option (api.ApInt) → Lexer (api.ApInt) → Option (Lexer (api.ApInt))
  add_type_literal kind column none x = none
  add_type_literal kind column (some value) x =
      let y = add_token (token_with kind x.current_line column (length x.literal_int_storage)) x in
      some (record y { literal_int_storage = y.literal_int_storage ++ value ∷ [] })

  -- `LexWordAsTypeLiteralToken`; `none` is the result without a token.
  unfoldable pub lex_word_as_type_literal :
      StringRef → ℕ → Lexer (api.ApInt) → Option (Lexer (api.ApInt))
  unfolding type_literal_word add_type_literal can_lex_integer
  lex_word_as_type_literal word column x = elim (type_literal_word word.bytes) [
    | none ↦ none
    | some kind ↦
        let suffix = drop_front 1 word in
        let (fits, ds) = can_lex_integer suffix in
        if not fits
        then some (report ds (add_token (token_with error x.current_line column (size word)) x))
        else add_type_literal kind column (api.get_as_integer 10 suffix.bytes) x
  ]

  -- The identifier of a text: the map of the source takes each name to its position in the list.
  unfoldable pub get_or_create_identifier : Bytes → Lexer (api.ApInt) → ℕ × Lexer (api.ApInt)
  unfolding index_of
  get_or_create_identifier text x = elim (index_of text 0 x.identifier_infos) [
    | some i ↦ (i, x)
    | none ↦
        (length x.identifier_infos, record x { identifier_infos = x.identifier_infos ++ text ∷ [] })
  ]

  -- A word that is no type literal: a keyword or an identifier.
  unfoldable pub add_word : Bytes → ℕ → Lexer (api.ApInt) → Lexer (api.ApInt)
  unfolding keyword_kind get_or_create_identifier
  add_word word column x =
      let kind = keyword_kind word in
      let (id, y) = get_or_create_identifier word x in
      if not (kind_eq kind error)
      then add_token (token_info kind x.current_line column) x
      else add_token (token_with identifier y.current_line column id) y

  -- `LexKeywordOrIdentifier`; `none` is a failed check.
  unfoldable pub lex_keyword_or_identifier : StringRef → Lexer (api.ApInt) → Formed (api.ApInt)
  unfolding lex_word_as_type_literal add_word
  lex_keyword_or_identifier source x =
      let front = get_or source.bytes 0 0 in
      let word : StringRef = record {
        begin = source.begin;
        bytes = scan_for_identifier_prefix source.bytes;
      } in
      let y = add_columns (size word) (note_indent x) in
      let column = x.current_column in
      if ltb 0x7F front
      then lex_error source x
      else if not (is_alpha front || front == b'_') || size word == 0
      then none
      else some (
        drop_front (size word) source,
        or_else (lex_word_as_type_literal word column y) (add_word word.bytes column y),
      )
