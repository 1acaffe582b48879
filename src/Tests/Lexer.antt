-- ===== src/Tests/Lexer.antt =====
-- The lexer on concrete texts.
use cocktail_lang.Prelude.{◌≡◌, ◌≢◌, refl, List, [], ◌∷◌, Bytes, map}
use cocktail_lang.Common.CharacterSet.{
  is_alpha, is_decimal_digit, is_alnum, is_space, is_horizontal_whitespace, is_vertical_whitespace,
}
use cocktail_lang.Lex.TokenKind.{TokenKind, open_paren, close_paren, error, identifier, end_of_file}
use cocktail_lang.Lex.TokenKind.Index.{as_int, kind_eq}
use cocktail_lang.Lex.TokenKind.Spelling.{fixed_spelling, expected_parse_tree_size}
use cocktail_lang.Lex.TokenKind.Tables.{
  is_opening_symbol, is_closing_symbol, closing_symbol_table, is_one_char_symbol,
}
use cocktail_lang.Lex.Identifier.{scan_for_identifier_prefix, vector_scan, scalar_scan, is_id_byte}
use cocktail_lang.Lex.Lexer.{Lexer, new_lexer, handle_newline, link}
use cocktail_lang.Lex.Lexer.Whitespace.{
  rest_of_line, comment_diagnostics, skip_comment, skip_char, skip_round, whitespace_loop,
  skip_whitespace,
}
use cocktail_lang.Lex.Lexer.Symbols.{
  first_kind, compute_symbol_kind, close_group, close_groups, close_invalid_open_groups,
  group_symbol, form_symbol, lex_symbol_token,
}
use cocktail_lang.Lex.Lexer.Words.{
  type_literal_kind, type_literal_word, index_of, keyword_kind, lex_word_as_type_literal,
  get_or_create_identifier, add_word, lex_keyword_or_identifier,
}
use cocktail_lang.Lex.Lexer.Run.{
  LexOutcome, lexed, check_failed, no_fuel, one_char_symbol, starts_symbol, dispatch_table,
  dispatch, lex_token, lex_loop, finish_lex, lex, buffer_of,
}
use cocktail_lang.Lex.Lexer.Balanced.{IsLexedBuffer, lex_ends, lex-IsLexedBuffer}
use cocktail_lang.Parse.Context.Search.{IsBalanced}
use cocktail_lang.Parse.Context.Lexed.{lex-IsBalanced}
use cocktail_lang.Tests.Numeric.{Bits, bits_api}
use cocktail_lang.Tests.Strings.{bytes_api}

-- `(a]`, where the parenthesis is closed for the bracket, which is an error.
abbrev pub mismatched : Bytes
mismatched = b'(' ∷ b'a' ∷ b']' ∷ []

abbrev pub state_of : LexOutcome Bits → Lexer Bits
state_of (lexed x) = x
state_of check_failed = new_lexer []
state_of no_fuel = new_lexer []

abbrev pub kinds : Lexer Bits → List TokenKind
kinds x = map (λ t. t.kind) x.token_infos

pub lex-mismatched :
    (lex bits_api bytes_api mismatched ≡ lexed (state_of (lex bits_api bytes_api mismatched)))
    × (kinds (state_of (lex bits_api bytes_api mismatched))
        ≡ open_paren ∷ identifier ∷ close_paren ∷ error ∷ end_of_file ∷ [])
unfolding lex lex_loop finish_lex skip_whitespace whitespace_loop skip_round skip_comment skip_char
    handle_newline link is_space is_horizontal_whitespace is_vertical_whitespace rest_of_line
    comment_diagnostics lex_token dispatch dispatch_table one_char_symbol starts_symbol first_kind
    fixed_spelling is_one_char_symbol is_alpha is_decimal_digit is_alnum as_int kind_eq
    lex_symbol_token compute_symbol_kind form_symbol close_invalid_open_groups close_groups
    close_group group_symbol is_opening_symbol is_closing_symbol closing_symbol_table
    expected_parse_tree_size lex_keyword_or_identifier scan_for_identifier_prefix vector_scan
    scalar_scan is_id_byte lex_word_as_type_literal type_literal_word type_literal_kind add_word
    keyword_kind get_or_create_identifier index_of
lex-mismatched = (refl, refl)

lex-IsLexedBuffer_example :
    IsLexedBuffer ((state_of (lex bits_api bytes_api mismatched)).token_infos)
lex-IsLexedBuffer_example = lex-IsLexedBuffer bits_api bytes_api mismatched lex-mismatched.0

lex-IsBalanced_example : IsBalanced (buffer_of (state_of (lex bits_api bytes_api mismatched)))
lex-IsBalanced_example = lex-IsBalanced bits_api bytes_api mismatched lex-mismatched.0

lex_ends_example : lex bits_api bytes_api mismatched ≢ no_fuel
lex_ends_example = lex_ends bits_api bytes_api mismatched
