-- ===== src/Lex/TokenizedBuffer.antt =====
-- The tokens and lines of lib/Lex/TokenizedBuffer.cc and include/Cocktail/Lex/TokenizedBuffer.h, and
-- the getters that the parser calls. A token is its index. Out of range the source is undefined;
-- a token of the kind `error` stands there, which no search takes for an end.
use cocktail_lang.Prelude.{
  ℕ, ◌+◌, ◌-◌, Bool, false, ◌||◌, Option, none, some, List, ◌==◌, if◌then◌else◌, length, get_or,
}
use cocktail_lang.Lex.TokenKind.{TokenKind, error}
use cocktail_lang.Lex.TokenKind.Tables.{is_opening_symbol}

-- `payload` is the union: an index of an identifier or a literal, the matched token, or the length
-- of an error.
pub record TokenInfo : Type 0 where
  pub kind : TokenKind
  pub has_trailing_space : Bool
  pub is_recovery : Bool
  pub token_line : ℕ
  pub column : ℕ
  pub payload : ℕ

pub record LineInfo : Type 0 where
  pub start : ℕ
  pub length : ℕ
  pub indent : ℕ

pub record TokenizedBuffer : Type 0 where
  pub token_infos : List TokenInfo
  pub line_infos : List LineInfo

abbrev pub no_token : TokenInfo
no_token = record {
  kind = error;
  has_trailing_space = false;
  is_recovery = false;
  token_line = 0;
  column = 0;
  payload = 0;
}

abbrev pub get_token_info : TokenizedBuffer → ℕ → TokenInfo
get_token_info b token = get_or b.token_infos token no_token

abbrev pub get_kind : TokenizedBuffer → ℕ → TokenKind
get_kind b token = (get_token_info b token).kind

abbrev pub get_line : TokenizedBuffer → ℕ → ℕ
get_line b token = (get_token_info b token).token_line

abbrev pub get_indent_column_number : TokenizedBuffer → ℕ → ℕ
get_indent_column_number b line =
    (get_or b.line_infos line (record { start = 0; length = 0; indent = 0 })).indent + 1

-- `none` is the failed check.
unfoldable pub get_matched_closing_token : TokenizedBuffer → ℕ → Option ℕ
get_matched_closing_token b token =
    if is_opening_symbol (get_kind b token) then some (get_token_info b token).payload else none

abbrev pub has_leading_whitespace : TokenizedBuffer → ℕ → Bool
has_leading_whitespace b token = token == 0 || (get_token_info b (token - 1)).has_trailing_space

abbrev pub has_trailing_whitespace : TokenizedBuffer → ℕ → Bool
has_trailing_whitespace b token = (get_token_info b token).has_trailing_space

abbrev pub token_count : TokenizedBuffer → ℕ
token_count b = length b.token_infos
