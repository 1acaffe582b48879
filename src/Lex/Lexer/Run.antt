-- ===== src/Lex/Lexer/Run.antt =====
-- The dispatch on the first character of a token, and `TokenizedBuffer::Lex`.
use cocktail_lang.Prelude.{
  ℕ, zero, suc, ◌+◌, Bool, true, false, ◌||◌, ◌&&◌, none, some, Bytes, if◌then◌else◌, ◌==◌, leb,
  length, get_or,
}
use cocktail_lang.Common.ApInt.{ApIntApi}
use cocktail_lang.Common.Unicode.{UnicodeApi}
use cocktail_lang.Common.CharacterSet.{is_alpha, is_decimal_digit}
use cocktail_lang.Common.StringRef.{StringRef}
use cocktail_lang.Lex.TokenKind.{TokenKind, error, end_of_file}
use cocktail_lang.Lex.TokenKind.Index.{kind_eq}
use cocktail_lang.Lex.TokenKind.Spelling.{fixed_spelling, symbol_tokens}
use cocktail_lang.Lex.TokenKind.Tables.{is_one_char_symbol}
use cocktail_lang.Lex.TokenizedBuffer.{TokenizedBuffer}
use cocktail_lang.Lex.Lexer.{Lexer, Formed, new_lexer, token_info, add_token, note_whitespace}
use cocktail_lang.Lex.Lexer.Whitespace.{Skip, stopped, failed, skip_whitespace}
use cocktail_lang.Lex.Lexer.Symbols.{
  first_kind, lex_error, close_invalid_open_groups, lex_symbol_token,
}
use cocktail_lang.Lex.Lexer.Words.{lex_keyword_or_identifier}
use cocktail_lang.Lex.Lexer.Literals.{lex_numeric_literal, lex_string_literal}

-- An entry of the dispatch table.
pub data Dispatch : Type 0 where
  to_error to_word to_numeric to_string : Dispatch
  to_symbol : TokenKind → Dispatch

-- The symbol of one character that is spelled so, or `Error`.
unfoldable pub one_char_symbol : ℕ → TokenKind
unfolding first_kind
one_char_symbol c =
    first_kind (λ k. is_one_char_symbol k && get_or (fixed_spelling k) 0 0 == c) symbol_tokens

unfoldable pub starts_symbol : ℕ → Bool
unfolding first_kind
starts_symbol c =
    let found = first_kind (λ k. get_or (fixed_spelling k) 0 0 == c) symbol_tokens in
    if kind_eq found error then false else true

-- `MakeDispatchTable`; a later entry of the source replaces an earlier one.
unfoldable pub dispatch_table : ℕ → Dispatch
unfolding one_char_symbol starts_symbol
dispatch_table c =
    if c == b'\'' || c == b'"' || c == b'#'
    then to_string
    else if is_decimal_digit c
    then to_numeric
    else if leb 0x80 c || is_alpha c || c == b'_'
    then to_word
    else if starts_symbol c
    then to_symbol (one_char_symbol c)
    else to_error

-- How the loop of `Lex` ends.
pub data LexOutcome (A : Type 0) : Type 0 where
  lexed : Lexer A → LexOutcome A
  check_failed : LexOutcome A
  no_fuel : LexOutcome A

module _ (api : ApIntApi) (unicode : UnicodeApi) where
  unfoldable pub dispatch : Dispatch → StringRef → Lexer (api.ApInt) → Formed (api.ApInt)
  dispatch to_error = lex_error
  dispatch to_word = lex_keyword_or_identifier api
  dispatch to_numeric = lex_numeric_literal api
  dispatch to_string = lex_string_literal unicode
  dispatch (to_symbol kind) = lex_symbol_token kind

  unfoldable pub lex_token : StringRef → Lexer (api.ApInt) → Formed (api.ApInt)
  unfolding dispatch
  lex_token source x = dispatch (dispatch_table (get_or source.bytes 0 0)) source x

  -- The loop goes on behind a token with `go`.
  abbrev pub after_token :
      (StringRef → Lexer (api.ApInt) → LexOutcome (api.ApInt))
      → Formed (api.ApInt)
      → LexOutcome (api.ApInt)
  after_token go (some (rest, y)) = go rest y
  after_token go none = check_failed

  -- A round of the loop, behind the whitespace.
  abbrev pub after_skip :
      (StringRef → Lexer (api.ApInt) → LexOutcome (api.ApInt))
      → Skip (api.ApInt)
      → LexOutcome (api.ApInt)
  after_skip go (stopped true rest y) = after_token go (lex_token rest y)
  after_skip go (stopped false rest y) = lexed y
  after_skip go failed = check_failed
  after_skip go _ = no_fuel

  -- The loop, with fuel; each round forms a token.
  unfoldable pub lex_loop : ℕ → StringRef → Lexer (api.ApInt) → LexOutcome (api.ApInt)
  lex_loop zero source x = no_fuel
  lex_loop (suc fuel) source x = after_skip (lex_loop fuel) (skip_whitespace source x)

  -- What follows the loop.
  unfoldable pub finish_lex : Lexer (api.ApInt) → Lexer (api.ApInt)
  unfolding close_invalid_open_groups
  finish_lex x =
      let y = close_invalid_open_groups error (note_whitespace x) in
      add_token (token_info end_of_file y.current_line y.current_column) y

  abbrev pub finish_outcome : LexOutcome (api.ApInt) → LexOutcome (api.ApInt)
  finish_outcome (lexed x) = lexed (finish_lex x)
  finish_outcome o = o

  -- `TokenizedBuffer::Lex`
  unfoldable pub lex : Bytes → LexOutcome (api.ApInt)
  unfolding lex_loop finish_lex
  lex text =
      finish_outcome
        (lex_loop (length text + 1) (record { begin = 0; bytes = text }) (new_lexer text))

abbrev pub buffer_of : {A : Type 0} → Lexer A → TokenizedBuffer
buffer_of x = record { token_infos = x.token_infos; line_infos = x.line_infos }

-- `has_errors_`: all that is emitted is an error.
abbrev pub has_errors : {A : Type 0} → Lexer A → Bool
has_errors x = if length x.emitted == 0 then false else true
