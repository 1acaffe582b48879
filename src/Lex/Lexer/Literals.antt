-- ===== src/Lex/Lexer/Literals.antt =====
-- `LexNumericLiteral` and `LexStringLiteral` of the lexer.
use cocktail_lang.Prelude.{
  ℕ, ◌+◌, Bool, true, false, not, ◌&&◌, Option, none, some, List, [], ◌∷◌, ◌++◌, Bytes,
  if◌then◌else◌, ◌==◌, length, get_or,
}
use cocktail_lang.Common.ApInt.{ApIntApi}
use cocktail_lang.Common.Unicode.{UnicodeApi}
use cocktail_lang.Common.StringRef.{StringRef, size, drop_front}
use cocktail_lang.Lex.Diagnostic.{is_decimal, Diagnostic, unterminated_string, emit}
use cocktail_lang.Lex.NumericLiteral.{lex_numeric}
use cocktail_lang.Lex.NumericLiteral.Value.{
  Value, integer_value, real_value, unrecoverable_error, compute_value,
}
use cocktail_lang.Lex.StringLiteral.{StringLiteral, is_single_line, lex_string}
use cocktail_lang.Lex.StringLiteral.Expand.{compute_string_value}
use cocktail_lang.Lex.TokenKind.{error, integer_literal, real_literal, string_literal}
use cocktail_lang.Lex.Lexer.{
  Lexer, Formed, with_rest, token_with, report, add_token, line_at, note_indent, set_line_indent,
  add_columns, handle_newline,
}
use cocktail_lang.Lex.Lexer.Symbols.{lex_error}

-- `is_decimal` of `GetRealLiteral`, by the second character of the literal.
unfoldable pub is_decimal_text : Bytes → ℕ → Bool
is_decimal_text text start =
    let second_char = get_or text (start + 1) 0 in
    not (second_char == b'x') && not (second_char == b'b')

abbrev pub same_flag : Bool → Bool → Bool
same_flag true b = b
same_flag false b = not b

module _ {A : Type 0} where
  -- What `VariantMatch` does with the value of a literal; `none` is a failed check.
  unfoldable pub add_number : Value A → ℕ → ℕ → Lexer A → Option (Lexer A)
  unfolding is_decimal_text
  add_number (integer_value v) column token_size x =
      let index = length x.literal_int_storage in
      let y = add_token (token_with integer_literal x.current_line column index) x in
      some (record y { literal_int_storage = y.literal_int_storage ++ v ∷ [] })
  add_number (real_value radix mantissa exponent) column token_size x =
      let index = length x.literal_int_storage in
      let y = add_token (token_with real_literal x.current_line column index) x in
      let start = (line_at x x.current_line).start + column in
      if same_flag (is_decimal_text x.source start) (is_decimal radix)
      then some
          (record y { literal_int_storage = y.literal_int_storage ++ mantissa ∷ exponent ∷ [] })
      else none
  add_number unrecoverable_error column token_size x =
      some (add_token (token_with error x.current_line column token_size) x)

  -- The lines and columns of a literal of several lines, each of which is indented as the literal.
  unfoldable pub walk_lines : ℕ → Bytes → Lexer A → Lexer A
  unfolding handle_newline
  walk_lines column [] x = x
  walk_lines column (c ∷ cs) x = walk_lines column cs (
      if c == b'\n'
      then record (set_line_indent column (handle_newline x)) { set_indent = true }
      else add_columns 1 x)

  -- The line and the column behind a string literal.
  unfoldable pub pass_string : StringLiteral → ℕ → Lexer A → Lexer A
  unfolding walk_lines
  pass_string literal column x =
      if is_single_line literal.multi_line
      then add_columns (size literal.text) x
      else walk_lines column literal.text.bytes x

  -- The token of a string literal that is terminated, with its value.
  unfoldable pub add_string : ℕ → ℕ → Option (Bytes × List Diagnostic) → Lexer A → Option (Lexer A)
  add_string line column none x = none
  add_string line column (some (value, ds)) x =
      let index = length x.literal_string_storage in
      let y = add_token (token_with string_literal line column index) x in
      some
        (report ds (record y { literal_string_storage = y.literal_string_storage ++ value ∷ [] }))

  -- The token of a string literal.
  unfoldable pub string_token : UnicodeApi → StringLiteral → ℕ → ℕ → Lexer A → Option (Lexer A)
  unfolding add_string
  string_token unicode literal line column x = elim literal.is_terminated [
    | true ↦ add_string line column (compute_string_value unicode literal) x
    | false ↦ some (
        report (emit literal.text.begin unterminated_string)
          (add_token (token_with error line column (size literal.text)) x))
  ]

  -- `LexStringLiteral`
  unfoldable pub lex_string_literal : UnicodeApi → StringRef → Lexer A → Formed A
  unfolding pass_string string_token
  lex_string_literal unicode source x = elim (lex_string source) [
    | none ↦ lex_error source x
    | some literal ↦
        let line = x.current_line in
        let column = x.current_column in
        with_rest (drop_front (size literal.text) source)
          (string_token unicode literal line column (pass_string literal column (note_indent x)))
  ]

module _ (api : ApIntApi) where
  -- A literal with its value, if the value could be computed, and with what that emits.
  unfoldable pub number_token :
      Option (Value (api.ApInt)) × List Diagnostic
      → ℕ
      → ℕ
      → Lexer (api.ApInt)
      → Option (Lexer (api.ApInt))
  unfolding add_number
  number_token (none, ds) column token_size x = none
  number_token (some v, ds) column token_size x = add_number v column token_size (report ds x)

  -- `LexNumericLiteral`
  unfoldable pub lex_numeric_literal : StringRef → Lexer (api.ApInt) → Formed (api.ApInt)
  unfolding number_token
  lex_numeric_literal source x = elim (lex_numeric source) [
    | none ↦ lex_error source x
    | some literal ↦
        let n = size literal.text in
        let y = note_indent x in
        with_rest (drop_front n source)
          (number_token (compute_value api literal) x.current_column n (add_columns n y))
  ]
