-- ===== src/Lex/Diagnostic.antt =====
-- The diagnostics that lib/Lex emits: the offset in the source text, and the message with its
-- arguments (include/Cocktail/Diagnostics/DiagnosticKind.def). Emitting appends to a list.
use cocktail_lang.Prelude.{ℕ, Bool, true, false, List, [], ◌∷◌}

-- `NumericLiteral::Radix`
pub data Radix : Type 0 where
  binary decimal hexadecimal : Radix

-- `radix == Radix::Decimal` and `radix == Radix::Binary`
abbrev pub is_decimal : Radix → Bool
is_decimal decimal = true
is_decimal _ = false

abbrev pub is_binary_radix : Radix → Bool
is_binary_radix binary = true
is_binary_radix _ = false

-- The value of the enumerator.
abbrev pub radix_value : Radix → ℕ
radix_value binary = 2
radix_value decimal = 10
radix_value hexadecimal = 16

pub data Message : Type 0 where
  invalid_digit_separator : Message
  invalid_digit : ℕ → Radix → Message
  empty_digit_sequence : Message
  irregular_digit_separators : Radix → ℕ → Message
  unknown_base_specifier : Message
  binary_real_literal : Message
  wrong_real_literal_exponent : ℕ → Message
  too_many_digits : ℕ → ℕ → Message
  content_before_string_terminator : Message
  unicode_escape_too_large : Message
  unicode_escape_surrogate : Message
  decimal_escape_sequence : Message
  hexadecimal_escape_missing_digits : Message
  unicode_escape_missing_braced_digits : Message
  unknown_escape_sequence : ℕ → Message
  mismatched_indent_in_string : Message
  invalid_horizontal_whitespace_in_string : Message
  multi_line_string_with_double_quotes : Message
  trailing_comment : Message
  no_whitespace_after_comment_introducer : Message
  unterminated_string : Message
  unmatched_closing : Message
  unrecognized_characters : Message

pub record Diagnostic : Type 0 where
  pub location : ℕ
  pub message : Message

abbrev pub emit : ℕ → Message → List Diagnostic
emit location message = record { location = location; message = message } ∷ []
