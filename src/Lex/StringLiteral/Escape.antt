-- ===== src/Lex/StringLiteral/Escape.antt =====
-- `ExpandUnicodeEscapeSequence` and `ExpandAndConsumeEscapeSequence` of lib/Lex/StringLiteral.cc.
use cocktail_lang.Prelude.{
  ℕ, ◌+◌, ◌-◌, ◌*◌, Bool, false, not, ◌&&◌, ◌||◌, Option, none, some, List, [], ◌∷◌, Bytes,
  if◌then◌else◌, ◌==◌, leb, ltb, length,
}
use cocktail_lang.Common.CharacterSet.{is_decimal_digit, is_upper_hex_digit}
use cocktail_lang.Common.StringRef.{StringRef, drop_front, consume_front}
use cocktail_lang.Common.ApInt.{digit_value}
use cocktail_lang.Common.Unicode.{UnicodeApi}
use cocktail_lang.Lex.Diagnostic.{
  Diagnostic, unicode_escape_too_large, unicode_escape_surrogate, decimal_escape_sequence,
  hexadecimal_escape_missing_digits, unicode_escape_missing_braced_digits, unknown_escape_sequence,
  emit,
}
use cocktail_lang.Lex.LexHelpers.{can_lex_integer}

-- The content that is left, what is appended to the result, and what is emitted.
pub record Expanded : Type 0 where
  pub content : StringRef
  pub appended : Bytes
  pub emitted : List Diagnostic

abbrev pub expanded : StringRef → Bytes → List Diagnostic → Expanded
expanded content appended emitted = record {
  content = content;
  appended = appended;
  emitted = emitted;
}

-- `take_while(IsUpperHexDigit)`
unfoldable pub take_hex_digits : Bytes → Bytes
take_hex_digits [] = []
take_hex_digits (c ∷ cs) =
    let rest = take_hex_digits cs in if is_upper_hex_digit c then c ∷ rest else []

abbrev pub starts_with_digit : Bytes → Bool
starts_with_digit [] = false
starts_with_digit (c ∷ _) = is_decimal_digit c

-- What is behind the opening brace: the digits, and the text behind the closing brace.
unfoldable pub braced_digits : StringRef → Option (StringRef × StringRef)
unfolding take_hex_digits
braced_digits content = elim (consume_front (b'{' ∷ []) content) [
  | none ↦ none
  | some inner ↦
      let digits = take_hex_digits inner.bytes in
      let digits_ref : StringRef = record { begin = inner.begin; bytes = digits } in
      elim (consume_front (b'}' ∷ []) (drop_front (length digits) inner)) [
        | none ↦ none
        | some rest ↦ if length digits == 0 then none else some (digits_ref, rest)
      ]
]

-- The two digits of `\x`, as a byte, and the text behind them.
unfoldable pub hex_byte : StringRef → Bytes → Option (ℕ × StringRef)
hex_byte content (h ∷ l ∷ rest) =
    if is_upper_hex_digit h && is_upper_hex_digit l
    then some (digit_value h * 16 + digit_value l, drop_front 2 content)
    else none
hex_byte content _ = none

module _ (api : UnicodeApi) where
  -- `ExpandUnicodeEscapeSequence`: the code units, or what is emitted where it fails. The outer
  -- `none` is `llvm_unreachable`.
  unfoldable pub code_units : StringRef → ℕ → Option (Option Bytes × List Diagnostic)
  code_units digits code =
      if ltb 0x10FFFF code
      then some (none, emit digits.begin unicode_escape_too_large)
      else if leb 0xD800 code && ltb code 0xE000
      then some (none, emit digits.begin unicode_escape_surrogate)
      else elim (api.code_point_to_utf8 code) [ none ↦ none | some bytes ↦ some (some bytes, []) ]

  unfoldable pub expand_unicode_escape_sequence :
      StringRef → Option (Option Bytes × List Diagnostic)
  unfolding code_units can_lex_integer
  expand_unicode_escape_sequence digits =
      let (fits, more) = can_lex_integer digits in
      if not fits then some (none, more) else elim (api.get_as_unsigned 16 digits.bytes) [
        | none ↦ some (none, emit digits.begin unicode_escape_too_large)
        | some code ↦ code_units digits code
      ]

  -- The case `u`: if it fails the letter itself is appended.
  unfoldable pub unicode_case : StringRef → Option Expanded
  unfolding expand_unicode_escape_sequence braced_digits
  unicode_case content = elim (braced_digits content) [
    | none ↦
        some
          (expanded content (b'u' ∷ []) (emit content.begin unicode_escape_missing_braced_digits))
    | some (digits, rest) ↦ elim (expand_unicode_escape_sequence digits) [
      | none ↦ none
      | some (none, more) ↦ some (expanded content (b'u' ∷ []) more)
      | some (some bytes, more) ↦ some (expanded rest bytes more)
    ]
  ]

  unfoldable pub hex_case : StringRef → Expanded
  unfolding hex_byte
  hex_case content = elim (hex_byte content content.bytes) [
    | none ↦ expanded content (b'x' ∷ []) (emit content.begin hexadecimal_escape_missing_digits)
    | some (byte, rest) ↦ expanded rest (byte ∷ []) []
  ]

  -- The switch on the first character; `content` is the text behind it.
  unfoldable pub escape_case : ℕ → StringRef → Option Expanded
  unfolding unicode_case hex_case
  escape_case first content =
      if first == b't'
      then some (expanded content (b'\t' ∷ []) [])
      else if first == b'n'
      then some (expanded content (b'\n' ∷ []) [])
      else if first == b'r'
      then some (expanded content (b'\r' ∷ []) [])
      else if first == b'"' || first == b'\'' || first == b'\\'
      then some (expanded content (first ∷ []) [])
      else if first == b'0'
      then some (
          expanded content (0 ∷ []) (
            if starts_with_digit content.bytes
            then emit content.begin decimal_escape_sequence
            else []))
      else if first == b'x'
      then some (hex_case content)
      else if first == b'u'
      then unicode_case content
      else some
          (expanded content (first ∷ []) (emit (content.begin - 1) (unknown_escape_sequence first)))

  unfoldable pub consume_escape : StringRef → Bytes → Option Expanded
  unfolding escape_case
  consume_escape content [] = none
  consume_escape content (first ∷ _) = escape_case first (drop_front 1 content)

  -- `ExpandAndConsumeEscapeSequence`; `none` is a failed check, on empty content.
  unfoldable pub expand_and_consume_escape_sequence : StringRef → Option Expanded
  unfolding consume_escape
  expand_and_consume_escape_sequence content = consume_escape content content.bytes
