-- ===== src/Parse/Context/Fixity.antt =====
-- The rules of lib/Parse/Context.cc on the whitespace around operators.
use cocktail_lang.Prelude.{
  ◌+◌, ◌-◌, Bool, true, false, not, ◌&&◌, ◌||◌, Option, none, some, List, [], ◌∷◌, ◌++◌,
  if◌then◌else◌, ◌==◌,
}
use cocktail_lang.Lex.TokenKind.{
  TokenKind, open_paren, close_paren, close_curly_brace, close_square_bracket, identifier,
  integer_literal, real_literal, string_literal, comma, semi, colon,
}
use cocktail_lang.Lex.TokenKind.Tables.{is_symbol}
use cocktail_lang.Lex.TokenizedBuffer.{get_kind, has_leading_whitespace, has_trailing_whitespace}
use cocktail_lang.Parse.Context.{
  Context, ParseDiagnostic, ParseMessage, around, after, before,
  binary_operator_requires_whitespace, unary_operator_has_whitespace,
  unary_operator_requires_whitespace, end_position, position_kind,
}
use cocktail_lang.Parse.Context.Skip.{is_one_of}

pub data OperatorFixity : Type 0 where
  prefix_operator infix_operator postfix_operator : OperatorFixity

unfoldable pub is_assumed_start_of_operand : TokenKind → Bool
is_assumed_start_of_operand kind =
    is_one_of kind (open_paren ∷ identifier ∷ integer_literal ∷ real_literal ∷ string_literal ∷ [])

unfoldable pub is_assumed_end_of_operand : TokenKind → Bool
is_assumed_end_of_operand kind = is_one_of kind (
    close_paren ∷ close_curly_brace ∷ close_square_bracket ∷ identifier ∷ integer_literal
    ∷ real_literal ∷ string_literal ∷ [])

unfoldable pub is_possible_start_of_operand : TokenKind → Bool
is_possible_start_of_operand kind = not (
    is_one_of kind
      (close_paren ∷ close_curly_brace ∷ close_square_bracket ∷ comma ∷ semi ∷ colon ∷ []))

abbrev pub leading_space : Context → Bool
leading_space c = has_leading_whitespace c.tokens c.position

abbrev pub trailing_space : Context → Bool
trailing_space c = has_trailing_whitespace c.tokens c.position

-- What is asked of an operator with no whitespace on either side.
unfoldable pub between_operands : Context → Bool
unfolding is_assumed_start_of_operand is_assumed_end_of_operand
between_operands c = not (
    c.position == 0
    || not (is_assumed_end_of_operand (get_kind c.tokens (c.position - 1)))
    || not (is_assumed_start_of_operand (get_kind c.tokens (c.position + 1))))

-- `none` is the failed check.
unfoldable pub is_lexically_valid_infix_operator : Context → Option Bool
is_lexically_valid_infix_operator c =
    if c.position == end_position c
    then none
    else some (
        if leading_space c && trailing_space c
        then true
        else if leading_space c || trailing_space c
        then false
        else between_operands c)

unfoldable pub is_trailing_operator_infix : Context → Option Bool
is_trailing_operator_infix c =
    if c.position == end_position c
    then some false
    else elim (is_lexically_valid_infix_operator c) [
      | none ↦ none
      | some valid ↦
          let next = get_kind c.tokens (c.position + 1) in
          some (
            (valid && is_possible_start_of_operand next)
            || (leading_space c && is_assumed_start_of_operand next))
    ]

abbrev pub report_at : Context → ParseMessage → List ParseDiagnostic
report_at c message = record { token = c.position; message = message } ∷ []

unfoldable pub infix_diagnostics : Context → Bool → List ParseDiagnostic
infix_diagnostics c true = []
infix_diagnostics c false = report_at c (
    binary_operator_requires_whitespace
      (if leading_space c then after else if trailing_space c then before else around))

unfoldable pub unary_diagnostics : Context → Bool → Option (List ParseDiagnostic)
unary_diagnostics c is_prefix =
    if (if is_prefix then trailing_space c else leading_space c)
    then some (report_at c (unary_operator_has_whitespace (if is_prefix then after else before)))
    else elim (is_lexically_valid_infix_operator c) [
      | none ↦ none
      | some true ↦
          some
            (report_at c (unary_operator_requires_whitespace (if is_prefix then before else after)))
      | some false ↦ some []
    ]

-- What is emitted for a symbolic operator.
unfoldable pub fixity_diagnostics : OperatorFixity → Context → Option (List ParseDiagnostic)
unfolding infix_diagnostics unary_diagnostics
fixity_diagnostics infix_operator c = elim (is_lexically_valid_infix_operator c) [
  | none ↦ none
  | some valid ↦ some (infix_diagnostics c valid)
]
fixity_diagnostics prefix_operator c = unary_diagnostics c true
fixity_diagnostics postfix_operator c = unary_diagnostics c false

-- `DiagnoseOperatorFixity`
unfoldable pub diagnose_operator_fixity : OperatorFixity → Context → Option Context
diagnose_operator_fixity fixity c =
    if not (is_symbol (position_kind c)) then some c else elim (fixity_diagnostics fixity c) [
      | none ↦ none
      | some more ↦ some (record c { emitted = c.emitted ++ more })
    ]
