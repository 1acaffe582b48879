-- ===== src/Lex/NumericLiteral/Parser.antt =====
-- The class `NumericLiteral::Parser` of lib/Lex/NumericLiteral.cc: the parts of a literal and the
-- checks on them. A method returns the parser that it leaves; diagnostics are kept in a list.
use cocktail_lang.Prelude.{
  ℕ, ◌+◌, ◌-◌, Bool, true, false, not, ◌&&◌, ◌||◌, none, some, List, [], ◌∷◌, ◌++◌, if◌then◌else◌,
  ◌==◌, get_or,
}
use cocktail_lang.Common.StringRef.{StringRef, size, drop_front, substr, starts_with, consume_front}
use cocktail_lang.Lex.Diagnostic.{
  Radix, binary, decimal, hexadecimal, Diagnostic, is_decimal, is_binary_radix,
  unknown_base_specifier, binary_real_literal, wrong_real_literal_exponent, emit,
}
use cocktail_lang.Lex.NumericLiteral.{NumericLiteral}
use cocktail_lang.Lex.NumericLiteral.Digits.{check_digit_sequence}

pub record Parser : Type 0 where
  pub literal : NumericLiteral
  pub radix : Radix
  pub int_part : StringRef
  pub fract_part : StringRef
  pub exponent_part : StringRef
  pub mantissa_needs_cleaning : Bool
  pub exponent_needs_cleaning : Bool
  pub exponent_is_negative : Bool
  pub emitted : List Diagnostic

-- The radix and the integer part behind its prefix.
abbrev pub split_radix : StringRef → Radix × StringRef
split_radix part = elim (consume_front (b'0' ∷ b'x' ∷ []) part) [
  | some rest ↦ (hexadecimal, rest)
  | none ↦ elim (consume_front (b'0' ∷ b'b' ∷ []) part) [
    | some rest ↦ (binary, rest)
    | none ↦ (decimal, part)
  ]
]

-- The exponent part behind its sign, and whether the sign is `-`.
abbrev pub split_sign : StringRef → Bool × StringRef
split_sign part = elim (consume_front (b'+' ∷ []) part) [
  | some rest ↦ (false, rest)
  | none ↦ elim (consume_front (b'-' ∷ []) part) [ some rest ↦ (true, rest) | none ↦ (false, part) ]
]

-- The constructor. Where the literal has no exponent part and no fraction, the count of the
-- second slice is negative in the source; the slice starts behind the text and is empty anyway.
unfoldable pub new_parser : NumericLiteral → Parser
new_parser l =
    let (radix, int_part) = split_radix (substr 0 l.radix_point l.text) in
    let (negative, exponent_part) = split_sign (drop_front (l.exponent + 1) l.text) in
    record {
      literal = l;
      radix = radix;
      int_part = int_part;
      fract_part = substr (l.radix_point + 1) (l.exponent - l.radix_point - 1) l.text;
      exponent_part = exponent_part;
      mantissa_needs_cleaning = false;
      exponent_needs_cleaning = false;
      exponent_is_negative = negative;
      emitted = [];
    }

unfoldable pub is_integer : Parser → Bool
is_integer p = p.literal.radix_point == size p.literal.text

abbrev pub report : Parser → List Diagnostic → Parser
report p more = record p { emitted = p.emitted ++ more }

unfoldable pub check_leading_zero : Parser → Parser × Bool
check_leading_zero p =
    if is_decimal p.radix && starts_with (b'0' ∷ []) p.int_part.bytes && not (size p.int_part == 1)
    then (report p (emit p.int_part.begin unknown_base_specifier), false)
    else (p, true)

unfoldable pub check_int_part : Parser → Parser × Bool
check_int_part p =
    let r = check_digit_sequence p.int_part p.radix true in
    (
      record p {
        mantissa_needs_cleaning = p.mantissa_needs_cleaning || r.has_digit_separators;
        emitted = p.emitted ++ r.emitted;
      },
      r.ok,
    )

-- A binary real literal is reported, and checked all the same.
unfoldable pub check_fractional_part : Parser → Parser × Bool
unfolding is_integer
check_fractional_part p =
    if is_integer p
    then (p, true)
    else let r = check_digit_sequence p.fract_part p.radix false in
      (
        record p {
          mantissa_needs_cleaning = true;
          emitted =
              (if is_binary_radix p.radix
                then p.emitted
                  ++ emit (p.literal.text.begin + p.literal.radix_point) binary_real_literal
                else p.emitted)
              ++ r.emitted;
        },
        r.ok,
      )

abbrev pub expected_exponent_kind : Radix → ℕ
expected_exponent_kind decimal = b'e'
expected_exponent_kind _ = b'p'

unfoldable pub check_exponent_part : Parser → Parser × Bool
check_exponent_part p =
    let l = p.literal in
    let expected = expected_exponent_kind p.radix in
    if l.exponent == size l.text
    then (p, true)
    else if not (get_or l.text.bytes l.exponent 0 == expected)
    then (report p (emit (l.text.begin + l.exponent) (wrong_real_literal_exponent expected)), false)
    else let r = check_digit_sequence p.exponent_part decimal true in
      (
        record p {
          exponent_needs_cleaning = r.has_digit_separators;
          emitted = p.emitted ++ r.emitted;
        },
        r.ok,
      )

-- `a && b` on methods: the second one runs only if the first succeeds.
infixl 20 ◌&&then◌
abbrev pub ◌&&then◌ : Parser × Bool → (Parser → Parser × Bool) → Parser × Bool
(p, true) &&then next = next p
(p, false) &&then next = (p, false)

unfoldable pub check : Parser → Parser × Bool
check p =
    check_leading_zero p
    &&then check_int_part
    &&then check_fractional_part
    &&then check_exponent_part
