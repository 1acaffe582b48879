-- ===== src/Lex/NumericLiteral/Digits.antt =====
-- `CheckDigitSequence` and `CheckDigitSeparatorPlacement` of lib/Lex/NumericLiteral.cc.
pub mod Accepts
use cocktail_lang.Prelude.{
  ℕ, zero, suc, ◌+◌, ◌-◌, Bool, true, false, not, ◌&&◌, ◌||◌, Option, none, some, List, [], ◌∷◌,
  ◌++◌, Bytes, if◌then◌else◌, ◌==◌, leb, get_or,
}
use cocktail_lang.Common.CharacterSet.{within}
use cocktail_lang.Common.StringRef.{StringRef, size}
use cocktail_lang.Lex.Diagnostic.{
  Radix, binary, decimal, hexadecimal, Diagnostic, invalid_digit_separator, invalid_digit,
  empty_digit_sequence, irregular_digit_separators, emit,
}
use cocktail_lang.Lex.LexHelpers.{can_lex_integer}

-- The set `valid_digits`. The loops that fill it run over character arrays with the terminating
-- zero byte, so that byte is in each set.
unfoldable pub valid_digit : Radix → ℕ → Bool
valid_digit binary c = c == 0 || within b'0' b'1' c
valid_digit decimal c = c == 0 || within b'0' b'9' c
valid_digit hexadecimal c = c == 0 || within b'0' b'9' c || within b'A' b'F' c

-- The loop of `CheckDigitSequence`: the character before position i, the count of separators,
-- what was emitted, and whether the loop ran to its end.
pub record DigitScan : Type 0 where
  pub position : ℕ
  pub previous : ℕ
  pub num_digit_separators : ℕ
  pub emitted : List Diagnostic
  pub ok : Bool

abbrev pub is_nil : Bytes → Bool
is_nil [] = true
is_nil (_ ∷ _) = false

abbrev pub after_digit : DigitScan → ℕ → DigitScan
after_digit s c = record s { position = s.position + 1; previous = c }

-- A misplaced separator is reported at the second character of the text, wherever it stands.
abbrev pub after_separator : Bool → ℕ → DigitScan → ℕ → Bytes → DigitScan
after_separator allow begin s c rest = record s {
  position = s.position + 1;
  previous = c;
  num_digit_separators = s.num_digit_separators + 1;
  emitted =
      if not allow || s.position == 0 || s.previous == b'_' || is_nil rest
      then s.emitted ++ emit (begin + 1) invalid_digit_separator
      else s.emitted;
}

-- One round: `none` is the `return` at an invalid character.
unfoldable pub digit_step : Radix → Bool → ℕ → DigitScan → ℕ → Bytes → Option DigitScan
digit_step radix allow begin s c rest =
    if valid_digit radix c
    then some (after_digit s c)
    else if c == b'_'
    then some (after_separator allow begin s c rest)
    else none

unfoldable pub digit_loop : Radix → Bool → ℕ → DigitScan → Bytes → DigitScan
digit_loop radix allow begin s [] = s
digit_loop radix allow begin s (c ∷ rest) = elim (digit_step radix allow begin s c rest) [
  | none ↦ record s {
    emitted = s.emitted ++ emit (begin + s.position) (invalid_digit c radix);
    ok = false;
  }
  | some s' ↦ digit_loop radix allow begin s' rest
]

abbrev pub initial_digits : DigitScan
initial_digits = record {
  position = 0;
  previous = 0;
  num_digit_separators = 0;
  emitted = [];
  ok = true;
}

-- The number of characters between two separators, and one.
abbrev pub stride : Radix → ℕ
stride decimal = 4
stride _ = 5

-- The loop of `CheckDigitSeparatorPlacement`: `none` is the `return` behind the diagnostic. The
-- position falls by the stride in each round, so the position is fuel enough.
unfoldable pub separator_loop : ℕ → ℕ → Bytes → ℕ → ℕ → Option ℕ
separator_loop zero step text pos remaining = some remaining
separator_loop (suc fuel) step text pos remaining = elim (leb step pos) [
  | false ↦ some remaining
  | true ↦ elim (get_or text (pos - step) 0 == b'_') [
    | false ↦ none
    | true ↦ separator_loop fuel step text (pos - step) (remaining - 1)
  ]
]

irregular : StringRef → Radix → List Diagnostic
irregular text radix =
    emit text.begin (irregular_digit_separators radix (if stride radix == 4 then 3 else 4))

placement : StringRef → Radix → Option ℕ → List Diagnostic
unfolding irregular
placement text radix none = irregular text radix
placement text radix (some remaining) = if remaining == 0 then [] else irregular text radix

-- Its check that the number is that of the separators is left out: the only call has counted them.
unfoldable pub check_digit_separator_placement : StringRef → Radix → ℕ → List Diagnostic
unfolding placement
check_digit_separator_placement text binary num = []
check_digit_separator_placement text radix num =
    placement text radix (separator_loop (size text) (stride radix) text.bytes (size text) num)

-- `CheckDigitSequenceResult`, with what was emitted.
pub record DigitResult : Type 0 where
  pub ok : Bool
  pub has_digit_separators : Bool
  pub emitted : List Diagnostic

abbrev failed : List Diagnostic → DigitResult
failed emitted = record { ok = false; has_digit_separators = false; emitted = emitted }

sized : DigitScan → List Diagnostic → Bool × List Diagnostic → DigitResult
sized s placed (fits, more) = record {
  ok = fits;
  has_digit_separators = fits && not (s.num_digit_separators == 0);
  emitted = placed ++ more;
}

-- What follows the loop.
finish_digits : StringRef → Radix → DigitScan → DigitResult
unfolding sized
finish_digits text radix s =
    if not s.ok
    then failed s.emitted
    else if s.num_digit_separators == size text
    then failed (s.emitted ++ emit text.begin empty_digit_sequence)
    else let placed =
        if s.num_digit_separators == 0
        then s.emitted
        else s.emitted ++ check_digit_separator_placement text radix s.num_digit_separators in
      sized s placed (can_lex_integer text)

unfoldable pub check_digit_sequence : StringRef → Radix → Bool → DigitResult
unfolding finish_digits
check_digit_sequence text radix allow_digit_separators =
    finish_digits text radix
      (digit_loop radix allow_digit_separators text.begin initial_digits text.bytes)
