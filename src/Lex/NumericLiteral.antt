-- ===== src/Lex/NumericLiteral.antt =====
-- include/Cocktail/Lex/NumericLiteral.h and lib/Lex/NumericLiteral.cc: `NumericLiteral::Lex`. The
-- child `Parser` holds the class of that name and `ComputeValue`.
pub mod Scanning
pub mod Lexed
pub mod Digits
pub mod Parser
pub mod Value
pub mod Exponent
use cocktail_lang.Prelude.{
  ℕ, ◌+◌, Bool, true, false, not, ◌&&◌, ◌||◌, Option, none, some, [], ◌∷◌, Bytes, if◌then◌else◌,
  ◌==◌,
}
use cocktail_lang.Common.CharacterSet.{is_alnum, is_lower, is_decimal_digit}
use cocktail_lang.Common.StringRef.{StringRef, size, substr}

pub record NumericLiteral : Type 0 where
  pub text : StringRef
  pub radix_point : ℕ
  pub exponent : ℕ

-- The variables of the loop in `Lex`. The two offsets are read only where the flags are set.
pub record Scan : Type 0 where
  pub seen_plus_minus : Bool
  pub seen_radix_point : Bool
  pub seen_potential_exponent : Bool
  pub radix_point : ℕ
  pub exponent : ℕ

-- `i + 1 != n && IsAlnum(source_text[i + 1])`, with the text behind position i.
unfoldable pub next_is_alnum : Bytes → Bool
next_is_alnum [] = false
next_is_alnum (d ∷ _) = is_alnum d

-- One round of the loop, for the character at position i: `none` is the `break`.
unfoldable pub scan_step : Scan → ℕ → ℕ → Bytes → Option Scan
scan_step s i c rest =
    if is_alnum c || c == b'_'
    then some (
        if is_lower c && s.seen_radix_point && not s.seen_plus_minus
        then record s { exponent = i; seen_potential_exponent = true }
        else s)
    else if c == b'.' && next_is_alnum rest && not s.seen_radix_point
    then some (record s { radix_point = i; seen_radix_point = true })
    else if (c == b'+' || c == b'-')
        && s.seen_potential_exponent
        && s.exponent + 1 == i
        && next_is_alnum rest
    then some (record s { seen_plus_minus = true })
    else none

-- The loop from position i on; the result holds the position where it ends.
unfoldable pub scan : Scan → ℕ → Bytes → Scan × ℕ
scan s i [] = (s, i)
scan s i (c ∷ rest) = elim (scan_step s i c rest) [ none ↦ (s, i) | some s' ↦ scan s' (i + 1) rest ]

abbrev pub initial_scan : Scan
initial_scan = record {
  seen_plus_minus = false;
  seen_radix_point = false;
  seen_potential_exponent = false;
  radix_point = 0;
  exponent = 0;
}

abbrev pub finish_scan : StringRef → Scan × ℕ → NumericLiteral
finish_scan source (s, i) = record {
  text = substr 0 i source;
  radix_point = if s.seen_radix_point then s.radix_point else i;
  exponent = if s.seen_potential_exponent then s.exponent else i;
}

-- `NumericLiteral::Lex`, by the bytes of the source text.
unfoldable pub lex_bytes : StringRef → Bytes → Option NumericLiteral
lex_bytes source [] = none
lex_bytes source (c ∷ rest) =
    if not (is_decimal_digit c) then none else some (finish_scan source (scan initial_scan 1 rest))

unfoldable pub lex_numeric : StringRef → Option NumericLiteral
lex_numeric source = lex_bytes source source.bytes
