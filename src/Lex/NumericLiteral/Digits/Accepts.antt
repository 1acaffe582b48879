-- ===== src/Lex/NumericLiteral/Digits/Accepts.antt =====
-- Which texts `CheckDigitSequence` accepts.
use cocktail_lang.Prelude.{
  ℕ, ◌+◌, ◌≤◌, ◌≡◌, ◌≢◌, ◌↔◌, refl, Bool, true, false, not, ◌&&◌, ◌||◌, [], ◌∷◌, Bytes,
  if◌then◌else◌, ◌==◌, arith,
}
use cocktail_lang.Common.StringRef.{StringRef, size}
use cocktail_lang.Lex.Diagnostic.{Radix, binary, decimal, hexadecimal}
use cocktail_lang.Lex.LexHelpers.{can_lex_integer}
use cocktail_lang.Lex.NumericLiteral.Digits.{
  valid_digit, DigitScan, digit_step, after_digit, after_separator, digit_loop, initial_digits,
  check_digit_sequence,
}

-- The digits of a radix, and the zero byte that ends the arrays of the source.
abbrev pub digits_of : Radix → Bytes
digits_of binary = 0 ∷ b'0' ∷ b'1' ∷ []
digits_of decimal = 0 ∷ b'0' ∷ b'1' ∷ b'2' ∷ b'3' ∷ b'4' ∷ b'5' ∷ b'6' ∷ b'7' ∷ b'8' ∷ b'9' ∷ []
digits_of hexadecimal =
    0 ∷ b'0' ∷ b'1' ∷ b'2' ∷ b'3' ∷ b'4' ∷ b'5' ∷ b'6' ∷ b'7' ∷ b'8' ∷ b'9' ∷ b'A' ∷ b'B' ∷ b'C'
    ∷ b'D' ∷ b'E' ∷ b'F' ∷ []

abbrev pub occurs : ℕ → Bytes → Bool
occurs c [] = false
occurs c (d ∷ ds) = c == d || occurs c ds

-- The set of the source holds these.
valid_digit-occurs : (radix : Radix) (c : ℕ) → valid_digit radix c ≡ occurs c (digits_of radix)
unfolding valid_digit
valid_digit-occurs binary c = ground arith
valid_digit-occurs decimal c = ground arith
valid_digit-occurs hexadecimal c = ground arith

-- Each character is a digit of the radix or a separator.
abbrev pub all_digit_chars : Radix → Bytes → Bool
all_digit_chars radix [] = true
all_digit_chars radix (c ∷ cs) =
    (occurs c (digits_of radix) || c == b'_') && all_digit_chars radix cs

abbrev all_valid : Radix → Bytes → Bool
all_valid radix [] = true
all_valid radix (c ∷ cs) = (valid_digit radix c || c == b'_') && all_valid radix cs

all_valid-all_digit_chars :
    (radix : Radix) (text : Bytes) → all_valid radix text ≡ all_digit_chars radix text
all_valid-all_digit_chars radix [] = refl
all_valid-all_digit_chars radix (c ∷ cs) =
    rw (valid_digit-occurs radix c, all_valid-all_digit_chars radix cs) refl

abbrev pub count_separators : Bytes → ℕ
count_separators [] = 0
count_separators (c ∷ cs) = (if c == b'_' then 1 else 0) + count_separators cs

-- A separator is no digit.
pub separator_not_digit : (radix : Radix) (c : ℕ) → (c == b'_') ≡ true → valid_digit radix c ≡ false
unfolding valid_digit
separator_not_digit binary c h = ground arith
separator_not_digit decimal c h = ground arith
separator_not_digit hexadecimal c h = ground arith

-- The verdict and the count of the loop.
abbrev Verdict : Radix → Bytes → DigitScan → DigitScan → Type 0
Verdict radix text s r =
    (r.ok ≡ (s.ok && all_valid radix text))
    × (all_valid radix text ≡ true
        → r.num_digit_separators ≡ s.num_digit_separators + count_separators text)

digit_loop-Verdict :
    (radix : Radix) (allow : Bool) (begin : ℕ) (s : DigitScan) (text : Bytes)
    → Verdict radix text s (digit_loop radix allow begin s text)
unfolding digit_loop digit_step
digit_loop-Verdict radix allow begin s [] = (ground arith, λ _. omega arith)
digit_loop-Verdict radix allow begin s (c ∷ cs) =
    let digit = digit_loop-Verdict radix allow begin (after_digit s c) cs in
    let separator = digit_loop-Verdict radix allow begin (after_separator allow begin s c cs) cs in
    (
      ground (arith, digit.0, separator.0),
      λ h. ground (arith, digit.1, separator.1, separator_not_digit radix c),
    )

module _ (text : StringRef) (radix : Radix) (allow : Bool) where
  loop :
      Verdict radix text.bytes initial_digits
        (digit_loop radix allow text.begin initial_digits text.bytes)
  loop = digit_loop-Verdict radix allow text.begin initial_digits text.bytes

  same : all_valid radix text.bytes ≡ all_digit_chars radix text.bytes
  same = all_valid-all_digit_chars radix text.bytes

  -- The text passes exactly if it consists of separators, of the digits of the radix, where those of
  -- radix 16 are `0` to `9` and `A` to `F`, and of zero bytes, is not made of separators only, and has
  -- at most 1000 characters; misplaced separators are reported and do not matter here.
  pub check_digit_sequence_iff : ((check_digit_sequence text radix allow).ok ≡ true) ↔ (
      (all_digit_chars radix text.bytes ≡ true)
      × (count_separators text.bytes ≢ size text)
      × (size text ≤ 1000))
  unfolding check_digit_sequence can_lex_integer
  check_digit_sequence_iff = ground (arith, loop.0, loop.1, same)

  -- If it passes, the result says whether it has separators.
  pub check_digit_sequence_separators :
      (check_digit_sequence text radix allow).ok ≡ true
      → (check_digit_sequence text radix allow).has_digit_separators
        ≡ not (count_separators text.bytes == 0)
  unfolding check_digit_sequence can_lex_integer
  check_digit_sequence_separators h = ground (arith, loop.0, loop.1, same)
