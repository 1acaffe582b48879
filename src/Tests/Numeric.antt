-- ===== src/Tests/Numeric.antt =====
-- Numeric literals at concrete texts, and integers of a width as pairs of numbers: concrete
-- functions for the interface `ApIntApi`.
use native.Mathlib.Nat.{pow-suc, pow-le-pow_right, mod-lt, mod-eq_of_lt}
use cocktail_lang.Prelude.{
  inl, ℕ, zero, suc, ◌+◌, ◌-◌, ◌*◌, ◌%◌, ◌^◌, ◌≤◌, ◌<◌, ◌≡◌, refl, ◌∙◌, ◌↔◌, ◌≢◌, true, max, some,
  [], ◌∷◌, leb, arith,
}
use cocktail_lang.Common.ApInt.{ApIntApi, digits_value}
use cocktail_lang.Prelude.Int.{negsuc}
use cocktail_lang.Common.StringRef.{StringRef, size}
use cocktail_lang.Lex.Diagnostic.{decimal}
use cocktail_lang.Lex.NumericLiteral.{
  NumericLiteral, lex_numeric, scan, scan_step, lex_bytes, next_is_alnum,
}
use cocktail_lang.Lex.NumericLiteral.Lexed.{IsLexed, lex_numeric-IsLexed}
use cocktail_lang.Lex.NumericLiteral.Parser.{new_parser}
use cocktail_lang.Lex.NumericLiteral.Value.{get_exponent}
use cocktail_lang.Lex.NumericLiteral.Exponent.{signed, Written, reads, get_exponent_exact}
use cocktail_lang.Lex.NumericLiteral.Digits.{
  check_digit_sequence, digit_loop, digit_step, valid_digit,
}
use cocktail_lang.Lex.NumericLiteral.Digits.Accepts.{
  all_digit_chars, count_separators, check_digit_sequence_iff, check_digit_sequence_separators,
}
use cocktail_lang.Lex.LexHelpers.{can_lex_integer}
use cocktail_lang.Common.CharacterSet.{is_alnum, is_alpha, is_lower, is_decimal_digit}

pub record Bits : Type 0 where
  width_less_one : ℕ
  raw : ℕ

abbrev pub width : Bits → ℕ
width a = suc a.width_less_one

abbrev pub value : Bits → ℕ
value a = a.raw % 2 ^ width a

abbrev pub of_width : ℕ → ℕ → Bits
of_width w v = record { width_less_one = w - 1; raw = v }

pow_pos : (w : ℕ) → 0 < 2 ^ w
pow_pos w = omega (arith, pow-le-pow_right {n = 2} (omega arith) {i = 0} {j = w} (omega arith))

pub lt_pow : (n : ℕ) → n < 2 ^ suc n
lt_pow zero = omega arith
lt_pow (suc n) = omega (arith, pow-suc 2 (suc n), lt_pow n)

pub width-of_width : (w v : ℕ) → 0 < w → width (of_width w v) ≡ w
width-of_width w v h = omega arith

pub value-of_width : (w v : ℕ) → 0 < w → value (of_width w v) ≡ v % 2 ^ w
value-of_width w v h = let e : suc (w - 1) ≡ w = omega arith in rw e

pub value_lt : (a : Bits) → value a < 2 ^ width a
value_lt a = mod-lt a.raw (pow_pos (width a))

pub fits : (v w : ℕ) → 0 < w → v < 2 ^ w → value (of_width w v) ≡ v
fits v w h k = value-of_width w v h ∙ mod-eq_of_lt k

pub resized :
    (a : Bits) (v : ℕ)
    → (width (of_width (width a) v) ≡ width a) × (value (of_width (width a) v) ≡ v % 2 ^ width a)
resized a v = (width-of_width (width a) v (omega arith), value-of_width (width a) v (omega arith))

pub twice : (n : ℕ) → 2 ^ suc n ≡ 2 ^ (suc n - 1) * 2
twice n = let e : suc n - 1 ≡ n = omega arith in rw e (pow-suc 2 n)

abbrev pub bits_api : ApIntApi
bits_api = record {
  ApInt = Bits;
  bit_width = width;
  to_unsigned = value;
  make = of_width;
  get_as_integer = λ radix digits. let n = digits_value radix 0 digits in some (of_width (suc n) n);
  zext = λ a w. of_width (max (width a) w) (value a);
  negate = λ a. of_width (width a) (2 ^ width a - value a);
  subtract = λ a k. of_width (width a) (value a + 2 ^ width a - k);
  is_sign_bit_set = λ a. leb (2 ^ (width a - 1)) (value a);
  set_sign_bit = λ a. of_width (width a) (value a + 2 ^ (width a - 1));
  unsigned_lt = value_lt;
  width_pos = λ a. omega arith;
  make_lem = λ w v h. (width-of_width w v h, value-of_width w v h);
  get_as_integer_lem = λ radix digits _ _.
      let n = digits_value radix 0 digits in
      (of_width (suc n) n, refl, fits n (suc n) (omega arith) (lt_pow n));
  zext_lem = λ a w h.
      let e : max (width a) w ≡ w = omega arith in
      let wide = pow-le-pow_right {n = 2} (omega arith) {i = width a} {j = w} h in
      (omega arith, rw e (fits (value a) w (omega arith) (omega (arith, value_lt a, wide))));
  negate_lem = λ a. resized a _;
  subtract_lem = λ a k _. resized a _;
  is_sign_bit_set_lem = λ a. refl;
  set_sign_bit_lem = λ a h. (
    (resized a (value a + 2 ^ (width a - 1))).0,
    fits _ (width a) (omega arith) (omega (arith, twice a.width_less_one)),
  );
}

-- The source text `1.5e-3;`.
abbrev real_source : StringRef
real_source = record { begin = 0; bytes = b'1' ∷ b'.' ∷ b'5' ∷ b'e' ∷ b'-' ∷ b'3' ∷ b';' ∷ [] }

abbrev real_literal : NumericLiteral
real_literal = record {
  text = record { begin = 0; bytes = b'1' ∷ b'.' ∷ b'5' ∷ b'e' ∷ b'-' ∷ b'3' ∷ [] };
  radix_point = 1;
  exponent = 3;
}

lex_real : lex_numeric real_source ≡ some real_literal
unfolding lex_numeric lex_bytes scan scan_step next_is_alnum is_alnum is_alpha is_lower
    is_decimal_digit
lex_real = refl

lex_numeric-IsLexed_example : IsLexed real_source real_literal
lex_numeric-IsLexed_example = lex_numeric-IsLexed real_source lex_real

-- The exponent part reads -3, and the fraction has one digit.
real_exponent : Written bits_api (new_parser real_literal) 3
unfolding new_parser
real_exponent = reads (b'3' ∷ []) refl refl (λ e. absurd (cc e)) (inl refl, tt)

get_exponent_exact_example :
    (r : Bits) × (get_exponent bits_api (new_parser real_literal) ≡ some r)
    × (signed bits_api r ≡ negsuc 3)
unfolding new_parser
get_exponent_exact_example =
    get_exponent_exact bits_api (new_parser real_literal) 3 real_exponent (omega arith)
      (λ _. omega arith)

-- `12_345`
abbrev separated : StringRef
separated = record { begin = 7; bytes = b'1' ∷ b'2' ∷ b'_' ∷ b'3' ∷ b'4' ∷ b'5' ∷ [] }

check_digit_sequence_iff_example : ((check_digit_sequence separated decimal true).ok ≡ true) ↔ (
    (all_digit_chars decimal separated.bytes ≡ true)
    × (count_separators separated.bytes ≢ size separated)
    × (size separated ≤ 1000))
check_digit_sequence_iff_example = check_digit_sequence_iff separated decimal true

separated_ok : (check_digit_sequence separated decimal true).ok ≡ true
unfolding check_digit_sequence digit_loop digit_step valid_digit can_lex_integer
separated_ok = refl

check_digit_sequence_separators_example :
    (check_digit_sequence separated decimal true).has_digit_separators ≡ true
check_digit_sequence_separators_example =
    check_digit_sequence_separators separated decimal true separated_ok
