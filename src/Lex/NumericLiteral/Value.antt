-- ===== src/Lex/NumericLiteral/Value.antt =====
-- `ParseInteger`, `GetMantissa`, `GetExponent` and `ComputeValue` of lib/Lex/NumericLiteral.cc, over
-- the integers of `llvm::APInt`. `none` is `llvm_unreachable`.
use cocktail_lang.Prelude.{
  ℕ, ◌+◌, ◌-◌, ◌*◌, Bool, true, false, not, ◌&&◌, ◌||◌, Option, none, some, List, [], ◌∷◌, Bytes,
  if◌then◌else◌, ◌==◌, ltb, max, take, drop,
}
use cocktail_lang.Common.StringRef.{size, end_offset}
use cocktail_lang.Common.ApInt.{ApIntApi}
use cocktail_lang.Lex.Diagnostic.{
  Radix, binary, decimal, hexadecimal, Diagnostic, is_decimal, radix_value,
}
use cocktail_lang.Lex.NumericLiteral.{NumericLiteral}
use cocktail_lang.Lex.NumericLiteral.Digits.{is_nil}
use cocktail_lang.Lex.NumericLiteral.Parser.{Parser, new_parser, is_integer, check}

-- What `remove_copy_if` keeps.
unfoldable pub clean_digits : Bytes → Bytes
clean_digits [] = []
clean_digits (c ∷ cs) =
    let rest = clean_digits cs in if c == b'_' || c == b'.' then rest else c ∷ rest

-- The number of exponent units that a character of the fraction stands for.
abbrev pub excess_exponent : Parser → ℕ
excess_exponent p = elim p.radix [ hexadecimal ↦ size p.fract_part * 4 | _ ↦ size p.fract_part ]

-- The text from the start of the integer part to the end of the integer or the fractional part.
unfoldable pub mantissa_text : Parser → Bytes
unfolding is_integer
mantissa_text p =
    let text = p.literal.text in
    let last = if is_integer p then end_offset p.int_part else end_offset p.fract_part in
    take (last - p.int_part.begin) (drop (p.int_part.begin - text.begin) text.bytes)

pub data Value {ℓ} (A : Type ℓ) : Type ℓ where
  integer_value : A → Value A
  real_value : Radix → A → A → Value A
  unrecoverable_error : Value A

infixl 5 ◌>>=◌
abbrev pub ◌>>=◌ {ℓ κ} : {A : Type ℓ} {B : Type κ} → Option A → (A → Option B) → Option B
none >>= f = none
some a >>= f = f a

module _ (api : ApIntApi) where
  open api use {
    ApInt, bit_width, make, get_as_integer, zext, negate, subtract, is_sign_bit_set, set_sign_bit,
  }

  unfoldable pub parse_integer : Bytes → Radix → Bool → Option ApInt
  parse_integer digits radix needs_cleaning =
      get_as_integer (radix_value radix) (if needs_cleaning then clean_digits digits else digits)

  unfoldable pub get_mantissa : Parser → Option ApInt
  unfolding parse_integer mantissa_text
  get_mantissa p = parse_integer (mantissa_text p) p.radix p.mantissa_needs_cleaning

  -- The exponent that is written, with room for a sign, and its sign.
  unfoldable pub widen : ApInt → ApInt
  widen e =
      if is_sign_bit_set e || ltb (bit_width e) 64 then zext e (max 64 (bit_width e + 1)) else e

  unfoldable pub written_exponent : Parser → Option ApInt
  unfolding parse_integer widen
  written_exponent p = if is_nil p.exponent_part.bytes then some (make 64 0) else do
    e ← parse_integer p.exponent_part.bytes decimal p.exponent_needs_cleaning
    some (if p.exponent_is_negative then negate (widen e) else widen e)

  -- A negative exponent that the subtraction has made positive gets one more bit.
  unfoldable pub adjust_exponent : Parser → ApInt → ApInt
  adjust_exponent p e =
      let e' = subtract e (excess_exponent p) in
      if p.exponent_is_negative && not (is_sign_bit_set e')
      then set_sign_bit (zext e' (bit_width e' + 1))
      else e'

  unfoldable pub get_exponent : Parser → Option ApInt
  unfolding written_exponent adjust_exponent
  get_exponent p = do e ← written_exponent p; some (adjust_exponent p e)

  unfoldable pub value_of : Parser → Option (Value ApInt)
  unfolding get_mantissa get_exponent is_integer
  value_of p = if is_integer p then (do m ← get_mantissa p; some (integer_value m)) else do
    m ← get_mantissa p
    e ← get_exponent p
    some (real_value (if is_decimal p.radix then decimal else binary) m e)

  abbrev pub value_if : Parser × Bool → Option (Value ApInt) × List Diagnostic
  value_if (p, true) = (value_of p, p.emitted)
  value_if (p, false) = (some unrecoverable_error, p.emitted)

  -- `NumericLiteral::ComputeValue`, with what it emits.
  unfoldable pub compute_value : NumericLiteral → Option (Value ApInt) × List Diagnostic
  unfolding new_parser check value_of
  compute_value l = value_if (check (new_parser l))
