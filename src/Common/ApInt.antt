-- ===== src/Common/ApInt.antt =====
-- `llvm::APInt` and `StringRef::getAsInteger`, which the sources use and do not implement: integers
-- of a width, as an interface with the documented behaviour of the operations that are called.
use cocktail_lang.Prelude.{
  ℕ, ◌+◌, ◌-◌, ◌*◌, ◌%◌, ◌^◌, ◌≤◌, ◌<◌, Bool, true, ◌&&◌, Option, some, [], ◌∷◌, ◌≡◌, ◌≢◌, ◌⊎◌,
  Bytes, if◌then◌else◌, leb, ltb,
}
use cocktail_lang.Common.CharacterSet.{within}

-- The value of a digit, for the characters that stand for digits in the sources.
abbrev pub digit_value : ℕ → ℕ
digit_value c = if within b'0' b'9' c then c - b'0' else c - b'A' + 10

-- The characters that are digits of a radix up to 16.
abbrev pub IsDigitOf : ℕ → ℕ → Type 0
IsDigitOf radix c =
    ((within b'0' b'9' c && ltb (digit_value c) radix) ≡ true)
    ⊎ ((within b'A' b'F' c && ltb (digit_value c) radix) ≡ true)

abbrev pub AllDigits : ℕ → Bytes → Type 0
AllDigits radix [] = Unit
AllDigits radix (c ∷ cs) = IsDigitOf radix c × AllDigits radix cs

-- The number that a row of digits stands for, most significant digit first.
abbrev pub digits_value : ℕ → ℕ → Bytes → ℕ
digits_value radix acc [] = acc
digits_value radix acc (c ∷ cs) = digits_value radix (acc * radix + digit_value c) cs

pub record ApIntApi : Type 1 where
  pub ApInt : Type 0
  pub bit_width : ApInt → ℕ
  pub to_unsigned : ApInt → ℕ
  -- APInt(width, value)
  pub make : ℕ → ℕ → ApInt
  -- `none` is the error that `getAsInteger` reports by its result.
  pub get_as_integer : ℕ → Bytes → Option ApInt
  pub zext : ApInt → ℕ → ApInt
  pub negate : ApInt → ApInt
  -- operator-=(uint64_t)
  pub subtract : ApInt → ℕ → ApInt
  pub is_sign_bit_set : ApInt → Bool
  pub set_sign_bit : ApInt → ApInt
  pub unsigned_lt : (a : ApInt) → to_unsigned a < 2 ^ bit_width a
  pub width_pos : (a : ApInt) → 0 < bit_width a
  pub make_lem :
      (w v : ℕ) → 0 < w → (bit_width (make w v) ≡ w) × (to_unsigned (make w v) ≡ v % 2 ^ w)
  pub get_as_integer_lem :
      (radix : ℕ) (digits : Bytes)
      → digits ≢ []
      → AllDigits radix digits
      → (a : ApInt) × (get_as_integer radix digits ≡ some a)
        × (to_unsigned a ≡ digits_value radix 0 digits)
  pub zext_lem :
      (a : ApInt) (w : ℕ)
      → bit_width a ≤ w
      → (bit_width (zext a w) ≡ w) × (to_unsigned (zext a w) ≡ to_unsigned a)
  pub negate_lem :
      (a : ApInt)
      → (bit_width (negate a) ≡ bit_width a)
        × (to_unsigned (negate a) ≡ (2 ^ bit_width a - to_unsigned a) % 2 ^ bit_width a)
  pub subtract_lem :
      (a : ApInt) (k : ℕ)
      → k < 2 ^ bit_width a
      → (bit_width (subtract a k) ≡ bit_width a)
        × (to_unsigned (subtract a k) ≡ (to_unsigned a + 2 ^ bit_width a - k) % 2 ^ bit_width a)
  pub is_sign_bit_set_lem :
      (a : ApInt) → is_sign_bit_set a ≡ leb (2 ^ (bit_width a - 1)) (to_unsigned a)
  pub set_sign_bit_lem :
      (a : ApInt)
      → to_unsigned a < 2 ^ (bit_width a - 1)
      → (bit_width (set_sign_bit a) ≡ bit_width a)
        × (to_unsigned (set_sign_bit a) ≡ to_unsigned a + 2 ^ (bit_width a - 1))
