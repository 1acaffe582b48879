-- ===== src/Common/Unicode.antt =====
-- `StringRef::getAsInteger` into an `unsigned`, and the conversion of a code point to UTF-8, which
-- the sources use and do not implement: an interface with the documented behaviour that is used.
use cocktail_lang.Prelude.{ℕ, ◌^◌, ◌≤◌, ◌<◌, ◌≡◌, ◌≢◌, ◌⊎◌, Option, some, [], Bytes}
use cocktail_lang.Common.ApInt.{AllDigits, digits_value}

pub record UnicodeApi : Type 0 where
  -- `none` is the error that is reported by the result.
  pub get_as_unsigned : ℕ → Bytes → Option ℕ
  -- `none` is a result other than `conversionOK`.
  pub code_point_to_utf8 : ℕ → Option Bytes
  pub get_as_unsigned_fits :
      (radix : ℕ) (digits : Bytes)
      → digits ≢ []
      → AllDigits radix digits
      → digits_value radix 0 digits < 2 ^ 32
      → get_as_unsigned radix digits ≡ some (digits_value radix 0 digits)
  pub code_point_to_utf8_valid :
      (code : ℕ)
      → (code < 0xD800) ⊎ ((0xE000 ≤ code) × (code < 0x110000))
      → (bytes : Bytes) × (code_point_to_utf8 code ≡ some bytes)
