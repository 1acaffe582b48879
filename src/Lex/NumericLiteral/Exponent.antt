-- ===== src/Lex/NumericLiteral/Exponent.antt =====
-- The exponent of a real literal does not overflow.
use native.Mathlib.Nat.{pow-suc, pow-le-pow_right, mod-eq_of_lt, mod-eq-sub-mod}
use cocktail_lang.Prelude.{
  ℕ, zero, suc, ◌+◌, ◌-◌, ◌*◌, ◌^◌, ◌%◌, ◌≤◌, ◌<◌, ◌≡◌, ◌≢◌, refl, ◌∙◌, some, [], Bytes, true,
  false, ◌||◌, inl, inr, Bool-cases, if◌then◌else◌, arith, ltb, leb, leb→le, leb→gt, max,
}
use native.Mathlib.Decide.{dec_lt}
use cocktail_lang.Prelude.Int.{ℤ, sub_ℕ, sub_ℕ_eq}
use cocktail_lang.Common.ApInt.{ApIntApi, AllDigits, digits_value}
use cocktail_lang.Lex.NumericLiteral.Parser.{Parser}
use cocktail_lang.Lex.NumericLiteral.Value.{
  excess_exponent, widen, adjust_exponent, clean_digits, get_exponent, written_exponent,
  parse_integer,
}
use cocktail_lang.Lex.NumericLiteral.Digits.{is_nil}
use cocktail_lang.Lex.Diagnostic.{binary, decimal, hexadecimal}
use cocktail_lang.Common.StringRef.{size}

pow_pred : (w : ℕ) → 0 < w → 2 ^ w ≡ 2 * 2 ^ (w - 1)
pow_pred zero h = absurd (omega arith)
pow_pred (suc w) h = let e : suc w - 1 ≡ w = omega arith in rw e (omega (arith, pow-suc 2 w))

pow_ge : (w : ℕ) → 64 ≤ w → 2 ^ 63 ≤ 2 ^ (w - 1)
pow_ge w h = pow-le-pow_right {n = 2} (omega arith) {i = 63} {j = w - 1} (omega arith)

-- A number below twice the modulus, reduced.
mod_wrap : (a m : ℕ) → m ≤ a → a < m + m → a % m ≡ a - m
mod_wrap a m h k = mod-eq-sub-mod h ∙ mod-eq_of_lt (omega arith)

-- The units that the characters of the fraction stand for.
abbrev pub fraction_units : Parser → ℕ
fraction_units p = elim p.radix [
  | binary ↦ size p.fract_part
  | decimal ↦ size p.fract_part
  | hexadecimal ↦ 4 * size p.fract_part
]

excess_exponent_lem : (p : Parser) → excess_exponent p ≡ fraction_units p
excess_exponent_lem p = ground arith

module _ (api : ApIntApi) where
  open api use {
    ApInt, bit_width, to_unsigned, zext, negate, subtract, is_sign_bit_set, set_sign_bit,
  }

  -- The integer that the bits stand for in two's complement.
  abbrev pub signed : ApInt → ℤ
  signed a =
      if is_sign_bit_set a then sub_ℕ (to_unsigned a) (2 ^ bit_width a) else sub_ℕ (to_unsigned a) 0

  -- A non-negative value with at least 64 bits.
  pub record IsRoomy (a : ApInt) : Type 0 where
    pub wide : 64 ≤ bit_width a
    pub below : to_unsigned a < 2 ^ (bit_width a - 1)

  sign_clear : (a : ApInt) → to_unsigned a < 2 ^ (bit_width a - 1) → is_sign_bit_set a ≡ false
  sign_clear a h = api.is_sign_bit_set_lem a ∙ ground arith

  sign_set : (a : ApInt) → 2 ^ (bit_width a - 1) ≤ to_unsigned a → is_sign_bit_set a ≡ true
  sign_set a h = api.is_sign_bit_set_lem a ∙ ground arith

  below_of_clear : (a : ApInt) → is_sign_bit_set a ≡ false → to_unsigned a < 2 ^ (bit_width a - 1)
  below_of_clear a h = ground (arith, api.is_sign_bit_set_lem a)

  zext-IsRoomy :
      (a : ApInt) (w : ℕ)
      → 64 ≤ w
      → bit_width a < w
      → IsRoomy (zext a w) × (to_unsigned (zext a w) ≡ to_unsigned a)
  zext-IsRoomy a w h k =
      let (width, same) = api.zext_lem a w (omega arith) in
      let fits =
        pow-le-pow_right {n = 2} (omega arith) {i = bit_width a} {j = w - 1} (omega arith) in
      (
        record {
          wide = omega arith;
          below = rw (width, same) (omega (arith, api.unsigned_lt a, fits));
        },
        same,
      )

  -- Widening keeps the value and makes room for a sign.
  pub widen-IsRoomy :
      (e : ApInt) → IsRoomy (widen api e) × (to_unsigned (widen api e) ≡ to_unsigned e)
  unfolding widen
  widen-IsRoomy e = elim (Bool-cases (is_sign_bit_set e || ltb (bit_width e) 64)) [
    | inl grow ↦ rw grow (zext-IsRoomy e (max 64 (bit_width e + 1)) (omega arith) (omega arith))
    | inr keep ↦
        rw keep (record { wide = ground arith; below = below_of_clear e (ground arith) }, refl)
  ]

  signed_of_set :
      (a : ApInt) → is_sign_bit_set a ≡ true → signed a ≡ sub_ℕ (to_unsigned a) (2 ^ bit_width a)
  signed_of_set a h = rw h

  signed_clear :
      (a : ApInt) → to_unsigned a < 2 ^ (bit_width a - 1) → signed a ≡ sub_ℕ (to_unsigned a) 0
  signed_clear a h = rw (sign_clear a h)

  signed_set :
      (a : ApInt)
      → 2 ^ (bit_width a - 1) ≤ to_unsigned a
      → signed a ≡ sub_ℕ (to_unsigned a) (2 ^ bit_width a)
  signed_set a h = rw (sign_set a h)

  -- The bits of the exponent when the excess k is taken off, for a written exponent x.
  module _ (a : ApInt) (x k : ℕ) (roomy : IsRoomy a) (value : to_unsigned a ≡ x)
      (small : k ≤ 2 ^ 63) where
    half : ℕ
    half = 2 ^ (bit_width a - 1)

    whole : 2 ^ bit_width a ≡ half + half
    unfolding half
    whole = omega (arith, pow_pred (bit_width a) (omega (arith, roomy.wide)))

    k_fits : k ≤ half
    unfolding half
    k_fits = omega (arith, pow_ge (bit_width a) roomy.wide)

    x_fits : x < half
    unfolding half
    x_fits = omega (arith, roomy.below)

    k_below : k < 2 ^ bit_width a
    k_below = omega (arith, whole, k_fits, x_fits)

    subtract_bits : to_unsigned (subtract a k) ≡ (if leb k x then x - k else x + half + half - k)
    subtract_bits = elim (Bool-cases (leb k x)) [
      | inl le ↦ rw le (
          (api.subtract_lem a k k_below).1
          ∙ mod_wrap _ _ (omega (arith, leb→le k x le)) (omega (arith, whole, x_fits))
          ∙ omega (arith, leb→le k x le))
      | inr gt ↦ rw gt (
          (api.subtract_lem a k k_below).1
          ∙ mod-eq_of_lt (omega (arith, leb→gt k x gt, whole, k_fits))
          ∙ omega (arith, whole))
    ]

    -- A positive exponent, less the excess.
    signed_subtract : signed (subtract a k) ≡ sub_ℕ x k
    unfolding half
    signed_subtract = elim (Bool-cases (leb k x)) [
      | inl le ↦
          let bits : to_unsigned (subtract a k) ≡ x - k = rw le at subtract_bits in
          signed_clear (subtract a k)
            (rw (api.subtract_lem a k k_below).0 (omega (arith, bits, x_fits)))
          ∙ sub_ℕ_eq _ 0 x k (omega (arith, bits, leb→le k x le))
      | inr gt ↦
          let bits : to_unsigned (subtract a k) ≡ x + half + half - k = rw gt at subtract_bits in
          signed_set (subtract a k)
            (rw (api.subtract_lem a k k_below).0 (omega (arith, bits, k_fits)))
          ∙ rw (api.subtract_lem a k k_below).0
              (sub_ℕ_eq _ _ x k (omega (arith, bits, whole, k_fits)))
    ]

    negate_width : bit_width (negate a) ≡ bit_width a
    negate_width = (api.negate_lem a).0

    negate_bits : to_unsigned (negate a) ≡ (half + half - x) % (half + half)
    negate_bits = (api.negate_lem a).1 ∙ rw (whole, value)

    k_below_negate : k < 2 ^ bit_width (negate a)
    k_below_negate = rw negate_width k_below

    negated : ApInt
    negated = subtract (negate a) k

    negated_width : bit_width negated ≡ bit_width a
    unfolding negated
    negated_width = (api.subtract_lem (negate a) k k_below_negate).0 ∙ negate_width

    negated_bits : 0 < k → to_unsigned negated ≡ half + half - (x + k)
    unfolding negated
    negated_bits pos_k =
        (api.subtract_lem (negate a) k k_below_negate).1
        ∙ rw (negate_width, whole, negate_bits)
            (elim (dec_lt 0 x) [
              | yes pos_x ↦
                  rw (mod-eq_of_lt {n = half + half - x} {m = half + half} (omega (arith, x_fits)))
                    (mod_wrap _ _ (omega (arith, x_fits, k_fits)) (omega (arith, x_fits, k_fits))
                      ∙ omega (arith, x_fits, k_fits))
              | no zero_x ↦
                  let e : half + half - x ≡ half + half = omega arith in
                  rw e (
                    rw (mod_wrap (half + half) (half + half) (omega arith) (omega (arith, x_fits)))
                      (mod-eq_of_lt (omega (arith, x_fits, k_fits))
                        ∙ omega (arith, x_fits, k_fits)))
            ])

    negated_set : 0 < k → is_sign_bit_set negated ≡ true → signed negated ≡ sub_ℕ 0 (x + k)
    negated_set pos_k set_bit =
        signed_of_set negated set_bit
        ∙ rw negated_width
            (sub_ℕ_eq _ _ 0 (x + k) (omega (arith, negated_bits pos_k, whole, x_fits, k_fits)))

    -- With one more bit, and that bit set, a value that has wrapped around is the right one.
    negated_clear :
        0 < k → signed (set_sign_bit (zext negated (bit_width negated + 1))) ≡ sub_ℕ 0 (x + k)
    negated_clear pos_k =
        let w = bit_width negated + 1 in
        let z = zext negated w in
        let (zw, zu) = api.zext_lem negated w (omega arith) in
        let e : bit_width z - 1 ≡ bit_width a = rw zw (omega (arith, negated_width)) in
        let fits : to_unsigned z < 2 ^ (bit_width z - 1) =
          rw e (omega (arith, zu, negated_bits pos_k, whole, x_fits, k_fits)) in
        let (sw, su) = api.set_sign_bit_lem z fits in
        let low : to_unsigned (set_sign_bit z) ≡ half + half - (x + k) + (half + half) =
          su ∙ rw (e, whole) (omega (arith, zu, negated_bits pos_k)) in
        let width : 2 ^ bit_width (set_sign_bit z) ≡ half + half + (half + half) =
          rw sw (pow_pred (bit_width z) (omega arith) ∙ rw (e, whole) (omega arith)) in
        signed_set (set_sign_bit z) (rw (sw, e) (omega (arith, low, whole)))
        ∙ rw (width, low) (sub_ℕ_eq _ _ 0 (x + k) (omega (arith, x_fits, k_fits)))

  -- The exponent that is written, less the excess.
  adjust_exponent_exact :
      (p : Parser) (e : ApInt)
      → excess_exponent p ≤ 2 ^ 63
      → (p.exponent_is_negative ≡ true → 0 < excess_exponent p)
      → signed (
          adjust_exponent api p
            (if p.exponent_is_negative then negate (widen api e) else widen api e))
        ≡ (if p.exponent_is_negative
            then sub_ℕ 0 (to_unsigned e + excess_exponent p)
            else sub_ℕ (to_unsigned e) (excess_exponent p))
  unfolding adjust_exponent negated
  adjust_exponent_exact p e small pos_k =
      let k = excess_exponent p in
      let (roomy, same) = widen-IsRoomy e in
      elim (Bool-cases p.exponent_is_negative) [
        | inr plus ↦ rw plus (signed_subtract (widen api e) (to_unsigned e) k roomy same small)
        | inl minus ↦ elim (Bool-cases (is_sign_bit_set (subtract (negate (widen api e)) k))) [
          | inl set_bit ↦
              rw (minus, set_bit)
                (negated_set (widen api e) (to_unsigned e) k roomy same small (pos_k minus) set_bit)
          | inr clear ↦
              rw (minus, clear)
                (negated_clear (widen api e) (to_unsigned e) k roomy same small (pos_k minus))
        ]
      ]

  -- The number that is written as the exponent.
  pub data Written (p : Parser) : ℕ → Type 0 where
    no_exponent : is_nil p.exponent_part.bytes ≡ true → p.exponent_is_negative ≡ false → Written p 0
    reads :
        (digits : Bytes)
        → is_nil p.exponent_part.bytes ≡ false
        → (if p.exponent_needs_cleaning
            then clean_digits p.exponent_part.bytes
            else p.exponent_part.bytes)
          ≡ digits
        → digits ≢ []
        → AllDigits 10 digits
        → Written p (digits_value 10 0 digits)

  -- For a written exponent x and the k units that the characters of the fraction stand for, which are
  -- at most 2 ^ 63, and some if the sign is `-`, `GetExponent` returns, and its bits stand for x - k,
  -- or for -(x + k) if the sign is `-`. A character of the fraction is four units in radix 16, and one
  -- in the others.
  pub get_exponent_exact :
      (p : Parser) (x : ℕ)
      → Written p x
      → fraction_units p ≤ 2 ^ 63
      → (p.exponent_is_negative ≡ true → 0 < fraction_units p)
      → (r : ApInt) × (get_exponent api p ≡ some r)
        × (signed r ≡ (
            if p.exponent_is_negative
            then sub_ℕ 0 (x + fraction_units p)
            else sub_ℕ x (fraction_units p)))
  unfolding get_exponent written_exponent parse_integer adjust_exponent
  get_exponent_exact p _ (no_exponent empty plus) small pos_k =
      let zero_exponent = api.make 64 0 in
      let (w, v) = api.make_lem 64 0 (omega arith) in
      let value : to_unsigned zero_exponent ≡ 0 =
        v ∙ mod-eq_of_lt {n = 0} {m = 2 ^ 64} (omega arith) in
      let roomy : IsRoomy zero_exponent = record {
        wide = omega (arith, w);
        below = rw (w, value) (omega arith);
      } in
      (
        adjust_exponent api p zero_exponent,
        rw (empty, written_exponent) refl,
        rw (plus, ← excess_exponent_lem p)
            (signed_subtract zero_exponent 0 (excess_exponent p) roomy value
              (rw (excess_exponent_lem p) small)),
      )
  get_exponent_exact p _ (reads digits some_text cleaned nonempty decimals) small pos_k =
      let (e, parses, value) = api.get_as_integer_lem 10 digits nonempty decimals in
      (
        adjust_exponent api p
            (if p.exponent_is_negative then negate (widen api e) else widen api e),
        rw (some_text, cleaned, parses, written_exponent, parse_integer) refl,
        rw (← value, ← excess_exponent_lem p)
            (adjust_exponent_exact p e (rw (excess_exponent_lem p) small)
              (λ minus. rw (excess_exponent_lem p) (pos_k minus))),
      )
