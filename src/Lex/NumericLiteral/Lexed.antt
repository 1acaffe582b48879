-- ===== src/Lex/NumericLiteral/Lexed.antt =====
-- What `NumericLiteral::Lex` promises.
use mathlib.Core.Option.{some-injective}
use mathlib.Core.Path.{subst}
use cocktail_lang.Prelude.{
  ℕ, ◌≤◌, ◌<◌, ◌≡◌, refl, ◌∙◌, true, some, [], ◌∷◌, ◌++◌, arith, Bytes, ◌==◌, length, take,
  if◌then◌else◌, Bool-cases, inl, inr, ap, take_all,
}
use cocktail_lang.Common.CharacterSet.{is_alnum, is_lower, is_decimal_digit}
use cocktail_lang.Common.StringRef.{StringRef}
use cocktail_lang.Lex.NumericLiteral.{
  NumericLiteral, Scan, scan, initial_scan, finish_scan, lex_bytes, lex_numeric,
}
use cocktail_lang.Lex.NumericLiteral.Scanning.{
  AllLiteralChars, At, ScanInv, StopsAt, At-lt, Scanned, scan-Scanned,
}

-- What is promised of a literal: its text is a part of the source from its start that ends where
-- no letter, digit or `_` follows, it is made of literal characters, and its offsets mark a `.`
-- and, behind it, a lower case letter, or the end of the text.
pub record IsLexed (source : StringRef) (l : NumericLiteral) : Type 0 where
  pub begin : l.text.begin ≡ source.begin
  pub left : Bytes
  pub splits : source.bytes ≡ l.text.bytes ++ left
  pub stops : StopsAt left
  pub chars : AllLiteralChars l.text.bytes
  pub starts : At is_decimal_digit l.text.bytes 0
  pub point_pos : 0 < l.radix_point
  pub point_le : l.radix_point ≤ l.exponent
  pub exponent_le : l.exponent ≤ length l.text.bytes
  pub point : l.radix_point < length l.text.bytes → At (λ c. c == b'.') l.text.bytes l.radix_point
  pub exponent :
      l.exponent < length l.text.bytes
      → (l.radix_point < l.exponent) × At is_lower l.text.bytes l.exponent

is_alnum_of_digit : (c : ℕ) → is_decimal_digit c ≡ true → is_alnum c ≡ true
unfolding is_decimal_digit is_alnum
is_alnum_of_digit c h = ground arith

-- The two offsets that `Lex` stores when the loop has ended behind the bytes `seen`.
module _ (seen : Bytes) (s : Scan) (i : ℕ) (e : i ≡ length seen) (inv : ScanInv seen s) where
  stored_pos : 0 < (if s.seen_radix_point then s.radix_point else i)
  stored_pos = ground (arith, inv.point_pos, inv.nonempty)

  point_in : s.seen_radix_point ≡ true → s.radix_point < length seen
  point_in h = At-lt _ seen s.radix_point (inv.point h)

  exponent_in : s.seen_potential_exponent ≡ true → s.exponent < length seen
  exponent_in h = At-lt _ seen s.exponent (inv.exponent_lower h)

  stored_le :
      (if s.seen_radix_point then s.radix_point else i)
      ≤ (if s.seen_potential_exponent then s.exponent else i)
  stored_le = elim (Bool-cases s.seen_potential_exponent) [
    | inl h ↦ rw (h, inv.exponent_point h) (omega (arith, inv.exponent_after h))
    | inr h ↦ elim (Bool-cases s.seen_radix_point) [
      | inl k ↦ rw (h, k) (omega (arith, point_in k))
      | inr k ↦ rw (h, k) (omega arith)
    ]
  ]

  stored_exponent_le : (if s.seen_potential_exponent then s.exponent else i) ≤ length seen
  stored_exponent_le = elim (Bool-cases s.seen_potential_exponent) [
    | inl h ↦ rw h (omega (arith, exponent_in h))
    | inr h ↦ rw h (omega arith)
  ]

  stored_point :
      (if s.seen_radix_point then s.radix_point else i) < length seen
      → At (λ c. c == b'.') seen (if s.seen_radix_point then s.radix_point else i)
  stored_point = elim (Bool-cases s.seen_radix_point) [
    | inl h ↦ rw h (λ _. inv.point h)
    | inr h ↦ rw h (λ lt. absurd (omega arith))
  ]

  stored_exponent :
      (if s.seen_potential_exponent then s.exponent else i) < length seen
      → ((if s.seen_radix_point then s.radix_point else i)
          < (if s.seen_potential_exponent then s.exponent else i))
        × At is_lower seen (if s.seen_potential_exponent then s.exponent else i)
  stored_exponent = elim (Bool-cases s.seen_potential_exponent) [
    | inl h ↦ rw (h, inv.exponent_point h) (λ _. (inv.exponent_after h, inv.exponent_lower h))
    | inr h ↦ rw h (λ lt. absurd (omega arith))
  ]

finish_scan-IsLexed :
    (source : StringRef) (c : ℕ) (rest : Bytes)
    → source.bytes ≡ c ∷ rest
    → is_decimal_digit c ≡ true
    → (r : Scan × ℕ) → Scanned (c ∷ []) rest r
    → IsLexed source (finish_scan source r)
finish_scan-IsLexed source c rest e digit (s, i) r =
    let seen : Bytes = c ∷ r.took in
    let whole : source.bytes ≡ seen ++ r.left = e ∙ ap (◌∷◌ c) r.splits in
    let text : take i source.bytes ≡ seen = rw whole (take_all seen r.left i r.ends) in
    rw text (record {
      begin = omega arith;
      left = r.left;
      splits = whole;
      stops = r.stops;
      chars = r.inv.chars;
      starts = (c, refl, digit);
      point_pos = stored_pos seen s i r.ends r.inv;
      point_le = stored_le seen s i r.ends r.inv;
      exponent_le = stored_exponent_le seen s i r.ends r.inv;
      point = stored_point seen s i r.ends r.inv;
      exponent = stored_exponent seen s i r.ends r.inv;
    })

initial-ScanInv : (c : ℕ) → is_decimal_digit c ≡ true → ScanInv (c ∷ []) initial_scan
initial-ScanInv c h = record {
  chars = (ground (arith, is_alnum_of_digit c h), tt);
  nonempty = omega arith;
  point_pos = λ h. cc;
  point = λ h. absurd (cc);
  exponent_point = λ h. cc;
  exponent_after = λ h. cc;
  exponent_lower = λ h. absurd (cc);
}

lex_bytes-IsLexed :
    (source : StringRef) (bytes : Bytes) {l : NumericLiteral}
    → source.bytes ≡ bytes
    → lex_bytes source bytes ≡ some l
    → IsLexed source l
unfolding lex_bytes
lex_bytes-IsLexed source [] e h = absurd (cc)
lex_bytes-IsLexed source (c ∷ rest) e h = elim (Bool-cases (is_decimal_digit c)) [
  | inl digit ↦ subst (IsLexed source) (some-injective _ _ (rw (digit, lex_bytes) at h)) (
      finish_scan-IsLexed source c rest e digit (scan initial_scan 1 rest)
        (scan-Scanned rest (c ∷ []) initial_scan 1 (omega arith) (initial-ScanInv c digit)))
  | inr other ↦ absurd (cc (rw (other, lex_bytes) at h))
]

-- A literal that `Lex` returns is as `IsLexed` says: its text is the start of the source up to a
-- place where no letter, digit or `_` follows, it starts with a digit and has literal characters
-- only, and 0 < radix_point ≤ exponent ≤ size, where radix_point marks a `.` unless it is the size,
-- and exponent marks a lower case letter behind the `.` unless it is the size.
pub lex_numeric-IsLexed :
    (source : StringRef) {l : NumericLiteral} → lex_numeric source ≡ some l → IsLexed source l
unfolding lex_numeric
lex_numeric-IsLexed source h = lex_bytes-IsLexed source source.bytes refl h
