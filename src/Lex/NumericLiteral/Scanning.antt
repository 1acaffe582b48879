-- ===== src/Lex/NumericLiteral/Scanning.antt =====
-- What `NumericLiteral::Lex` finds.
use cocktail_lang.Prelude.{
  ℕ, zero, suc, ◌+◌, ◌<◌, ◌≡◌, refl, ◌∙◌, Bool, true, false, ◌||◌, ◌&&◌, not, none, some, [], ◌∷◌,
  ◌++◌, arith, Bytes, ◌==◌, length, get_elem?, Option-cases, Bool-cases, inl, inr, ap, append_assoc,
  append-nil, length-append,
}
use cocktail_lang.Common.CharacterSet.{is_alnum, is_lower}
use cocktail_lang.Lex.NumericLiteral.{Scan, next_is_alnum, scan_step, scan}

-- The characters that a numeric literal is made of.
abbrev pub is_literal_char : ℕ → Bool
is_literal_char c = is_alnum c || c == b'_' || c == b'.' || c == b'+' || c == b'-'

abbrev pub AllLiteralChars : Bytes → Type 0
AllLiteralChars [] = Unit
AllLiteralChars (c ∷ cs) = (is_literal_char c ≡ true) × AllLiteralChars cs

-- The character at a position has a property.
abbrev pub At : (ℕ → Bool) → Bytes → ℕ → Type 0
At p xs i = (c : ℕ) × (get_elem? xs i ≡ some c) × (p c ≡ true)

-- The state of the loop after the bytes `seen`.
pub record ScanInv (seen : Bytes) (s : Scan) : Type 0 where
  pub chars : AllLiteralChars seen
  pub nonempty : 0 < length seen
  pub point_pos : s.seen_radix_point ≡ true → 0 < s.radix_point
  pub point : s.seen_radix_point ≡ true → At (λ c. c == b'.') seen s.radix_point
  pub exponent_point : s.seen_potential_exponent ≡ true → s.seen_radix_point ≡ true
  pub exponent_after : s.seen_potential_exponent ≡ true → s.radix_point < s.exponent
  pub exponent_lower : s.seen_potential_exponent ≡ true → At is_lower seen s.exponent

-- No character that the loop would take follows.
abbrev pub StopsAt : Bytes → Type 0
StopsAt [] = Unit
StopsAt (c ∷ cs) = (is_alnum c || c == b'_') ≡ false

get_elem?-append :
    (xs ys : Bytes) (i : ℕ) {c : ℕ} → get_elem? xs i ≡ some c → get_elem? (xs ++ ys) i ≡ some c
get_elem?-append [] ys i h = cc
get_elem?-append (x ∷ xs) ys zero h = h
get_elem?-append (x ∷ xs) ys (suc i) h = get_elem?-append xs ys i h

get_elem?-concat : (xs : Bytes) (c : ℕ) → get_elem? (xs ++ c ∷ []) (length xs) ≡ some c
get_elem?-concat [] c = refl
get_elem?-concat (x ∷ xs) c = get_elem?-concat xs c

AllLiteralChars-concat :
    (xs : Bytes) (c : ℕ)
    → AllLiteralChars xs
    → is_literal_char c ≡ true
    → AllLiteralChars (xs ++ c ∷ [])
AllLiteralChars-concat [] c h k = (k, tt)
AllLiteralChars-concat (x ∷ xs) c h k = (h.0, AllLiteralChars-concat xs c h.1 k)

At-concat : (p : ℕ → Bool) (xs : Bytes) (c i : ℕ) → At p xs i → At p (xs ++ c ∷ []) i
At-concat p xs c i (d, e, h) = (d, get_elem?-append xs (c ∷ []) i e, h)

At-end : (p : ℕ → Bool) (xs : Bytes) (c i : ℕ) → p c ≡ true → i ≡ length xs → At p (xs ++ c ∷ []) i
At-end p xs c i h e = (c, rw e (get_elem?-concat xs c), h)

-- A character that is taken keeps the invariant, whatever the flags.
module _ (seen : Bytes) (s : Scan) (c : ℕ) (inv : ScanInv seen s)
    (ok : is_literal_char c ≡ true) where
  keep_state : ScanInv (seen ++ c ∷ []) s
  keep_state = record {
    chars = AllLiteralChars-concat seen c inv.chars ok;
    nonempty = omega (arith, length-append {0} seen (c ∷ []));
    point_pos = inv.point_pos;
    point = λ h. At-concat _ seen c s.radix_point (inv.point h);
    exponent_point = inv.exponent_point;
    exponent_after = inv.exponent_after;
    exponent_lower = λ h. At-concat _ seen c s.exponent (inv.exponent_lower h);
  }

  keep_sign : ScanInv (seen ++ c ∷ []) (record s { seen_plus_minus = true })
  keep_sign =
      let k = keep_state in
      record {
        chars = k.chars;
        nonempty = k.nonempty;
        point_pos = k.point_pos;
        point = k.point;
        exponent_point = k.exponent_point;
        exponent_after = k.exponent_after;
        exponent_lower = k.exponent_lower;
      }

pub At-lt : (p : ℕ → Bool) (xs : Bytes) (i : ℕ) → At p xs i → i < length xs
At-lt p [] i (c, e, h) = cc
At-lt p (x ∷ xs) zero h = omega arith
At-lt p (x ∷ xs) (suc i) (c, e, h) = omega (arith, At-lt p xs i (c, e, h))

module _ (seen : Bytes) (s : Scan) (c : ℕ) (inv : ScanInv seen s) where
  keep_exponent :
      is_alnum c ≡ true
      → is_lower c ≡ true
      → s.seen_radix_point ≡ true
      → ScanInv
          (seen ++ c ∷ [])
          (record s { exponent = length seen; seen_potential_exponent = true })
  keep_exponent alnum lower pointed =
      let k = keep_state seen s c inv (ground arith) in
      record {
        chars = k.chars;
        nonempty = k.nonempty;
        point_pos = k.point_pos;
        point = k.point;
        exponent_point = λ _. pointed;
        exponent_after = λ _. At-lt _ seen s.radix_point (inv.point pointed);
        exponent_lower = λ _. At-end is_lower seen c (length seen) lower refl;
      }

  keep_point :
      (c == b'.') ≡ true
      → s.seen_radix_point ≡ false
      → ScanInv (seen ++ c ∷ []) (record s { radix_point = length seen; seen_radix_point = true })
  keep_point dot pointless =
      let k = keep_state seen s c inv (ground arith) in
      record {
        chars = k.chars;
        nonempty = k.nonempty;
        point_pos = λ _. inv.nonempty;
        point = λ _. At-end _ seen c (length seen) dot refl;
        exponent_point = λ _. refl;
        exponent_after = λ h. cc (inv.exponent_point h);
        exponent_lower = k.exponent_lower;
      }

is_alnum_of_lower : (c : ℕ) → is_lower c ≡ true → is_alnum c ≡ true
unfolding is_lower is_alnum
is_alnum_of_lower c h = ground arith

scan_step-ScanInv :
    (seen : Bytes) (s : Scan) (c : ℕ) (rest : Bytes) {s' : Scan}
    → ScanInv seen s
    → scan_step s (length seen) c rest ≡ some s'
    → ScanInv (seen ++ c ∷ []) s'
unfolding scan_step
scan_step-ScanInv seen s c rest inv e = elim (Bool-cases (is_alnum c || c == b'_')) [
  | inl word ↦ elim (Bool-cases (is_lower c && s.seen_radix_point && not s.seen_plus_minus)) [
    | inl lower ↦ ground (
      arith,
      is_alnum_of_lower c,
      keep_exponent seen s c inv (is_alnum_of_lower c (ground arith)) (ground arith) (ground arith),
    )
    | inr other ↦ ground (arith, keep_state seen s c inv (ground arith))
  ]
  | inr other ↦ elim (Bool-cases (c == b'.' && next_is_alnum rest && not s.seen_radix_point)) [
    | inl dot ↦ ground (arith, keep_point seen s c inv (ground arith) (ground arith))
    | inr plain ↦ ground (arith, keep_sign seen s c inv)
  ]
]

-- The text splits where the loop ends.
pub record Scanned (seen rest : Bytes) (r : Scan × ℕ) : Type 0 where
  pub took : Bytes
  pub left : Bytes
  pub splits : rest ≡ took ++ left
  pub ends : r.1 ≡ length (seen ++ took)
  pub inv : ScanInv (seen ++ took) r.0
  pub stops : StopsAt left

scan_stops : (s : Scan) (i c : ℕ) (rest : Bytes) → scan_step s i c rest ≡ none → StopsAt (c ∷ rest)
unfolding scan_step
scan_stops s i c rest e = ground arith

pub scan-Scanned :
    (rest seen : Bytes) (s : Scan) (i : ℕ)
    → i ≡ length seen
    → ScanInv seen s
    → Scanned seen rest (scan s i rest)
unfolding scan
scan-Scanned [] seen s i e inv = record {
  took = [];
  left = [];
  splits = refl;
  ends = rw append-nil e;
  inv = rw append-nil inv;
  stops = tt;
}
scan-Scanned (c ∷ rest) seen s i e inv = elim (Option-cases (scan_step s i c rest)) [
  | inl stop ↦
      rw (stop, scan)
        (record {
          took = [];
          left = c ∷ rest;
          splits = refl;
          ends = rw append-nil e;
          inv = rw append-nil inv;
          stops = scan_stops s i c rest stop;
        })
  | inr (s', go) ↦
      let kept = scan_step-ScanInv seen s c rest inv (rw e at go) in
      let r =
        scan-Scanned rest (seen ++ c ∷ []) s' (i + 1)
          (omega (arith, length-append {0} seen (c ∷ []))) kept in
      rw (go, scan)
        (record {
          took = c ∷ r.took;
          left = r.left;
          splits = ap (◌∷◌ c) r.splits;
          ends = r.ends ∙ ap length (append_assoc seen (c ∷ []) r.took);
          inv = rw append_assoc at r.inv;
          stops = r.stops;
        })
]
