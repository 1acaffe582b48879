-- ===== src/Lex/Identifier/Vector.antt =====
-- The vector code finds the prefix that the scalar code finds.
use cocktail_lang.Prelude.{
  ℕ, zero, suc, ◌+◌, ◌≤◌, ◌<◌, ◌≡◌, refl, ◌∙◌, ap, true, false, not, ◌&&◌, ◌||◌, [], ◌∷◌, ◌++◌,
  Bytes, if◌then◌else◌, ◌==◌, leb, leb→le, leb→gt, length, take, drop, arith, Bool-cases, inl, inr,
  all_below, all_below_sound, take-append-drop, length-take, length-drop, sym,
}
use cocktail_lang.Lex.Identifier.{
  is_id_byte, scalar_scan, lane_mask, all_ascii, first_zero_lane, vector_scan,
  scan_for_identifier_prefix,
}

-- Over ASCII the two tables mark the identifier bytes.
tables_agree :
    all_below 128
      (λ b. (is_id_byte b && not (lane_mask b == 0)) || (not (is_id_byte b) && lane_mask b == 0))
    ≡ true
unfolding all_below is_id_byte lane_mask
tables_agree = refl

lane_mask-is_id_byte : (b : ℕ) → b < 128 → (lane_mask b == 0) ≡ not (is_id_byte b)
lane_mask-is_id_byte b h = ground (
  arith,
  all_below_sound 128
      (λ b. (is_id_byte b && not (lane_mask b == 0)) || (not (is_id_byte b) && lane_mask b == 0)) b
      tables_agree h,
)

first_zero_lane-scalar_scan :
    (block : Bytes) → all_ascii block ≡ true → first_zero_lane block ≡ scalar_scan block
unfolding first_zero_lane scalar_scan all_ascii
first_zero_lane-scalar_scan [] h = refl
first_zero_lane-scalar_scan (c ∷ cs) h = elim (Bool-cases (leb 0x80 c)) [
  | inl high ↦ absurd (cc (rw high at h))
  | inr low ↦
      let ih = first_zero_lane-scalar_scan cs (rw low at h) in
      rw (lane_mask-is_id_byte c (leb→gt 0x80 c low), ih)
        (elim (is_id_byte c)
          as (λ b.
            (if not b then 0 else suc (scalar_scan cs)) ≡ (if b then suc (scalar_scan cs) else 0)) [
              | true ↦ refl
              | false ↦ refl
            ])
]

-- The prefix ends in the first of two blocks, or goes on in the second.
scalar_scan-append :
    (xs ys : Bytes)
    → scalar_scan (xs ++ ys)
      ≡ (if scalar_scan xs == length xs then length xs + scalar_scan ys else scalar_scan xs)
unfolding scalar_scan
scalar_scan-append [] ys = omega arith
scalar_scan-append (c ∷ cs) ys = ground (arith, scalar_scan-append cs ys)

scalar_scan-le : (text : Bytes) → scalar_scan text ≤ length text
unfolding scalar_scan
scalar_scan-le [] = omega arith
scalar_scan-le (c ∷ cs) = ground (arith, scalar_scan-le cs)

scalar_scan_blocks :
    (text : Bytes)
    → 16 ≤ length text
    → scalar_scan text ≡ (
        if scalar_scan (take 16 text) == 16
        then 16 + scalar_scan (drop 16 text)
        else scalar_scan (take 16 text))
scalar_scan_blocks text h =
    ap scalar_scan (sym (take-append-drop 16 text))
    ∙ scalar_scan-append (take 16 text) (drop 16 text)
    ∙ rw (length-take 16 text h)

-- With the number of bytes for fuel the vector code finds the length of the longest prefix of
-- identifier bytes, which is what the scalar code finds.
vector_scan-scalar_scan :
    (fuel : ℕ) (text : Bytes) → length text ≤ fuel → vector_scan fuel text ≡ scalar_scan text
unfolding vector_scan
vector_scan-scalar_scan zero text h = omega (arith, scalar_scan-le text)
vector_scan-scalar_scan (suc fuel) text h = elim (Bool-cases (leb 16 (length text))) [
  | inr short ↦ ground arith
  | inl long ↦ elim (Bool-cases (all_ascii (take 16 text))) [
    | inr high ↦ ground arith
    | inl ascii ↦
        let lanes = first_zero_lane-scalar_scan (take 16 text) ascii in
        let blocks = scalar_scan_blocks text (leb→le _ _ long) in
        let rest =
          vector_scan-scalar_scan fuel (drop 16 text)
            (omega (arith, length-drop {0} 16 text, leb→le _ _ long)) in
        ground (arith, lanes, blocks, rest)
  ]
]

-- `ScanForIdentifierPrefix` returns the longest prefix of identifier bytes, whichever blocks of 16
-- bytes the vector code reads: the prefix that the scalar table gives.
pub scan_for_identifier_prefix-scalar :
    (text : Bytes) → scan_for_identifier_prefix text ≡ take (scalar_scan text) text
unfolding scan_for_identifier_prefix
scan_for_identifier_prefix-scalar text =
    ap (λ n. take n text) (vector_scan-scalar_scan (length text) text (omega arith))
