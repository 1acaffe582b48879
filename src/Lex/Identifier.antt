-- ===== src/Lex/Identifier.antt =====
-- `ScanForIdentifierPrefix` of lib/Lex/TokenizedBuffer.cc: the scalar table, and the code for
-- x86-64 that classifies 16 bytes at once by two tables of 16 entries. A vector is a list of bytes;
-- the intrinsics are written out for one byte.
pub mod Vector
use Prim.Native.Nat.{bit_and}
use cocktail_lang.Prelude.{
  ℕ, zero, suc, ◌+◌, ◌/◌, ◌%◌, Bool, true, false, ◌||◌, List, [], ◌∷◌, Bytes, if◌then◌else◌, ◌==◌,
  leb, length, take, drop, get_or,
}
use cocktail_lang.Common.CharacterSet.{within}

-- `IsIdByteTable`
unfoldable pub is_id_byte : ℕ → Bool
is_id_byte c = within b'0' b'9' c || within b'A' b'Z' c || within b'a' b'z' c || c == b'_'

-- The length of the longest prefix of identifier bytes, one byte at a time.
unfoldable pub scalar_scan : Bytes → ℕ
scalar_scan [] = 0
scalar_scan (c ∷ cs) = let rest = scalar_scan cs in if is_id_byte c then suc rest else 0

abbrev pub high_lut : List ℕ
high_lut =
    0b0000 ∷ 0b0000 ∷ 0b0000 ∷ 0b0010 ∷ 0b0100 ∷ 0b1001 ∷ 0b0100 ∷ 0b1000 ∷ 0b0000 ∷ 0b0000 ∷ 0b0000
    ∷ 0b0000 ∷ 0b0000 ∷ 0b0000 ∷ 0b0000 ∷ 0b0000 ∷ []

abbrev pub low_lut : List ℕ
low_lut =
    0b1010 ∷ 0b1110 ∷ 0b1110 ∷ 0b1110 ∷ 0b1110 ∷ 0b1110 ∷ 0b1110 ∷ 0b1110 ∷ 0b1110 ∷ 0b1110 ∷ 0b1100
    ∷ 0b0100 ∷ 0b0100 ∷ 0b0100 ∷ 0b0100 ∷ 0b0101 ∷ []

-- The lane of `mask` for one byte: the table entries of its two halves, joined by `and`.
unfoldable pub lane_mask : ℕ → ℕ
lane_mask b = bit_and (get_or low_lut (b % 16) 0) (get_or high_lut (b / 16) 0)

-- `_mm_test_all_zeros(_mm_set1_epi8(0x80), input)`
unfoldable pub all_ascii : Bytes → Bool
all_ascii [] = true
all_ascii (c ∷ cs) = let rest = all_ascii cs in if leb 0x80 c then false else rest

-- `__builtin_ctz` of the bits of the zero lanes: the first such lane, or the number of lanes.
unfoldable pub first_zero_lane : Bytes → ℕ
first_zero_lane [] = 0
first_zero_lane (c ∷ cs) = let rest = first_zero_lane cs in if lane_mask c == 0 then 0 else suc rest

-- The loop over blocks and what follows it. The number of bytes is fuel enough.
unfoldable pub vector_scan : ℕ → Bytes → ℕ
vector_scan zero text = 0
vector_scan (suc fuel) text = elim (leb 16 (length text)) [
  | false ↦ scalar_scan text
  | true ↦ elim (all_ascii (take 16 text)) [
    | false ↦ scalar_scan text
    | true ↦ elim (first_zero_lane (take 16 text) == 16) [
      | false ↦ first_zero_lane (take 16 text)
      | true ↦ 16 + vector_scan fuel (drop 16 text)
    ]
  ]
]

-- `ScanForIdentifierPrefix`
unfoldable pub scan_for_identifier_prefix : Bytes → Bytes
scan_for_identifier_prefix text = take (vector_scan (length text) text) text
