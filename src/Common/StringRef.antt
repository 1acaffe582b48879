-- ===== src/Common/StringRef.antt =====
-- A view of the source text: the offset of its first byte in the buffer, and its bytes. The
-- operations are the slices and tests of texts that the lexer makes; a slice is cut off at the end
-- of the view, as `substr` does.
use cocktail_lang.Prelude.{
  ℕ, ◌+◌, Bool, true, false, ◌&&◌, Option, none, some, [], ◌∷◌, Bytes, if◌then◌else◌, ◌==◌, length,
  take, drop,
}

pub record StringRef : Type 0 where
  pub begin : ℕ
  pub bytes : Bytes

abbrev pub size : StringRef → ℕ
size s = length s.bytes

-- The offset behind the last byte.
abbrev pub end_offset : StringRef → ℕ
end_offset s = s.begin + length s.bytes

-- substr(start)
abbrev pub drop_front : ℕ → StringRef → StringRef
drop_front n s = record { begin = s.begin + n; bytes = drop n s.bytes }

-- substr(start, count)
abbrev pub substr : ℕ → ℕ → StringRef → StringRef
substr start count s = record { begin = s.begin + start; bytes = take count (drop start s.bytes) }

abbrev pub starts_with : Bytes → Bytes → Bool
starts_with [] s = true
starts_with (p ∷ ps) [] = false
starts_with (p ∷ ps) (c ∷ cs) = p == c && starts_with ps cs

-- The view behind a prefix, if the view has that prefix.
abbrev pub consume_front : Bytes → StringRef → Option StringRef
consume_front p s = if starts_with p s.bytes then some (drop_front (length p) s) else none
