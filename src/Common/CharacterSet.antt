-- ===== src/Common/CharacterSet.antt =====
-- include/Cocktail/Common/CharacterSet.h: the classes of characters, over byte values.
use cocktail_lang.Prelude.{ℕ, Bool, ◌&&◌, ◌||◌, leb, ◌==◌}

-- lo ≤ c ≤ hi
abbrev pub within : ℕ → ℕ → ℕ → Bool
within lo hi c = leb lo c && leb c hi

-- [a-z]
unfoldable pub is_lower : ℕ → Bool
is_lower c = within b'a' b'z' c

-- [a-zA-Z]
unfoldable pub is_alpha : ℕ → Bool
is_alpha c = within b'a' b'z' c || within b'A' b'Z' c

-- [0-9]
unfoldable pub is_decimal_digit : ℕ → Bool
is_decimal_digit c = within b'0' b'9' c

-- [a-zA-Z0-9]
unfoldable pub is_alnum : ℕ → Bool
unfolding is_alpha is_decimal_digit
is_alnum c = is_alpha c || is_decimal_digit c

-- [0-9A-F]
unfoldable pub is_upper_hex_digit : ℕ → Bool
is_upper_hex_digit c = within b'0' b'9' c || within b'A' b'F' c

unfoldable pub is_horizontal_whitespace : ℕ → Bool
is_horizontal_whitespace c = c == b' ' || c == b'\t'

unfoldable pub is_vertical_whitespace : ℕ → Bool
is_vertical_whitespace c = c == b'\n'

unfoldable pub is_space : ℕ → Bool
unfolding is_horizontal_whitespace is_vertical_whitespace
is_space c = is_horizontal_whitespace c || is_vertical_whitespace c
