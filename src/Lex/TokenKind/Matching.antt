-- ===== src/Lex/TokenKind/Matching.antt =====
-- Opening and closing symbols: the tables of lib/Lex/TokenKind.cc agree with one another.
use cocktail_lang.Prelude.{true, false, ◌||◌, ◌&&◌, ◌≡◌, arith}
use cocktail_lang.Lex.TokenKind.{TokenKind, greater_greater_equal}
use cocktail_lang.Lex.TokenKind.Tables.{
  is_symbol, is_grouping_symbol, is_opening_symbol, is_closing_symbol, opening_symbol_table,
  closing_symbol_table, is_one_char_symbol, is_keyword,
}

-- The closing symbol of an opening symbol is a closing symbol, and its opening symbol is the first.
pub opening-closing_symbol :
    (k : TokenKind)
    → is_opening_symbol k ≡ true
    → (is_closing_symbol (closing_symbol_table k) ≡ true)
      × (opening_symbol_table (closing_symbol_table k) ≡ k)
unfolding is_opening_symbol is_closing_symbol opening_symbol_table closing_symbol_table
opening-closing_symbol greater_greater_equal h = ground arith
opening-closing_symbol _ h = ground arith

-- The opening symbol of a closing symbol is an opening symbol, and its closing symbol is the first.
pub closing-opening_symbol :
    (k : TokenKind)
    → is_closing_symbol k ≡ true
    → (is_opening_symbol (opening_symbol_table k) ≡ true)
      × (closing_symbol_table (opening_symbol_table k) ≡ k)
unfolding is_opening_symbol is_closing_symbol opening_symbol_table closing_symbol_table
closing-opening_symbol greater_greater_equal h = ground arith
closing-opening_symbol _ h = ground arith

-- The grouping symbols are the opening and the closing symbols, no symbol is both, each is a
-- symbol of one character, each of those is a symbol, and no symbol is a keyword.
pub symbol_classes :
    (k : TokenKind)
    → (is_grouping_symbol k ≡ (is_opening_symbol k || is_closing_symbol k))
      × ((is_opening_symbol k && is_closing_symbol k) ≡ false)
      × (is_grouping_symbol k ≡ true → is_one_char_symbol k ≡ true)
      × (is_one_char_symbol k ≡ true → is_symbol k ≡ true)
      × ((is_symbol k && is_keyword k) ≡ false)
unfolding is_grouping_symbol is_opening_symbol is_closing_symbol is_one_char_symbol is_symbol
    is_keyword
symbol_classes greater_greater_equal =
    (ground arith, ground arith, (λ h. ground arith), (λ h. ground arith), ground arith)
symbol_classes _ =
    (ground arith, ground arith, (λ h. ground arith), (λ h. ground arith), ground arith)
