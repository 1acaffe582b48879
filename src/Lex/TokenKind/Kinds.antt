-- ===== src/Lex/TokenKind/Kinds.antt =====
-- Equality of token kinds by their values, and the classes of the kinds of words and symbols.
use cocktail_lang.Prelude.{
  ◌≡◌, refl, sym, ◌∙◌, ap, true, false, List, [], ◌∷◌, ◌++◌, get_or, arith, ==_iff,
}
use cocktail_lang.Lex.TokenKind.{
  TokenKind, greater_greater_equal, error, identifier, integer_literal, real_literal,
  string_literal, integer_type_literal, unsigned_integer_type_literal, floating_point_type_literal,
  start_of_file, end_of_file,
}
use cocktail_lang.Lex.TokenKind.Index.{as_int, kind_eq}
use cocktail_lang.Lex.TokenKind.Spelling.{symbol_tokens, keyword_tokens}
use cocktail_lang.Lex.TokenKind.Tables.{is_opening_symbol, is_closing_symbol, closing_symbol_table}

-- The kinds in the order of their values.
abbrev all_kinds : List TokenKind
all_kinds =
    symbol_tokens
    ++ keyword_tokens
    ++ identifier ∷ integer_literal ∷ real_literal ∷ string_literal ∷ integer_type_literal
      ∷ unsigned_integer_type_literal ∷ floating_point_type_literal ∷ error ∷ start_of_file
      ∷ end_of_file ∷ []

kind_of-as_int : (k : TokenKind) → get_or all_kinds (as_int k) error ≡ k
unfolding as_int
kind_of-as_int greater_greater_equal = refl
kind_of-as_int _ = refl

-- Kinds that compare as equal are equal.
pub kind_eq_sound : (j k : TokenKind) → kind_eq j k ≡ true → j ≡ k
unfolding kind_eq
kind_eq_sound j k h =
    sym (kind_of-as_int j)
    ∙ ap (λ n. get_or all_kinds n error) ((==_iff (as_int j) (as_int k)).0 h)
    ∙ kind_of-as_int k

-- A closing symbol is not the kind of an error, and no opening symbol.
pub closing_symbol_lem :
    (k : TokenKind)
    → is_opening_symbol k ≡ true
    → (is_closing_symbol (closing_symbol_table k) ≡ true)
      × (is_opening_symbol (closing_symbol_table k) ≡ false)
      × (kind_eq error (closing_symbol_table k) ≡ false)
unfolding is_opening_symbol is_closing_symbol closing_symbol_table kind_eq as_int
closing_symbol_lem greater_greater_equal h = ground arith
closing_symbol_lem _ h = ground arith

pub opening-not_closing : (k : TokenKind) → is_opening_symbol k ≡ true → is_closing_symbol k ≡ false
unfolding is_opening_symbol is_closing_symbol
opening-not_closing greater_greater_equal h = ground arith
opening-not_closing _ h = ground arith

pub kind_eq_refl : (k : TokenKind) → kind_eq k k ≡ true
unfolding kind_eq
kind_eq_refl k = (==_iff (as_int k) (as_int k)).1 refl

-- The symbols of groups are not the start of the file.
pub opening-not_start :
    (k : TokenKind) → is_opening_symbol k ≡ true → kind_eq k start_of_file ≡ false
unfolding is_opening_symbol kind_eq as_int
opening-not_start greater_greater_equal h = ground arith
opening-not_start _ h = ground arith

pub closing-not_start :
    (k : TokenKind) → is_closing_symbol k ≡ true → kind_eq k start_of_file ≡ false
unfolding is_closing_symbol kind_eq as_int
closing-not_start greater_greater_equal h = ground arith
closing-not_start _ h = ground arith
