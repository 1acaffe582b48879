-- ===== src/Lex/TokenKind/Tables.antt =====
-- lib/Lex/TokenKind.cc: the tables that the macros of the .def file generate.
use cocktail_lang.Prelude.{Bool, true, false}
use cocktail_lang.Lex.TokenKind.{
  TokenKind, greater_greater_equal, less_equal_greater, less_less_equal, amp_equal, caret_equal,
  colon_equal, colon_exclaim, equal_equal, equal_greater, exclaim_equal, greater_equal,
  greater_greater, less_equal, less_greater, less_less, less_minus, minus_equal, minus_greater,
  minus_minus, percent_equal, pipe_equal, plus_equal, plus_plus, slash_equal, star_equal,
  tilde_equal, amp, at, backslash, caret, colon, equal, exclaim, greater, less, minus, percent,
  period, pipe, plus, question, slash, star, tilde, comma, semi, open_paren, open_curly_brace,
  open_square_bracket, close_paren, close_curly_brace, close_square_bracket, abstract, adapt, addr,
  alias, and, api, as_keyword, auto, base, bool, break, case, choice, class, const, constraint,
  continue, default, destructor, else_keyword, extend, false_keyword, final, fn, for_keyword,
  forall, friend, if_keyword, impl, impls, import, in_keyword, interface, let_keyword, library,
  like, match, namespace, not_keyword, observe, or, override, package_keyword, partial, private,
  protected, require, return, returned, self_type_identifier, self_value_identifier,
  string_type_literal, template, then_keyword, true_keyword, type, underscore, var, virtual,
  where_keyword, while, error,
}

-- `IsSymbol`
unfoldable pub is_symbol : TokenKind → Bool
is_symbol greater_greater_equal = true
is_symbol less_equal_greater = true
is_symbol less_less_equal = true
is_symbol amp_equal = true
is_symbol caret_equal = true
is_symbol colon_equal = true
is_symbol colon_exclaim = true
is_symbol equal_equal = true
is_symbol equal_greater = true
is_symbol exclaim_equal = true
is_symbol greater_equal = true
is_symbol greater_greater = true
is_symbol less_equal = true
is_symbol less_greater = true
is_symbol less_less = true
is_symbol less_minus = true
is_symbol minus_equal = true
is_symbol minus_greater = true
is_symbol minus_minus = true
is_symbol percent_equal = true
is_symbol pipe_equal = true
is_symbol plus_equal = true
is_symbol plus_plus = true
is_symbol slash_equal = true
is_symbol star_equal = true
is_symbol tilde_equal = true
is_symbol amp = true
is_symbol at = true
is_symbol backslash = true
is_symbol caret = true
is_symbol colon = true
is_symbol equal = true
is_symbol exclaim = true
is_symbol greater = true
is_symbol less = true
is_symbol minus = true
is_symbol percent = true
is_symbol period = true
is_symbol pipe = true
is_symbol plus = true
is_symbol question = true
is_symbol slash = true
is_symbol star = true
is_symbol tilde = true
is_symbol comma = true
is_symbol semi = true
is_symbol open_paren = true
is_symbol open_curly_brace = true
is_symbol open_square_bracket = true
is_symbol close_paren = true
is_symbol close_curly_brace = true
is_symbol close_square_bracket = true
is_symbol _ = false

-- `IsGroupingSymbol`
unfoldable pub is_grouping_symbol : TokenKind → Bool
is_grouping_symbol open_paren = true
is_grouping_symbol open_curly_brace = true
is_grouping_symbol open_square_bracket = true
is_grouping_symbol close_paren = true
is_grouping_symbol close_curly_brace = true
is_grouping_symbol close_square_bracket = true
is_grouping_symbol _ = false

-- `IsOpeningSymbol`
unfoldable pub is_opening_symbol : TokenKind → Bool
is_opening_symbol open_paren = true
is_opening_symbol open_curly_brace = true
is_opening_symbol open_square_bracket = true
is_opening_symbol _ = false

-- `IsClosingSymbol`
unfoldable pub is_closing_symbol : TokenKind → Bool
is_closing_symbol close_paren = true
is_closing_symbol close_curly_brace = true
is_closing_symbol close_square_bracket = true
is_closing_symbol _ = false

-- `OpeningSymbol`; `error` where the accessor's check fails.
unfoldable pub opening_symbol_table : TokenKind → TokenKind
opening_symbol_table close_paren = open_paren
opening_symbol_table close_curly_brace = open_curly_brace
opening_symbol_table close_square_bracket = open_square_bracket
opening_symbol_table _ = error

-- `ClosingSymbol`; `error` where the accessor's check fails.
unfoldable pub closing_symbol_table : TokenKind → TokenKind
closing_symbol_table open_paren = close_paren
closing_symbol_table open_curly_brace = close_curly_brace
closing_symbol_table open_square_bracket = close_square_bracket
closing_symbol_table _ = error

-- `IsOneCharSymbol`
unfoldable pub is_one_char_symbol : TokenKind → Bool
is_one_char_symbol comma = true
is_one_char_symbol semi = true
is_one_char_symbol open_paren = true
is_one_char_symbol open_curly_brace = true
is_one_char_symbol open_square_bracket = true
is_one_char_symbol close_paren = true
is_one_char_symbol close_curly_brace = true
is_one_char_symbol close_square_bracket = true
is_one_char_symbol _ = false

-- `IsKeyword`
unfoldable pub is_keyword : TokenKind → Bool
is_keyword abstract = true
is_keyword adapt = true
is_keyword addr = true
is_keyword alias = true
is_keyword and = true
is_keyword api = true
is_keyword as_keyword = true
is_keyword auto = true
is_keyword base = true
is_keyword bool = true
is_keyword break = true
is_keyword case = true
is_keyword choice = true
is_keyword class = true
is_keyword const = true
is_keyword constraint = true
is_keyword continue = true
is_keyword default = true
is_keyword destructor = true
is_keyword else_keyword = true
is_keyword extend = true
is_keyword false_keyword = true
is_keyword final = true
is_keyword fn = true
is_keyword for_keyword = true
is_keyword forall = true
is_keyword friend = true
is_keyword if_keyword = true
is_keyword impl = true
is_keyword impls = true
is_keyword import = true
is_keyword in_keyword = true
is_keyword interface = true
is_keyword let_keyword = true
is_keyword library = true
is_keyword like = true
is_keyword match = true
is_keyword namespace = true
is_keyword not_keyword = true
is_keyword observe = true
is_keyword or = true
is_keyword override = true
is_keyword package_keyword = true
is_keyword partial = true
is_keyword private = true
is_keyword protected = true
is_keyword require = true
is_keyword return = true
is_keyword returned = true
is_keyword self_type_identifier = true
is_keyword self_value_identifier = true
is_keyword string_type_literal = true
is_keyword template = true
is_keyword then_keyword = true
is_keyword true_keyword = true
is_keyword type = true
is_keyword underscore = true
is_keyword var = true
is_keyword virtual = true
is_keyword where_keyword = true
is_keyword while = true
is_keyword _ = false
