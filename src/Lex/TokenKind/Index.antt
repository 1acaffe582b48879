-- ===== src/Lex/TokenKind/Index.antt =====
-- The value of a kind (`AsInt` of include/Cocktail/Common/EnumBase.h), and equality of kinds by it.
use cocktail_lang.Prelude.{ℕ, Bool, ◌==◌}
use cocktail_lang.Lex.TokenKind.{
  TokenKind, greater_greater_equal, less_equal_greater, less_less_equal, amp_equal, caret_equal,
  colon_equal, colon_exclaim, equal_equal, equal_greater, exclaim_equal, greater_equal,
  greater_greater, less_equal, less_greater, less_less, less_minus, minus_equal, minus_greater,
  minus_minus, percent_equal, pipe_equal, plus_equal, plus_plus, slash_equal, star_equal,
  tilde_equal, amp, at, backslash, caret, colon, equal, exclaim, greater, less, minus, percent,
  period, pipe, plus, question, slash, star, tilde, comma, semi, open_paren, open_curly_brace,
  open_square_bracket, close_paren, close_curly_brace, close_square_bracket, abstract, adapt, addr,
  alias, and, api, as_keyword, auto, base, bool, break, case, choice, class, const, constraint,
  continue, default, destructor, else_keyword, extend, false_keyword, final, fn, for_keyword,
  forall, friend, if_keyword, impl, impls, import, in_keyword, interface, let_keyword, library,
  like, match, namespace, not_keyword, observe, or, override, package_keyword, partial, private,
  protected, require, return, returned, self_type_identifier, self_value_identifier,
  string_type_literal, template, then_keyword, true_keyword, type, underscore, var, virtual,
  where_keyword, while, identifier, integer_literal, real_literal, string_literal,
  integer_type_literal, unsigned_integer_type_literal, floating_point_type_literal, error,
  start_of_file, end_of_file,
}

unfoldable pub as_int : TokenKind → ℕ
as_int greater_greater_equal = 0
as_int less_equal_greater = 1
as_int less_less_equal = 2
as_int amp_equal = 3
as_int caret_equal = 4
as_int colon_equal = 5
as_int colon_exclaim = 6
as_int equal_equal = 7
as_int equal_greater = 8
as_int exclaim_equal = 9
as_int greater_equal = 10
as_int greater_greater = 11
as_int less_equal = 12
as_int less_greater = 13
as_int less_less = 14
as_int less_minus = 15
as_int minus_equal = 16
as_int minus_greater = 17
as_int minus_minus = 18
as_int percent_equal = 19
as_int pipe_equal = 20
as_int plus_equal = 21
as_int plus_plus = 22
as_int slash_equal = 23
as_int star_equal = 24
as_int tilde_equal = 25
as_int amp = 26
as_int at = 27
as_int backslash = 28
as_int caret = 29
as_int colon = 30
as_int equal = 31
as_int exclaim = 32
as_int greater = 33
as_int less = 34
as_int minus = 35
as_int percent = 36
as_int period = 37
as_int pipe = 38
as_int plus = 39
as_int question = 40
as_int slash = 41
as_int star = 42
as_int tilde = 43
as_int comma = 44
as_int semi = 45
as_int open_paren = 46
as_int open_curly_brace = 47
as_int open_square_bracket = 48
as_int close_paren = 49
as_int close_curly_brace = 50
as_int close_square_bracket = 51
as_int abstract = 52
as_int adapt = 53
as_int addr = 54
as_int alias = 55
as_int and = 56
as_int api = 57
as_int as_keyword = 58
as_int auto = 59
as_int base = 60
as_int bool = 61
as_int break = 62
as_int case = 63
as_int choice = 64
as_int class = 65
as_int const = 66
as_int constraint = 67
as_int continue = 68
as_int default = 69
as_int destructor = 70
as_int else_keyword = 71
as_int extend = 72
as_int false_keyword = 73
as_int final = 74
as_int fn = 75
as_int for_keyword = 76
as_int forall = 77
as_int friend = 78
as_int if_keyword = 79
as_int impl = 80
as_int impls = 81
as_int import = 82
as_int in_keyword = 83
as_int interface = 84
as_int let_keyword = 85
as_int library = 86
as_int like = 87
as_int match = 88
as_int namespace = 89
as_int not_keyword = 90
as_int observe = 91
as_int or = 92
as_int override = 93
as_int package_keyword = 94
as_int partial = 95
as_int private = 96
as_int protected = 97
as_int require = 98
as_int return = 99
as_int returned = 100
as_int self_type_identifier = 101
as_int self_value_identifier = 102
as_int string_type_literal = 103
as_int template = 104
as_int then_keyword = 105
as_int true_keyword = 106
as_int type = 107
as_int underscore = 108
as_int var = 109
as_int virtual = 110
as_int where_keyword = 111
as_int while = 112
as_int identifier = 113
as_int integer_literal = 114
as_int real_literal = 115
as_int string_literal = 116
as_int integer_type_literal = 117
as_int unsigned_integer_type_literal = 118
as_int floating_point_type_literal = 119
as_int error = 120
as_int start_of_file = 121
as_int end_of_file = 122

-- `operator==` of the enumerations: they are equal if their values are.
unfoldable pub kind_eq : TokenKind → TokenKind → Bool
unfolding as_int
kind_eq a b = as_int a == as_int b
