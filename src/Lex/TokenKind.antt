-- ===== src/Lex/TokenKind.antt =====
-- include/Cocktail/Lex/TokenKind.def: the token kinds, in the order of the file. A keyword whose name
-- the notation reserves ends in `_keyword`. The child modules hold the tables of lib/Lex/TokenKind.cc.
pub mod Index
pub mod Tables
pub mod Matching
pub mod Spelling
pub mod Kinds

pub data TokenKind : Type 0 where
  greater_greater_equal less_equal_greater less_less_equal amp_equal caret_equal colon_equal :
      TokenKind
  colon_exclaim equal_equal equal_greater exclaim_equal greater_equal greater_greater : TokenKind
  less_equal less_greater less_less less_minus minus_equal minus_greater : TokenKind
  minus_minus percent_equal pipe_equal plus_equal plus_plus slash_equal : TokenKind
  star_equal tilde_equal amp at backslash caret : TokenKind
  colon equal exclaim greater less minus : TokenKind
  percent period pipe plus question slash : TokenKind
  star tilde comma semi open_paren open_curly_brace : TokenKind
  open_square_bracket close_paren close_curly_brace close_square_bracket abstract adapt : TokenKind
  addr alias and api as_keyword auto : TokenKind
  base bool break case choice class : TokenKind
  const constraint continue default destructor else_keyword : TokenKind
  extend false_keyword final fn for_keyword forall : TokenKind
  friend if_keyword impl impls import in_keyword : TokenKind
  interface let_keyword library like match namespace : TokenKind
  not_keyword observe or override package_keyword partial : TokenKind
  private protected require return returned self_type_identifier : TokenKind
  self_value_identifier string_type_literal template then_keyword true_keyword type : TokenKind
  underscore var virtual where_keyword while identifier : TokenKind
  integer_literal real_literal string_literal integer_type_literal unsigned_integer_type_literal
        floating_point_type_literal :
      TokenKind
  error start_of_file end_of_file : TokenKind
