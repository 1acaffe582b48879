-- ===== src/Tests/Precedence.antt =====
-- The operator table and the tables of token kinds at concrete operators.
use cocktail_lang.Prelude.{◌≡◌, refl, ◌≢◌, ◌↔◌, true, false, ◌||◌, ◌&&◌, some, suc, ◌*◌, arith}
use cocktail_lang.Lex.TokenKind.{star, plus, open_paren, close_paren}
use cocktail_lang.Lex.TokenKind.Tables.{
  is_opening_symbol, is_closing_symbol, opening_symbol_table, closing_symbol_table,
  is_grouping_symbol, is_one_char_symbol, is_symbol, is_keyword,
}
use cocktail_lang.Lex.TokenKind.Matching.{
  opening-closing_symbol, closing-opening_symbol, symbol_classes,
}
use cocktail_lang.Parse.Precedence.Level.{
  left_first, right_first, ambiguous, right_to_left, multiplicative, additive, bitwise_and,
  level_index, relational, num_precedence_levels,
}
use cocktail_lang.Parse.Precedence.Operators.{
  Trailing, group, for_trailing, get_priority, get_associativity, for_postfix_expression,
  for_expression_statement,
}
use cocktail_lang.Parse.Precedence.Table.{declared, entry, make_transitively_closed, close_pass}
use cocktail_lang.Parse.Precedence.Table.Closed.{closed_rows}
use cocktail_lang.Parse.Precedence.Table.Closure.{Higher, make_transitively_closed_sound}
use cocktail_lang.Parse.Precedence.Order.{get_priority_order, Higher-irreflexive, get_priority_lem}
use cocktail_lang.Parse.Precedence.Bounds.{get_priority_bounds, trailing_associativity}

abbrev multiplication : Trailing
multiplication = record { level = group multiplicative; is_binary = true }

closed_declared :
    make_transitively_closed (suc (num_precedence_levels * num_precedence_levels)) declared
    ≡ some closed_rows
unfolding make_transitively_closed close_pass declared
closed_declared = refl

multiplicative_relational : entry closed_rows 5 16 ≡ left_first
unfolding entry
multiplicative_relational = refl

-- `*` and `&` may not be mixed without parentheses.
multiplicative_bitwise_and : get_priority (group multiplicative) (group bitwise_and) ≡ ambiguous
unfolding level_index entry
multiplicative_bitwise_and = get_priority_lem multiplicative bitwise_and

additive_additive : get_priority (group additive) (group additive) ≡ left_first
unfolding level_index entry
additive_additive = get_priority_lem additive additive

levels_differ : level_index multiplicative ≢ level_index relational
unfolding level_index
levels_differ = λ e. absurd (omega (arith, e))

get_priority_order_example :
    ((get_priority (group multiplicative) (group relational) ≡ left_first)
      ↔ Higher declared (level_index multiplicative) (level_index relational))
    × ((get_priority (group multiplicative) (group relational) ≡ right_first)
        ↔ Higher declared (level_index relational) (level_index multiplicative))
get_priority_order_example = get_priority_order multiplicative relational levels_differ

Higher-irreflexive_example : ¬ (Higher declared 5 5)
Higher-irreflexive_example = Higher-irreflexive 5

star_is_infix : for_trailing star true ≡ some multiplication
unfolding for_trailing
star_is_infix = refl

get_priority_bounds_example :
    (get_priority for_postfix_expression multiplication.level ≡ left_first)
    × (get_priority multiplication.level for_postfix_expression ≡ right_first)
    × (get_priority multiplication.level for_expression_statement ≡ left_first)
    × (get_priority for_expression_statement multiplication.level ≡ right_first)
get_priority_bounds_example = get_priority_bounds star true star_is_infix

trailing_associativity_example : get_associativity multiplication.level ≢ right_to_left
trailing_associativity_example = trailing_associativity star true star_is_infix

make_transitively_closed_sound_example : Higher declared 5 16
make_transitively_closed_sound_example =
    make_transitively_closed_sound (suc (num_precedence_levels * num_precedence_levels)) declared 5
      16 closed_declared multiplicative_relational

opens : is_opening_symbol open_paren ≡ true
unfolding is_opening_symbol
opens = refl

closes : is_closing_symbol close_paren ≡ true
unfolding is_closing_symbol
closes = refl

opening-closing_symbol_example :
    (is_closing_symbol (closing_symbol_table open_paren) ≡ true)
    × (opening_symbol_table (closing_symbol_table open_paren) ≡ open_paren)
opening-closing_symbol_example = opening-closing_symbol open_paren opens

closing-opening_symbol_example :
    (is_opening_symbol (opening_symbol_table close_paren) ≡ true)
    × (closing_symbol_table (opening_symbol_table close_paren) ≡ close_paren)
closing-opening_symbol_example = closing-opening_symbol close_paren closes

symbol_classes_example :
    (is_grouping_symbol plus ≡ (is_opening_symbol plus || is_closing_symbol plus))
    × ((is_opening_symbol plus && is_closing_symbol plus) ≡ false)
    × (is_grouping_symbol plus ≡ true → is_one_char_symbol plus ≡ true)
    × (is_one_char_symbol plus ≡ true → is_symbol plus ≡ true)
    × ((is_symbol plus && is_keyword plus) ≡ false)
symbol_classes_example = symbol_classes plus
