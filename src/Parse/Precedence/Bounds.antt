-- ===== src/Parse/Precedence/Bounds.antt =====
-- Where the operators of Precedence.cc stand in the order.
use cocktail_lang.Prelude.{Bool, some, ◌≡◌, ◌≢◌, refl, ap, arith}
use cocktail_lang.Lex.TokenKind.{TokenKind, greater_greater_equal}
use cocktail_lang.Parse.Precedence.Level.{
  left_first, right_first, right_to_left, PrecedenceLevel, level_index, highest, lowest,
  term_prefix, conditional,
}
use cocktail_lang.Parse.Precedence.Table.{entry}
use cocktail_lang.Parse.Precedence.Operators.{
  for_postfix_expression, for_expression_statement, group, for_trailing, get_priority,
  get_associativity, as_associativity, Trailing,
}
use cocktail_lang.Parse.Precedence.Order.{get_priority_lem}

highest_first :
    (l : PrecedenceLevel) → level_index l ≢ 0 → get_priority (group highest) (group l) ≡ left_first
unfolding entry level_index
highest_first highest h = absurd (h refl)
highest_first l h = get_priority_lem highest l

highest_second :
    (l : PrecedenceLevel) → level_index l ≢ 0 → get_priority (group l) (group highest) ≡ right_first
unfolding entry level_index
highest_second highest h = absurd (h refl)
highest_second l h = get_priority_lem l highest

lowest_second :
    (l : PrecedenceLevel) → level_index l ≢ 21 → get_priority (group l) (group lowest) ≡ left_first
unfolding entry level_index
lowest_second lowest h = absurd (h refl)
lowest_second l h = get_priority_lem l lowest

lowest_first :
    (l : PrecedenceLevel) → level_index l ≢ 21 → get_priority (group lowest) (group l) ≡ right_first
unfolding entry level_index
lowest_first lowest h = absurd (h refl)
lowest_first l h = get_priority_lem lowest l

trailing_level :
    (k : TokenKind) (infix_use : Bool) {t : Trailing}
    → for_trailing k infix_use ≡ some t
    → (level_index t.level.level ≢ 0) × (level_index t.level.level ≢ 21)
unfolding for_trailing level_index
trailing_level greater_greater_equal i h = ground arith
trailing_level _ i h = ground arith

-- Postfix expressions go before every infix or postfix operator, and every such operator goes
-- before the statement around it, on either side.
pub get_priority_bounds :
    (k : TokenKind) (infix_use : Bool) {t : Trailing}
    → for_trailing k infix_use ≡ some t
    → (get_priority for_postfix_expression t.level ≡ left_first)
      × (get_priority t.level for_postfix_expression ≡ right_first)
      × (get_priority t.level for_expression_statement ≡ left_first)
      × (get_priority for_expression_statement t.level ≡ right_first)
unfolding for_postfix_expression for_expression_statement
get_priority_bounds k i {t} h =
    let (top, bottom) = trailing_level k i h in
    let l = t.level.level in
    (highest_first l top, highest_second l top, lowest_second l bottom, lowest_first l bottom)

associativity_of :
    (l : PrecedenceLevel)
    → level_index l ≢ 1
    → level_index l ≢ 19
    → get_associativity (group l) ≢ right_to_left
unfolding get_associativity level_index entry
associativity_of term_prefix a b h = absurd (a refl)
associativity_of conditional a b h = absurd (b refl)
associativity_of l a b h = cc (ap as_associativity (get_priority_lem l l))

trailing_not_prefix :
    (k : TokenKind) (infix_use : Bool) {t : Trailing}
    → for_trailing k infix_use ≡ some t
    → (level_index t.level.level ≢ 1) × (level_index t.level.level ≢ 19)
unfolding for_trailing level_index
trailing_not_prefix greater_greater_equal i h = ground arith
trailing_not_prefix _ i h = ground arith

-- No infix or postfix operator groups to the right: it groups to the left or wants parentheses.
pub trailing_associativity :
    (k : TokenKind) (infix_use : Bool) {t : Trailing}
    → for_trailing k infix_use ≡ some t
    → get_associativity t.level ≢ right_to_left
trailing_associativity k i {t} h =
    let (a, b) = trailing_not_prefix k i h in associativity_of t.level.level a b
