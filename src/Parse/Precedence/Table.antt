-- ===== src/Parse/Precedence/Table.antt =====
-- `OperatorPriorityTable` of lib/Parse/Precedence.cc. The constructor runs at compile time: a
-- failed check of the source is `none` here.
pub mod Closure
pub mod Closed
pub mod Final
use cocktail_lang.Prelude.{
  ℕ, zero, suc, ◌+◌, ◌*◌, Bool, true, false, not, ◌&&◌, ◌||◌, Option, none, some, List, [], ◌∷◌,
  if◌then◌else◌, ◌==◌, get_or, set, replicate,
}
use cocktail_lang.Parse.Precedence.Level.{
  OperatorPriority, left_first, ambiguous, right_first, PrecedenceLevel, level_index,
  num_precedence_levels, highest, term_prefix, increment_decrement, numeric_prefix, modulo,
  multiplicative, additive, bitwise_prefix, bitwise_and, bitwise_or, bitwise_xor, bit_shift,
  type_prefix, type_postfix, as_cast, logical_prefix, relational, logical_and, logical_or,
  conditional, assignment, lowest,
}

-- `table[a][b]`; all entries start out as `Ambiguous`, whose value is 0.
abbrev pub Table : Type 0
Table = List (List OperatorPriority)

unfoldable pub entry : Table → ℕ → ℕ → OperatorPriority
entry t a b = get_or (get_or t a []) b ambiguous

unfoldable pub set_entry : Table → ℕ → ℕ → OperatorPriority → Table
set_entry t a b p = set t a (set (get_or t a []) b p)

unfoldable pub empty_table : Table
empty_table = replicate num_precedence_levels (replicate num_precedence_levels ambiguous)

abbrev pub is_left_first : OperatorPriority → Bool
is_left_first left_first = true
is_left_first _ = false

abbrev pub is_right_first : OperatorPriority → Bool
is_right_first right_first = true
is_right_first _ = false

-- The inner and the outer loop of `MarkHigherThan`.
mark_lower : PrecedenceLevel → List PrecedenceLevel → Table → Table
mark_lower h [] t = t
mark_lower h (lower ∷ rest) t =
    mark_lower h rest (set_entry t (level_index h) (level_index lower) left_first)

unfoldable pub mark_higher_than : List PrecedenceLevel → List PrecedenceLevel → Table → Table
unfolding mark_lower set_entry level_index
mark_higher_than [] lower_group t = t
mark_higher_than (h ∷ rest) lower_group t =
    mark_higher_than rest lower_group (mark_lower h lower_group t)

-- The relations that the constructor lists.
unfoldable pub declared : Table
unfolding mark_higher_than empty_table
declared =
    let t = mark_higher_than (highest ∷ []) (term_prefix ∷ logical_prefix ∷ []) empty_table in
    let t =
      mark_higher_than (term_prefix ∷ [])
        (numeric_prefix ∷ bitwise_prefix ∷ increment_decrement ∷ []) t in
    let t =
      mark_higher_than (numeric_prefix ∷ bitwise_prefix ∷ [])
        (as_cast ∷ multiplicative ∷ modulo ∷ bitwise_and ∷ bitwise_or ∷ bitwise_xor ∷ bit_shift
          ∷ [])
        t in
    let t = mark_higher_than (multiplicative ∷ []) (additive ∷ []) t in
    let t =
      mark_higher_than
        (as_cast ∷ additive ∷ modulo ∷ bitwise_and ∷ bitwise_or ∷ bitwise_xor ∷ bit_shift ∷ [])
        (relational ∷ []) t in
    let t = mark_higher_than (relational ∷ logical_prefix ∷ []) (logical_and ∷ logical_or ∷ []) t in
    let t = mark_higher_than (logical_and ∷ logical_or ∷ []) (conditional ∷ []) t in
    let t = mark_higher_than (conditional ∷ []) (assignment ∷ []) t in
    let t = mark_higher_than (assignment ∷ increment_decrement ∷ []) (lowest ∷ []) t in
    let t = mark_higher_than (highest ∷ []) (type_prefix ∷ []) t in
    let t = mark_higher_than (type_prefix ∷ []) (type_postfix ∷ []) t in
    mark_higher_than (type_postfix ∷ []) (as_cast ∷ []) t

-- The table and the `changed` flag.
pub record Pass : Type 0 where
  pub table : Table
  pub changed : Bool

-- A loop `for (x = 0; x != n; ++x)`: `k` rounds are left, and the next is `x`.
unfoldable pub for_levels {ℓ} : {S : Type ℓ} → ℕ → ℕ → (ℕ → S → S) → S → S
for_levels zero x body s = s
for_levels (suc k) x body s = for_levels k (x + 1) body (body x s)

-- The three loops of `MakeTransitivelyClosed`, innermost first.
pub close_at : ℕ → ℕ → ℕ → Pass → Pass
unfolding entry set_entry
close_at a b c s =
    if is_left_first (entry s.table b c) && not (is_left_first (entry s.table a c))
    then record { table = set_entry s.table a c left_first; changed = true }
    else s

pub close_through : ℕ → ℕ → Pass → Pass
unfolding for_levels close_at
close_through a b s =
    if is_left_first (entry s.table a b)
    then for_levels num_precedence_levels 0 (close_at a b) s
    else s

unfoldable pub close_pass : Table → Pass
unfolding close_through
close_pass t =
    for_levels num_precedence_levels 0
      (λ a s. for_levels num_precedence_levels 0 (close_through a) s)
      (record { table = t; changed = false })

-- The `do … while (changed)`; `none` means that the fuel ran out.
unfoldable pub make_transitively_closed : ℕ → Table → Option Table
make_transitively_closed zero t = none
make_transitively_closed (suc fuel) t =
    let s = close_pass t in
    elim s.changed [ true ↦ make_transitively_closed fuel s.table | false ↦ some s.table ]

-- `MakeSymmetric`, with its check.
pub symmetric_at : ℕ → ℕ → Option Table → Option Table
unfolding entry set_entry
symmetric_at a b none = none
symmetric_at a b (some t) =
    if is_left_first (entry t a b)
    then (if is_left_first (entry t b a) then none else some (set_entry t b a right_first))
    else some t

unfoldable pub make_symmetric : Table → Option Table
unfolding for_levels symmetric_at
make_symmetric t =
    for_levels num_precedence_levels 0
      (λ a s. for_levels num_precedence_levels 0 (symmetric_at a) s) (some t)

-- `AddAssociativityRules`
diagonal : List PrecedenceLevel → OperatorPriority → Table → Table
unfolding set_entry level_index
diagonal [] p t = t
diagonal (l ∷ rest) p t = diagonal rest p (set_entry t (level_index l) (level_index l) p)

unfoldable pub add_associativity_rules : Table → Table
unfolding diagonal
add_associativity_rules t =
    let t = diagonal (term_prefix ∷ conditional ∷ []) right_first t in
    let t = diagonal (type_postfix ∷ []) left_first t in
    diagonal
      (multiplicative ∷ additive ∷ bitwise_and ∷ bitwise_or ∷ bitwise_xor ∷ logical_and ∷ logical_or
        ∷ [])
      left_first t

-- `ConsistencyCheck` at one level.
pub consistent_at : Table → ℕ → Bool → Bool
unfolding entry level_index
consistent_at t level ok =
    let top = level_index highest in
    let bottom = level_index lowest in
    ok
    && (level == top || is_left_first (entry t top level) && is_right_first (entry t level top))
    && (level == bottom
        || is_right_first (entry t bottom level) && is_left_first (entry t level bottom))

unfoldable pub consistency_check : Table → Bool
unfolding for_levels consistent_at
consistency_check t = for_levels num_precedence_levels 0 (consistent_at t) true

checked : Table → Option Table
unfolding consistency_check
checked t = if consistency_check t then some t else none

finish_table : Option Table → Option Table
unfolding add_associativity_rules checked
finish_table none = none
finish_table (some t) = checked (add_associativity_rules t)

symmetric_table : Option Table → Option Table
unfolding make_symmetric
symmetric_table none = none
symmetric_table (some t) = make_symmetric t

-- The constructor `OperatorPriorityTable()`. Each pass but the last adds an entry, so one more
-- pass than there are entries is enough.
unfoldable pub operator_priority_table : Option Table
unfolding declared close_pass make_transitively_closed symmetric_table finish_table
operator_priority_table = finish_table (
    symmetric_table
      (make_transitively_closed (suc (num_precedence_levels * num_precedence_levels)) declared))
