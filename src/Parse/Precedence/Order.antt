-- ===== src/Parse/Precedence/Order.antt =====
-- What `GetPriority` promises: the order that Precedence.cc lists, closed and made symmetric.
use cocktail_lang.Prelude.{
  ℕ, ◌<◌, ◌≡◌, refl, true, Bool, ◌&&◌, ◌||◌, not, some, ◌↔◌, ◌≢◌, arith, all_below, all_below_sound,
  ◌==◌, List, [], length, get_or, get_or_range, ==_iff, ap, iff_trans, iff_trans,
}
use cocktail_lang.Parse.Precedence.Level.{
  OperatorPriority, ambiguous, left_first, right_first, PrecedenceLevel, level_index,
  level_index-lt, num_precedence_levels,
}
use cocktail_lang.Parse.Precedence.Table.{
  Table, entry, is_left_first, is_right_first, declared, make_transitively_closed, close_pass,
  operator_priority_table,
}
use cocktail_lang.Parse.Precedence.Table.Closure.{
  Higher, listed, chain, make_transitively_closed_sound,
}
use cocktail_lang.Parse.Precedence.Table.Closed.{closed_rows}
use cocktail_lang.Parse.Precedence.Table.Final.{final_rows}
use cocktail_lang.Parse.Precedence.Operators.{compiled, group, lookup_table, get_priority}

-- The loop ends within the fuel.
closed_rows_lem : make_transitively_closed 485 declared ≡ some closed_rows
unfolding make_transitively_closed close_pass declared
closed_rows_lem = refl

-- All checks of the constructor succeed.
final_rows_lem : operator_priority_table ≡ some final_rows
unfolding operator_priority_table
final_rows_lem = refl

-- A relation of the closed table holds in each direction in the final one, which off the
-- diagonal has no other; and the closed table is transitive, irreflexive and keeps what is listed.
agrees_at : Table → Table → Table → ℕ → ℕ → Bool
agrees_at d c t a b =
    (not (is_left_first (entry d a b)) || is_left_first (entry c a b))
    && (a == b
        || ((is_left_first (entry t a b) && is_left_first (entry c a b))
            || (not (is_left_first (entry t a b)) && not (is_left_first (entry c a b)))))
    && (a == b
        || ((is_right_first (entry t a b) && is_left_first (entry c b a))
            || (not (is_right_first (entry t a b)) && not (is_left_first (entry c b a)))))
    && not (is_left_first (entry c a a))

agrees : Table → Table → Table → Bool
unfolding agrees_at all_below entry
agrees d c t =
    all_below num_precedence_levels (λ a. all_below num_precedence_levels (agrees_at d c t a))

transitive_at : Table → ℕ → ℕ → ℕ → Bool
transitive_at c x y z =
    not (is_left_first (entry c x y))
    || not (is_left_first (entry c y z))
    || is_left_first (entry c x z)

transitive : Table → Bool
unfolding transitive_at all_below entry
transitive c = all_below num_precedence_levels (λ x.
    all_below num_precedence_levels (λ y. all_below num_precedence_levels (transitive_at c x y)))

tables_agree : agrees declared closed_rows final_rows ≡ true
unfolding agrees declared
tables_agree = refl

closed_rows-transitive : transitive closed_rows ≡ true
unfolding transitive
closed_rows-transitive = refl

all_agree :
    (a b : ℕ)
    → a < num_precedence_levels
    → b < num_precedence_levels
    → agrees_at declared closed_rows final_rows a b ≡ true
unfolding agrees
all_agree a b ha hb =
    all_below_sound num_precedence_levels (agrees_at declared closed_rows final_rows a) b
      (all_below_sound num_precedence_levels
        (λ a. all_below num_precedence_levels (agrees_at declared closed_rows final_rows a)) a
        tables_agree ha)
      hb

closed_rows_trans :
    (x y z : ℕ)
    → x < num_precedence_levels
    → y < num_precedence_levels
    → z < num_precedence_levels
    → entry closed_rows x y ≡ left_first
    → entry closed_rows y z ≡ left_first
    → entry closed_rows x z ≡ left_first
unfolding transitive_at
closed_rows_trans x y z hx hy hz p q = ground (arith, at)
  where
    at : transitive_at closed_rows x y z ≡ true
    at =
        all_below_sound num_precedence_levels (transitive_at closed_rows x y) z
          (all_below_sound num_precedence_levels
            (λ y. all_below num_precedence_levels (transitive_at closed_rows x y)) y
            (all_below_sound num_precedence_levels
              (λ x.
                all_below num_precedence_levels
                  (λ y. all_below num_precedence_levels (transitive_at closed_rows x y)))
              x (unfold transitive in closed_rows-transitive) hx)
            hy)
          hz

-- Each row of `declared` has an entry for each level.
declared_rows : all_below num_precedence_levels (λ a. length (get_or declared a []) == 22) ≡ true
unfolding all_below declared
declared_rows = refl

declared-length : length declared ≡ 22
unfolding declared
declared-length = refl

declared_range :
    (a b : ℕ)
    → entry declared a b ≡ left_first
    → (a < num_precedence_levels) × (b < num_precedence_levels)
unfolding entry
declared_range a b h = (in_rows, in_row)
  where
    in_rows : a < num_precedence_levels
    in_rows = omega (
      arith,
      declared-length,
      get_or_range declared a []
          (λ e. cc (ap (λ (r : List OperatorPriority). get_or r b ambiguous) e)),
    )

    in_row : b < num_precedence_levels
    in_row = omega (
      arith,
      get_or_range (get_or declared a []) b ambiguous (λ e. cc),
      (==_iff _ _).0 (
          all_below_sound num_precedence_levels (λ a. length (get_or declared a []) == 22) a
            declared_rows in_rows),
    )

-- What `agrees` says of one pair of levels.
module _ (a b : ℕ) (ha : a < num_precedence_levels) (hb : b < num_precedence_levels) where
  closed_of_declared : entry declared a b ≡ left_first → entry closed_rows a b ≡ left_first
  unfolding agrees_at
  closed_of_declared h = ground (arith, all_agree a b ha hb)

  final_left : a ≢ b → (entry final_rows a b ≡ left_first) ↔ (entry closed_rows a b ≡ left_first)
  unfolding agrees_at
  final_left ne = ground (arith, all_agree a b ha hb)

  final_right : a ≢ b → (entry final_rows a b ≡ right_first) ↔ (entry closed_rows b a ≡ left_first)
  unfolding agrees_at
  final_right ne = ground (arith, all_agree a b ha hb)

  closed_irreflexive : entry closed_rows a a ≢ left_first
  unfolding agrees_at
  closed_irreflexive h = ground (arith, all_agree a b ha hb)

-- What follows from the listed relations is in the closed table.
closed_rows_complete :
    (x y : ℕ)
    → Higher declared x y
    → (x < num_precedence_levels)
      × (y < num_precedence_levels)
      × (entry closed_rows x y ≡ left_first)
closed_rows_complete x y (listed h) =
    let (hx, hy) = declared_range x y h in (hx, hy, closed_of_declared x y hx hy h)
closed_rows_complete x z (chain {b = y} p q) =
    let (hx, hy, xy) = closed_rows_complete x y p in
    let (_, hz, yz) = closed_rows_complete y z q in (hx, hz, closed_rows_trans x y z hx hy hz xy yz)

closed_rows_iff : (x y : ℕ) → (entry closed_rows x y ≡ left_first) ↔ Higher declared x y
closed_rows_iff x y = (
  make_transitively_closed_sound 485 declared x y closed_rows_lem,
  λ h. (closed_rows_complete x y h).2,
)

pub get_priority_lem :
    (a b : PrecedenceLevel)
    → get_priority (group a) (group b) ≡ entry final_rows (level_index a) (level_index b)
unfolding get_priority lookup_table
get_priority_lem a b = ap (λ o. entry (compiled o) (level_index a) (level_index b)) final_rows_lem

-- Of two groups that differ, the left one goes first exactly if a chain of the relations listed in
-- `OperatorPriorityTable()` leads from it down to the right one, and the right one goes first
-- exactly if such a chain leads from the right one down to the left one.
pub get_priority_order :
    (a b : PrecedenceLevel)
    → level_index a ≢ level_index b
    → ((get_priority (group a) (group b) ≡ left_first)
        ↔ Higher declared (level_index a) (level_index b))
      × ((get_priority (group a) (group b) ≡ right_first)
          ↔ Higher declared (level_index b) (level_index a))
get_priority_order a b ne = rw get_priority_lem (
  (iff_trans (final_left _ _ ha hb ne) (closed_rows_iff _ _)),
  (iff_trans (final_right _ _ ha hb ne) (closed_rows_iff _ _)),
)
  where
    ha : level_index a < num_precedence_levels
    ha = level_index-lt a

    hb : level_index b < num_precedence_levels
    hb = level_index-lt b

-- No chain of the listed relations comes back to where it began.
pub Higher-irreflexive : (x : ℕ) → ¬ (Higher declared x x)
Higher-irreflexive x h =
    let (hx, _, e) = closed_rows_complete x x h in closed_irreflexive x x hx hx e
