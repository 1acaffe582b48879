-- ===== src/Parse/Precedence/Table/Final.antt =====
-- The finished table, row by row, in the order of the enumeration.
use cocktail_lang.Prelude.{[], ◌∷◌}
use cocktail_lang.Parse.Precedence.Level.{left_first, ambiguous, right_first}
use cocktail_lang.Parse.Precedence.Table.{Table}

-- The table that `GetPriority` reads.
abbrev pub final_rows : Table
final_rows =
    (ambiguous ∷ left_first ∷ left_first ∷ left_first ∷ left_first ∷ left_first ∷ left_first
      ∷ left_first ∷ left_first ∷ left_first ∷ left_first ∷ left_first ∷ left_first ∷ left_first
      ∷ left_first ∷ left_first ∷ left_first ∷ left_first ∷ left_first ∷ left_first ∷ left_first
      ∷ left_first ∷ [])
    ∷ (right_first ∷ right_first ∷ left_first ∷ left_first ∷ left_first ∷ left_first ∷ left_first
        ∷ left_first ∷ left_first ∷ left_first ∷ left_first ∷ left_first ∷ ambiguous ∷ ambiguous
        ∷ left_first ∷ ambiguous ∷ left_first ∷ left_first ∷ left_first ∷ left_first ∷ left_first
        ∷ left_first ∷ [])
    ∷ (right_first ∷ right_first ∷ ambiguous ∷ ambiguous ∷ ambiguous ∷ ambiguous ∷ ambiguous
        ∷ ambiguous ∷ ambiguous ∷ ambiguous ∷ ambiguous ∷ ambiguous ∷ ambiguous ∷ ambiguous
        ∷ ambiguous ∷ ambiguous ∷ ambiguous ∷ ambiguous ∷ ambiguous ∷ ambiguous ∷ ambiguous
        ∷ left_first ∷ [])
    ∷ (right_first ∷ right_first ∷ ambiguous ∷ ambiguous ∷ left_first ∷ left_first ∷ left_first
        ∷ ambiguous ∷ left_first ∷ left_first ∷ left_first ∷ left_first ∷ ambiguous ∷ ambiguous
        ∷ left_first ∷ ambiguous ∷ left_first ∷ left_first ∷ left_first ∷ left_first ∷ left_first
        ∷ left_first ∷ [])
    ∷ (right_first ∷ right_first ∷ ambiguous ∷ right_first ∷ ambiguous ∷ ambiguous ∷ ambiguous
        ∷ right_first ∷ ambiguous ∷ ambiguous ∷ ambiguous ∷ ambiguous ∷ ambiguous ∷ ambiguous
        ∷ ambiguous ∷ ambiguous ∷ left_first ∷ left_first ∷ left_first ∷ left_first ∷ left_first
        ∷ left_first ∷ [])
    ∷ (right_first ∷ right_first ∷ ambiguous ∷ right_first ∷ ambiguous ∷ left_first ∷ left_first
        ∷ right_first ∷ ambiguous ∷ ambiguous ∷ ambiguous ∷ ambiguous ∷ ambiguous ∷ ambiguous
        ∷ ambiguous ∷ ambiguous ∷ left_first ∷ left_first ∷ left_first ∷ left_first ∷ left_first
        ∷ left_first ∷ [])
    ∷ (right_first ∷ right_first ∷ ambiguous ∷ right_first ∷ ambiguous ∷ right_first ∷ left_first
        ∷ right_first ∷ ambiguous ∷ ambiguous ∷ ambiguous ∷ ambiguous ∷ ambiguous ∷ ambiguous
        ∷ ambiguous ∷ ambiguous ∷ left_first ∷ left_first ∷ left_first ∷ left_first ∷ left_first
        ∷ left_first ∷ [])
    ∷ (right_first ∷ right_first ∷ ambiguous ∷ ambiguous ∷ left_first ∷ left_first ∷ left_first
        ∷ ambiguous ∷ left_first ∷ left_first ∷ left_first ∷ left_first ∷ ambiguous ∷ ambiguous
        ∷ left_first ∷ ambiguous ∷ left_first ∷ left_first ∷ left_first ∷ left_first ∷ left_first
        ∷ left_first ∷ [])
    ∷ (right_first ∷ right_first ∷ ambiguous ∷ right_first ∷ ambiguous ∷ ambiguous ∷ ambiguous
        ∷ right_first ∷ left_first ∷ ambiguous ∷ ambiguous ∷ ambiguous ∷ ambiguous ∷ ambiguous
        ∷ ambiguous ∷ ambiguous ∷ left_first ∷ left_first ∷ left_first ∷ left_first ∷ left_first
        ∷ left_first ∷ [])
    ∷ (right_first ∷ right_first ∷ ambiguous ∷ right_first ∷ ambiguous ∷ ambiguous ∷ ambiguous
        ∷ right_first ∷ ambiguous ∷ left_first ∷ ambiguous ∷ ambiguous ∷ ambiguous ∷ ambiguous
        ∷ ambiguous ∷ ambiguous ∷ left_first ∷ left_first ∷ left_first ∷ left_first ∷ left_first
        ∷ left_first ∷ [])
    ∷ (right_first ∷ right_first ∷ ambiguous ∷ right_first ∷ ambiguous ∷ ambiguous ∷ ambiguous
        ∷ right_first ∷ ambiguous ∷ ambiguous ∷ left_first ∷ ambiguous ∷ ambiguous ∷ ambiguous
        ∷ ambiguous ∷ ambiguous ∷ left_first ∷ left_first ∷ left_first ∷ left_first ∷ left_first
        ∷ left_first ∷ [])
    ∷ (right_first ∷ right_first ∷ ambiguous ∷ right_first ∷ ambiguous ∷ ambiguous ∷ ambiguous
        ∷ right_first ∷ ambiguous ∷ ambiguous ∷ ambiguous ∷ ambiguous ∷ ambiguous ∷ ambiguous
        ∷ ambiguous ∷ ambiguous ∷ left_first ∷ left_first ∷ left_first ∷ left_first ∷ left_first
        ∷ left_first ∷ [])
    ∷ (right_first ∷ ambiguous ∷ ambiguous ∷ ambiguous ∷ ambiguous ∷ ambiguous ∷ ambiguous
        ∷ ambiguous ∷ ambiguous ∷ ambiguous ∷ ambiguous ∷ ambiguous ∷ ambiguous ∷ left_first
        ∷ left_first ∷ ambiguous ∷ left_first ∷ left_first ∷ left_first ∷ left_first ∷ left_first
        ∷ left_first ∷ [])
    ∷ (right_first ∷ ambiguous ∷ ambiguous ∷ ambiguous ∷ ambiguous ∷ ambiguous ∷ ambiguous
        ∷ ambiguous ∷ ambiguous ∷ ambiguous ∷ ambiguous ∷ ambiguous ∷ right_first ∷ left_first
        ∷ left_first ∷ ambiguous ∷ left_first ∷ left_first ∷ left_first ∷ left_first ∷ left_first
        ∷ left_first ∷ [])
    ∷ (right_first ∷ right_first ∷ ambiguous ∷ right_first ∷ ambiguous ∷ ambiguous ∷ ambiguous
        ∷ right_first ∷ ambiguous ∷ ambiguous ∷ ambiguous ∷ ambiguous ∷ right_first ∷ right_first
        ∷ ambiguous ∷ ambiguous ∷ left_first ∷ left_first ∷ left_first ∷ left_first ∷ left_first
        ∷ left_first ∷ [])
    ∷ (right_first ∷ ambiguous ∷ ambiguous ∷ ambiguous ∷ ambiguous ∷ ambiguous ∷ ambiguous
        ∷ ambiguous ∷ ambiguous ∷ ambiguous ∷ ambiguous ∷ ambiguous ∷ ambiguous ∷ ambiguous
        ∷ ambiguous ∷ ambiguous ∷ ambiguous ∷ left_first ∷ left_first ∷ left_first ∷ left_first
        ∷ left_first ∷ [])
    ∷ (right_first ∷ right_first ∷ ambiguous ∷ right_first ∷ right_first ∷ right_first ∷ right_first
        ∷ right_first ∷ right_first ∷ right_first ∷ right_first ∷ right_first ∷ right_first
        ∷ right_first ∷ right_first ∷ ambiguous ∷ ambiguous ∷ left_first ∷ left_first ∷ left_first
        ∷ left_first ∷ left_first ∷ [])
    ∷ (right_first ∷ right_first ∷ ambiguous ∷ right_first ∷ right_first ∷ right_first ∷ right_first
        ∷ right_first ∷ right_first ∷ right_first ∷ right_first ∷ right_first ∷ right_first
        ∷ right_first ∷ right_first ∷ right_first ∷ right_first ∷ left_first ∷ ambiguous
        ∷ left_first ∷ left_first ∷ left_first ∷ [])
    ∷ (right_first ∷ right_first ∷ ambiguous ∷ right_first ∷ right_first ∷ right_first ∷ right_first
        ∷ right_first ∷ right_first ∷ right_first ∷ right_first ∷ right_first ∷ right_first
        ∷ right_first ∷ right_first ∷ right_first ∷ right_first ∷ ambiguous ∷ left_first
        ∷ left_first ∷ left_first ∷ left_first ∷ [])
    ∷ (right_first ∷ right_first ∷ ambiguous ∷ right_first ∷ right_first ∷ right_first ∷ right_first
        ∷ right_first ∷ right_first ∷ right_first ∷ right_first ∷ right_first ∷ right_first
        ∷ right_first ∷ right_first ∷ right_first ∷ right_first ∷ right_first ∷ right_first
        ∷ right_first ∷ left_first ∷ left_first ∷ [])
    ∷ (right_first ∷ right_first ∷ ambiguous ∷ right_first ∷ right_first ∷ right_first ∷ right_first
        ∷ right_first ∷ right_first ∷ right_first ∷ right_first ∷ right_first ∷ right_first
        ∷ right_first ∷ right_first ∷ right_first ∷ right_first ∷ right_first ∷ right_first
        ∷ right_first ∷ ambiguous ∷ left_first ∷ [])
    ∷ (right_first ∷ right_first ∷ right_first ∷ right_first ∷ right_first ∷ right_first
        ∷ right_first ∷ right_first ∷ right_first ∷ right_first ∷ right_first ∷ right_first
        ∷ right_first ∷ right_first ∷ right_first ∷ right_first ∷ right_first ∷ right_first
        ∷ right_first ∷ right_first ∷ right_first ∷ ambiguous ∷ [])
    ∷ []
