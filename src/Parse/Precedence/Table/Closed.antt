-- ===== src/Parse/Precedence/Table/Closed.antt =====
-- The table after `MakeTransitivelyClosed`, row by row, in the order of the enumeration.
use cocktail_lang.Prelude.{[], ◌∷◌}
use cocktail_lang.Parse.Precedence.Level.{left_first, ambiguous}
use cocktail_lang.Parse.Precedence.Table.{Table}

-- The relations that are listed and those that follow.
abbrev pub closed_rows : Table
closed_rows =
    (ambiguous ∷ left_first ∷ left_first ∷ left_first ∷ left_first ∷ left_first ∷ left_first
      ∷ left_first ∷ left_first ∷ left_first ∷ left_first ∷ left_first ∷ left_first ∷ left_first
      ∷ left_first ∷ left_first ∷ left_first ∷ left_first ∷ left_first ∷ left_first ∷ left_first
      ∷ left_first ∷ [])
    ∷ (ambiguous ∷ ambiguous ∷ left_first ∷ left_first ∷ left_first ∷ left_first ∷ left_first
        ∷ left_first ∷ left_first ∷ left_first ∷ left_first ∷ left_first ∷ ambiguous ∷ ambiguous
        ∷ left_first ∷ ambiguous ∷ left_first ∷ left_first ∷ left_first ∷ left_first ∷ left_first
        ∷ left_first ∷ [])
    ∷ (ambiguous ∷ ambiguous ∷ ambiguous ∷ ambiguous ∷ ambiguous ∷ ambiguous ∷ ambiguous ∷ ambiguous
        ∷ ambiguous ∷ ambiguous ∷ ambiguous ∷ ambiguous ∷ ambiguous ∷ ambiguous ∷ ambiguous
        ∷ ambiguous ∷ ambiguous ∷ ambiguous ∷ ambiguous ∷ ambiguous ∷ ambiguous ∷ left_first ∷ [])
    ∷ (ambiguous ∷ ambiguous ∷ ambiguous ∷ ambiguous ∷ left_first ∷ left_first ∷ left_first
        ∷ ambiguous ∷ left_first ∷ left_first ∷ left_first ∷ left_first ∷ ambiguous ∷ ambiguous
        ∷ left_first ∷ ambiguous ∷ left_first ∷ left_first ∷ left_first ∷ left_first ∷ left_first
        ∷ left_first ∷ [])
    ∷ (ambiguous ∷ ambiguous ∷ ambiguous ∷ ambiguous ∷ ambiguous ∷ ambiguous ∷ ambiguous ∷ ambiguous
        ∷ ambiguous ∷ ambiguous ∷ ambiguous ∷ ambiguous ∷ ambiguous ∷ ambiguous ∷ ambiguous
        ∷ ambiguous ∷ left_first ∷ left_first ∷ left_first ∷ left_first ∷ left_first ∷ left_first
        ∷ [])
    ∷ (ambiguous ∷ ambiguous ∷ ambiguous ∷ ambiguous ∷ ambiguous ∷ ambiguous ∷ left_first
        ∷ ambiguous ∷ ambiguous ∷ ambiguous ∷ ambiguous ∷ ambiguous ∷ ambiguous ∷ ambiguous
        ∷ ambiguous ∷ ambiguous ∷ left_first ∷ left_first ∷ left_first ∷ left_first ∷ left_first
        ∷ left_first ∷ [])
    ∷ (ambiguous ∷ ambiguous ∷ ambiguous ∷ ambiguous ∷ ambiguous ∷ ambiguous ∷ ambiguous ∷ ambiguous
        ∷ ambiguous ∷ ambiguous ∷ ambiguous ∷ ambiguous ∷ ambiguous ∷ ambiguous ∷ ambiguous
        ∷ ambiguous ∷ left_first ∷ left_first ∷ left_first ∷ left_first ∷ left_first ∷ left_first
        ∷ [])
    ∷ (ambiguous ∷ ambiguous ∷ ambiguous ∷ ambiguous ∷ left_first ∷ left_first ∷ left_first
        ∷ ambiguous ∷ left_first ∷ left_first ∷ left_first ∷ left_first ∷ ambiguous ∷ ambiguous
        ∷ left_first ∷ ambiguous ∷ left_first ∷ left_first ∷ left_first ∷ left_first ∷ left_first
        ∷ left_first ∷ [])
    ∷ (ambiguous ∷ ambiguous ∷ ambiguous ∷ ambiguous ∷ ambiguous ∷ ambiguous ∷ ambiguous ∷ ambiguous
        ∷ ambiguous ∷ ambiguous ∷ ambiguous ∷ ambiguous ∷ ambiguous ∷ ambiguous ∷ ambiguous
        ∷ ambiguous ∷ left_first ∷ left_first ∷ left_first ∷ left_first ∷ left_first ∷ left_first
        ∷ [])
    ∷ (ambiguous ∷ ambiguous ∷ ambiguous ∷ ambiguous ∷ ambiguous ∷ ambiguous ∷ ambiguous ∷ ambiguous
        ∷ ambiguous ∷ ambiguous ∷ ambiguous ∷ ambiguous ∷ ambiguous ∷ ambiguous ∷ ambiguous
        ∷ ambiguous ∷ left_first ∷ left_first ∷ left_first ∷ left_first ∷ left_first ∷ left_first
        ∷ [])
    ∷ (ambiguous ∷ ambiguous ∷ ambiguous ∷ ambiguous ∷ ambiguous ∷ ambiguous ∷ ambiguous ∷ ambiguous
        ∷ ambiguous ∷ ambiguous ∷ ambiguous ∷ ambiguous ∷ ambiguous ∷ ambiguous ∷ ambiguous
        ∷ ambiguous ∷ left_first ∷ left_first ∷ left_first ∷ left_first ∷ left_first ∷ left_first
        ∷ [])
    ∷ (ambiguous ∷ ambiguous ∷ ambiguous ∷ ambiguous ∷ ambiguous ∷ ambiguous ∷ ambiguous ∷ ambiguous
        ∷ ambiguous ∷ ambiguous ∷ ambiguous ∷ ambiguous ∷ ambiguous ∷ ambiguous ∷ ambiguous
        ∷ ambiguous ∷ left_first ∷ left_first ∷ left_first ∷ left_first ∷ left_first ∷ left_first
        ∷ [])
    ∷ (ambiguous ∷ ambiguous ∷ ambiguous ∷ ambiguous ∷ ambiguous ∷ ambiguous ∷ ambiguous ∷ ambiguous
        ∷ ambiguous ∷ ambiguous ∷ ambiguous ∷ ambiguous ∷ ambiguous ∷ left_first ∷ left_first
        ∷ ambiguous ∷ left_first ∷ left_first ∷ left_first ∷ left_first ∷ left_first ∷ left_first
        ∷ [])
    ∷ (ambiguous ∷ ambiguous ∷ ambiguous ∷ ambiguous ∷ ambiguous ∷ ambiguous ∷ ambiguous ∷ ambiguous
        ∷ ambiguous ∷ ambiguous ∷ ambiguous ∷ ambiguous ∷ ambiguous ∷ ambiguous ∷ left_first
        ∷ ambiguous ∷ left_first ∷ left_first ∷ left_first ∷ left_first ∷ left_first ∷ left_first
        ∷ [])
    ∷ (ambiguous ∷ ambiguous ∷ ambiguous ∷ ambiguous ∷ ambiguous ∷ ambiguous ∷ ambiguous ∷ ambiguous
        ∷ ambiguous ∷ ambiguous ∷ ambiguous ∷ ambiguous ∷ ambiguous ∷ ambiguous ∷ ambiguous
        ∷ ambiguous ∷ left_first ∷ left_first ∷ left_first ∷ left_first ∷ left_first ∷ left_first
        ∷ [])
    ∷ (ambiguous ∷ ambiguous ∷ ambiguous ∷ ambiguous ∷ ambiguous ∷ ambiguous ∷ ambiguous ∷ ambiguous
        ∷ ambiguous ∷ ambiguous ∷ ambiguous ∷ ambiguous ∷ ambiguous ∷ ambiguous ∷ ambiguous
        ∷ ambiguous ∷ ambiguous ∷ left_first ∷ left_first ∷ left_first ∷ left_first ∷ left_first
        ∷ [])
    ∷ (ambiguous ∷ ambiguous ∷ ambiguous ∷ ambiguous ∷ ambiguous ∷ ambiguous ∷ ambiguous ∷ ambiguous
        ∷ ambiguous ∷ ambiguous ∷ ambiguous ∷ ambiguous ∷ ambiguous ∷ ambiguous ∷ ambiguous
        ∷ ambiguous ∷ ambiguous ∷ left_first ∷ left_first ∷ left_first ∷ left_first ∷ left_first
        ∷ [])
    ∷ (ambiguous ∷ ambiguous ∷ ambiguous ∷ ambiguous ∷ ambiguous ∷ ambiguous ∷ ambiguous ∷ ambiguous
        ∷ ambiguous ∷ ambiguous ∷ ambiguous ∷ ambiguous ∷ ambiguous ∷ ambiguous ∷ ambiguous
        ∷ ambiguous ∷ ambiguous ∷ ambiguous ∷ ambiguous ∷ left_first ∷ left_first ∷ left_first ∷ [])
    ∷ (ambiguous ∷ ambiguous ∷ ambiguous ∷ ambiguous ∷ ambiguous ∷ ambiguous ∷ ambiguous ∷ ambiguous
        ∷ ambiguous ∷ ambiguous ∷ ambiguous ∷ ambiguous ∷ ambiguous ∷ ambiguous ∷ ambiguous
        ∷ ambiguous ∷ ambiguous ∷ ambiguous ∷ ambiguous ∷ left_first ∷ left_first ∷ left_first ∷ [])
    ∷ (ambiguous ∷ ambiguous ∷ ambiguous ∷ ambiguous ∷ ambiguous ∷ ambiguous ∷ ambiguous ∷ ambiguous
        ∷ ambiguous ∷ ambiguous ∷ ambiguous ∷ ambiguous ∷ ambiguous ∷ ambiguous ∷ ambiguous
        ∷ ambiguous ∷ ambiguous ∷ ambiguous ∷ ambiguous ∷ ambiguous ∷ left_first ∷ left_first ∷ [])
    ∷ (ambiguous ∷ ambiguous ∷ ambiguous ∷ ambiguous ∷ ambiguous ∷ ambiguous ∷ ambiguous ∷ ambiguous
        ∷ ambiguous ∷ ambiguous ∷ ambiguous ∷ ambiguous ∷ ambiguous ∷ ambiguous ∷ ambiguous
        ∷ ambiguous ∷ ambiguous ∷ ambiguous ∷ ambiguous ∷ ambiguous ∷ ambiguous ∷ left_first ∷ [])
    ∷ (ambiguous ∷ ambiguous ∷ ambiguous ∷ ambiguous ∷ ambiguous ∷ ambiguous ∷ ambiguous ∷ ambiguous
        ∷ ambiguous ∷ ambiguous ∷ ambiguous ∷ ambiguous ∷ ambiguous ∷ ambiguous ∷ ambiguous
        ∷ ambiguous ∷ ambiguous ∷ ambiguous ∷ ambiguous ∷ ambiguous ∷ ambiguous ∷ ambiguous ∷ [])
    ∷ []
