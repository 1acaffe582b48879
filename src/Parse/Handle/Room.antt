-- ===== src/Parse/Handle/Room.antt =====
-- The check on the size of the stack of states, where there is room.
use cocktail_lang.Prelude.{◌+◌, ◌<◌, ◌≡◌, refl, lt→ltb, some, List, ◌∷◌, length}
use cocktail_lang.Parse.Context.{Context, StateStackEntry, push_entry}

-- Room on the stack of states.
pub pushes :
    (top : StateStackEntry) (below : List StateStackEntry) (c : Context)
    → c.state_stack ≡ below
    → length below + 1 < 1048576
    → push_entry top c ≡ some (record c { state_stack = top ∷ below })
unfolding push_entry
pushes top below c e room = rw (e, lt→ltb (length below + 1) 1048576 room, push_entry) refl
