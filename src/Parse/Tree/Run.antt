-- ===== src/Parse/Tree/Run.antt =====
-- `Tree::Parse` of lib/Parse/Tree.cc with its loop over the handlers.
use cocktail_lang.Prelude.{ℕ, zero, suc, false, none, some, List, [], ◌∷◌}
use cocktail_lang.Lex.TokenizedBuffer.{TokenizedBuffer}
use cocktail_lang.Parse.NodeKind.{file_end}
use cocktail_lang.Parse.Context.{Context, StateStackEntry, add_leaf_node}
use cocktail_lang.Parse.Handle.Dispatch.{handle_state}
use cocktail_lang.Parse.Tree.{Verified, ok, invalid, check_failed, verify, parse_start}

-- How `Tree::Parse` ends: with a tree, or fatally. It is still in its loop where the fuel ends.
pub data ParseOutcome : Type 0 where
  parsed : Context → ParseOutcome
  fatal : ParseOutcome
  still_parsing : Context → ParseOutcome

abbrev pub if_verified : Verified Unit → Context → ParseOutcome
if_verified (ok v) c = parsed c
if_verified (invalid e) c = fatal
if_verified check_failed c = fatal

-- Behind the loop: the end of the file, and the check of the tree.
unfoldable pub parse_end : ℕ → Context → ParseOutcome
unfolding add_leaf_node verify
parse_end expected c =
    let c1 = add_leaf_node file_end c.position false c in
    if_verified (verify c1.has_errors c1.nodes expected) c1

-- The loop: the handler of the state on top of the stack, until there is none.
unfoldable pub parse_loop : ℕ → ℕ → List StateStackEntry → Context → ParseOutcome
unfolding handle_state parse_end
parse_loop expected fuel [] c = parse_end expected c
parse_loop expected zero (entry ∷ below) c = still_parsing c
parse_loop expected (suc fuel) (entry ∷ below) c = elim (handle_state entry.state c) [
  | none ↦ fatal
  | some c' ↦ parse_loop expected fuel c'.state_stack c'
]

-- `Tree::Parse`, for the number of nodes that the tokens are expected to have.
unfoldable pub parse : ℕ → ℕ → TokenizedBuffer → ParseOutcome
unfolding parse_start parse_loop
parse expected fuel b = elim (parse_start b) [
  | none ↦ fatal
  | some c ↦ parse_loop expected fuel c.state_stack c
]
