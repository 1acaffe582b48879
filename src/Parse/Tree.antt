-- ===== src/Parse/Tree.antt =====
-- lib/Parse/Tree.cc: the start of `Tree::Parse`, up to its loop over the handlers, and `Tree::Verify`
-- over the nodes of a tree in postorder. Run holds the loop.
pub mod Start
pub mod Shaped
pub mod Sound
pub mod Run
use cocktail_lang.Prelude.{
  ℕ, zero, suc, ◌+◌, ◌-◌, Bool, true, false, not, ◌&&◌, Option, none, some, List, [], ◌∷◌,
  if◌then◌else◌, ◌==◌, length, get_or,
}
use cocktail_lang.Lex.TokenKind.{start_of_file, package_keyword}
use cocktail_lang.Lex.TokenizedBuffer.{TokenizedBuffer}
use cocktail_lang.Parse.NodeKind.{NodeKind, file_start, invalid_parse}
use cocktail_lang.Parse.NodeKind.Shape.{same_kind, has_bracket, bracket, child_count}
use cocktail_lang.Parse.State.{declaration_scope_loop, package_state}
use cocktail_lang.Parse.Context.{
  NodeImpl, Context, new_context, consume_checked, add_leaf_node, push_state, position_is,
}

-- `Tree::Parse` before its loop; `none` is a failed check.
unfoldable pub parse_start : TokenizedBuffer → Option Context
unfolding new_context add_leaf_node push_state
parse_start b = elim (new_context b) [
  | none ↦ none
  | some c ↦ elim (consume_checked start_of_file c) [
    | none ↦ none
    | some (token, c') ↦
        elim (push_state declaration_scope_loop (add_leaf_node file_start token false c')) [
          | none ↦ none
          | some c'' ↦
              if position_is package_keyword c'' then push_state package_state c'' else some c''
        ]
  ]
]

-- What `Tree::Verify` reports, with the node.
pub data VerifyError : Type 0 where
  unmarked_error missing_bracket missing_child wrong_size misplaced_root : ℕ → VerifyError
  wrong_node_count : VerifyError

-- How `Tree::Verify` ends: the errors are returned, the check is fatal.
pub data Verified (A : Type 0) : Type 0 where
  ok : A → Verified A
  invalid : VerifyError → Verified A
  check_failed : Verified A

abbrev pub and_then : {A B : Type 0} → Verified A → (A → Verified B) → Verified B
and_then (ok a) f = f a
and_then (invalid e) f = invalid e
and_then check_failed f = check_failed

abbrev pub no_node : NodeImpl
no_node = record { kind = invalid_parse; has_error = true; token = 0; subtree_size = 0 }

abbrev pub node_at : List NodeImpl → ℕ → NodeImpl
node_at nodes n = get_or nodes n no_node

-- The `while` over the children up to the bracket: the nodes that are left, the last one first, and
-- the size.
unfoldable pub pop_to_bracket : List NodeImpl → NodeKind → List ℕ → ℕ → Option (List ℕ × ℕ)
pop_to_bracket nodes wanted [] size = none
pop_to_bracket nodes wanted (child ∷ rest) size =
    let child_impl = node_at nodes child in
    elim (same_kind wanted child_impl.kind) [
      | true ↦ some (rest, size + child_impl.subtree_size)
      | false ↦ pop_to_bracket nodes wanted rest (size + child_impl.subtree_size)
    ]

-- The `for` over a number of children.
unfoldable pub pop_children : List NodeImpl → ℕ → List ℕ → ℕ → Option (List ℕ × ℕ)
pop_children nodes zero stack size = some (stack, size)
pop_children nodes (suc count) [] size = none
pop_children nodes (suc count) (child ∷ rest) size =
    pop_children nodes count rest (size + (node_at nodes child).subtree_size)

unfoldable pub pop_subtrees : List NodeImpl → NodeKind → List ℕ → Option (List ℕ × ℕ)
unfolding pop_to_bracket pop_children
pop_subtrees nodes kind stack =
    if has_bracket kind
    then pop_to_bracket nodes (bracket kind) stack 1
    else pop_children nodes (child_count kind) stack 1

-- The size that was computed is that of the node, which goes on the stack.
unfoldable pub check_size : NodeImpl → ℕ → Option (List ℕ × ℕ) → Verified (List ℕ)
check_size impl n none =
    invalid (if has_bracket impl.kind then missing_bracket n else missing_child n)
check_size impl n (some (rest, size)) =
    if impl.subtree_size == size then ok (n ∷ rest) else invalid (wrong_size n)

-- A round of the loop over the nodes.
unfoldable pub verify_node : Bool → List NodeImpl → ℕ → NodeImpl → List ℕ → Verified (List ℕ)
unfolding pop_subtrees check_size
verify_node has_errors nodes n impl stack =
    if impl.has_error && not has_errors
    then invalid (unmarked_error n)
    else check_size impl n (pop_subtrees nodes impl.kind stack)

unfoldable pub verify_nodes : Bool → List NodeImpl → ℕ → List NodeImpl → List ℕ → Verified (List ℕ)
unfolding verify_node
verify_nodes has_errors nodes n [] stack = ok stack
verify_nodes has_errors nodes n (impl ∷ impls) stack =
    and_then (verify_node has_errors nodes n impl stack)
      (verify_nodes has_errors nodes (n + 1) impls)

-- The loop over the roots, the last of which comes first here. What is passed on is one more than
-- `prev_index`, which starts at -1.
unfoldable pub check_roots : List NodeImpl → List ℕ → Verified ℕ
check_roots nodes [] = ok 0
check_roots nodes (n ∷ rest) = and_then (check_roots nodes rest) (λ next.
    if n + 1 == next + (node_at nodes n).subtree_size
    then ok (n + 1)
    else invalid (misplaced_root n))

-- The check on the last root. Without a node the source is undefined there.
unfoldable pub last_is_root : List NodeImpl → List ℕ → Bool
last_is_root nodes [] = false
last_is_root nodes (n ∷ rest) = n + 1 == length nodes

-- `Tree::Verify`, for the number of nodes that the tokens are expected to have.
unfoldable pub verify : Bool → List NodeImpl → ℕ → Verified Unit
unfolding verify_nodes check_roots last_is_root
verify has_errors nodes expected = and_then (verify_nodes has_errors nodes 0 nodes []) (λ stack.
    if not (last_is_root nodes stack)
    then check_failed
    else and_then (check_roots nodes stack) (λ next.
      if not has_errors && not (length nodes == expected) then invalid wrong_node_count else ok tt))
