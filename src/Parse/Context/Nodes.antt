-- ===== src/Parse/Context/Nodes.antt =====
-- The nodes of the parse tree: `AddLeafNode` and `AddNode` build a forest in postorder.
use cocktail_lang.Prelude.{
  ℕ, ◌+◌, ◌-◌, ◌≤◌, ◌≡◌, ◌∙◌, ap, sym, Bool, List, [], ◌∷◌, ◌++◌, arith, length, take, drop,
  length-drop, take-append-drop, append_assoc,
}
use mathlib.Core.Path.{subst}
use cocktail_lang.Parse.NodeKind.{NodeKind}
use cocktail_lang.Parse.Context.{Context, NodeImpl, add_node, tree_size}

-- A row of trees in postorder: the root of a tree stands behind the trees of its children, and its
-- size counts them and itself.
pub data IsForest : List NodeImpl → Type 0 where
  no_tree : IsForest []
  tree :
      (before children : List NodeImpl) (root : NodeImpl)
      → IsForest before
      → IsForest children
      → root.subtree_size ≡ length children + 1
      → IsForest (before ++ (children ++ root ∷ []))

-- A node that is added behind a row of trees, over those from an offset on that lies between two
-- trees, gives a row of trees again.
pub add_node-IsForest :
    (kind : NodeKind) (token subtree_start : ℕ) (has_error : Bool) (c : Context)
    → subtree_start ≤ tree_size c
    → IsForest (take subtree_start c.nodes)
    → IsForest (drop subtree_start c.nodes)
    → IsForest (add_node kind token subtree_start has_error c).nodes
unfolding add_node
add_node-IsForest kind token start has_error c fits before children =
    let first = take start c.nodes in
    let rest = drop start c.nodes in
    let root : NodeImpl = record {
      kind = kind;
      has_error = has_error;
      token = token;
      subtree_size = tree_size c - start + 1;
    } in
    let size_eq : tree_size c - start + 1 ≡ length rest + 1 =
      omega (arith, length-drop {0} start c.nodes) in
    let nodes_eq : first ++ (rest ++ root ∷ []) ≡ c.nodes ++ root ∷ [] =
      sym (append_assoc first rest (root ∷ []))
      ∙ ap (λ (xs : List NodeImpl). xs ++ root ∷ []) (take-append-drop start c.nodes) in
    subst IsForest nodes_eq (tree first rest root before children size_eq)
