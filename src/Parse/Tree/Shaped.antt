-- ===== src/Parse/Tree/Shaped.antt =====
-- What `Tree::Verify` accepts: the nodes are trees in postorder, and each node has the children
-- that its kind asks for.
use cocktail_lang.Prelude.{
  ℕ, ◌+◌, ◌≡◌, ◌∙◌, ap, List, [], ◌∷◌, ◌++◌, length, if◌then◌else◌, arith, length-append,
  append_assoc,
}
use cocktail_lang.Parse.NodeKind.{NodeKind}
use cocktail_lang.Parse.NodeKind.Shape.{same_kind, has_bracket, bracket, child_count}
use cocktail_lang.Parse.Context.{NodeImpl}
use cocktail_lang.Parse.Tree.{node_at}

-- The kinds of the children of a node, the last one first, end with the bracket, which does not
-- stand before.
unfoldable pub EndsWithBracket : NodeKind → List NodeKind → Type 0
EndsWithBracket wanted [] = ⊥
EndsWithBracket wanted (k ∷ ks) = if same_kind wanted k then ks ≡ [] else EndsWithBracket wanted ks

-- The children that a kind of node asks for.
unfoldable pub HasShape : NodeKind → List NodeKind → Type 0
HasShape kind children =
    if has_bracket kind
    then EndsWithBracket (bracket kind) children
    else length children ≡ child_count kind

-- A row of trees in postorder, with the kinds of their roots, the last one first.
pub data Shaped : List NodeImpl → List NodeKind → Type 0 where
  no_tree : Shaped [] []
  tree :
      {before children : List NodeImpl} {ks cs : List NodeKind} (root : NodeImpl)
      → Shaped before ks
      → Shaped children cs
      → HasShape root.kind cs
      → root.subtree_size ≡ length children + 1
      → Shaped (before ++ (children ++ root ∷ [])) (root.kind ∷ ks)

-- The last tree of a row, by the position of its root.
pub record Root (nodes : List NodeImpl) (i : ℕ) (Below : List NodeImpl → Type 0) (p : List NodeImpl)
    : Type 0 where
  pub before : List NodeImpl
  pub children : List NodeImpl
  pub kinds : List NodeKind
  pub splits : p ≡ before ++ (children ++ node_at nodes i ∷ [])
  pub below : Below before
  pub shaped : Shaped children kinds
  pub shape : HasShape (node_at nodes i).kind kinds
  pub size : (node_at nodes i).subtree_size ≡ length children + 1

-- The stack holds the roots of the trees that a part of the nodes is.
unfoldable pub Stacked : List NodeImpl → List ℕ → List NodeImpl → Type 0
Stacked nodes [] p = p ≡ []
Stacked nodes (i ∷ is) p = Root nodes i (Stacked nodes is) p

-- What is popped from the stack are trees, which lie behind those that are left.
pub record Popped (nodes : List NodeImpl) (p : List NodeImpl) (start : ℕ) (rest : List ℕ) (size : ℕ)
    (Fits : List NodeKind → Type 0) : Type 0 where
  pub before : List NodeImpl
  pub taken : List NodeImpl
  pub kinds : List NodeKind
  pub splits : p ≡ before ++ taken
  pub left : Stacked nodes rest before
  pub shaped : Shaped taken kinds
  pub fits : Fits kinds
  pub counted : size ≡ start + length taken

-- One more tree is popped before others.
pub Popped-one :
    (nodes p : List NodeImpl) (i : ℕ) (is rest : List ℕ) (start size : ℕ)
    (Fits Fits' : List NodeKind → Type 0) (r : Root nodes i (Stacked nodes is) p)
    → Popped nodes r.before (start + (node_at nodes i).subtree_size) rest size Fits
    → ((ks : List NodeKind) → Fits ks → Fits' ((node_at nodes i).kind ∷ ks))
    → Popped nodes p start rest size Fits'
Popped-one nodes p i is rest start size Fits Fits' r q f = record {
  before = q.before;
  taken = q.taken ++ (r.children ++ node_at nodes i ∷ []);
  kinds = (node_at nodes i).kind ∷ q.kinds;
  splits =
      r.splits
      ∙ ap (λ xs. xs ++ (r.children ++ node_at nodes i ∷ [])) (q.splits)
      ∙ append_assoc (q.before) (q.taken) _;
  left = q.left;
  shaped = tree (node_at nodes i) (q.shaped) (r.shaped) (r.shape) (r.size);
  fits = f (q.kinds) (q.fits);
  counted = omega (
    arith,
    q.counted,
    r.size,
    length-append (q.taken) (r.children ++ node_at nodes i ∷ []),
    length-append (r.children) (node_at nodes i ∷ []),
  );
}
