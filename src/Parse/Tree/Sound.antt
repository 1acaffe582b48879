-- ===== src/Parse/Tree/Sound.antt =====
-- `Tree::Verify` accepts trees in postorder only, each node of which has the children that its kind
-- asks for.
use mathlib.Core.Path.{subst}
use cocktail_lang.Prelude.{
  ℕ, zero, suc, ◌+◌, ◌≡◌, refl, sym, ◌∙◌, ap, Bool, true, false, not, ◌&&◌, Option, none, some,
  List, [], ◌∷◌, ◌++◌, length, ◌==◌, if◌then◌else◌, if_case, arith, Bool-cases, inl, inr,
  length-append, append_assoc, get_or-append_here, get_or, ==_iff, append-nil,
}
use cocktail_lang.Parse.NodeKind.{NodeKind}
use cocktail_lang.Parse.NodeKind.Shape.{same_kind, has_bracket, bracket, child_count}
use cocktail_lang.Parse.Context.{NodeImpl}
use cocktail_lang.Parse.Tree.{
  Verified, ok, invalid, check_failed, and_then, no_node, node_at, pop_to_bracket, pop_children,
  pop_subtrees, check_size, verify_node, verify_nodes, check_roots, last_is_root, verify,
}
use cocktail_lang.Parse.Tree.Shaped.{
  EndsWithBracket, HasShape, Shaped, no_tree, tree, Root, Stacked, Popped, Popped-one,
}

-- What is popped, if something is.
abbrev PoppedIf :
    List NodeImpl → List NodeImpl → ℕ → (List NodeKind → Type 0) → Option (List ℕ × ℕ) → Type 0
PoppedIf nodes p start Fits none = Unit
PoppedIf nodes p start Fits (some (rest, size)) = Popped nodes p start rest size Fits

PoppedIf-one :
    (nodes p : List NodeImpl) (i : ℕ) (is : List ℕ) (start : ℕ)
    (Fits Fits' : List NodeKind → Type 0) (o : Option (List ℕ × ℕ))
    (r : Root nodes i (Stacked nodes is) p)
    → PoppedIf nodes (r.before) (start + (node_at nodes i).subtree_size) Fits o
    → ((ks : List NodeKind) → Fits ks → Fits' ((node_at nodes i).kind ∷ ks))
    → PoppedIf nodes p start Fits' o
PoppedIf-one nodes p i is start Fits Fits' none r q f = tt
PoppedIf-one nodes p i is start Fits Fits' (some (rest, size)) r q f =
    Popped-one nodes p i is rest start size Fits Fits' r q f

-- No tree is popped.
Popped-none :
    (nodes p : List NodeImpl) (stack : List ℕ) (start : ℕ) (Fits : List NodeKind → Type 0)
    → Stacked nodes stack p
    → Fits []
    → Popped nodes p start stack start Fits
Popped-none nodes p stack start Fits s f = record {
  before = p;
  taken = [];
  kinds = [];
  splits = sym (append-nil p);
  left = s;
  shaped = no_tree;
  fits = f;
  counted = omega arith;
}

pop_children-Popped :
    (nodes : List NodeImpl) (count : ℕ) (stack : List ℕ) (start : ℕ) (p : List NodeImpl)
    → Stacked nodes stack p
    → PoppedIf nodes p start (λ ks. length ks ≡ count) (pop_children nodes count stack start)
unfolding pop_children Stacked
pop_children-Popped nodes zero stack start p s = Popped-none nodes p stack start _ s refl
pop_children-Popped nodes (suc count) [] start p s = tt
pop_children-Popped nodes (suc count) (i ∷ is) start p s =
    PoppedIf-one nodes p i is start (λ ks. length ks ≡ count) (λ ks. length ks ≡ suc count) _ s
      (pop_children-Popped nodes count is (start + (node_at nodes i).subtree_size) (s.before)
        (s.below))
      (λ ks e. ap suc e)

pop_to_bracket-Popped :
    (nodes : List NodeImpl) (wanted : NodeKind) (stack : List ℕ) (start : ℕ) (p : List NodeImpl)
    → Stacked nodes stack p
    → PoppedIf nodes p start (EndsWithBracket wanted) (pop_to_bracket nodes wanted stack start)
unfolding pop_to_bracket Stacked EndsWithBracket
pop_to_bracket-Popped nodes wanted [] start p s = tt
pop_to_bracket-Popped nodes wanted (i ∷ is) start p s =
    elim (Bool-cases (same_kind wanted (node_at nodes i).kind)) [
      | inl e ↦
          rw (e, pop_to_bracket)
            (Popped-one nodes p i is is start _ (λ ks. ks ≡ []) (EndsWithBracket wanted) s
              (Popped-none nodes (s.before) is _ (λ ks. ks ≡ []) (s.below) refl) (λ ks q. rw e q))
      | inr e ↦
          rw (e, pop_to_bracket)
            (PoppedIf-one nodes p i is start (EndsWithBracket wanted) (EndsWithBracket wanted) _ s
              (pop_to_bracket-Popped nodes wanted is _ (s.before) (s.below)) (λ ks q. rw e q))
    ]

either-Popped :
    (b : Bool) (nodes : List NodeImpl) (wanted : NodeKind) (count : ℕ) (stack : List ℕ)
    (p : List NodeImpl)
    → Stacked nodes stack p
    → PoppedIf nodes p 1
        (λ ks. if b then EndsWithBracket wanted ks else length ks ≡ count)
        (if b then pop_to_bracket nodes wanted stack 1 else pop_children nodes count stack 1)
either-Popped true nodes wanted count stack p s = pop_to_bracket-Popped nodes wanted stack 1 p s
either-Popped false nodes wanted count stack p s = pop_children-Popped nodes count stack 1 p s

pop_subtrees-Popped :
    (nodes : List NodeImpl) (kind : NodeKind) (stack : List ℕ) (p : List NodeImpl)
    → Stacked nodes stack p
    → PoppedIf nodes p 1 (HasShape kind) (pop_subtrees nodes kind stack)
unfolding pop_subtrees HasShape
pop_subtrees-Popped nodes kind stack p s =
    either-Popped (has_bracket kind) nodes (bracket kind) (child_count kind) stack p s

-- The stack behind a node, if the node was accepted.
abbrev StackedIf : List NodeImpl → List NodeImpl → Verified (List ℕ) → Type 0
StackedIf nodes p (ok stack) = Stacked nodes stack p
StackedIf nodes p (invalid e) = Unit
StackedIf nodes p check_failed = Unit

check_size-Stacked :
    (nodes p : List NodeImpl) (n : ℕ) (o : Option (List ℕ × ℕ))
    → PoppedIf nodes p 1 (HasShape (node_at nodes n).kind) o
    → StackedIf nodes (p ++ node_at nodes n ∷ []) (check_size (node_at nodes n) n o)
unfolding check_size Stacked
check_size-Stacked nodes p n none q = tt
check_size-Stacked nodes p n (some (rest, size)) q =
    let impl = node_at nodes n in
    if_case (StackedIf nodes (p ++ impl ∷ [])) (impl.subtree_size == size) _ _
      (λ h. record {
        before = q.before;
        children = q.taken;
        kinds = q.kinds;
        splits = ap (λ xs. xs ++ impl ∷ []) (q.splits) ∙ append_assoc (q.before) (q.taken) _;
        below = q.left;
        shaped = q.shaped;
        shape = q.fits;
        size = omega (arith, (==_iff impl.subtree_size size).0 h, q.counted);
      })
      (λ _. tt)

verify_node-Stacked :
    (has_errors : Bool) (nodes p : List NodeImpl) (n : ℕ) (stack : List ℕ)
    → Stacked nodes stack p
    → StackedIf nodes
        (p ++ node_at nodes n ∷ [])
        (verify_node has_errors nodes n (node_at nodes n) stack)
unfolding verify_node
verify_node-Stacked has_errors nodes p n stack s =
    let impl = node_at nodes n in
    if_case (StackedIf nodes (p ++ impl ∷ [])) (impl.has_error && not has_errors) _ _ (λ _. tt)
      (λ _. check_size-Stacked nodes p n _ (pop_subtrees-Popped nodes impl.kind stack p s))

and_then-Stacked :
    (nodes p q : List NodeImpl) (v : Verified (List ℕ)) (f : List ℕ → Verified (List ℕ))
    → StackedIf nodes p v
    → ((stack : List ℕ) → Stacked nodes stack p → StackedIf nodes q (f stack))
    → StackedIf nodes q (and_then v f)
and_then-Stacked nodes p q (ok stack) f s h = h stack s
and_then-Stacked nodes p q (invalid e) f s h = tt
and_then-Stacked nodes p q check_failed f s h = tt

verify_nodes-Stacked :
    (has_errors : Bool) (nodes p impls : List NodeImpl) (n : ℕ) (stack : List ℕ)
    → nodes ≡ p ++ impls
    → n ≡ length p
    → Stacked nodes stack p
    → StackedIf nodes nodes (verify_nodes has_errors nodes n impls stack)
unfolding verify_nodes
verify_nodes-Stacked has_errors nodes p [] n stack e h s =
    subst (Stacked nodes stack) (sym (append-nil p) ∙ sym e) s
verify_nodes-Stacked has_errors nodes p (impl ∷ impls) n stack e h s =
    let here : node_at nodes n ≡ impl =
      ap (λ xs. get_or xs n no_node) e
      ∙ ap (λ k. get_or (p ++ impl ∷ impls) k no_node) h
      ∙ get_or-append_here p impls impl no_node in
    let first =
      subst (λ im. StackedIf nodes (p ++ im ∷ []) (verify_node has_errors nodes n im stack)) here
        (verify_node-Stacked has_errors nodes p n stack s) in
    and_then-Stacked nodes (p ++ impl ∷ []) nodes (verify_node has_errors nodes n impl stack) _
      first
      (λ next s'.
        verify_nodes-Stacked has_errors nodes (p ++ impl ∷ []) impls (n + 1) next
          (e ∙ sym (append_assoc p (impl ∷ []) impls))
          (omega (arith, h, length-append p (impl ∷ []))) s')

-- The nodes below a stack are trees.
Stacked-Shaped :
    (nodes : List NodeImpl) (stack : List ℕ) (p : List NodeImpl)
    → Stacked nodes stack p
    → (ks : List NodeKind) × Shaped p ks
unfolding Stacked
Stacked-Shaped nodes [] p s = ([], subst (λ q. Shaped q []) (sym s) no_tree)
Stacked-Shaped nodes (i ∷ is) p s =
    let (ks, below) = Stacked-Shaped nodes is (s.before) (s.below) in
    (
      (node_at nodes i).kind ∷ ks,
      subst (λ q. Shaped q ((node_at nodes i).kind ∷ ks)) (sym (s.splits))
          (tree (node_at nodes i) below (s.shaped) (s.shape) (s.size)),
    )

-- What acceptance says.
abbrev SoundIf : Bool → List NodeImpl → ℕ → Verified Unit → Type 0
SoundIf has_errors nodes expected (ok u) =
    ((ks : List NodeKind) × Shaped nodes ks) × (has_errors ≡ false → length nodes ≡ expected)
SoundIf has_errors nodes expected (invalid e) = Unit
SoundIf has_errors nodes expected check_failed = Unit

and_then-Sound :
    {A : Type 0} (has_errors : Bool) (nodes : List NodeImpl) (expected : ℕ) (v : Verified A)
    (f : A → Verified Unit)
    → ((a : A) → v ≡ ok a → SoundIf has_errors nodes expected (f a))
    → SoundIf has_errors nodes expected (and_then v f)
and_then-Sound has_errors nodes expected (ok a) f h = h a refl
and_then-Sound has_errors nodes expected (invalid e) f h = tt
and_then-Sound has_errors nodes expected check_failed f h = tt

verify-Sound :
    (has_errors : Bool) (nodes : List NodeImpl) (expected : ℕ)
    → SoundIf has_errors nodes expected (verify has_errors nodes expected)
unfolding verify Stacked
verify-Sound has_errors nodes expected =
    let Sound = SoundIf has_errors nodes expected in
    let stacked = verify_nodes-Stacked has_errors nodes [] nodes 0 [] refl refl refl in
    and_then-Sound has_errors nodes expected (verify_nodes has_errors nodes 0 nodes []) _
      (λ stack e.
        let trees = Stacked-Shaped nodes stack nodes (subst (StackedIf nodes nodes) e stacked) in
        if_case Sound (not (last_is_root nodes stack)) _ _ (λ _. tt)
          (λ _. and_then-Sound has_errors nodes expected (check_roots nodes stack) _ (λ next _.
            if_case Sound (not has_errors && not (length nodes == expected)) _ _ (λ _. tt)
              (λ h. (trees, (λ clean. (==_iff (length nodes) expected).0 (ground arith)))))))

-- If `Tree::Verify` accepts, the nodes are trees in postorder with the sizes of the trees at their
-- roots, each node has as many children as its kind asks for, or its bracket first and not again,
-- and, if the tree has no errors, there are as many nodes as the tokens are expected to have.
pub verify_sound :
    (has_errors : Bool) (nodes : List NodeImpl) (expected : ℕ)
    → verify has_errors nodes expected ≡ ok tt
    → ((ks : List NodeKind) × Shaped nodes ks) × (has_errors ≡ false → length nodes ≡ expected)
verify_sound has_errors nodes expected e =
    subst (SoundIf has_errors nodes expected) e (verify-Sound has_errors nodes expected)
