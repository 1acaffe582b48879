-- ===== src/Tests/Tree.antt =====
-- `Tree::Verify` and the start of `Tree::Parse` on concrete inputs.
use cocktail_lang.Prelude.{ℕ, ◌≡◌, refl, false, List, [], ◌∷◌, none, length}
use cocktail_lang.Lex.Lexer.Run.{lex, buffer_of}
use cocktail_lang.Parse.NodeKind.{
  NodeKind, code_block_start, code_block, empty_declaration, file_start, file_end,
}
use cocktail_lang.Parse.NodeKind.Shape.{kind_value, same_kind, has_bracket, bracket, child_count}
use cocktail_lang.Lex.TokenKind.{start_of_file, semi, end_of_file}
use cocktail_lang.Lex.TokenKind.Index.{kind_eq, as_int}
use cocktail_lang.Lex.TokenizedBuffer.{TokenizedBuffer}
use cocktail_lang.Parse.Context.{
  NodeImpl, new_context, push_state, push_entry, pop_state, add_leaf_node,
}
use cocktail_lang.Parse.Handle.{pop_and_discard_state}
use cocktail_lang.Parse.Handle.Declaration.{handle_declaration_scope_loop, declaration_for}
use cocktail_lang.Parse.Handle.Dispatch.{handle_state}
use cocktail_lang.Parse.Tree.Run.{ParseOutcome, parsed, parse, parse_loop, parse_end}
use cocktail_lang.Tests.Parser.{token_of}
use cocktail_lang.Parse.Tree.{
  parse_start, ok, invalid, wrong_size, pop_to_bracket, pop_children, pop_subtrees, check_size,
  verify_node, verify_nodes, check_roots, last_is_root, verify,
}
use cocktail_lang.Parse.Tree.Start.{lex-parse_start}
use cocktail_lang.Parse.Tree.Shaped.{Shaped}
use cocktail_lang.Parse.Tree.Sound.{verify_sound}
use cocktail_lang.Tests.Numeric.{bits_api}
use cocktail_lang.Tests.Strings.{bytes_api}
use cocktail_lang.Tests.Lexer.{mismatched, state_of, lex-mismatched}

abbrev node : NodeKind → ℕ → NodeImpl
node kind size = record { kind = kind; has_error = false; token = 0; subtree_size = size }

-- A block with a statement in it.
abbrev block : List NodeImpl
block = node code_block_start 1 ∷ node empty_declaration 1 ∷ node code_block 3 ∷ []

block_accepted : verify false block 3 ≡ ok tt
unfolding verify verify_nodes verify_node pop_subtrees pop_to_bracket pop_children check_size
    check_roots last_is_root kind_value same_kind has_bracket bracket child_count
block_accepted = refl

wrong_size_refused :
    verify false (node code_block_start 1 ∷ node code_block 1 ∷ []) 2 ≡ invalid (wrong_size 1)
unfolding verify verify_nodes verify_node pop_subtrees pop_to_bracket pop_children check_size
    check_roots last_is_root kind_value same_kind has_bracket bracket child_count
wrong_size_refused = refl

verify_sound_example : ((ks : List NodeKind) × Shaped block ks) × (false ≡ false → length block ≡ 3)
verify_sound_example = verify_sound false block 3 block_accepted

lex-parse_start_example :
    parse_start (buffer_of (state_of (lex bits_api bytes_api mismatched))) ≡ none
lex-parse_start_example = lex-parse_start bits_api bytes_api mismatched lex-mismatched.0

-- The tokens of a file that holds one `;`.
abbrev one_semi : TokenizedBuffer
one_semi = record {
  token_infos =
      token_of start_of_file false 0 ∷ token_of semi false 0 ∷ token_of end_of_file false 0 ∷ [];
  line_infos = [];
}

abbrev nodes_of : ParseOutcome → List NodeImpl
nodes_of (parsed c) = c.nodes
nodes_of _ = []

abbrev leaf_at : NodeKind → ℕ → NodeImpl
leaf_at kind token = record { kind = kind; has_error = false; token = token; subtree_size = 1 }

one_semi_parsed :
    nodes_of (parse 3 2 one_semi)
    ≡ leaf_at file_start 0 ∷ leaf_at empty_declaration 1 ∷ leaf_at file_end 2 ∷ []
unfolding parse parse_loop parse_end parse_start new_context handle_state
    handle_declaration_scope_loop declaration_for push_state push_entry pop_and_discard_state
    pop_state add_leaf_node kind_eq as_int verify verify_nodes verify_node pop_subtrees
    pop_to_bracket pop_children check_size check_roots last_is_root kind_value same_kind has_bracket
    bracket child_count
one_semi_parsed = refl
