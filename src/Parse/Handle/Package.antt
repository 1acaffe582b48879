-- ===== src/Parse/Handle/Package.antt =====
-- lib/Parse/HandlePackage.cc, cut at its early returns.
use cocktail_lang.Prelude.{ℕ, Bool, true, false, not, ◌&&◌, Option, none, some, if◌then◌else◌}
use cocktail_lang.Lex.TokenKind.{
  identifier, string_literal, library, api, impl, semi, package_keyword,
}
use cocktail_lang.Parse.NodeKind.{
  package_introducer, package_api, package_impl, package_directive, name_node, literal_node,
}
use cocktail_lang.Parse.NodeKind
use cocktail_lang.Parse.Context.{
  Context, StateStackEntry, pop_state, add_leaf_node, add_node, emit_at, position_is, consume,
  consume_if, consume_and_add_leaf_node_if, emit_expected_declaration_semi, tree_size,
  expected_identifier_after_package, expected_library_name, missing_library_keyword,
  expected_api_or_impl,
}
use cocktail_lang.Parse.Context.Skip.{skip_past_likely_end}
use cocktail_lang.Parse.Handle.{◌>>=◌, advance, token_or}

-- `exit_on_parse_error`
unfoldable pub exit_on_parse_error : StateStackEntry → Context → Option Context
unfolding skip_past_likely_end add_node
exit_on_parse_error state c = do
  (found, c1) ← skip_past_likely_end state.token c
  some (add_node package_directive (token_or found state.token) state.subtree_start true c1)

-- The `;`.
unfoldable pub package_end : StateStackEntry → Context → Option Context
unfolding add_node exit_on_parse_error emit_expected_declaration_semi
package_end state c =
    if position_is semi c
    then some (add_node package_directive c.position state.subtree_start false (advance c))
    else exit_on_parse_error state (emit_expected_declaration_semi package_keyword c)

-- `api` or `impl`.
unfoldable pub package_api_or_impl : Bool → StateStackEntry → Context → Option Context
unfolding add_leaf_node exit_on_parse_error package_end
package_api_or_impl library_parsed state c =
    if position_is api c
    then package_end state (add_leaf_node package_api c.position false (advance c))
    else if position_is impl c
    then package_end state (add_leaf_node package_impl c.position false (advance c))
    else exit_on_parse_error state (
        emit_at c.position
          (if not library_parsed && position_is string_literal c
            then missing_library_keyword
            else expected_api_or_impl)
          c)

-- The name of the library, behind `library`.
unfoldable pub library_name : StateStackEntry → Option ℕ → Context → Option Context
unfolding add_node consume_and_add_leaf_node_if exit_on_parse_error package_api_or_impl
library_name state none c = package_api_or_impl false state c
library_name state (some library_token) c =
    let (found, c1) = consume_and_add_leaf_node_if string_literal literal_node c in
    if found
    then package_api_or_impl true state
        (add_node NodeKind.package_library library_token (tree_size c) false c1)
    else exit_on_parse_error state (emit_at c1.position expected_library_name c1)

unfoldable pub handle_package : Context → Option Context
unfolding pop_state add_leaf_node consume_and_add_leaf_node_if exit_on_parse_error library_name
handle_package c = do
  (state, c1) ← pop_state c
  let (token, c2) = consume c1
  let (found, c3) =
      consume_and_add_leaf_node_if identifier name_node
        (add_leaf_node package_introducer token false c2)
  let (library_token, c4) = consume_if library c3
  if found
      then library_name state library_token c4
      else exit_on_parse_error state (emit_at c3.position expected_identifier_after_package c3)
