-- ===== src/Tests/Handlers.antt =====
-- Handlers of the parser on concrete contexts.
use cocktail_lang.Prelude.{true, false, ◌≡◌, refl, [], ◌∷◌, some, arith}
use cocktail_lang.Parse.NodeKind.{break_statement, member_access_expression}
use cocktail_lang.Parse.Precedence.Level.{conditional}
use cocktail_lang.Parse.Precedence.Operators.{group}
use cocktail_lang.Parse.State.{statement_break_finish, declaration_scope_loop, period_as_expression}
use cocktail_lang.Parse.Context.{Context, StateStackEntry, position_is, position_kind}
use cocktail_lang.Lex.TokenKind.{identifier, period, fn, end_of_file}
use cocktail_lang.Lex.TokenKind.Index.{kind_eq, as_int}
use cocktail_lang.Parse.Handle.Names.{handle_period_or_arrow}
use cocktail_lang.Parse.Handle.Names.Designator.{Designated, handle_period_or_arrow-Designated}
use cocktail_lang.Parse.Handle.Statement.{handle_statement_keyword_finish}
use cocktail_lang.Parse.Handle.Statement.Finish.{Ended, handle_statement_keyword_finish-Ended}
use cocktail_lang.Parse.Handle.Declaration.{handle_declaration_scope_loop}
use cocktail_lang.Parse.Handle.Declaration.Loop.{
  LoopStep, HasRoom, handle_declaration_scope_loop-LoopStep,
}
use cocktail_lang.Parse.Handle.{with_state}
use cocktail_lang.Parse.Handle.Braces.{brace_field}
use cocktail_lang.Parse.Handle.Braces.Uniform.{
  FieldStep, settled_as, field_of, literal_of, brace_field-FieldStep,
}
use cocktail_lang.Tests.Parser.{in_list, token_of, small_buffer-IsBalanced}

abbrev break_entry : StateStackEntry
break_entry = record {
  state = statement_break_finish;
  has_error = false;
  ambient_precedence = group conditional;
  lhs_precedence = group conditional;
  token = 2;
  subtree_start = 0;
}

-- Before `b) + c;`, where a `;` is missing.
abbrev in_statement : Context
in_statement = record in_list { state_stack = break_entry ∷ [] }

handle_statement_keyword_finish-Ended_example :
    (c' : Context) × (handle_statement_keyword_finish break_statement in_statement ≡ some c')
    × Ended break_statement break_entry in_statement c'
handle_statement_keyword_finish-Ended_example =
    handle_statement_keyword_finish-Ended break_statement break_entry [] in_statement refl
      small_buffer-IsBalanced (omega arith)

-- The same place, where a declaration is expected.
abbrev loop_entry : StateStackEntry
loop_entry = record break_entry { state = declaration_scope_loop }

abbrev in_file : Context
in_file = record in_list { state_stack = loop_entry ∷ [] }

in_file-HasRoom : HasRoom in_file
in_file-HasRoom = record { state = loop_entry; below = []; on_top = refl; room = omega arith }

handle_declaration_scope_loop-LoopStep_example :
    (c' : Context) × (handle_declaration_scope_loop in_file ≡ some c')
    × LoopStep (position_kind in_file) in_file c'
handle_declaration_scope_loop-LoopStep_example =
    handle_declaration_scope_loop-LoopStep in_file small_buffer-IsBalanced (omega arith)
      in_file-HasRoom

-- `a . fn`, where a name is missing.
abbrev member_state : StateStackEntry
member_state = record break_entry { state = period_as_expression; token = 1 }

abbrev at_member : Context
at_member = record in_list {
  tokens = record {
    token_infos =
        token_of identifier true 0
        ∷ token_of period true 0
        ∷ token_of fn true 0
        ∷ token_of end_of_file false 0
        ∷ [];
    line_infos = [];
  };
  position = 1;
  state_stack = member_state ∷ break_entry ∷ [];
}

at_period : position_is period at_member ≡ true
unfolding kind_eq as_int
at_period = refl

handle_period_or_arrow-Designated_example :
    (c' : Context) × (handle_period_or_arrow member_access_expression false at_member ≡ some c')
    × Designated member_access_expression false member_state break_entry [] at_member c'
handle_period_or_arrow-Designated_example =
    handle_period_or_arrow-Designated member_access_expression false member_state break_entry []
      at_member refl at_period

-- A field of a value in a literal of a struct type.
abbrev in_braces : Context
in_braces = record in_list {
  state_stack = with_state break_entry (literal_of true) ∷ break_entry ∷ [];
}

brace_field-FieldStep_example :
    (c' : Context) × (brace_field false break_entry (field_of true) in_braces ≡ some c')
    × FieldStep false (literal_of true) break_entry break_entry (break_entry ∷ []) in_braces c'
brace_field-FieldStep_example =
    brace_field-FieldStep (settled_as true) false break_entry break_entry (break_entry ∷ [])
      in_braces refl (omega arith)
