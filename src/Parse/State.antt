-- ===== src/Parse/State.antt =====
-- The parser states of include/Cocktail/Parse/State.def; a state with a variant is one state for
-- each variant.

pub data State : Type 0 where
  index_expression index_expression_finish array_expression array_expression_semi : State
  array_expression_finish brace_expression brace_expression_parameter_as_type : State
  brace_expression_parameter_as_value brace_expression_parameter_as_unknown : State
  brace_expression_parameter_after_designator_as_type : State
  brace_expression_parameter_after_designator_as_value : State
  brace_expression_parameter_after_designator_as_unknown : State
  brace_expression_parameter_finish_as_type brace_expression_parameter_finish_as_value : State
  brace_expression_parameter_finish_as_unknown brace_expression_finish_as_type : State
  brace_expression_finish_as_value brace_expression_finish_as_unknown call_expression : State
  call_expression_parameter_finish call_expression_finish code_block code_block_finish : State
  declaration_name_and_params_as_none declaration_name_and_params_as_optional : State
  declaration_name_and_params_as_required : State
  declaration_name_and_params_after_name_as_none : State
  declaration_name_and_params_after_name_as_optional : State
  declaration_name_and_params_after_name_as_required : State
  declaration_name_and_params_after_deduced declaration_scope_loop : State
  period_as_declaration period_as_expression period_as_struct arrow_expression : State
  expression expression_in_postfix expression_in_postfix_loop expression_loop : State
  expression_loop_for_binary expression_loop_for_prefix if_expression_finish_condition : State
  if_expression_finish_then if_expression_finish_else if_expression_finish : State
  expression_statement_finish function_introducer function_after_parameters : State
  function_return_type_finish function_signature_finish function_definition_finish : State
  namespace namespace_finish package_state parameter_as_deduced parameter_as_regular : State
  parameter_finish_as_deduced parameter_finish_as_regular parameter_list_as_deduced : State
  parameter_list_as_regular parameter_list_finish_as_deduced : State
  parameter_list_finish_as_regular paren_condition_as_if paren_condition_as_while : State
  paren_condition_finish_as_if paren_condition_finish_as_while paren_expression : State
  paren_expression_parameter_finish_as_unknown : State
  paren_expression_parameter_finish_as_tuple paren_expression_finish_as_normal : State
  paren_expression_finish_as_tuple pattern_as_deduced_parameter pattern_as_parameter : State
  pattern_as_variable pattern_as_let pattern_address pattern_template : State
  pattern_finish_as_generic pattern_finish_as_regular statement statement_break_finish : State
  statement_continue_finish statement_for_header statement_for_header_in : State
  statement_for_header_finish statement_for_finish statement_if : State
  statement_if_condition_finish statement_if_then_block_finish : State
  statement_if_else_block_finish statement_return statement_return_finish : State
  statement_scope_loop statement_while statement_while_condition_finish : State
  statement_while_block_finish type_definition_finish_as_class : State
  type_definition_finish_as_interface type_definition_finish_as_named_constraint : State
  type_introducer_as_class type_introducer_as_interface : State
  type_introducer_as_named_constraint type_after_params_as_class : State
  type_after_params_as_interface type_after_params_as_named_constraint : State
  var_as_semicolon var_as_for var_after_pattern var_finish_as_semicolon : State
  var_finish_as_for let_state let_after_pattern let_finish : State
