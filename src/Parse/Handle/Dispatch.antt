-- ===== src/Parse/Handle/Dispatch.antt =====
-- The `switch` of `Tree::Parse`, lib/Parse/Tree.cc, over the states of State.def.
use cocktail_lang.Prelude.{Option}
use cocktail_lang.Parse.Context.{Context}
use cocktail_lang.Parse.State.{
  State, index_expression, index_expression_finish, array_expression, array_expression_semi,
  array_expression_finish, brace_expression, brace_expression_parameter_as_type,
  brace_expression_parameter_as_value, brace_expression_parameter_as_unknown,
  brace_expression_parameter_after_designator_as_type,
  brace_expression_parameter_after_designator_as_value,
  brace_expression_parameter_after_designator_as_unknown, brace_expression_parameter_finish_as_type,
  brace_expression_parameter_finish_as_value, brace_expression_parameter_finish_as_unknown,
  brace_expression_finish_as_type, brace_expression_finish_as_value,
  brace_expression_finish_as_unknown, call_expression, call_expression_parameter_finish,
  call_expression_finish, code_block, code_block_finish, declaration_name_and_params_as_none,
  declaration_name_and_params_as_optional, declaration_name_and_params_as_required,
  declaration_name_and_params_after_name_as_none,
  declaration_name_and_params_after_name_as_optional,
  declaration_name_and_params_after_name_as_required, declaration_name_and_params_after_deduced,
  declaration_scope_loop, period_as_declaration, period_as_expression, period_as_struct,
  arrow_expression, expression, expression_in_postfix, expression_in_postfix_loop, expression_loop,
  expression_loop_for_binary, expression_loop_for_prefix, if_expression_finish_condition,
  if_expression_finish_then, if_expression_finish_else, if_expression_finish,
  expression_statement_finish, function_introducer, function_after_parameters,
  function_return_type_finish, function_signature_finish, function_definition_finish, namespace,
  namespace_finish, package_state, parameter_as_deduced, parameter_as_regular,
  parameter_finish_as_deduced, parameter_finish_as_regular, parameter_list_as_deduced,
  parameter_list_as_regular, parameter_list_finish_as_deduced, parameter_list_finish_as_regular,
  paren_condition_as_if, paren_condition_as_while, paren_condition_finish_as_if,
  paren_condition_finish_as_while, paren_expression, paren_expression_parameter_finish_as_unknown,
  paren_expression_parameter_finish_as_tuple, paren_expression_finish_as_normal,
  paren_expression_finish_as_tuple, pattern_as_deduced_parameter, pattern_as_parameter,
  pattern_as_variable, pattern_as_let, pattern_address, pattern_template, pattern_finish_as_generic,
  pattern_finish_as_regular, statement, statement_break_finish, statement_continue_finish,
  statement_for_header, statement_for_header_in, statement_for_header_finish, statement_for_finish,
  statement_if, statement_if_condition_finish, statement_if_then_block_finish,
  statement_if_else_block_finish, statement_return, statement_return_finish, statement_scope_loop,
  statement_while, statement_while_condition_finish, statement_while_block_finish,
  type_definition_finish_as_class, type_definition_finish_as_interface,
  type_definition_finish_as_named_constraint, type_introducer_as_class,
  type_introducer_as_interface, type_introducer_as_named_constraint, type_after_params_as_class,
  type_after_params_as_interface, type_after_params_as_named_constraint, var_as_semicolon,
  var_as_for, var_after_pattern, var_finish_as_semicolon, var_finish_as_for, let_state,
  let_after_pattern, let_finish,
}
use cocktail_lang.Parse.Handle.Brackets.{
  handle_index_expression, handle_index_expression_finish, handle_array_expression,
  handle_array_expression_semi, handle_array_expression_finish, handle_call_expression,
  handle_call_expression_parameter_finish, handle_call_expression_finish, handle_paren_expression,
  handle_paren_expression_parameter_finish_as_unknown,
  handle_paren_expression_parameter_finish_as_tuple, handle_paren_expression_finish_as_normal,
  handle_paren_expression_finish_as_tuple,
}
use cocktail_lang.Parse.Handle.Braces.{
  handle_brace_expression, handle_brace_expression_parameter_as_type,
  handle_brace_expression_parameter_as_value, handle_brace_expression_parameter_as_unknown,
  handle_brace_expression_parameter_after_designator_as_type,
  handle_brace_expression_parameter_after_designator_as_value,
  handle_brace_expression_parameter_after_designator_as_unknown,
  handle_brace_expression_parameter_finish_as_type,
  handle_brace_expression_parameter_finish_as_value,
  handle_brace_expression_parameter_finish_as_unknown, handle_brace_expression_finish_as_type,
  handle_brace_expression_finish_as_value, handle_brace_expression_finish_as_unknown,
}
use cocktail_lang.Parse.Handle.CodeBlock.{
  handle_code_block, handle_code_block_finish, handle_paren_condition_as_if,
  handle_paren_condition_as_while, handle_paren_condition_finish_as_if,
  handle_paren_condition_finish_as_while,
}
use cocktail_lang.Parse.Handle.Names.{
  handle_declaration_name_and_params_as_none, handle_declaration_name_and_params_as_optional,
  handle_declaration_name_and_params_as_required,
  handle_declaration_name_and_params_after_name_as_none,
  handle_declaration_name_and_params_after_name_as_optional,
  handle_declaration_name_and_params_after_name_as_required,
  handle_declaration_name_and_params_after_deduced, handle_period_as_declaration,
  handle_period_as_expression, handle_period_as_struct, handle_arrow_expression,
}
use cocktail_lang.Parse.Handle.Declaration.{
  handle_declaration_scope_loop, handle_function_introducer, handle_function_after_parameters,
  handle_function_return_type_finish, handle_function_signature_finish,
  handle_function_definition_finish, handle_namespace, handle_namespace_finish,
}
use cocktail_lang.Parse.Handle.Expression.{
  handle_expression, handle_expression_loop, handle_expression_loop_for_binary,
  handle_expression_loop_for_prefix,
}
use cocktail_lang.Parse.Handle.Expression.Primary.{
  handle_expression_in_postfix, handle_expression_in_postfix_loop,
}
use cocktail_lang.Parse.Handle.Expression.Choice.{
  handle_if_expression_finish_condition, handle_if_expression_finish_then,
  handle_if_expression_finish_else, handle_if_expression_finish, handle_expression_statement_finish,
}
use cocktail_lang.Parse.Handle.Package.{handle_package}
use cocktail_lang.Parse.Handle.Parameters.{
  handle_parameter_as_deduced, handle_parameter_as_regular, handle_parameter_finish_as_deduced,
  handle_parameter_finish_as_regular, handle_parameter_list_as_deduced,
  handle_parameter_list_as_regular, handle_parameter_list_finish_as_deduced,
  handle_parameter_list_finish_as_regular, handle_pattern_as_deduced_parameter,
  handle_pattern_as_parameter, handle_pattern_as_variable, handle_pattern_as_let,
  handle_pattern_address, handle_pattern_template, handle_pattern_finish_as_generic,
  handle_pattern_finish_as_regular,
}
use cocktail_lang.Parse.Handle.Statement.{
  handle_statement, handle_statement_break_finish, handle_statement_continue_finish,
  handle_statement_for_header, handle_statement_for_header_in, handle_statement_for_header_finish,
  handle_statement_for_finish, handle_statement_if, handle_statement_if_condition_finish,
  handle_statement_if_then_block_finish, handle_statement_if_else_block_finish,
  handle_statement_return, handle_statement_return_finish, handle_statement_scope_loop,
  handle_statement_while, handle_statement_while_condition_finish,
  handle_statement_while_block_finish,
}
use cocktail_lang.Parse.Handle.Types.{
  handle_type_definition_finish_as_class, handle_type_definition_finish_as_interface,
  handle_type_definition_finish_as_named_constraint, handle_type_introducer_as_class,
  handle_type_introducer_as_interface, handle_type_introducer_as_named_constraint,
  handle_type_after_params_as_class, handle_type_after_params_as_interface,
  handle_type_after_params_as_named_constraint,
}
use cocktail_lang.Parse.Handle.Binding.{
  handle_var_as_semicolon, handle_var_as_for, handle_var_after_pattern,
  handle_var_finish_as_semicolon, handle_var_finish_as_for, handle_let, handle_let_after_pattern,
  handle_let_finish,
}

unfoldable pub handle_state : State → Context → Option Context
unfolding handle_index_expression handle_index_expression_finish handle_array_expression
    handle_array_expression_semi handle_array_expression_finish handle_call_expression
    handle_call_expression_parameter_finish handle_call_expression_finish handle_paren_expression
    handle_paren_expression_parameter_finish_as_unknown
    handle_paren_expression_parameter_finish_as_tuple handle_paren_expression_finish_as_normal
    handle_paren_expression_finish_as_tuple handle_brace_expression
    handle_brace_expression_parameter_as_type handle_brace_expression_parameter_as_value
    handle_brace_expression_parameter_as_unknown
    handle_brace_expression_parameter_after_designator_as_type
    handle_brace_expression_parameter_after_designator_as_value
    handle_brace_expression_parameter_after_designator_as_unknown
    handle_brace_expression_parameter_finish_as_type
    handle_brace_expression_parameter_finish_as_value
    handle_brace_expression_parameter_finish_as_unknown handle_brace_expression_finish_as_type
    handle_brace_expression_finish_as_value handle_brace_expression_finish_as_unknown
    handle_code_block handle_code_block_finish handle_paren_condition_as_if
    handle_paren_condition_as_while handle_paren_condition_finish_as_if
    handle_paren_condition_finish_as_while handle_declaration_name_and_params_as_none
    handle_declaration_name_and_params_as_optional handle_declaration_name_and_params_as_required
    handle_declaration_name_and_params_after_name_as_none
    handle_declaration_name_and_params_after_name_as_optional
    handle_declaration_name_and_params_after_name_as_required
    handle_declaration_name_and_params_after_deduced handle_period_as_declaration
    handle_period_as_expression handle_period_as_struct handle_arrow_expression
    handle_declaration_scope_loop handle_function_introducer handle_function_after_parameters
    handle_function_return_type_finish handle_function_signature_finish
    handle_function_definition_finish handle_namespace handle_namespace_finish handle_expression
    handle_expression_loop handle_expression_loop_for_binary handle_expression_loop_for_prefix
    handle_expression_in_postfix handle_expression_in_postfix_loop
    handle_if_expression_finish_condition handle_if_expression_finish_then
    handle_if_expression_finish_else handle_if_expression_finish handle_expression_statement_finish
    handle_package handle_parameter_as_deduced handle_parameter_as_regular
    handle_parameter_finish_as_deduced handle_parameter_finish_as_regular
    handle_parameter_list_as_deduced handle_parameter_list_as_regular
    handle_parameter_list_finish_as_deduced handle_parameter_list_finish_as_regular
    handle_pattern_as_deduced_parameter handle_pattern_as_parameter handle_pattern_as_variable
    handle_pattern_as_let handle_pattern_address handle_pattern_template
    handle_pattern_finish_as_generic handle_pattern_finish_as_regular handle_statement
    handle_statement_break_finish handle_statement_continue_finish handle_statement_for_header
    handle_statement_for_header_in handle_statement_for_header_finish handle_statement_for_finish
    handle_statement_if handle_statement_if_condition_finish handle_statement_if_then_block_finish
    handle_statement_if_else_block_finish handle_statement_return handle_statement_return_finish
    handle_statement_scope_loop handle_statement_while handle_statement_while_condition_finish
    handle_statement_while_block_finish handle_type_definition_finish_as_class
    handle_type_definition_finish_as_interface handle_type_definition_finish_as_named_constraint
    handle_type_introducer_as_class handle_type_introducer_as_interface
    handle_type_introducer_as_named_constraint handle_type_after_params_as_class
    handle_type_after_params_as_interface handle_type_after_params_as_named_constraint
    handle_var_as_semicolon handle_var_as_for handle_var_after_pattern
    handle_var_finish_as_semicolon handle_var_finish_as_for handle_let handle_let_after_pattern
    handle_let_finish
handle_state index_expression = handle_index_expression
handle_state index_expression_finish = handle_index_expression_finish
handle_state array_expression = handle_array_expression
handle_state array_expression_semi = handle_array_expression_semi
handle_state array_expression_finish = handle_array_expression_finish
handle_state brace_expression = handle_brace_expression
handle_state brace_expression_parameter_as_type = handle_brace_expression_parameter_as_type
handle_state brace_expression_parameter_as_value = handle_brace_expression_parameter_as_value
handle_state brace_expression_parameter_as_unknown = handle_brace_expression_parameter_as_unknown
handle_state brace_expression_parameter_after_designator_as_type =
    handle_brace_expression_parameter_after_designator_as_type
handle_state brace_expression_parameter_after_designator_as_value =
    handle_brace_expression_parameter_after_designator_as_value
handle_state brace_expression_parameter_after_designator_as_unknown =
    handle_brace_expression_parameter_after_designator_as_unknown
handle_state brace_expression_parameter_finish_as_type =
    handle_brace_expression_parameter_finish_as_type
handle_state brace_expression_parameter_finish_as_value =
    handle_brace_expression_parameter_finish_as_value
handle_state brace_expression_parameter_finish_as_unknown =
    handle_brace_expression_parameter_finish_as_unknown
handle_state brace_expression_finish_as_type = handle_brace_expression_finish_as_type
handle_state brace_expression_finish_as_value = handle_brace_expression_finish_as_value
handle_state brace_expression_finish_as_unknown = handle_brace_expression_finish_as_unknown
handle_state call_expression = handle_call_expression
handle_state call_expression_parameter_finish = handle_call_expression_parameter_finish
handle_state call_expression_finish = handle_call_expression_finish
handle_state code_block = handle_code_block
handle_state code_block_finish = handle_code_block_finish
handle_state declaration_name_and_params_as_none = handle_declaration_name_and_params_as_none
handle_state declaration_name_and_params_as_optional =
    handle_declaration_name_and_params_as_optional
handle_state declaration_name_and_params_as_required =
    handle_declaration_name_and_params_as_required
handle_state declaration_name_and_params_after_name_as_none =
    handle_declaration_name_and_params_after_name_as_none
handle_state declaration_name_and_params_after_name_as_optional =
    handle_declaration_name_and_params_after_name_as_optional
handle_state declaration_name_and_params_after_name_as_required =
    handle_declaration_name_and_params_after_name_as_required
handle_state declaration_name_and_params_after_deduced =
    handle_declaration_name_and_params_after_deduced
handle_state declaration_scope_loop = handle_declaration_scope_loop
handle_state period_as_declaration = handle_period_as_declaration
handle_state period_as_expression = handle_period_as_expression
handle_state period_as_struct = handle_period_as_struct
handle_state arrow_expression = handle_arrow_expression
handle_state expression = handle_expression
handle_state expression_in_postfix = handle_expression_in_postfix
handle_state expression_in_postfix_loop = handle_expression_in_postfix_loop
handle_state expression_loop = handle_expression_loop
handle_state expression_loop_for_binary = handle_expression_loop_for_binary
handle_state expression_loop_for_prefix = handle_expression_loop_for_prefix
handle_state if_expression_finish_condition = handle_if_expression_finish_condition
handle_state if_expression_finish_then = handle_if_expression_finish_then
handle_state if_expression_finish_else = handle_if_expression_finish_else
handle_state if_expression_finish = handle_if_expression_finish
handle_state expression_statement_finish = handle_expression_statement_finish
handle_state function_introducer = handle_function_introducer
handle_state function_after_parameters = handle_function_after_parameters
handle_state function_return_type_finish = handle_function_return_type_finish
handle_state function_signature_finish = handle_function_signature_finish
handle_state function_definition_finish = handle_function_definition_finish
handle_state namespace = handle_namespace
handle_state namespace_finish = handle_namespace_finish
handle_state package_state = handle_package
handle_state parameter_as_deduced = handle_parameter_as_deduced
handle_state parameter_as_regular = handle_parameter_as_regular
handle_state parameter_finish_as_deduced = handle_parameter_finish_as_deduced
handle_state parameter_finish_as_regular = handle_parameter_finish_as_regular
handle_state parameter_list_as_deduced = handle_parameter_list_as_deduced
handle_state parameter_list_as_regular = handle_parameter_list_as_regular
handle_state parameter_list_finish_as_deduced = handle_parameter_list_finish_as_deduced
handle_state parameter_list_finish_as_regular = handle_parameter_list_finish_as_regular
handle_state paren_condition_as_if = handle_paren_condition_as_if
handle_state paren_condition_as_while = handle_paren_condition_as_while
handle_state paren_condition_finish_as_if = handle_paren_condition_finish_as_if
handle_state paren_condition_finish_as_while = handle_paren_condition_finish_as_while
handle_state paren_expression = handle_paren_expression
handle_state paren_expression_parameter_finish_as_unknown =
    handle_paren_expression_parameter_finish_as_unknown
handle_state paren_expression_parameter_finish_as_tuple =
    handle_paren_expression_parameter_finish_as_tuple
handle_state paren_expression_finish_as_normal = handle_paren_expression_finish_as_normal
handle_state paren_expression_finish_as_tuple = handle_paren_expression_finish_as_tuple
handle_state pattern_as_deduced_parameter = handle_pattern_as_deduced_parameter
handle_state pattern_as_parameter = handle_pattern_as_parameter
handle_state pattern_as_variable = handle_pattern_as_variable
handle_state pattern_as_let = handle_pattern_as_let
handle_state pattern_address = handle_pattern_address
handle_state pattern_template = handle_pattern_template
handle_state pattern_finish_as_generic = handle_pattern_finish_as_generic
handle_state pattern_finish_as_regular = handle_pattern_finish_as_regular
handle_state statement = handle_statement
handle_state statement_break_finish = handle_statement_break_finish
handle_state statement_continue_finish = handle_statement_continue_finish
handle_state statement_for_header = handle_statement_for_header
handle_state statement_for_header_in = handle_statement_for_header_in
handle_state statement_for_header_finish = handle_statement_for_header_finish
handle_state statement_for_finish = handle_statement_for_finish
handle_state statement_if = handle_statement_if
handle_state statement_if_condition_finish = handle_statement_if_condition_finish
handle_state statement_if_then_block_finish = handle_statement_if_then_block_finish
handle_state statement_if_else_block_finish = handle_statement_if_else_block_finish
handle_state statement_return = handle_statement_return
handle_state statement_return_finish = handle_statement_return_finish
handle_state statement_scope_loop = handle_statement_scope_loop
handle_state statement_while = handle_statement_while
handle_state statement_while_condition_finish = handle_statement_while_condition_finish
handle_state statement_while_block_finish = handle_statement_while_block_finish
handle_state type_definition_finish_as_class = handle_type_definition_finish_as_class
handle_state type_definition_finish_as_interface = handle_type_definition_finish_as_interface
handle_state type_definition_finish_as_named_constraint =
    handle_type_definition_finish_as_named_constraint
handle_state type_introducer_as_class = handle_type_introducer_as_class
handle_state type_introducer_as_interface = handle_type_introducer_as_interface
handle_state type_introducer_as_named_constraint = handle_type_introducer_as_named_constraint
handle_state type_after_params_as_class = handle_type_after_params_as_class
handle_state type_after_params_as_interface = handle_type_after_params_as_interface
handle_state type_after_params_as_named_constraint = handle_type_after_params_as_named_constraint
handle_state var_as_semicolon = handle_var_as_semicolon
handle_state var_as_for = handle_var_as_for
handle_state var_after_pattern = handle_var_after_pattern
handle_state var_finish_as_semicolon = handle_var_finish_as_semicolon
handle_state var_finish_as_for = handle_var_finish_as_for
handle_state let_state = handle_let
handle_state let_after_pattern = handle_let_after_pattern
handle_state let_finish = handle_let_finish
