-- ===== src/Parse/NodeKind/Shape.antt =====
-- lib/Parse/NodeKind.cc: the shapes of parse nodes. A node either has a bracket, a child of a kind that
-- stands first, or it has a number of children.
use cocktail_lang.Prelude.{ℕ, Bool, true, false, ◌==◌}
use cocktail_lang.Parse.NodeKind.{
  NodeKind, file_start, file_end, invalid_parse, empty_declaration, name_node, name_expression,
  package_introducer, package_api, package_impl, package_library, package_directive,
  namespace_start, namespace, code_block_start, code_block, function_introducer, return_type,
  function_definition_start, function_definition, function_declaration, parameter_list_start,
  deduced_parameter_list_start, parameter_list_comma, parameter_list, deduced_parameter_list,
  array_expression_start, array_expression_semi, array_expression, pattern_binding,
  generic_pattern_binding, address, template, let_introducer, let_initializer, let_declaration,
  variable_introducer, variable_initializer, variable_declaration, expression_statement,
  break_statement_start, break_statement, continue_statement_start, continue_statement,
  return_statement_start, return_statement, for_header_start, for_in, for_header, for_statement,
  if_condition_start, if_condition, if_statement_else, if_statement, while_condition_start,
  while_condition, while_statement, index_expression_start, index_expression,
  paren_expression_or_tuple_literal_start, paren_expression, tuple_literal_comma, tuple_literal,
  call_expression_start, call_expression_comma, call_expression, qualified_declaration,
  member_access_expression, pointer_member_access_expression, literal_node, prefix_operator,
  infix_operator, short_circuit_operand, postfix_operator, if_expression_if, if_expression_then,
  if_expression_else, struct_literal_or_struct_type_literal_start, struct_field_designator,
  struct_field_value, struct_field_type, struct_field_unknown, struct_comma, struct_literal,
  struct_type_literal, class_introducer, class_definition_start, class_definition,
  class_declaration, interface_introducer, interface_definition_start, interface_definition,
  interface_declaration, named_constraint_introducer, named_constraint_definition_start,
  named_constraint_definition, named_constraint_declaration, self_value_name,
  self_type_name_expression,
}

-- The value of a kind (`AsInt`), and equality of kinds by it.
unfoldable pub kind_value : NodeKind → ℕ
kind_value file_start = 0
kind_value file_end = 1
kind_value invalid_parse = 2
kind_value empty_declaration = 3
kind_value name_node = 4
kind_value name_expression = 5
kind_value package_introducer = 6
kind_value package_api = 7
kind_value package_impl = 8
kind_value package_library = 9
kind_value package_directive = 10
kind_value namespace_start = 11
kind_value namespace = 12
kind_value code_block_start = 13
kind_value code_block = 14
kind_value function_introducer = 15
kind_value return_type = 16
kind_value function_definition_start = 17
kind_value function_definition = 18
kind_value function_declaration = 19
kind_value parameter_list_start = 20
kind_value deduced_parameter_list_start = 21
kind_value parameter_list_comma = 22
kind_value parameter_list = 23
kind_value deduced_parameter_list = 24
kind_value array_expression_start = 25
kind_value array_expression_semi = 26
kind_value array_expression = 27
kind_value pattern_binding = 28
kind_value generic_pattern_binding = 29
kind_value address = 30
kind_value template = 31
kind_value let_introducer = 32
kind_value let_initializer = 33
kind_value let_declaration = 34
kind_value variable_introducer = 35
kind_value variable_initializer = 36
kind_value variable_declaration = 37
kind_value expression_statement = 38
kind_value break_statement_start = 39
kind_value break_statement = 40
kind_value continue_statement_start = 41
kind_value continue_statement = 42
kind_value return_statement_start = 43
kind_value return_statement = 44
kind_value for_header_start = 45
kind_value for_in = 46
kind_value for_header = 47
kind_value for_statement = 48
kind_value if_condition_start = 49
kind_value if_condition = 50
kind_value if_statement_else = 51
kind_value if_statement = 52
kind_value while_condition_start = 53
kind_value while_condition = 54
kind_value while_statement = 55
kind_value index_expression_start = 56
kind_value index_expression = 57
kind_value paren_expression_or_tuple_literal_start = 58
kind_value paren_expression = 59
kind_value tuple_literal_comma = 60
kind_value tuple_literal = 61
kind_value call_expression_start = 62
kind_value call_expression_comma = 63
kind_value call_expression = 64
kind_value qualified_declaration = 65
kind_value member_access_expression = 66
kind_value pointer_member_access_expression = 67
kind_value literal_node = 68
kind_value prefix_operator = 69
kind_value infix_operator = 70
kind_value short_circuit_operand = 71
kind_value postfix_operator = 72
kind_value if_expression_if = 73
kind_value if_expression_then = 74
kind_value if_expression_else = 75
kind_value struct_literal_or_struct_type_literal_start = 76
kind_value struct_field_designator = 77
kind_value struct_field_value = 78
kind_value struct_field_type = 79
kind_value struct_field_unknown = 80
kind_value struct_comma = 81
kind_value struct_literal = 82
kind_value struct_type_literal = 83
kind_value class_introducer = 84
kind_value class_definition_start = 85
kind_value class_definition = 86
kind_value class_declaration = 87
kind_value interface_introducer = 88
kind_value interface_definition_start = 89
kind_value interface_definition = 90
kind_value interface_declaration = 91
kind_value named_constraint_introducer = 92
kind_value named_constraint_definition_start = 93
kind_value named_constraint_definition = 94
kind_value named_constraint_declaration = 95
kind_value self_value_name = 96
kind_value self_type_name_expression = 97

unfoldable pub same_kind : NodeKind → NodeKind → Bool
unfolding kind_value
same_kind a b = kind_value a == kind_value b

-- `has_bracket`
unfoldable pub has_bracket : NodeKind → Bool
has_bracket package_directive = true
has_bracket code_block = true
has_bracket function_definition_start = true
has_bracket function_definition = true
has_bracket function_declaration = true
has_bracket parameter_list = true
has_bracket deduced_parameter_list = true
has_bracket array_expression = true
has_bracket let_declaration = true
has_bracket variable_declaration = true
has_bracket return_statement = true
has_bracket for_in = true
has_bracket for_header = true
has_bracket if_condition = true
has_bracket if_statement = true
has_bracket while_condition = true
has_bracket index_expression = true
has_bracket paren_expression = true
has_bracket tuple_literal = true
has_bracket call_expression = true
has_bracket struct_literal = true
has_bracket struct_type_literal = true
has_bracket class_definition_start = true
has_bracket class_definition = true
has_bracket class_declaration = true
has_bracket interface_definition_start = true
has_bracket interface_definition = true
has_bracket interface_declaration = true
has_bracket named_constraint_definition_start = true
has_bracket named_constraint_definition = true
has_bracket named_constraint_declaration = true
has_bracket _ = false

-- `bracket`; the kinds without one have themselves, which the source does not ask for.
unfoldable pub bracket : NodeKind → NodeKind
bracket package_directive = package_introducer
bracket code_block = code_block_start
bracket function_definition_start = function_introducer
bracket function_definition = function_definition_start
bracket function_declaration = function_introducer
bracket parameter_list = parameter_list_start
bracket deduced_parameter_list = deduced_parameter_list_start
bracket array_expression = array_expression_semi
bracket let_declaration = let_introducer
bracket variable_declaration = variable_introducer
bracket return_statement = return_statement_start
bracket for_in = variable_introducer
bracket for_header = for_header_start
bracket if_condition = if_condition_start
bracket if_statement = if_condition
bracket while_condition = while_condition_start
bracket index_expression = index_expression_start
bracket paren_expression = paren_expression_or_tuple_literal_start
bracket tuple_literal = paren_expression_or_tuple_literal_start
bracket call_expression = call_expression_start
bracket struct_literal = struct_literal_or_struct_type_literal_start
bracket struct_type_literal = struct_literal_or_struct_type_literal_start
bracket class_definition_start = class_introducer
bracket class_definition = class_definition_start
bracket class_declaration = class_introducer
bracket interface_definition_start = interface_introducer
bracket interface_definition = interface_definition_start
bracket interface_declaration = interface_introducer
bracket named_constraint_definition_start = named_constraint_introducer
bracket named_constraint_definition = named_constraint_definition_start
bracket named_constraint_declaration = named_constraint_introducer
bracket k = k

-- `child_count`; the kinds with a bracket have none, which the source does not ask for.
unfoldable pub child_count : NodeKind → ℕ
child_count package_library = 1
child_count namespace = 2
child_count return_type = 1
child_count array_expression_semi = 2
child_count pattern_binding = 2
child_count generic_pattern_binding = 2
child_count address = 1
child_count template = 1
child_count expression_statement = 1
child_count break_statement = 1
child_count continue_statement = 1
child_count for_statement = 2
child_count while_statement = 2
child_count index_expression_start = 1
child_count call_expression_start = 1
child_count qualified_declaration = 2
child_count member_access_expression = 2
child_count pointer_member_access_expression = 2
child_count prefix_operator = 1
child_count infix_operator = 2
child_count short_circuit_operand = 1
child_count postfix_operator = 1
child_count if_expression_if = 1
child_count if_expression_then = 1
child_count if_expression_else = 3
child_count struct_field_designator = 1
child_count struct_field_value = 2
child_count struct_field_type = 2
child_count _ = 0
