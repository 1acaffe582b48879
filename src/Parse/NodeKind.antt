-- ===== src/Parse/NodeKind.antt =====
-- The kinds of parse nodes of include/Cocktail/Parse/NodeKind.def.
pub mod Shape

pub data NodeKind : Type 0 where
  file_start file_end invalid_parse empty_declaration name_node name_expression : NodeKind
  package_introducer package_api package_impl package_library package_directive : NodeKind
  namespace_start namespace code_block_start code_block function_introducer : NodeKind
  return_type function_definition_start function_definition function_declaration : NodeKind
  parameter_list_start deduced_parameter_list_start parameter_list_comma : NodeKind
  parameter_list deduced_parameter_list array_expression_start array_expression_semi : NodeKind
  array_expression pattern_binding generic_pattern_binding address template : NodeKind
  let_introducer let_initializer let_declaration variable_introducer : NodeKind
  variable_initializer variable_declaration expression_statement break_statement_start : NodeKind
  break_statement continue_statement_start continue_statement return_statement_start : NodeKind
  return_statement for_header_start for_in for_header for_statement if_condition_start : NodeKind
  if_condition if_statement_else if_statement while_condition_start while_condition : NodeKind
  while_statement index_expression_start index_expression : NodeKind
  paren_expression_or_tuple_literal_start paren_expression tuple_literal_comma : NodeKind
  tuple_literal call_expression_start call_expression_comma call_expression : NodeKind
  qualified_declaration member_access_expression pointer_member_access_expression : NodeKind
  literal_node prefix_operator infix_operator short_circuit_operand postfix_operator : NodeKind
  if_expression_if if_expression_then if_expression_else : NodeKind
  struct_literal_or_struct_type_literal_start struct_field_designator : NodeKind
  struct_field_value struct_field_type struct_field_unknown struct_comma : NodeKind
  struct_literal struct_type_literal class_introducer class_definition_start : NodeKind
  class_definition class_declaration interface_introducer interface_definition_start : NodeKind
  interface_definition interface_declaration named_constraint_introducer : NodeKind
  named_constraint_definition_start named_constraint_definition : NodeKind
  named_constraint_declaration self_value_name self_type_name_expression : NodeKind
