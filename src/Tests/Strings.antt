-- ===== src/Tests/Strings.antt =====
-- Identifiers and string literals at concrete texts, and code points as single bytes: concrete
-- functions for the interface `UnicodeApi`.
use cocktail_lang.Prelude.{◌≡◌, ◌≢◌, refl, ◌++◌, true, some, [], ◌∷◌, Bytes, take}
use cocktail_lang.Common.CharacterSet.{is_horizontal_whitespace}
use cocktail_lang.Common.ApInt.{digits_value}
use cocktail_lang.Common.StringRef.{StringRef}
use cocktail_lang.Common.Unicode.{UnicodeApi}
use cocktail_lang.Lex.Identifier.{scan_for_identifier_prefix, scalar_scan}
use cocktail_lang.Lex.Identifier.Vector.{scan_for_identifier_prefix-scalar}
use cocktail_lang.Lex.StringLiteral.{
  StringLiteral, not_multi_line, lex_string, count_hashes, lex_introducer, string_loop, string_step,
}
use cocktail_lang.Lex.StringLiteral.Lexed.{IsStringLiteral, lex_string-IsStringLiteral}
use cocktail_lang.Lex.StringLiteral.Expand.{
  compute_string_value, out_of_fuel, expand_escape_sequences_and_remove_indent,
}
use cocktail_lang.Lex.StringLiteral.Plain.{lex_string-compute_string_value}
use cocktail_lang.Lex.StringLiteral.Fuel.{expand_escape_sequences_ends}

abbrev pub bytes_api : UnicodeApi
bytes_api = record {
  get_as_unsigned = λ radix digits. some (digits_value radix 0 digits);
  code_point_to_utf8 = λ code. some (code ∷ []);
  get_as_unsigned_fits = λ radix digits _ _ _. refl;
  code_point_to_utf8_valid = λ code _. (code ∷ [], refl);
}

-- `#"a"#;`
abbrev hashed_source : StringRef
hashed_source = record { begin = 0; bytes = b'#' ∷ b'"' ∷ b'a' ∷ b'"' ∷ b'#' ∷ b';' ∷ [] }

abbrev hashed_literal : StringLiteral
hashed_literal = record {
  text = record { begin = 0; bytes = b'#' ∷ b'"' ∷ b'a' ∷ b'"' ∷ b'#' ∷ [] };
  content = record { begin = 2; bytes = b'a' ∷ [] };
  hash_level = 1;
  multi_line = not_multi_line;
  is_terminated = true;
}

lex_hashed : lex_string hashed_source ≡ some hashed_literal
unfolding lex_string count_hashes lex_introducer string_loop string_step
lex_hashed = refl

lex_string-IsStringLiteral_example : IsStringLiteral hashed_source hashed_literal
lex_string-IsStringLiteral_example = lex_string-IsStringLiteral hashed_source lex_hashed

lex_string-compute_string_value_example :
    (l : StringLiteral) × (lex_string
        (record { begin = 4; bytes = b'"' ∷ ((b'h' ∷ b'i' ∷ []) ++ (b'"' ∷ b';' ∷ [])) })
      ≡ some l)
    × (l.text.bytes ≡ b'"' ∷ ((b'h' ∷ b'i' ∷ []) ++ b'"' ∷ []))
    × (compute_string_value bytes_api l ≡ some (b'h' ∷ b'i' ∷ [], []))
unfolding is_horizontal_whitespace
lex_string-compute_string_value_example =
    lex_string-compute_string_value bytes_api 4 b'h' (b'i' ∷ []) (b';' ∷ []) refl refl

-- `a_1+b`
abbrev name_source : Bytes
name_source = b'a' ∷ b'_' ∷ b'1' ∷ b'+' ∷ b'b' ∷ []

scan_for_identifier_prefix-scalar_example :
    scan_for_identifier_prefix name_source ≡ take (scalar_scan name_source) name_source
scan_for_identifier_prefix-scalar_example = scan_for_identifier_prefix-scalar name_source

-- `\n`, with no indentation
expand_escape_sequences_ends_example :
    expand_escape_sequences_and_remove_indent bytes_api 0 []
      (record { begin = 1; bytes = b'\\' ∷ b'n' ∷ [] })
      []
    ≢ out_of_fuel
expand_escape_sequences_ends_example =
    expand_escape_sequences_ends bytes_api 0 [] (record { begin = 1; bytes = b'\\' ∷ b'n' ∷ [] }) []
