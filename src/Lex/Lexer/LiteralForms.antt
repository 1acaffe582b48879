-- ===== src/Lex/Lexer/LiteralForms.antt =====
-- The literals that the lexer forms take at least one character, and keep the tokens grouped.
use cocktail_lang.Prelude.{
  ℕ, replicate, ◌≢◌, zero, suc, ◌+◌, ◌<◌, ◌≡◌, refl, ◌∙◌, ap, true, List, [], ◌∷◌, ◌++◌, Option,
  none, some, ◌==◌, if_either, arith, length, Bool-cases, Option-cases, inl, inr, Bytes,
  length-append,
}
use cocktail_lang.Common.ApInt.{ApIntApi}
use cocktail_lang.Common.Unicode.{UnicodeApi}
use cocktail_lang.Common.StringRef.{StringRef, size, starts_with}
use cocktail_lang.Lex.Diagnostic.{Diagnostic, is_decimal}
use cocktail_lang.Lex.NumericLiteral.{lex_numeric}
use cocktail_lang.Lex.NumericLiteral.Lexed.{lex_numeric-IsLexed}
use cocktail_lang.Lex.NumericLiteral.Scanning.{At-lt}
use cocktail_lang.Lex.NumericLiteral.Value.{
  Value, integer_value, real_value, unrecoverable_error, compute_value,
}
use cocktail_lang.Lex.StringLiteral.{
  StringLiteral, MultiLineKind, not_multi_line, multi_line, multi_line_with_double_quotes,
  is_single_line, lex_string,
}
use cocktail_lang.Lex.StringLiteral.Introduced.{quotes}
use cocktail_lang.Lex.StringLiteral.Lexed.{IsStringLiteral, lex_string-IsStringLiteral}
use cocktail_lang.Lex.TokenKind.Index.{kind_eq, as_int}
use cocktail_lang.Lex.TokenKind.Tables.{is_opening_symbol, is_closing_symbol}
use cocktail_lang.Lex.Lexer.{Lexer, with_rest, line_at, note_indent, add_columns, handle_newline}
use cocktail_lang.Lex.Lexer.Literals.{
  add_number, walk_lines, pass_string, add_string, string_token, lex_string_literal, number_token,
  lex_numeric_literal, same_flag, is_decimal_text,
}
use cocktail_lang.Lex.Lexer.Linking.{add_other-Grouped}
use cocktail_lang.Lex.Lexer.Keeps.{IsGrouped, note_indent-IsGrouped}
use cocktail_lang.Lex.Lexer.Forms.{Forms, lex_error-Forms, drop_front-shorter}
use cocktail_lang.Lex.Lexer.WordForms.{GroupedOrNone}

starts : (n : ℕ) (kind : MultiLineKind) → starts_with (replicate n b'#' ++ quotes kind) [] ≢ true
starts zero not_multi_line h = ground arith
starts zero multi_line h = ground arith
starts zero multi_line_with_double_quotes h = ground arith
starts (suc n) kind h = ground arith

-- What opens a string literal is not empty.
opening_size :
    (n : ℕ) (kind : MultiLineKind) (opening : Bytes)
    → starts_with (replicate n b'#' ++ quotes kind) opening ≡ true
    → 0 < length opening
opening_size n kind [] h = absurd (starts n kind h)
opening_size n kind (c ∷ cs) h = omega arith

-- A string literal is not empty.
string_size :
    (source : StringRef) (l : StringLiteral) → IsStringLiteral source l → 0 < size (l.text)
string_size source l w =
    let opening = opening_size (l.hash_level) (l.multi_line) (w.opening) (w.opens) in
    let parts = ap length (w.parts) ∙ length-append (w.opening) _ in omega arith

module _ {A : Type 0} where
  add_number-Grouped :
      (v : Value A) (column token_size : ℕ) (x : Lexer A)
      → IsGrouped x
      → GroupedOrNone (add_number v column token_size x)
  unfolding add_number is_opening_symbol is_closing_symbol kind_eq as_int
  add_number-Grouped (integer_value v) column n x g =
      add_other-Grouped (x.token_infos) (x.open_groups) _ refl refl refl g
  add_number-Grouped (real_value radix m e) column n x g =
      elim (Bool-cases (
        same_flag (is_decimal_text (x.source) ((line_at x (x.current_line)).start + column))
          (is_decimal radix))) [
            | inl q ↦
                rw (q, add_number)
                  (add_other-Grouped (x.token_infos) (x.open_groups) _ refl refl refl g)
            | inr q ↦ rw (q, add_number) tt
          ]
  add_number-Grouped unrecoverable_error column n x g =
      add_other-Grouped (x.token_infos) (x.open_groups) _ refl refl refl g

  walk_lines-IsGrouped :
      (column : ℕ) (text : Bytes) (x : Lexer A) → IsGrouped x → IsGrouped (walk_lines column text x)
  unfolding walk_lines handle_newline
  walk_lines-IsGrouped column [] x g = g
  walk_lines-IsGrouped column (c ∷ cs) x g =
      walk_lines-IsGrouped column cs _ (if_either IsGrouped (c == b'\n') _ _ g g)

  pass_string-IsGrouped :
      (literal : StringLiteral) (column : ℕ) (x : Lexer A)
      → IsGrouped x
      → IsGrouped (pass_string literal column x)
  unfolding pass_string
  pass_string-IsGrouped literal column x g =
      if_either IsGrouped (is_single_line (literal.multi_line)) _ _ g
        (walk_lines-IsGrouped column (literal.text.bytes) x g)

  add_string-Grouped :
      (line column : ℕ) (value : Option (Bytes × List Diagnostic)) (x : Lexer A)
      → IsGrouped x
      → GroupedOrNone (add_string line column value x)
  unfolding add_string is_opening_symbol is_closing_symbol kind_eq as_int
  add_string-Grouped line column none x g = tt
  add_string-Grouped line column (some (v, ds)) x g =
      add_other-Grouped (x.token_infos) (x.open_groups) _ refl refl refl g

  string_token-Grouped :
      (unicode : UnicodeApi) (literal : StringLiteral) (line column : ℕ) (x : Lexer A)
      → IsGrouped x
      → GroupedOrNone (string_token unicode literal line column x)
  unfolding string_token is_opening_symbol is_closing_symbol kind_eq as_int
  string_token-Grouped unicode literal line column x g = elim (Bool-cases (literal.is_terminated)) [
    | inl e ↦ rw (e, string_token) (add_string-Grouped line column _ x g)
    | inr e ↦
        rw (e, string_token) (add_other-Grouped (x.token_infos) (x.open_groups) _ refl refl refl g)
  ]

module _ {A : Type 0} where
  with_rest-Forms :
      (source rest : StringRef) (o : Option (Lexer A))
      → size rest < size source
      → GroupedOrNone o
      → Forms source (with_rest rest o)
  with_rest-Forms source rest none h g = tt
  with_rest-Forms source rest (some y) h g = (h, g)

  pub lex_string_literal-Forms :
      (unicode : UnicodeApi) (source : StringRef) (x : Lexer A)
      → 0 < size source
      → IsGrouped x
      → Forms source (lex_string_literal unicode source x)
  unfolding lex_string_literal
  lex_string_literal-Forms unicode source x h g = elim (Option-cases (lex_string source)) [
    | inl e ↦ rw (e, lex_string_literal) (lex_error-Forms source x h g)
    | inr (l, e) ↦
        let y = pass_string l (x.current_column) (note_indent x) in
        rw (e, lex_string_literal)
          (with_rest-Forms source _ _
            (drop_front-shorter (size (l.text)) source
              (string_size source l (lex_string-IsStringLiteral source e)) h)
            (string_token-Grouped unicode l (x.current_line) (x.current_column) y (
              pass_string-IsGrouped l (x.current_column) (note_indent x)
                (note_indent-IsGrouped x g))))
  ]

module _ (api : ApIntApi) where
  number_token-Grouped :
      (r : Option (Value (api.ApInt)) × List Diagnostic) (column n : ℕ) (x : Lexer (api.ApInt))
      → IsGrouped x
      → GroupedOrNone (number_token api r column n x)
  unfolding number_token
  number_token-Grouped (none, ds) column n x g = tt
  number_token-Grouped (some v, ds) column n x g = add_number-Grouped v column n _ g

  pub lex_numeric_literal-Forms :
      (source : StringRef) (x : Lexer (api.ApInt))
      → 0 < size source
      → IsGrouped x
      → Forms source (lex_numeric_literal api source x)
  unfolding lex_numeric_literal
  lex_numeric_literal-Forms source x h g = elim (Option-cases (lex_numeric source)) [
    | inl e ↦ rw (e, lex_numeric_literal) (lex_error-Forms source x h g)
    | inr (l, e) ↦
        let n = size (l.text) in
        rw (e, lex_numeric_literal)
          (with_rest-Forms source _ _
            (drop_front-shorter n source
              (At-lt _ (l.text.bytes) 0 ((lex_numeric-IsLexed source e).starts)) h)
            (number_token-Grouped (compute_value api l) (x.current_column) n
              (add_columns n (note_indent x)) (note_indent-IsGrouped x g)))
  ]
