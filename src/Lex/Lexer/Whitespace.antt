-- ===== src/Lex/Lexer/Whitespace.antt =====
-- `SkipWhitespace` of the lexer.
use cocktail_lang.Prelude.{
  ℕ, zero, suc, ◌+◌, Bool, true, false, not, ◌&&◌, ◌||◌, List, [], ◌∷◌, ◌++◌, Bytes, if◌then◌else◌,
  ◌==◌, ltb, length, get_or,
}
use cocktail_lang.Common.CharacterSet.{is_space}
use cocktail_lang.Common.StringRef.{StringRef, size, drop_front, starts_with}
use cocktail_lang.Lex.Diagnostic.{
  Diagnostic, trailing_comment, no_whitespace_after_comment_introducer, emit,
}
use cocktail_lang.Lex.Lexer.{
  Lexer, report, set_line_length, add_columns, handle_newline, note_whitespace,
}

-- The number of characters before the end of the line.
unfoldable pub rest_of_line : Bytes → ℕ
rest_of_line [] = 0
rest_of_line (c ∷ cs) = let rest = rest_of_line cs in if c == b'\n' then 0 else suc rest

-- What is emitted at a comment.
unfoldable pub comment_diagnostics : StringRef → Bool → List Diagnostic
comment_diagnostics source has_token =
    (if has_token then emit source.begin trailing_comment else [])
    ++ (if ltb 2 (size source) && not (is_space (get_or source.bytes 2 0))
        then emit (source.begin + 2) no_whitespace_after_comment_introducer
        else [])

-- How the loop goes on: with the text that is left, or to its end, where the flag says that a
-- token follows; or the check fails, or the model is out of fuel.
pub data Skip (A : Type 0) : Type 0 where
  more : StringRef → Lexer A → Skip A
  stopped : Bool → StringRef → Lexer A → Skip A
  failed : Skip A
  out_of_fuel : Skip A

module _ {A : Type 0} where
  -- A comment is passed up to the end of its line.
  unfoldable pub skip_comment : StringRef → Lexer A → StringRef × Lexer A
  unfolding comment_diagnostics rest_of_line
  skip_comment source x = elim (starts_with (b'/' ∷ b'/' ∷ []) source.bytes) [
    | true ↦
        let n = rest_of_line source.bytes in
        (drop_front n source, add_columns n (report (comment_diagnostics source x.set_indent) x))
    | false ↦ (source, x)
  ]

  -- The `switch` of a round, for the text that began at `start` when whitespace was first skipped.
  unfoldable pub skip_char : ℕ → StringRef → Lexer A → Bytes → Skip A
  unfolding handle_newline
  skip_char start source x [] = stopped false source (set_line_length x)
  skip_char start source x (c ∷ cs) =
      let rest = drop_front 1 source in
      if c == b'\n'
      then (if length cs == 0
          then stopped false rest (set_line_length x)
          else more rest (handle_newline x))
      else if c == b' ' || c == b'\t'
      then more rest (add_columns 1 x)
      else if is_space c
      then failed
      else stopped true source (if start == source.begin then x else note_whitespace x)

  unfoldable pub skip_round : ℕ → StringRef → Lexer A → Skip A
  unfolding skip_comment skip_char
  skip_round start source x =
      let (rest, y) = skip_comment source x in skip_char start rest y rest.bytes

  -- The loop goes on with `go`, or it is left.
  abbrev pub go_on : (StringRef → Lexer A → Skip A) → Skip A → Skip A
  go_on go (more rest y) = go rest y
  go_on go s = s

  -- The loop, with fuel; each round takes a character.
  unfoldable pub whitespace_loop : ℕ → ℕ → StringRef → Lexer A → Skip A
  whitespace_loop zero start source x = out_of_fuel
  whitespace_loop (suc fuel) start source x =
      go_on (whitespace_loop fuel start) (skip_round start source x)

  unfoldable pub skip_whitespace : StringRef → Lexer A → Skip A
  unfolding whitespace_loop
  skip_whitespace source x = whitespace_loop (size source + 1) source.begin source x
