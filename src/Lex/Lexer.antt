-- ===== src/Lex/Lexer.antt =====
-- `TokenizedBuffer::Lexer` of lib/Lex/TokenizedBuffer.cc: its state with that of the buffer that it
-- fills, over a type of big integers. A method returns the state that it leaves. The pointer to the
-- current line is an index. The text that is left is a view, which the methods shorten.
pub mod Whitespace
pub mod Symbols
pub mod Words
pub mod Literals
pub mod Run
pub mod Groups
pub mod Growth
pub mod Linking
pub mod Keeps
pub mod Closing
pub mod Classes
pub mod Forms
pub mod WordForms
pub mod LiteralForms
pub mod Skips
pub mod Balanced
use cocktail_lang.Prelude.{
  ℕ, ◌+◌, ◌-◌, Bool, true, false, Option, none, some, List, [], ◌∷◌, ◌++◌, Bytes, if◌then◌else◌,
  ◌==◌, length, get_or, set,
}
use cocktail_lang.Common.StringRef.{StringRef}
use cocktail_lang.Lex.TokenKind.{TokenKind}
use cocktail_lang.Lex.TokenKind.Spelling
use cocktail_lang.Lex.Diagnostic.{Diagnostic, Message}
use cocktail_lang.Lex.TokenizedBuffer.{TokenInfo, LineInfo, no_token}

-- A diagnostic is reported at a place in the source, or at a token.
pub data LexerDiagnostic : Type 0 where
  in_source : Diagnostic → LexerDiagnostic
  mismatched_closing : ℕ → LexerDiagnostic

pub record Lexer (A : Type 0) : Type 0 where
  -- the text of the buffer
  pub source : Bytes
  pub token_infos : List TokenInfo
  pub line_infos : List LineInfo
  pub identifier_infos : List Bytes
  pub literal_int_storage : List A
  pub literal_string_storage : List Bytes
  pub expected_parse_tree_size : ℕ
  pub current_line : ℕ
  pub current_column : ℕ
  pub set_indent : Bool
  -- the last one first
  pub open_groups : List ℕ
  pub emitted : List LexerDiagnostic

-- `LineInfo(start)`; the length and the index that are not known are the bits of -1 in 32 bits.
abbrev pub unknown : ℕ
unknown = 4294967295

abbrev pub new_line : ℕ → LineInfo
new_line start = record { start = start; length = unknown; indent = 0 }

abbrev pub no_line : LineInfo
no_line = record { start = 0; length = 0; indent = 0 }

abbrev pub token_info : TokenKind → ℕ → ℕ → TokenInfo
token_info kind line column = record {
  kind = kind;
  has_trailing_space = false;
  is_recovery = false;
  token_line = line;
  column = column;
  payload = unknown;
}

abbrev pub token_with : TokenKind → ℕ → ℕ → ℕ → TokenInfo
token_with kind line column payload = record (token_info kind line column) { payload = payload }

abbrev pub map_source : List Diagnostic → List LexerDiagnostic
map_source [] = []
map_source (d ∷ ds) = in_source d ∷ map_source ds

module _ {A : Type 0} where
  -- The constructor, with the first line.
  abbrev pub new_lexer : Bytes → Lexer A
  new_lexer source = record {
    source = source;
    token_infos = [];
    line_infos = new_line 0 ∷ [];
    identifier_infos = [];
    literal_int_storage = [];
    literal_string_storage = [];
    expected_parse_tree_size = 0;
    current_line = 0;
    current_column = 0;
    set_indent = false;
    open_groups = [];
    emitted = [];
  }

  abbrev pub report : List Diagnostic → Lexer A → Lexer A
  report ds x = record x { emitted = x.emitted ++ map_source ds }

  abbrev pub report_token : ℕ → Lexer A → Lexer A
  report_token token x = record x { emitted = x.emitted ++ mismatched_closing token ∷ [] }

  -- `AddToken`; the new token is the last one.
  abbrev pub add_token : TokenInfo → Lexer A → Lexer A
  add_token info x = record x {
    token_infos = x.token_infos ++ info ∷ [];
    expected_parse_tree_size =
        x.expected_parse_tree_size + Spelling.expected_parse_tree_size info.kind;
  }

  abbrev pub token_at : Lexer A → ℕ → TokenInfo
  token_at x token = get_or x.token_infos token no_token

  abbrev pub set_token : ℕ → TokenInfo → Lexer A → Lexer A
  set_token token info x = record x { token_infos = set x.token_infos token info }

  -- The two tokens of a group refer to each other.
  unfoldable pub link : ℕ → ℕ → Lexer A → Lexer A
  link opening closing x =
      let y = set_token opening (record (token_at x opening) { payload = closing }) x in
      set_token closing (record (token_at y closing) { payload = opening }) y

  abbrev pub line_at : Lexer A → ℕ → LineInfo
  line_at x line = get_or x.line_infos line no_line

  abbrev pub set_line : ℕ → LineInfo → Lexer A → Lexer A
  set_line line info x = record x { line_infos = set x.line_infos line info }

  -- `current_line_info_->length = current_column_`
  abbrev pub set_line_length : Lexer A → Lexer A
  set_line_length x =
      set_line x.current_line (record (line_at x x.current_line) { length = x.current_column }) x

  abbrev pub set_line_indent : ℕ → Lexer A → Lexer A
  set_line_indent indent x =
      set_line x.current_line (record (line_at x x.current_line) { indent = indent }) x

  -- The indentation of a line is the column of its first token.
  abbrev pub note_indent : Lexer A → Lexer A
  note_indent x =
      if x.set_indent then x else record (set_line_indent x.current_column x) { set_indent = true }

  abbrev pub add_columns : ℕ → Lexer A → Lexer A
  add_columns n x = record x { current_column = x.current_column + n }

  -- `HandleNewline`
  unfoldable pub handle_newline : Lexer A → Lexer A
  handle_newline x =
      let y = set_line_length x in
      record y {
        line_infos =
            y.line_infos ++ new_line ((line_at y y.current_line).start + y.current_column + 1) ∷ [];
        current_line = length y.line_infos;
        current_column = 0;
        set_indent = false;
      }

  -- `NoteWhitespace`
  abbrev pub note_whitespace : Lexer A → Lexer A
  note_whitespace x =
      if length x.token_infos == 0
      then x
      else (let last = length x.token_infos - 1 in
          set_token last (record (token_at x last) { has_trailing_space = true }) x)

-- What a method that forms a token returns: the text that is left, and the state; `none` is a
-- failed check.
abbrev pub Formed : Type 0 → Type 0
Formed A = Option (StringRef × Lexer A)

-- A state that was reached, with the text that is left.
abbrev pub with_rest : {A : Type 0} → StringRef → Option (Lexer A) → Formed A
with_rest rest none = none
with_rest rest (some y) = some (rest, y)
