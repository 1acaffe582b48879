-- ===== src/Lex/StringLiteral.antt =====
-- include/Cocktail/Lex/StringLiteral.h and lib/Lex/StringLiteral.cc: `StringLiteral::Lex`. The
-- children expand the escape sequences and prove what the lexer promises.
pub mod Introduced
pub mod Bounds
pub mod Lexed
pub mod Escape
pub mod Expand
pub mod Plain
pub mod Shorter
pub mod Fuel
use cocktail_lang.Prelude.{
  ℕ, zero, suc, ◌+◌, ◌-◌, Bool, true, false, ◌&&◌, ◌||◌, Option, none, some, [], ◌∷◌, ◌++◌, Bytes,
  if◌then◌else◌, ◌==◌, leb, length, drop, get_or, replicate,
}
use cocktail_lang.Common.StringRef.{StringRef, substr, drop_front, starts_with}

pub data MultiLineKind : Type 0 where
  not_multi_line multi_line multi_line_with_double_quotes : MultiLineKind

-- `kind == NotMultiLine`
abbrev pub is_single_line : MultiLineKind → Bool
is_single_line not_multi_line = true
is_single_line _ = false

pub record Introducer : Type 0 where
  pub kind : MultiLineKind
  pub terminator : Bytes
  pub prefix_size : ℕ

pub record StringLiteral : Type 0 where
  pub text : StringRef
  pub content : StringRef
  pub hash_level : ℕ
  pub multi_line : MultiLineKind
  pub is_terminated : Bool

abbrev pub multi_line_indicator : Bytes
multi_line_indicator = b'\'' ∷ b'\'' ∷ b'\'' ∷ []

abbrev pub double_quoted_multi_line_indicator : Bytes
double_quoted_multi_line_indicator = b'"' ∷ b'"' ∷ b'"' ∷ []

-- `find_first_of("#\n\"")` from the position of the first byte given on.
unfoldable pub find_prefix_end : ℕ → Bytes → Option ℕ
find_prefix_end pos [] = none
find_prefix_end pos (c ∷ cs) =
    let rest = find_prefix_end (pos + 1) cs in
    if c == b'#' || c == b'\n' || c == b'"' then some pos else rest

abbrev pub regular_introducer : Bytes → Option Introducer
regular_introducer source =
    if starts_with (b'"' ∷ []) source
    then some (record { kind = not_multi_line; terminator = b'"' ∷ []; prefix_size = 1 })
    else none

-- The introducer of a multi-line string, if a newline ends the file type indicator.
unfoldable pub after_prefix_end : MultiLineKind → Bytes → Bytes → Option ℕ → Option Introducer
after_prefix_end kind indicator source none = regular_introducer source
after_prefix_end kind indicator source (some prefix_end) =
    if get_or source prefix_end 0 == b'\n'
    then some (record { kind = kind; terminator = indicator; prefix_size = prefix_end + 1 })
    else regular_introducer source

unfoldable pub multi_line_introducer : MultiLineKind → Bytes → Bytes → Option Introducer
unfolding find_prefix_end after_prefix_end
multi_line_introducer kind indicator source =
    after_prefix_end kind indicator source
      (find_prefix_end (length indicator) (drop (length indicator) source))

-- `Introducer::Lex`
unfoldable pub lex_introducer : Bytes → Option Introducer
unfolding multi_line_introducer
lex_introducer source =
    if starts_with multi_line_indicator source
    then multi_line_introducer multi_line multi_line_indicator source
    else if starts_with double_quoted_multi_line_indicator source
    then multi_line_introducer multi_line_with_double_quotes double_quoted_multi_line_indicator
        source
    else regular_introducer source

-- The number of `#` at the start.
unfoldable pub count_hashes : Bytes → ℕ
count_hashes [] = 0
count_hashes (c ∷ cs) = let rest = count_hashes cs in if c == b'#' then suc rest else 0

-- Where the loop of `Lex` returns: the cursor, and whether the literal is terminated.
pub data Ending : Type 0 where
  terminated : ℕ → Ending
  unterminated : ℕ → Ending

-- What one character does: the loop goes on behind so many more characters, or returns.
pub data Move : Type 0 where
  advance : ℕ → Move
  finish : Ending → Move

-- The case of a backslash. An escape sequence is the backslash, the hashes, and the character
-- behind them, at which the loop goes on unless the text ends there or the string is cut there.
pub escape_step : ℕ → MultiLineKind → ℕ → Bytes → Move
escape_step hash_level kind cursor rest =
    if starts_with (replicate hash_level b'#') rest
    then (let behind = drop hash_level rest in
        let cursor' = cursor + (hash_level + 1) in
        if leb (length behind) 0 || (is_single_line kind && get_or behind 0 0 == b'\n')
        then finish (unterminated cursor')
        else advance (hash_level + 1))
    else advance 0

-- One round of the loop of `Lex`, at the character c with `rest` behind it.
unfoldable pub string_step : Bytes → ℕ → MultiLineKind → ℕ → ℕ → Bytes → Move
unfolding escape_step
string_step terminator hash_level kind cursor c rest =
    if c == b'\\'
    then escape_step hash_level kind cursor rest
    else if c == b'\n'
    then (if is_single_line kind then finish (unterminated cursor) else advance 0)
    else if (c == b'"' || c == b'\'') && starts_with terminator (c ∷ rest)
    then finish (terminated cursor)
    else advance 0

-- The loop of `Lex` from a cursor on, which passes over `skip` characters first.
unfoldable pub string_loop : Bytes → ℕ → MultiLineKind → ℕ → ℕ → Bytes → Ending
string_loop terminator hash_level kind skip cursor [] = unterminated cursor
string_loop terminator hash_level kind (suc skip) cursor (c ∷ rest) =
    string_loop terminator hash_level kind skip (cursor + 1) rest
string_loop terminator hash_level kind zero cursor (c ∷ rest) =
    elim (string_step terminator hash_level kind cursor c rest) [
      | advance skip ↦ string_loop terminator hash_level kind skip (cursor + 1) rest
      | finish e ↦ e
    ]

-- The literal that is returned at the end of the loop.
abbrev pub literal_at : StringRef → ℕ → ℕ → MultiLineKind → ℕ → Ending → StringLiteral
literal_at source prefix_len hash_level kind terminator_size (terminated cursor) = record {
  text = substr 0 (cursor + terminator_size) source;
  content = substr prefix_len (cursor - prefix_len) source;
  hash_level = hash_level;
  multi_line = kind;
  is_terminated = true;
}
literal_at source prefix_len hash_level kind terminator_size (unterminated cursor) = record {
  text = substr 0 cursor source;
  content = drop_front prefix_len (substr 0 cursor source);
  hash_level = hash_level;
  multi_line = kind;
  is_terminated = false;
}

abbrev pub with_introducer : StringRef → ℕ → Option Introducer → Option StringLiteral
with_introducer source hash_level none = none
with_introducer source hash_level (some intro) =
    let prefix_len = hash_level + intro.prefix_size in
    let terminator = intro.terminator ++ replicate hash_level b'#' in
    some (
      literal_at source prefix_len hash_level intro.kind (length terminator)
        (string_loop terminator hash_level intro.kind 0 prefix_len (drop prefix_len source.bytes)))

-- `StringLiteral::Lex`
unfoldable pub lex_string : StringRef → Option StringLiteral
lex_string source =
    let hash_level = count_hashes source.bytes in
    with_introducer source hash_level (lex_introducer (drop hash_level source.bytes))
