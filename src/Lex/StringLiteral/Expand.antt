-- ===== src/Lex/StringLiteral/Expand.antt =====
-- `ComputeIndentOfFinalLine`, `CheckIndent`, `ExpandEscapeSequencesAndRemoveIndent` and
-- `ComputeValue` of lib/Lex/StringLiteral.cc.
use cocktail_lang.Prelude.{
  ℕ, zero, suc, ◌+◌, ◌-◌, ◌*◌, Bool, not, ◌&&◌, ◌||◌, Option, none, some, List, [], ◌∷◌, ◌++◌,
  Bytes, if◌then◌else◌, ◌==◌, length, take, drop, get_or, replicate,
}
use cocktail_lang.Common.CharacterSet.{is_horizontal_whitespace, is_space}
use cocktail_lang.Common.StringRef.{
  StringRef, size, end_offset, substr, drop_front, starts_with, consume_front,
}
use cocktail_lang.Common.Unicode.{UnicodeApi}
use cocktail_lang.Lex.Diagnostic.{
  Diagnostic, content_before_string_terminator, mismatched_indent_in_string,
  invalid_horizontal_whitespace_in_string, multi_line_string_with_double_quotes, emit,
}
use cocktail_lang.Lex.StringLiteral.{
  StringLiteral, MultiLineKind, not_multi_line, multi_line_with_double_quotes,
}
use cocktail_lang.Lex.StringLiteral.Escape.{expand_and_consume_escape_sequence}

-- `ComputeIndentOfFinalLine`, from position i down; `none` is `llvm_unreachable`.
unfoldable pub indent_of_final_line : StringRef → ℕ → ℕ → Option StringRef
indent_of_final_line text zero indent_end = none
indent_of_final_line text (suc i) indent_end =
    let c = get_or text.bytes i 0 in
    let rest = indent_of_final_line text i (if is_space c then indent_end else i) in
    if c == b'\n' then some (substr (i + 1) (indent_end - (i + 1)) text) else rest

-- `CheckIndent`
unfoldable pub check_indent : StringRef → StringRef → Option (StringRef × List Diagnostic)
unfolding indent_of_final_line
check_indent text content = elim (indent_of_final_line text (size text) (size text)) [
  | none ↦ none
  | some indent ↦ some (
    indent,
    (if end_offset indent == end_offset content
        then []
        else emit (end_offset indent) content_before_string_terminator),
  )
]

-- The characters at which plain text ends.
abbrev pub ends_regular_text : ℕ → Bool
ends_regular_text c = c == b'\n' || c == b'\\' || (is_horizontal_whitespace c && not (c == b' '))

-- `find_if`: the length of the plain text at the start.
unfoldable pub regular_length : Bytes → ℕ
regular_length [] = 0
regular_length (c ∷ cs) =
    let rest = regular_length cs in if ends_regular_text c then 0 else suc rest

-- `find_if_not(IsHorizontalWhitespace)`, or the length where there is no such character.
unfoldable pub whitespace_length : Bytes → ℕ
whitespace_length [] = 0
whitespace_length (c ∷ cs) =
    let rest = whitespace_length cs in if is_horizontal_whitespace c then suc rest else 0

abbrev pub cons_unless_blank : ℕ → Bytes → Bytes
cons_unless_blank c [] = if is_horizontal_whitespace c then [] else c ∷ []
cons_unless_blank c (d ∷ ds) = c ∷ d ∷ ds

-- The result with the blanks at its end popped.
unfoldable pub pop_blanks : Bytes → Bytes
pop_blanks [] = []
pop_blanks (c ∷ cs) = cons_unless_blank c (pop_blanks cs)

-- The variables of `ExpandEscapeSequencesAndRemoveIndent`.
pub record Expansion : Type 0 where
  pub contents : StringRef
  pub result : Bytes
  pub last_escape_length : ℕ
  pub emitted : List Diagnostic

-- What a round of the loops does next: start a line, go on in it, or return.
pub data Next : Type 0 where
  start_line : Expansion → Next
  in_line : Expansion → Next
  done : Expansion → Next
  -- a check or `llvm_unreachable`
  fault : Next

-- How the loops end.
pub data Outcome : Type 0 where
  finished : Expansion → Outcome
  faulted : Outcome
  out_of_fuel : Outcome

-- The start of a line: the indent is taken off.
unfoldable pub line_start : Bytes → Expansion → Expansion
line_start indent s = elim (consume_front indent s.contents) [
  | some rest ↦ record s { contents = rest; last_escape_length = 0 }
  | none ↦
      let rest = drop_front (whitespace_length s.contents.bytes) s.contents in
      record s {
        contents = rest;
        last_escape_length = 0;
        emitted =
            if starts_with (b'\n' ∷ []) rest.bytes
            then s.emitted
            else s.emitted ++ emit s.contents.begin mismatched_indent_in_string;
      }
]

-- The end of a line: blanks that no escape sequence gave are popped.
unfoldable pub end_line : Expansion → Expansion
unfolding pop_blanks
end_line s = record s {
  contents = drop_front 1 s.contents;
  result =
      take s.last_escape_length s.result
      ++ (pop_blanks (drop s.last_escape_length s.result) ++ b'\n' ∷ []);
}

-- A tab in the text is reported unless only blanks follow it in its line.
unfoldable pub horizontal_whitespace : Expansion → Expansion
unfolding whitespace_length
horizontal_whitespace s =
    let n = whitespace_length s.contents.bytes in
    let rest = drop_front n s.contents in
    if starts_with (b'\n' ∷ []) rest.bytes then record s { contents = rest } else record s {
      contents = rest;
      result = s.result ++ take n s.contents.bytes;
      emitted = s.emitted ++ emit s.contents.begin invalid_horizontal_whitespace_in_string;
    }

-- The plain text at the start of the contents goes to the result.
unfoldable pub regular_text : Expansion → Expansion
unfolding regular_length
regular_text s =
    let n = regular_length s.contents.bytes in
    record s { contents = drop_front n s.contents; result = s.result ++ take n s.contents.bytes }

module _ (api : UnicodeApi) (hash_level : ℕ) (indent : Bytes) where
  -- A backslash: the escape sequence behind it, if the hashes follow.
  unfoldable pub backslash : Expansion → Next
  backslash s = elim (consume_front (b'\\' ∷ replicate hash_level b'#') s.contents) [
    | none ↦ in_line (record s {
      contents = drop_front 1 s.contents;
      result = s.result ++ take 1 s.contents.bytes;
    })
    | some behind ↦ elim (consume_front (b'\n' ∷ []) behind) [
      | some rest ↦ start_line (record s { contents = rest })
      | none ↦ elim (expand_and_consume_escape_sequence api behind) [
        | none ↦ fault
        | some e ↦ in_line (record {
          contents = e.content;
          result = s.result ++ e.appended;
          last_escape_length = length (s.result ++ e.appended);
          emitted = s.emitted ++ e.emitted;
        })
      ]
    ]
  ]

  -- The inner loop behind the plain text, by the character that ended it.
  unfoldable pub special : Expansion → Bytes → Next
  unfolding backslash end_line horizontal_whitespace
  special s [] = done s
  special s (c ∷ _) =
      if c == b'\n'
      then start_line (end_line s)
      else if is_horizontal_whitespace c
      then in_line (horizontal_whitespace s)
      else backslash s

  unfoldable pub line_round : Expansion → Next
  unfolding special regular_text
  line_round s = special (regular_text s) (regular_text s).contents.bytes

  -- The two loops. A round takes at least one character, or returns, or starts a line.
  unfoldable pub expand : ℕ → Next → Outcome
  expand fuel fault = faulted
  expand fuel (done s) = finished s
  expand zero (start_line s) = out_of_fuel
  expand zero (in_line s) = out_of_fuel
  expand (suc fuel) (start_line s) = expand fuel (in_line (line_start indent s))
  expand (suc fuel) (in_line s) = expand fuel (line_round s)

  unfoldable pub expand_escape_sequences_and_remove_indent : StringRef → List Diagnostic → Outcome
  unfolding expand line_start line_round
  expand_escape_sequences_and_remove_indent contents emitted = expand (2 * size contents + 3) (
      start_line
        (record { contents = contents; result = []; last_escape_length = 0; emitted = emitted }))

abbrev pub indent_of : StringLiteral → MultiLineKind → Option (StringRef × List Diagnostic)
indent_of l not_multi_line = some (record { begin = l.text.begin; bytes = [] }, [])
indent_of l _ = check_indent l.text l.content

abbrev pub double_quotes_emitted : StringLiteral → MultiLineKind → List Diagnostic
double_quotes_emitted l multi_line_with_double_quotes =
    emit l.text.begin multi_line_string_with_double_quotes
double_quotes_emitted l _ = []

-- The value of a literal of the given kind.
unfoldable pub value_of_kind :
    UnicodeApi → StringLiteral → MultiLineKind → Option (Bytes × List Diagnostic)
value_of_kind api l kind = if not l.is_terminated then some ([], []) else elim (indent_of l kind) [
  | none ↦ none
  | some (indent, more) ↦
      elim (expand_escape_sequences_and_remove_indent api l.hash_level indent.bytes l.content
        (double_quotes_emitted l kind ++ more)) [
          | finished s ↦ some (s.result, s.emitted)
          | _ ↦ none
        ]
]

-- `StringLiteral::ComputeValue`, with what it emits; `none` is a fault.
unfoldable pub compute_string_value : UnicodeApi → StringLiteral → Option (Bytes × List Diagnostic)
compute_string_value api l = value_of_kind api l l.multi_line
