-- ===== src/Lex/StringLiteral/Fuel.antt =====
-- The loops of `ExpandEscapeSequencesAndRemoveIndent` end: the fuel of the model is enough.
use cocktail_lang.Prelude.{
  ℕ, zero, suc, ◌+◌, ◌*◌, ◌≤◌, ◌<◌, ◌≡◌, ◌≢◌, refl, true, List, [], ◌∷◌, Bytes, ◌==◌, arith,
  Bool-cases, inl, inr, replicate, length-drop, Option-cases,
}
use cocktail_lang.Common.CharacterSet.{is_horizontal_whitespace}
use cocktail_lang.Common.StringRef.{StringRef, size, drop_front, starts_with, consume_front}
use cocktail_lang.Common.Unicode.{UnicodeApi}
use cocktail_lang.Lex.Diagnostic.{Diagnostic}
use cocktail_lang.Lex.StringLiteral.Escape.{expand_and_consume_escape_sequence}
use cocktail_lang.Lex.StringLiteral.Shorter.{
  drop_front-le, consume_front-le, expand_and_consume_escape_sequence-le,
}
use cocktail_lang.Lex.StringLiteral.Expand.{
  Expansion, Next, start_line, in_line, done, fault, out_of_fuel, line_start, end_line,
  horizontal_whitespace, regular_text, backslash, special, line_round, expand,
  expand_escape_sequences_and_remove_indent, whitespace_length, regular_length,
}

-- What a round does: it returns, or goes on with less text.
abbrev pub Shrinks : ℕ → Next → Type 0
Shrinks n (start_line s) = size s.contents < n
Shrinks n (in_line s) = size s.contents < n
Shrinks n (done s) = Unit
Shrinks n fault = Unit

whitespace_length_pos :
    (c : ℕ) (cs : Bytes) → is_horizontal_whitespace c ≡ true → 0 < whitespace_length (c ∷ cs)
unfolding whitespace_length
whitespace_length_pos c cs h = rw h (omega arith)

horizontal_whitespace-lt :
    (s : Expansion) (c : ℕ) (cs : Bytes)
    → s.contents.bytes ≡ c ∷ cs
    → is_horizontal_whitespace c ≡ true
    → size (horizontal_whitespace s).contents < size s.contents
unfolding horizontal_whitespace
horizontal_whitespace-lt s c cs e h =
    let n = whitespace_length s.contents.bytes in
    let pos : 0 < n = rw e (whitespace_length_pos c cs h) in
    let nonempty : 0 < size s.contents = rw e (omega arith) in
    let cut : size (drop_front n s.contents) < size s.contents =
      omega (arith, length-drop {0} n s.contents.bytes) in
    elim (Bool-cases (starts_with (b'\n' ∷ []) (drop_front n s.contents).bytes)) [
      | inl line ↦ rw (line, horizontal_whitespace) cut
      | inr more ↦ rw (more, horizontal_whitespace) cut
    ]

module _ (api : UnicodeApi) (hash_level : ℕ) (indent : Bytes) where
  backslash-Shrinks :
      (s : Expansion)
      → 0 < size s.contents
      → Shrinks (size s.contents) (backslash api hash_level indent s)
  unfolding backslash
  backslash-Shrinks s h =
      let escape : Bytes = b'\\' ∷ replicate hash_level b'#' in
      elim (Option-cases (consume_front escape s.contents)) [
        | inl plain ↦ rw (plain, backslash) (omega (arith, length-drop {0} 1 s.contents.bytes))
        | inr (behind, e) ↦
            let a = consume_front-le escape s.contents e in
            elim (Option-cases (consume_front (b'\n' ∷ []) behind)) [
              | inr (rest, e') ↦
                  rw (e, e', backslash) (omega (arith, a, consume_front-le (b'\n' ∷ []) behind e'))
              | inl here ↦ elim (Option-cases (expand_and_consume_escape_sequence api behind)) [
                | inl failed ↦ rw (e, here, failed, backslash) tt
                | inr (x, e') ↦
                    rw (e, here, e', backslash)
                      (omega (arith, a, expand_and_consume_escape_sequence-le api behind e'))
              ]
            ]
      ]

  special-Shrinks :
      (s : Expansion) (bytes : Bytes)
      → s.contents.bytes ≡ bytes
      → Shrinks (size s.contents) (special api hash_level indent s bytes)
  unfolding special end_line
  special-Shrinks s [] e = tt
  special-Shrinks s (c ∷ cs) e =
      let nonempty : 0 < size s.contents = rw e (omega arith) in
      elim (Bool-cases (c == b'\n')) [
        | inl newline ↦
            rw (newline, special) (omega (arith, length-drop {0} 1 s.contents.bytes, nonempty))
        | inr other ↦ elim (Bool-cases (is_horizontal_whitespace c)) [
          | inl blank ↦ rw (other, blank, special) (horizontal_whitespace-lt s c cs e blank)
          | inr escape ↦ rw (other, escape, special) (backslash-Shrinks s nonempty)
        ]
      ]

  Shrinks-le : (n m : ℕ) (next : Next) → n ≤ m → Shrinks n next → Shrinks m next
  Shrinks-le n m (start_line s) h k = omega arith
  Shrinks-le n m (in_line s) h k = omega arith
  Shrinks-le n m (done s) h k = tt
  Shrinks-le n m fault h k = tt

  line_round-Shrinks :
      (s : Expansion) → Shrinks (size s.contents) (line_round api hash_level indent s)
  unfolding line_round regular_text
  line_round-Shrinks s =
      Shrinks-le (size (regular_text s).contents) (size s.contents) _
        (drop_front-le (regular_length s.contents.bytes) s.contents)
        (special-Shrinks (regular_text s) (regular_text s).contents.bytes refl)

  line_start-le : (s : Expansion) → size (line_start indent s).contents ≤ size s.contents
  unfolding line_start
  line_start-le s = elim (Option-cases (consume_front indent s.contents)) [
    | inl differs ↦
        rw (differs, line_start) (drop_front-le (whitespace_length s.contents.bytes) s.contents)
    | inr (rest, e) ↦ rw (e, line_start) (omega (arith, consume_front-le indent s.contents e))
  ]

  abbrev Enough : ℕ → Next → Type 0
  Enough fuel (start_line s) = 2 * size s.contents + 2 ≤ fuel
  Enough fuel (in_line s) = 2 * size s.contents + 1 ≤ fuel
  Enough fuel (done s) = Unit
  Enough fuel fault = Unit

  Shrinks-Enough : (n fuel : ℕ) (next : Next) → 2 * n ≤ fuel → Shrinks n next → Enough fuel next
  Shrinks-Enough n fuel (start_line s) h k = omega arith
  Shrinks-Enough n fuel (in_line s) h k = omega arith
  Shrinks-Enough n fuel (done s) h k = tt
  Shrinks-Enough n fuel fault h k = tt

  expand_ends :
      (fuel : ℕ) (next : Next)
      → Enough fuel next
      → expand api hash_level indent fuel next ≢ out_of_fuel
  unfolding expand
  expand_ends zero (start_line s) h = absurd (omega arith)
  expand_ends zero (in_line s) h = absurd (omega arith)
  expand_ends zero (done s) h = λ e. cc e
  expand_ends zero fault h = λ e. cc e
  expand_ends (suc fuel) (done s) h = λ e. cc e
  expand_ends (suc fuel) fault h = λ e. cc e
  expand_ends (suc fuel) (start_line s) h =
      expand_ends fuel (in_line (line_start indent s)) (omega (arith, line_start-le s))
  expand_ends (suc fuel) (in_line s) h =
      expand_ends fuel (line_round api hash_level indent s)
        (Shrinks-Enough (size s.contents) fuel _ (omega arith) (line_round-Shrinks s))

  -- The loops of `ExpandEscapeSequencesAndRemoveIndent` end on every text: the fuel is enough.
  pub expand_escape_sequences_ends :
      (contents : StringRef) (emitted : List Diagnostic)
      → expand_escape_sequences_and_remove_indent api hash_level indent contents emitted
        ≢ out_of_fuel
  unfolding expand_escape_sequences_and_remove_indent
  expand_escape_sequences_ends contents emitted =
      expand_ends (2 * size contents + 3)
        (start_line
          (record { contents = contents; result = []; last_escape_length = 0; emitted = emitted }))
        (omega arith)
