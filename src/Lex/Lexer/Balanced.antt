-- ===== src/Lex/Lexer/Balanced.antt =====
-- Lexing ends, and the tokens that it leaves are balanced.
use mathlib.Core.Path.{subst}
use cocktail_lang.Prelude.{
  ℕ, zero, suc, ◌+◌, ◌-◌, ◌<◌, ◌≡◌, refl, sym, ap, true, false, List, [], ◌∷◌, ◌++◌, none, some,
  ◌≢◌, arith, length, Bytes, get_or, get_or-snoc, length-snoc,
}
use cocktail_lang.Common.ApInt.{ApIntApi}
use cocktail_lang.Common.Unicode.{UnicodeApi}
use cocktail_lang.Common.StringRef.{StringRef, size}
use cocktail_lang.Lex.TokenKind.{error, end_of_file}
use cocktail_lang.Lex.TokenKind.Index.{kind_eq, as_int}
use cocktail_lang.Lex.TokenKind.Tables.{is_opening_symbol, is_closing_symbol}
use cocktail_lang.Lex.TokenizedBuffer.{TokenInfo, no_token}
use cocktail_lang.Lex.Lexer.{Lexer, Formed, new_lexer, note_whitespace, token_info}
use cocktail_lang.Lex.Lexer.Whitespace.{Skip, more, stopped, failed, out_of_fuel}
use cocktail_lang.Lex.Lexer.Symbols.{close_invalid_open_groups}
use cocktail_lang.Lex.Lexer.Run.{
  Dispatch, to_error, to_word, to_numeric, to_string, to_symbol, dispatch_table, LexOutcome, lexed,
  check_failed, no_fuel, dispatch, lex_token, after_token, after_skip, lex_loop, finish_lex,
  finish_outcome, lex,
}
use cocktail_lang.Lex.Lexer.Groups.{Grouped, OpenBelow, kind_at}
use cocktail_lang.Lex.Lexer.Linking.{add_other-Grouped}
use cocktail_lang.Lex.Lexer.Keeps.{
  IsGrouped, SkipGrouped, skip_whitespace-Grouped, note_whitespace-IsGrouped,
}
use cocktail_lang.Lex.Lexer.Closing.{close_all-IsGrouped}
use cocktail_lang.Lex.Lexer.Forms.{Forms, lex_error-Forms, lex_symbol_token-Forms}
use cocktail_lang.Lex.Lexer.WordForms.{lex_keyword_or_identifier-Forms}
use cocktail_lang.Lex.Lexer.LiteralForms.{lex_numeric_literal-Forms, lex_string_literal-Forms}
use cocktail_lang.Lex.Lexer.Skips.{skip_whitespace-ends, SkipFits, skip_whitespace-Fits}

-- What the buffer holds when lexing is over: no group is open, and the end of the file is last.
pub record IsLexedBuffer (ts : List TokenInfo) : Type 0 where
  pub groups : Grouped ts []
  pub nonempty : 0 < length ts
  pub last : kind_at ts (length ts - 1) ≡ end_of_file

module _ (api : ApIntApi) (unicode : UnicodeApi) where
  dispatch-Forms :
      (d : Dispatch) (source : StringRef) (x : Lexer (api.ApInt))
      → 0 < size source
      → IsGrouped x
      → Forms source (dispatch api unicode d source x)
  unfolding dispatch
  dispatch-Forms to_error source x h g = lex_error-Forms source x h g
  dispatch-Forms to_word source x h g = lex_keyword_or_identifier-Forms api source x h g
  dispatch-Forms to_numeric source x h g = lex_numeric_literal-Forms api source x h g
  dispatch-Forms to_string source x h g = lex_string_literal-Forms unicode source x h g
  dispatch-Forms (to_symbol kind) source x h g = lex_symbol_token-Forms kind source x h g

  -- The loop is left with the tokens grouped, or a check fails.
  abbrev Ends : LexOutcome (api.ApInt) → Type 0
  Ends (lexed x) = IsGrouped x
  Ends check_failed = Unit
  Ends no_fuel = ⊥

  after_token-Ends :
      (go : StringRef → Lexer (api.ApInt) → LexOutcome (api.ApInt)) (source : StringRef)
      (f : Formed (api.ApInt))
      → ((rest : StringRef) (y : Lexer (api.ApInt))
          → size rest < size source
          → IsGrouped y
          → Ends (go rest y))
      → Forms source f
      → Ends (after_token api unicode go f)
  after_token-Ends go source none h g = tt
  after_token-Ends go source (some (rest, y)) h g = h rest y (g.0) (g.1)

  after_skip-Ends :
      (go : StringRef → Lexer (api.ApInt) → LexOutcome (api.ApInt)) (n : ℕ) (s : Skip (api.ApInt))
      → ((rest : StringRef) (y : Lexer (api.ApInt))
          → size rest < n
          → IsGrouped y
          → Ends (go rest y))
      → SkipFits n s
      → SkipGrouped s
      → (stuck : (rest : StringRef) (y : Lexer (api.ApInt)) → s ≢ more rest y)
      → Ends (after_skip api unicode go s)
  unfolding lex_token
  after_skip-Ends go n (stopped true rest y) h f g stuck =
      after_token-Ends go rest _ (λ next z k. h next z (omega (arith, f.1)))
        (dispatch-Forms (dispatch_table (get_or (rest.bytes) 0 0)) rest y (f.0) g)
  after_skip-Ends go n (stopped false rest y) h f g stuck = g
  after_skip-Ends go n failed h f g stuck = absurd f
  after_skip-Ends go n out_of_fuel h f g stuck = absurd f
  after_skip-Ends go n (more rest y) h f g stuck = absurd (stuck rest y refl)

  lex_loop-Ends :
      (fuel : ℕ) (source : StringRef) (x : Lexer (api.ApInt))
      → size source < fuel
      → IsGrouped x
      → Ends (lex_loop api unicode fuel source x)
  unfolding lex_loop
  lex_loop-Ends zero source x h g = absurd (omega arith)
  lex_loop-Ends (suc fuel) source x h g =
      after_skip-Ends (lex_loop api unicode fuel) (size source) _
        (λ rest y k. lex_loop-Ends fuel rest y (omega arith)) (skip_whitespace-Fits source x)
        (skip_whitespace-Grouped source x g) (skip_whitespace-ends source x)

  -- The tokens at the start: there are none.
  new_lexer-IsGrouped : (text : Bytes) → IsGrouped (new_lexer {A = api.ApInt} text)
  unfolding OpenBelow
  new_lexer-IsGrouped text = record {
    stack = tt;
    opened = λ i h _ _. absurd (omega arith);
    no_start = λ i h. absurd (omega arith);
    closed = λ j h _. absurd (omega arith);
  }

  loop-Ends :
      (text : Bytes)
      → Ends (
          lex_loop api unicode
            (length text + 1)
            (record { begin = 0; bytes = text })
            (new_lexer text))
  loop-Ends text =
      lex_loop-Ends (length text + 1) (record { begin = 0; bytes = text }) (new_lexer text)
        (omega arith) (new_lexer-IsGrouped text)

  finish_outcome-no_fuel :
      (o : LexOutcome (api.ApInt)) → Ends o → finish_outcome api unicode o ≢ no_fuel
  finish_outcome-no_fuel (lexed x) h e = absurd (ground arith)
  finish_outcome-no_fuel check_failed h e = absurd (ground arith)
  finish_outcome-no_fuel no_fuel h e = h

  -- Lexing ends on every text: the loops do not run out of their fuel.
  pub lex_ends : (text : Bytes) → lex api unicode text ≢ no_fuel
  unfolding lex
  lex_ends text e = finish_outcome-no_fuel _ (loop-Ends text) e

  finish_lex-IsLexedBuffer :
      (x : Lexer (api.ApInt)) → IsGrouped x → IsLexedBuffer ((finish_lex api unicode x).token_infos)
  unfolding finish_lex is_opening_symbol is_closing_symbol kind_eq as_int
  finish_lex-IsLexedBuffer x g =
      let y = close_invalid_open_groups error (note_whitespace x) in
      let (h, e) = close_all-IsGrouped (note_whitespace x) (note_whitespace-IsGrouped x g) in
      let t = token_info end_of_file y.current_line y.current_column in
      let n = length-snoc (y.token_infos) t in
      let h' : Grouped (y.token_infos) [] = rw (sym e) h in
      let at_last : length (y.token_infos ++ t ∷ []) - 1 ≡ length y.token_infos =
        omega (arith, n) in
      record {
        groups = add_other-Grouped (y.token_infos) [] t refl refl refl h';
        nonempty = omega (arith, n);
        last = rw at_last (ap (λ u. u.kind) (get_or-snoc (y.token_infos) t no_token));
      }

  -- What an outcome says of the buffer.
  abbrev LexedWell : LexOutcome (api.ApInt) → Type 0
  LexedWell (lexed x) = IsLexedBuffer (x.token_infos)
  LexedWell check_failed = Unit
  LexedWell no_fuel = ⊥

  finish_outcome-Well :
      (o : LexOutcome (api.ApInt)) → Ends o → LexedWell (finish_outcome api unicode o)
  finish_outcome-Well (lexed x) h = finish_lex-IsLexedBuffer x h
  finish_outcome-Well check_failed h = tt
  finish_outcome-Well no_fuel h = h

  -- In a buffer that lexing leaves, each opening symbol refers to a later token, which is its
  -- closing symbol and refers back; each closing symbol refers to an earlier opening symbol that
  -- refers back; and the last token is the end of the file.
  pub lex-IsLexedBuffer :
      (text : Bytes) {x : Lexer (api.ApInt)}
      → lex api unicode text ≡ lexed x
      → IsLexedBuffer (x.token_infos)
  unfolding lex
  lex-IsLexedBuffer text e = subst LexedWell e (finish_outcome-Well _ (loop-Ends text))
