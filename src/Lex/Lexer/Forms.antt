-- ===== src/Lex/Lexer/Forms.antt =====
-- The tokens that the lexer forms take at least one character, and keep the tokens grouped: errors,
-- symbols and words.
use cocktail_lang.Prelude.{
  ℕ, ◌<◌, ◌≡◌, if_case, refl, sym, false, none, some, arith, length, length-drop,
}
use cocktail_lang.Common.StringRef.{StringRef, size, drop_front}
use cocktail_lang.Lex.TokenKind.{TokenKind, error}
use cocktail_lang.Lex.TokenKind.Index.{kind_eq, as_int}
use cocktail_lang.Lex.TokenKind.Kinds.{kind_eq_sound}
use cocktail_lang.Lex.TokenKind.Spelling.{fixed_spelling}
use cocktail_lang.Lex.TokenKind.Tables.{is_opening_symbol, is_closing_symbol}
use cocktail_lang.Lex.Lexer.{Lexer, Formed}
use cocktail_lang.Lex.Lexer.Symbols.{
  at_least_one, compute_symbol_kind, unknown_prefix, lex_error, form_symbol, lex_symbol_token,
}
use cocktail_lang.Lex.Lexer.Linking.{add_other-Grouped}
use cocktail_lang.Lex.Lexer.Keeps.{IsGrouped}
use cocktail_lang.Lex.Lexer.Classes.{
  compute_symbol_kind-spelled, spelled-not_start, spelled-not_start,
}
use cocktail_lang.Lex.Lexer.Closing.{form_symbol-IsGrouped}

pub drop_front-shorter :
    (n : ℕ) (source : StringRef)
    → 0 < n
    → 0 < size source
    → size (drop_front n source) < size source
drop_front-shorter n source h k = omega (arith, length-drop n (source.bytes))

module _ {A : Type 0} where
  -- A token is formed: some of the text is taken, and the tokens are grouped.
  abbrev pub Forms : StringRef → Formed A → Type 0
  Forms source none = Unit
  Forms source (some (rest, x)) = (size rest < size source) × IsGrouped x

  pub lex_error-Forms :
      (source : StringRef) (x : Lexer A)
      → 0 < size source
      → IsGrouped x
      → Forms source (lex_error source x)
  unfolding lex_error is_opening_symbol is_closing_symbol kind_eq as_int
  lex_error-Forms source x h g = (
    drop_front-shorter (at_least_one (unknown_prefix (source.bytes))) source (ground arith) h,
    add_other-Grouped (x.token_infos) (x.open_groups) _ refl refl refl g,
  )

  form_symbol-Forms :
      (kind : TokenKind) (source : StringRef) (x : Lexer A)
      → 0 < size source
      → 0 < length (fixed_spelling kind)
      → IsGrouped x
      → Forms source (some (form_symbol kind source x))
  unfolding form_symbol
  form_symbol-Forms kind source x h k g = (
    drop_front-shorter _ source k h,
    form_symbol-IsGrouped kind source x (spelled-not_start kind k) g,
  )

  pub lex_symbol_token-Forms :
      (kind : TokenKind) (source : StringRef) (x : Lexer A)
      → 0 < size source
      → IsGrouped x
      → Forms source (lex_symbol_token kind source x)
  unfolding lex_symbol_token
  lex_symbol_token-Forms kind source x h g =
      let computed = compute_symbol_kind (source.bytes) in
      let spelled = compute_symbol_kind-spelled (source.bytes) in
      if_case (Forms source) (kind_eq kind error) _ _
        (λ _.
          if_case (Forms source) (kind_eq computed error) _ _ (λ _. lex_error-Forms source x h g)
            (λ e. form_symbol-Forms computed source x h (spelled e) g))
        (λ e.
          if_case (Forms source) (kind_eq kind computed) _ _
            (λ q.
              let same = kind_eq_sound kind computed q in
              let n : kind_eq computed error ≡ false = rw (sym same) e in
              form_symbol-Forms kind source x h (rw same (spelled n)) g)
            (λ _. tt))
