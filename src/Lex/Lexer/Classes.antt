-- ===== src/Lex/Lexer/Classes.antt =====
-- The kinds that the lexer reads off a text: symbols have a spelling, and keywords are in no group.
use cocktail_lang.Prelude.{
  ◌<◌, ◌≡◌, refl, ap, Bool, true, false, not, ◌&&◌, List, [], ◌∷◌, arith, length, Bool-cases, inl,
  inr, ◌⊎◌, ltb, ltb→lt, Bytes,
}
use cocktail_lang.Common.StringRef.{starts_with}
use cocktail_lang.Lex.TokenKind.{TokenKind, error, start_of_file}
use cocktail_lang.Lex.TokenKind.Index.{kind_eq, as_int}
use cocktail_lang.Lex.TokenKind.Kinds.{kind_eq_refl, kind_eq_sound}
use cocktail_lang.Lex.TokenKind.Spelling.{fixed_spelling, symbol_tokens, keyword_tokens}
use cocktail_lang.Lex.TokenKind.Tables.{is_opening_symbol, is_closing_symbol}
use cocktail_lang.Lex.Lexer.Symbols.{first_kind, compute_symbol_kind}
use cocktail_lang.Lex.Lexer.Words.{bytes_eq, keyword_kind}

unfoldable all_kinds : (TokenKind → Bool) → List TokenKind → Bool
all_kinds q [] = true
all_kinds q (k ∷ ks) = q k && all_kinds q ks

-- The kind that a switch returns is `Error`, or it has what all kinds of the switch have.
first_kind-all :
    (p q : TokenKind → Bool) (ks : List TokenKind)
    → all_kinds q ks ≡ true
    → (first_kind p ks ≡ error) ⊎ (q (first_kind p ks) ≡ true)
unfolding first_kind all_kinds
first_kind-all p q [] h = inl refl
first_kind-all p q (k ∷ ks) h = elim (Bool-cases (p k)) [
  | inl e ↦ inr (rw e (ground arith))
  | inr e ↦ rw e (first_kind-all p q ks (ground arith))
]

symbols_spelled : all_kinds (λ k. ltb 0 (length (fixed_spelling k))) symbol_tokens ≡ true
unfolding all_kinds fixed_spelling
symbols_spelled = refl

keywords_lem :
    all_kinds
      (λ k. not (is_opening_symbol k) && not (is_closing_symbol k) && not (kind_eq k start_of_file))
      keyword_tokens
    ≡ true
unfolding all_kinds is_opening_symbol is_closing_symbol kind_eq as_int
keywords_lem = refl

-- A kind that is no symbol of a group, and not the start of the file.
abbrev pub IsOther : TokenKind → Type 0
IsOther k =
    (is_opening_symbol k ≡ false)
    × (is_closing_symbol k ≡ false)
    × (kind_eq k start_of_file ≡ false)

pub error-IsOther : IsOther error
unfolding is_opening_symbol is_closing_symbol kind_eq as_int
error-IsOther = (refl, refl, refl)

-- A symbol has a spelling.
first_symbol-spelled :
    (p : TokenKind → Bool)
    → kind_eq (first_kind p symbol_tokens) error ≡ false
    → 0 < length (fixed_spelling (first_kind p symbol_tokens))
first_symbol-spelled p h = elim (first_kind-all p _ symbol_tokens symbols_spelled) [
  | inl e ↦ absurd (ground (arith, ap (λ k. kind_eq k error) e, kind_eq_refl error))
  | inr e ↦ ltb→lt _ _ e
]

pub compute_symbol_kind-spelled :
    (text : Bytes)
    → kind_eq (compute_symbol_kind text) error ≡ false
    → 0 < length (fixed_spelling (compute_symbol_kind text))
unfolding compute_symbol_kind
compute_symbol_kind-spelled text h =
    first_symbol-spelled (λ k. starts_with (fixed_spelling k) text) h

-- What has a spelling is not the start of the file.
start_unspelled : length (fixed_spelling start_of_file) ≡ 0
unfolding fixed_spelling
start_unspelled = refl

pub spelled-not_start :
    (k : TokenKind) → 0 < length (fixed_spelling k) → kind_eq k start_of_file ≡ false
spelled-not_start k h = elim (Bool-cases (kind_eq k start_of_file)) [
  | inl e ↦ absurd (
      omega (
        arith,
        ap (λ j. length (fixed_spelling j)) (kind_eq_sound k start_of_file e),
        start_unspelled,
      ))
  | inr e ↦ e
]

-- A keyword is no symbol of a group.
first_keyword-IsOther : (p : TokenKind → Bool) → IsOther (first_kind p keyword_tokens)
first_keyword-IsOther p = elim (first_kind-all p _ keyword_tokens keywords_lem) [
  | inl e ↦ rw e error-IsOther
  | inr e ↦ (ground arith, ground arith, ground arith)
]

pub keyword_kind-IsOther : (word : Bytes) → IsOther (keyword_kind word)
unfolding keyword_kind
keyword_kind-IsOther word = first_keyword-IsOther (λ k. bytes_eq (fixed_spelling k) word)
