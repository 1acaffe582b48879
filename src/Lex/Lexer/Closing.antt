-- ===== src/Lex/Lexer/Closing.antt =====
-- The symbols that the lexer forms, and the groups that it closes, keep the tokens grouped.
use cocktail_lang.Prelude.{
  ℕ, ◌<◌, ◌≡◌, refl, sym, true, false, ◌||◌, List, [], ◌∷◌, ◌++◌, arith, length, get_or, set,
  Bool-cases, inl, inr, length-set, get_or-append_lt, get_or-snoc, set-append_lt, set-snoc,
  set-snoc_at, get_or-snoc_at,
}
use cocktail_lang.Common.StringRef.{StringRef}
use cocktail_lang.Lex.TokenKind.{TokenKind, error, start_of_file}
use cocktail_lang.Lex.TokenKind.Index.{kind_eq, as_int}
use cocktail_lang.Lex.TokenKind.Kinds.{kind_eq_sound, kind_eq_refl, closing_symbol_lem}
use cocktail_lang.Lex.TokenKind.Tables.{is_opening_symbol, is_closing_symbol, closing_symbol_table}
use cocktail_lang.Lex.TokenizedBuffer.{TokenInfo, no_token}
use cocktail_lang.Lex.Lexer.{Lexer, note_indent, token_at, link, add_token, add_columns, token_info}
use cocktail_lang.Lex.Lexer.Symbols.{
  close_group, close_groups, close_invalid_open_groups, group_symbol, form_symbol, recovery_token,
}
use cocktail_lang.Lex.Lexer.Groups.{kind_at, Grouped, OpenBelow}
use cocktail_lang.Lex.Lexer.Linking.{
  linked, add_other-Grouped, add_opening-Grouped, add_link-Grouped,
}
use cocktail_lang.Lex.Lexer.Keeps.{IsGrouped, note_indent-IsGrouped}

-- The writes of a link, behind the token that was added last.
link-linked :
    (ts : List TokenInfo) (p : ℕ) (t : TokenInfo)
    → p < length ts
    → (let us = ts ++ t ∷ [] in
        let vs = set us p (record (get_or us p no_token) { payload = length ts }) in
        set vs (length ts) (record (get_or vs (length ts) no_token) { payload = p }))
      ≡ linked ts p t
link-linked ts p t h =
    let u = record (get_or ts p no_token) { payload = length ts } in
    let ws = set ts p u in
    let first = get_or-append_lt ts (t ∷ []) p no_token h in
    let second : set (ts ++ t ∷ []) p u ≡ ws ++ t ∷ [] = set-append_lt ts (t ∷ []) p u h in
    let n = sym (length-set ts p u) in
    let third = get_or-snoc_at ws t no_token (length ts) n in
    let fourth = set-snoc_at ws t (record t { payload = p }) (length ts) n in
    rw (first, second, third) fourth

-- A closing symbol may follow: no group is open, or the last one has this closing symbol.
unfoldable MatchesTop : TokenKind → List TokenInfo → List ℕ → Type 0
MatchesTop kind ts [] = Unit
MatchesTop kind ts (p ∷ gs) = kind ≡ closing_symbol_table (kind_at ts p)

-- The last group never has the closing symbol `error`.
MatchesTop-error :
    (ts : List TokenInfo) (n : ℕ) (gs : List ℕ)
    → OpenBelow ts n gs
    → MatchesTop error ts gs
    → gs ≡ []
unfolding MatchesTop OpenBelow
MatchesTop-error ts n [] o m = refl
MatchesTop-error ts n (p ∷ gs) o m =
    let differ = (closing_symbol_lem (kind_at ts p) o.1).2 in
    let same : kind_eq error (closing_symbol_table (kind_at ts p)) ≡ true =
      rw (sym m) (kind_eq_refl error) in
    absurd (ground arith)

module _ {A : Type 0} where
  close_group-IsGrouped :
      (p : ℕ) (gs : List ℕ) (x : Lexer A)
      → Grouped (x.token_infos) (p ∷ gs)
      → IsGrouped (close_group p gs x)
  unfolding close_group link OpenBelow
  close_group-IsGrouped p gs x g =
      let t = recovery_token x p in
      rw (link-linked (x.token_infos) p t (g.stack).0)
        (add_link-Grouped (x.token_infos) gs t p (g.stack).0 refl g)

  close_groups-IsGrouped :
      (gs : List ℕ) (kind : TokenKind) (x : Lexer A)
      → x.open_groups ≡ gs
      → IsGrouped x
      → (let y = close_groups gs kind x in
          IsGrouped y × MatchesTop kind (y.token_infos) (y.open_groups))
  unfolding MatchesTop close_groups
  close_groups-IsGrouped [] kind x e g = (g, rw e tt)
  close_groups-IsGrouped (p ∷ gs) kind x e g =
      elim (Bool-cases (kind_eq kind (closing_symbol_table (token_at x p).kind))) [
        | inl same ↦ rw (same, close_groups) (g, rw e (kind_eq_sound kind _ same))
        | inr other ↦
            let g' : Grouped (x.token_infos) (p ∷ gs) = rw (sym e) g in
            rw (other, close_groups)
              (close_groups-IsGrouped gs kind (close_group p gs x) refl
                (close_group-IsGrouped p gs x g'))
      ]

  pub close_all-IsGrouped :
      (x : Lexer A)
      → IsGrouped x
      → (let y = close_invalid_open_groups error x in IsGrouped y × (y.open_groups ≡ []))
  unfolding close_invalid_open_groups is_closing_symbol
  close_all-IsGrouped x g =
      let (h, m) = close_groups-IsGrouped (x.open_groups) error x refl g in
      rw (kind_eq_refl error) (h, MatchesTop-error _ _ _ (h.stack) m)

  close_invalid_open_groups-IsGrouped :
      (kind : TokenKind) (x : Lexer A)
      → IsGrouped x
      → (let y = close_invalid_open_groups kind x in
          IsGrouped y
          × (is_closing_symbol kind ≡ true → MatchesTop kind (y.token_infos) (y.open_groups)))
  unfolding close_invalid_open_groups
  close_invalid_open_groups-IsGrouped kind x g =
      let (h, m) = close_groups-IsGrouped (x.open_groups) kind x refl g in
      elim (Bool-cases (is_closing_symbol kind || kind_eq kind error)) [
        | inl e ↦ rw e (h, (λ _. m))
        | inr e ↦ rw e (g, (λ c. absurd (ground arith)))
      ]

  -- A closing symbol closes the last group, or becomes an error.
  group_closing-IsGrouped :
      (kind : TokenKind) (location columns line column : ℕ) (y : Lexer A) (gs : List ℕ)
      → y.open_groups ≡ gs
      → is_opening_symbol kind ≡ false
      → is_closing_symbol kind ≡ true
      → IsGrouped y
      → MatchesTop kind (y.token_infos) gs
      → IsGrouped (
          group_symbol kind location
            (length (y.token_infos))
            gs
            (add_columns columns (add_token (token_info kind line column) y)))
  unfolding group_symbol MatchesTop OpenBelow link is_opening_symbol is_closing_symbol kind_eq
      as_int
  group_closing-IsGrouped kind location columns line column y [] e o c g m =
      let ts = y.token_infos in
      let t = token_info kind line column in
      rw (o, c, get_or-snoc ts t no_token, set-snoc ts t _)
        (add_other-Grouped ts (y.open_groups) _ refl refl refl g)
  group_closing-IsGrouped kind location columns line column y (p ∷ gs) e o c g m =
      let ts = y.token_infos in
      let t = token_info kind line column in
      let h : Grouped ts (p ∷ gs) = rw (sym e) g in
      rw (o, c, link-linked ts p t (h.stack).0) (add_link-Grouped ts gs t p (h.stack).0 m h)

  group_symbol-IsGrouped :
      (kind : TokenKind) (location columns line column : ℕ) (y : Lexer A)
      → kind_eq kind start_of_file ≡ false
      → IsGrouped y
      → (is_closing_symbol kind ≡ true → MatchesTop kind (y.token_infos) (y.open_groups))
      → IsGrouped (
          group_symbol kind location
            (length (y.token_infos))
            (y.open_groups)
            (add_columns columns (add_token (token_info kind line column) y)))
  unfolding group_symbol
  group_symbol-IsGrouped kind location columns line column y st g m =
      let ts = y.token_infos in
      let t = token_info kind line column in
      elim (Bool-cases (is_opening_symbol kind)) [
        | inl o ↦ rw o (add_opening-Grouped ts (y.open_groups) t o g)
        | inr o ↦ elim (Bool-cases (is_closing_symbol kind)) [
          | inr c ↦ rw (o, c) (add_other-Grouped ts (y.open_groups) t o c st g)
          | inl c ↦
              group_closing-IsGrouped kind location columns line column y (y.open_groups) refl o c g
                (m c)
        ]
      ]

  pub form_symbol-IsGrouped :
      (kind : TokenKind) (source : StringRef) (x : Lexer A)
      → kind_eq kind start_of_file ≡ false
      → IsGrouped x
      → IsGrouped ((form_symbol kind source x).1)
  unfolding form_symbol
  form_symbol-IsGrouped kind source x st g =
      let y = close_invalid_open_groups kind (note_indent x) in
      let (h, m) =
        close_invalid_open_groups-IsGrouped kind (note_indent x) (note_indent-IsGrouped x g) in
      group_symbol-IsGrouped kind (source.begin) _ (y.current_line) (y.current_column) y st h m
