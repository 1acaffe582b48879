-- ===== src/Lex/Lexer/Growth.antt =====
-- The tokens stay grouped when one is added.
use cocktail_lang.Prelude.{
  ℕ, suc, ◌<◌, ◌≡◌, sym, ◌∙◌, ap, true, false, List, [], ◌∷◌, ◌==◌, arith, length, Bool-cases, inl,
  inr, ◌⊎◌, ==_iff,
}
use cocktail_lang.Lex.TokenKind.{start_of_file}
use cocktail_lang.Lex.TokenKind.Index.{kind_eq}
use cocktail_lang.Lex.TokenKind.Tables.{is_opening_symbol, is_closing_symbol}
use cocktail_lang.Lex.TokenKind.Kinds.{closing_symbol_lem, opening-not_closing}
use cocktail_lang.Lex.TokenizedBuffer.{TokenInfo}
use cocktail_lang.Lex.Lexer.Groups.{
  kind_at, payload_at, is_held, OpenBelow, Matched, Closed, Grouped, Agree, Matched-Agree,
  Closed-Agree,
}

-- A group that is held is an opening symbol.
held-opening :
    (ts : List TokenInfo) (n i : ℕ) (gs : List ℕ)
    → OpenBelow ts n gs
    → is_held i gs ≡ true
    → is_opening_symbol (kind_at ts i) ≡ true
unfolding OpenBelow is_held
held-opening ts n i [] o h = absurd (ground arith)
held-opening ts n i (g ∷ gs) o h = elim (Bool-cases (i == g)) [
  | inl e ↦ ap (λ k. is_opening_symbol (kind_at ts k)) ((==_iff i g).0 e) ∙ o.1
  | inr e ↦ held-opening ts g i gs o.2 (ground (arith, rw e at h))
]

closing-not_held :
    (ts : List TokenInfo) (n i : ℕ) (gs : List ℕ)
    → OpenBelow ts n gs
    → is_closing_symbol (kind_at ts i) ≡ true
    → is_held i gs ≡ false
closing-not_held ts n i gs o h =
    ground (arith, held-opening ts n i gs o, opening-not_closing (kind_at ts i))

-- The tokens ts' have one token more, and the others differ in what held groups refer to.
pub record Grows (ts ts' : List TokenInfo) (gs gs' : List ℕ) : Type 0 where
  pub size : length ts' ≡ suc (length ts)
  pub kinds : (i : ℕ) → i < length ts → kind_at ts' i ≡ kind_at ts i
  pub payloads : (i : ℕ) → i < length ts → is_held i gs ≡ false → payload_at ts' i ≡ payload_at ts i
  pub stack : OpenBelow ts' (length ts') gs'
  pub settled : (i : ℕ) → i < length ts → is_held i gs ≡ false → is_held i gs' ≡ false
  pub released :
      (i : ℕ) → i < length ts → is_held i gs ≡ true → is_held i gs' ≡ false → Matched ts' i
  pub last_opened :
      is_opening_symbol (kind_at ts' (length ts)) ≡ true → is_held (length ts) gs' ≡ true
  pub last_no_start : kind_eq (kind_at ts' (length ts)) start_of_file ≡ false
  pub last_closed : is_closing_symbol (kind_at ts' (length ts)) ≡ true → Closed ts' gs' (length ts)

below_or_last : (i n : ℕ) → i < suc n → (i < n) ⊎ (i ≡ n)
below_or_last i n h = omega arith

module _ (ts ts' : List TokenInfo) (gs gs' : List ℕ) (w : Grows ts ts' gs gs')
    (g : Grouped ts gs) where
  -- A token that is there and is not held keeps its kind and payload.
  free-Agree : (i : ℕ) → i < length ts → is_held i gs ≡ false → Agree ts ts' i
  free-Agree i below free = record { kinds = w.kinds i below; payloads = w.payloads i below free }

  old-Matched :
      (i : ℕ)
      → i < length ts
      → is_opening_symbol (kind_at ts' i) ≡ true
      → is_held i gs' ≡ false
      → Matched ts' i
  old-Matched i below o free = elim (Bool-cases (is_held i gs)) [
    | inl held ↦ w.released i below held free
    | inr free' ↦
        let o' = ap is_opening_symbol (sym (w.kinds i below)) ∙ o in
        let m = g.opened i below o' free' in
        let closes = ap is_closing_symbol (m.closing) ∙ (closing_symbol_lem (kind_at ts i) o').0 in
        Matched-Agree ts ts' i (omega (arith, w.size)) (free-Agree i below free')
          (free-Agree (payload_at ts i) (m.in_list)
            (closing-not_held ts (length ts) (payload_at ts i) gs (g.stack) closes))
          m
  ]

  old-Closed : (j : ℕ) → j < length ts → is_closing_symbol (kind_at ts' j) ≡ true → Closed ts' gs' j
  old-Closed j below closes =
      let closes' = ap is_closing_symbol (sym (w.kinds j below)) ∙ closes in
      let c = g.closed j below closes' in
      let p = payload_at ts j in
      let low : p < length ts = omega (arith, c.earlier) in
      Closed-Agree ts ts' gs gs' j
        (free-Agree j below (closing-not_held ts (length ts) j gs (g.stack) closes'))
        (free-Agree p low (c.settled)) (w.settled p low (c.settled)) c

  pub Grows-Grouped : Grouped ts' gs'
  Grows-Grouped = record {
    stack = w.stack;
    opened = λ i below o free. elim (below_or_last i (length ts) (omega (arith, w.size))) [
      | inl lt ↦ old-Matched i lt o free
      | inr e ↦
          let o' : is_opening_symbol (kind_at ts' (length ts)) ≡ true = rw (sym e) o in
          let f : is_held (length ts) gs' ≡ false = rw (sym e) free in
          absurd (ground (arith, w.last_opened o'))
    ];
    no_start = λ i below. elim (below_or_last i (length ts) (omega (arith, w.size))) [
      | inl lt ↦ ap (λ k. kind_eq k start_of_file) (w.kinds i lt) ∙ g.no_start i lt
      | inr e ↦ rw e (w.last_no_start)
    ];
    closed = λ j below c. elim (below_or_last j (length ts) (omega (arith, w.size))) [
      | inl lt ↦ old-Closed j lt c
      | inr e ↦
          let c' : is_closing_symbol (kind_at ts' (length ts)) ≡ true = rw (sym e) c in
          rw e (w.last_closed c')
    ];
  }
