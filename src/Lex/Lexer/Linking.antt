-- ===== src/Lex/Lexer/Linking.antt =====
-- The tokens that the lexer adds: one outside of groups, an opening symbol, and a closing symbol that
-- is linked with the group that was opened last.
use cocktail_lang.Prelude.{
  ℕ, suc, ◌<◌, ◌≡◌, ◌≢◌, sym, ◌∙◌, ap, true, false, List, [], ◌∷◌, ◌++◌, ◌==◌, arith, length,
  get_or, set, Bool-cases, inl, inr, length-set, length-snoc, get_or-append_lt, get_or-snoc,
  get_or-set, get_or-set_other, ==_iff,
}
use cocktail_lang.Lex.TokenKind.{TokenKind, start_of_file}
use cocktail_lang.Lex.TokenKind.Index.{kind_eq}
use cocktail_lang.Lex.TokenKind.Tables.{is_opening_symbol, is_closing_symbol, closing_symbol_table}
use cocktail_lang.Lex.TokenKind.Kinds.{
  closing_symbol_lem, opening-not_closing, opening-not_start, closing-not_start,
}
use cocktail_lang.Lex.TokenizedBuffer.{TokenInfo, no_token}
use cocktail_lang.Lex.Lexer.Groups.{
  kind_at, payload_at, is_held, OpenBelow, Grouped, OpenBelow-agree, OpenBelow-fresh,
}
use cocktail_lang.Lex.Lexer.Growth.{Grows-Grouped}

abbrev kind_of : TokenInfo → TokenKind
kind_of t = t.kind

abbrev payload_of : TokenInfo → ℕ
payload_of t = t.payload

module _ (ts : List TokenInfo) (gs : List ℕ) (t : TokenInfo) where
  snoc-kinds : (i : ℕ) → i < length ts → kind_at (ts ++ t ∷ []) i ≡ kind_at ts i
  snoc-kinds i h = ap kind_of (get_or-append_lt ts (t ∷ []) i no_token h)

  snoc-payloads : (i : ℕ) → i < length ts → payload_at (ts ++ t ∷ []) i ≡ payload_at ts i
  snoc-payloads i h = ap payload_of (get_or-append_lt ts (t ∷ []) i no_token h)

  snoc-last : kind_at (ts ++ t ∷ []) (length ts) ≡ t.kind
  snoc-last = ap kind_of (get_or-snoc ts t no_token)

  snoc-stack : OpenBelow ts (length ts) gs → OpenBelow (ts ++ t ∷ []) (suc (length ts)) gs
  snoc-stack o =
      OpenBelow-agree ts (ts ++ t ∷ []) (length ts) (suc (length ts)) gs (omega arith) snoc-kinds o

  -- A token outside of groups.
  pub add_other-Grouped :
      is_opening_symbol (t.kind) ≡ false
      → is_closing_symbol t.kind ≡ false
      → kind_eq t.kind start_of_file ≡ false
      → Grouped ts gs
      → Grouped (ts ++ t ∷ []) gs
  add_other-Grouped o c st g =
      Grows-Grouped ts (ts ++ t ∷ []) gs gs
        (record {
          size = length-snoc ts t;
          kinds = snoc-kinds;
          payloads = λ i h _. snoc-payloads i h;
          stack = rw (length-snoc ts t) (snoc-stack (g.stack));
          settled = λ i _ h. h;
          released = λ i _ h k. absurd (ground arith);
          last_opened = λ h. absurd (ground (arith, ap is_opening_symbol snoc-last));
          last_no_start = ap (λ k. kind_eq k start_of_file) snoc-last ∙ st;
          last_closed = λ h. absurd (ground (arith, ap is_closing_symbol snoc-last));
        })
        g

  -- An opening symbol, which becomes the last open group.
  pub add_opening-Grouped :
      is_opening_symbol (t.kind) ≡ true → Grouped ts gs → Grouped (ts ++ t ∷ []) (length ts ∷ gs)
  unfolding is_held OpenBelow
  add_opening-Grouped o g =
      Grows-Grouped ts (ts ++ t ∷ []) gs (length ts ∷ gs)
        (record {
          size = length-snoc ts t;
          kinds = snoc-kinds;
          payloads = λ i h _. snoc-payloads i h;
          stack = (
            omega (arith, length-snoc ts t),
            ap is_opening_symbol snoc-last ∙ o,
            OpenBelow-agree ts (ts ++ t ∷ []) (length ts) (length ts) gs (omega arith) snoc-kinds
                (g.stack),
          );
          settled = λ i h k. ground arith;
          released = λ i _ h k. absurd (ground arith);
          last_no_start =
              ap (λ k. kind_eq k start_of_file) snoc-last ∙ opening-not_start (t.kind) o;
          last_opened = λ h. ground arith;
          last_closed = λ h.
              absurd
                (ground (arith, ap is_closing_symbol snoc-last, opening-not_closing (t.kind) o));
        })
        g

-- A closing symbol with the group that was opened last: the two refer to each other.
abbrev pub linked : List TokenInfo → ℕ → TokenInfo → List TokenInfo
linked ts opening t =
    set ts opening (record (get_or ts opening no_token) { payload = length ts })
    ++ record t { payload = opening } ∷ []

module _ (ts : List TokenInfo) (gs : List ℕ) (t : TokenInfo) (p : ℕ) (low : p < length ts) where
  linked-length : length (linked ts p t) ≡ suc (length ts)
  linked-length = length-snoc (set ts p _) _ ∙ ap suc (length-set ts p _)

  linked-below :
      (i : ℕ)
      → i < length ts
      → get_or (linked ts p t) i no_token
        ≡ get_or (set ts p (record (get_or ts p no_token) { payload = length ts })) i no_token
  linked-below i h =
      get_or-append_lt (set ts p _) _ i no_token
        (omega (arith, length-set ts p (record (get_or ts p no_token) { payload = length ts })))

  linked-other :
      (i : ℕ) → i < length ts → p ≢ i → get_or (linked ts p t) i no_token ≡ get_or ts i no_token
  linked-other i h ne = linked-below i h ∙ get_or-set_other ts p i _ no_token ne

  linked-opening :
      get_or (linked ts p t) p no_token ≡ record (get_or ts p no_token) { payload = length ts }
  linked-opening = linked-below p low ∙ get_or-set ts p _ no_token low

  linked-closing : get_or (linked ts p t) (length ts) no_token ≡ record t { payload = p }
  linked-closing =
      ap (λ n. get_or (linked ts p t) n no_token) (sym (length-set ts p _))
      ∙ get_or-snoc (set ts p _) _ no_token

  linked-kinds : (i : ℕ) → i < length ts → kind_at (linked ts p t) i ≡ kind_at ts i
  linked-kinds i h = elim (Bool-cases (p == i)) [
    | inl e ↦ let q = (==_iff p i).0 e in rw (sym q) (ap kind_of linked-opening)
    | inr e ↦ ap kind_of (linked-other i h (ground (arith, ==_iff p i)))
  ]

  -- The group that was opened last is closed by a symbol that matches it.
  pub add_link-Grouped :
      t.kind ≡ closing_symbol_table (kind_at ts p)
      → Grouped ts (p ∷ gs)
      → Grouped (linked ts p t) gs
  unfolding is_held OpenBelow
  add_link-Grouped e g =
      let opens = (g.stack).1 in
      let kinds = closing_symbol_lem (kind_at ts p) opens in
      let last_kind : kind_at (linked ts p t) (length ts) ≡ t.kind = ap kind_of linked-closing in
      let last_payload : payload_at (linked ts p t) (length ts) ≡ p =
        ap payload_of linked-closing in
      let open_payload : payload_at (linked ts p t) p ≡ length ts = ap payload_of linked-opening in
      Grows-Grouped ts (linked ts p t) (p ∷ gs) gs
        (record {
          size = linked-length;
          kinds = linked-kinds;
          payloads = λ i h k. ap payload_of (linked-other i h (ground (arith, ==_iff i p)));
          stack = rw linked-length (
              OpenBelow-agree ts (linked ts p t) p (suc (length ts)) gs (omega arith)
                (λ i h. linked-kinds i (omega arith)) (g.stack).2);
          settled = λ i h k. ground arith;
          released = λ i h held free.
              let q : i ≡ p = (==_iff i p).0 (ground arith) in
              rw q (record {
                later = rw open_payload low;
                in_list = rw open_payload (omega (arith, linked-length));
                closing =
                    rw open_payload
                      (last_kind ∙ e ∙ ap closing_symbol_table (sym (linked-kinds p low)));
                back = rw open_payload last_payload;
              });
          last_no_start =
              ap (λ k. kind_eq k start_of_file) (last_kind ∙ e) ∙ closing-not_start _ (kinds.0);
          last_opened = λ h. absurd (ground (arith, kinds.1, ap is_opening_symbol (last_kind ∙ e)));
          last_closed = λ h. record {
            earlier = rw last_payload low;
            opening = rw last_payload (ap is_opening_symbol (linked-kinds p low) ∙ opens);
            forth = rw last_payload open_payload;
            settled = rw last_payload (OpenBelow-fresh ts p p gs (omega arith) (g.stack).2);
          };
        })
        g
