-- ===== src/Lex/Lexer/Groups.antt =====
-- The groups of the tokens that the lexer has formed: which are open, and how the others refer to
-- each other.
use cocktail_lang.Prelude.{
  ℕ, ◌<◌, ◌≤◌, ◌≡◌, refl, sym, ◌∙◌, ap, Bool, true, false, ◌||◌, List, [], ◌∷◌, ◌==◌, arith, length,
  get_or,
}
use cocktail_lang.Lex.TokenKind.{TokenKind, start_of_file}
use cocktail_lang.Lex.TokenKind.Index.{kind_eq}
use cocktail_lang.Lex.TokenKind.Tables.{is_opening_symbol, is_closing_symbol, closing_symbol_table}
use cocktail_lang.Lex.TokenizedBuffer.{TokenInfo, no_token}

abbrev pub kind_at : List TokenInfo → ℕ → TokenKind
kind_at ts i = (get_or ts i no_token).kind

abbrev pub payload_at : List TokenInfo → ℕ → ℕ
payload_at ts i = (get_or ts i no_token).payload

unfoldable pub is_held : ℕ → List ℕ → Bool
is_held i [] = false
is_held i (g ∷ gs) = i == g || is_held i gs

-- The open groups are opening symbols below a bound, the last one first.
unfoldable pub OpenBelow : List TokenInfo → ℕ → List ℕ → Type 0
OpenBelow ts bound [] = Unit
OpenBelow ts bound (g ∷ gs) =
    (g < bound) × (is_opening_symbol (kind_at ts g) ≡ true) × OpenBelow ts g gs

-- An opening symbol refers to a later token, which closes it and refers back.
pub record Matched (ts : List TokenInfo) (i : ℕ) : Type 0 where
  pub later : i < payload_at ts i
  pub in_list : payload_at ts i < length ts
  pub closing : kind_at ts (payload_at ts i) ≡ closing_symbol_table (kind_at ts i)
  pub back : payload_at ts (payload_at ts i) ≡ i

-- A closing symbol refers to an earlier opening symbol, which is not open and refers back.
pub record Closed (ts : List TokenInfo) (groups : List ℕ) (j : ℕ) : Type 0 where
  pub earlier : payload_at ts j < j
  pub opening : is_opening_symbol (kind_at ts (payload_at ts j)) ≡ true
  pub forth : payload_at ts (payload_at ts j) ≡ j
  pub settled : is_held (payload_at ts j) groups ≡ false

-- The state of the groups; no token is the start of the file.
pub record Grouped (ts : List TokenInfo) (groups : List ℕ) : Type 0 where
  pub stack : OpenBelow ts (length ts) groups
  pub opened :
      (i : ℕ)
      → i < length ts
      → is_opening_symbol (kind_at ts i) ≡ true
      → is_held i groups ≡ false
      → Matched ts i
  pub no_start : (i : ℕ) → i < length ts → kind_eq (kind_at ts i) start_of_file ≡ false
  pub closed :
      (j : ℕ) → j < length ts → is_closing_symbol (kind_at ts j) ≡ true → Closed ts groups j

-- Later tokens and payloads do not matter for the open groups.
pub OpenBelow-agree :
    (ts ts' : List TokenInfo) (n m : ℕ) (gs : List ℕ)
    → n ≤ m
    → ((i : ℕ) → i < n → kind_at ts' i ≡ kind_at ts i)
    → OpenBelow ts n gs
    → OpenBelow ts' m gs
unfolding OpenBelow
OpenBelow-agree ts ts' n m [] h agree o = tt
OpenBelow-agree ts ts' n m (g ∷ gs) h agree o =
    let below = o.0 in
    (
      omega arith,
      ap is_opening_symbol (agree g below) ∙ o.1,
      OpenBelow-agree ts ts' g g gs (omega arith) (λ i k. agree i (omega arith)) o.2,
    )

-- No token at the bound or above is open.
pub OpenBelow-fresh :
    (ts : List TokenInfo) (n i : ℕ) (gs : List ℕ) → n ≤ i → OpenBelow ts n gs → is_held i gs ≡ false
unfolding OpenBelow is_held
OpenBelow-fresh ts n i [] h o = refl
OpenBelow-fresh ts n i (g ∷ gs) h o =
    let below = o.0 in let rest = OpenBelow-fresh ts g i gs (omega arith) o.2 in ground arith

-- The parts of the tokens that groups depend on, for the first of them.
pub record Agree (ts ts' : List TokenInfo) (i : ℕ) : Type 0 where
  pub kinds : kind_at ts' i ≡ kind_at ts i
  pub payloads : payload_at ts' i ≡ payload_at ts i

pub Matched-Agree :
    (ts ts' : List TokenInfo) (i : ℕ)
    → length ts ≤ length ts'
    → Agree ts ts' i
    → Agree ts ts' (payload_at ts i)
    → Matched ts i
    → Matched ts' i
Matched-Agree ts ts' i h a b m = record {
  later = rw (a.payloads) (m.later);
  in_list = rw (a.payloads) (omega (arith, m.in_list));
  closing = rw (a.payloads) (b.kinds ∙ m.closing ∙ ap closing_symbol_table (sym (a.kinds)));
  back = rw (a.payloads) (b.payloads ∙ m.back);
}

pub Closed-Agree :
    (ts ts' : List TokenInfo) (gs gs' : List ℕ) (j : ℕ)
    → Agree ts ts' j
    → Agree ts ts' (payload_at ts j)
    → is_held (payload_at ts j) gs' ≡ false
    → Closed ts gs j
    → Closed ts' gs' j
Closed-Agree ts ts' gs gs' j a b h c = record {
  earlier = rw (a.payloads) (c.earlier);
  opening = rw (a.payloads) (ap is_opening_symbol (b.kinds) ∙ c.opening);
  forth = rw (a.payloads) (b.payloads ∙ c.forth);
  settled = rw (a.payloads) h;
}
