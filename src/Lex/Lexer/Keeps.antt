-- ===== src/Lex/Lexer/Keeps.antt =====
-- The methods of the lexer keep the tokens grouped: its moves, the errors and the symbols.
use cocktail_lang.Prelude.{
  ℕ, suc, ◌+◌, ◌-◌, ◌≡◌, if_either, sym, ◌∙◌, ap, true, ◌||◌, List, [], ◌∷◌, ◌==◌, arith, length,
  get_or, set, Bool-cases, inl, inr, length-set, get_or-set_cases, Bytes, zero,
}
use cocktail_lang.Common.StringRef.{StringRef, size, starts_with}
use cocktail_lang.Common.CharacterSet.{is_space}
use cocktail_lang.Lex.TokenKind.{start_of_file}
use cocktail_lang.Lex.TokenKind.Index.{kind_eq}
use cocktail_lang.Lex.TokenKind.Tables.{is_opening_symbol, is_closing_symbol}
use cocktail_lang.Lex.TokenizedBuffer.{TokenInfo, no_token}
use cocktail_lang.Lex.Lexer.{Lexer, note_indent, note_whitespace, set_line_indent, handle_newline}
use cocktail_lang.Lex.Lexer.Whitespace.{
  Skip, more, stopped, failed, out_of_fuel, skip_comment, skip_char, go_on, skip_round,
  whitespace_loop, skip_whitespace,
}
use cocktail_lang.Lex.Lexer.Groups.{
  kind_at, payload_at, Grouped, Agree, OpenBelow-agree, Matched-Agree, Closed-Agree,
}

-- Tokens of the same kinds and payloads are grouped in the same way.
same-Grouped :
    (ts ts' : List TokenInfo) (gs : List ℕ)
    → length ts' ≡ length ts
    → ((i : ℕ) → Agree ts ts' i)
    → Grouped ts gs
    → Grouped ts' gs
same-Grouped ts ts' gs e agree g = record {
  stack = rw e (
      OpenBelow-agree ts ts' (length ts) (length ts) gs (omega arith) (λ i _. (agree i).kinds)
        (g.stack));
  opened = λ i h o free.
      Matched-Agree ts ts' i (omega arith) (agree i) (agree (payload_at ts i))
        (g.opened i (omega arith) (ap is_opening_symbol (sym ((agree i).kinds)) ∙ o) free);
  no_start =
      λ i h. ap (λ k. kind_eq k start_of_file) ((agree i).kinds) ∙ g.no_start i (omega arith);
  closed = λ j h c.
      let old = g.closed j (omega arith) (ap is_closing_symbol (sym ((agree j).kinds)) ∙ c) in
      Closed-Agree ts ts' gs gs j (agree j) (agree (payload_at ts j)) (old.settled) old;
}

-- A token that is marked with the space behind it.
abbrev with_space : List TokenInfo → ℕ → TokenInfo
with_space ts n = record (get_or ts n no_token) { has_trailing_space = true }

marked : (ts : List TokenInfo) (n i : ℕ) → Agree ts (set ts n (with_space ts n)) i
marked ts n i = elim (get_or-set_cases ts n i (with_space ts n) no_token) [
  | inl q ↦ record {
    kinds = ap (λ t. t.kind) (q.1) ∙ ap (kind_at ts) (q.0);
    payloads = ap (λ t. t.payload) (q.1) ∙ ap (payload_at ts) (q.0);
  }
  | inr q ↦ record { kinds = ap (λ t. t.kind) q; payloads = ap (λ t. t.payload) q }
]

module _ {A : Type 0} where
  abbrev pub IsGrouped : Lexer A → Type 0
  IsGrouped x = Grouped (x.token_infos) (x.open_groups)

  pub note_indent-IsGrouped : (x : Lexer A) → IsGrouped x → IsGrouped (note_indent x)
  note_indent-IsGrouped x g =
      if_either IsGrouped (x.set_indent) x
        (record (set_line_indent (x.current_column) x) { set_indent = true }) g g

  pub note_whitespace-IsGrouped : (x : Lexer A) → IsGrouped x → IsGrouped (note_whitespace x)
  note_whitespace-IsGrouped x g =
      let ts = x.token_infos in
      let n = length ts - 1 in
      if_either IsGrouped (length ts == 0) x (record x { token_infos = set ts n (with_space ts n) })
        g
        (same-Grouped ts (set ts n (with_space ts n)) (x.open_groups) (length-set ts n _)
          (marked ts n) g)

  -- What a loop over whitespace leaves.
  abbrev pub SkipGrouped : Skip A → Type 0
  SkipGrouped (more source x) = IsGrouped x
  SkipGrouped (stopped found source x) = IsGrouped x
  SkipGrouped failed = Unit
  SkipGrouped out_of_fuel = Unit

  skip_char-Grouped :
      (start : ℕ) (source : StringRef) (x : Lexer A) (text : Bytes)
      → IsGrouped x
      → SkipGrouped (skip_char start source x text)
  unfolding skip_char handle_newline
  skip_char-Grouped start source x [] g = g
  skip_char-Grouped start source x (c ∷ cs) g =
      if_either SkipGrouped (c == b'\n') _ _ (if_either SkipGrouped (length cs == 0) _ _ g g) (
        if_either SkipGrouped (c == b' ' || c == b'\t') _ _ g (
          if_either SkipGrouped (is_space c) _ _ tt
            (if_either IsGrouped (start == source.begin) _ _ g (note_whitespace-IsGrouped x g))))

  skip_comment-IsGrouped :
      (source : StringRef) (x : Lexer A) → IsGrouped x → IsGrouped ((skip_comment source x).1)
  unfolding skip_comment
  skip_comment-IsGrouped source x g =
      elim (Bool-cases (starts_with (b'/' ∷ b'/' ∷ []) source.bytes)) [
        | inl e ↦ rw (e, skip_comment) g
        | inr e ↦ rw (e, skip_comment) g
      ]

  go_on-Grouped :
      (go : StringRef → Lexer A → Skip A) (s : Skip A)
      → ((source : StringRef) (x : Lexer A) → IsGrouped x → SkipGrouped (go source x))
      → SkipGrouped s
      → SkipGrouped (go_on go s)
  go_on-Grouped go (more source x) h g = h source x g
  go_on-Grouped go (stopped found source x) h g = g
  go_on-Grouped go failed h g = tt
  go_on-Grouped go out_of_fuel h g = tt

  whitespace_loop-Grouped :
      (fuel start : ℕ) (source : StringRef) (x : Lexer A)
      → IsGrouped x
      → SkipGrouped (whitespace_loop fuel start source x)
  unfolding whitespace_loop skip_round
  whitespace_loop-Grouped zero start source x g = tt
  whitespace_loop-Grouped (suc fuel) start source x g =
      let (rest, y) = skip_comment source x in
      go_on-Grouped (whitespace_loop fuel start) _ (whitespace_loop-Grouped fuel start)
        (skip_char-Grouped start rest y (rest.bytes) (skip_comment-IsGrouped source x g))

  pub skip_whitespace-Grouped :
      (source : StringRef) (x : Lexer A) → IsGrouped x → SkipGrouped (skip_whitespace source x)
  unfolding skip_whitespace
  skip_whitespace-Grouped source x g =
      whitespace_loop-Grouped (size source + 1) (source.begin) source x g
