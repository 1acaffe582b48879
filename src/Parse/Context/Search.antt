-- ===== src/Parse/Context/Search.antt =====
-- The search for a token at the level of brackets stays in the buffer and ends.
use native.Mathlib.Decide.{dec_lt}
use cocktail_lang.Prelude.{
  ℕ, zero, suc, ◌+◌, ◌-◌, ◌≤◌, ◌<◌, ◌≡◌, refl, true, false, Option, none, some, List, [], ◌∷◌,
  arith, ◌⊎◌, Bool-cases, inl, inr,
}
use cocktail_lang.Lex.TokenKind.{TokenKind, end_of_file}
use cocktail_lang.Lex.TokenKind.Index.{kind_eq}
use cocktail_lang.Lex.TokenKind.Tables.{is_opening_symbol, is_closing_symbol}
use cocktail_lang.Lex.TokenKind.Kinds.{kind_eq_sound, kind_eq_refl}
use cocktail_lang.Lex.TokenizedBuffer.{
  TokenizedBuffer, get_kind, get_token_info, get_matched_closing_token, token_count,
}
use cocktail_lang.Parse.Context.{Context}
use cocktail_lang.Parse.Context.Skip.{is_one_of, ends_level, next_at_level, find_from, find_next_of}

-- What the lexer promises: there is a token of the end of the file, it is the last one, and each
-- opening symbol is matched with a later token before it.
pub record IsBalanced (b : TokenizedBuffer) : Type 0 where
  pub nonempty : 0 < token_count b
  pub last : kind_eq (get_kind b (token_count b - 1)) end_of_file ≡ true
  pub matched :
      (i : ℕ)
      → i < token_count b
      → is_opening_symbol (get_kind b i) ≡ true
      → (i < (get_token_info b i).payload) × ((get_token_info b i).payload + 1 < token_count b)

-- A token that does not end its level has one behind it.
next_at_level-lt :
    (b : TokenizedBuffer) (i : ℕ)
    → IsBalanced b
    → i < token_count b
    → ends_level (get_kind b i) ≡ false
    → (j : ℕ) × (next_at_level b i ≡ some j) × (i < j) × (j < token_count b)
unfolding next_at_level get_matched_closing_token
next_at_level-lt b i bal h inner = elim (Bool-cases (is_opening_symbol (get_kind b i))) [
  | inl opening ↦ (
    (get_token_info b i).payload + 1,
    rw opening refl,
    omega (arith, (bal.matched i h opening).0),
    (bal.matched i h opening).1,
  )
  | inr other ↦ (
    i + 1,
    rw other refl,
    omega arith,
    (elim (dec_lt (i + 1) (token_count b)) [
      | yes lt ↦ lt
      | no at_end ↦
          let e : token_count b - 1 ≡ i = omega arith in
          absurd (ground (arith, rw e at bal.last, inner))
    ]),
  )
]

-- A kind is one of those of a list.
abbrev pub OneOf : TokenKind → List TokenKind → Type 0
OneOf kind [] = ⊥
OneOf kind (k ∷ ks) = (kind ≡ k) ⊎ OneOf kind ks

-- A level ends at a closing symbol and at the end of the file.
abbrev pub EndsLevel : TokenKind → Type 0
EndsLevel kind = (is_closing_symbol kind ≡ true) ⊎ (kind ≡ end_of_file)

is_one_of-OneOf :
    (kind : TokenKind) (kinds : List TokenKind) → is_one_of kind kinds ≡ true → OneOf kind kinds
unfolding is_one_of
is_one_of-OneOf kind [] h = ground (arith, h)
is_one_of-OneOf kind (k ∷ ks) h = elim (Bool-cases (kind_eq kind k)) [
  | inl same ↦ inl (kind_eq_sound kind k same)
  | inr other ↦ inr (is_one_of-OneOf kind ks (rw other at h))
]

OneOf-is_one_of :
    (kind : TokenKind) (kinds : List TokenKind) → OneOf kind kinds → is_one_of kind kinds ≡ true
unfolding is_one_of
OneOf-is_one_of kind [] m = elim m [ ]
OneOf-is_one_of kind (k ∷ ks) (inl e) =
    let h : kind_eq kind k ≡ true = rw e (kind_eq_refl k) in rw h refl
OneOf-is_one_of kind (k ∷ ks) (inr m) = rw (OneOf-is_one_of kind ks m) (ground arith)

ends_level-EndsLevel : (kind : TokenKind) → ends_level kind ≡ true → EndsLevel kind
ends_level-EndsLevel kind h = elim (Bool-cases (is_closing_symbol kind)) [
  | inl closing ↦ inl closing
  | inr other ↦ inr (kind_eq_sound kind end_of_file (rw other at h))
]

EndsLevel-ends_level : (kind : TokenKind) → EndsLevel kind → ends_level kind ≡ true
EndsLevel-ends_level kind (inl closing) = rw closing refl
EndsLevel-ends_level kind (inr e) =
    let h : kind_eq kind end_of_file ≡ true = rw e (kind_eq_refl end_of_file) in ground (arith, h)

no-OneOf :
    (kind : TokenKind) (kinds : List TokenKind) → is_one_of kind kinds ≡ false → ¬ OneOf kind kinds
no-OneOf kind kinds miss m = ground (arith, OneOf-is_one_of kind kinds m, miss)

no-EndsLevel : (kind : TokenKind) → ends_level kind ≡ false → ¬ EndsLevel kind
no-EndsLevel kind inner m = ground (arith, EndsLevel-ends_level kind m, inner)

-- Tokens at one level of brackets, from one to another, that are passed over: none of those before
-- the last is one of the kinds given or ends the level. Behind an opening symbol it goes on behind
-- its closing symbol, else at the next token.
pub data Passes (b : TokenizedBuffer) (kinds : List TokenKind) : ℕ → ℕ → Type 0 where
  here : {i : ℕ} → Passes b kinds i i
  over_token :
      {i t : ℕ}
      → ¬ OneOf (get_kind b i) kinds
      → ¬ EndsLevel (get_kind b i)
      → is_opening_symbol (get_kind b i) ≡ false
      → Passes b kinds (i + 1) t
      → Passes b kinds i t
  over_group :
      {i t : ℕ}
      → ¬ OneOf (get_kind b i) kinds
      → ¬ EndsLevel (get_kind b i)
      → is_opening_symbol (get_kind b i) ≡ true
      → Passes b kinds ((get_token_info b i).payload + 1) t
      → Passes b kinds i t

-- What the search says: the first token at the level that is of a kind, or nothing, as the level ends
-- first.
pub record Found (b : TokenizedBuffer) (kinds : List TokenKind) (i : ℕ) (r : Option ℕ)
    : Type 0 where
  pub at : ℕ
  pub passes : Passes b kinds i at
  pub at_least : i ≤ at
  pub in_buffer : at < token_count b
  pub answer :
      ((r ≡ some at) × OneOf (get_kind b at) kinds)
      ⊎ ((r ≡ none) × (¬ OneOf (get_kind b at) kinds) × EndsLevel (get_kind b at))

-- One token is passed over.
pass :
    (b : TokenizedBuffer) (kinds : List TokenKind) (i j t : ℕ)
    → is_one_of (get_kind b i) kinds ≡ false
    → ends_level (get_kind b i) ≡ false
    → next_at_level b i ≡ some j
    → Passes b kinds j t
    → Passes b kinds i t
unfolding next_at_level get_matched_closing_token
pass b kinds i j t miss inner next more =
    let no_kind : ¬ OneOf (get_kind b i) kinds = no-OneOf _ kinds miss in
    let no_end : ¬ EndsLevel (get_kind b i) = no-EndsLevel _ inner in
    elim (Bool-cases (is_opening_symbol (get_kind b i))) [
      | inl opening ↦
          let e : (get_token_info b i).payload + 1 ≡ j = cc (rw opening at next) in
          over_group no_kind no_end opening (rw e more)
      | inr other ↦
          let e : i + 1 ≡ j = cc (rw other at next) in over_token no_kind no_end other (rw e more)
    ]

find_from-Found :
    (fuel : ℕ) (b : TokenizedBuffer) (kinds : List TokenKind) (i : ℕ)
    → IsBalanced b
    → i < token_count b
    → token_count b ≤ i + fuel
    → (r : Option ℕ) × (find_from fuel b kinds i ≡ some r) × Found b kinds i r
unfolding find_from
find_from-Found zero b kinds i bal h enough = absurd (omega arith)
find_from-Found (suc fuel) b kinds i bal h enough =
    elim (Bool-cases (is_one_of (get_kind b i) kinds)) [
      | inl hit ↦ (
        some i,
        rw (hit, find_from) refl,
        record {
          at = i;
          passes = here;
          at_least = omega arith;
          in_buffer = h;
          answer = inl (refl, is_one_of-OneOf _ kinds hit);
        },
      )
      | inr miss ↦ elim (Bool-cases (ends_level (get_kind b i))) [
        | inl stop ↦ (
          none,
          rw (miss, stop, find_from) refl,
          record {
            at = i;
            passes = here;
            at_least = omega arith;
            in_buffer = h;
            answer = inr (refl, no-OneOf _ kinds miss, ends_level-EndsLevel _ stop);
          },
        )
        | inr inner ↦
            let (j, next, more, lt) = next_at_level-lt b i bal h inner in
            let (r, runs, f) = find_from-Found fuel b kinds j bal lt (omega arith) in
            (
              r,
              rw (miss, inner, next, find_from) runs,
              record {
                at = f.at;
                passes = pass b kinds i j f.at miss inner next f.passes;
                at_least = omega (arith, f.at_least);
                in_buffer = f.in_buffer;
                answer = f.answer;
              },
            )
      ]
    ]

-- On a balanced buffer `FindNextOf` ends with no check failed and stays in the buffer. It goes from a
-- token to the next one, and from an opening symbol behind its closing symbol, and returns the first
-- token on its way that is of a kind asked for, or nothing if it comes to a closing symbol or the
-- end of the file before.
pub find_next_of-Found :
    (kinds : List TokenKind) (c : Context)
    → IsBalanced c.tokens
    → c.position < token_count c.tokens
    → (r : Option ℕ) × (find_next_of kinds c ≡ some r) × Found c.tokens kinds c.position r
unfolding find_next_of
find_next_of-Found kinds c bal h =
    find_from-Found (token_count c.tokens) c.tokens kinds c.position bal h (omega arith)
