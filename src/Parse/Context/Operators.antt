-- ===== src/Parse/Context/Operators.antt =====
-- How a symbolic operator may be written, and what `DiagnoseOperatorFixity` reports.
use cocktail_lang.Prelude.{
  ◌+◌, ◌-◌, ◌≡◌, refl, Bool, true, false, not, ◌&&◌, some, [], ◌∷◌, ◌++◌, ◌==◌, arith, append-nil,
  Bool-cases, inl, inr, if◌then◌else◌, ap,
}
use cocktail_lang.Lex.TokenKind.{
  TokenKind, open_paren, close_paren, close_curly_brace, close_square_bracket, identifier,
  integer_literal, real_literal, string_literal,
}
use cocktail_lang.Lex.TokenKind.Index.{as_int, kind_eq}
use cocktail_lang.Lex.TokenKind.Tables.{is_symbol}
use cocktail_lang.Lex.TokenizedBuffer.{get_kind}
use cocktail_lang.Parse.Context.{
  Context, ParseMessage, around, after, before, binary_operator_requires_whitespace,
  unary_operator_has_whitespace, unary_operator_requires_whitespace, end_position, position_kind,
}
use cocktail_lang.Parse.Context.Skip.{is_one_of}
use cocktail_lang.Parse.Context.Fixity.{
  OperatorFixity, prefix_operator, infix_operator, postfix_operator, leading_space, trailing_space,
  between_operands, is_lexically_valid_infix_operator, infix_diagnostics, unary_diagnostics,
  fixity_diagnostics, is_assumed_start_of_operand, is_assumed_end_of_operand,
  diagnose_operator_fixity,
}

-- The tokens that an operand may start with, and those that it may end with.
abbrev pub starts_operand : TokenKind → Bool
starts_operand open_paren = true
starts_operand identifier = true
starts_operand integer_literal = true
starts_operand real_literal = true
starts_operand string_literal = true
starts_operand _ = false

abbrev pub ends_operand : TokenKind → Bool
ends_operand close_paren = true
ends_operand close_curly_brace = true
ends_operand close_square_bracket = true
ends_operand identifier = true
ends_operand integer_literal = true
ends_operand real_literal = true
ends_operand string_literal = true
ends_operand _ = false

assumed_start : (k : TokenKind) → is_assumed_start_of_operand k ≡ starts_operand k
unfolding is_assumed_start_of_operand is_one_of kind_eq as_int
assumed_start open_paren = refl
assumed_start identifier = refl
assumed_start integer_literal = refl
assumed_start real_literal = refl
assumed_start string_literal = refl
assumed_start _ = refl

assumed_end : (k : TokenKind) → is_assumed_end_of_operand k ≡ ends_operand k
unfolding is_assumed_end_of_operand is_one_of kind_eq as_int
assumed_end close_paren = refl
assumed_end close_curly_brace = refl
assumed_end close_square_bracket = refl
assumed_end identifier = refl
assumed_end integer_literal = refl
assumed_end real_literal = refl
assumed_end string_literal = refl
assumed_end _ = refl

-- An operand ends before the operator, and one starts behind it.
abbrev pub joins_operands : Context → Bool
joins_operands c =
    not (c.position == 0)
    && ends_operand (get_kind c.tokens (c.position - 1))
    && starts_operand (get_kind c.tokens (c.position + 1))

joins_operands_lem : (c : Context) → between_operands c ≡ joins_operands c
unfolding between_operands
joins_operands_lem c = ground (
  arith,
  assumed_end (get_kind c.tokens (c.position - 1)),
  assumed_start (get_kind c.tokens (c.position + 1)),
)

-- Whether an operator may be written with whitespace before it or not, with whitespace behind it or
-- not, and between two operands or not.
abbrev pub accepts : OperatorFixity → Bool → Bool → Bool → Bool
accepts infix_operator true true joins = true
accepts infix_operator false false joins = joins
accepts infix_operator _ _ joins = false
accepts prefix_operator _ true joins = false
accepts prefix_operator true false joins = true
accepts prefix_operator false false joins = not joins
accepts postfix_operator true _ joins = false
accepts postfix_operator false true joins = true
accepts postfix_operator false false joins = not joins

-- What is said of an operator that may not be written so.
abbrev pub refusal : OperatorFixity → Bool → Bool → ParseMessage
refusal infix_operator true _ = binary_operator_requires_whitespace after
refusal infix_operator false true = binary_operator_requires_whitespace before
refusal infix_operator false false = binary_operator_requires_whitespace around
refusal prefix_operator _ true = unary_operator_has_whitespace after
refusal prefix_operator _ false = unary_operator_requires_whitespace before
refusal postfix_operator true _ = unary_operator_has_whitespace before
refusal postfix_operator false _ = unary_operator_requires_whitespace after

-- How an operator is judged.
pub data Judged (fixity : OperatorFixity) (c c' : Context) : Type 0 where
  keyword : is_symbol (position_kind c) ≡ false → c' ≡ c → Judged fixity c c'
  accepted :
      accepts fixity (leading_space c) (trailing_space c) (joins_operands c) ≡ true
      → c' ≡ c
      → Judged fixity c c'
  refused :
      is_symbol (position_kind c) ≡ true
      → accepts fixity (leading_space c) (trailing_space c) (joins_operands c) ≡ false
      → c' ≡ record c {
        emitted =
            c.emitted
            ++ record {
              token = c.position;
              message = refusal fixity (leading_space c) (trailing_space c);
            }
              ∷ [];
      }
      → Judged fixity c c'

abbrev Reported : OperatorFixity → Context → Type 0
Reported fixity c =
    fixity_diagnostics fixity c
    ≡ some (
        if accepts fixity (leading_space c) (trailing_space c) (joins_operands c)
        then []
        else record {
          token = c.position;
          message = refusal fixity (leading_space c) (trailing_space c);
        }
          ∷ [])

-- The three tests that matter are decided.
judge :
    (fixity : OperatorFixity) (c : Context) (lead trail joins : Bool)
    → (c.position == end_position c) ≡ false
    → leading_space c ≡ lead
    → trailing_space c ≡ trail
    → joins_operands c ≡ joins
    → between_operands c ≡ joins
    → Reported fixity c
unfolding fixity_diagnostics infix_diagnostics unary_diagnostics is_lexically_valid_infix_operator
judge infix_operator c true true _ inside l t j b = ground (arith, inside, l, t)
judge infix_operator c true false _ inside l t j b = ground (arith, inside, l, t)
judge infix_operator c false true _ inside l t j b = ground (arith, inside, l, t)
judge infix_operator c false false true inside l t j b = ground (arith, inside, l, t, j, b)
judge infix_operator c false false false inside l t j b = ground (arith, inside, l, t, j, b)
judge prefix_operator c true true _ inside l t j b = rw (l, t, unary_diagnostics) refl
judge prefix_operator c false true _ inside l t j b = rw (l, t, unary_diagnostics) refl
judge prefix_operator c true false _ inside l t j b = ground (arith, inside, l, t)
judge prefix_operator c false false true inside l t j b = ground (arith, inside, l, t, j, b)
judge prefix_operator c false false false inside l t j b = ground (arith, inside, l, t, j, b)
judge postfix_operator c true _ _ inside l t j b = rw (l, unary_diagnostics) refl
judge postfix_operator c false true _ inside l t j b = ground (arith, inside, l, t)
judge postfix_operator c false false true inside l t j b = ground (arith, inside, l, t, j, b)
judge postfix_operator c false false false inside l t j b = ground (arith, inside, l, t, j, b)

-- Before the end of the file `DiagnoseOperatorFixity` returns, and accepts an operator or reports it
-- exactly once. A keyword is accepted. A symbol is accepted as infix if there is whitespace on both
-- sides, or on neither where an operand ends before it and one starts behind it; as prefix if there
-- is none behind it, and there is some before it or it does not stand between operands so; and as
-- postfix the other way around.
pub diagnose_operator_fixity-Judged :
    (fixity : OperatorFixity) (c : Context)
    → (c.position == end_position c) ≡ false
    → (c' : Context) × (diagnose_operator_fixity fixity c ≡ some c') × Judged fixity c c'
unfolding diagnose_operator_fixity
diagnose_operator_fixity-Judged fixity c inside = elim (Bool-cases (is_symbol (position_kind c))) [
  | inr word ↦ (c, rw word refl, keyword word refl)
  | inl symbol ↦
      let reported : Reported fixity c =
        judge fixity c (leading_space c) (trailing_space c) (joins_operands c) inside refl refl refl
          (joins_operands_lem c) in
      elim (Bool-cases (accepts fixity (leading_space c) (trailing_space c) (joins_operands c))) [
        | inl fits ↦ (
          c,
          rw (symbol, reported, fits)
              (ap (λ e. some (record c { emitted = e })) (append-nil c.emitted)),
          accepted fits refl,
        )
        | inr not_so ↦ (_, rw (symbol, reported, not_so) refl, refused symbol not_so refl)
      ]
]
