-- ===== src/Parse/Context/Progress.antt =====
-- The skips over tokens stay in the buffer and end.
use mathlib.Core.Option.{some-injective}
use cocktail_lang.Prelude.{
  ℕ, zero, suc, ◌+◌, ◌≤◌, ◌<◌, ◌≡◌, refl, true, false, not, ◌&&◌, Option, none, some, ◌==◌, leb,
  arith, Bool-cases, inl, inr,
}
use cocktail_lang.Lex.TokenKind.{semi, close_curly_brace}
use cocktail_lang.Lex.TokenKind.Index.{kind_eq}
use cocktail_lang.Lex.TokenKind.Tables.{is_opening_symbol}
use cocktail_lang.Lex.TokenizedBuffer.{
  TokenizedBuffer, get_kind, get_line, get_token_info, get_matched_closing_token, token_count,
}
use cocktail_lang.Parse.Context.{Context, end_position, position_is, position_kind}
use cocktail_lang.Parse.Context.Search.{IsBalanced}
use cocktail_lang.Parse.Context.Skip.{
  skip_to, skip_matching_group, skip_one, skip_loop, on_line_or_indented, skip_past_likely_end,
}

matched_of_opening :
    (b : TokenizedBuffer) (i : ℕ)
    → is_opening_symbol (get_kind b i) ≡ true
    → get_matched_closing_token b i ≡ some (get_token_info b i).payload
unfolding get_matched_closing_token
matched_of_opening b i opening = rw opening refl

pub skip_to_moves :
    (token : ℕ) (c : Context)
    → c.position ≤ token
    → token < end_position c
    → skip_to token c ≡ some (record c { position = token })
unfolding skip_to
skip_to_moves token c h k =
    let forward : leb c.position token ≡ true = ground (arith, h) in
    let inside : (token == end_position c) ≡ false = ground (arith, k) in rw (forward, inside) refl

-- The body of the loop moves forward within the buffer and changes nothing else.
skip_one_moves :
    (c : Context)
    → IsBalanced c.tokens
    → c.position < end_position c
    → (j : ℕ) × (skip_one c ≡ some (record c { position = j }))
      × (c.position < j)
      × (j ≤ end_position c)
unfolding skip_one skip_matching_group
skip_one_moves c bal h = elim (Bool-cases (is_opening_symbol (position_kind c))) [
  | inr other ↦
      (c.position + 1, rw (other, skip_one, skip_matching_group) refl, omega arith, omega arith)
  | inl opening ↦
      let (later, before) = bal.matched c.position (omega arith) opening in
      let token = (get_token_info c.tokens c.position).payload in
      let match_eq = matched_of_opening c.tokens c.position opening in
      let skips = skip_to_moves token c (omega (arith, later)) (omega (arith, before)) in
      (
        token + 1,
        rw (opening, match_eq, skips, skip_one, skip_matching_group) refl,
        omega (arith, later),
        omega (arith, before),
      )
]

-- The outcome of a skip: forward, in the buffer, and a token that is returned is a `;` right before.
pub record Skipped (c : Context) (r : Option ℕ × Context) : Type 0 where
  pub to : ℕ
  pub moved : r.1 ≡ record c { position = to }
  pub forward : c.position ≤ to
  pub moves :
      position_is close_curly_brace c ≡ false → c.position < end_position c → c.position < to
  pub in_buffer : to ≤ end_position c
  pub semi_before :
      (token : ℕ)
      → r.0 ≡ some token
      → (token + 1 ≡ to) × (kind_eq (get_kind c.tokens token) semi ≡ true)

skip_loop-Skipped :
    (fuel root_line : ℕ) (c : Context)
    → IsBalanced c.tokens
    → c.position < end_position c
    → end_position c < c.position + fuel
    → (r : Option ℕ × Context) × (skip_loop fuel root_line c ≡ some r) × Skipped c r
unfolding skip_loop
skip_loop-Skipped zero root_line c bal h enough = absurd (omega arith)
skip_loop-Skipped (suc fuel) root_line c bal h enough =
    elim (Bool-cases (position_is close_curly_brace c)) [
      | inl brace ↦ (
        (none, c),
        rw (brace, skip_loop) refl,
        record {
          to = c.position;
          moved = refl;
          forward = omega arith;
          moves = λ other _. absurd (ground (arith, brace));
          in_buffer = omega arith;
          semi_before = λ t e. absurd (cc e);
        },
      )
      | inr no_brace ↦ elim (Bool-cases (position_is semi c)) [
        | inl found ↦ (
          (some c.position, record c { position = c.position + 1 }),
          rw (no_brace, found, skip_loop) refl,
          record {
            to = c.position + 1;
            moved = refl;
            forward = omega arith;
            moves = λ _ _. omega arith;
            in_buffer = omega arith;
            semi_before = λ t e. ground (arith, some-injective _ _ e);
          },
        )
        | inr no_semi ↦
            let (j, runs, more, le) = skip_one_moves c bal h in
            let c' = record c { position = j } in
            elim (Bool-cases
              (not (j == end_position c) && on_line_or_indented c.tokens root_line j)) [
                | inr stop ↦ (
                  (none, c'),
                  rw (no_brace, no_semi, runs, stop, skip_loop) refl,
                  record {
                    to = j;
                    moved = refl;
                    forward = omega (arith, more);
                    moves = λ _ _. more;
                    in_buffer = le;
                    semi_before = λ t e. absurd (cc e);
                  },
                )
                | inl again ↦
                    let (r, rest, s) =
                      skip_loop-Skipped fuel root_line c' bal (ground (arith, again, le))
                        (omega (arith, more)) in
                    (
                      r,
                      rw (no_brace, no_semi, runs, again, skip_loop) rest,
                      record {
                        to = s.to;
                        moved = s.moved;
                        forward = omega (arith, more, s.forward);
                        moves = λ _ _. omega (arith, more, s.forward);
                        in_buffer = s.in_buffer;
                        semi_before = s.semi_before;
                      },
                    )
              ]
      ]
    ]

-- On a balanced buffer `SkipPastLikelyEnd` ends with no check failed: it moves the position forward,
-- and does move it unless it is at a `}` or at the end of the file, at most to the token of the end
-- of the file; it changes nothing else, and a token that it returns is a `;` right before the new
-- position.
pub skip_past_likely_end-Skipped :
    (skip_root : ℕ) (c : Context)
    → IsBalanced c.tokens
    → c.position < token_count c.tokens
    → (r : Option ℕ × Context) × (skip_past_likely_end skip_root c ≡ some r) × Skipped c r
unfolding skip_past_likely_end
skip_past_likely_end-Skipped skip_root c bal h = elim (Bool-cases (c.position == end_position c)) [
  | inl at_end ↦ (
    (none, c),
    rw at_end refl,
    record {
      to = c.position;
      moved = refl;
      forward = omega arith;
      moves = λ _ inside. absurd (ground (arith, at_end));
      in_buffer = omega arith;
      semi_before = λ t e. absurd (cc e);
    },
  )
  | inr inside ↦
      let (r, runs, s) =
        skip_loop-Skipped (token_count c.tokens) (get_line c.tokens skip_root) c bal
          (ground (arith, inside)) (omega arith) in
      (r, rw inside runs, s)
]
