-- ===== src/Lex/Lexer/Skips.antt =====
-- The loop over whitespace ends, at the end of the text or before a token.
use cocktail_lang.Prelude.{
  ℕ, zero, suc, ◌+◌, ◌<◌, ◌≤◌, ◌≡◌, ◌≢◌, refl, true, false, ◌||◌, [], ◌∷◌, ◌==◌, if_case, if_either,
  arith, length, Bool-cases, inl, inr, Bytes, length-drop, drop,
}
use cocktail_lang.Common.CharacterSet.{is_space, is_horizontal_whitespace, is_vertical_whitespace}
use cocktail_lang.Common.StringRef.{StringRef, size, starts_with}
use cocktail_lang.Lex.Lexer.{Lexer}
use cocktail_lang.Lex.Lexer.Whitespace.{
  Skip, more, stopped, failed, out_of_fuel, skip_comment, skip_char, go_on, skip_round,
  whitespace_loop, skip_whitespace,
}

module _ {A : Type 0} where
  -- What a loop over a text of at most so many characters comes to.
  abbrev pub SkipFits : ℕ → Skip A → Type 0
  SkipFits n (more rest x) = size rest < n
  SkipFits n (stopped true rest x) = (0 < size rest) × (size rest ≤ n)
  SkipFits n (stopped false rest x) = Unit
  SkipFits n failed = ⊥
  SkipFits n out_of_fuel = ⊥

  skip_char-Fits :
      (start n : ℕ) (source : StringRef) (x : Lexer A) (text : Bytes)
      → source.bytes ≡ text
      → length text ≤ n
      → SkipFits n (skip_char start source x text)
  unfolding skip_char is_space is_horizontal_whitespace is_vertical_whitespace
  skip_char-Fits start n source x [] e h = tt
  skip_char-Fits start n source x (c ∷ cs) e h =
      let shorter : length (drop 1 (source.bytes)) < n = rw e (omega arith) in
      if_case (SkipFits n) (c == b'\n') _ _
        (λ _. if_either (SkipFits n) (length cs == 0) _ _ tt shorter)
        (λ newline.
          if_case (SkipFits n) (c == b' ' || c == b'\t') _ _ (λ _. shorter)
            (λ blank.
              if_case (SkipFits n) (is_space c) _ _ (λ space. absurd (ground arith))
                (λ _. rw e (omega arith, omega arith))))

  skip_comment-size :
      (source : StringRef) (x : Lexer A) → size ((skip_comment source x).0) ≤ size source
  unfolding skip_comment
  skip_comment-size source x = elim (Bool-cases (starts_with (b'/' ∷ b'/' ∷ []) source.bytes)) [
    | inl e ↦ rw (e, skip_comment) (omega (arith, length-drop _ (source.bytes)))
    | inr e ↦ rw (e, skip_comment) (omega arith)
  ]

  go_on-Fits :
      (go : StringRef → Lexer A → Skip A) (n : ℕ) (s : Skip A)
      → ((source : StringRef) (x : Lexer A) → size source < n → SkipFits n (go source x))
      → SkipFits n s
      → SkipFits n (go_on go s)
  go_on-Fits go n (more rest x) h g = h rest x g
  go_on-Fits go n (stopped true rest x) h g = g
  go_on-Fits go n (stopped false rest x) h g = tt
  go_on-Fits go n failed h g = g
  go_on-Fits go n out_of_fuel h g = g

  SkipFits-le : (m n : ℕ) (s : Skip A) → m ≤ n → SkipFits m s → SkipFits n s
  SkipFits-le m n (more rest x) h g = omega arith
  SkipFits-le m n (stopped true rest x) h g = (g.0, omega (arith, g.1))
  SkipFits-le m n (stopped false rest x) h g = tt
  SkipFits-le m n failed h g = g
  SkipFits-le m n out_of_fuel h g = g

  whitespace_loop-Fits :
      (fuel start : ℕ) (source : StringRef) (x : Lexer A)
      → size source < fuel
      → SkipFits (size source) (whitespace_loop fuel start source x)
  unfolding whitespace_loop skip_round
  whitespace_loop-Fits zero start source x h = absurd (omega arith)
  whitespace_loop-Fits (suc fuel) start source x h =
      let (rest, y) = skip_comment source x in
      go_on-Fits (whitespace_loop fuel start) (size source) _
        (λ next z k.
          SkipFits-le (size next) (size source) _ (omega arith)
            (whitespace_loop-Fits fuel start next z (omega arith)))
        (skip_char-Fits start (size source) rest y (rest.bytes) refl (skip_comment-size source x))

  pub skip_whitespace-Fits :
      (source : StringRef) (x : Lexer A) → SkipFits (size source) (skip_whitespace source x)
  unfolding skip_whitespace
  skip_whitespace-Fits source x =
      whitespace_loop-Fits (size source + 1) (source.begin) source x (omega arith)

  -- The loop is not left on the way.
  go_on-ends :
      (go : StringRef → Lexer A → Skip A) (s : Skip A)
      → ((source : StringRef) (x : Lexer A) (rest : StringRef) (y : Lexer A)
          → go source x ≢ more rest y)
      → (rest : StringRef) (y : Lexer A) → go_on go s ≢ more rest y
  go_on-ends go (more source x) h rest y e = h source x rest y e
  go_on-ends go (stopped found source x) h rest y e = absurd (ground arith)
  go_on-ends go failed h rest y e = absurd (ground arith)
  go_on-ends go out_of_fuel h rest y e = absurd (ground arith)

  whitespace_loop-ends :
      (fuel start : ℕ) (source : StringRef) (x : Lexer A) (rest : StringRef) (y : Lexer A)
      → whitespace_loop fuel start source x ≢ more rest y
  unfolding whitespace_loop
  whitespace_loop-ends zero start source x rest y e = absurd (ground arith)
  whitespace_loop-ends (suc fuel) start source x rest y e =
      go_on-ends (whitespace_loop fuel start) (skip_round start source x)
        (whitespace_loop-ends fuel start) rest y e

  pub skip_whitespace-ends :
      (source : StringRef) (x : Lexer A) (rest : StringRef) (y : Lexer A)
      → skip_whitespace source x ≢ more rest y
  unfolding skip_whitespace
  skip_whitespace-ends source x rest y e =
      whitespace_loop-ends (size source + 1) (source.begin) source x rest y e
