-- ===== src/Lex/StringLiteral/Bounds.antt =====
-- Where the loop of `StringLiteral::Lex` ends.
use native.Mathlib.Numerals.{add-one}
use cocktail_lang.Prelude.{
  ℕ, zero, suc, ◌+◌, ◌≡◌, refl, ap, sym, Bool, true, false, not, ◌&&◌, ◌||◌, [], ◌∷◌, ◌++◌, Bytes,
  ◌==◌, leb, length, take, drop, take-append-drop, get_or, replicate, arith, Bool-cases, inl, inr,
}
use cocktail_lang.Common.StringRef.{starts_with}
use cocktail_lang.Lex.StringLiteral.{
  MultiLineKind, is_single_line, Ending, terminated, unterminated, Move, advance, finish,
  escape_step, string_step, string_loop,
}

abbrev pub no_newline : Bytes → Bool
no_newline [] = true
no_newline (c ∷ cs) = not (c == b'\n') && no_newline cs

pub starts_with-splits : (p s : Bytes) → starts_with p s ≡ true → s ≡ p ++ drop (length p) s
starts_with-splits [] s h = refl
starts_with-splits (p ∷ ps) [] h = cc
starts_with-splits (p ∷ ps) (c ∷ cs) h =
    let e : p ≡ c = ground arith in rw (← e) (ap (◌∷◌ p) (starts_with-splits ps cs (ground arith)))

-- The text from the cursor on splits where the loop ends: before the terminator if the literal is
-- terminated. A string of one line has no newline up to there.
abbrev pub EndsWell : Bytes → MultiLineKind → ℕ → Bytes → Ending → Type 0
EndsWell terminator kind cursor text (terminated e) =
    (mid rest : Bytes) × (text ≡ mid ++ (terminator ++ rest))
    × (e ≡ cursor + length mid)
    × (is_single_line kind ≡ true → no_newline mid ≡ true)
EndsWell terminator kind cursor text (unterminated e) =
    (mid rest : Bytes) × (text ≡ mid ++ rest)
    × (e ≡ cursor + length mid)
    × (is_single_line kind ≡ true → no_newline mid ≡ true)

EndsWell-cons :
    (terminator : Bytes) (kind : MultiLineKind) (cursor c : ℕ) (text : Bytes) (e : Ending)
    → (is_single_line kind ≡ true → not (c == b'\n') ≡ true)
    → EndsWell terminator kind (cursor + 1) text e
    → EndsWell terminator kind cursor (c ∷ text) e
EndsWell-cons terminator kind cursor c text (terminated e) plain (mid, rest, splits, at, clean) =
    (c ∷ mid, rest, ap (◌∷◌ c) splits, omega arith, λ h. ground (arith, plain h, clean h))
EndsWell-cons terminator kind cursor c text (unterminated e) plain (mid, rest, splits, at, clean) =
    (c ∷ mid, rest, ap (◌∷◌ c) splits, omega arith, λ h. ground (arith, plain h, clean h))

take_hashes :
    (n : ℕ) (text : Bytes)
    → starts_with (replicate n b'#') text ≡ true
    → (get_or (drop n text) 0 0 == b'\n') ≡ false
    → no_newline (take (suc n) text) ≡ true
take_hashes zero [] h k = refl
take_hashes zero (c ∷ cs) h k = ground arith
take_hashes (suc n) [] h k = refl
take_hashes (suc n) (c ∷ cs) h k = ground (arith, take_hashes n cs)

-- What a character that the loop goes on behind, or stops at, guarantees.
abbrev StepWell : Bytes → MultiLineKind → ℕ → ℕ → Bytes → Move → Type 0
StepWell terminator kind cursor c rest (advance skip) =
    is_single_line kind ≡ true → (not (c == b'\n') ≡ true) × (no_newline (take skip rest) ≡ true)
StepWell terminator kind cursor c rest (finish e) = EndsWell terminator kind cursor (c ∷ rest) e

no_newline-take-replicate :
    (n : ℕ) (text : Bytes)
    → starts_with (replicate n b'#') text ≡ true
    → no_newline (take n text) ≡ true
no_newline-take-replicate zero text h = refl
no_newline-take-replicate (suc n) [] h = refl
no_newline-take-replicate (suc n) (c ∷ cs) h = ground (arith, no_newline-take-replicate n cs)

length-hashes :
    (n : ℕ) (text : Bytes) → starts_with (replicate n b'#') text ≡ true → length (take n text) ≡ n
length-hashes zero text h = refl
length-hashes (suc n) [] h = cc
length-hashes (suc n) (c ∷ cs) h = ap suc (length-hashes n cs (ground arith))

escape-StepWell :
    (terminator : Bytes) (hash_level : ℕ) (kind : MultiLineKind) (cursor c : ℕ) (rest : Bytes)
    → (c == b'\\') ≡ true
    → StepWell terminator kind cursor c rest (escape_step hash_level kind cursor rest)
unfolding escape_step
escape-StepWell terminator n kind cursor c rest h =
    elim (Bool-cases (starts_with (replicate n b'#') rest)) [
      | inr plain ↦ rw plain (λ _. (ground arith, refl))
      | inl hashes ↦
          elim (Bool-cases (
            leb (length (drop n rest)) 0
            || (is_single_line kind && get_or (drop n rest) 0 0 == b'\n'))) [
              | inl cut ↦
                  rw (hashes, cut)
                    (
                      c ∷ take n rest,
                      drop n rest,
                      ap (◌∷◌ c) (sym (take-append-drop n rest)),
                      omega (arith, length-hashes n rest hashes),
                      λ _. ground (arith, no_newline-take-replicate n rest hashes),
                    )
              | inr more ↦
                  rw (hashes, more)
                    (λ single.
                      (ground arith, rw add-one (take_hashes n rest hashes (ground arith))))
            ]
    ]

string_step-StepWell :
    (terminator : Bytes) (hash_level : ℕ) (kind : MultiLineKind) (cursor c : ℕ) (rest : Bytes)
    → StepWell terminator kind cursor c rest (string_step terminator hash_level kind cursor c rest)
unfolding string_step
string_step-StepWell terminator n kind cursor c rest = elim (Bool-cases (c == b'\\')) [
  | inl backslash ↦ rw backslash (escape-StepWell terminator n kind cursor c rest backslash)
  | inr other ↦ elim (Bool-cases (c == b'\n')) [
    | inl newline ↦ elim (Bool-cases (is_single_line kind)) [
      | inl single ↦ rw (other, newline, single) ([], c ∷ rest, refl, omega arith, λ _. refl)
      | inr multi ↦ rw (other, newline, multi) (λ single. absurd (cc))
    ]
    | inr inside ↦
        elim (Bool-cases ((c == b'"' || c == b'\'') && starts_with terminator (c ∷ rest))) [
          | inl close ↦
              rw (other, inside, close)
                (
                  [],
                  drop (length terminator) (c ∷ rest),
                  starts_with-splits terminator (c ∷ rest) (ground arith),
                  omega arith,
                  λ _. refl,
                )
          | inr within ↦ rw (other, inside, within) (λ _. (rw inside, refl))
        ]
  ]
]

move-EndsWell :
    (terminator : Bytes) (hash_level : ℕ) (kind : MultiLineKind) (cursor c : ℕ) (rest : Bytes)
    (m : Move)
    → StepWell terminator kind cursor c rest m
    → ((skip : ℕ)
        → (is_single_line kind ≡ true → no_newline (take skip rest) ≡ true)
        → EndsWell terminator kind
            (cursor + 1)
            rest
            (string_loop terminator hash_level kind skip (cursor + 1) rest))
    → EndsWell terminator kind cursor (c ∷ rest) (elim m [
      | advance skip ↦ string_loop terminator hash_level kind skip (cursor + 1) rest
      | finish e ↦ e
    ])
move-EndsWell terminator n kind cursor c rest (advance skip) w later =
    EndsWell-cons terminator kind cursor c rest _ (λ single. (w single).0)
      (later skip (λ single. (w single).1))
move-EndsWell terminator n kind cursor c rest (finish e) w later = w

pub string_loop-EndsWell :
    (terminator : Bytes) (hash_level : ℕ) (kind : MultiLineKind) (skip cursor : ℕ) (text : Bytes)
    → (is_single_line kind ≡ true → no_newline (take skip text) ≡ true)
    → EndsWell terminator kind cursor text (string_loop terminator hash_level kind skip cursor text)
unfolding string_loop
string_loop-EndsWell terminator n kind skip cursor [] h = ([], [], refl, omega arith, λ _. refl)
string_loop-EndsWell terminator n kind (suc skip) cursor (c ∷ rest) h =
    EndsWell-cons terminator kind cursor c rest _ (λ single. ground (arith, h single))
      (string_loop-EndsWell terminator n kind skip (cursor + 1) rest
        (λ single. ground (arith, h single)))
string_loop-EndsWell terminator n kind zero cursor (c ∷ rest) h =
    move-EndsWell terminator n kind cursor c rest _
      (string_step-StepWell terminator n kind cursor c rest)
      (λ skip. string_loop-EndsWell terminator n kind skip (cursor + 1) rest)
