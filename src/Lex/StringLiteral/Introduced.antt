-- ===== src/Lex/StringLiteral/Introduced.antt =====
-- What `Introducer::Lex` promises.
use mathlib.Core.Option.{some-injective}
use mathlib.Core.Path.{subst}
use cocktail_lang.Prelude.{
  ℕ, zero, suc, ◌+◌, ◌≤◌, ◌≡◌, refl, true, Option, none, some, [], ◌∷◌, ◌++◌, Bytes, ◌==◌, ==_iff,
  length, take, drop, get_or, get_or_range, replicate, arith, Bool-cases, inl, inr,
}
use cocktail_lang.Common.StringRef.{starts_with}
use cocktail_lang.Lex.StringLiteral.{
  MultiLineKind, not_multi_line, multi_line, multi_line_with_double_quotes, Introducer,
  find_prefix_end, multi_line_indicator, double_quoted_multi_line_indicator, regular_introducer,
  after_prefix_end, multi_line_introducer, lex_introducer, count_hashes,
}

-- The quotation marks of each kind.
abbrev pub quotes : MultiLineKind → Bytes
quotes not_multi_line = b'"' ∷ []
quotes multi_line = multi_line_indicator
quotes multi_line_with_double_quotes = double_quoted_multi_line_indicator

-- The introducer is a part of the text, and its terminator is that of its kind.
pub record Fits (source : Bytes) (i : Introducer) : Type 0 where
  pub within : i.prefix_size ≤ length source
  pub mark : i.terminator ≡ quotes i.kind
  pub marked : starts_with (quotes i.kind) source ≡ true
  pub long : length (quotes i.kind) ≤ i.prefix_size

pub starts_with-take :
    (p xs : Bytes) (k : ℕ)
    → starts_with p xs ≡ true
    → length p ≤ k
    → starts_with p (take k xs) ≡ true
starts_with-take [] xs k h le = refl
starts_with-take (p ∷ ps) [] k h le = absurd (cc)
starts_with-take (p ∷ ps) (x ∷ xs) zero h le = absurd (omega arith)
starts_with-take (p ∷ ps) (x ∷ xs) (suc k) h le = ground (arith, starts_with-take ps xs k)

pub starts_with_hashes :
    (q xs : Bytes)
    → starts_with q (drop (count_hashes xs) xs) ≡ true
    → starts_with (replicate (count_hashes xs) b'#' ++ q) xs ≡ true
unfolding count_hashes
starts_with_hashes q [] h = h
starts_with_hashes q (c ∷ cs) h = elim (Bool-cases (c == b'#')) [
  | inl hash ↦
      rw (hash, count_hashes)
        (rw (starts_with_hashes q cs (rw (hash, count_hashes) at h)) (ground (arith, hash)))
  | inr other ↦ rw (other, count_hashes) (rw (other, count_hashes) at h)
]

find_prefix_end-le : (pos : ℕ) (xs : Bytes) {e : ℕ} → find_prefix_end pos xs ≡ some e → pos ≤ e
unfolding find_prefix_end
find_prefix_end-le pos [] h = absurd (cc)
find_prefix_end-le pos (c ∷ cs) {e} h = ground (arith, find_prefix_end-le (pos + 1) cs {e = e})

regular-Fits :
    (source : Bytes) {i : Introducer} → regular_introducer source ≡ some i → Fits source i
regular-Fits [] h = absurd (cc)
regular-Fits (c ∷ cs) h = elim (Bool-cases (c == b'"')) [
  | inl quote ↦ ground arith
  | inr other ↦ ground arith
]

newline_range :
    (source : Bytes) (i : ℕ) → (get_or source i 0 == b'\n') ≡ true → i + 1 ≤ length source
newline_range source i h =
    omega (arith, get_or_range source i 0 (λ e. absurd (omega (arith, (==_iff _ _).0 h))))

after_prefix_end-Fits :
    (kind : MultiLineKind) (source : Bytes) (o : Option ℕ) {i : Introducer}
    → starts_with (quotes kind) source ≡ true
    → ((e : ℕ) → o ≡ some e → length (quotes kind) ≤ e)
    → after_prefix_end kind (quotes kind) source o ≡ some i
    → Fits source i
unfolding after_prefix_end
after_prefix_end-Fits kind source none start behind h = regular-Fits source h
after_prefix_end-Fits kind source (some e) start behind h =
    elim (Bool-cases (get_or source e 0 == b'\n')) [
      | inl newline ↦
          subst (Fits source) (some-injective _ _ (rw (newline, after_prefix_end) at h)) (record {
            within = newline_range source e newline;
            mark = refl;
            marked = start;
            long = omega (arith, behind e refl);
          })
      | inr other ↦ regular-Fits source (rw (other, after_prefix_end) at h)
    ]

pub lex_introducer-Fits :
    (source : Bytes) {i : Introducer} → lex_introducer source ≡ some i → Fits source i
unfolding lex_introducer
lex_introducer-Fits source h = elim (Bool-cases (starts_with multi_line_indicator source)) [
  | inl single ↦
      after_prefix_end-Fits multi_line source _ single
        (λ e.
          find_prefix_end-le (length multi_line_indicator)
            (drop (length multi_line_indicator) source))
        (unfold multi_line_introducer in rw (single, lex_introducer) at h)
  | inr other ↦ elim (Bool-cases (starts_with double_quoted_multi_line_indicator source)) [
    | inl double ↦
        after_prefix_end-Fits multi_line_with_double_quotes source _ double
          (λ e.
            find_prefix_end-le (length double_quoted_multi_line_indicator)
              (drop (length double_quoted_multi_line_indicator) source))
          (rw (other, double, lex_introducer) at h)
    | inr plain ↦ regular-Fits source (rw (other, plain, lex_introducer) at h)
  ]
]
