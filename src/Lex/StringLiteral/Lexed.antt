-- ===== src/Lex/StringLiteral/Lexed.antt =====
-- What `StringLiteral::Lex` promises.
use mathlib.Core.Option.{some-injective}
use mathlib.Core.Path.{subst}
use cocktail_lang.Prelude.{
  ℕ, zero, suc, ◌+◌, ◌-◌, ◌≤◌, ◌≡◌, refl, ap, ◌∙◌, sym, true, Option, none, some, [], ◌∷◌, ◌++◌,
  Bytes, if◌then◌else◌, length, take, drop, replicate, arith, take-append-drop, take_all,
  drop-append, length-take, length-drop, length-append, append_assoc, append-nil,
}
use cocktail_lang.Common.StringRef.{StringRef, starts_with}
use cocktail_lang.Lex.StringLiteral.{
  MultiLineKind, is_single_line, Introducer, StringLiteral, Ending, terminated, unterminated,
  string_loop, lex_introducer, count_hashes, literal_at, with_introducer, lex_string,
}
use cocktail_lang.Lex.StringLiteral.Introduced.{
  quotes, starts_with-take, starts_with_hashes, lex_introducer-Fits,
}
use cocktail_lang.Lex.StringLiteral.Bounds.{no_newline, EndsWell, string_loop-EndsWell}

-- The parts of a literal: its text is the start of the source, and consists of the opening part,
-- the content, and, if it is terminated, the closing quotation marks and hashes. The opening part
-- starts with the hashes and the quotation marks. The content of a string of one line has no
-- newline.
pub record IsStringLiteral (source : StringRef) (l : StringLiteral) : Type 0 where
  pub opening : Bytes
  pub closing : Bytes
  pub rest : Bytes
  pub splits : source.bytes ≡ l.text.bytes ++ rest
  pub parts : l.text.bytes ≡ opening ++ (l.content.bytes ++ closing)
  pub closes :
      closing ≡ (if l.is_terminated then quotes l.multi_line ++ replicate l.hash_level b'#' else [])
  pub opens : starts_with (replicate l.hash_level b'#' ++ quotes l.multi_line) opening ≡ true
  pub one_line : is_single_line l.multi_line ≡ true → no_newline l.content.bytes ≡ true

length-replicate : (n c : ℕ) → length (replicate n c) ≡ n
length-replicate zero c = refl
length-replicate (suc n) c = omega (arith, length-replicate n c)

literal_at-IsStringLiteral :
    (source : StringRef) (hash_level : ℕ) (kind : MultiLineKind) (opening text terminator : Bytes)
    (e : Ending)
    → source.bytes ≡ opening ++ text
    → terminator ≡ quotes kind ++ replicate hash_level b'#'
    → starts_with (replicate hash_level b'#' ++ quotes kind) opening ≡ true
    → EndsWell terminator kind (length opening) text e
    → IsStringLiteral source
        (literal_at source (length opening) hash_level kind (length terminator) e)
literal_at-IsStringLiteral source n kind opening text terminator (terminated e) whole mark opens
      (mid, rest, splits, at, clean) =
    let parts : source.bytes ≡ (opening ++ (mid ++ terminator)) ++ rest =
      whole ∙ ap (λ x. opening ++ x) splits ∙ simp append_assoc in
    let text_eq : take (e + length terminator) source.bytes ≡ opening ++ (mid ++ terminator) =
      rw parts (
        take_all (opening ++ (mid ++ terminator)) rest _ (
          omega (
            arith,
            length-append {0} opening (mid ++ terminator),
            length-append {0} mid terminator,
            at,
          ))) in
    let content_eq : take (e - length opening) (drop (length opening) source.bytes) ≡ mid =
      ap (λ x. take (e - length opening) (drop (length opening) x)) whole
      ∙ ap (take (e - length opening)) (drop-append opening text ∙ splits)
      ∙ take_all mid (terminator ++ rest) _ (omega (arith, at)) in
    rw (text_eq, content_eq)
      (record {
        opening = opening;
        closing = terminator;
        rest = rest;
        splits = parts;
        parts = refl;
        closes = mark;
        opens = opens;
        one_line = clean;
      })
literal_at-IsStringLiteral source n kind opening text terminator (unterminated e) whole mark opens
      (mid, rest, splits, at, clean) =
    let parts : source.bytes ≡ (opening ++ mid) ++ rest =
      whole ∙ ap (λ x. opening ++ x) splits ∙ simp append_assoc in
    let text_eq : take e source.bytes ≡ opening ++ mid =
      rw parts
        (take_all (opening ++ mid) rest _ (omega (arith, length-append {0} opening mid, at))) in
    rw (text_eq, drop-append)
      (record {
        opening = opening;
        closing = [];
        rest = rest;
        splits = parts;
        parts = rw append-nil;
        closes = refl;
        opens = opens;
        one_line = clean;
      })

count_hashes-le : (source : Bytes) → count_hashes source ≤ length source
unfolding count_hashes
count_hashes-le [] = omega arith
count_hashes-le (c ∷ cs) = ground (arith, count_hashes-le cs)

with_introducer-IsStringLiteral :
    (source : StringRef) (o : Option Introducer) {l : StringLiteral}
    → lex_introducer (drop (count_hashes source.bytes) source.bytes) ≡ o
    → with_introducer source (count_hashes source.bytes) o ≡ some l
    → IsStringLiteral source l
with_introducer-IsStringLiteral source none e h = absurd (cc)
with_introducer-IsStringLiteral source (some i) e h =
    let n = count_hashes source.bytes in
    let fits = lex_introducer-Fits (drop n source.bytes) e in
    let prefix_len = n + i.prefix_size in
    let opening = take prefix_len source.bytes in
    let terminator = i.terminator ++ replicate n b'#' in
    let size_eq : length opening ≡ prefix_len =
      length-take prefix_len source.bytes (
        omega (arith, fits.within, length-drop {0} n source.bytes, count_hashes-le source.bytes)) in
    let whole : source.bytes ≡ opening ++ drop prefix_len source.bytes =
      sym (take-append-drop prefix_len source.bytes) in
    subst (IsStringLiteral source) (some-injective _ _ h) (
      rw size_eq at (
        literal_at-IsStringLiteral source n i.kind opening (drop prefix_len source.bytes) terminator
          (string_loop terminator n i.kind 0 prefix_len (drop prefix_len source.bytes)) whole
          (ap (λ q. q ++ replicate n b'#') fits.mark)
          (starts_with-take (replicate n b'#' ++ quotes i.kind) source.bytes prefix_len
            (starts_with_hashes (quotes i.kind) source.bytes fits.marked)
            (omega (
              arith,
              fits.long,
              length-append {0} (replicate n b'#') (quotes i.kind),
              length-replicate n b'#',
            )))
          (rw size_eq (
            string_loop-EndsWell terminator n i.kind 0 prefix_len (drop prefix_len source.bytes)
              (λ _. refl)))))

-- A string literal that `Lex` returns is as `IsStringLiteral` says: its text is the start of the
-- source and consists of an opening part, which starts with hashes and the quotation marks of its
-- kind, the content, and, exactly if the literal is marked as terminated, those quotation marks with
-- as many hashes as it was opened with; and the content of a string of one line has no newline.
pub lex_string-IsStringLiteral :
    (source : StringRef) {l : StringLiteral} → lex_string source ≡ some l → IsStringLiteral source l
unfolding lex_string
lex_string-IsStringLiteral source h =
    with_introducer-IsStringLiteral source
      (lex_introducer (drop (count_hashes source.bytes) source.bytes)) refl h
