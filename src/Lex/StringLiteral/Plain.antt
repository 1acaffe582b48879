-- ===== src/Lex/StringLiteral/Plain.antt =====
-- Strings with no special character: lexing and expanding gives back what stands between the quotes.
use cocktail_lang.Prelude.{
  ℕ, suc, ◌+◌, ◌*◌, ◌≡◌, refl, ap, ◌∙◌, sym, Bool, true, false, not, ◌&&◌, some, List, [], ◌∷◌,
  ◌++◌, Bytes, ◌==◌, length, take, drop, arith, append-nil, take-append, take_all, drop-append,
  append_assoc, length-append,
}
use cocktail_lang.Common.StringRef.{StringRef}
use cocktail_lang.Common.Unicode.{UnicodeApi}
use cocktail_lang.Lex.Diagnostic.{Diagnostic}
use cocktail_lang.Lex.StringLiteral.{
  StringLiteral, not_multi_line, terminated, string_step, string_loop, lex_introducer, count_hashes,
  lex_string, with_introducer, literal_at,
}
use cocktail_lang.Lex.StringLiteral.Expand.{
  ends_regular_text, regular_length, regular_text, special, line_round,
  expand_escape_sequences_and_remove_indent, compute_string_value, value_of_kind, Expansion,
  finished, done,
}

-- No character that ends plain text.
abbrev pub is_plain : Bytes → Bool
is_plain [] = true
is_plain (c ∷ cs) = not (ends_regular_text c) && is_plain cs

-- Nor a double quote.
abbrev pub is_quotable : Bytes → Bool
is_quotable [] = true
is_quotable (c ∷ cs) = not (c == b'"') && is_quotable cs

regular_length-plain : (text : Bytes) → is_plain text ≡ true → regular_length text ≡ length text
unfolding regular_length
regular_length-plain [] h = refl
regular_length-plain (c ∷ cs) h = ground (arith, regular_length-plain cs)

take-length : (xs : Bytes) → take (length xs) xs ≡ xs
take-length xs = ap (take (length xs)) (sym (append-nil xs)) ∙ take-append xs []

drop-length : (xs : Bytes) → drop (length xs) xs ≡ []
drop-length xs = ap (drop (length xs)) (sym (append-nil xs)) ∙ drop-append xs []

module _ (api : UnicodeApi) (hash_level : ℕ) (indent : Bytes) where
  line_round-plain :
      (s : Expansion)
      → is_plain s.contents.bytes ≡ true
      → line_round api hash_level indent s
        ≡ done (record s {
          contents = record { begin = s.contents.begin + length s.contents.bytes; bytes = [] };
          result = s.result ++ s.contents.bytes;
        })
  unfolding line_round special regular_text
  line_round-plain s h = rw (regular_length-plain s.contents.bytes h, take-length, drop-length)

expand-plain :
    (api : UnicodeApi) (hash_level : ℕ) (contents : StringRef) (emitted : List Diagnostic)
    → is_plain contents.bytes ≡ true
    → (s : Expansion) × (expand_escape_sequences_and_remove_indent api hash_level [] contents
          emitted
        ≡ finished s)
      × (s.result ≡ contents.bytes)
      × (s.emitted ≡ emitted)
unfolding expand_escape_sequences_and_remove_indent
expand-plain api n contents emitted h =
    let fuel : 2 * length contents.bytes + 3 ≡ suc (suc (2 * length contents.bytes + 1)) =
      omega arith in
    let s : Expansion = record {
      contents = record { begin = contents.begin + 0; bytes = contents.bytes };
      result = [];
      last_escape_length = 0;
      emitted = emitted;
    } in
    (
      record s {
        contents = record { begin = s.contents.begin + length s.contents.bytes; bytes = [] };
        result = contents.bytes;
      },
      rw fuel (rw (line_round-plain api n [] s h)),
      refl,
      refl,
    )

value_of_kind-plain :
    (api : UnicodeApi) (l : StringLiteral)
    → l.is_terminated ≡ true
    → is_plain l.content.bytes ≡ true
    → value_of_kind api l not_multi_line ≡ some (l.content.bytes, [])
unfolding value_of_kind
value_of_kind-plain api l closed h =
    let (s, runs, result, emitted) = expand-plain api l.hash_level l.content [] h in
    rw (closed, runs, value_of_kind) (rw (result, emitted))

compute_string_value-plain :
    (api : UnicodeApi) (l : StringLiteral)
    → l.is_terminated ≡ true
    → l.multi_line ≡ not_multi_line
    → is_plain l.content.bytes ≡ true
    → compute_string_value api l ≡ some (l.content.bytes, [])
unfolding compute_string_value
compute_string_value-plain api l closed single h =
    ap (value_of_kind api l) single ∙ value_of_kind-plain api l closed h

-- The characters of a plain string are passed one by one, up to the quote.
string_loop-plain :
    (cursor : ℕ) (text rest : Bytes)
    → is_plain text ≡ true
    → is_quotable text ≡ true
    → string_loop (b'"' ∷ []) 0 not_multi_line 0 cursor (text ++ (b'"' ∷ rest))
      ≡ terminated (cursor + length text)
unfolding string_loop string_step
string_loop-plain cursor [] rest h k = ap terminated (omega arith)
string_loop-plain cursor (c ∷ cs) rest h k = ground (arith, string_loop-plain (cursor + 1) cs rest)

lex_introducer-regular :
    (c : ℕ) (rest : Bytes)
    → (c == b'"') ≡ false
    → lex_introducer (b'"' ∷ c ∷ rest)
      ≡ some (record { kind = not_multi_line; terminator = b'"' ∷ []; prefix_size = 1 })
unfolding lex_introducer
lex_introducer-regular c rest h = ground arith

-- A quote, a text that is not empty and has no quote, newline, backslash or tab, and a quote are a
-- string literal; what is behind is left, and the value of the literal is the text, with no
-- diagnostic.
pub lex_string-compute_string_value :
    (api : UnicodeApi) (begin c : ℕ) (cs rest : Bytes)
    → is_plain (c ∷ cs) ≡ true
    → is_quotable (c ∷ cs) ≡ true
    → (l : StringLiteral) × (lex_string
          (record { begin = begin; bytes = b'"' ∷ ((c ∷ cs) ++ (b'"' ∷ rest)) })
        ≡ some l)
      × (l.text.bytes ≡ b'"' ∷ ((c ∷ cs) ++ b'"' ∷ []))
      × (compute_string_value api l ≡ some (c ∷ cs, []))
unfolding lex_string count_hashes
lex_string-compute_string_value api begin c cs rest h k = (
  l,
  lexes,
  text,
  compute_string_value-plain api l refl refl (rw content h)
      ∙ ap (λ (b : Bytes). some (b, [])) content,
)
  where
    source : StringRef
    source = record { begin = begin; bytes = b'"' ∷ ((c ∷ cs) ++ (b'"' ∷ rest)) }

    l : StringLiteral
    l = literal_at source 1 0 not_multi_line 1 (terminated (1 + length (c ∷ cs)))

    content : l.content.bytes ≡ c ∷ cs
    content = take_all (c ∷ cs) (b'"' ∷ rest) _ (omega arith)

    text : l.text.bytes ≡ b'"' ∷ ((c ∷ cs) ++ b'"' ∷ [])
    text =
        ap (λ (x : Bytes). take (1 + length (c ∷ cs) + 1) (b'"' ∷ x))
          (sym (append_assoc (c ∷ cs) (b'"' ∷ []) rest))
        ∙ take_all (b'"' ∷ ((c ∷ cs) ++ b'"' ∷ [])) rest _
            (omega (arith, length-append {0} (c ∷ cs) (b'"' ∷ [])))

    lexes : lex_string source ≡ some l
    lexes =
        ap (with_introducer source 0)
          (lex_introducer-regular c (cs ++ (b'"' ∷ rest)) (ground arith))
        ∙ ap (λ e. some (literal_at source 1 0 not_multi_line 1 e))
            (string_loop-plain 1 (c ∷ cs) rest h k)
