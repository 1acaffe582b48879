-- ===== src/Lex/StringLiteral/Shorter.antt =====
-- The views that are left behind a prefix, and behind an escape sequence, are no longer.
use cocktail_lang.Prelude.{
  ℕ, ◌-◌, ◌≤◌, ◌≡◌, none, some, [], ◌∷◌, Bytes, arith, Bool-cases, inl, inr, length, length-drop,
  Option-cases,
}
use cocktail_lang.Common.StringRef.{StringRef, size, drop_front, starts_with, consume_front}
use cocktail_lang.Common.Unicode.{UnicodeApi}
use cocktail_lang.Lex.StringLiteral.Escape.{
  Expanded, braced_digits, hex_byte, unicode_case, hex_case, escape_case, consume_escape,
  expand_and_consume_escape_sequence, expand_unicode_escape_sequence, take_hex_digits,
}

pub drop_front-le : (n : ℕ) (s : StringRef) → size (drop_front n s) ≤ size s
drop_front-le n s = omega (arith, length-drop {0} n s.bytes)

-- What is left behind a prefix is no longer, and shorter if the prefix is not empty.
pub consume_front-le :
    (p : Bytes) (s : StringRef) {rest : StringRef}
    → consume_front p s ≡ some rest
    → size rest ≡ size s - length p
consume_front-le p s h = elim (Bool-cases (starts_with p s.bytes)) [
  | inl yes_it ↦ ground (arith, yes_it, h, length-drop {0} (length p) s.bytes)
  | inr no_it ↦ absurd (cc (rw no_it at h))
]

-- The escape sequences leave no more than there was.
hex_byte-le :
    (content : StringRef) (bytes : Bytes) {b : ℕ} {rest : StringRef}
    → hex_byte content bytes ≡ some (b, rest)
    → size rest ≤ size content
unfolding hex_byte
hex_byte-le content [] h = absurd (cc)
hex_byte-le content (c ∷ []) h = absurd (cc)
hex_byte-le content (c ∷ d ∷ cs) h = ground (arith, drop_front-le 2 content)

hex_case-le :
    (api : UnicodeApi) (content : StringRef) → size (hex_case api content).content ≤ size content
unfolding hex_case
hex_case-le api content = elim (Option-cases (hex_byte content content.bytes)) [
  | inl e ↦ rw (e, hex_case) (omega arith)
  | inr (x, e) ↦ rw (e, hex_case) (hex_byte-le content content.bytes e)
]

braced_digits-le :
    (content : StringRef) {digits rest : StringRef}
    → braced_digits content ≡ some (digits, rest)
    → size rest ≤ size content
unfolding braced_digits
braced_digits-le content {digits} {rest} h =
    elim (Option-cases (consume_front (b'{' ∷ []) content)) [
      | inl e ↦ absurd (cc (rw (e, braced_digits) at h))
      | inr (inner, e) ↦
          let n = length (take_hex_digits inner.bytes) in
          elim (Option-cases (consume_front (b'}' ∷ []) (drop_front n inner))) [
            | inl e' ↦ absurd (cc (rw (e, e', braced_digits) at h))
            | inr (after, e') ↦
                let a = consume_front-le (b'{' ∷ []) content e in
                let b = consume_front-le (b'}' ∷ []) (drop_front n inner) e' in
                let d = drop_front-le n inner in
                ground (arith, rw (e, e', braced_digits) at h, a, b, d)
          ]
    ]

unicode_case-le :
    (api : UnicodeApi) (content : StringRef) {e : Expanded}
    → unicode_case api content ≡ some e
    → size e.content ≤ size content
unfolding unicode_case
unicode_case-le api content h = elim (Option-cases (braced_digits content)) [
  | inl none_there ↦ ground (arith, rw (none_there, unicode_case) at h)
  | inr ((digits, rest), there) ↦
      let le = braced_digits-le content there in
      elim (Option-cases (expand_unicode_escape_sequence api digits)) [
        | inl failed ↦ absurd (cc (rw (there, failed, unicode_case) at h))
        | inr ((none, more), units) ↦ ground (arith, rw (there, units, unicode_case) at h)
        | inr ((some bytes, more), units) ↦ ground (arith, le, rw (there, units, unicode_case) at h)
      ]
]

escape_case-le :
    (api : UnicodeApi) (first : ℕ) (content : StringRef) {e : Expanded}
    → escape_case api first content ≡ some e
    → size e.content ≤ size content
unfolding escape_case
escape_case-le api first content {e} h =
    ground (arith, hex_case-le api content, unicode_case-le api content {e = e})

consume_escape-le :
    (api : UnicodeApi) (content : StringRef) (bytes : Bytes) {e : Expanded}
    → consume_escape api content bytes ≡ some e
    → size e.content ≤ size content
unfolding consume_escape
consume_escape-le api content [] h = absurd (cc)
consume_escape-le api content (c ∷ cs) h =
    omega (arith, escape_case-le api c (drop_front 1 content) h, drop_front-le 1 content)

pub expand_and_consume_escape_sequence-le :
    (api : UnicodeApi) (content : StringRef) {e : Expanded}
    → expand_and_consume_escape_sequence api content ≡ some e
    → size e.content ≤ size content
unfolding expand_and_consume_escape_sequence
expand_and_consume_escape_sequence-le api content {e} h =
    consume_escape-le api content content.bytes h
