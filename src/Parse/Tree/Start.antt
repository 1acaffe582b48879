-- ===== src/Parse/Tree/Start.antt =====
-- `Tree::Parse` on the buffers of the lexer.
use cocktail_lang.Prelude.{
  ◌-◌, ◌≡◌, refl, false, not, ◌&&◌, none, Bytes, ◌==◌, Bool-cases, inl, inr,
}
use cocktail_lang.Common.ApInt.{ApIntApi}
use cocktail_lang.Common.Unicode.{UnicodeApi}
use cocktail_lang.Lex.TokenKind.{start_of_file, end_of_file}
use cocktail_lang.Lex.TokenKind.Index.{kind_eq}
use cocktail_lang.Lex.TokenizedBuffer.{TokenizedBuffer, get_kind, token_count}
use cocktail_lang.Lex.Lexer.{Lexer}
use cocktail_lang.Lex.Lexer.Run.{lexed, lex, buffer_of}
use cocktail_lang.Lex.Lexer.Balanced.{lex-IsLexedBuffer}
use cocktail_lang.Parse.Context.{new_context}
use cocktail_lang.Parse.Tree.{parse_start}

-- The first check of `Tree::Parse` fails where the buffer does not begin with the start of the file.
parse_start-none :
    (b : TokenizedBuffer) → kind_eq (get_kind b 0) start_of_file ≡ false → parse_start b ≡ none
unfolding parse_start new_context
parse_start-none b h =
    elim (Bool-cases
      (not (token_count b == 0) && kind_eq (get_kind b (token_count b - 1)) end_of_file)) [
        | inl e ↦ rw (e, parse_start, h) refl
        | inr e ↦ rw (e, parse_start) refl
      ]

-- On every buffer that lexing leaves, `Tree::Parse` fails its first check: no token is the start of
-- the file, which it consumes first.
pub lex-parse_start :
    (api : ApIntApi) (unicode : UnicodeApi) (text : Bytes) {x : Lexer (api.ApInt)}
    → lex api unicode text ≡ lexed x
    → parse_start (buffer_of x) ≡ none
lex-parse_start api unicode text {x} e =
    let w = lex-IsLexedBuffer api unicode text e in
    parse_start-none (buffer_of x) (w.groups.no_start 0 (w.nonempty))
