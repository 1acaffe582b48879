-- ===== src/Parse/Context/Lexed.antt =====
-- The parser's searches rely on what the lexer promises.
use cocktail_lang.Prelude.{◌-◌, ◌≡◌, ◌≢◌, sym, ◌∙◌, ap, true, false, Bytes, length, arith, refl}
use cocktail_lang.Common.ApInt.{ApIntApi}
use cocktail_lang.Common.Unicode.{UnicodeApi}
use cocktail_lang.Lex.TokenKind.{end_of_file}
use cocktail_lang.Lex.TokenKind.Index.{kind_eq}
use cocktail_lang.Lex.TokenKind.Kinds.{kind_eq_refl, closing_symbol_lem}
use cocktail_lang.Lex.TokenKind.Tables.{is_closing_symbol}
use cocktail_lang.Lex.TokenizedBuffer.{TokenizedBuffer}
use cocktail_lang.Lex.Lexer.{Lexer}
use cocktail_lang.Lex.Lexer.Run.{lexed, lex, buffer_of}
use cocktail_lang.Lex.Lexer.Groups.{is_held, kind_at, payload_at}
use cocktail_lang.Lex.Lexer.Balanced.{IsLexedBuffer, lex-IsLexedBuffer}
use cocktail_lang.Parse.Context.Search.{IsBalanced}

end_of_file-not_closing : is_closing_symbol end_of_file ≡ false
unfolding is_closing_symbol
end_of_file-not_closing = refl

IsLexedBuffer-IsBalanced : (b : TokenizedBuffer) → IsLexedBuffer b.token_infos → IsBalanced b
unfolding is_held
IsLexedBuffer-IsBalanced b w = record {
  nonempty = w.nonempty;
  last = ap (λ k. kind_eq k end_of_file) (w.last) ∙ kind_eq_refl end_of_file;
  matched = λ i h o.
      let ts = b.token_infos in
      let m = w.groups.opened i h o refl in
      let closes = ap is_closing_symbol (m.closing) ∙ (closing_symbol_lem (kind_at ts i) o).0 in
      let inner : payload_at ts i ≢ length ts - 1 = λ e.
        let at_end : is_closing_symbol (kind_at ts (length ts - 1)) ≡ true = rw (sym e) closes in
        ground (arith, at_end, ap is_closing_symbol (w.last), end_of_file-not_closing) in
      (m.later, omega (arith, m.in_list, inner));
}

-- The buffer that lexing leaves is balanced, as the searches of the parser need it: there is a last
-- token, which is the end of the file, and each opening symbol refers to a later token before it.
pub lex-IsBalanced :
    (api : ApIntApi) (unicode : UnicodeApi) (text : Bytes) {x : Lexer (api.ApInt)}
    → lex api unicode text ≡ lexed x
    → IsBalanced (buffer_of x)
lex-IsBalanced api unicode text e =
    IsLexedBuffer-IsBalanced _ (lex-IsLexedBuffer api unicode text e)
