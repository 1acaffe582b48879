-- ===== src/Lex/LexHelpers.antt =====
-- lib/Lex/LexHelpers.cc: the limit on the length of a digit sequence.
use cocktail_lang.Prelude.{ℕ, Bool, true, false, List, [], ltb, if◌then◌else◌}
use cocktail_lang.Common.StringRef.{StringRef, size}
use cocktail_lang.Lex.Diagnostic.{Diagnostic, too_many_digits, emit}

abbrev pub digit_limit : ℕ
digit_limit = 1000

-- `CanLexInteger`, with what it emits.
unfoldable pub can_lex_integer : StringRef → Bool × List Diagnostic
can_lex_integer text =
    if ltb digit_limit (size text)
    then (false, emit text.begin (too_many_digits (size text) digit_limit))
    else (true, [])
