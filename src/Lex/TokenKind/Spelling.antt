-- ===== src/Lex/TokenKind/Spelling.antt =====
-- lib/Lex/TokenKind.cc: the spellings of the tokens, and how many parse nodes are expected for each.
use Prim.Native.Char.{code}
use Prim.Native.String.{String}
use cocktail_lang.Prelude.{ℕ, List, [], ◌∷◌, Bytes}
use cocktail_lang.Lex.TokenKind.{
  TokenKind, greater_greater_equal, less_equal_greater, less_less_equal, amp_equal, caret_equal,
  colon_equal, colon_exclaim, equal_equal, equal_greater, exclaim_equal, greater_equal,
  greater_greater, less_equal, less_greater, less_less, less_minus, minus_equal, minus_greater,
  minus_minus, percent_equal, pipe_equal, plus_equal, plus_plus, slash_equal, star_equal,
  tilde_equal, amp, at, backslash, caret, colon, equal, exclaim, greater, less, minus, percent,
  period, pipe, plus, question, slash, star, tilde, comma, semi, open_paren, open_curly_brace,
  open_square_bracket, close_paren, close_curly_brace, close_square_bracket, abstract, adapt, addr,
  alias, and, api, as_keyword, auto, base, bool, break, case, choice, class, const, constraint,
  continue, default, destructor, else_keyword, extend, false_keyword, final, fn, for_keyword,
  forall, friend, if_keyword, impl, impls, import, in_keyword, interface, let_keyword, library,
  like, match, namespace, not_keyword, observe, or, override, package_keyword, partial, private,
  protected, require, return, returned, self_type_identifier, self_value_identifier,
  string_type_literal, template, then_keyword, true_keyword, type, underscore, var, virtual,
  where_keyword, while,
}

-- The bytes of an ASCII text.
abbrev pub codes : String → Bytes
codes String.[] = []
codes (String.◌∷◌ c s) = code c ∷ codes s

-- `FixedSpelling`
unfoldable pub fixed_spelling : TokenKind → Bytes
fixed_spelling greater_greater_equal = codes ">>="
fixed_spelling less_equal_greater = codes "<=>"
fixed_spelling less_less_equal = codes "<<="
fixed_spelling amp_equal = codes "&="
fixed_spelling caret_equal = codes "^="
fixed_spelling colon_equal = codes ":="
fixed_spelling colon_exclaim = codes ":!"
fixed_spelling equal_equal = codes "=="
fixed_spelling equal_greater = codes "=>"
fixed_spelling exclaim_equal = codes "!="
fixed_spelling greater_equal = codes ">="
fixed_spelling greater_greater = codes ">>"
fixed_spelling less_equal = codes "<="
fixed_spelling less_greater = codes "<>"
fixed_spelling less_less = codes "<<"
fixed_spelling less_minus = codes "<-"
fixed_spelling minus_equal = codes "-="
fixed_spelling minus_greater = codes "->"
fixed_spelling minus_minus = codes "--"
fixed_spelling percent_equal = codes "%="
fixed_spelling pipe_equal = codes "|="
fixed_spelling plus_equal = codes "+="
fixed_spelling plus_plus = codes "++"
fixed_spelling slash_equal = codes "/="
fixed_spelling star_equal = codes "*="
fixed_spelling tilde_equal = codes "~="
fixed_spelling amp = codes "&"
fixed_spelling at = codes "@"
fixed_spelling backslash = codes "\\"
fixed_spelling caret = codes "^"
fixed_spelling colon = codes ":"
fixed_spelling equal = codes "="
fixed_spelling exclaim = codes "!"
fixed_spelling greater = codes ">"
fixed_spelling less = codes "<"
fixed_spelling minus = codes "-"
fixed_spelling percent = codes "%"
fixed_spelling period = codes "."
fixed_spelling pipe = codes "|"
fixed_spelling plus = codes "+"
fixed_spelling question = codes "?"
fixed_spelling slash = codes "/"
fixed_spelling star = codes "*"
fixed_spelling tilde = codes "~"
fixed_spelling comma = codes ","
fixed_spelling semi = codes ";"
fixed_spelling open_paren = codes "("
fixed_spelling open_curly_brace = codes "{"
fixed_spelling open_square_bracket = codes "["
fixed_spelling close_paren = codes ")"
fixed_spelling close_curly_brace = codes "}"
fixed_spelling close_square_bracket = codes "]"
fixed_spelling abstract = codes "abstract"
fixed_spelling adapt = codes "adapt"
fixed_spelling addr = codes "addr"
fixed_spelling alias = codes "alias"
fixed_spelling and = codes "and"
fixed_spelling api = codes "api"
fixed_spelling as_keyword = codes "as"
fixed_spelling auto = codes "auto"
fixed_spelling base = codes "base"
fixed_spelling bool = codes "bool"
fixed_spelling break = codes "break"
fixed_spelling case = codes "case"
fixed_spelling choice = codes "choice"
fixed_spelling class = codes "class"
fixed_spelling const = codes "const"
fixed_spelling constraint = codes "constraint"
fixed_spelling continue = codes "continue"
fixed_spelling default = codes "default"
fixed_spelling destructor = codes "destructor"
fixed_spelling else_keyword = codes "else"
fixed_spelling extend = codes "extend"
fixed_spelling false_keyword = codes "false"
fixed_spelling final = codes "final"
fixed_spelling fn = codes "fn"
fixed_spelling for_keyword = codes "for"
fixed_spelling forall = codes "forall"
fixed_spelling friend = codes "friend"
fixed_spelling if_keyword = codes "if"
fixed_spelling impl = codes "impl"
fixed_spelling impls = codes "impls"
fixed_spelling import = codes "import"
fixed_spelling in_keyword = codes "in"
fixed_spelling interface = codes "interface"
fixed_spelling let_keyword = codes "let"
fixed_spelling library = codes "library"
fixed_spelling like = codes "like"
fixed_spelling match = codes "match"
fixed_spelling namespace = codes "namespace"
fixed_spelling not_keyword = codes "not"
fixed_spelling observe = codes "observe"
fixed_spelling or = codes "or"
fixed_spelling override = codes "override"
fixed_spelling package_keyword = codes "package"
fixed_spelling partial = codes "partial"
fixed_spelling private = codes "private"
fixed_spelling protected = codes "protected"
fixed_spelling require = codes "require"
fixed_spelling return = codes "return"
fixed_spelling returned = codes "returned"
fixed_spelling self_type_identifier = codes "Self"
fixed_spelling self_value_identifier = codes "self"
fixed_spelling string_type_literal = codes "String"
fixed_spelling template = codes "template"
fixed_spelling then_keyword = codes "then"
fixed_spelling true_keyword = codes "true"
fixed_spelling type = codes "type"
fixed_spelling underscore = codes "_"
fixed_spelling var = codes "var"
fixed_spelling virtual = codes "virtual"
fixed_spelling where_keyword = codes "where"
fixed_spelling while = codes "while"
fixed_spelling _ = []

-- The symbols, in the order of TokenKind.def.
abbrev pub symbol_tokens : List TokenKind
symbol_tokens =
    greater_greater_equal ∷ less_equal_greater ∷ less_less_equal ∷ amp_equal ∷ caret_equal
    ∷ colon_equal ∷ colon_exclaim ∷ equal_equal ∷ equal_greater ∷ exclaim_equal ∷ greater_equal
    ∷ greater_greater ∷ less_equal ∷ less_greater ∷ less_less ∷ less_minus ∷ minus_equal
    ∷ minus_greater ∷ minus_minus ∷ percent_equal ∷ pipe_equal ∷ plus_equal ∷ plus_plus
    ∷ slash_equal ∷ star_equal ∷ tilde_equal ∷ amp ∷ at ∷ backslash ∷ caret ∷ colon ∷ equal
    ∷ exclaim ∷ greater ∷ less ∷ minus ∷ percent ∷ period ∷ pipe ∷ plus ∷ question ∷ slash ∷ star
    ∷ tilde ∷ comma ∷ semi ∷ open_paren ∷ open_curly_brace ∷ open_square_bracket ∷ close_paren
    ∷ close_curly_brace ∷ close_square_bracket ∷ []

-- The keywords, in the order of TokenKind.def.
abbrev pub keyword_tokens : List TokenKind
keyword_tokens =
    abstract ∷ adapt ∷ addr ∷ alias ∷ and ∷ api ∷ as_keyword ∷ auto ∷ base ∷ bool ∷ break ∷ case
    ∷ choice ∷ class ∷ const ∷ constraint ∷ continue ∷ default ∷ destructor ∷ else_keyword ∷ extend
    ∷ false_keyword ∷ final ∷ fn ∷ for_keyword ∷ forall ∷ friend ∷ if_keyword ∷ impl ∷ impls
    ∷ import ∷ in_keyword ∷ interface ∷ let_keyword ∷ library ∷ like ∷ match ∷ namespace
    ∷ not_keyword ∷ observe ∷ or ∷ override ∷ package_keyword ∷ partial ∷ private ∷ protected
    ∷ require ∷ return ∷ returned ∷ self_type_identifier ∷ self_value_identifier
    ∷ string_type_literal ∷ template ∷ then_keyword ∷ true_keyword ∷ type ∷ underscore ∷ var
    ∷ virtual ∷ where_keyword ∷ while ∷ []

-- `ExpectedParseTreeSize`: the tokens with a virtual node have one more.
unfoldable pub expected_parse_tree_size : TokenKind → ℕ
expected_parse_tree_size and = 2
expected_parse_tree_size or = 2
expected_parse_tree_size _ = 1
