-- ===== src/Parse/Handle.antt =====
-- The handlers of the parser's states, lib/Parse/Handle*.cc. A handler returns the context that it
-- leaves; `none` is a failed check.
pub mod CodeBlock
pub mod Statement
pub mod Declaration
pub mod Binding
pub mod Brackets
pub mod Expression
pub mod Names
pub mod Types
pub mod Parameters
pub mod Braces
pub mod Package
pub mod Dispatch
pub mod Room
use cocktail_lang.Prelude.{ℕ, ◌+◌, Bool, true, false, Option, none, some, List, if◌then◌else◌}
use cocktail_lang.Lex.TokenKind.{TokenKind}
use cocktail_lang.Parse.State.{State}
use cocktail_lang.Parse.Context.{Context, StateStackEntry, pop_state}
use cocktail_lang.Parse.Context.Skip.{find_next_of, skip_to}

infixl 5 ◌>>=◌
abbrev pub ◌>>=◌ {ℓ κ} : {A : Type ℓ} {B : Type κ} → Option A → (A → Option B) → Option B
none >>= f = none
some a >>= f = f a

-- `PopAndDiscardState`
unfoldable pub pop_and_discard_state : Context → Option Context
unfolding pop_state
pop_and_discard_state c = do (state, c') ← pop_state c; some c'

-- `++context.position()`
abbrev pub advance : Context → Context
advance c = record c { position = c.position + 1 }

abbrev pub with_state : StateStackEntry → State → StateStackEntry
with_state entry state = record entry { state = state }

abbrev pub with_error : StateStackEntry → StateStackEntry
with_error entry = record entry { has_error = true }

abbrev pub with_token : StateStackEntry → ℕ → StateStackEntry
with_token entry token = record entry { token = token }

-- The token that was found, or another.
abbrev pub token_or : Option ℕ → ℕ → ℕ
token_or none token = token
token_or (some found) token = found

abbrev pub skip_to_found : Option ℕ → Context → Option Context
skip_to_found none c = some c
skip_to_found (some token) c = skip_to token c

-- On to the next token of one of the kinds at the level, if there is one.
unfoldable pub skip_to_next_of : List TokenKind → Context → Option Context
unfolding find_next_of skip_to
skip_to_next_of kinds c = do found ← find_next_of kinds c; skip_to_found found c
