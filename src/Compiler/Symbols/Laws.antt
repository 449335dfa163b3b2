-- ===== src/Compiler/Symbols/Laws.antt =====
-- What the scopes of a symbol table promise: shadowing, and the end of a scope.
use glyphlang.Prelude.{ℕ, ◌≡◌, refl, some, if◌then◌else◌, arith}
use glyphlang.Prelude.Maps.{Str, str_eq, lookup, lookup-insert}
use glyphlang.Compiler.Symbols.{
  SymbolScope, Symbol, SymbolTable, plain_symbol, put_symbol, define, resolve, resolve_in,
  enter_scope,
}

pub resolve-put_symbol :
    (s : Symbol) (j : Str) (st : SymbolTable)
    → resolve j (put_symbol s st) ≡ (if str_eq s.name j then some s else resolve j st)
unfolding resolve resolve_in put_symbol
resolve-put_symbol s j st = ground (arith, lookup-insert s.name j s st.current.symbols)

-- A definition is found under its name, with the index that was given, and hides what an outer
-- scope has under that name; every other name resolves as before.
pub resolve-define :
    (name j : Str) (index : ℕ) (st : SymbolTable)
    → resolve j (define name index st)
      ≡ (if str_eq name j then some (plain_symbol name st.current.kind index) else resolve j st)
unfolding define
resolve-define name j index st = resolve-put_symbol (plain_symbol name st.current.kind index) j st

-- A new scope sees all that is outside.
pub resolve-enter_scope :
    (kind : SymbolScope) (j : Str) (st : SymbolTable)
    → resolve j (enter_scope kind st) ≡ resolve j st
unfolding resolve resolve_in enter_scope lookup
resolve-enter_scope kind j st = refl
