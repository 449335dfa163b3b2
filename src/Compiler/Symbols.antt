-- ===== src/Compiler/Symbols.antt =====
-- pkg/compiler/symbols.go: symbol tables. A table is the chain of its scopes, innermost first, so
-- that the parent of a table is its tail; a scope is a kind and a map.
pub mod Laws
use glyphlang.Prelude.{ℕ, Bool, true, false, List, [], ◌∷◌, Option, some, none}
use glyphlang.Prelude.Maps.{Str, lookup, insert}

pub data SymbolScope : Type 0 where
  global_scope route_scope function_scope block_scope : SymbolScope

pub record Symbol : Type 0 where
  pub name : Str
  pub scope : SymbolScope
  pub index : ℕ
  pub is_defined : Bool
  pub constant_idx : ℕ
  pub is_constant : Bool
  pub is_builtin : Bool

pub record Scope : Type 0 where
  pub symbols : List (Str × Symbol)
  pub kind : SymbolScope

pub record SymbolTable : Type 0 where
  pub current : Scope
  pub parents : List Scope

abbrev pub empty_scope : SymbolScope → Scope
empty_scope kind = record { symbols = []; kind = kind }

-- NewGlobalSymbolTable
unfoldable pub new_global : SymbolTable
new_global = record { current = empty_scope global_scope; parents = [] }

abbrev pub plain_symbol : Str → SymbolScope → ℕ → Symbol
plain_symbol name scope index = record {
  name = name;
  scope = scope;
  index = index;
  is_defined = true;
  constant_idx = 0;
  is_constant = false;
  is_builtin = false;
}

-- st.symbols[name] = symbol
unfoldable pub put_symbol : Symbol → SymbolTable → SymbolTable
put_symbol s st = record st {
  current = record { symbols = insert s.name s st.current.symbols; kind = st.current.kind };
}

-- Define
unfoldable pub define : Str → ℕ → SymbolTable → SymbolTable
define name index st = put_symbol (plain_symbol name st.current.kind index) st

-- DefineBuiltin
unfoldable pub define_builtin : Str → ℕ → SymbolTable → SymbolTable
define_builtin name index st =
    let s = plain_symbol name st.current.kind index in
    put_symbol (record s { is_builtin = true }) st

-- DefineConstant
unfoldable pub define_constant : Str → ℕ → ℕ → SymbolTable → SymbolTable
define_constant name index value st =
    let s = plain_symbol name st.current.kind index in
    put_symbol (record s { constant_idx = value; is_constant = true }) st

unfoldable pub or_else : Option Symbol → Option Symbol → Option Symbol
or_else (some s) other = some s
or_else none other = other

unfoldable pub resolve_in : Str → List Scope → Option Symbol
unfolding or_else
resolve_in name [] = none
resolve_in name (scope ∷ parents) = or_else (lookup name scope.symbols) (resolve_in name parents)

-- Resolve
unfoldable pub resolve : Str → SymbolTable → Option Symbol
resolve name st = resolve_in name (st.current ∷ st.parents)

-- ResolveLocal
unfoldable pub resolve_local : Str → SymbolTable → Option Symbol
resolve_local name st = lookup name st.current.symbols

-- EnterScope
unfoldable pub enter_scope : SymbolScope → SymbolTable → SymbolTable
enter_scope kind st = record { current = empty_scope kind; parents = st.current ∷ st.parents }

table_of : List Scope → Option SymbolTable
table_of [] = none
table_of (scope ∷ parents) = some (record { current = scope; parents = parents })

-- Parent; `none` is nil.
unfoldable pub parent : SymbolTable → Option SymbolTable
unfolding table_of
parent st = table_of st.parents
