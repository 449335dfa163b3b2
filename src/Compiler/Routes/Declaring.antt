-- ===== src/Compiler/Routes/Declaring.antt =====
-- Names that are declared before a body is compiled have their constants.
use glyphlang.Prelude.{
  ◌≡◌, refl, ◌∙◌, ap, subst, Bool, true, false, List, [], ◌∷◌, some, get_elem?, Bool-cases, inl,
  inr,
}
use glyphlang.Prelude.Maps.{Str, str_eq, str_eq→eq, lookup, bytes_of}
use glyphlang.Vm.Value.{str, Host}
use glyphlang.Compiler.Symbols.{
  SymbolScope, Symbol, define, define_builtin, put_symbol, enter_scope, resolve, resolve_in,
  or_else, new_global, plain_symbol, route_scope,
}
use glyphlang.Compiler.Symbols.Laws.{resolve-put_symbol}
use glyphlang.Compiler.State.{Compiler, reset, add_constant}
use glyphlang.Compiler.State.Pool.{FloatEqLaw, Added, add_constant-Added, get_elem?-Extends}
use glyphlang.Compiler.Control.{declare}
use glyphlang.Compiler.Routes.{
  begin, declare_builtin, declare_all, begin_route, extract_route_param_names,
}
use glyphlang.Compiler.Correct.Emission.{IsReady}
use glyphlang.Compiler.Correct.Whole.{str-IsClean}

-- The state before the code of a body: no code yet, outside any loop, and every name has its
-- constant.
pub record IsEmpty (c : Compiler) : Type 0 where
  pub no_code : c.code ≡ []
  pub no_loop : c.loop_stack ≡ []
  pub ready : IsReady c

put_symbol-IsReady :
    (s : Symbol) (c : Compiler)
    → IsReady c
    → get_elem? c.constants s.index ≡ some (str s.name)
    → IsReady (record c { symbol_table = put_symbol s c.symbol_table })
put_symbol-IsReady s c ready found = record {
  names = λ j t h. elim (Bool-cases (str_eq s.name j)) [
    | inl same ↦
        let known : s ≡ t =
          let here : some s ≡ some t = rw (resolve-put_symbol s j c.symbol_table, same) at h in
          cc in
        subst (λ (k : Symbol). get_elem? c.constants k.index ≡ some (str j)) known
          (found ∙ ap (λ (n : Str). some (str n)) (str_eq→eq s.name j same))
    | inr other ↦ ready.names j t (rw (resolve-put_symbol s j c.symbol_table, other) at h)
  ];
  clean = ready.clean;
}

begin-IsEmpty : (kind : SymbolScope) → IsEmpty (begin kind)
unfolding begin reset enter_scope resolve resolve_in or_else lookup new_global
begin-IsEmpty kind = record {
  no_code = refl;
  no_loop = refl;
  ready = record { names = λ name s h. cc; clean = λ i v h. cc };
}

module _ (host : Host) (law : FloatEqLaw host) where
  -- A symbol for the constant that was added.
  put_added-IsEmpty :
      (s : Symbol) (c c' : Compiler)
      → IsEmpty c
      → add_constant host (str s.name) c ≡ (s.index, c')
      → IsEmpty (record c' { symbol_table = put_symbol s c'.symbol_table })
  put_added-IsEmpty s c c' empty e =
      let added =
        add_constant-Added host law (str s.name) c empty.ready.clean (str-IsClean s.name) in
      let added' : Added (str s.name) c s.index c' =
        subst (λ r. Added (str s.name) c r.0 r.1) e added in
      let ready : IsReady c' = record {
        names = λ name t h.
            get_elem?-Extends c.constants c'.constants t.index added'.grows
              (empty.ready.names name t (rw added'.table at h));
        clean = added'.clean;
      } in
      record {
        no_code = added'.code ∙ empty.no_code;
        no_loop = added'.loops ∙ empty.no_loop;
        ready = put_symbol-IsReady s c' ready added'.found;
      }

  declare-IsEmpty : (name : Str) (c : Compiler) → IsEmpty c → IsEmpty (declare host name c).1
  unfolding declare define
  declare-IsEmpty name c empty =
      let (i, c') = add_constant host (str name) c in
      put_added-IsEmpty (plain_symbol name c'.symbol_table.current.kind i) c c' empty refl

  declare_builtin-IsEmpty :
      (name : Str) (c : Compiler) → IsEmpty c → IsEmpty (declare_builtin host name c)
  unfolding declare_builtin define_builtin
  declare_builtin-IsEmpty name c empty =
      let (i, c') = add_constant host (str name) c in
      let s = plain_symbol name c'.symbol_table.current.kind i in
      put_added-IsEmpty (record s { is_builtin = true }) c c' empty refl

  declare_all-IsEmpty :
      (names : List Str) (c : Compiler) → IsEmpty c → IsEmpty (declare_all host names c)
  unfolding declare_all
  declare_all-IsEmpty [] c empty = empty
  declare_all-IsEmpty (name ∷ names) c empty =
      declare_all-IsEmpty names (declare host name c).1 (declare-IsEmpty name c empty)

  -- The state before the body, for names that are declared in a scope of the kind.
  pub named-IsEmpty :
      (kind : SymbolScope) (names : List Str) → IsEmpty (declare_all host names (begin kind))
  named-IsEmpty kind names = declare_all-IsEmpty names (begin kind) (begin-IsEmpty kind)

  requested-IsEmpty :
      (c : Compiler)
      → IsEmpty c
      → IsEmpty (
          declare_builtin host
            (bytes_of "ws")
            (declare_builtin host (bytes_of "input") (declare_builtin host (bytes_of "query") c)))
  requested-IsEmpty c empty = declare_builtin-IsEmpty (bytes_of "ws") _ (
      declare_builtin-IsEmpty (bytes_of "input") _
        (declare_builtin-IsEmpty (bytes_of "query") c empty))

  pub begin_route-IsEmpty :
      (path : Str) (injections : List Str) (has_auth : Bool)
      → IsEmpty (begin_route host path injections has_auth)
  unfolding begin_route
  begin_route-IsEmpty path injections true = declare_builtin-IsEmpty (bytes_of "auth") _ (
      requested-IsEmpty _ (
        declare_all-IsEmpty injections _
          (named-IsEmpty route_scope (extract_route_param_names path))))
  begin_route-IsEmpty path injections false = requested-IsEmpty _ (
      declare_all-IsEmpty injections _ (named-IsEmpty route_scope (extract_route_param_names path)))
