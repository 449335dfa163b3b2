-- ===== src/Compiler/Routes/Paths.antt =====
-- pkg/server/pathparams.go: which names ExtractRouteParamNames finds in a path.
use glyphlang.Prelude.{
  ℕ, zero, suc, ◌≤◌, ◌≡◌, ◌≢◌, refl, false, List, [], ◌∷◌, ◌++◌, ◌==◌, arith, length, length-append,
  Bool-cases, inl, inr,
}
use glyphlang.Prelude.Maps.{Str}
use glyphlang.Compiler.Routes.{param_name, param_names_from, extract_route_param_names}

-- A part of a path, behind its slash: a text, or a parameter behind a colon.
pub data Segment : Type 0 where
  text param : Str → Segment

-- The characters are other than `c`.
abbrev pub Without : ℕ → Str → Type 0
Without c [] = Unit {0}
Without c (x ∷ xs) = (x ≢ c) × Without c xs

-- A text has no colon; a parameter has a name, without a slash.
abbrev pub IsSegment : Segment → Type 0
IsSegment (text t) = Without 0x3a t
IsSegment (param []) = ⊥
IsSegment (param (x ∷ name)) = Without 0x2f (x ∷ name)

abbrev pub AllSegments : List Segment → Type 0
AllSegments [] = Unit {0}
AllSegments (s ∷ ss) = IsSegment s × AllSegments ss

abbrev pub path_of : List Segment → Str
path_of [] = []
path_of (text t ∷ ss) = 0x2f ∷ (t ++ path_of ss)
path_of (param name ∷ ss) = 0x2f ∷ 0x3a ∷ (name ++ path_of ss)

abbrev pub names_of : List Segment → List Str
names_of [] = []
names_of (text t ∷ ss) = names_of ss
names_of (param name ∷ ss) = name ∷ names_of ss

param_name-append :
    (name : Str) (ss : List Segment)
    → Without 0x2f name
    → param_name (name ++ path_of ss) ≡ (name, path_of ss)
unfolding param_name
param_name-append [] [] w = refl
param_name-append [] (text t ∷ ss) w = refl
param_name-append [] (param n ∷ ss) w = refl
param_name-append (x ∷ name) ss (other, w) = elim (Bool-cases (x == 0x2f)) [
  | inl e ↦ absurd (other (ground arith))
  | inr e ↦ rw (e, param_name-append name ss w) refl
]

-- The names are found with any fuel that the path needs.
Finds : Str → List Str → Type 0
Finds path names = (fuel : ℕ) → length path ≤ fuel → param_names_from fuel path ≡ names

text-Finds :
    (t path : Str) (names : List Str) → Without 0x3a t → Finds path names → Finds (t ++ path) names
unfolding Finds param_names_from
text-Finds [] path names w found fuel fits = found fuel fits
text-Finds (x ∷ t) path names (other, w) found zero fits = absurd (omega arith)
text-Finds (x ∷ t) path names (other, w) found (suc fuel) fits = elim (Bool-cases (x == 0x3a)) [
  | inl e ↦ absurd (other (ground arith))
  | inr e ↦ rw (e, param_names_from) (text-Finds t path names w found fuel (omega arith))
]

slash : ◌≢◌ {A = ℕ} 0x2f 0x3a
slash = λ e. cc

nothing-Finds : Finds [] []
unfolding Finds param_names_from
nothing-Finds zero fits = refl
nothing-Finds (suc fuel) fits = refl

some_name : (n : ℕ) → (suc n == 0) ≡ false
some_name n = ground arith

param-Finds :
    (x : ℕ) (name : Str) (ss : List Segment) (names : List Str)
    → Without 0x2f (x ∷ name)
    → Finds (path_of ss) names
    → Finds (0x3a ∷ (x ∷ name ++ path_of ss)) ((x ∷ name) ∷ names)
unfolding Finds param_names_from
param-Finds x name ss names w found zero fits = absurd (omega arith)
param-Finds x name ss names w found (suc fuel) fits =
    let longer = length-append {0} name (path_of ss) in
    rw (param_name-append (x ∷ name) ss w, found fuel (omega arith), some_name (length name)) refl

path_of-Finds : (ss : List Segment) → AllSegments ss → Finds (path_of ss) (names_of ss)
path_of-Finds [] all = nothing-Finds
path_of-Finds (text t ∷ ss) (one, all) =
    text-Finds (0x2f ∷ t) (path_of ss) (names_of ss) (slash, one) (path_of-Finds ss all)
path_of-Finds (param [] ∷ ss) (one, all) = elim one [ ]
path_of-Finds (param (x ∷ name) ∷ ss) (one, all) =
    text-Finds (0x2f ∷ []) (0x3a ∷ (x ∷ name ++ path_of ss)) ((x ∷ name) ∷ names_of ss) (slash, tt)
      (param-Finds x name ss (names_of ss) one (path_of-Finds ss all))

-- A path that is made of segments, each behind a slash, of which a text has no colon and a parameter
-- a name without a slash: the names that are found are those of the parameters, in their order.
pub extract_route_param_names-path_of :
    (ss : List Segment) → AllSegments ss → extract_route_param_names (path_of ss) ≡ names_of ss
unfolding extract_route_param_names Finds
extract_route_param_names-path_of ss all = path_of-Finds ss all (length (path_of ss)) (omega arith)
