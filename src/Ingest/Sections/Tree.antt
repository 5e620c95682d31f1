-- ===== src/Ingest/Sections/Tree.antt =====
-- The sections of a document are a tree whose parents come first.
use etoeragcb.Base.{
  ℕ, suc, ◌≡◌, refl, ap, sym, ◌∙◌, Option, none, some, List, [], ◌∷◌, ◌++◌, map, length, Bool-cases,
  inl, inr, All, Any,
}
use mathlib.Core.Option.{some-injective}
use etoeragcb.Base.Text.{Text}
use etoeragcb.Base.Dict.{get, set}
use etoeragcb.Ingest.Tables.{BuiltSection}
use etoeragcb.Ingest.Sections.{path_eq, path_keys, path_eq_iff}

-- A section without its texts and pages.
pub record Node : Type 0 where
  pub id : ℕ
  pub parent_id : Option ℕ
  pub ordinal : ℕ
  pub level : ℕ

abbrev pub node_of : BuiltSection → Node
node_of s = record { id = s.id; parent_id = s.parent_id; ordinal = s.ordinal; level = s.level }

-- Some node has an identifier and a level.
abbrev pub HasNode : ℕ → ℕ → List Node → Type 0
HasNode id level = Any (λ q. (q.id ≡ id) × (q.level ≡ level))

-- A parent on the level above, or none on the first level.
abbrev pub IsUnder : Option ℕ → ℕ → List Node → Type 0
IsUnder none level ns = level ≡ 1
IsUnder (some id) level ns = (above : ℕ) × (level ≡ suc above) × HasNode id above ns

-- A tree: each node is numbered by its place, and its parent is among those before it.
pub data IsTree : List Node → Type 0 where
  empty : (ns : List Node) → ns ≡ [] → IsTree ns
  grown :
      (ns more : List Node) (n : Node)
      → IsTree ns
      → n.ordinal ≡ length ns
      → IsUnder n.parent_id n.level ns
      → more ≡ ns ++ n ∷ []
      → IsTree more

abbrev pub Entries : Type 0
Entries = List (List Text × BuiltSection)

abbrev pub nodes : Entries → List Node
nodes d = map (λ p. node_of p.1) d

pub set_new :
    (path : List Text) (s : BuiltSection) (d : Entries)
    → get path d ≡ none
    → set path s d ≡ d ++ (path, s) ∷ []
unfolding get set
set_new path s [] h = refl
set_new path s ((q, x) ∷ d) h = elim (Bool-cases (path_eq q path)) [
  | inl e ↦ cc (rw e at h)
  | inr e ↦ rw e (ap (λ z. (q, x) ∷ z) (set_new path s d (rw e at h)))
]

pub nodes-set :
    (path : List Text) (s t : BuiltSection) (d : Entries)
    → get path d ≡ some s
    → node_of t ≡ node_of s
    → nodes (set path t d) ≡ nodes d
unfolding get set
nodes-set path s t [] h e = cc
nodes-set path s t ((q, x) ∷ d) h e = elim (Bool-cases (path_eq q path)) [
  | inl here ↦
      let same : x ≡ s = some-injective x s (rw here at h) in
      rw here (ap (λ z. z ∷ nodes d) (e ∙ ap node_of (sym same)))
  | inr there ↦ rw there (ap (λ z. node_of x ∷ z) (nodes-set path s t d (rw there at h) e))
]

pub get_node :
    (path : List Text) (s : BuiltSection) (d : Entries)
    → get path d ≡ some s
    → HasNode s.id s.level (nodes d)
unfolding get
get_node path s [] h = cc
get_node path s ((q, x) ∷ d) h = elim (Bool-cases (path_eq q path)) [
  | inl here ↦
      let same : x ≡ s = some-injective x s (rw here at h) in
      inl (ap (λ z. z.id) same, ap (λ z. z.level) same)
  | inr there ↦ inr (get_node path s d (rw there at h))
]

-- The level of a section is the length of its path.
abbrev pub AllLevels : Entries → Type 0
AllLevels d = All (λ p. p.1.level ≡ length p.0) d

pub level_of_path :
    (path : List Text) (s : BuiltSection) (d : Entries)
    → AllLevels d
    → get path d ≡ some s
    → s.level ≡ length path
unfolding get
level_of_path path s [] l h = cc
level_of_path path s ((q, x) ∷ d) (first, more) h = elim (Bool-cases (path_eq q path)) [
  | inl here ↦
      let same : x ≡ s = some-injective x s (rw here at h) in
      let equal : q ≡ path = (path_eq_iff q path).0 here in rw (sym same, sym equal) first
  | inr there ↦ level_of_path path s d more (rw there at h)
]

pub AllLevels-set :
    (path : List Text) (t : BuiltSection) (d : Entries)
    → AllLevels d
    → t.level ≡ length path
    → AllLevels (set path t d)
unfolding set
AllLevels-set path t [] l e = (e, tt)
AllLevels-set path t ((q, x) ∷ d) (first, more) e = elim (Bool-cases (path_eq q path)) [
  | inl here ↦ let equal : q ≡ path = (path_eq_iff q path).0 here in rw here ((rw equal e), more)
  | inr there ↦ rw there (first, AllLevels-set path t d more e)
]
