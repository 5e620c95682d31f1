-- ===== src/Rag/Scope/Hints.antt =====
-- backend/app/rag/scope.py: what a hint of a plan matches.
use etoeragcb.Base.{
  ℕ, max, Bool, true, false, ◌&&◌, ◌||◌, none, some, List, [], ◌∷◌, ◌++◌, map, ltb, nat_eq,
  nat_keys, if◌then◌else◌,
}
use etoeragcb.Base.Text.{Text, codes, text_eq, text_leb, starts_with, uuid_text}
use etoeragcb.Base.Sort.{sort_by}
use etoeragcb.Base.Counter.{contains, add_all}
use etoeragcb.Base.Table.{select_where}
use etoeragcb.Ingest.Tables.{Stored, BuiltSection}
use etoeragcb.Rag.Scope.{
  ResolutionKind, exact_scope, ambiguous_boost, fuzzy_boost, no_match, KnowledgeCollection,
  ScopeCalls, ActiveDocument, fuzzy_hint_minimum,
}

-- A set of identifiers that a comprehension gives.
unfoldable pub set_of : List ℕ → List ℕ
unfolding add_all
set_of ids = add_all [] ids

abbrev pub is_none : List ℕ → Bool
is_none [] = true
is_none (x ∷ xs) = false

-- `_sorted_uuids`.
unfoldable pub sorted_uuids : List ℕ → List ℕ
unfolding sort_by text_leb uuid_text
sorted_uuids ids = sort_by (λ a b. text_leb (uuid_text a) (uuid_text b)) ids

-- `any(candidates)`.
unfoldable pub any_text : List Text → Bool
any_text [] = false
any_text ([] ∷ texts) = any_text texts
any_text ((c ∷ text) ∷ texts) = true

unfoldable pub best_score : List (ℕ × ℕ) → ℕ
best_score [] = 0
best_score ((id, score) ∷ scores) = max score (best_score scores)

unfoldable pub with_score : ℕ → List (ℕ × ℕ) → List ℕ
with_score best [] = []
with_score best ((id, score) ∷ scores) =
    let rest = with_score best scores in if nat_eq score best then id ∷ rest else rest

-- `path_exact or heading_exact`.
unfoldable pub or_else : List ℕ → List ℕ → List ℕ
or_else [] others = others
or_else (id ∷ ids) others = id ∷ ids

module _ (calls : ScopeCalls) where
  unfoldable pub best_ratio : Text → List Text → ℕ
  best_ratio hint [] = 0
  best_ratio hint (text ∷ texts) = max (calls.ratio hint text) (best_ratio hint texts)

  -- `scores`.
  unfoldable pub scores_of : Text → List (ℕ × List Text) → List (ℕ × ℕ)
  unfolding any_text best_ratio
  scores_of hint [] = []
  scores_of hint ((id, texts) ∷ values) =
      let rest = scores_of hint values in
      if any_text texts then (id, best_ratio hint texts) ∷ rest else rest

  -- `_fuzzy_matches`.
  unfoldable pub fuzzy_matches : Text → List (ℕ × List Text) → List ℕ
  unfolding scores_of best_score with_score fuzzy_hint_minimum set_of
  fuzzy_matches [] values = []
  fuzzy_matches (c ∷ hint) values =
      let scores = scores_of (c ∷ hint) values in
      if ltb (best_score scores) fuzzy_hint_minimum
      then []
      else set_of (with_score (best_score scores) scores)

  -- The end of the three functions: what is matched exactly goes before what is matched by likeness.
  unfoldable pub or_fuzzy : List ℕ → Text → List (ℕ × List Text) → List ℕ × ResolutionKind
  unfolding fuzzy_matches
  or_fuzzy (id ∷ []) normalized values = (id ∷ [], exact_scope)
  or_fuzzy (id ∷ other ∷ ids) normalized values = (id ∷ other ∷ ids, ambiguous_boost)
  or_fuzzy [] normalized values =
      let fuzzy = fuzzy_matches normalized values in
      if is_none fuzzy then ([], no_match) else (fuzzy, fuzzy_boost)

  -- `identifier is not None and identifier in ids`, or what is found by the text.
  unfoldable pub by_identifier : Text → List ℕ → List ℕ × ResolutionKind → List ℕ × ResolutionKind
  unfolding contains
  by_identifier hint ids otherwise = elim (calls.uuid_or_none hint) [
    | none ↦ otherwise
    | some id ↦ if contains id ids then (id ∷ [], exact_scope) else otherwise
  ]

  unfoldable pub document_names : ActiveDocument → List Text
  document_names d =
      calls.normalize_lexical d.title ∷ calls.normalize_lexical d.source_filename ∷ []

  unfoldable pub is_named : Text → ActiveDocument → Bool
  unfolding text_eq
  is_named normalized d =
      text_eq normalized (calls.normalize_lexical d.title)
      || text_eq normalized (calls.normalize_lexical d.source_filename)

  -- `_resolve_document_hint`.
  unfoldable pub resolve_document_hint : Text → List ActiveDocument → List ℕ × ResolutionKind
  unfolding select_where set_of or_fuzzy by_identifier is_named document_names
  resolve_document_hint hint allowed =
      let normalized = calls.normalize_lexical hint in
      by_identifier hint (map (λ d. d.document_id) allowed) (
        or_fuzzy (set_of (map (λ d. d.document_id) (select_where (is_named normalized) allowed)))
          normalized (map (λ d. (d.document_id, document_names d)) allowed))

  -- `_resolve_collection_hint`.
  unfoldable pub resolve_collection_hint : Text → List KnowledgeCollection → List ℕ × ResolutionKind
  unfolding select_where set_of or_fuzzy by_identifier text_eq
  resolve_collection_hint hint collections =
      let normalized = calls.normalize_lexical hint in
      by_identifier hint (map (λ c. c.id) collections) (
        or_fuzzy
          (set_of (
            map (λ c. c.id)
              (select_where (λ c. text_eq (calls.normalize_lexical c.name) normalized)
                collections)))
          normalized (map (λ c. (c.id, calls.normalize_lexical c.name ∷ [])) collections))

  -- `_resolve_heading_hint`.
  unfoldable pub resolve_heading_hint : Text → List (Stored BuiltSection) → List ℕ × ResolutionKind
  unfolding select_where set_of or_fuzzy by_identifier text_eq or_else
  resolve_heading_hint hint sections =
      let normalized = calls.normalize_lexical hint in
      let path_exact = set_of (
        map (λ x. x.row.id) (select_where (λ x. text_eq x.row.path_lexical normalized) sections)) in
      let heading_exact = set_of (
        map (λ x. x.row.id)
          (select_where (λ x. text_eq x.row.heading_lexical normalized) sections)) in
      by_identifier hint (map (λ x. x.row.id) sections) (
        or_fuzzy (or_else path_exact heading_exact) normalized
          (map (λ x. (x.row.id, x.row.heading_lexical ∷ x.row.path_lexical ∷ [])) sections))

-- A section of the root's version with the root's path, or with a path below it.
unfoldable pub is_below : Stored BuiltSection → Stored BuiltSection → Bool
unfolding text_eq starts_with
is_below root x =
    nat_eq x.document_version_id root.document_version_id
    && (text_eq x.row.path_lexical root.row.path_lexical
        || starts_with x.row.path_lexical (root.row.path_lexical ++ codes " / "))

unfoldable pub expand_roots : List (Stored BuiltSection) → List (Stored BuiltSection) → List ℕ
unfolding select_where is_below
expand_roots [] sections = []
expand_roots (root ∷ roots) sections =
    map (λ x. x.row.id) (select_where (is_below root) sections) ++ expand_roots roots sections

-- `_expand_section_descendants`.
unfoldable pub expand_section_descendants : List ℕ → List (Stored BuiltSection) → List ℕ
unfolding expand_roots set_of contains select_where
expand_section_descendants roots sections =
    set_of (expand_roots (select_where (λ x. contains x.row.id roots) sections) sections)
