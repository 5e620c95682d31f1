-- ===== src/Rag/Scope/Resolve.antt =====
-- backend/app/rag/scope.py: `MetadataResolver.resolve`. `allowed_documents` is kept with the items of
-- `documents` that it names.
use etoeragcb.Base.{
  ℕ, Bool, true, false, ◌&&◌, not, Option, none, some, List, [], ◌∷◌, ◌++◌, map, length, nat_eq,
  nat_keys, if◌then◌else◌, ◌||◌,
}
use etoeragcb.Base.Text.{Text, codes}
use etoeragcb.Base.Result.{Result, ok, raise, ◌>>=◌, ◌>>◌, raise_if}
use etoeragcb.Base.Counter.{contains, add_all, difference}
use etoeragcb.Base.Table.{get_row, select_where}
use etoeragcb.Ingest.Tables.{DocumentCollection, Stored, BuiltSection, Store, Tenant}
use etoeragcb.Rag.Scope.{
  HintKind, document_hint, collection_hint, heading_hint, ResolutionKind, explicit_scope,
  exact_scope, ambiguous_boost, fuzzy_boost, HintDecision, HintTarget, whole_document, one_section,
  HintBoost, KnowledgeCollection, ScopeCalls, ActiveDocument, PlanHints, ResolvedScope,
  ScopeValidationError, scope_not_found,
}
use etoeragcb.Rag.Scope.Hints.{
  set_of, is_none, sorted_uuids, resolve_document_hint, resolve_collection_hint,
  resolve_heading_hint, expand_section_descendants,
}
use etoeragcb.Rag.Scope.Documents.{
  document_ids_of, restrict, members_of_any, membership_rows, active_documents, live_collections,
}

-- `decisions`, `boosts` and the set that a loop over hints fills.
pub record Progress : Type 0 where
  pub decisions : List HintDecision
  pub boosts : List HintBoost
  pub chosen : List ℕ

abbrev pub is_exact : ResolutionKind → Bool
is_exact exact_scope = true
is_exact r = false

abbrev pub is_boost : ResolutionKind → Bool
is_boost ambiguous_boost = true
is_boost fuzzy_boost = true
is_boost r = false

-- The end of a round of the three loops: the decision, and the targets chosen or boosted.
unfoldable pub conclude : HintDecision → HintTarget → List ℕ → Progress → Progress
unfolding add_all sorted_uuids
conclude decision target targets p = record {
  decisions = p.decisions ++ decision ∷ [];
  boosts =
      if is_boost decision.resolution && not (is_none targets)
      then p.boosts
        ++ record { hint = decision.hint; target = target; target_ids = sorted_uuids targets } ∷ []
      else p.boosts;
  chosen = if is_exact decision.resolution then add_all p.chosen targets else p.chosen;
}

unfoldable pub decision_of : HintKind → Text → List ℕ × ResolutionKind → ℕ → HintDecision
unfolding sorted_uuids
decision_of kind hint (matched, resolution) expanded = record {
  kind = kind;
  hint = hint;
  resolution = resolution;
  matched_ids = sorted_uuids matched;
  expanded_section_count = expanded;
}

-- The decision on an explicit scope, where one is given.
unfoldable pub explicit_decision : HintKind → List ℕ → List HintDecision
unfolding decision_of
explicit_decision kind [] = []
explicit_decision kind (id ∷ ids) =
    decision_of kind (codes "explicit") (id ∷ ids, explicit_scope) 0 ∷ []

-- `if ids: allowed_documents &= targets`.
unfoldable pub restrict_if_given : List ℕ → List ℕ → List ActiveDocument → List ActiveDocument
unfolding restrict
restrict_if_given [] targets allowed = allowed
restrict_if_given (id ∷ ids) targets allowed = restrict targets allowed

abbrev pub is_exact_collection : HintKind → ResolutionKind → Bool
is_exact_collection collection_hint r = is_exact r
is_exact_collection k r = false

-- `any(... "exact_scope" ... "collection")`.
unfoldable pub any_exact_collection : List HintDecision → Bool
any_exact_collection [] = false
any_exact_collection (d ∷ ds) = is_exact_collection d.kind d.resolution || any_exact_collection ds

-- The sets `allowed_documents` after the explicit scope, after document hints and after all hints.
unfoldable pub allowed_explicitly :
    List ActiveDocument → List DocumentCollection → List ℕ → List ℕ → List ActiveDocument
unfolding restrict_if_given members_of_any
allowed_explicitly documents rows explicit_documents explicit_collections =
    restrict_if_given explicit_collections (members_of_any explicit_collections rows)
      (restrict_if_given explicit_documents explicit_documents documents)

unfoldable pub allowed_by_documents : List ActiveDocument → Progress → List ActiveDocument
unfolding restrict_if_given
allowed_by_documents allowed p = restrict_if_given p.chosen p.chosen allowed

unfoldable pub allowed_by_collections : List ActiveDocument → Progress → List ActiveDocument
unfolding restrict any_exact_collection
allowed_by_collections allowed p =
    if any_exact_collection p.decisions then restrict p.chosen allowed else allowed

-- `hard_sections if hard_sections else None`.
unfoldable pub sections_or_none : List ℕ → Option (List ℕ)
unfolding sorted_uuids
sections_or_none [] = none
sections_or_none (id ∷ ids) = some (sorted_uuids (id ∷ ids))

-- `set(ids) - known.keys()` is not empty.
unfoldable pub has_unknown : List ℕ → List ℕ → Bool
unfolding difference set_of
has_unknown ids known = not (is_none (difference (set_of ids) known))

-- The tenant that is there, or the error.
unfoldable pub tenant_or_raise : Option Tenant → Result ScopeValidationError Tenant
tenant_or_raise none = raise scope_not_found
tenant_or_raise (some tenant) = ok tenant

module _ (calls : ScopeCalls) where
  unfoldable pub document_loop : List ActiveDocument → List Text → Progress → Progress
  unfolding conclude decision_of resolve_document_hint
  document_loop allowed [] p = p
  document_loop allowed (hint ∷ hints) p =
      let found = resolve_document_hint calls hint allowed in
      document_loop allowed hints
        (conclude (decision_of document_hint hint found 0) whole_document found.0 p)

  unfoldable pub collection_loop :
      List KnowledgeCollection → List DocumentCollection → List Text → Progress → Progress
  unfolding conclude decision_of resolve_collection_hint members_of_any
  collection_loop collections rows [] p = p
  collection_loop collections rows (hint ∷ hints) p =
      let found = resolve_collection_hint calls hint collections in
      collection_loop collections rows hints (
        conclude (decision_of collection_hint hint found 0) whole_document
          (members_of_any found.0 rows) p)

  unfoldable pub heading_loop : List (Stored BuiltSection) → List Text → Progress → Progress
  unfolding conclude decision_of resolve_heading_hint expand_section_descendants
  heading_loop sections [] p = p
  heading_loop sections (hint ∷ hints) p =
      let found = resolve_heading_hint calls hint sections in
      let expanded = expand_section_descendants found.0 sections in
      heading_loop sections hints
        (conclude (decision_of heading_hint hint found (length expanded)) one_section expanded p)

  -- `allowed_documents` after all hints on documents and collections, with the decisions and boosts.
  unfoldable pub allow_hinted :
      List ActiveDocument
      → List KnowledgeCollection
      → List DocumentCollection
      → PlanHints
      → List HintDecision
      → List ActiveDocument × Progress
  unfolding document_loop allowed_by_documents collection_loop allowed_by_collections
  allow_hinted allowed collections rows plan given =
      let p =
        document_loop allowed plan.document_hints
          (record { decisions = given; boosts = []; chosen = [] }) in
      let q = collection_loop collections rows plan.collection_hints (record p { chosen = [] }) in
      (allowed_by_collections (allowed_by_documents allowed p) q, q)

  -- What follows the two checks.
  unfoldable pub narrow :
      Store
      → ℕ
      → Tenant
      → PlanHints
      → List ActiveDocument
      → List KnowledgeCollection
      → List ℕ
      → List ℕ
      → ResolvedScope
  unfolding membership_rows allowed_explicitly explicit_decision allow_hinted heading_loop
      sections_or_none sorted_uuids select_where contains
  narrow s tenant_id tenant plan documents collections explicit_documents explicit_collections =
      let rows =
        membership_rows s tenant_id (document_ids_of documents) (map (λ c. c.id) collections) in
      let allowed = allowed_explicitly documents rows explicit_documents explicit_collections in
      let given =
        explicit_decision document_hint explicit_documents
        ++ explicit_decision collection_hint explicit_collections in
      let hinted = allow_hinted allowed collections rows plan given in
      let version_ids = sorted_uuids (map (λ d. d.document_version_id) hinted.0) in
      let sections =
        select_where
          (λ x. nat_eq x.tenant_id tenant_id && contains x.document_version_id version_ids)
          s.sections in
      let r = heading_loop sections plan.heading_hints (record hinted.1 { chosen = [] }) in
      record {
        tenant_id = tenant_id;
        generation_id = tenant.active_index_generation_id;
        retrieval_revision = tenant.retrieval_revision;
        document_ids = sorted_uuids (document_ids_of hinted.0);
        version_ids = version_ids;
        section_ids = sections_or_none r.chosen;
        decisions = r.decisions;
        boosts = r.boosts;
      }

  -- `resolve`, on the tables and the collections in the database.
  unfoldable pub resolve :
      Store
      → List KnowledgeCollection
      → ℕ
      → PlanHints
      → List ℕ
      → List ℕ
      → Result ScopeValidationError ResolvedScope
  unfolding tenant_or_raise get_row active_documents live_collections has_unknown narrow set_of
  resolve s catalogue tenant_id plan explicit_document_ids explicit_collection_ids =
      tenant_or_raise (get_row (λ t. t.id) tenant_id s.tenants) >>= λ tenant.
      let documents = active_documents s tenant_id tenant.active_index_generation_id in
      let collections = live_collections tenant_id catalogue in
      raise_if (has_unknown explicit_document_ids (document_ids_of documents)) scope_not_found
      >> (raise_if (has_unknown explicit_collection_ids (map (λ c. c.id) collections))
            scope_not_found
          >> ok (
              narrow s tenant_id tenant plan documents collections (set_of explicit_document_ids)
                (set_of explicit_collection_ids)))
