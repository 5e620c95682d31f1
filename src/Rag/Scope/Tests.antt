-- ===== src/Rag/Scope/Tests.antt =====
-- Scopes at concrete inputs.
use etoeragcb.Base.{◌≡◌, refl, none, some, List, [], ◌∷◌, All, if◌then◌else◌}
use etoeragcb.Base.Text.{codes, text_eq}
use etoeragcb.Base.Table.{get_row}
use etoeragcb.Ingest.Tables.{Tenant, DocumentVersion, Store}
use etoeragcb.Ingest.Jobs.Samples.{first, second}
use etoeragcb.Base.Result.{Result, ok, raise}
use etoeragcb.Rag.Scope.{
  ResolvedScope, ScopeValidationError, scope_not_found, PlanHints, KnowledgeCollection, ScopeCalls,
  ActiveDocument,
}
use etoeragcb.Rag.Scope.Resolve.{resolve}
use etoeragcb.Rag.Scope.Allowed.{IsAllowed}
use etoeragcb.Rag.Scope.Outcome.{IsScopeOf, IsKeyed, resolve_within, searched_within}
use etoeragcb.Rag.Retriever.Selection.{retrieve}
use etoeragcb.Rag.Retriever.Samples.{ops, searched, limits, branches}

-- No text is an identifier, and two texts are alike where they are equal.
abbrev calls : ScopeCalls
calls = record {
  uuid_or_none = λ t. none;
  normalize_lexical = λ t. t;
  ratio = λ s t. if text_eq s t then 1 else 0;
}

abbrev catalogue : List KnowledgeCollection
catalogue = record { id = 3; tenant_id = 1; name = codes "manuals"; deleted_at = none } ∷ []

abbrev plan : PlanHints
plan = record {
  document_hints = codes "Guide" ∷ [];
  collection_hints = [];
  heading_hints = codes "a" ∷ [];
}

abbrev scope_or : Result ScopeValidationError ResolvedScope → ResolvedScope → ResolvedScope
scope_or (ok scope) other = scope
scope_or (raise e) other = other

abbrev nothing : ResolvedScope
nothing = record {
  tenant_id = 0;
  generation_id = none;
  retrieval_revision = 0;
  document_ids = [];
  version_ids = [];
  section_ids = none;
  decisions = [];
  boosts = [];
}

abbrev resolved : ResolvedScope
unfolding resolve
resolved = scope_or (resolve calls searched catalogue 1 plan [] (3 ∷ [])) nothing

-- The guide is named by the plan and is in the collection; its section is named too.
found_versions : resolved.version_ids ≡ 50 ∷ []
unfolding resolve
found_versions = refl

found_sections : resolved.section_ids ≡ some (70 ∷ [])
unfolding resolve
found_sections = refl

unknown_collection : resolve calls searched catalogue 1 plan [] (4 ∷ []) ≡ raise scope_not_found
unfolding resolve
unknown_collection = refl

resolve_within_example :
    (tenant : Tenant) × (get_row (λ t. t.id) 1 searched.tenants ≡ some tenant)
    × IsScopeOf searched 1 [] (3 ∷ []) resolved tenant
unfolding resolve
resolve_within_example = resolve_within calls searched catalogue 1 plan [] (3 ∷ []) resolved refl

-- The version of the other document of the manifest.
abbrev other_version : DocumentVersion
other_version = record second { id = 60; document_id = 6 }

abbrev keyed : Store
keyed = record searched { versions = other_version ∷ searched.versions }

abbrev keyed_scope : ResolvedScope
unfolding resolve
keyed_scope = scope_or (resolve calls keyed catalogue 1 plan [] (3 ∷ [])) nothing

keyed-IsKeyed : IsKeyed keyed
unfolding get_row
keyed-IsKeyed = record {
  chunks = ((first, refl, refl), ((first, refl, refl), ((first, refl, refl), tt)));
  manifest = ((first, refl, refl), ((other_version, refl, refl), tt));
}

searched_within_example :
    (tenant : Tenant) × (get_row (λ t. t.id) 1 keyed.tenants ≡ some tenant)
    × All
        (λ c.
          (c.tenant_id ≡ 1)
          × ((d : ActiveDocument) × (d.document_id ≡ c.document_id)
              × (d.document_version_id ≡ c.document_version_id)
              × IsAllowed keyed 1 tenant.active_index_generation_id [] (3 ∷ []) d))
        (retrieve ops limits keyed keyed_scope branches (codes "one" ∷ []))
unfolding resolve
searched_within_example =
    searched_within calls keyed catalogue 1 plan [] (3 ∷ []) keyed_scope ops limits branches
      (codes "one" ∷ []) keyed-IsKeyed refl
