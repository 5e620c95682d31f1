-- ===== src/Rag/Scope/Outcome.antt =====
-- What `resolve` gives, and what a search over it returns.
use etoeragcb.Base.{
  ℕ, ◌≡◌, refl, ◌∙◌, inl, inr, List, [], map, nat_keys, All, All-map, subst, some, Option-cases,
  ◌++◌, Bool, Option, Any-with-All, sym, ap,
}
use etoeragcb.Ingest.Tables.{Store, Tenant, DocumentCollection, DocumentVersion}
use etoeragcb.Ingest.Jobs.{version_row}
use etoeragcb.Rag.Records.{RetrievalCandidate}
use etoeragcb.Rag.Scope.Safety.{IsActive}
use mathlib.Core.Option.{some-injective}
use etoeragcb.Rag.Scope.{
  document_hint, collection_hint, ScopeCalls, ActiveDocument, PlanHints, KnowledgeCollection,
  ResolvedScope, scope_not_found, document_hint, HintDecision,
}
use etoeragcb.Rag.Scope.Hints.{set_of, sorted_uuids}
use etoeragcb.Rag.Scope.Documents.{
  document_ids_of, active_documents, membership_rows, live_collections,
}
use etoeragcb.Rag.Scope.Resolve.{
  allowed_explicitly, allowed_by_documents, narrow, resolve, tenant_or_raise, allow_hinted,
  explicit_decision, document_loop, collection_loop, has_unknown,
}
use etoeragcb.Base.Sort.{All-sort_by}
use etoeragcb.Rag.Scope.Allowed.{
  IsAllowed, All-image, All-contains, explicit-IsAllowed, by_documents-All, by_collections-All,
}
use etoeragcb.Rag.Retriever.{FusionOps, BranchResults}
use etoeragcb.Base.Table.{get_row}
use etoeragcb.Rag.Retriever.Selection.{Limits, retrieve}
use etoeragcb.Base.Result.{ok, raise_if, ◌>>◌, ok_injective, raise_if-ok}
use etoeragcb.Base.Text.{Text, text_leb, uuid_text}
use etoeragcb.Rag.Retriever.Scope.{IsVisible}
use etoeragcb.Rag.Retriever.Visibility.{retrieve-IsVisible}

allow_hinted-All :
    (calls : ScopeCalls) (P : ActiveDocument → Type 0) (ds : List ActiveDocument)
    (collections : List KnowledgeCollection) (rows : List DocumentCollection) (plan : PlanHints)
    (given : List HintDecision)
    → All P ds
    → All P (allow_hinted calls ds collections rows plan given).0
unfolding allow_hinted
allow_hinted-All calls P ds collections rows plan given h =
    let p =
      document_loop calls ds plan.document_hints
        (record { decisions = given; boosts = []; chosen = [] }) in
    let q =
      collection_loop calls collections rows plan.collection_hints (record p { chosen = [] }) in
    by_collections-All P (allowed_by_documents ds p) q (by_documents-All P ds p h)

sorted_image :
    (P : ActiveDocument → Type 0) (f : ActiveDocument → ℕ) (xs : List ActiveDocument)
    → All P xs
    → All (λ i. (x : ActiveDocument) × (f x ≡ i) × P x) (sorted_uuids (map f xs))
unfolding sorted_uuids
sorted_image P f xs h =
    All-sort_by (λ a b. text_leb (uuid_text a) (uuid_text b))
      (λ i. (x : ActiveDocument) × (f x ≡ i) × P x) (map f xs) (All-image P f xs h)

-- What a scope resolved for a tenant has, by the row of the tenant.
pub record IsScopeOf (s : Store) (tenant_id : ℕ) (documents collections : List ℕ)
    (scope : ResolvedScope) (tenant : Tenant) : Type 0 where
  pub own : scope.tenant_id ≡ tenant_id
  pub generation : scope.generation_id ≡ tenant.active_index_generation_id
  pub held_documents :
      All
        (λ id.
          (d : ActiveDocument) × (d.document_id ≡ id)
          × IsAllowed s tenant_id tenant.active_index_generation_id documents collections d)
        scope.document_ids
  pub held_versions :
      All
        (λ v.
          (d : ActiveDocument) × (d.document_version_id ≡ v)
          × IsAllowed s tenant_id tenant.active_index_generation_id documents collections d)
        scope.version_ids

narrow-IsScopeOf :
    (calls : ScopeCalls) (s : Store) (tenant_id : ℕ) (tenant : Tenant) (plan : PlanHints)
    (collections : List KnowledgeCollection) (explicit_documents explicit_collections : List ℕ)
    → IsScopeOf s tenant_id explicit_documents explicit_collections
        (narrow calls s tenant_id tenant plan
          (active_documents s tenant_id tenant.active_index_generation_id)
          collections
          (set_of explicit_documents)
          (set_of explicit_collections))
        tenant
unfolding narrow
narrow-IsScopeOf calls s tenant_id tenant plan collections explicit_documents explicit_collections =
    let generation = tenant.active_index_generation_id in
    let documents = active_documents s tenant_id generation in
    let known = map (λ c. c.id) collections in
    let rows = membership_rows s tenant_id (document_ids_of documents) known in
    let ds = set_of explicit_documents in
    let cs = set_of explicit_collections in
    let given = explicit_decision document_hint ds ++ explicit_decision collection_hint cs in
    let hinted =
      allow_hinted calls (allowed_explicitly documents rows ds cs) collections rows plan given in
    let P = IsAllowed s tenant_id generation explicit_documents explicit_collections in
    let allowed : All P hinted.0 =
      allow_hinted-All calls P (allowed_explicitly documents rows ds cs) collections rows plan given
        (explicit-IsAllowed s tenant_id generation explicit_documents explicit_collections known) in
    record {
      own = refl;
      generation = refl;
      held_documents = sorted_image P (λ d. d.document_id) hinted.0 allowed;
      held_versions = sorted_image P (λ d. d.document_version_id) hinted.0 allowed;
    }

checks-ok :
    (a b : Bool) (x scope : ResolvedScope)
    → (raise_if a scope_not_found >> (raise_if b scope_not_found >> ok x)) ≡ ok scope
    → x ≡ scope
checks-ok a b x scope h =
    let (known, next) = raise_if-ok a scope_not_found _ h in
    let (listed, last) = raise_if-ok b scope_not_found _ next in ok_injective x scope last

-- Where `resolve` returns, the tenant is there and both checks were passed.
resolve-ok :
    (calls : ScopeCalls) (s : Store) (catalogue : List KnowledgeCollection) (tenant_id : ℕ)
    (plan : PlanHints) (explicit_documents explicit_collections : List ℕ) (scope : ResolvedScope)
    → resolve calls s catalogue tenant_id plan explicit_documents explicit_collections ≡ ok scope
    → (tenant : Tenant) × (get_row (λ t. t.id) tenant_id s.tenants ≡ some tenant)
      × (narrow calls s tenant_id tenant plan
            (active_documents s tenant_id tenant.active_index_generation_id)
            (live_collections tenant_id catalogue)
            (set_of explicit_documents)
            (set_of explicit_collections)
          ≡ scope)
unfolding resolve tenant_or_raise
resolve-ok calls s catalogue tenant_id plan explicit_documents explicit_collections scope returned =
    elim (Option-cases (get_row (λ t. t.id) tenant_id s.tenants)) [
      | inl missing ↦ cc (rw missing at returned)
      | inr (tenant, found) ↦
          let documents = active_documents s tenant_id tenant.active_index_generation_id in
          let collections = live_collections tenant_id catalogue in
          (
            tenant,
            found,
            checks-ok (has_unknown explicit_documents (document_ids_of documents))
                (has_unknown explicit_collections (map (λ c. c.id) collections))
                (narrow calls s tenant_id tenant plan documents collections
                  (set_of explicit_documents) (set_of explicit_collections))
                scope (rw found at returned),
          )
    ]

-- A scope is resolved for a tenant that is there. It is of that tenant and of its active generation, and
-- each of its documents and versions is one that the manifest of this generation holds, whose document
-- is there and not deleted, among the documents that were asked for, where any were, and in one of the
-- collections that were asked for, where any were.
pub resolve_within :
    (calls : ScopeCalls) (s : Store) (catalogue : List KnowledgeCollection) (tenant_id : ℕ)
    (plan : PlanHints) (explicit_documents explicit_collections : List ℕ) (scope : ResolvedScope)
    → resolve calls s catalogue tenant_id plan explicit_documents explicit_collections ≡ ok scope
    → (tenant : Tenant) × (get_row (λ t. t.id) tenant_id s.tenants ≡ some tenant)
      × IsScopeOf s tenant_id explicit_documents explicit_collections scope tenant
resolve_within calls s catalogue tenant_id plan explicit_documents explicit_collections scope
      returned =
    let (tenant, found, same) =
      resolve-ok calls s catalogue tenant_id plan explicit_documents explicit_collections scope
        returned in
    (
      tenant,
      found,
      subst (λ x. IsScopeOf s tenant_id explicit_documents explicit_collections x tenant) same
          (narrow-IsScopeOf calls s tenant_id tenant plan (live_collections tenant_id catalogue)
            explicit_documents explicit_collections),
    )

-- The foreign keys of chunks and manifest rows: each names a version that is there, with its document.
pub record IsKeyed (s : Store) : Type 0 where
  pub chunks :
      All
        (λ r.
          (v : DocumentVersion) × (version_row r.document_version_id s ≡ some v)
          × (v.document_id ≡ r.document_id))
        s.chunks
  pub manifest :
      All
        (λ m.
          (v : DocumentVersion) × (version_row m.document_version_id s ≡ some v)
          × (v.document_id ≡ m.document_id))
        s.manifest

-- A chunk and a document of the manifest with the same version are of the same document.
keyed_alike :
    (s : Store) (scope : ResolvedScope) (c : RetrievalCandidate) (tenant_id : ℕ)
    (generation : Option ℕ) (d : ActiveDocument)
    → IsKeyed s
    → IsVisible s scope c
    → IsActive s tenant_id generation d
    → d.document_version_id ≡ c.document_version_id
    → d.document_id ≡ c.document_id
keyed_alike s scope c tenant_id generation d keyed visible active version =
    let (r, (r_id, r_document, r_version), (v, v_found, v_document)) =
      Any-with-All _ _ s.chunks visible.stored keyed.chunks in
    let (m, (m_kept, m_document, m_version), (w, w_found, w_document)) =
      Any-with-All _ _ s.manifest active.row keyed.manifest in
    let same : v ≡ w = some-injective v w (
      sym v_found
      ∙ ap (λ id. version_row id s) (r_version ∙ sym version ∙ sym m_version)
      ∙ w_found) in
    sym m_document ∙ sym w_document ∙ sym (ap (λ x. x.document_id) same) ∙ v_document ∙ r_document

-- In a store whose chunks and manifest rows keep their foreign keys, every chunk that a search over a
-- resolved scope returns is of the tenant, and of a document and version that the manifest of the
-- tenant's active generation holds, the document there and not deleted, among the documents that were
-- asked for, where any were, and in one of the collections that were asked for, where any were.
pub searched_within :
    (calls : ScopeCalls) (s : Store) (catalogue : List KnowledgeCollection) (tenant_id : ℕ)
    (plan : PlanHints) (explicit_documents explicit_collections : List ℕ) (scope : ResolvedScope)
    (ops : FusionOps) (limits : Limits) (branches : BranchResults) (terms : List Text)
    → IsKeyed s
    → resolve calls s catalogue tenant_id plan explicit_documents explicit_collections ≡ ok scope
    → (tenant : Tenant) × (get_row (λ t. t.id) tenant_id s.tenants ≡ some tenant)
      × All
          (λ c.
            (c.tenant_id ≡ tenant_id)
            × ((d : ActiveDocument) × (d.document_id ≡ c.document_id)
                × (d.document_version_id ≡ c.document_version_id)
                × IsAllowed s tenant_id tenant.active_index_generation_id explicit_documents
                    explicit_collections d))
          (retrieve ops limits s scope branches terms)
searched_within calls s catalogue tenant_id plan explicit_documents explicit_collections scope ops
      limits branches terms keyed returned =
    let (tenant, found, within) =
      resolve_within calls s catalogue tenant_id plan explicit_documents explicit_collections scope
        returned in
    (
      tenant,
      found,
      All-map
          (λ c (v : IsVisible s scope c).
            let (d, version, allowed) =
              All-contains _ c.document_version_id scope.version_ids within.held_versions
                v.version in
            (
              v.tenant ∙ within.own,
              (
                d,
                keyed_alike s scope c tenant_id _ d keyed v allowed.active version,
                version,
                allowed,
              ),
            ))
          _ (retrieve-IsVisible ops limits s scope branches terms),
    )
