-- ===== src/Rag/Scope/Documents.antt =====
-- backend/app/rag/scope.py: the documents of the active manifest, the collections and their members.
-- `documents` is the list of its items, and `collections_by_id` the rows that it holds.
use etoeragcb.Base.{
  ℕ, Bool, ◌&&◌, Option, none, some, List, [], ◌∷◌, map, nat_eq, nat_keys, if◌then◌else◌,
}
use etoeragcb.Base.Counter.{contains, add_all}
use etoeragcb.Base.Table.{get_row, having, select_where}
use etoeragcb.Ingest.Tables.{Document, ManifestRow, DocumentCollection, Store, is_null}
use etoeragcb.Rag.Scope.{KnowledgeCollection, ActiveDocument}
use etoeragcb.Rag.Scope.Hints.{set_of}

abbrev pub document_ids_of : List ActiveDocument → List ℕ
document_ids_of ds = map (λ d. d.document_id) ds

-- The columns of a row of the join.
unfoldable pub active_document : ManifestRow → Document → ActiveDocument
active_document m d = record {
  document_id = m.document_id;
  document_version_id = m.document_version_id;
  title = d.title;
  source_filename = d.source_filename;
}

-- `documents[row.document_id] = row`, which keeps the place of an old item.
unfoldable pub put_document : ActiveDocument → List ActiveDocument → List ActiveDocument
put_document d [] = d ∷ []
put_document d (x ∷ ds) =
    if nat_eq x.document_id d.document_id then d ∷ ds else x ∷ put_document d ds

unfoldable pub is_manifest_row : ℕ → ℕ → ManifestRow → Bool
is_manifest_row generation_id tenant_id m =
    nat_eq m.generation_id generation_id && nat_eq m.tenant_id tenant_id

unfoldable pub is_present_document : ManifestRow → Document → Bool
is_present_document m d = nat_eq d.tenant_id m.tenant_id && is_null d.deleted_at

unfoldable pub put_joined :
    ManifestRow → Option Document → List ActiveDocument → List ActiveDocument
unfolding put_document active_document
put_joined m none ds = ds
put_joined m (some d) ds = put_document (active_document m d) ds

-- The rows of the join, put into `documents` in their order.
unfoldable pub put_rows :
    List Document → List ManifestRow → List ActiveDocument → List ActiveDocument
unfolding put_joined get_row having is_present_document
put_rows documents [] ds = ds
put_rows documents (m ∷ rows) ds =
    put_rows documents rows (
      put_joined m (having (is_present_document m) (get_row (λ d. d.id) m.document_id documents))
        ds)

-- `documents`.
unfoldable pub active_documents : Store → ℕ → Option ℕ → List ActiveDocument
unfolding put_rows select_where is_manifest_row
active_documents s tenant_id none = []
active_documents s tenant_id (some generation_id) =
    put_rows s.documents (select_where (is_manifest_row generation_id tenant_id) s.manifest) []

-- `collections`.
unfoldable pub live_collections : ℕ → List KnowledgeCollection → List KnowledgeCollection
unfolding select_where
live_collections tenant_id rows =
    select_where (λ c. nat_eq c.tenant_id tenant_id && is_null c.deleted_at) rows

-- A row of `DocumentCollection` of the tenant, between a document and a collection that are known.
unfoldable pub is_member_row : ℕ → List ℕ → List ℕ → DocumentCollection → Bool
unfolding contains
is_member_row tenant_id documents collections r =
    nat_eq r.tenant_id tenant_id
    && (contains r.document_id documents && contains r.collection_id collections)

-- `memberships`, as the rows that fill it.
unfoldable pub membership_rows : Store → ℕ → List ℕ → List ℕ → List DocumentCollection
unfolding select_where is_member_row
membership_rows s tenant_id documents collections =
    select_where (is_member_row tenant_id documents collections) s.collections

-- `memberships.get(collection_id, set())`.
unfoldable pub members_of : ℕ → List DocumentCollection → List ℕ
unfolding select_where set_of
members_of collection_id rows =
    set_of
      (map (λ r. r.document_id) (select_where (λ r. nat_eq r.collection_id collection_id) rows))

-- `set().union(*(memberships.get(item, set()) for item in collections))`.
unfoldable pub members_of_any : List ℕ → List DocumentCollection → List ℕ
unfolding members_of add_all
members_of_any [] rows = []
members_of_any (id ∷ ids) rows = add_all (members_of id rows) (members_of_any ids rows)

-- `allowed_documents &= ids`.
unfoldable pub restrict : List ℕ → List ActiveDocument → List ActiveDocument
unfolding select_where contains
restrict ids allowed = select_where (λ d. contains d.document_id ids) allowed
