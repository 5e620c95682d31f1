-- ===== src/Rag/Scope/Safety.antt =====
-- What a scope lets in: documents of the tenant's active manifest, within what was asked for explicitly.
use etoeragcb.Base.{
  ℕ, Bool, true, ◌≡◌, refl, inl, inr, Option, none, some, List, [], ◌∷◌, map, nat_eq, nat_eq_iff,
  nat_keys, All, Any, Bool-cases, All-map, and_iff, Any-map, arith, sym, ◌∙◌, each_is_element,
}
use etoeragcb.Base.Counter.{contains, contains-add_all}
use etoeragcb.Base.Table.{get_row, having, select_where, having-eq-some}
use etoeragcb.Ingest.Tables.{Document, ManifestRow, Store, is_null}
use etoeragcb.Rag.Scope.{ActiveDocument}
use etoeragcb.Rag.Scope.Hints.{set_of}
use etoeragcb.Rag.Scope.Documents.{
  active_document, put_document, is_manifest_row, is_present_document, put_joined, put_rows,
  active_documents, members_of, members_of_any, membership_rows, is_member_row,
}

module _ {ℓ} {A : Type ℓ} where
  pub All-select_where {κ} :
      (P : A → Type κ) (p : A → Bool) (xs : List A)
      → All P xs
      → All (λ x. P x × (p x ≡ true)) (select_where p xs)
  unfolding select_where
  All-select_where P p [] h = tt
  All-select_where P p (x ∷ xs) (first, more) = elim (Bool-cases (p x)) [
    | inl e ↦ rw e ((first, e), All-select_where P p xs more)
    | inr e ↦ rw e (All-select_where P p xs more)
  ]

  pub Any-select_where :
      (P : A → Type 0) (p : A → Bool) (xs : List A)
      → Any P (select_where p xs)
      → Any (λ x. P x × (p x ≡ true)) xs
  unfolding select_where
  Any-select_where P p [] h = elim h [ ]
  Any-select_where P p (x ∷ xs) h = elim (Bool-cases (p x)) [
    | inl e ↦ elim (rw e at h) [ inl q ↦ inl (q, e) | inr q ↦ inr (Any-select_where P p xs q) ]
    | inr e ↦ inr (Any-select_where P p xs (rw e at h))
  ]

  pub contains-map :
      (f : A → ℕ) (id : ℕ) (xs : List A) → contains id (map f xs) ≡ true → Any (λ x. f x ≡ id) xs
  unfolding contains
  contains-map f id [] h = cc
  contains-map f id (x ∷ xs) h = elim (Bool-cases (nat_eq (f x) id)) [
    | inl e ↦ inl ((nat_eq_iff (f x) id).0 e)
    | inr e ↦ inr (contains-map f id xs (rw e at h))
  ]

pub contains-set_of : (id : ℕ) (ids : List ℕ) → contains id (set_of ids) ≡ contains id ids
unfolding set_of contains
contains-set_of id ids = contains-add_all id [] ids

-- A document of the manifest of a generation, which is there for the tenant and not deleted.
pub record IsActive (s : Store) (tenant_id : ℕ) (generation : Option ℕ) (d : ActiveDocument)
    : Type 0 where
  pub generation_id : ℕ
  pub is_active : generation ≡ some generation_id
  pub row :
      Any
        (λ m.
          (is_manifest_row generation_id tenant_id m ≡ true)
          × (m.document_id ≡ d.document_id)
          × (m.document_version_id ≡ d.document_version_id))
        s.manifest
  pub document : Document
  pub found : get_row (λ x. x.id) d.document_id s.documents ≡ some document
  pub own : document.tenant_id ≡ tenant_id
  pub not_deleted : is_null document.deleted_at ≡ true

put_document-All :
    (P : ActiveDocument → Type 0) (d : ActiveDocument) (ds : List ActiveDocument)
    → P d
    → All P ds
    → All P (put_document d ds)
unfolding put_document
put_document-All P d [] p h = (p, tt)
put_document-All P d (x ∷ ds) p (first, more) =
    elim (Bool-cases (nat_eq x.document_id d.document_id)) [
      | inl e ↦ rw e (p, more)
      | inr e ↦ rw e (first, put_document-All P d ds p more)
    ]

put_joined-All :
    (P : ActiveDocument → Type 0) (m : ManifestRow) (o : Option Document) (ds : List ActiveDocument)
    → ((d : Document) → o ≡ some d → P (active_document m d))
    → All P ds
    → All P (put_joined m o ds)
unfolding put_joined
put_joined-All P m none ds p h = h
put_joined-All P m (some d) ds p h = put_document-All P (active_document m d) ds (p d refl) h

put_rows-All :
    (P : ActiveDocument → Type 0) (documents : List Document) (rows : List ManifestRow)
    (ds : List ActiveDocument)
    → All
        (λ m.
          (d : Document)
          → having (is_present_document m) (get_row (λ x. x.id) m.document_id documents) ≡ some d
          → P (active_document m d))
        rows
    → All P ds
    → All P (put_rows documents rows ds)
unfolding put_rows
put_rows-All P documents [] ds p h = h
put_rows-All P documents (m ∷ rows) ds (first, more) h =
    put_rows-All P documents rows _ more (put_joined-All P m _ ds first h)

module _ (s : Store) (tenant_id : ℕ) where
  row-IsActive :
      (generation_id : ℕ) (m : ManifestRow) (d : Document)
      → Any (λ y. y ≡ m) s.manifest × (is_manifest_row generation_id tenant_id m ≡ true)
      → having (is_present_document m) (get_row (λ x. x.id) m.document_id s.documents) ≡ some d
      → IsActive s tenant_id (some generation_id) (active_document m d)
  unfolding active_document is_manifest_row is_present_document
  row-IsActive generation_id m d (member, kept) h =
      let (found, present) = having-eq-some (is_present_document m) _ d h in
      let (same, live) =
        (and_iff (nat_eq d.tenant_id m.tenant_id) (is_null d.deleted_at)).0 present in
      record {
        generation_id = generation_id;
        is_active = refl;
        row = Any-map (λ y e. rw e (kept, refl, refl)) s.manifest member;
        document = d;
        found = found;
        own = ground (arith, kept, same);
        not_deleted = live;
      }

  pub active_documents-IsActive :
      (generation : Option ℕ)
      → All (IsActive s tenant_id generation) (active_documents s tenant_id generation)
  unfolding active_documents
  active_documents-IsActive none = tt
  active_documents-IsActive (some g) =
      put_rows-All (IsActive s tenant_id (some g)) s.documents
        (select_where (is_manifest_row g tenant_id) s.manifest) []
        (All-map (λ m kept d. row-IsActive g m d kept) _
          (All-select_where _ (is_manifest_row g tenant_id) s.manifest
            (each_is_element s.manifest)))
        tt

  -- A row that makes a document a member of one of some collections of the tenant.
  abbrev pub IsMember : List ℕ → ℕ → Type 0
  IsMember collections id =
      Any
        (λ r.
          (r.tenant_id ≡ tenant_id)
          × (r.document_id ≡ id)
          × (contains r.collection_id collections ≡ true))
        s.collections

  members_of-IsMember :
      (documents known ids : List ℕ) (collection_id id : ℕ)
      → contains collection_id ids ≡ true
      → contains id (members_of collection_id (membership_rows s tenant_id documents known)) ≡ true
      → IsMember ids id
  unfolding members_of membership_rows is_member_row
  members_of-IsMember documents known ids collection_id id given h =
      let rows = membership_rows s tenant_id documents known in
      let mine = select_where (λ r. nat_eq r.collection_id collection_id) rows in
      let listed : contains id (map (λ r. r.document_id) mine) ≡ true =
        sym (contains-set_of id _) ∙ h in
      Any-map
        (λ r q. (
          ground (arith, q.1),
          q.0.0,
          rw ((nat_eq_iff r.collection_id collection_id).0 q.0.1) given,
        ))
        s.collections
        (Any-select_where _ (is_member_row tenant_id documents known) s.collections (
          Any-select_where (λ r. r.document_id ≡ id) (λ r. nat_eq r.collection_id collection_id)
            rows (contains-map (λ r. r.document_id) id mine listed)))

  pub members_of_any-IsMember :
      (documents known all ids : List ℕ) (id : ℕ)
      → ((c : ℕ) → contains c ids ≡ true → contains c all ≡ true)
      → contains id (members_of_any ids (membership_rows s tenant_id documents known)) ≡ true
      → IsMember all id
  unfolding members_of_any contains
  members_of_any-IsMember documents known all [] id inside h = cc
  members_of_any-IsMember documents known all (c ∷ ids) id inside h =
      let rows = membership_rows s tenant_id documents known in
      elim (Bool-cases (contains id (members_of c rows))) [
        | inl e ↦
            members_of-IsMember documents known all c id
              (inside c (ground (arith, (nat_eq_iff c c).1 refl))) e
        | inr e ↦
            members_of_any-IsMember documents known all ids id (λ x q. inside x (ground (arith, q)))
              (ground
                (arith, contains-add_all id (members_of c rows) (members_of_any ids rows), h, e))
      ]
