-- ===== src/Rag/Retriever/Deletion.antt =====
-- A search after the deletion of a document.
use mathlib.Core.Bool.{true≢false}
use etoeragcb.Base.{
  ℕ, true, false, ◌≡◌, refl, ap, sym, ◌∙◌, List, [], ◌∷◌, none, some, nat_eq, arith, Bool-cases,
  inl, inr, All, All-map, Any, subst,
}
use etoeragcb.Base.Text.{Text}
use etoeragcb.Base.Table.{having, having-eq-some, get_row, set_row, get_row-key}
use etoeragcb.Base.Result.{ok, bind-eq-ok, ok_injective}
use etoeragcb.Ingest.Tables.{Document, Store, is_null}
use etoeragcb.Ingest.Jobs.{tenant_row, document_row}
use etoeragcb.Ingest.Reconcile.{found, tombstone_document, bury, cancel}
use etoeragcb.Ingest.Reconcile.Tombstones.{found-eq-ok}
use etoeragcb.Rag.Retriever.{FusionOps, BranchResults}
use etoeragcb.Rag.Retriever.Selection.{Limits, retrieve}
use etoeragcb.Rag.Retriever.Visibility.{retrieve-IsVisible}
use etoeragcb.Rag.Scope.{ResolvedScope}

-- Every row of a document is marked deleted.
abbrev AllDeleted : ℕ → List Document → Type 0
AllDeleted id ds = All (λ d. d.id ≡ id → is_null d.deleted_at ≡ false) ds

set_row-AllDeleted :
    (id now : ℕ) (ds : List Document)
    → AllDeleted id (
        set_row
          (λ d. d.id)
          id
          (λ d. record d { deleted_at = some now; active_version_id = none })
          ds)
unfolding set_row
set_row-AllDeleted id now [] = tt
set_row-AllDeleted id now (d ∷ ds) = elim (Bool-cases (nat_eq d.id id)) [
  | inl e ↦ rw e ((λ _. refl), set_row-AllDeleted id now ds)
  | inr e ↦ rw e ((λ same. ground arith), set_row-AllDeleted id now ds)
]

tombstone-AllDeleted :
    (s s1 : Store) (now new_id tenant_id document_id revision : ℕ)
    → tombstone_document s now new_id tenant_id document_id ≡ ok (s1, revision)
    → AllDeleted document_id s1.documents
unfolding tombstone_document bury cancel
tombstone-AllDeleted s s1 now new_id tenant_id document_id revision h =
    let (t, e0, h1) = bind-eq-ok (found (tenant_row tenant_id s)) _ h in
    let (d, e, h2) =
      bind-eq-ok (found (having (λ d. is_null d.deleted_at) (document_row document_id tenant_id s)))
        _ h1 in
    let (present, _) =
      having-eq-some (λ d. is_null d.deleted_at) (document_row document_id tenant_id s) d
        (found-eq-ok _ d e) in
    let (row, _) =
      having-eq-some (λ r. nat_eq r.tenant_id tenant_id)
        (get_row (λ r. r.id) document_id s.documents) d present in
    let k = get_row-key (λ r. r.id) document_id s.documents d row in
    let result = ap (λ p. p.0.documents) (ok_injective _ (s1, revision) h2) in
    subst (AllDeleted document_id) result (rw k (set_row-AllDeleted document_id now s.documents))

no_such_document :
    (id document_id tenant_id : ℕ) (ds : List Document)
    → AllDeleted id ds
    → Any (λ d. (d.id ≡ document_id) × (d.tenant_id ≡ tenant_id) × (is_null d.deleted_at ≡ true)) ds
    → ¬ (document_id ≡ id)
no_such_document id document_id tenant_id [] h a = absurd a
no_such_document id document_id tenant_id (d ∷ ds) (first, more) (inl (same, tenant, present)) =
    λ e. true≢false (sym present ∙ first (same ∙ e))
no_such_document id document_id tenant_id (d ∷ ds) (first, more) (inr later) =
    no_such_document id document_id tenant_id ds more later

-- After a document was deleted, no search returns a chunk of it, for any scope and whatever the search
-- service still holds.
pub deleted_unseen :
    (s s1 : Store) (now new_id tenant_id document_id revision : ℕ) (ops : FusionOps) (l : Limits)
    (scope : ResolvedScope) (branches : BranchResults) (exact_terms : List Text)
    → tombstone_document s now new_id tenant_id document_id ≡ ok (s1, revision)
    → All (λ c. ¬ (c.document_id ≡ document_id)) (retrieve ops l s1 scope branches exact_terms)
deleted_unseen s s1 now new_id tenant_id document_id revision ops l scope branches exact_terms h =
    let gone = tombstone-AllDeleted s s1 now new_id tenant_id document_id revision h in
    All-map
      (λ c v. no_such_document document_id c.document_id c.tenant_id s1.documents gone v.present)
      (retrieve ops l s1 scope branches exact_terms)
      (retrieve-IsVisible ops l s1 scope branches exact_terms)
