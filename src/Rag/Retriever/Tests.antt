-- ===== src/Rag/Retriever/Tests.antt =====
-- A search at concrete inputs.
use etoeragcb.Base.{ℕ, ◌≡◌, refl, [], ◌∷◌, map, arith, All}
use etoeragcb.Base.Text.{codes}
use etoeragcb.Base.Sort.{sort_by}
use etoeragcb.Base.Dict.{get, set}
use etoeragcb.Base.Counter.{contains, count_of, bump}
use etoeragcb.Base.Table.{select_where, first_row, having, get_row}
use etoeragcb.Base.Result.{Result, ok, raise}
use etoeragcb.Ingest.Tables.{Store}
use etoeragcb.Ingest.Reconcile.{LookupError, tombstone_document}
use etoeragcb.Rag.Retriever.Samples.{ops, searched, limits, scope, branches}
use etoeragcb.Rag.Retriever.Selection.{retrieve}
use etoeragcb.Rag.Retriever.Bounds.{IsPool, retrieve_bounds}
use etoeragcb.Rag.Retriever.Scope.{IsVisible}
use etoeragcb.Rag.Retriever.Visibility.{retrieve-IsVisible}
use etoeragcb.Rag.Retriever.Deletion.{deleted_unseen}

-- The chunk that was found, and one of its two neighbours, since a section has two at most.
found_two :
    map (λ c. c.chunk_id) (retrieve ops limits searched scope branches (codes "one" ∷ []))
    ≡ 91 ∷ 90 ∷ []
unfolding retrieve sort_by contains get set select_where first_row count_of bump
found_two = refl

retrieve_bounds_example :
    IsPool 8 2 (retrieve ops limits searched scope branches (codes "one" ∷ []))
retrieve_bounds_example =
    retrieve_bounds ops limits searched scope branches (codes "one" ∷ []) (omega arith)

retrieve-IsVisible_example :
    All (IsVisible searched scope) (retrieve ops limits searched scope branches (codes "one" ∷ []))
retrieve-IsVisible_example =
    retrieve-IsVisible ops limits searched scope branches (codes "one" ∷ [])

abbrev deleted_by : Result LookupError (Store × ℕ) → Store
deleted_by (ok (s, revision)) = s
deleted_by (raise e) = searched

abbrev buried : Store
unfolding tombstone_document
buried = deleted_by (tombstone_document searched 100 11 1 5)

deleted_unseen_example :
    All (λ c. ¬ (c.document_id ≡ 5)) (retrieve ops limits buried scope branches (codes "one" ∷ []))
unfolding tombstone_document get_row having
deleted_unseen_example =
    deleted_unseen searched buried 100 11 1 5 4 ops limits scope branches (codes "one" ∷ []) refl
