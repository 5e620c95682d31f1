-- ===== src/Rag/Retriever/Scope.antt =====
-- Which chunks a search may see, and that the joins of backend/app/rag/retriever.py give no others.
use etoeragcb.Base.{
  ℕ, Bool, true, ◌≡◌, refl, Option, none, some, List, [], ◌∷◌, nat_eq, nat_keys, arith, Bool-cases,
  inl, inr, All, Any, Any-map, subst,
}
use mathlib.Core.Option.{some-injective}
use etoeragcb.Base.Dict.{get, set}
use etoeragcb.Base.Counter.{contains}
use etoeragcb.Base.Table.{select_where, first_row}
use etoeragcb.Ingest.Chunker.{BuiltChunk}
use etoeragcb.Ingest.Tables.{Stored, BuiltSection, Document, Store, is_null}
use etoeragcb.Rag.Records.{RetrievalCandidate}
use etoeragcb.Rag.Retriever.{Evidence, HydratedChunk}
use etoeragcb.Rag.Retriever.Hydration.{
  section_of, is_document_of, document_of, with_both, joined, is_in_scope, by_chunk_id,
  candidate_from_record,
}
use etoeragcb.Rag.Scope.{ResolvedScope}

-- A stored chunk of the tenant, of a version in the scope, whose document is there and not deleted.
pub record IsVisible (s : Store) (scope : ResolvedScope) (c : RetrievalCandidate) : Type 0 where
  pub tenant : c.tenant_id ≡ scope.tenant_id
  pub version : contains c.document_version_id scope.version_ids ≡ true
  pub present :
      Any
        (λ d. (d.id ≡ c.document_id) × (d.tenant_id ≡ c.tenant_id) × (is_null d.deleted_at ≡ true))
        s.documents
  pub stored :
      Any
        (λ r.
          (r.row.id ≡ c.chunk_id)
          × (r.document_id ≡ c.document_id)
          × (r.document_version_id ≡ c.document_version_id))
        s.chunks

pub record IsJoined (s : Store) (scope : ResolvedScope) (r : HydratedChunk) : Type 0 where
  pub inside : is_in_scope scope.tenant_id scope.version_ids r.chunk ≡ true
  pub document : Any (λ d. is_document_of r.chunk d ≡ true) s.documents
  pub member : Any (λ c. c ≡ r.chunk) s.chunks

first_row_selected :
    (p : Document → Bool) (ds : List Document) (d : Document)
    → first_row (select_where p ds) ≡ some d
    → Any (λ x. p x ≡ true) ds
unfolding first_row select_where
first_row_selected p [] d h = cc
first_row_selected p (x ∷ ds) d h = elim (Bool-cases (p x)) [
  | inl e ↦ inl e
  | inr e ↦ inr (first_row_selected p ds d (rw e at h))
]

All-with_both :
    (P : HydratedChunk → Type 0) (c : Stored BuiltChunk) (x : Option (Stored BuiltSection))
    (y : Option Document) (rest : List HydratedChunk)
    → ((section : Stored BuiltSection) (d : Document)
        → y ≡ some d
        → P (record { chunk = c; section = section; document = d }))
    → All P rest
    → All P (with_both c x y rest)
unfolding with_both
All-with_both P c none y rest h more = more
All-with_both P c (some x) none rest h more = more
All-with_both P c (some x) (some y) rest h more = (h x y refl, more)

pub All-joined :
    (s : Store) (scope : ResolvedScope) (keep : Stored BuiltChunk → Bool)
    (cs : List (Stored BuiltChunk))
    → ((c : Stored BuiltChunk)
        → keep c ≡ true
        → is_in_scope scope.tenant_id scope.version_ids c ≡ true)
    → All (λ c. Any (λ x. x ≡ c) s.chunks) cs
    → All (IsJoined s scope) (joined keep s cs)
unfolding joined document_of
All-joined s scope keep [] h m = tt
All-joined s scope keep (c ∷ cs) h (first, more) =
    let rest = All-joined s scope keep cs h more in
    elim (Bool-cases (keep c)) [
      | inr e ↦ rw e rest
      | inl e ↦ rw e (
          All-with_both (IsJoined s scope) c (section_of c s) (document_of c s) _
            (λ section d found. record {
              inside = h c e;
              document = first_row_selected (is_document_of c) s.documents d found;
              member = first;
            })
            rest)
    ]

-- A dictionary whose values have a property.
abbrev pub AllValues : (HydratedChunk → Type 0) → List (ℕ × HydratedChunk) → Type 0
AllValues P d = All (λ p. P p.1) d

AllValues-set :
    (P : HydratedChunk → Type 0) (k : ℕ) (r : HydratedChunk) (d : List (ℕ × HydratedChunk))
    → P r
    → AllValues P d
    → AllValues P (set k r d)
unfolding set
AllValues-set P k r [] p h = (p, tt)
AllValues-set P k r ((j, x) ∷ d) p (first, more) = elim (Bool-cases (nat_eq j k)) [
  | inl e ↦ rw e (p, more)
  | inr e ↦ rw e (first, AllValues-set P k r d p more)
]

pub AllValues-by_chunk_id :
    (P : HydratedChunk → Type 0) (rs : List HydratedChunk) (d : List (ℕ × HydratedChunk))
    → All P rs
    → AllValues P d
    → AllValues P (by_chunk_id rs d)
unfolding by_chunk_id
AllValues-by_chunk_id P [] d h k = k
AllValues-by_chunk_id P (r ∷ rs) d (first, more) k =
    AllValues-by_chunk_id P rs (set r.chunk.row.id r d) more
      (AllValues-set P r.chunk.row.id r d first k)

pub AllValues-get :
    (P : HydratedChunk → Type 0) (k : ℕ) (d : List (ℕ × HydratedChunk)) (r : HydratedChunk)
    → AllValues P d
    → get k d ≡ some r
    → P r
unfolding get
AllValues-get P k [] r h e = cc
AllValues-get P k ((j, x) ∷ d) r (first, more) e = elim (Bool-cases (nat_eq j k)) [
  | inl here ↦ subst P (some-injective x r (rw here at e)) first
  | inr there ↦ AllValues-get P k d r more (rw there at e)
]

pub joined-IsVisible :
    (s : Store) (scope : ResolvedScope) (r : HydratedChunk) (evidence : Evidence) (rank : ℕ)
    (neighbor : Bool) (root : Option ℕ)
    → IsJoined s scope r
    → IsVisible s scope (candidate_from_record r evidence rank neighbor root)
unfolding candidate_from_record is_in_scope is_document_of
joined-IsVisible s scope r evidence rank neighbor root j =
    let inside = j.inside in
    record {
      tenant = ground (arith, inside);
      version = ground (arith, inside);
      present =
          Any-map (λ d h. (ground (arith, h), ground (arith, h), ground (arith, h))) s.documents
            j.document;
      stored = Any-map (λ x e. rw e (refl, refl, refl)) s.chunks j.member;
    }
