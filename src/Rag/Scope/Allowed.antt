-- ===== src/Rag/Scope/Allowed.antt =====
-- The documents that a scope may hold, and that the restrictions of `resolve` keep to them.
use etoeragcb.Base.{
  ℕ, ◌≡◌, refl, sym, ap, ◌∙◌, ◌⊎◌, inl, inr, true, Option, List, [], ◌∷◌, map, nat_keys, arith, All,
  All-map, Bool-cases, ◌==◌, subst,
}
use etoeragcb.Base.Counter.{contains}
use etoeragcb.Ingest.Tables.{Store}
use etoeragcb.Rag.Scope.{ActiveDocument}
use etoeragcb.Rag.Scope.Hints.{set_of}
use etoeragcb.Rag.Scope.Documents.{
  document_ids_of, active_documents, membership_rows, members_of_any, restrict,
}
use etoeragcb.Rag.Scope.Resolve.{
  Progress, restrict_if_given, any_exact_collection, allowed_explicitly, allowed_by_documents,
  allowed_by_collections,
}
use etoeragcb.Rag.Scope.Safety.{
  All-select_where, contains-set_of, IsActive, active_documents-IsActive, IsMember,
  members_of_any-IsMember,
}

-- Nothing was asked for, or it was asked for.
abbrev pub IsGiven : List ℕ → Type 0 → Type 0
IsGiven ids P = (ids ≡ []) ⊎ P

restrict-All :
    (P : ActiveDocument → Type 0) (ids : List ℕ) (ds : List ActiveDocument)
    → All P ds
    → All (λ d. P d × (contains d.document_id ids ≡ true)) (restrict ids ds)
unfolding restrict
restrict-All P ids ds h = All-select_where P (λ d. contains d.document_id ids) ds h

restrict_if_given-All :
    (P : ActiveDocument → Type 0) (ids targets : List ℕ) (ds : List ActiveDocument)
    → All P ds
    → All
        (λ d. P d × IsGiven ids (contains d.document_id targets ≡ true))
        (restrict_if_given ids targets ds)
unfolding restrict_if_given
restrict_if_given-All P [] targets ds h = All-map (λ d p. (p, inl refl)) ds h
restrict_if_given-All P (id ∷ ids) targets ds h =
    All-map (λ d q. (q.0, inr q.1)) (restrict targets ds) (restrict-All P targets ds h)

-- What the image of a list has: each of its elements comes from one with the property.
pub All-image :
    {A : Type 0} (P : A → Type 0) (f : A → ℕ) (xs : List A)
    → All P xs
    → All (λ i. (x : A) × (f x ≡ i) × P x) (map f xs)
All-image P f [] h = tt
All-image P f (x ∷ xs) (first, more) = ((x, refl, first), All-image P f xs more)

pub All-contains :
    (P : ℕ → Type 0) (id : ℕ) (ids : List ℕ) → All P ids → contains id ids ≡ true → P id
unfolding contains
All-contains P id [] h e = cc
All-contains P id (x ∷ ids) (first, more) e = elim (Bool-cases (x == id)) [
  | inl here ↦ subst P ((nat_keys.same_iff x id).0 here) first
  | inr there ↦ All-contains P id ids more (rw there at e)
]

-- A document of the tenant's active manifest that is among the documents asked for, where any are, and
-- in one of the collections asked for, where any are.
pub record IsAllowed (s : Store) (tenant_id : ℕ) (generation : Option ℕ)
    (documents collections : List ℕ) (d : ActiveDocument) : Type 0 where
  pub active : IsActive s tenant_id generation d
  pub asked : IsGiven documents (contains d.document_id documents ≡ true)
  pub collected : IsGiven collections (IsMember s tenant_id collections d.document_id)

set_of-nil : (ids : List ℕ) → set_of ids ≡ [] → ids ≡ []
unfolding contains
set_of-nil [] e = refl
set_of-nil (id ∷ ids) e = ground (
  arith,
  sym (contains-set_of id (id ∷ ids)),
  (nat_keys.same_iff id id).1 refl,
  ap (contains id) e,
)

given_set :
    (ids : List ℕ) (id : ℕ)
    → IsGiven (set_of ids) (contains id (set_of ids) ≡ true)
    → IsGiven ids (contains id ids ≡ true)
given_set ids id (inl e) = inl (set_of-nil ids e)
given_set ids id (inr e) = inr (sym (contains-set_of id ids) ∙ e)

module _ (s : Store) (tenant_id : ℕ) (generation : Option ℕ) where
  pub explicit-IsAllowed :
      (documents collections known : List ℕ)
      → All (IsAllowed s tenant_id generation documents collections) (
          allowed_explicitly
            (active_documents s tenant_id generation)
            (membership_rows s tenant_id
              (document_ids_of (active_documents s tenant_id generation))
              known)
            (set_of documents)
            (set_of collections))
  unfolding allowed_explicitly
  explicit-IsAllowed documents collections known =
      let active = active_documents s tenant_id generation in
      let rows = membership_rows s tenant_id (document_ids_of active) known in
      All-map
        (λ d q. record {
          active = q.0.0;
          asked = given_set documents d.document_id q.0.1;
          collected = elim q.1 [
            | inl e ↦ inl (set_of-nil collections e)
            | inr e ↦ inr (
                members_of_any-IsMember s tenant_id (document_ids_of active) known collections
                  (set_of collections) d.document_id
                  (λ c h. sym (contains-set_of c collections) ∙ h) e)
          ];
        })
        _
        (restrict_if_given-All _ (set_of collections) (members_of_any (set_of collections) rows) _ (
          restrict_if_given-All _ (set_of documents) (set_of documents) active
            (active_documents-IsActive s tenant_id generation)))

pub by_documents-All :
    (P : ActiveDocument → Type 0) (ds : List ActiveDocument) (p : Progress)
    → All P ds
    → All P (allowed_by_documents ds p)
unfolding allowed_by_documents
by_documents-All P ds p h = All-map (λ d q. q.0) _ (restrict_if_given-All P p.chosen p.chosen ds h)

pub by_collections-All :
    (P : ActiveDocument → Type 0) (ds : List ActiveDocument) (p : Progress)
    → All P ds
    → All P (allowed_by_collections ds p)
unfolding allowed_by_collections
by_collections-All P ds p h = elim (Bool-cases (any_exact_collection p.decisions)) [
  | inl e ↦ rw e (All-map (λ d q. q.0) _ (restrict-All P p.chosen ds h))
  | inr e ↦ rw e h
]
