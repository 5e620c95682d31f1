-- ===== src/Rag/Retriever/Fusion.antt =====
-- What `_fuse_branches` notes of a chunk is what a direct look at the two branches gives.
use etoeragcb.Base.{
  ℕ, suc, ◌≡◌, refl, ap, sym, ◌∙◌, Option, none, some, List, [], ◌∷◌, nat_eq, nat_keys,
  if◌then◌else◌, Bool-cases, inl, inr, nat_eq_iff,
}
use etoeragcb.Base.Float.{Signed}
use etoeragcb.Base.Dict.{get, set, get-set}
use etoeragcb.Rag.Retriever.{
  BranchHit, BranchResults, Evidence, no_evidence, FusionOps, evidence_of, or_empty, fuse_dense,
  fuse_sparse, fuse_branches,
}

-- The rank and the score of the first hit of a chunk, counted from a rank on.
unfoldable pub hit_of : ℕ → ℕ → List BranchHit → Option (ℕ × Signed)
hit_of id rank [] = none
hit_of id rank (h ∷ hs) =
    if nat_eq h.chunk_id id then some (rank, h.score) else hit_of id (suc rank) hs

-- No chunk is hit twice.
abbrev pub IsDistinct : List BranchHit → Type 0
IsDistinct [] = Unit
IsDistinct (h ∷ hs) = ((rank : ℕ) → hit_of h.chunk_id rank hs ≡ none) × IsDistinct hs

evidence_of-set :
    (id k : ℕ) (e : Evidence) (evidence : List (ℕ × Evidence))
    → evidence_of id (set k e evidence) ≡ (if nat_eq k id then e else evidence_of id evidence)
evidence_of-set id k e evidence =
    ap or_empty (get-set k id e evidence)
    ∙ elim (Bool-cases (nat_eq k id)) [ inl same ↦ rw same refl | inr other ↦ rw other refl ]

module _ (ops : FusionOps) (k : ℕ) where
  unfoldable pub with_dense : Option (ℕ × Signed) → Evidence → Evidence
  with_dense none e = e
  with_dense (some (rank, score)) e = record e {
    dense_rank = some rank;
    dense_score = some score;
    fusion_score = ops.add e.fusion_score (ops.rrf k rank);
  }

  unfoldable pub with_sparse : Option (ℕ × Signed) → Evidence → Evidence
  with_sparse none e = e
  with_sparse (some (rank, score)) e = record e {
    sparse_rank = some rank;
    sparse_score = some score;
    fusion_score = ops.add e.fusion_score (ops.rrf k rank);
  }

  fuse_dense_lem :
      (id rank : ℕ) (hs : List BranchHit) (evidence : List (ℕ × Evidence))
      → IsDistinct hs
      → evidence_of id (fuse_dense ops k rank hs evidence)
        ≡ with_dense (hit_of id rank hs) (evidence_of id evidence)
  unfolding fuse_dense hit_of with_dense
  fuse_dense_lem id rank [] evidence d = refl
  fuse_dense_lem id rank (h ∷ hs) evidence (once, more) =
      let e = with_dense (some (rank, h.score)) (evidence_of h.chunk_id evidence) in
      fuse_dense_lem id (suc rank) hs (set h.chunk_id e evidence) more
      ∙ rw (evidence_of-set id h.chunk_id e evidence) (elim (Bool-cases (nat_eq h.chunk_id id)) [
        | inl same ↦
            let equal : h.chunk_id ≡ id = (nat_eq_iff h.chunk_id id).0 same in
            let gone : hit_of id (suc rank) hs ≡ none =
              ap (λ i. hit_of i (suc rank) hs) (sym equal) ∙ once (suc rank) in
            rw (same, gone)
              (ap (λ i. with_dense (some (rank, h.score)) (evidence_of i evidence)) equal)
        | inr other ↦ rw other refl
      ])

  fuse_sparse_lem :
      (id rank : ℕ) (hs : List BranchHit) (evidence : List (ℕ × Evidence))
      → IsDistinct hs
      → evidence_of id (fuse_sparse ops k rank hs evidence)
        ≡ with_sparse (hit_of id rank hs) (evidence_of id evidence)
  unfolding fuse_sparse hit_of with_sparse
  fuse_sparse_lem id rank [] evidence d = refl
  fuse_sparse_lem id rank (h ∷ hs) evidence (once, more) =
      let e = with_sparse (some (rank, h.score)) (evidence_of h.chunk_id evidence) in
      fuse_sparse_lem id (suc rank) hs (set h.chunk_id e evidence) more
      ∙ rw (evidence_of-set id h.chunk_id e evidence) (elim (Bool-cases (nat_eq h.chunk_id id)) [
        | inl same ↦
            let equal : h.chunk_id ≡ id = (nat_eq_iff h.chunk_id id).0 same in
            let gone : hit_of id (suc rank) hs ≡ none =
              ap (λ i. hit_of i (suc rank) hs) (sym equal) ∙ once (suc rank) in
            rw (same, gone)
              (ap (λ i. with_sparse (some (rank, h.score)) (evidence_of i evidence)) equal)
        | inr other ↦ rw other refl
      ])

  -- Where no branch hits a chunk twice, the fused evidence of any chunk is empty evidence with the rank,
  -- the score and the reciprocal rank of its hit in the dense branch, and then those of its hit in the
  -- sparse one, as far as it was hit.
  pub fuse_branches_lem :
      (id : ℕ) (branches : BranchResults)
      → IsDistinct branches.dense
      → IsDistinct branches.sparse
      → evidence_of id (fuse_branches ops branches k)
        ≡ with_sparse
            (hit_of id 1 branches.sparse)
            (with_dense (hit_of id 1 branches.dense) no_evidence)
  unfolding fuse_branches get
  fuse_branches_lem id branches dense sparse =
      fuse_sparse_lem id 1 branches.sparse (fuse_dense ops k 1 branches.dense []) sparse
      ∙ ap (with_sparse (hit_of id 1 branches.sparse)) (fuse_dense_lem id 1 branches.dense [] dense)
