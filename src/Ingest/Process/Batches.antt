-- ===== src/Ingest/Process/Batches.antt =====
-- The loop over the batches indexes what one batch of all chunks would.
use etoeragcb.Base.{
  nat_keys, ℕ, zero, suc, ◌≤◌, ◌<◌, ◌≡◌, refl, sym, ap, ◌∙◌, List, [], ◌∷◌, ◌++◌, map, length, take,
  drop, length-map, length-drop, append-nil, append_assoc, arith, nat_eq, nat_eq_iff, Bool-cases,
  inl, inr, subst,
}
use etoeragcb.Base.Text.{Text}
use etoeragcb.Base.Dict.{get}
use etoeragcb.Base.Result.{Result, ok, raise, ok_injective}
use etoeragcb.Ingest.Tables.{DocumentVersion, BuiltSection}
use etoeragcb.Ingest.Chunker.{BuiltChunk}
use etoeragcb.Ingest.Jobs.{JobError, heartbeat}
use etoeragcb.Ingest.Process.{
  Clock, Services, World, IndexPoint, ◌>>=◌, ◌>>◌, done, call, transact, on_index, slices,
  batches_of, section_or_key_error,
}
use etoeragcb.Ingest.Process.Pipeline.{
  cons_point, with_section, point_of, points_of, count_checked, index_batch, index_batches,
}

append_parts {ℓ} : {A : Type ℓ} (n : ℕ) (xs : List A) → take n xs ++ drop n xs ≡ xs
append_parts zero xs = refl
append_parts (suc n) [] = refl
append_parts (suc n) (x ∷ xs) = ap (λ ys. x ∷ ys) (append_parts n xs)

-- An embedder that embeds each text by itself, and an index that is the list of its points.
pub record IsPlain {V : Type 0} (services : Services (List (IndexPoint V)) V) : Type 0 where
  pub vector : Text → V
  pub embeds : (texts : List Text) → services.embed texts ≡ ok (map vector texts)
  pub appends :
      (new points : List (IndexPoint V)) → services.upsert new points ≡ (points ++ new, ok tt)

module _ {V : Type 0} (services : Services (List (IndexPoint V)) V) (plain : IsPlain services)
    (version : DocumentVersion) (generation_id : ℕ) (collection_ids : List ℕ)
    (sections : List (ℕ × BuiltSection)) where
  -- The points of some chunks.
  abbrev pub all_points : List BuiltChunk → Result JobError (List (IndexPoint V))
  all_points chunks =
      points_of services version generation_id collection_ids sections chunks
        (map plain.vector (map (λ c. c.text_original) chunks))

  with_section-ok :
      (r : Result JobError BuiltSection) (f : BuiltSection → Result JobError (List (IndexPoint V)))
      (ps : List (IndexPoint V))
      → with_section services r f ≡ ok ps
      → (section : BuiltSection) × (r ≡ ok section) × (f section ≡ ok ps)
  with_section-ok (raise e) f ps h = cc
  with_section-ok (ok section) f ps h = (section, refl, h)

  cons_point-ok :
      (p : IndexPoint V) (r : Result JobError (List (IndexPoint V))) (ps : List (IndexPoint V))
      → cons_point services p r ≡ ok ps
      → (qs : List (IndexPoint V)) × (r ≡ ok qs) × (p ∷ qs ≡ ps)
  cons_point-ok p (raise e) ps h = cc
  cons_point-ok p (ok qs) ps h = (qs, refl, ok_injective (p ∷ qs) ps h)

  -- The points of a list of chunks in two parts.
  points-append :
      (xs ys : List BuiltChunk) (ps : List (IndexPoint V))
      → all_points (xs ++ ys) ≡ ok ps
      → (qs : List (IndexPoint V)) × (rs : List (IndexPoint V)) × (all_points xs ≡ ok qs)
        × (all_points ys ≡ ok rs)
        × (qs ++ rs ≡ ps)
  unfolding points_of
  points-append [] ys ps h = ([], ps, refl, h, refl)
  points-append (x ∷ xs) ys ps h =
      let point = λ (section : BuiltSection).
        point_of services version generation_id collection_ids section x
          (plain.vector x.text_original) in
      let (section, found, h1) =
        with_section-ok (section_or_key_error x.section_id (get x.section_id sections))
          (λ section. cons_point services (point section) (all_points (xs ++ ys))) ps h in
      let p = point section in
      let (all, e, same) = cons_point-ok p (all_points (xs ++ ys)) ps h1 in
      let (qs, rs, front, back, joined) = points-append xs ys all e in
      (p ∷ qs, rs, rw (found, front) refl, back, ap (λ zs. p ∷ zs) joined ∙ same)

  count_checked_lem :
      (batch : List BuiltChunk)
      → let answered = map plain.vector (map (λ c. c.text_original) batch) in
        count_checked services (length batch) answered ≡ ok answered
  unfolding count_checked
  count_checked_lem batch =
      let texts = map (λ c. c.text_original) batch in
      let count : length (map plain.vector texts) ≡ length batch =
        length-map plain.vector texts ∙ length-map (λ (c : BuiltChunk). c.text_original) batch in
      rw ((nat_eq_iff (length (map plain.vector texts)) (length batch)).1 count) refl

  -- One batch.
  index_batch_lem :
      (clock : Clock) (job_id : ℕ) (batch : List BuiltChunk) (ps : List (IndexPoint V))
      (w : World (List (IndexPoint V)))
      → all_points batch ≡ ok ps
      → index_batch services clock job_id version generation_id collection_ids sections batch w
        ≡ (record { store = heartbeat w.store clock.beat job_id; index = w.index ++ ps }, ok tt)
  unfolding index_batch ◌>>=◌ ◌>>◌ call transact on_index
  index_batch_lem clock job_id batch ps w h =
      rw
        (
          plain.embeds (map (λ c. c.text_original) batch),
          count_checked_lem batch,
          h,
          plain.appends ps w.index,
        )
        refl

  index_slices :
      (clock : Clock) (job_id fuel size : ℕ) (chunks : List BuiltChunk) (ps : List (IndexPoint V))
      (w : World (List (IndexPoint V)))
      → 0 < size
      → length chunks ≤ fuel
      → all_points chunks ≡ ok ps
      → let after =
          index_batches services clock job_id version generation_id collection_ids sections
            (slices fuel size chunks)
            w in
        (after.1 ≡ ok tt) × (after.0.index ≡ w.index ++ ps)
  unfolding index_batches slices points_of ◌>>◌ done
  index_slices clock job_id zero size [] ps w pos fits h =
      (refl, sym (append-nil w.index) ∙ ap (λ z. w.index ++ z) (ok_injective [] ps h))
  index_slices clock job_id zero size (c ∷ chunks) ps w pos fits h = absurd (omega arith)
  index_slices clock job_id (suc fuel) size [] ps w pos fits h =
      (refl, sym (append-nil w.index) ∙ ap (λ z. w.index ++ z) (ok_injective [] ps h))
  index_slices clock job_id (suc fuel) size (c ∷ chunks) ps w pos fits h =
      let first = take size (c ∷ chunks) in
      let others = drop size (c ∷ chunks) in
      let (qs, rs, front, back, joined) =
        points-append first others ps (ap all_points (append_parts size (c ∷ chunks)) ∙ h) in
      let w1 : World (List (IndexPoint V)) = record {
        store = heartbeat w.store clock.beat job_id;
        index = w.index ++ qs;
      } in
      let (returned, index) =
        index_slices clock job_id fuel size others rs w1 pos
          (omega (arith, length-drop {0} size (c ∷ chunks))) back in
      rw (index_batch_lem clock job_id first qs w front)
        (returned, index ∙ append_assoc w.index qs rs ∙ ap (λ z. w.index ++ z) joined)

  -- With an embedder that embeds each text by itself and an index that adds the points it is given, the
  -- loop over the batches of any size but 0 returns, and adds the points of all chunks in their order,
  -- whatever the size is, where each chunk has its section.
  pub index_batches_lem :
      (clock : Clock) (job_id size : ℕ) (chunks : List BuiltChunk)
      (batches : List (List BuiltChunk)) (ps : List (IndexPoint V))
      (w : World (List (IndexPoint V)))
      → batches_of size chunks ≡ ok batches
      → all_points chunks ≡ ok ps
      → let after =
          index_batches services clock job_id version generation_id collection_ids sections batches
            w in
        (after.1 ≡ ok tt) × (after.0.index ≡ w.index ++ ps)
  unfolding batches_of
  index_batches_lem clock job_id size chunks batches ps w cut h =
      elim (Bool-cases (nat_eq size 0)) [
        | inl zero_size ↦ cc (rw zero_size at cut)
        | inr sized ↦
            subst
              (λ bs.
                let after =
                  index_batches services clock job_id version generation_id collection_ids sections
                    bs w in
                (after.1 ≡ ok tt) × (after.0.index ≡ w.index ++ ps))
              (ok_injective (slices (length chunks) size chunks) batches (rw sized at cut))
              (index_slices clock job_id (length chunks) size chunks ps w (ground arith)
                (omega arith) h)
      ]
