-- ===== src/Ingest/Jobs/Manifest.antt =====
-- The manifest of a generation, seen as the versions of documents, and what the copies make of it.
use etoeragcb.Base.{
  ℕ, Bool, false, not, ◌&&◌, ◌≡◌, refl, ap, ◌∙◌, Option, none, some, List, [], ◌∷◌, ◌++◌, map,
  arith, Bool-cases, inl, inr, nat_eq, append-nil,
}
use etoeragcb.Base.Table.{
  select_where, delete_where, select_where-append, select_where-delete_where, select_where_deleted,
}
use mathlib.Core.List.{map-append}
use etoeragcb.Ingest.Tables.{Tenant, ManifestRow}
use etoeragcb.Ingest.Jobs.{moved, copy_manifest, fill_manifest, clear_manifest}

abbrev pub pair_of : ManifestRow → ℕ × ℕ
pair_of r = (r.document_id, r.document_version_id)

abbrev pub is_of : ℕ → ℕ → ManifestRow → Bool
is_of generation_id tenant_id r =
    nat_eq r.generation_id generation_id && nat_eq r.tenant_id tenant_id

-- The documents of a generation, each with its version.
unfoldable pub manifest_of : ℕ → ℕ → List ManifestRow → List (ℕ × ℕ)
manifest_of generation_id tenant_id rows =
    map pair_of (select_where (is_of generation_id tenant_id) rows)

unfoldable pub active_manifest : Option ℕ → ℕ → List ManifestRow → List (ℕ × ℕ)
active_manifest none tenant_id rows = []
active_manifest (some generation_id) tenant_id rows = manifest_of generation_id tenant_id rows

-- A manifest without a document.
unfoldable pub without : ℕ → List (ℕ × ℕ) → List (ℕ × ℕ)
without document_id = delete_where (λ p. nat_eq p.0 document_id)

abbrev is_copied : ℕ → ℕ → ℕ → ManifestRow → Bool
is_copied source tenant_id exclude r =
    nat_eq r.generation_id source
    && (nat_eq r.tenant_id tenant_id && not (nat_eq r.document_id exclude))

copied-without :
    (source tenant_id exclude : ℕ) (rows : List ManifestRow)
    → map pair_of (select_where (is_copied source tenant_id exclude) rows)
      ≡ without exclude (manifest_of source tenant_id rows)
unfolding select_where delete_where manifest_of without
copied-without source tenant_id exclude [] = refl
copied-without source tenant_id exclude (r ∷ rows) =
    ground (arith, copied-without source tenant_id exclude rows)

select_where-moved :
    (target tenant_id : ℕ) (rows : List ManifestRow)
    → map pair_of (select_where (is_of target tenant_id) (map (moved target tenant_id) rows))
      ≡ map pair_of rows
unfolding select_where
select_where-moved target tenant_id [] = refl
select_where-moved target tenant_id (r ∷ rows) =
    ground (arith, select_where-moved target tenant_id rows)

manifest_of-append :
    (g t : ℕ) (xs ys : List ManifestRow)
    → manifest_of g t (xs ++ ys) ≡ manifest_of g t xs ++ manifest_of g t ys
unfolding manifest_of
manifest_of-append g t xs ys =
    ap (map pair_of) (select_where-append (is_of g t) xs ys)
    ∙ map-append pair_of (select_where (is_of g t) xs) (select_where (is_of g t) ys)

manifest_of_one :
    (g t d v : ℕ)
    → manifest_of g t
        (record { generation_id = g; document_id = d; tenant_id = t; document_version_id = v } ∷ [])
      ≡ (d, v) ∷ []
unfolding manifest_of select_where
manifest_of_one g t d v = ground arith

moved_manifest :
    (target tenant_id : ℕ) (rows : List ManifestRow)
    → manifest_of target tenant_id (map (moved target tenant_id) rows) ≡ map pair_of rows
unfolding manifest_of
moved_manifest target tenant_id rows = select_where-moved target tenant_id rows

-- A copy into a manifest that is empty is the active manifest without the document.
pub copy_manifest_lem :
    (source : Option ℕ) (target tenant_id exclude : ℕ) (rows : List ManifestRow)
    → manifest_of target tenant_id rows ≡ []
    → manifest_of target tenant_id (copy_manifest source target tenant_id exclude rows)
      ≡ without exclude (active_manifest source tenant_id rows)
unfolding copy_manifest active_manifest
copy_manifest_lem none target tenant_id exclude rows h = unfold without delete_where in h
copy_manifest_lem (some source) target tenant_id exclude rows h =
    manifest_of-append target tenant_id rows _
    ∙ rw h (
        moved_manifest target tenant_id (select_where (is_copied source tenant_id exclude) rows)
        ∙ copied-without source tenant_id exclude rows)

pub fill_manifest_lem :
    (tenant : Tenant) (target document_id version_id : ℕ) (rows : List ManifestRow)
    → manifest_of target tenant.id rows ≡ []
    → manifest_of target tenant.id
        (fill_manifest tenant target tenant.id document_id version_id rows)
      ≡ without document_id (active_manifest tenant.active_index_generation_id tenant.id rows)
        ++ (document_id, version_id) ∷ []
unfolding fill_manifest
fill_manifest_lem tenant target document_id version_id rows h =
    let added = copy_manifest tenant.active_index_generation_id target tenant.id document_id rows in
    manifest_of-append target tenant.id added _
    ∙ rw
        (
          copy_manifest_lem tenant.active_index_generation_id target tenant.id document_id rows h,
          manifest_of_one target tenant.id document_id version_id,
        )
        refl

pub manifest_of_cleared :
    (g t : ℕ) (rows : List ManifestRow) → manifest_of g t (clear_manifest g rows) ≡ []
unfolding clear_manifest manifest_of
manifest_of_cleared g t rows =
    ap (map pair_of)
      (select_where_deleted (is_of g t) (λ r. nat_eq r.generation_id g) rows (λ r h. ground arith))

pub active_manifest_cleared :
    (source : Option ℕ) (g t : ℕ) (rows : List ManifestRow)
    → ¬ (source ≡ some g)
    → active_manifest source t (clear_manifest g rows) ≡ active_manifest source t rows
unfolding clear_manifest manifest_of active_manifest
active_manifest_cleared none g t rows h = refl
active_manifest_cleared (some source) g t rows h = ap (map pair_of) (
    select_where-delete_where (is_of source t) (λ r. nat_eq r.generation_id g) rows
      (λ r k. elim (Bool-cases (nat_eq r.generation_id g)) [
        | inr e ↦ e
        | inl e ↦ absurd (h (ap some (ground arith)))
      ]))

filled_other :
    (g target t : ℕ) (rows : List ManifestRow)
    → nat_eq g target ≡ false
    → manifest_of g t (map (moved target t) rows) ≡ []
unfolding manifest_of select_where
filled_other g target t [] h = refl
filled_other g target t (r ∷ rows) h = ground (arith, filled_other g target t rows h)

copy_manifest_other :
    (source : Option ℕ) (g target t exclude : ℕ) (rows : List ManifestRow)
    → nat_eq g target ≡ false
    → manifest_of g t (copy_manifest source target t exclude rows) ≡ manifest_of g t rows
unfolding copy_manifest
copy_manifest_other none g target t exclude rows h = refl
copy_manifest_other (some source) g target t exclude rows h =
    manifest_of-append g t rows _
    ∙ rw (filled_other g target t (select_where (is_copied source t exclude) rows) h) (append-nil _)

-- Filling the manifest of a generation keeps the one that is active.
pub active_manifest_filled :
    (source : Option ℕ) (tenant : Tenant) (target document_id version_id : ℕ)
    (rows : List ManifestRow)
    → ¬ (source ≡ some target)
    → active_manifest source tenant.id
        (fill_manifest tenant target tenant.id document_id version_id rows)
      ≡ active_manifest source tenant.id rows
unfolding fill_manifest active_manifest
active_manifest_filled none tenant target document_id version_id rows h = refl
active_manifest_filled (some g) tenant target document_id version_id rows h =
    let differs : nat_eq g target ≡ false = elim (Bool-cases (nat_eq g target)) [
      | inl e ↦ absurd (h (ap some (ground arith)))
      | inr e ↦ e
    ] in
    manifest_of-append g tenant.id
      (copy_manifest tenant.active_index_generation_id target tenant.id document_id rows) _
    ∙ rw
        (copy_manifest_other tenant.active_index_generation_id g target tenant.id document_id rows
          differs)
        (ap (λ zs. manifest_of g tenant.id rows ++ zs)
            (filled_other g target tenant.id
              (record {
                generation_id = target;
                document_id = document_id;
                tenant_id = tenant.id;
                document_version_id = version_id;
              }
                ∷ [])
              differs)
          ∙ append-nil _)
