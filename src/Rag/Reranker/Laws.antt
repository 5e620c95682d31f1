-- ===== src/Rag/Reranker/Laws.antt =====
-- What a batch of scores means, and how the evidence is ordered by them.
use mathlib.Core.Option.{some-injective}
use etoeragcb.Base.{
  ℕ, zero, suc, true, ◌≡◌, refl, ap, sym, ◌∙◌, Option, none, some, List, [], ◌∷◌, arith, All,
  All-map, length, nat_eq, Bool-cases, inl, inr, if◌then◌else◌, ◌*◌, Bool, false, ◌≤◌, ◌⊎◌,
}
use etoeragcb.Base.Result.{ok, bind-eq-ok, ok_injective}
use etoeragcb.Rag.Reranker.{
  JsonValue, not_a_number, not_finite, boolean, integer, finite, index_value, unit_between, unit_of,
  place_at, Entry, not_an_object, entry, is_free, fill, place, place_all, empty_slots, all_scores,
  score_batch,
}
use etoeragcb.Base.Float.{one}

-- `scores[index]`.
abbrev pub nth {ℓ} : {A : Type ℓ} → ℕ → List A → Option A
nth i [] = none
nth zero (x ∷ xs) = some x
nth (suc i) (x ∷ xs) = nth i xs

nth-fill :
    (i s : ℕ) (slots : List (Option ℕ))
    → is_free i slots ≡ true
    → nth i (fill i s slots) ≡ some (some s)
unfolding is_free fill
nth-fill i s [] h = cc
nth-fill zero s (none ∷ slots) h = refl
nth-fill zero s (some x ∷ slots) h = cc
nth-fill (suc i) s (slot ∷ slots) h = nth-fill i s slots h

-- What was given a score keeps it.
nth-fill_other :
    (i s j t : ℕ) (slots : List (Option ℕ))
    → is_free i slots ≡ true
    → nth j slots ≡ some (some t)
    → nth j (fill i s slots) ≡ some (some t)
unfolding is_free fill
nth-fill_other i s j t [] h k = cc
nth-fill_other zero s zero t (none ∷ slots) h k = cc
nth-fill_other zero s zero t (some x ∷ slots) h k = cc
nth-fill_other zero s (suc j) t (slot ∷ slots) h k = k
nth-fill_other (suc i) s zero t (slot ∷ slots) h k = k
nth-fill_other (suc i) s (suc j) t (slot ∷ slots) h k = nth-fill_other i s j t slots h k

length-fill : (i s : ℕ) (slots : List (Option ℕ)) → length (fill i s slots) ≡ length slots
unfolding fill
length-fill i s [] = refl
length-fill zero s (slot ∷ slots) = refl
length-fill (suc i) s (slot ∷ slots) = ap suc (length-fill i s slots)

-- A value that is an index: a Boolean, or an integer that is not negative.
abbrev pub IsIndex : JsonValue → ℕ → Type 0
IsIndex (boolean b) i = i ≡ (if b then 1 else 0)
IsIndex (integer below n) i = (i ≡ n) × ((below ≡ false) ⊎ (n ≡ 0))
IsIndex v i = ⊥

-- A value that is a score between 0 and 1: an integer or a finite float, in multiples of 2^-1074.
abbrev pub IsUnitScore : JsonValue → ℕ → Type 0
IsUnitScore (integer below n) s = (s ≡ n * one) × (s ≤ one) × ((below ≡ false) ⊎ (s ≡ 0))
IsUnitScore (finite below n) s = (s ≡ n) × (s ≤ one) × ((below ≡ false) ⊎ (s ≡ 0))
IsUnitScore v s = ⊥

index_value-IsIndex : (v : JsonValue) (i : ℕ) → index_value v ≡ some i → IsIndex v i
unfolding index_value
index_value-IsIndex not_a_number i h = cc
index_value-IsIndex not_finite i h = cc
index_value-IsIndex (boolean b) i h = sym (some-injective _ _ h)
index_value-IsIndex (integer false n) i h = (sym (some-injective _ _ h), inl refl)
index_value-IsIndex (integer true zero) i h = (sym (some-injective _ _ h), inr refl)
index_value-IsIndex (integer true (suc n)) i h = cc
index_value-IsIndex (finite below n) i h = cc

unit_between-eq-some :
    (below : Bool) (n s : ℕ)
    → unit_between below n ≡ some s
    → (s ≡ n) × (s ≤ one) × ((below ≡ false) ⊎ (s ≡ 0))
unfolding unit_between
unit_between-eq-some below n s h = ground arith

unit_of-IsUnitScore : (v : JsonValue) (s : ℕ) → unit_of v ≡ some (some s) → IsUnitScore v s
unfolding unit_of
unit_of-IsUnitScore not_a_number s h = cc
unit_of-IsUnitScore not_finite s h = cc
unit_of-IsUnitScore (boolean b) s h = cc
unit_of-IsUnitScore (integer below n) s h =
    unit_between-eq-some below (n * one) s (some-injective _ _ h)
unit_of-IsUnitScore (finite below n) s h = unit_between-eq-some below n s (some-injective _ _ h)

-- An entry with an index and a score between 0 and 1.
abbrev pub Reads : Entry → ℕ → ℕ → Type 0
Reads not_an_object i s = ⊥
Reads (entry v w) i s = IsIndex v i × IsUnitScore w s

-- An entry that was placed.
pub record IsPlaced (slots : List (Option ℕ)) (e : Entry) (slots' : List (Option ℕ)) : Type 0 where
  pub at : ℕ
  pub value : ℕ
  pub shape : Reads e at value
  pub free : is_free at slots ≡ true
  pub filled : slots' ≡ fill at value slots

place_at-IsPlaced :
    (slots slots' : List (Option ℕ)) (v w : JsonValue) (o : Option ℕ) (u : Option (Option ℕ))
    → index_value v ≡ o
    → unit_of w ≡ u
    → place_at slots o u ≡ ok slots'
    → IsPlaced slots (entry v w) slots'
unfolding place_at
place_at-IsPlaced slots slots' v w none u i s h = cc
place_at-IsPlaced slots slots' v w (some at) none i s h = cc
place_at-IsPlaced slots slots' v w (some at) (some none) i s h = absurd (ground arith)
place_at-IsPlaced slots slots' v w (some at) (some (some value)) i s h =
    elim (Bool-cases (is_free at slots)) [
      | inr taken ↦ absurd (ground arith)
      | inl free ↦ record {
        at = at;
        value = value;
        shape = (index_value-IsIndex v at i, unit_of-IsUnitScore w value s);
        free = free;
        filled = sym (ok_injective _ _ (rw free at h));
      }
    ]

place-IsPlaced :
    (slots slots' : List (Option ℕ)) (e : Entry)
    → place slots e ≡ ok slots'
    → IsPlaced slots e slots'
unfolding place
place-IsPlaced slots slots' not_an_object h = cc
place-IsPlaced slots slots' (entry v w) h =
    place_at-IsPlaced slots slots' v w (index_value v) (unit_of w) refl refl h

-- An entry whose score stands at its index.
pub IsScoreOf : List ℕ → Entry → Type 0
IsScoreOf scores e = (i : ℕ) × (s : ℕ) × Reads e i s × (nth i scores ≡ some s)

IsSlotOf : List (Option ℕ) → Entry → Type 0
IsSlotOf slots e = (i : ℕ) × (s : ℕ) × Reads e i s × (nth i slots ≡ some (some s))

place_all-lem :
    (entries : List Entry) (slots slots' : List (Option ℕ))
    → place_all entries slots ≡ ok slots'
    → All (IsSlotOf slots') entries
      × (length slots' ≡ length slots)
      × ((j t : ℕ) → nth j slots ≡ some (some t) → nth j slots' ≡ some (some t))
unfolding place_all IsSlotOf
place_all-lem [] slots slots' h =
    let same = ok_injective slots slots' h in
    (tt, ap length (sym same), λ j t k. ap (nth j) (sym same) ∙ k)
place_all-lem (e ∷ entries) slots slots' h =
    let (middle, placed, rest) = bind-eq-ok (place slots e) (place_all entries) h in
    let w = place-IsPlaced slots middle e placed in
    let (all, size, keeps) = place_all-lem entries middle slots' rest in
    (
      (
        (
          w.at,
          w.value,
          w.shape,
          keeps w.at w.value (ap (nth w.at) w.filled ∙ nth-fill w.at w.value slots w.free),
        ),
        all,
      ),
      size ∙ ap length w.filled ∙ length-fill w.at w.value slots,
      λ j t k. keeps j t (ap (nth j) w.filled ∙ nth-fill_other w.at w.value j t slots w.free k),
    )

all_scores-lem :
    (slots : List (Option ℕ)) (scores : List ℕ)
    → all_scores slots ≡ ok scores
    → (length scores ≡ length slots)
      × ((j t : ℕ) → nth j slots ≡ some (some t) → nth j scores ≡ some t)
unfolding all_scores
all_scores-lem [] scores h =
    let same = ok_injective [] scores h in (ap length (sym same), λ j t k. absurd (ground arith))
all_scores-lem (none ∷ slots) scores h = cc
all_scores-lem (some s ∷ slots) scores h =
    let (rest, e, last) = bind-eq-ok (all_scores slots) _ h in
    let same : s ∷ rest ≡ scores = ok_injective _ _ last in
    let (size, keeps) = all_scores-lem slots rest e in
    (
      ap length (sym same) ∙ ap suc size,
      λ j t k. ap (nth j) (sym same) ∙ at_index j t s rest slots keeps k,
    )
  where
    at_index :
        (j t s : ℕ) (rest : List ℕ) (slots : List (Option ℕ))
        → ((j t : ℕ) → nth j slots ≡ some (some t) → nth j rest ≡ some t)
        → nth j (some s ∷ slots) ≡ some (some t)
        → nth j (s ∷ rest) ≡ some t
    at_index zero t s rest slots keeps k = cc
    at_index (suc j) t s rest slots keeps k = keeps j t k

length-empty_slots : (n : ℕ) → length (empty_slots n) ≡ n
unfolding empty_slots
length-empty_slots zero = refl
length-empty_slots (suc n) = ap suc (length-empty_slots n)

-- Where a batch of `n` candidates is given scores, `n` entries were received, there are `n` scores,
-- and each entry received was an object with an index, a Boolean or an integer not below 0, and with
-- an integer or a finite float between 0 and 1, which is the score of the candidate at that index.
pub score_batch_faithful :
    (n : ℕ) (entries : List Entry) (scores : List ℕ)
    → score_batch n (some entries) ≡ ok scores
    → (length entries ≡ n) × (length scores ≡ n) × All (IsScoreOf scores) entries
unfolding score_batch IsScoreOf IsSlotOf
score_batch_faithful n entries scores h = elim (Bool-cases (nat_eq (length entries) n)) [
  | inr other ↦ absurd (ground arith)
  | inl same ↦
      let (slots, placed, rest) =
        bind-eq-ok (place_all entries (empty_slots n)) all_scores (rw same at h) in
      let (all, size, keeps) = place_all-lem entries (empty_slots n) slots placed in
      let (count, reads) = all_scores-lem slots scores rest in
      (
        ground arith,
        count ∙ size ∙ length-empty_slots n,
        All-map (λ e (i, s, shape, found). (i, s, shape, reads i s found)) entries all,
      )
]
