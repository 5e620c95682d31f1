-- ===== src/Rag/Reranker.antt =====
-- `Reranker` of backend/app/rag/reranker.py: evidence is scored in batches by a service, and ordered
-- by its scores. The service's answer to a request, and the cache, are parameters.
pub mod Laws
pub mod Order
mod Tests
use etoeragcb.Base.{
  ℕ, zero, suc, Bool, true, false, not, ◌&&◌, ◌||◌, Option, none, some, List, [], ◌∷◌, ◌++◌, length,
  take, drop, ltb, leb, ◌*◌, nat_eq, if◌then◌else◌,
}
use etoeragcb.Base.Text.{Text}
use etoeragcb.Base.Float.{one}
use etoeragcb.Base.Result.{Result, ok, raise, ◌>>=◌, ◌>>◌, raise_if}
use etoeragcb.Base.Sort.{sort_by}
use etoeragcb.Rag.Records.{EvidenceCandidate, RerankedEvidence}
use etoeragcb.Rag.Candidates.Order.{stable_candidate_key, key_leb, ranked_candidates}

-- What `response.json()` makes of a value, as far as `_score_batch` looks at it. A number is given by
-- its sign, `true` for minus, and its size; a float's size is a multiple of 2^-1074.
pub data JsonValue : Type 0 where
  not_a_number not_finite : JsonValue
  boolean : Bool → JsonValue
  integer finite : Bool → ℕ → JsonValue

pub data Entry : Type 0 where
  not_an_object : Entry
  entry : JsonValue → JsonValue → Entry

pub data RerankServiceError : Type 0 where
  request_failed invalid_count malformed_result invalid_index_or_score : RerankServiceError
  score_outside omitted_result : RerankServiceError

-- `index < len(candidates) and scores[index] is None`.
unfoldable pub is_free : ℕ → List (Option ℕ) → Bool
is_free i [] = false
is_free zero (none ∷ slots) = true
is_free zero (some s ∷ slots) = false
is_free (suc i) (slot ∷ slots) = is_free i slots

-- `scores[index] = normalized`.
unfoldable pub fill : ℕ → ℕ → List (Option ℕ) → List (Option ℕ)
fill i s [] = []
fill zero s (slot ∷ slots) = some s ∷ slots
fill (suc i) s (slot ∷ slots) = slot ∷ fill i s slots

-- `isinstance(index, int)` and `index >= 0`: a Boolean is an integer.
unfoldable pub index_value : JsonValue → Option ℕ
index_value (boolean b) = some (if b then 1 else 0)
index_value (integer false n) = some n
index_value (integer true zero) = some 0
index_value (integer true (suc n)) = none
index_value v = none

-- `0.0 <= normalized <= 1.0`.
unfoldable pub unit_between : Bool → ℕ → Option ℕ
unit_between below n =
    if below && not (nat_eq n 0) then none else if leb n one then some n else none

-- The score, a Boolean or no number excluded, and with it whether it is finite and between 0 and 1. An
-- integer too large for a double is out of range here; Python raises OverflowError for it.
unfoldable pub unit_of : JsonValue → Option (Option ℕ)
unfolding unit_between
unit_of not_a_number = none
unit_of (boolean b) = none
unit_of not_finite = some none
unit_of (integer below n) = some (unit_between below (n * one))
unit_of (finite below n) = some (unit_between below n)

-- A round of the loop over the entries, from the index and the score.
unfoldable pub place_at :
    List (Option ℕ) → Option ℕ → Option (Option ℕ) → Result RerankServiceError (List (Option ℕ))
unfolding is_free fill
place_at slots none score = raise invalid_index_or_score
place_at slots (some i) none = raise invalid_index_or_score
place_at slots (some i) (some none) =
    if is_free i slots then raise score_outside else raise invalid_index_or_score
place_at slots (some i) (some (some s)) =
    if is_free i slots then ok (fill i s slots) else raise invalid_index_or_score

unfoldable pub place : List (Option ℕ) → Entry → Result RerankServiceError (List (Option ℕ))
unfolding index_value unit_of place_at
place slots not_an_object = raise malformed_result
place slots (entry i s) = place_at slots (index_value i) (unit_of s)

unfoldable pub place_all :
    List Entry → List (Option ℕ) → Result RerankServiceError (List (Option ℕ))
unfolding place
place_all [] slots = ok slots
place_all (e ∷ entries) slots = place slots e >>= place_all entries

unfoldable pub empty_slots : ℕ → List (Option ℕ)
empty_slots zero = []
empty_slots (suc n) = none ∷ empty_slots n

-- `if any(score is None ...)`, and the tuple of the scores.
unfoldable pub all_scores : List (Option ℕ) → Result RerankServiceError (List ℕ)
all_scores [] = ok []
all_scores (none ∷ slots) = raise omitted_result
all_scores (some s ∷ slots) = do rest ← all_scores slots; ok (s ∷ rest)

-- `_score_batch`, on the entries that were received for `n` candidates; `none` for no list.
unfoldable pub score_batch : ℕ → Option (List Entry) → Result RerankServiceError (List ℕ)
unfolding place_all empty_slots all_scores
score_batch n none = raise invalid_count
score_batch n (some entries) = do
  raise_if (not (nat_eq (length entries) n)) invalid_count
  slots ← place_all entries (empty_slots n)
  all_scores slots

-- `_score`: batch after batch. Each takes a candidate at least, so the number of candidates is fuel
-- enough.
unfoldable pub score :
    (List EvidenceCandidate → Result RerankServiceError (Option (List Entry)))
    → ℕ
    → ℕ
    → List EvidenceCandidate
    → Result RerankServiceError (List ℕ)
unfolding score_batch
score service batch_size zero cs = ok []
score service batch_size (suc fuel) [] = ok []
score service batch_size (suc fuel) (c ∷ cs) = do
  let batch = take batch_size (c ∷ cs)
  entries ← service batch
  first ← score_batch (length batch) entries
  rest ← score service batch_size fuel (drop batch_size (c ∷ cs))
  ok (first ++ rest)

-- `cached or await self._score(...)`: an empty tuple counts as no scores.
unfoldable pub cached_or :
    Option (List ℕ) → Result RerankServiceError (List ℕ) → Result RerankServiceError (List ℕ)
cached_or none scored = scored
cached_or (some []) scored = scored
cached_or (some (s ∷ scores)) scored = ok (s ∷ scores)

unfoldable pub pair_up : List EvidenceCandidate → List ℕ → List (EvidenceCandidate × ℕ)
pair_up [] scores = []
pair_up (c ∷ cs) [] = []
pair_up (c ∷ cs) (s ∷ scores) = (c, s) ∷ pair_up cs scores

-- The order by (-score, rank, id).
unfoldable pub score_leb : EvidenceCandidate × ℕ → EvidenceCandidate × ℕ → Bool
score_leb (c, s) (c', s') =
    ltb s' s || (nat_eq s s' && key_leb (stable_candidate_key c) (stable_candidate_key c'))

-- `enumerate(order, start=1)`.
unfoldable pub number_ranks : ℕ → List (EvidenceCandidate × ℕ) → List RerankedEvidence
number_ranks rank [] = []
number_ranks rank ((c, s) ∷ rest) =
    record { candidate = c; rerank_score = s; rerank_rank = rank } ∷ number_ranks (suc rank) rest

unfoldable pub order_by_score : List EvidenceCandidate → List ℕ → List RerankedEvidence
unfolding pair_up score_leb number_ranks
order_by_score bounded scores = number_ranks 1 (sort_by score_leb (pair_up bounded scores))

unfoldable pub rerank_bounded :
    (List EvidenceCandidate → Result RerankServiceError (Option (List Entry)))
    → (List EvidenceCandidate → Option (List ℕ))
    → ℕ
    → List EvidenceCandidate
    → Result RerankServiceError (List RerankedEvidence)
unfolding score cached_or order_by_score
rerank_bounded service cache batch_size [] = ok []
rerank_bounded service cache batch_size (c ∷ cs) = do
  scores ← cached_or (cache (c ∷ cs)) (score service batch_size (length (c ∷ cs)) (c ∷ cs))
  ok (order_by_score (c ∷ cs) scores)

unfoldable pub rerank :
    (List EvidenceCandidate → Result RerankServiceError (Option (List Entry)))
    → (List EvidenceCandidate → Option (List ℕ))
    → ℕ
    → ℕ
    → List EvidenceCandidate
    → Result RerankServiceError (List RerankedEvidence)
unfolding rerank_bounded
rerank service cache batch_size max_candidates candidates =
    rerank_bounded service cache batch_size (take max_candidates (ranked_candidates candidates))
