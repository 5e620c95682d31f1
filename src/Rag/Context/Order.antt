-- ===== src/Rag/Context/Order.antt =====
-- `_evidence_order` of backend/app/rag/context.py: evidence for each exact term first, then the best
-- of each kind of source, then the rest by rank.
use etoeragcb.Base.{
  Bool, true, false, not, ◌&&◌, Option, none, some, List, [], ◌∷◌, ◌++◌, map, if◌then◌else◌,
  text_keys,
}
use etoeragcb.Base.Text.{Text}
use etoeragcb.Base.Counter.{contains, difference, add_all}
use etoeragcb.Rag.Records.{RerankedEvidence, SourceType, document, web, id_of}
use etoeragcb.Rag.Candidates.Order.{ranked}

is_empty : List Text → Bool
is_empty [] = true
is_empty (x ∷ xs) = false

-- The items that bring a term which no earlier one brought.
unfoldable pub term_representatives : List Text → List RerankedEvidence → List RerankedEvidence
unfolding is_empty
term_representatives terms [] = []
term_representatives terms (item ∷ rest) =
    let own = item.candidate.matched_exact_terms in
    let skipped = term_representatives terms rest in
    let taken = term_representatives (add_all terms own) rest in
    if is_empty (difference own terms) then skipped else item ∷ taken

same_type : SourceType → SourceType → Bool
same_type document document = true
same_type web web = true
same_type a b = false

-- `next(...)`: the best ranked item of a kind that is not represented.
unfoldable pub first_of_type :
    SourceType → List Text → List RerankedEvidence → Option RerankedEvidence
unfolding same_type
first_of_type kind ids [] = none
first_of_type kind ids (item ∷ rest) =
    if same_type item.candidate.source_type kind && not (contains (id_of item) ids)
    then some item
    else first_of_type kind ids rest

unfoldable pub with_representative :
    List RerankedEvidence → List RerankedEvidence → SourceType → List RerankedEvidence
with_representative order chosen kind = elim (first_of_type kind (map id_of chosen) order) [
  | none ↦ chosen
  | some item ↦ chosen ++ item ∷ []
]

unfoldable pub without_ids : List Text → List RerankedEvidence → List RerankedEvidence
without_ids ids [] = []
without_ids ids (item ∷ rest) =
    if contains (id_of item) ids then without_ids ids rest else item ∷ without_ids ids rest

unfoldable pub evidence_order : List RerankedEvidence → List RerankedEvidence
unfolding with_representative without_ids
evidence_order candidates =
    let order = ranked candidates in
    let by_terms = term_representatives [] order in
    let by_types = with_representative order (with_representative order by_terms document) web in
    by_types ++ without_ids (map id_of by_types) order
