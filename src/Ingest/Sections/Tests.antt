-- ===== src/Ingest/Sections/Tests.antt =====
-- Sections at concrete inputs.
use etoeragcb.Base.{ℕ, ◌+◌, ◌≡◌, refl, ap, List, [], ◌∷◌, ◌++◌, map}
use etoeragcb.Base.Text.{Text, codes, join, text_eq, strip, is_space}
use etoeragcb.Base.Sort.{sort_by}
use etoeragcb.Base.Dict.{get, set}
use etoeragcb.Ingest.Sections.{ParsedBlock, SectionCalls, section_id_of, build_sections, path_eq}
use etoeragcb.Ingest.Sections.Result.{IsOutline, build_sections-IsOutline}

-- An identifier that is the sum of the code points.
abbrev total : Text → ℕ
total [] = 0
total (c ∷ s) = c + total s

abbrev calls : SectionCalls
calls = record { normalize_lexical = λ t. t; uuid5 = λ v name. total name }

abbrev blocks : List ParsedBlock
blocks =
    record { text_original = codes "x"; page_number = 1; heading_path = codes "A" ∷ codes "B" ∷ [] }
    ∷ record {
      text_original = codes "y";
      page_number = 2;
      heading_path = codes "A" ∷ codes "C" ∷ [];
    }
    ∷ record { text_original = codes "z"; page_number = 3; heading_path = [] }
    ∷ []

levels :
    map {B = ℕ × ℕ × ℕ} (λ s. (s.ordinal, s.level, s.page_end)) (build_sections calls 1 blocks).0
    ≡ (0, 1, 2) ∷ (1, 2, 1) ∷ (2, 2, 2) ∷ (3, 1, 3) ∷ []
unfolding build_sections get set path_eq text_eq strip sort_by is_space
levels = refl

build_sections-IsOutline_example : IsOutline (build_sections calls 1 blocks)
build_sections-IsOutline_example = build_sections-IsOutline calls 1 blocks

-- A heading with a slash has the identifier of the two headings that the slash divides.
section_ids_meet :
    (k : SectionCalls) (v : ℕ) (a b : Text)
    → k.normalize_lexical (a ++ (codes "/" ++ b))
      ≡ k.normalize_lexical a ++ (codes "/" ++ k.normalize_lexical b)
    → section_id_of k v ((a ++ (codes "/" ++ b)) ∷ []) ≡ section_id_of k v (a ∷ b ∷ [])
unfolding section_id_of join
section_ids_meet k v a b h = ap (λ z. k.uuid5 v (codes "section:" ++ z)) h
