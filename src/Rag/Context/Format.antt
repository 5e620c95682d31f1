-- ===== src/Rag/Context/Format.antt =====
-- `_format_context` of backend/app/rag/context.py: the numbered blocks of the prompt.
use etoeragcb.Base.{ℕ, suc, Option, none, some, List, [], ◌∷◌, ◌++◌}
use etoeragcb.Base.Text.{Text, codes, join, decimal}
use etoeragcb.Rag.Records.{EvidenceCandidate, RerankedEvidence, SourceType, document, web}

unfoldable pub source_type_text : SourceType → Text
source_type_text document = codes "document"
source_type_text web = codes "web"

optional_part : Text → Option Text → List Text
optional_part name none = []
optional_part name (some value) = (name ++ value) ∷ []

pages_part : Option ℕ → Option ℕ → List Text
pages_part (some a) (some b) = (codes "pages=" ++ (decimal a ++ (codes "-" ++ decimal b))) ∷ []
pages_part a b = []

metadata_of : EvidenceCandidate → List Text
unfolding source_type_text optional_part pages_part
metadata_of c =
    (codes "type=" ++ source_type_text c.source_type)
    ∷ (codes "title=" ++ c.title)
    ∷ (optional_part (codes "file=") c.source_filename
        ++ (pages_part c.page_start c.page_end ++ optional_part (codes "url=") c.uri))

-- The text of a web source stands between markers that say it is not trusted.
content_of : ℕ → SourceType → Text → Text
content_of index document text = text
content_of index web text =
    codes "--- BEGIN UNTRUSTED WEB SOURCE S"
    ++ (decimal index
        ++ (codes " ---\n"
            ++ (text
                ++ (codes "\n--- END UNTRUSTED WEB SOURCE S" ++ (decimal index ++ codes " ---")))))

block_of : ℕ → EvidenceCandidate → Text
unfolding metadata_of content_of
block_of index c =
    codes "[S"
    ++ (decimal index
        ++ (codes "] "
            ++ (join (codes " | ") (metadata_of c)
                ++ (codes "\n" ++ content_of index c.source_type c.text_original))))

blocks_from : ℕ → List RerankedEvidence → List Text
unfolding block_of
blocks_from index [] = []
blocks_from index (item ∷ rest) = block_of index item.candidate ∷ blocks_from (suc index) rest

unfoldable pub format_context : List RerankedEvidence → Text
unfolding blocks_from
format_context candidates = join (codes "\n\n") (blocks_from 1 candidates)
