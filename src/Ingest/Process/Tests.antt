-- ===== src/Ingest/Process/Tests.antt =====
-- Runs of `process` at concrete inputs.
use etoeragcb.Base.{
  ℕ, ◌≡◌, refl, some, List, [], ◌∷◌, ◌++◌, map, length, nat_eq, if◌then◌else◌, none,
}
use etoeragcb.Base.Text.{codes, text_eq, join, strip, is_space}
use etoeragcb.Base.Table.{select_where, get_row, having, set_row, select_where}
use etoeragcb.Base.Result.{ok, raise}
use etoeragcb.Ingest.Tables.{IngestionJob, BuiltSection}
use etoeragcb.Ingest.Chunker.{Calls, add_chunk, BuiltChunk}
use etoeragcb.Ingest.Sections.{SectionCalls, path_eq}
use etoeragcb.Ingest.Jobs.{JobError, service, job_row}
use etoeragcb.Ingest.Jobs.Samples.{store, second}
use etoeragcb.Ingest.Process.{
  ◌>>=◌, ◌>>◌, call, done, transact, on_index, IndexPoint, Settings, Clock, Services, World,
  batches_of,
}
use etoeragcb.Ingest.Process.Pipeline.{process, point_of, points_of, index_batches}
use etoeragcb.Ingest.Process.Laws.{IsKept}
use etoeragcb.Ingest.Process.Failure.{IsMarked, process_fails}
use etoeragcb.Ingest.Process.Batches.{IsPlain, index_batches_lem}
use etoeragcb.Base.Dict.{get}

abbrev section_calls : SectionCalls
section_calls = record { normalize_lexical = λ t. t; uuid5 = λ v name. length name }

-- Every text is one token.
abbrev chunk_calls : ℕ → Calls
chunk_calls version_id = record {
  token_spans = λ t. ok (record { start = 0; end = length t } ∷ []);
  normalize_lexical = λ t. t;
  sha256_text = λ t. t;
  stable_chunk_id = λ page section char_start occurrence content. length content;
}

abbrev refused : JobError
refused = service (codes "IndexValidationError") (codes "count differs")

-- The index is the list of its points, and takes a version where it has as many as are expected.
abbrev services : Services (List (IndexPoint ℕ)) ℕ
services = record {
  parse_document = λ version document. ok (
      record { text_original = codes "x"; page_number = 1; heading_path = [] }
      ∷ record { text_original = codes "yz"; page_number = 2; heading_path = [] }
      ∷ []);
  section_calls = section_calls;
  chunk_calls = chunk_calls;
  tokenizer_error = refused;
  embed = λ texts. ok (map length texts);
  sparse_lexical_vector = λ t. record { indices = []; values = [] };
  inject = λ stage. ok tt;
  prepare = λ points. (points, ok tt);
  delete_versions = λ tenant_id version_ids points. ([], ok tt);
  upsert = λ new points. (points ++ new, ok tt);
  validate_version = λ tenant_id version_id expected sample_id points.
      (points, (if nat_eq (length points) expected then ok tt else raise refused));
}

abbrev broken : Services (List (IndexPoint ℕ)) ℕ
broken = record services { upsert = λ new points. (points, ok tt) }

abbrev settings : Settings
settings = record { chunk_tokens = 10; chunk_overlap = 2; batch_size = 1; heartbeat_timeout = 60 }

abbrev clock : Clock
clock = record {
  started = 100;
  persisted = 101;
  beat = 102;
  validated = 103;
  activated = 104;
  stopped = 105;
}

abbrev world : World (List (IndexPoint ℕ))
world = record { store = store; index = [] }

-- The two chunks are indexed in two batches, and the version is activated.
indexed :
    map {B = ℕ × ℕ} (λ p. (p.id, p.dense)) (process services settings clock 11 7 world).0.index
    ≡ (1, 1) ∷ (2, 2) ∷ []
unfolding process ◌>>=◌ ◌>>◌ call done transact on_index get_row having set_row strip is_space
    add_chunk path_eq text_eq join select_where
indexed = refl

-- An index that loses its points is refused.
refused_run : (process broken settings clock 11 7 world).1 ≡ raise refused
unfolding process ◌>>=◌ ◌>>◌ call done transact on_index get_row having set_row strip is_space
    add_chunk path_eq text_eq join
refused_run = refl

process_fails_example :
    IsKept store (process broken settings clock 11 7 world).0.store
    × ((job : IngestionJob)
        → job_row 7 (process broken settings clock 11 7 world).0.store ≡ some job
        → IsMarked refused job)
process_fails_example = process_fails broken settings clock 11 7 world refused refused_run

abbrev plain_services : IsPlain services
plain_services = record { vector = length; embeds = λ texts. refl; appends = λ new points. refl }

abbrev chunk_of : ℕ → BuiltChunk
chunk_of id = record {
  id = id;
  section_id = 8;
  occurrence_index = 0;
  chunk_index = id;
  page_start = 1;
  page_end = 1;
  char_start = 0;
  char_end = 1;
  content_sha256 = [];
  lexical_sha256 = [];
  token_count = 1;
  text_original = codes "x";
  text_lexical = codes "x";
}

abbrev three : List BuiltChunk
three = chunk_of 0 ∷ chunk_of 1 ∷ chunk_of 2 ∷ []

abbrev section : BuiltSection
section = record {
  id = 8;
  parent_id = none;
  ordinal = 0;
  level = 1;
  heading_original = [];
  heading_lexical = [];
  page_start = 1;
  page_end = 1;
  path_original = [];
  path_lexical = [];
}

abbrev point : ℕ → IndexPoint ℕ
unfolding point_of
point id = point_of services second 10 [] section (chunk_of id) 1

index_batches_lem_example :
    let after =
      index_batches services clock 7 second 10 []
        ((8, section) ∷ [])
        ((chunk_of 0 ∷ chunk_of 1 ∷ []) ∷ (chunk_of 2 ∷ []) ∷ [])
        world in
    (after.1 ≡ ok tt) × (after.0.index ≡ point 0 ∷ point 1 ∷ point 2 ∷ [])
unfolding batches_of points_of get point_of
index_batches_lem_example =
    index_batches_lem services plain_services second 10 [] ((8, section) ∷ []) clock 7 2 three
      ((chunk_of 0 ∷ chunk_of 1 ∷ []) ∷ (chunk_of 2 ∷ []) ∷ []) (point 0 ∷ point 1 ∷ point 2 ∷ [])
      world refl refl
