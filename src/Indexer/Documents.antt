-- ===== src/Indexer/Documents.antt =====
-- Per-document indexing of src/document-indexer/document_indexer/__main__.py: the state in Redis,
-- index_document and callback.
--
-- Redis is a table by path (`redis_key` puts the same prefix before each). The decorators retry lost
-- connections for ever, so a save returns. What the outside answers during one visit of a document is
-- a record; the file is taken to stay as it is during the visit.
use aithena.Base.{
  ℕ, ◌+◌, Bool, true, false, not, Option, none, some, List, [], ◌∷◌, ◌++◌, String, ltb,
  if◌then◌else◌,
}
use aithena.Base.Text.{Text, codes}
use aithena.Base.Dict.{Dict, lookup, insert}
use aithena.Control.{Redis, Service, begin_processing, end_processing}
use aithena.Indexer.{
  Error, unsupported_file, file_not_found, too_many_pages, tika_failed, Result, ok, err, Metadata,
  PageChunk, Services, digits, index_chunks,
}

-- A value in a JSON object.
pub data Key (A : Type 0) : Type 0 where
  absent null : Key A
  is : A → Key A

abbrev pub or_null : {A : Type 0} → Option A → Key A
or_null none = null
or_null (some a) = is a

-- The JSON object of one path.
pub record FileState : Type 0 where
  pub path : Key String
  pub last_modified : Key ℕ
  pub processed : Key Bool
  pub failed : Key Bool
  pub error : Key Text
  pub error_stage : Key Text
  pub timestamp : Key ℕ
  pub solr_id : Key Text
  pub text_indexed : Key Bool
  pub embedding_indexed : Key Bool
  pub title : Key Text
  pub author : Key Text
  pub year : Key ℕ
  pub category : Key Text
  pub file_path : Key Text
  pub folder_path : Key Text
  pub file_size : Key ℕ
  pub page_count : Key ℕ
  pub chunk_count : Key ℕ

-- What Redis holds under a path: an object, or text that is no JSON.
pub data Stored : Type 0 where
  saved : FileState → Stored
  bad_json : Stored

abbrev pub Store : Type 0
Store = Dict Stored

-- `{"path": file_path}`
abbrev pub new_state : String → FileState
new_state file_path = record {
  path = is file_path;
  last_modified = absent;
  processed = absent;
  failed = absent;
  error = absent;
  error_stage = absent;
  timestamp = absent;
  solr_id = absent;
  text_indexed = absent;
  embedding_indexed = absent;
  title = absent;
  author = absent;
  year = absent;
  category = absent;
  file_path = absent;
  folder_path = absent;
  file_size = absent;
  page_count = absent;
  chunk_count = absent;
}

abbrev state_of : String → Option Stored → FileState
state_of file_path none = new_state file_path
state_of file_path (some bad_json) = new_state file_path
state_of file_path (some (saved s)) = s

-- load_state
unfoldable pub load_state : String → Store → FileState
load_state file_path redis = state_of file_path (lookup file_path redis)

-- save_state, whose keyword arguments are an update of the object
unfoldable pub save_state : String → (FileState → FileState) → Store → Store
unfolding load_state
save_state state_path updates redis =
    insert state_path (saved (updates (load_state state_path redis))) redis

-- A manual override in Redis: the known fields that it has.
pub record Override : Type 0 where
  pub title_s : Option Text
  pub author_s : Option Text
  pub year_i : Option ℕ
  pub category_s : Option Text
  pub series_s : Option Text

-- What Redis and the JSON parser answer for an override.
pub data OverrideReply : Type 0 where
  unavailable missing invalid : OverrideReply
  parsed : Override → OverrideReply

-- load_metadata_override
unfoldable pub load_metadata_override : OverrideReply → Option Override
load_metadata_override unavailable = none
load_metadata_override missing = none
load_metadata_override invalid = none
load_metadata_override (parsed override) = some override

abbrev or_detected : {A : Type 0} → Option A → A → A
or_detected none detected = detected
or_detected (some manual) detected = manual

abbrev or_detected_some : {A : Type 0} → Option A → Option A → Option A
or_detected_some none detected = detected
or_detected_some (some manual) detected = some manual

-- apply_metadata_override
unfoldable pub apply_metadata_override : Metadata → Override → Metadata
apply_metadata_override metadata override = record metadata {
  title = or_detected override.title_s metadata.title;
  author = or_detected override.author_s metadata.author;
  year = or_detected_some override.year_i metadata.year;
  category = or_detected_some override.category_s metadata.category;
  series = or_detected_some override.series_s metadata.series;
}

abbrev pub override_if : Option Override → Metadata → Metadata
override_if none metadata = metadata
override_if (some override) metadata = apply_metadata_override metadata override

-- an entry for a text that is there and not empty
abbrev entry : Text → Option Text → List (Text × Text)
entry name none = []
entry name (some []) = []
entry name (some (c ∷ text)) = (name, c ∷ text) ∷ []

abbrev decimal : Option ℕ → Option Text
decimal none = none
decimal (some n) = some (digits n n [])

-- build_literal_params, with the hash of the path and its last part
unfoldable pub build_literal_params :
    Text → Text → Metadata → Option ℕ → Option Text → List (Text × Text)
unfolding digits
build_literal_params doc_id name metadata page_count thumbnail_url =
    ((codes "resource.name", name)
      ∷ (codes "commitWithin", codes "10000")
      ∷ (codes "literal.id", doc_id)
      ∷ (codes "literal.title_s", metadata.title)
      ∷ (codes "literal.author_s", metadata.author)
      ∷ (codes "literal.file_path_s", metadata.file_path)
      ∷ (codes "literal.folder_path_s", metadata.folder_path)
      ∷ (codes "literal.file_size_l", digits metadata.file_size metadata.file_size [])
      ∷ [])
    ++ (entry (codes "literal.category_s") metadata.category
        ++ (entry (codes "literal.year_i") (decimal metadata.year)
            ++ (entry (codes "literal.language_detected_s") metadata.language
                ++ (entry (codes "literal.page_count_i") (decimal page_count)
                    ++ entry (codes "literal.thumbnail_url_s") thumbnail_url))))

-- What the outside answers while one document is indexed: the file and what is read from it
-- (`none` for a page count that cannot be read), what Redis has for an override, the thumbnail,
-- whether Tika takes the parameters, the services of the chunks, the hash and the last part of a
-- path, the text of an error, the clock, and the configured sizes.
pub record Visit (V : Type 0) : Type 0 where
  pub is_pdf : Bool
  pub exists : Bool
  pub mtime : ℕ
  pub extract_metadata : Result Metadata
  pub page_count : Option ℕ
  pub override : OverrideReply
  pub thumbnail : Result (Option Text)
  pub tika_accepts : List (Text × Text) → Bool
  pub page_chunks : Result (List PageChunk)
  pub services : Services V
  pub sha256 : Text → Text
  pub base_name : Text → Text
  pub describe : Error → Text
  pub now : ℕ
  pub max_pdf_pages : ℕ
  pub batch_size : ℕ

abbrev pub over_limit : Option ℕ → ℕ → Bool
over_limit none limit = false
over_limit (some pages) limit = ltb limit pages

-- the update at the end
abbrev pub all_saved : ℕ → FileState → FileState
all_saved n s = record s { processed = is true; embedding_indexed = is true; chunk_count = is n }

module _ {V : Type 0} where
  -- the update of mark_failure
  abbrev pub failure : Visit V → String → Error → Text → FileState → FileState
  failure visit path e stage s = record s {
    path = is path;
    last_modified = if visit.exists then is visit.mtime else null;
    processed = is false;
    failed = is true;
    error = is (visit.describe e);
    error_stage = is stage;
    timestamp = is visit.now;
  }

  -- mark_failure
  unfoldable pub mark_failure : Visit V → String → Error → Text → Store → Store
  mark_failure visit path e stage redis = save_state path (failure visit path e stage) redis

  -- the update after Tika took the text
  abbrev pub text_saved : Visit V → String → Text → Metadata → FileState → FileState
  text_saved visit path parent_id metadata s = record s {
    path = is path;
    last_modified = is visit.mtime;
    processed = is false;
    failed = is false;
    error = null;
    error_stage = null;
    timestamp = is visit.now;
    solr_id = is parent_id;
    text_indexed = is true;
    embedding_indexed = is false;
    title = is metadata.title;
    author = is metadata.author;
    year = or_null metadata.year;
    category = or_null metadata.category;
    file_path = is metadata.file_path;
    folder_path = is metadata.folder_path;
    file_size = is metadata.file_size;
    page_count = or_null visit.page_count;
  }

  -- phase 2 of index_document
  unfoldable pub index_embeddings :
      Visit V → String → Text → Metadata → Store → Result Metadata × Store
  index_embeddings visit path parent_id metadata redis =
      elim (index_chunks visit.batch_size visit.services parent_id metadata visit.page_chunks).0 [
        | err e ↦ (err e, mark_failure visit path e (codes "embedding_indexing") redis)
        | ok n ↦ (ok metadata, save_state path (all_saved n) redis)
      ]

  -- phase 1, then phase 2
  unfoldable pub index_text :
      Visit V → String → Metadata → Option Text → Store → Result Metadata × Store
  index_text visit path metadata thumbnail_url redis =
      let parent_id = visit.sha256 metadata.file_path in
      let params =
        build_literal_params parent_id (visit.base_name metadata.file_path) metadata
          visit.page_count thumbnail_url in
      if visit.tika_accepts params
      then index_embeddings visit path parent_id metadata
          (save_state path (text_saved visit path parent_id metadata) redis)
      else (err tika_failed, mark_failure visit path tika_failed (codes "text_indexing") redis)

  -- from the page guard to the thumbnail
  unfoldable pub index_pages : Visit V → String → Metadata → Store → Result Metadata × Store
  index_pages visit path metadata redis =
      if over_limit visit.page_count visit.max_pdf_pages
      then (err too_many_pages, mark_failure visit path too_many_pages (codes "page_guard") redis)
      else elim visit.thumbnail [
        | err e ↦ (err e, redis)
        | ok thumbnail_url ↦
            index_text visit path (override_if (load_metadata_override visit.override) metadata)
              thumbnail_url redis
      ]

  -- index_document
  unfoldable pub index_document : Visit V → String → Store → Result Metadata × Store
  index_document visit path redis =
      if not visit.is_pdf
      then (err unsupported_file, redis)
      else if not visit.exists
      then (err file_not_found, redis)
      else elim visit.extract_metadata [
        | err e ↦ (err e, redis)
        | ok metadata ↦ index_pages visit path metadata redis
      ]

-- The worker: its control object if there is one, the Redis table, and the number of acknowledged
-- deliveries.
pub record Worker : Type 0 where
  pub control : Option Service
  pub redis : Store
  pub acked : ℕ

abbrev pub with_control : (Service → Service) → Option Service → Option Service
with_control f none = none
with_control f (some service) = some (f service)

module _ {V : Type 0} where
  -- the `except` clause: the failure is persisted, unless that fails
  abbrev pub caught : Visit V → Bool → String → Result Metadata × Store → Store
  caught visit persists path (ok metadata, redis) = redis
  caught visit persists path (err e, redis) =
      if persists then mark_failure visit path e (codes "unknown") redis else redis

  -- callback
  unfoldable pub callback : Redis → Visit V → Bool → String → Worker → Worker
  callback broker visit persists path worker = record {
    control =
        with_control (end_processing broker) (with_control (begin_processing path) worker.control);
    redis = caught visit persists path (index_document visit path worker.redis);
    acked = worker.acked + 1;
  }
