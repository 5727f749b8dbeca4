-- ===== src/Indexer.antt =====
-- The chunk indexing of src/document-indexer/document_indexer/__main__.py and embeddings.py.
--
-- The embeddings server, Solr and the PDF reader are outside: their answers are arguments, one per
-- batch and named by the batch's first index, so that they may differ from batch to batch.
pub mod Batches
pub mod Documents
pub mod Outcome
pub mod Startup
mod Tests
use aithena.Base.{
  ℕ, zero, suc, ◌+◌, ◌-◌, ◌/◌, ◌%◌, ◌≡◌, Bool, true, false, Option, none, some, List, [], ◌∷◌, ◌++◌,
  map, ltb, ◌==◌, if◌then◌else◌, length, take, drop, replicate,
}
use aithena.Base.Text.{Text, codes}

-- What can be raised while a document is indexed, without the texts.
pub data Error : Type 0 where
  unsupported_file file_not_found metadata_failed too_many_pages thumbnail_failed tika_failed :
      Error
  extract_failed chunking_failed embeddings_failed wrong_count post_failed : Error

pub data Result (A : Type 0) : Type 0 where
  ok : A → Result A
  err : Error → Result A

-- The dict of extract_metadata; None, and a key that it does not set, is none.
pub record Metadata : Type 0 where
  pub title : Text
  pub author : Text
  pub file_path : Text
  pub folder_path : Text
  pub file_size : ℕ
  pub category : Option Text
  pub year : Option ℕ
  pub language : Option Text
  pub series : Option Text

-- EmbeddingResult
pub record EmbeddingResult (V : Type 0) : Type 0 where
  pub vector : V
  pub field_name : Text

-- The document of one chunk.
pub record ChunkDoc (V : Type 0) : Type 0 where
  pub id : Text
  pub parent_id_s : Text
  pub chunk_index_i : ℕ
  pub chunk_text_t : Text
  pub vector_field : Text
  pub vector : V
  pub title_s : Text
  pub author_s : Text
  pub file_path_s : Text
  pub folder_path_s : Text
  pub category_s : Option Text
  pub year_i : Option ℕ
  pub language_detected_s : Option Text
  pub page_start_i : ℕ
  pub page_end_i : ℕ

-- What the outside answers to the batch that starts at an index: the embeddings, and whether Solr
-- takes the documents.
pub record Services (V : Type 0) : Type 0 where
  pub server : ℕ → List Text → Result (List (EmbeddingResult V))
  pub accepts : ℕ → Bool

-- A chunk with the pages it starts and ends on.
abbrev pub PageChunk : Type 0
PageChunk = Text × ℕ × ℕ

-- the decimal digits of a number, put before others; as many steps as the number suffice
unfoldable pub digits : ℕ → ℕ → Text → Text
digits zero n rest = (48 + n % 10) ∷ rest
digits (suc fuel) n rest =
    let more = digits fuel (n / 10) ((48 + n % 10) ∷ rest) in
    if ltb n 10 then (48 + n % 10) ∷ rest else more

-- `f"{n:04d}"`
unfoldable pub four_digits : ℕ → Text
unfolding digits
four_digits n = let text = digits n n [] in replicate (4 - length text) 48 ++ text

-- `if metadata.get(key)` for a text: the empty one counts as none
abbrev given_text : Option Text → Option Text
given_text none = none
given_text (some []) = none
given_text (some (c ∷ t)) = some (c ∷ t)

module _ {V : Type 0} where
  -- build_chunk_doc, whose pages are given by its only caller
  unfoldable pub build_chunk_doc : Text → Metadata → ℕ → PageChunk → EmbeddingResult V → ChunkDoc V
  unfolding four_digits
  build_chunk_doc parent_id metadata chunk_index (chunk, first, last) embedding = record {
    id = parent_id ++ (codes "_chunk_" ++ four_digits chunk_index);
    parent_id_s = parent_id;
    chunk_index_i = chunk_index;
    chunk_text_t = chunk;
    vector_field = embedding.field_name ++ codes "_v";
    vector = embedding.vector;
    title_s = metadata.title;
    author_s = metadata.author;
    file_path_s = metadata.file_path;
    folder_path_s = metadata.folder_path;
    category_s = given_text metadata.category;
    year_i = metadata.year;
    language_detected_s = given_text metadata.language;
    page_start_i = first;
    page_end_i = last;
  }

  -- get_embeddings: the server's answer, and the check of their number
  unfoldable pub get_embeddings :
      (List Text → Result (List (EmbeddingResult V)))
      → List Text
      → Result (List (EmbeddingResult V))
  get_embeddings server texts = elim (server texts) [
    | err e ↦ err e
    | ok results ↦ if length results == length texts then ok results else err wrong_count
  ]

  -- the comprehension `docs`: `zip` stops at the shorter list
  unfoldable pub batch_docs :
      Text → Metadata → ℕ → List PageChunk → List (EmbeddingResult V) → List (ChunkDoc V)
  batch_docs parent_id metadata index [] results = []
  batch_docs parent_id metadata index (chunk ∷ batch) [] = []
  batch_docs parent_id metadata index (chunk ∷ batch) (result ∷ results) =
      build_chunk_doc parent_id metadata index chunk result
      ∷ batch_docs parent_id metadata (suc index) batch results

  -- after `post`: what the loop goes on with, or the error of `raise_for_status`
  abbrev sent :
      Bool
      → List (ChunkDoc V)
      → Result ℕ × List (List (ChunkDoc V))
      → Result ℕ × List (List (ChunkDoc V))
  sent false docs rest = (err post_failed, [])
  sent true docs (result, batches) = (result, docs ∷ batches)

  -- The loop from an index on, over the chunks that are left: the result, and the batches that Solr
  -- took. A round takes at least one chunk, so as many rounds as chunks suffice.
  unfoldable pub index_batches :
      ℕ
      → ℕ
      → Services V
      → Text
      → Metadata
      → ℕ
      → ℕ
      → List PageChunk
      → Result ℕ × List (List (ChunkDoc V))
  index_batches fuel batch_size services parent_id metadata start total [] = (ok total, [])
  index_batches zero batch_size services parent_id metadata start total (chunk ∷ chunks) =
      (ok total, [])
  index_batches (suc fuel) batch_size services parent_id metadata start total (chunk ∷ chunks) =
      let batch = take batch_size (chunk ∷ chunks) in
      let texts = map (λ (c : PageChunk). c.0) batch in
      elim (get_embeddings (services.server start) texts) [
        | err e ↦ (err e, [])
        | ok results ↦
            let docs = batch_docs parent_id metadata start batch results in
            sent (services.accepts start) docs (
              index_batches fuel batch_size services parent_id metadata (start + batch_size)
                (total + length docs) (drop batch_size (chunk ∷ chunks)))
      ]

  -- index_chunks, from the chunks of the PDF on
  unfoldable pub index_chunks :
      ℕ
      → Services V
      → Text
      → Metadata
      → Result (List PageChunk)
      → Result ℕ × List (List (ChunkDoc V))
  index_chunks batch_size services parent_id metadata (err e) = (err e, [])
  index_chunks batch_size services parent_id metadata (ok page_chunks) =
      index_batches (length page_chunks) batch_size services parent_id metadata 0 0 page_chunks
