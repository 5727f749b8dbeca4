-- ===== src/Pipeline/Others.antt =====
-- Indexing one document leaves the entries of the others as they are.
use aithena.Base.{◌≡◌, refl, ◌∙◌, inl, inr, Bool, true, false, Option, String, str_eq, Bool-cases}
use aithena.Base.Text.{Text, codes}
use aithena.Base.Dict.{lookup}
use aithena.Control.{Redis}
use aithena.Indexer.{Result, ok, err, Metadata, Error, index_chunks, tika_failed, too_many_pages}
use aithena.Indexer.Batches.{Result-cases}
use aithena.Indexer.Documents.{
  FileState, Store, save_state, Visit, failure, mark_failure, text_saved, all_saved,
  index_embeddings, index_text, index_pages, index_document, over_limit, override_if,
  load_metadata_override, build_literal_params, caught, Worker, callback,
}
use aithena.Indexer.Outcome.{lookup-save_state_other}

module _ {V : Type 0} (visit : Visit V) (path other : String)
    (apart : str_eq path other ≡ false) where
  saved_apart :
      (updates : FileState → FileState) (redis : Store)
      → lookup other (save_state path updates redis) ≡ lookup other redis
  saved_apart updates redis = lookup-save_state_other path other updates redis apart

  failed_apart :
      (e : Error) (stage : Text) (redis : Store)
      → lookup other (mark_failure visit path e stage redis) ≡ lookup other redis
  unfolding mark_failure
  failed_apart e stage redis = saved_apart (failure visit path e stage) redis

  index_embeddings_apart :
      (parent_id : Text) (metadata : Metadata) (redis : Store)
      → lookup other (index_embeddings visit path parent_id metadata redis).1 ≡ lookup other redis
  unfolding index_embeddings
  index_embeddings_apart parent_id metadata redis =
      elim (Result-cases
        (index_chunks visit.batch_size visit.services parent_id metadata visit.page_chunks).0) [
          | inl (e, failed) ↦
              rw (failed, index_embeddings) (failed_apart e (codes "embedding_indexing") redis)
          | inr (n, done) ↦ rw (done, index_embeddings) (saved_apart (all_saved n) redis)
        ]

  index_text_apart :
      (metadata : Metadata) (thumbnail_url : Option Text) (redis : Store)
      → lookup other (index_text visit path metadata thumbnail_url redis).1 ≡ lookup other redis
  unfolding index_text
  index_text_apart metadata thumbnail_url redis =
      let parent_id = visit.sha256 metadata.file_path in
      let params =
        build_literal_params parent_id (visit.base_name metadata.file_path) metadata
          visit.page_count thumbnail_url in
      elim (Bool-cases (visit.tika_accepts params)) [
        | inl taken ↦ rw taken (
            index_embeddings_apart parent_id metadata
              (save_state path (text_saved visit path parent_id metadata) redis)
            ∙ saved_apart (text_saved visit path parent_id metadata) redis)
        | inr refused ↦ rw refused (failed_apart tika_failed (codes "text_indexing") redis)
      ]

  index_pages_apart :
      (metadata : Metadata) (redis : Store)
      → lookup other (index_pages visit path metadata redis).1 ≡ lookup other redis
  unfolding index_pages
  index_pages_apart metadata redis =
      elim (Bool-cases (over_limit visit.page_count visit.max_pdf_pages)) [
        | inl over ↦ rw over (failed_apart too_many_pages (codes "page_guard") redis)
        | inr fits ↦ elim (Result-cases visit.thumbnail) [
          | inl (e, failed) ↦ rw (fits, failed) refl
          | inr (thumbnail_url, made) ↦
              rw (fits, made)
                (index_text_apart (override_if (load_metadata_override visit.override) metadata)
                  thumbnail_url redis)
        ]
      ]

  index_document_apart :
      (redis : Store) → lookup other (index_document visit path redis).1 ≡ lookup other redis
  unfolding index_document
  index_document_apart redis = elim (Bool-cases visit.is_pdf) [
    | inr no_pdf ↦ rw no_pdf refl
    | inl pdf ↦ elim (Bool-cases visit.exists) [
      | inr gone ↦ rw (pdf, gone) refl
      | inl there ↦ elim (Result-cases visit.extract_metadata) [
        | inl (e, failed) ↦ rw (pdf, there, failed) refl
        | inr (metadata, got) ↦ rw (pdf, there, got) (index_pages_apart metadata redis)
      ]
    ]
  ]

  caught_apart :
      (persists : Bool) (done : Result Metadata × Store)
      → lookup other (caught visit persists path done) ≡ lookup other done.1
  caught_apart persists (ok metadata, redis) = refl
  caught_apart true (err e, redis) = failed_apart e (codes "unknown") redis
  caught_apart false (err e, redis) = refl

  -- callback for one path keeps the entry of every other path.
  pub callback_apart :
      (broker : Redis) (persists : Bool) (worker : Worker)
      → lookup other (callback broker visit persists path worker).redis ≡ lookup other worker.redis
  unfolding callback
  callback_apart broker persists worker =
      caught_apart persists (index_document visit path worker.redis)
      ∙ index_document_apart worker.redis
