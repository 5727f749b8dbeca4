-- ===== src/Indexer/Outcome.antt =====
-- What a delivery leaves behind.
pub mod Stages
use aithena.Base.{
  ◌+◌, ◌≡◌, refl, ap, ◌∙◌, ◌⊎◌, inl, inr, Bool, true, false, Option, none, some, List, String,
  str_eq, eq_iff, arith, if◌then◌else◌, Bool-cases,
}
use aithena.Base.Text.{Text, codes}
use aithena.Base.Dict.{lookup, lookup-insert}
use aithena.Control.{Redis, Service, begin_processing, end_processing}
use aithena.Indexer.{
  Error, Result, ok, err, Metadata, index_chunks, too_many_pages, tika_failed, unsupported_file,
  file_not_found,
}
use aithena.Indexer.Batches.{Result-cases}
use aithena.Indexer.Outcome.Stages.{
  IsIndexed, IsFailed, Has, IsRead, params_of, parent_of, TextRecorded, Recorded,
}
use aithena.Indexer.Documents.{
  null, is, FileState, saved, Store, load_state, save_state, Visit, failure, mark_failure,
  text_saved, all_saved, index_embeddings, index_text, index_pages, index_document, over_limit,
  override_if, load_metadata_override, build_literal_params, Worker, with_control, caught, callback,
}

str_eq_refl : (a : String) → str_eq a a ≡ true
str_eq_refl a = ground (arith, eq_iff a a)

lookup-save_state :
    (path : String) (updates : FileState → FileState) (redis : Store)
    → lookup path (save_state path updates redis) ≡ some (saved (updates (load_state path redis)))
unfolding save_state
lookup-save_state path updates redis =
    lookup-insert path path (saved (updates (load_state path redis))) redis
    ∙ ap
        (λ (b : Bool).
          if b then some (saved (updates (load_state path redis))) else lookup path redis)
        (str_eq_refl path)

pub lookup-save_state_other :
    (path other : String) (updates : FileState → FileState) (redis : Store)
    → str_eq path other ≡ false
    → lookup other (save_state path updates redis) ≡ lookup other redis
unfolding save_state
lookup-save_state_other path other updates redis apart =
    lookup-insert path other (saved (updates (load_state path redis))) redis
    ∙ ap
        (λ (b : Bool).
          if b then some (saved (updates (load_state path redis))) else lookup other redis)
        apart

load_state-save_state :
    (path : String) (updates : FileState → FileState) (redis : Store)
    → load_state path (save_state path updates redis) ≡ updates (load_state path redis)
unfolding load_state
load_state-save_state path updates redis = rw (lookup-save_state path updates redis) refl

module _ {V : Type 0} (visit : Visit V) (path : String) where
  mark_failure-IsFailed :
      (e : Error) (stage : Text) (redis : Store)
      → Has (IsFailed (visit.describe e) stage) path (mark_failure visit path e stage redis)
  unfolding mark_failure
  mark_failure-IsFailed e stage redis = (
    failure visit path e stage (load_state path redis),
    lookup-save_state path (failure visit path e stage) redis,
    record { processed = refl; failed = refl; error = refl; error_stage = refl },
  )

  index_embeddings-Recorded :
      (metadata : Metadata) (thumbnail_url : Option Text) (redis : Store)
      → visit.tika_accepts (params_of visit path metadata thumbnail_url) ≡ true
      → TextRecorded visit path metadata thumbnail_url (
          index_embeddings visit path (parent_of visit path metadata) metadata (
            save_state path (text_saved visit path (parent_of visit path metadata) metadata) redis))
  unfolding index_embeddings
  index_embeddings-Recorded metadata thumbnail_url redis taken =
      let first = text_saved visit path (parent_of visit path metadata) metadata in
      let middle = save_state path first redis in
      elim (Result-cases
        (index_chunks visit.batch_size visit.services (parent_of visit path metadata) metadata
          visit.page_chunks).0) [
            | inl (e, failed) ↦
                rw (failed, index_embeddings)
                  (inr (taken, failed, mark_failure-IsFailed e (codes "embedding_indexing") middle))
            | inr (n, done) ↦
                rw (done, index_embeddings)
                  (
                    all_saved n (first (load_state path redis)),
                    lookup-save_state path (all_saved n) middle
                        ∙ ap (λ (s : FileState). some (saved (all_saved n s)))
                            (load_state-save_state path first redis),
                    record {
                      processed = refl;
                      failed = refl;
                      error = refl;
                      error_stage = refl;
                      text_indexed = refl;
                      embedding_indexed = refl;
                    },
                  )
          ]

  index_text-Recorded :
      (metadata : Metadata) (thumbnail_url : Option Text) (redis : Store)
      → TextRecorded visit path metadata thumbnail_url
          (index_text visit path metadata thumbnail_url redis)
  unfolding index_text
  index_text-Recorded metadata thumbnail_url redis =
      elim (Bool-cases (visit.tika_accepts (params_of visit path metadata thumbnail_url))) [
        | inl taken ↦
            rw (index_text, taken) (index_embeddings-Recorded metadata thumbnail_url redis taken)
        | inr refused ↦
            rw (index_text, refused)
              (inl (refused, refl, mark_failure-IsFailed tika_failed (codes "text_indexing") redis))
      ]

  TextRecorded→Recorded :
      (found : Metadata) (thumbnail_url : Option Text) (before : Store)
      (done : Result Metadata × Store)
      → IsRead visit path found
      → over_limit visit.page_count visit.max_pdf_pages ≡ false
      → visit.thumbnail ≡ ok thumbnail_url
      → TextRecorded visit path
          (override_if (load_metadata_override visit.override) found)
          thumbnail_url
          done
      → Recorded visit path before done
  TextRecorded→Recorded found thumbnail_url before (ok metadata, redis) read fits made h = h
  TextRecorded→Recorded found thumbnail_url before (err e, redis) read fits made h =
      inr (inr (found, thumbnail_url, read, fits, made, h))

  same-Recorded :
      (before : Store) (same : Result Metadata × Store) {done : Result Metadata × Store}
      → done ≡ same
      → Recorded visit path before same
      → Recorded visit path before done
  same-Recorded before same e h = rw e h

  index_pages-Recorded :
      (found : Metadata) (redis : Store)
      → IsRead visit path found
      → Recorded visit path redis (index_pages visit path found redis)
  unfolding index_pages
  index_pages-Recorded found redis read =
      elim (Bool-cases (over_limit visit.page_count visit.max_pdf_pages)) [
        | inl over ↦
            same-Recorded redis
              (
                err too_many_pages,
                mark_failure visit path too_many_pages (codes "page_guard") redis,
              )
              (rw (over, index_pages) refl)
              (inr (
                inl (
                  found,
                  read,
                  over,
                  refl,
                  mark_failure-IsFailed too_many_pages (codes "page_guard") redis,
                )))
        | inr fits ↦ elim (Result-cases visit.thumbnail) [
          | inl (e, failed) ↦
              same-Recorded redis (err e, redis) (rw (fits, failed, index_pages) refl)
                (inl (inr (inr (inr (found, read, fits, failed))), refl))
          | inr (thumbnail_url, made) ↦
              let used = override_if (load_metadata_override visit.override) found in
              same-Recorded redis (index_text visit path used thumbnail_url redis)
                (simp (fits, made, index_pages))
                (TextRecorded→Recorded found thumbnail_url redis
                  (index_text visit path used thumbnail_url redis) read fits made
                  (index_text-Recorded used thumbnail_url redis))
        ]
      ]

  -- After index_document: if it returned, the object under the path says that text and chunks are
  -- indexed and nothing failed. If it raised before the stages or at the thumbnail, the entry is as
  -- before; if the page guard raised, Tika refused the text, or the chunks failed, the object says
  -- that the document failed, with that error and the stage "page_guard", "text_indexing" or
  -- "embedding_indexing".
  pub index_document-Recorded :
      (redis : Store) → Recorded visit path redis (index_document visit path redis)
  unfolding index_document
  index_document-Recorded redis = elim (Bool-cases visit.is_pdf) [
    | inr other ↦
        same-Recorded redis (err unsupported_file, redis) (rw (other, index_document) refl)
          (inl (inl (other, refl), refl))
    | inl pdf ↦ elim (Bool-cases visit.exists) [
      | inr gone ↦
          same-Recorded redis (err file_not_found, redis) (rw (pdf, gone, index_document) refl)
            (inl (inr (inl (pdf, gone, refl)), refl))
      | inl there ↦ elim (Result-cases visit.extract_metadata) [
        | inl (e, failed) ↦
            same-Recorded redis (err e, redis) (rw (pdf, there, failed, index_document) refl)
              (inl (inr (inr (inl (pdf, there, failed))), refl))
        | inr (metadata, got) ↦
            same-Recorded redis (index_pages visit path metadata redis)
              (simp (pdf, there, got, index_document))
              (index_pages-Recorded metadata redis (pdf, there, got))
      ]
    ]
  ]

  -- What callback must leave: the stage of every failure is "unknown".
  abbrev pub Delivered : Result Metadata → Store → Type 0
  Delivered (ok metadata) redis = Has IsIndexed path redis
  Delivered (err e) redis = Has (IsFailed (visit.describe e) (codes "unknown")) path redis

  Recorded→Delivered :
      (before : Store) (done : Result Metadata × Store)
      → Recorded visit path before done
      → Delivered done.0 (caught visit true path done)
  Recorded→Delivered before (ok metadata, redis) h = h
  Recorded→Delivered before (err e, redis) h = mark_failure-IsFailed e (codes "unknown") redis

  -- After callback, where failures can be persisted: the delivery is acknowledged once, the control
  -- object began and ended the document, and the object under the path says either that the document
  -- is indexed or that it failed with the error of index_document, at the stage "unknown" whichever
  -- stage index_document had recorded.
  pub callback-Delivered :
      (broker : Redis) (worker : Worker)
      → let after = callback broker visit true path worker in
        (after.acked ≡ worker.acked + 1)
        × (after.control
            ≡ with_control
                (λ service. end_processing broker (begin_processing path service))
                worker.control)
        × Delivered (index_document visit path worker.redis).0 after.redis
  unfolding callback
  callback-Delivered broker worker = (
    refl,
    with_control_twice worker.control,
    Recorded→Delivered worker.redis (index_document visit path worker.redis)
        (index_document-Recorded worker.redis),
  )
    where
      with_control_twice :
          (control : Option Service)
          → with_control (end_processing broker) (with_control (begin_processing path) control)
            ≡ with_control
                (λ service. end_processing broker (begin_processing path service))
                control
      with_control_twice none = refl
      with_control_twice (some service) = refl
