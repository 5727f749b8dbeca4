-- ===== src/Indexer/Outcome/Stages.antt =====
-- What index_document must leave behind, stage by stage.
use aithena.Base.{◌≡◌, ◌⊎◌, true, false, Option, some, List, String}
use aithena.Base.Text.{Text, codes}
use aithena.Base.Dict.{lookup}
use aithena.Indexer.{
  Error, Result, ok, err, Metadata, index_chunks, too_many_pages, tika_failed, unsupported_file,
  file_not_found,
}
use aithena.Indexer.Documents.{
  null, is, FileState, saved, Store, Visit, over_limit, override_if, load_metadata_override,
  build_literal_params,
}

-- The object of a document that is indexed in full.
pub record IsIndexed (s : FileState) : Type 0 where
  pub processed : s.processed ≡ is true
  pub failed : s.failed ≡ is false
  pub error : s.error ≡ null
  pub error_stage : s.error_stage ≡ null
  pub text_indexed : s.text_indexed ≡ is true
  pub embedding_indexed : s.embedding_indexed ≡ is true

-- The object of a document that failed.
pub record IsFailed (message stage : Text) (s : FileState) : Type 0 where
  pub processed : s.processed ≡ is false
  pub failed : s.failed ≡ is true
  pub error : s.error ≡ is message
  pub error_stage : s.error_stage ≡ is stage

-- Redis has an object under the path, of which P holds.
abbrev pub Has : (FileState → Type 0) → String → Store → Type 0
Has P path redis = (s : FileState) × (lookup path redis ≡ some (saved s)) × P s

module _ {V : Type 0} (visit : Visit V) (path : String) where
  -- The file is there and its metadata could be read.
  abbrev pub IsRead : Metadata → Type 0
  IsRead found = (visit.is_pdf ≡ true) × (visit.exists ≡ true) × (visit.extract_metadata ≡ ok found)

  -- The document fails outside the stages that record it.
  abbrev pub FailsUnrecorded : Error → Type 0
  FailsUnrecorded e =
      ((visit.is_pdf ≡ false) × (e ≡ unsupported_file))
      ⊎ ((visit.is_pdf ≡ true) × (visit.exists ≡ false) × (e ≡ file_not_found))
      ⊎ ((visit.is_pdf ≡ true) × (visit.exists ≡ true) × (visit.extract_metadata ≡ err e))
      ⊎ ((found : Metadata) × IsRead found
          × (over_limit visit.page_count visit.max_pdf_pages ≡ false)
          × (visit.thumbnail ≡ err e))

  abbrev pub parent_of : Metadata → Text
  parent_of metadata = visit.sha256 metadata.file_path

  abbrev pub params_of : Metadata → Option Text → List (Text × Text)
  params_of metadata thumbnail_url =
      build_literal_params (parent_of metadata) (visit.base_name metadata.file_path) metadata
        visit.page_count thumbnail_url

  -- What the two phases of the indexing must leave: the object of an indexed document; or that of a
  -- failure of the first phase where Tika refuses the text, of the second where it does not and the
  -- chunks fail.
  abbrev pub TextRecorded : Metadata → Option Text → Result Metadata × Store → Type 0
  TextRecorded metadata thumbnail_url (ok used, redis) = Has IsIndexed path redis
  TextRecorded metadata thumbnail_url (err e, redis) =
      ((visit.tika_accepts (params_of metadata thumbnail_url) ≡ false)
        × (e ≡ tika_failed)
        × Has (IsFailed (visit.describe e) (codes "text_indexing")) path redis)
      ⊎ ((visit.tika_accepts (params_of metadata thumbnail_url) ≡ true)
          × ((index_chunks visit.batch_size visit.services (parent_of metadata) metadata
                visit.page_chunks).0
              ≡ err e)
          × Has (IsFailed (visit.describe e) (codes "embedding_indexing")) path redis)

  -- What index_document must leave under the path: after success, the object of an indexed document;
  -- after a failure outside the stages, what was there; after the page guard, and after the two phases
  -- with the metadata overridden, the failure of that stage.
  abbrev pub Recorded : Store → Result Metadata × Store → Type 0
  Recorded before (ok metadata, redis) = Has IsIndexed path redis
  Recorded before (err e, redis) =
      (FailsUnrecorded e × (lookup path redis ≡ lookup path before))
      ⊎ ((found : Metadata) × IsRead found
          × (over_limit visit.page_count visit.max_pdf_pages ≡ true)
          × (e ≡ too_many_pages)
          × Has (IsFailed (visit.describe e) (codes "page_guard")) path redis)
      ⊎ ((found : Metadata) × (thumbnail_url : Option Text) × IsRead found
          × (over_limit visit.page_count visit.max_pdf_pages ≡ false)
          × (visit.thumbnail ≡ ok thumbnail_url)
          × TextRecorded (override_if (load_metadata_override visit.override) found) thumbnail_url
              (err e, redis))
