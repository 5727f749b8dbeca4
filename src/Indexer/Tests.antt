-- ===== src/Indexer/Tests.antt =====
-- The indexer at concrete inputs.
use aithena.Base.{
  ℕ, ◌+◌, ◌≡◌, refl, true, none, some, List, [], ◌∷◌, length, ltb, min, ◌-◌, if◌then◌else◌, map,
  arith,
}
use aithena.Base.Text.{Text, codes}
use aithena.Control.{Redis, begin_processing, end_processing}
use aithena.Indexer.{ok, Metadata, EmbeddingResult, PageChunk, Services, index_chunks, four_digits}
use aithena.Indexer.Batches.{AllSent, index_chunks-AllSent}
use aithena.Indexer.Documents.{missing, Visit, Worker, index_document, callback, with_control}
use aithena.Indexer.Startup.{
  Probe, no_collection, ready, wait_for_solr_collection, some_ready, failures,
  wait_for_solr_collection-follows,
}
use aithena.Indexer.Outcome.Stages.{Recorded}
use aithena.Indexer.Outcome.{Delivered, index_document-Recorded, callback-Delivered}

padded : four_digits 42 ≡ codes "0042"
unfolding four_digits
padded = refl

abbrev vector_of : Text → EmbeddingResult ℕ
vector_of text = record { vector = length text; field_name = codes "embedding" }

-- A server that embeds by length, and a Solr that takes the batches before chunk 4.
abbrev services : Services ℕ
services = record {
  server = λ start texts. ok (map vector_of texts);
  accepts = λ start. ltb start 4;
}

abbrev chunks : List PageChunk
chunks = (codes "a b", 1, 1) ∷ (codes "c", 1, 2) ∷ (codes "d", 3, 3) ∷ []

abbrev book : Metadata
book = record {
  title = codes "T";
  author = codes "A";
  file_path = codes "x/t.pdf";
  folder_path = codes "x";
  file_size = 120;
  category = none;
  year = some 1999;
  language = none;
  series = none;
}

abbrev visit : Visit ℕ
visit = record {
  is_pdf = true;
  exists = true;
  mtime = 7;
  extract_metadata = ok book;
  page_count = some 12;
  override = missing;
  thumbnail = ok none;
  tika_accepts = λ params. true;
  page_chunks = ok chunks;
  services = services;
  sha256 = λ t. t;
  base_name = λ t. t;
  describe = λ e. codes "error";
  now = 9;
  max_pdf_pages = 10;
  batch_size = 2;
}

abbrev worker : Worker
worker = record { control = none; redis = []; acked = 0 }

index_chunks-AllSent_example :
    AllSent
      (ok chunks)
      (index_chunks 2 services (codes "p") book (ok chunks)).0
      (index_chunks 2 services (codes "p") book (ok chunks)).1
index_chunks-AllSent_example =
    index_chunks-AllSent 2 services (codes "p") book (ok chunks) (omega arith)

index_document-Recorded_example : Recorded visit "x/t.pdf" [] (index_document visit "x/t.pdf" [])
index_document-Recorded_example = index_document-Recorded visit "x/t.pdf" []

callback-Delivered_example :
    let after = callback Redis.absent visit true "x/t.pdf" worker in
    (after.acked ≡ 0 + 1)
    × (after.control
        ≡ with_control
            (λ service. end_processing Redis.absent (begin_processing "x/t.pdf" service))
            none)
    × Delivered visit "x/t.pdf" (index_document visit "x/t.pdf" []).0 after.redis
callback-Delivered_example = callback-Delivered visit "x/t.pdf" Redis.absent worker

-- Solr comes up at the third attempt.
abbrev probe : ℕ → Probe
probe n = if ltb n 3 then no_collection else ready

wait_for_solr_collection-follows_example :
    ((wait_for_solr_collection 5 probe).0 ≡ some_ready 5 1 probe)
    × ((wait_for_solr_collection 5 probe).1 ≡ min (failures 5 1 probe) (5 - 1))
wait_for_solr_collection-follows_example = wait_for_solr_collection-follows 5 probe

two_sleeps : wait_for_solr_collection 5 probe ≡ (true, 2)
unfolding wait_for_solr_collection
two_sleeps = refl
