-- ===== src/Pipeline/Tests.antt =====
-- The pipeline at concrete inputs.
use aithena.Base.{
  ℕ, ◌≡◌, refl, Bool, true, false, ◌&&◌, ◌||◌, not, Option, none, some, List, [], ◌∷◌, String,
  str_eq, any, eq_iff, arith,
}
use aithena.Base.Text.{codes}
use aithena.Base.Dict.{lookup}
use aithena.Indexer.Documents.{is, missing, Visit, FileState, new_state, saved}
use aithena.Lister.{first_state, Found, Broker, process_path}
use aithena.AdminDocs.{Answers, DocumentStatus, failed, classify_doc_state, admin_requeue_failed}
use aithena.Control.{Redis, down}
use aithena.Indexer.{ok, err, file_not_found}
use aithena.Pipeline.{
  Step, scanned, published, written, delivered, is_orderly, run, start_of, is_open, is_queued,
}
use aithena.Pipeline.Kept.{run-IsKept_from_start}
use aithena.Pipeline.Stuck.{scan_all, IsStuck, scan_all-IsStuck}
use aithena.Pipeline.Requeue.{is_found, after_requeue, admin_requeue_failed-queued}

abbrev file : ℕ → Found
file mtime = record { path = "a.pdf"; is_file = true; suffix = codes ".PDF"; mtime = mtime }

-- A visit that cannot index, as the file has gone.
abbrev gone : Visit ℕ
gone = record {
  is_pdf = true;
  exists = false;
  mtime = 0;
  extract_metadata = err file_not_found;
  page_count = none;
  override = missing;
  thumbnail = ok none;
  tika_accepts = λ params. true;
  page_chunks = ok [];
  services = record { server = λ start texts. ok []; accepts = λ start. true };
  sha256 = λ t. t;
  base_name = λ t. t;
  describe = λ e. codes "error";
  now = 6;
  max_pdf_pages = 0;
  batch_size = 1;
}

abbrev quiet : Redis
quiet = down

-- A scan; then the delivery of another document, whose failure cannot be persisted, between what the
-- lister publishes and what it writes of it.
abbrev some_steps : List (Step ℕ)
some_steps =
    scanned (file 3 ∷ []) 5
    ∷ published "b.pdf"
    ∷ delivered quiet gone false "b.pdf"
    ∷ written "b.pdf" (new_state "b.pdf")
    ∷ []

entered : is_open (lookup "a.pdf" (run some_steps (start_of none)).worker.redis) ≡ true
unfolding run process_path lookup aithena.Base.Text.text_eq aithena.Base.Text.lower
    aithena.Lister.handle_document aithena.Base.Dict.insert aithena.Indexer.Documents.callback
    aithena.Indexer.Documents.index_document
entered = refl

run-IsKept_from_start_example : is_queued "a.pdf" (run some_steps (start_of none)).queue ≡ true
unfolding is_orderly
run-IsKept_from_start_example = run-IsKept_from_start none some_steps "a.pdf" refl entered

-- Where its own delivery overtakes the lister, the older entry stays and no message is left.
abbrev overtaken : List (Step ℕ)
overtaken =
    published "a.pdf"
    ∷ delivered quiet gone true "a.pdf"
    ∷ written "a.pdf" (first_state "a.pdf" 3 5)
    ∷ []

lost :
    (is_open (lookup "a.pdf" (run overtaken (start_of none)).worker.redis) ≡ true)
    × (is_queued "a.pdf" (run overtaken (start_of none)).queue ≡ false)
unfolding run lookup any aithena.Base.Dict.insert aithena.Indexer.Documents.callback
    aithena.Indexer.Documents.index_document aithena.Indexer.Documents.mark_failure
    aithena.Indexer.Documents.save_state
lost = (refl, refl)

abbrev failure : FileState
failure = record (new_state "a.pdf") {
  last_modified = is 3;
  processed = is false;
  failed = is true;
}

abbrev broken : Broker
broken = record { redis = ("a.pdf", saved failure) ∷ []; queue = [] }

stuck : IsStuck "a.pdf" broken
unfolding lookup any
stuck = (refl, refl)

scan_all-IsStuck_example :
    IsStuck "a.pdf" (scan_all ((file 8 ∷ [], 9) ∷ (file 8 ∷ [], 10) ∷ []) broken)
scan_all-IsStuck_example =
    scan_all-IsStuck "a.pdf" ((file 8 ∷ [], 9) ∷ (file 8 ∷ [], 10) ∷ []) broken stuck

abbrev answering : Answers
answering = record { scans = true; gets = λ key. true; deletes = λ key. true }

listed : lookup "a.pdf" broken.redis ≡ some (saved failure)
unfolding lookup
listed = refl

finds : any (is_found "a.pdf") (file 8 ∷ []) ≡ true
unfolding any aithena.Base.Text.text_eq aithena.Base.Text.lower
finds = refl

completes : (process_path (file 8 ∷ []) 9 (after_requeue answering broken.redis [])).1 ≡ true
unfolding process_path admin_requeue_failed lookup aithena.Base.Text.text_eq aithena.Base.Text.lower
    aithena.Lister.handle_document aithena.AdminDocs.delete_key
completes = refl

admin_requeue_failed-queued_example :
    is_queued "a.pdf"
      (process_path (file 8 ∷ []) 9 (after_requeue answering broken.redis [])).0.queue
    ≡ true
admin_requeue_failed-queued_example =
    admin_requeue_failed-queued "a.pdf" answering broken.redis [] failure (file 8 ∷ []) 9 refl
      (λ key. refl) (λ key. refl) listed refl finds completes
