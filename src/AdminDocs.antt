-- ===== src/AdminDocs.antt =====
-- The document endpoints for administrators of src/solr-search/main.py: listing by status, requeueing
-- and clearing, over the Redis table that the lister and the indexer share.
--
-- A key is the path under the queue's prefix. The scan yields the keys of the table; a key that it
-- yields twice is skipped the second time where the first deleted it. Each endpoint is one step; Redis
-- may fail at any of its calls.
use aithena.Base.{
  ℕ, suc, ◌+◌, ◌-◌, ◌*◌, ◌/◌, Bool, true, false, Option, none, some, List, [], ◌∷◌, String, str_eq,
  not, ◌==◌, if◌then◌else◌, length, take, drop,
}
use aithena.Base.Dict.{has_key}
use aithena.Indexer.Documents.{FileState, saved, bad_json, Store}
use aithena.Lister.{is_true}

-- DocumentStatus
pub data DocumentStatus : Type 0 where
  queued processed failed : DocumentStatus

abbrev pub same_status : DocumentStatus → DocumentStatus → Bool
same_status queued queued = true
same_status processed processed = true
same_status failed failed = true
same_status queued processed = false
same_status queued failed = false
same_status processed queued = false
same_status processed failed = false
same_status failed queued = false
same_status failed processed = false

-- _classify_doc_state
abbrev pub classify_doc_state : FileState → DocumentStatus
classify_doc_state state =
    if is_true state.failed then failed else if is_true state.processed then processed else queued

-- The HTTP errors of the endpoints.
pub data HttpError : Type 0 where
  bad_request not_found bad_gateway unavailable internal_error : HttpError

pub data Reply (A : Type 0) : Type 0 where
  ok : A → Reply A
  err : HttpError → Reply A

-- What the admin endpoints need of Redis: whether a scan answers, and whether reading and deleting a
-- key do.
pub record Answers : Type 0 where
  pub scans : Bool
  pub gets : String → Bool
  pub deletes : String → Bool

-- _iter_admin_docs: the entries that are JSON, with their status, up to the first key that Redis does
-- not let it read, and whether there is none. That failure is not caught; the loops over the
-- generator have used the entries before it by then.
unfoldable pub iter_admin_docs : Answers → Store → List (String × FileState × DocumentStatus) × Bool
iter_admin_docs answers [] = ([], true)
iter_admin_docs answers ((key, bad_json) ∷ redis) =
    let rest = iter_admin_docs answers redis in if answers.gets key then rest else ([], false)
iter_admin_docs answers ((key, saved state) ∷ redis) =
    let (docs, finished) = iter_admin_docs answers redis in
    if answers.gets key
    then ((key, state, classify_doc_state state) ∷ docs, finished)
    else ([], false)

-- `client.delete`
unfoldable pub delete_key : String → Store → Store
delete_key key [] = []
delete_key key ((k, stored) ∷ redis) =
    let rest = delete_key key redis in if str_eq k key then rest else (k, stored) ∷ rest

pub record StatusCounts : Type 0 where
  pub queued_count : ℕ
  pub processed_count : ℕ
  pub failed_count : ℕ

abbrev pub count_status : DocumentStatus → StatusCounts → StatusCounts
count_status queued c = record c { queued_count = suc c.queued_count }
count_status processed c = record c { processed_count = suc c.processed_count }
count_status failed c = record c { failed_count = suc c.failed_count }

abbrev pub wanted : Option DocumentStatus → DocumentStatus → Bool
wanted none status = true
wanted (some filter) status = same_status status filter

-- An entry of the list: the key (its token is a parameter of the client), the status and the state
-- from which the columns of that status are read.
abbrev pub Entry : Type 0
Entry = String × FileState × DocumentStatus

-- the loop of _load_admin_documents
unfoldable pub load_loop : Option DocumentStatus → List Entry → StatusCounts × List Entry
load_loop filter [] = (record { queued_count = 0; processed_count = 0; failed_count = 0 }, [])
load_loop filter ((key, state, status) ∷ docs) =
    let (counts, documents) = load_loop filter docs in
    (
      count_status status counts,
      if wanted filter status then (key, state, status) ∷ documents else documents,
    )

pub record AdminDocuments : Type 0 where
  pub total : ℕ
  pub counts : StatusCounts
  pub documents : List Entry

-- _load_admin_documents
unfoldable pub load_admin_documents : Option DocumentStatus → Answers → Store → Reply AdminDocuments
unfolding load_loop iter_admin_docs
load_admin_documents filter answers redis =
    let (docs, finished) = iter_admin_docs answers redis in
    let (counts, documents) = load_loop filter docs in
    if not answers.scans
    then err unavailable
    else if not finished
    then err internal_error
    else ok (record {
      total = counts.queued_count + counts.processed_count + counts.failed_count;
      counts = counts;
      documents = documents;
    })

pub record AdminPage : Type 0 where
  pub all : AdminDocuments
  pub documents : List Entry
  pub page : ℕ
  pub per_page : ℕ
  pub total_documents : ℕ
  pub total_pages : ℕ

abbrev paged : ℕ → ℕ → Reply AdminDocuments → Reply AdminPage
paged page per_page (err e) = err e
paged page per_page (ok result) =
    let total = length result.documents in
    ok (record {
      all = result;
      documents = take per_page (drop ((page - 1) * per_page) result.documents);
      page = page;
      per_page = per_page;
      total_documents = total;
      total_pages = if total == 0 then 0 else (total + per_page - 1) / per_page;
    })

-- admin_list_documents, for a page and a size of at least 1 (FastAPI refuses others)
unfoldable pub admin_list_documents :
    Option DocumentStatus → ℕ → ℕ → Answers → Store → Reply AdminPage
unfolding load_admin_documents
admin_list_documents filter page per_page answers redis =
    paged page per_page (load_admin_documents filter answers redis)

-- the loop of the bulk endpoints: deletes the entries of a status one by one, and stops at the first
-- delete that Redis refuses, or where the generator raised
unfoldable pub delete_status :
    DocumentStatus → Answers → Bool → List Entry → Store → Reply (List String) × Store
delete_status wanted answers finished [] redis =
    (if finished then ok [] else err internal_error, redis)
delete_status wanted answers finished ((key, state, status) ∷ docs) redis =
    let skip = delete_status wanted answers finished docs redis in
    let (reply, redis') = delete_status wanted answers finished docs (delete_key key redis) in
    if same_status status wanted
    then if answers.deletes key then (also key reply, redis') else (err unavailable, redis)
    else skip
  where
    also : String → Reply (List String) → Reply (List String)
    also key (err e) = err e
    also key (ok keys) = ok (key ∷ keys)

-- admin_requeue_failed, with the keys that were deleted
unfoldable pub admin_requeue_failed : Answers → Store → Reply (List String) × Store
unfolding delete_status iter_admin_docs
admin_requeue_failed answers redis =
    let (docs, finished) = iter_admin_docs answers redis in
    let done = delete_status failed answers finished docs redis in
    if answers.scans then done else (err unavailable, redis)

-- admin_clear_processed
unfoldable pub admin_clear_processed : Answers → Store → Reply (List String) × Store
unfolding delete_status iter_admin_docs
admin_clear_processed answers redis =
    let (docs, finished) = iter_admin_docs answers redis in
    let done = delete_status processed answers finished docs redis in
    if answers.scans then done else (err unavailable, redis)

-- What a client's token decodes to: nothing, a key without the queue's prefix, or a path under it.
pub data Token : Type 0 where
  undecodable foreign : Token
  key_of : String → Token

-- admin_requeue_document
unfoldable pub admin_requeue_document : Answers → Token → Store → Reply ℕ × Store
unfolding delete_key
admin_requeue_document answers undecodable redis = (err bad_request, redis)
admin_requeue_document answers foreign redis = (err bad_request, redis)
admin_requeue_document answers (key_of key) redis =
    if answers.deletes key
    then if has_key key redis then (ok 1, delete_key key redis) else (err not_found, redis)
    else (err unavailable, redis)

-- the entries whose keys are left
unfoldable pub keep_keys : (String → Bool) → Store → Store
keep_keys stay [] = []
keep_keys stay ((k, stored) ∷ redis) =
    let rest = keep_keys stay redis in if stay k then (k, stored) ∷ rest else rest

-- admin_reindex: whether the collection is allowed and whether Solr cleared it; Redis either clears all
-- keys or, at a failure, those of the batches before it. A batch that fails may be cleared in part, so
-- the entries that stay are given by the environment.
unfoldable pub admin_reindex : Bool → Bool → Option (String → Bool) → Store → Reply ℕ × Store
unfolding keep_keys
admin_reindex allowed solr_clears stays redis =
    if allowed
    then if solr_clears
      then elim stays [
        | none ↦ (ok (length redis), [])
        | some stay ↦ (err unavailable, keep_keys stay redis)
      ]
      else (err bad_gateway, redis)
    else (err bad_request, redis)
