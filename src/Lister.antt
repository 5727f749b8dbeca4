-- ===== src/Lister.antt =====
-- src/document-lister/document_lister/__main__.py: which files of the library are put in the queue.
--
-- The lister and the indexer share the Redis table of Indexer/Documents; the RabbitMQ queue is the list
-- of its messages, the oldest first, and a message is a path. Files are taken to stay while they are
-- handled, and Redis and RabbitMQ to answer (lost connections are retried for ever by decorators).
pub mod Handling
use aithena.Base.{
  ℕ, ◌+◌, Bool, true, false, not, ◌&&◌, Option, none, some, List, [], ◌∷◌, ◌++◌, String, ◌==◌,
  if◌then◌else◌,
}
use aithena.Base.Text.{Text, codes, text_eq, lower}
use aithena.Base.Dict.{lookup, insert}
use aithena.Indexer.Documents.{
  Key, absent, null, is, FileState, new_state, Stored, saved, bad_json, Store,
}

-- What the lister changes: the Redis table and the queue.
pub record Broker : Type 0 where
  pub redis : Store
  pub queue : List String

-- push_file_to_queue; the correlation id is not read by the indexer's logic
abbrev pub push_file_to_queue : String → Broker → Broker
push_file_to_queue file broker = record broker { queue = broker.queue ++ file ∷ [] }

-- `value.get("last_modified", 0) != mtime`
abbrev pub is_modified : Key ℕ → ℕ → Bool
is_modified absent mtime = not (0 == mtime)
is_modified null mtime = true
is_modified (is t) mtime = not (t == mtime)

-- `value.get("processed", False) is True`
abbrev pub is_true : Key Bool → Bool
is_true absent = false
is_true null = false
is_true (is b) = b

abbrev pub set_state : String → FileState → Broker → Broker
set_state path state broker = record broker { redis = insert path (saved state) broker.redis }

-- the entry of a new document
abbrev pub first_state : String → ℕ → ℕ → FileState
first_state path mtime now = record (new_state path) {
  last_modified = is mtime;
  processed = is false;
  timestamp = is now;
}

-- the entry of a modified document with the new times
abbrev pub touched : ℕ → ℕ → FileState → FileState
touched mtime now state = record state { last_modified = is mtime; timestamp = is now }

-- the entry of a modified document that was processed
abbrev pub unprocessed : ℕ → ℕ → FileState → FileState
unprocessed mtime now state = record (touched mtime now state) { processed = is false }

-- handle_document once the entry is parsed: a modified document that was processed is queued again
unfoldable pub handle_known : String → ℕ → ℕ → FileState → Broker → Broker
handle_known path mtime now state broker =
    if is_modified state.last_modified mtime
    then if is_true state.processed
      then set_state path (unprocessed mtime now state) (push_file_to_queue path broker)
      else set_state path (touched mtime now state) broker
    else broker

-- handle_document; `none` is the JSONDecodeError of an entry that is no JSON
unfoldable pub handle_document : String → ℕ → ℕ → Broker → Option Broker
handle_document path mtime now broker = elim (lookup path broker.redis) [
  | none ↦ some (set_state path (first_state path mtime now) (push_file_to_queue path broker))
  | some stored ↦ elim stored [
    | bad_json ↦ none
    | saved state ↦ some (handle_known path mtime now state broker)
  ]
]

-- A path that `rglob` yields.
pub record Found : Type 0 where
  pub path : String
  pub is_file : Bool
  pub suffix : Text
  pub mtime : ℕ

-- whether process_path handles it
abbrev pub is_document : Found → Bool
is_document found = found.is_file && text_eq (lower found.suffix) (codes ".pdf")

-- process_path over what `rglob` yields, at a time: what is changed, and whether it gets to the end.
-- An exception ends the scan.
unfoldable pub process_path : List Found → ℕ → Broker → Broker × Bool
process_path [] now broker = (broker, true)
process_path (found ∷ more) now broker =
    let skip = process_path more now broker in
    let handled : Broker × Bool = elim (handle_document found.path found.mtime now broker) [
      | none ↦ (broker, false)
      | some broker' ↦ process_path more now broker'
    ] in
    if is_document found then handled else skip
