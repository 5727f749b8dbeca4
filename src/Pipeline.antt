-- ===== src/Pipeline.antt =====
-- document-lister, document-indexer and the admin endpoints together, over one Redis table and one
-- queue: steps in any order.
--
-- A scan is one step, or several with some of its files each; a delivery is one step. Nothing in the
-- source locks the lister and the indexer, so other steps may come between what handle_document reads
-- and what it does: then `published` and `written` are its two effects, with any entry, since it
-- depends on what was read before. The queue loses a message when its delivery is acknowledged, at the
-- end of `callback`, also where the failure could not be persisted; a delivery without a message of the
-- queue is one that RabbitMQ made again.
pub mod Others
pub mod Deletes
pub mod Kept
pub mod Stuck
pub mod Requeue
mod Tests
use aithena.Base.{
  ℕ, Bool, true, false, not, ◌&&◌, ◌||◌, Option, none, some, List, [], ◌∷◌, String, str_eq,
  if◌then◌else◌, any,
}
use aithena.Base.Dict.{lookup}
use aithena.Control.{Redis, Service}
use aithena.Indexer.Documents.{FileState, Stored, saved, bad_json, Store, Visit, Worker, callback}
use aithena.Lister.{push_file_to_queue, set_state, Broker, is_true, Found, process_path}
use aithena.AdminDocs.{
  Answers, Token, admin_requeue_failed, admin_clear_processed, admin_requeue_document,
  admin_reindex,
}

-- The worker with its view of Redis, and the queue.
pub record System : Type 0 where
  pub worker : Worker
  pub queue : List String

abbrev pub broker_of : System → Broker
broker_of s = record { redis = s.worker.redis; queue = s.queue }

abbrev pub with_broker : System → Broker → System
with_broker s broker = record {
  worker = record s.worker { redis = broker.redis };
  queue = broker.queue;
}

abbrev pub with_redis : System → Store → System
with_redis s redis = record s { worker = record s.worker { redis = redis } }

-- Before anything ran.
abbrev pub start_of : Option Service → System
start_of control = record {
  worker = record { control = control; redis = []; acked = 0 };
  queue = [];
}

-- The queue without one message, the first of that path.
unfoldable pub acknowledge : String → List String → List String
acknowledge path [] = []
acknowledge path (message ∷ queue) =
    let rest = acknowledge path queue in if str_eq message path then queue else message ∷ rest

pub data Step (V : Type 0) : Type 0 where
  scanned : List Found → ℕ → Step V
  published : String → Step V
  written : String → FileState → Step V
  delivered : Redis → Visit V → Bool → String → Step V
  requeued_failed cleared : Answers → Step V
  requeued : Answers → Token → Step V
  reindexed : Bool → Bool → Option (String → Bool) → Step V

module _ {V : Type 0} where
  unfoldable pub step : Step V → System → System
  unfolding acknowledge
  step (scanned files now) s = with_broker s (process_path files now (broker_of s)).0
  step (published path) s = with_broker s (push_file_to_queue path (broker_of s))
  step (written path state) s = with_broker s (set_state path state (broker_of s))
  step (delivered control visit persists path) s = record {
    worker = callback control visit persists path s.worker;
    queue = acknowledge path s.queue;
  }
  step (requeued_failed answers) s = with_redis s (admin_requeue_failed answers s.worker.redis).1
  step (cleared answers) s = with_redis s (admin_clear_processed answers s.worker.redis).1
  step (requeued answers token) s =
      with_redis s (admin_requeue_document answers token s.worker.redis).1
  step (reindexed allowed clears stays) s =
      with_redis s (admin_reindex allowed clears stays s.worker.redis).1

  unfoldable pub run : List (Step V) → System → System
  unfolding step
  run [] s = s
  run (x ∷ steps) s = run steps (step x s)

-- An entry of a document that is neither indexed nor failed.
abbrev pub is_open : Option Stored → Bool
is_open none = false
is_open (some bad_json) = false
is_open (some (saved state)) = not (is_true state.processed) && not (is_true state.failed)

-- The queue has a message of the path.
abbrev pub is_queued : String → List String → Bool
is_queued path queue = any (str_eq path) queue

module _ {V : Type 0} where
  -- Every delivery of the path can persist the failure, if there is one, and no other step comes
  -- between the lister's reading and writing of its entry.
  unfoldable pub is_orderly : String → List (Step V) → Bool
  is_orderly path [] = true
  is_orderly path (delivered control visit persists other ∷ steps) =
      (not (str_eq other path) || persists) && is_orderly path steps
  is_orderly path (written other state ∷ steps) = not (str_eq other path) && is_orderly path steps
  is_orderly path (published other ∷ steps) = is_orderly path steps
  is_orderly path (scanned files now ∷ steps) = is_orderly path steps
  is_orderly path (requeued_failed answers ∷ steps) = is_orderly path steps
  is_orderly path (cleared answers ∷ steps) = is_orderly path steps
  is_orderly path (requeued answers token ∷ steps) = is_orderly path steps
  is_orderly path (reindexed allowed clears stays ∷ steps) = is_orderly path steps
