-- ===== src/Control.antt =====
-- src/document-indexer/document_indexer/control.py: the pause/resume state machine of the indexer,
-- its copy in Redis, and its HTTP routes; with the consumer loop of `consume` in
-- src/document-indexer/document_indexer/__main__.py, which obeys it.
--
-- Every method holds the lock throughout, so a run is a sequence of whole operations. Redis is a
-- parameter: for each operation it is absent, up, or down (its client raises), and it keeps one
-- value. Times are texts given by the environment. Log calls are left out.
pub mod Invariant
pub mod Restart
pub mod Consumer
mod Tests
use aithena.Base.{
  ℕ, ◌≡◌, Bool, true, false, not, ◌&&◌, ◌||◌, Option, none, some, List, [], ◌∷◌, String, str_eq,
  if◌then◌else◌,
}

pub data IndexerState : Type 0 where
  running paused processing : IndexerState

-- The fields of IndexerControl; the two events are flags.
pub record IndexerControl : Type 0 where
  pub state : IndexerState
  pub current_document : Option String
  pub paused_at : Option String
  pub shutting_down : Bool
  pub pause_requested : Bool

-- The client of one operation: none was given, it answers, or it raises.
pub data Redis : Type 0 where
  absent up down : Redis

-- The value under REDIS_CONTROL_KEY: what `_persist` writes, or a text that is not such JSON.
pub data Stored : Type 0 where
  payload : Bool → Option String → Stored
  garbled : Stored

-- The control object and the value that Redis keeps.
pub record Service : Type 0 where
  pub control : IndexerControl
  pub open control use *
  pub stored : Option Stored

abbrev pub is_paused_state : IndexerState → Bool
is_paused_state running = false
is_paused_state paused = true
is_paused_state processing = false

abbrev pub is_processing : IndexerState → Bool
is_processing running = false
is_processing paused = false
is_processing processing = true

abbrev write : Redis → Stored → Option Stored → Option Stored
write absent value old = old
write up value old = some value
write down value old = old

-- _persist
pub persist : Redis → Service → Service
persist redis s = record s {
  stored = write redis (payload (is_paused_state s.state) s.paused_at) s.stored;
}

-- _persist_paused_state
pub persist_paused_state : Redis → Service → Service
persist_paused_state redis s = record s { stored = write redis (payload true s.paused_at) s.stored }

-- the fields that __init__ sets before it restores
abbrev pub blank : IndexerControl
blank = record {
  state = running;
  current_document = none;
  paused_at = none;
  shutting_down = false;
  pause_requested = false;
}

abbrev restore_value : Option Stored → IndexerControl → IndexerControl
restore_value none c = c
restore_value (some garbled) c = c
restore_value (some (payload false since)) c = c
restore_value (some (payload true since)) c = record c {
  state = paused;
  paused_at = since;
  pause_requested = true;
}

-- _restore_from_redis
pub restore_from_redis : Redis → Option Stored → IndexerControl → IndexerControl
restore_from_redis absent stored c = c
restore_from_redis up stored c = restore_value stored c
restore_from_redis down stored c = c

-- __init__
pub start : Redis → Option Stored → Service
unfolding restore_from_redis
start redis stored = record { control = restore_from_redis redis stored blank; stored = stored }

pub data Response : Type 0 where
  already_paused paused_now already_running resumed : Response
  pause_pending : Option String → Response

abbrev pause_from : IndexerState → Redis → String → Service → Response × Service
pause_from running redis now s = (
  paused_now,
  persist redis (record s {
    control = record s.control { state = paused; paused_at = some now; pause_requested = true };
  }),
)
pause_from paused redis now s = (already_paused, s)
pause_from processing redis now s = (
  pause_pending s.current_document,
  persist_paused_state redis
      (record s { control = record s.control { paused_at = some now; pause_requested = true } }),
)

-- pause
unfoldable pub pause : Redis → String → Service → Response × Service
unfolding persist persist_paused_state
pause redis now s = pause_from s.state redis now s

abbrev resumed_state : IndexerState → IndexerState
resumed_state running = running
resumed_state paused = running
resumed_state processing = processing

-- resume
unfoldable pub resume : Redis → Service → Response × Service
unfolding persist
resume redis s =
    if not (is_paused_state s.state) && not s.pause_requested then (already_running, s) else (
      resumed,
      persist redis (record s {
        control = record s.control {
          pause_requested = false;
          state = resumed_state s.state;
          paused_at = none;
        };
      }),
    )

pub record StatusReport : Type 0 where
  pub state : IndexerState
  pub current_document : Option String
  pub paused_at : Option String
  pub pause_pending : Bool

-- status; a key that the source leaves out is `none` or `false` here
pub status : Service → StatusReport
status s = record {
  state = s.state;
  current_document = s.current_document;
  paused_at = s.paused_at;
  pause_pending = s.pause_requested && is_processing s.state;
}

-- begin_processing
unfoldable pub begin_processing : String → Service → Service
begin_processing document s = record s {
  control = record s.control { state = processing; current_document = some document };
}

-- end_processing
unfoldable pub end_processing : Redis → Service → Service
unfolding persist
end_processing redis s =
    if s.pause_requested
    then persist redis
        (record s { control = record s.control { current_document = none; state = paused } })
    else record s { control = record s.control { current_document = none; state = running } }

-- request_shutdown
unfoldable pub request_shutdown : Service → Service
request_shutdown s = record s { control = record s.control { shutting_down = true } }

-- One iteration test of wait_while_paused: whether it goes on waiting.
pub waits : Service → Bool
waits s = s.pause_requested && not s.shutting_down

-- What the HTTP handler answers: 200 with a status or with the result of an operation, or 404.
pub data HttpReply : Type 0 where
  ok_status : StatusReport → HttpReply
  ok_response : Response → HttpReply
  not_found : HttpReply

-- do_GET
pub do_get : String → Service → HttpReply
unfolding status
do_get path s = if str_eq path "/control/status" then ok_status (status s) else not_found

-- do_POST
pub do_post : Redis → String → String → Service → HttpReply × Service
unfolding pause resume
do_post redis now path s =
    if str_eq path "/control/pause"
    then (let (r, s') = pause redis now s in (ok_response r, s'))
    else if str_eq path "/control/resume"
    then (let (r, s') = resume redis s in (ok_response r, s'))
    else (not_found, s)
