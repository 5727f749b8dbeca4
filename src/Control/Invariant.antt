-- ===== src/Control/Invariant.antt =====
-- The invariant of the control object over every sequence of its operations.
use aithena.Base.{
  ◌≡◌, ◌≢◌, refl, ◌⊎◌, inl, inr, true, false, Option, none, some, List, [], ◌∷◌, String, arith,
}
use aithena.Control.{
  IndexerState, running, paused, processing, IndexerControl, Redis, absent, up, down, Stored,
  payload, garbled, Service, pause_pending, resumed, start, pause, resume, begin_processing,
  end_processing, request_shutdown,
}

-- An operation by the HTTP thread, the consumer or a signal handler, with the state of Redis.
pub data Op : Type 0 where
  pause_at : Redis → String → Op
  resume_now : Redis → Op
  begin : String → Op
  finish : Redis → Op
  shutdown : Op

unfoldable pub apply : Op → Service → Service
apply (pause_at redis now) s = (pause redis now s).1
apply (resume_now redis) s = (resume redis s).1
apply (begin document) s = begin_processing document s
apply (finish redis) s = end_processing redis s
apply shutdown s = request_shutdown s

unfoldable pub run : List Op → Service → Service
unfolding apply
run [] s = s
run (op ∷ ops) s = run ops (apply op s)

abbrev pub Agrees : IndexerState → IndexerControl → Type 0
Agrees running c = (c.pause_requested ≡ false) × (c.current_document ≡ none)
Agrees paused c = (c.pause_requested ≡ true) × (c.current_document ≡ none)
Agrees processing c = c.current_document ≢ none

-- When running no pause is requested, when paused one is, and a document is held exactly while
-- processing; a time of pausing is kept only while a pause is requested.
pub record IsValid (s : Service) : Type 0 where
  pub agrees : Agrees s.state s.control
  pub timed : (s.pause_requested ≡ true) ⊎ (s.paused_at ≡ none)

pub start-IsValid : (redis : Redis) (stored : Option Stored) → IsValid (start redis stored)
unfolding start
start-IsValid absent stored = record { agrees = (refl, refl); timed = inr refl }
start-IsValid up none = record { agrees = (refl, refl); timed = inr refl }
start-IsValid up (some garbled) = record { agrees = (refl, refl); timed = inr refl }
start-IsValid up (some (payload false since)) = record { agrees = (refl, refl); timed = inr refl }
start-IsValid up (some (payload true since)) = record { agrees = (refl, refl); timed = inl refl }
start-IsValid down stored = record { agrees = (refl, refl); timed = inr refl }

pub apply-IsValid : (op : Op) (s : Service) → IsValid s → IsValid (apply op s)
unfolding apply pause resume begin_processing end_processing request_shutdown
apply-IsValid (pause_at redis now) s h = ground arith
apply-IsValid (resume_now redis) s h = ground arith
apply-IsValid (begin document) s h = ground arith
apply-IsValid (finish redis) s h = ground arith
apply-IsValid shutdown s h = ground arith

run-keeps : (ops : List Op) (s : Service) → IsValid s → IsValid (run ops s)
unfolding run
run-keeps [] s h = h
run-keeps (op ∷ ops) s h = run-keeps ops (apply op s) (apply-IsValid op s h)

-- After a start from any stored value and any operations, in any order and whatever Redis does:
-- when running, no pause is requested and no document is held; when paused, a pause is requested
-- and no document is held; when processing, a document is held; and unless a pause is requested no
-- time of pausing is kept.
pub run-IsValid :
    (redis : Redis) (stored : Option Stored) (ops : List Op)
    → IsValid (run ops (start redis stored))
run-IsValid redis stored ops = run-keeps ops (start redis stored) (start-IsValid redis stored)

-- A pause asked for during a document waits for it: the reply names the document, the state stays
-- processing, and the end of that document pauses the indexer, whether or not Redis answers.
pub pause-end_processing :
    (r r' : Redis) (now : String) (s : Service)
    → s.state ≡ processing
    → ((pause r now s).0 ≡ pause_pending s.current_document)
      × ((pause r now s).1.state ≡ processing)
      × ((end_processing r' (pause r now s).1).state ≡ paused)
      × ((end_processing r' (pause r now s).1).current_document ≡ none)
unfolding pause end_processing
pause-end_processing r r' now s h = ground arith

-- From a valid state in which no pause is requested, resuming after a pause is answered "resumed"
-- and brings every field of the control object back.
pub resume-pause :
    (r r' : Redis) (now : String) (s : Service)
    → IsValid s
    → s.pause_requested ≡ false
    → ((resume r' (pause r now s).1).0 ≡ resumed)
      × ((resume r' (pause r now s).1).1.control ≡ s.control)
unfolding pause resume
resume-pause r r' now s h none_yet = ground arith
