-- ===== src/Control/Tests.antt =====
-- The control object and the consumer loop at concrete inputs.
use aithena.Base.{◌≡◌, refl, Bool, true, false, ◌||◌, none, List, [], ◌∷◌, if◌then◌else◌}
use aithena.Control.{up, down, Service, start, pause, begin_processing, end_processing, paused}
use aithena.Control.Invariant.{Op, pause_at, begin, finish, run, IsValid, run-IsValid}
use aithena.Control.Restart.{IsSaved, run-IsSaved}
use aithena.Control.Consumer.{Tick, enter, consume_loop, consume_loop-follows, consume_loop-race}

-- A pause during a document, then the end of the document.
abbrev script : List Op
script = begin "a.pdf" ∷ pause_at up "noon" ∷ finish up ∷ []

script_paused : (run script (start up none)).state ≡ paused
unfolding run start pause begin_processing end_processing
script_paused = refl

run-IsSaved_example : IsSaved (run script (start up none))
run-IsSaved_example = run-IsSaved none script (tt, (refl, (refl, tt)))

run-IsValid_example : IsValid (run (begin "a.pdf" ∷ pause_at down "noon" ∷ []) (start up none))
run-IsValid_example = run-IsValid up none (begin "a.pdf" ∷ pause_at down "noon" ∷ [])

abbrev reads : Bool → Tick
reads p = record { stopping = false; first = p; second = p; cancels = true; closed = false }

consume_loop-follows_example :
    (consume_loop (reads false ∷ reads true ∷ []) (enter false false)).0.consumers ≡ (
      if (consume_loop (reads false ∷ reads true ∷ []) (enter false false)).1 || true then 0 else 1)
consume_loop-follows_example =
    consume_loop-follows false (reads false ∷ reads true ∷ []) ((refl, refl), ((refl, refl), tt))

consume_loop-race_example :
    (consume_loop (reads true ∷ reads true ∷ []) (enter false true)).0.consumers ≡ 1
consume_loop-race_example =
    consume_loop-race (reads true ∷ reads true ∷ [])
      ((refl, refl, refl, refl), ((refl, refl, refl, refl), tt))

abbrev busy : Service
busy = begin_processing "a.pdf" (start up none)
