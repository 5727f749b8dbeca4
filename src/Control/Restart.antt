-- ===== src/Control/Restart.antt =====
-- What a restart finds in Redis.
use aithena.Base.{◌≡◌, refl, true, false, Option, none, some, List, [], ◌∷◌, All, arith}
use aithena.Control.{
  up, Stored, payload, garbled, Service, start, pause, resume, begin_processing, end_processing,
  request_shutdown,
}
use aithena.Control.Invariant.{
  Op, pause_at, resume_now, begin, finish, shutdown, apply, run, IsValid, apply-IsValid,
  start-IsValid,
}

-- Redis answers in the operation, where it is used.
abbrev pub IsUp : Op → Type 0
IsUp (pause_at redis now) = redis ≡ up
IsUp (resume_now redis) = redis ≡ up
IsUp (begin document) = Unit
IsUp (finish redis) = redis ≡ up
IsUp shutdown = Unit

-- A service started now would have the same pause and the same time of pausing.
pub record IsSaved (s : Service) : Type 0 where
  pub same_pause : (start up s.stored).pause_requested ≡ s.pause_requested
  pub same_time : (start up s.stored).paused_at ≡ s.paused_at

start-IsSaved : (stored : Option Stored) → IsSaved (start up stored)
unfolding start
start-IsSaved none = record { same_pause = refl; same_time = refl }
start-IsSaved (some garbled) = record { same_pause = refl; same_time = refl }
start-IsSaved (some (payload false since)) = record { same_pause = refl; same_time = refl }
start-IsSaved (some (payload true since)) = record { same_pause = refl; same_time = refl }

apply-IsSaved : (op : Op) (s : Service) → IsUp op → IsValid s → IsSaved s → IsSaved (apply op s)
unfolding apply pause resume begin_processing end_processing request_shutdown start
apply-IsSaved (pause_at redis now) s u v h = ground arith
apply-IsSaved (resume_now redis) s u v h = ground arith
apply-IsSaved (begin document) s u v h = ground arith
apply-IsSaved (finish redis) s u v h = ground arith
apply-IsSaved shutdown s u v h = ground arith

run-keeps_IsSaved :
    (ops : List Op) (s : Service) → All IsUp ops → IsValid s → IsSaved s → IsSaved (run ops s)
unfolding run
run-keeps_IsSaved [] s u v h = h
run-keeps_IsSaved (op ∷ ops) s u v h =
    run-keeps_IsSaved ops (apply op s) u.1 (apply-IsValid op s v) (apply-IsSaved op s u.0 v h)

-- While Redis answers, a restart respects every pause: after a start from any stored value and any
-- operations, a service started from what is then stored has a pause requested exactly if this one
-- has, with the same time of pausing. A pause still waiting for its document counts too.
pub run-IsSaved :
    (stored : Option Stored) (ops : List Op) → All IsUp ops → IsSaved (run ops (start up stored))
run-IsSaved stored ops u =
    run-keeps_IsSaved ops (start up stored) u (start-IsValid up stored) (start-IsSaved stored)
