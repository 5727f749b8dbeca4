-- ===== src/Pipeline/Kept.antt =====
-- No document is lost: what is not indexed and has not failed waits in the queue.
use aithena.Base.{
  ℕ, ◌≡◌, refl, sym, ap, ◌∙◌, inl, inr, Bool, true, false, not, ◌||◌, Option, some, List, [], ◌∷◌,
  ◌++◌, String, str_eq, eq_iff, arith, any, Bool-cases, Option-cases,
}
use aithena.Base.Dict.{lookup, insert, lookup-insert}
use aithena.Indexer.{Result, ok, err, Metadata}
use aithena.Indexer.Documents.{
  FileState, Stored, saved, Store, Visit, Worker, index_document, callback,
}
use aithena.Indexer.Outcome.{Delivered, callback-Delivered}
use aithena.Control.{Redis, Service}
use aithena.Lister.{
  Broker, first_state, unprocessed, touched, handle_document, Found, is_document, process_path,
}
use aithena.Lister.Handling.{any-snoc, handle_document-cases, handle_known-cases}
use aithena.Pipeline.{
  System, Step, scanned, published, written, delivered, requeued_failed, cleared, requeued,
  reindexed, start_of, acknowledge, broker_of, step, run, is_open, is_queued, is_orderly,
}
use aithena.Pipeline.Others.{callback_apart}
use aithena.Pipeline.Deletes.{
  Shrinks, requeued-Shrinks, failed-Shrinks, cleared-Shrinks, reindexed-Shrinks,
}

-- The document of the path is indexed, has failed, is unknown or is in the queue.
abbrev pub IsKept : String → Option Stored → List String → Type 0
IsKept path entry queue = (not (is_open entry) || is_queued path queue) ≡ true

Delivered-closed :
    {V : Type 0} (visit : Visit V) (path : String) (result : Result Metadata) (redis : Store)
    → Delivered visit path result redis
    → is_open (lookup path redis) ≡ false
Delivered-closed visit path (ok metadata) redis (state, found, done) =
    rw (found, done.processed) refl
Delivered-closed visit path (err e) redis (state, found, done) =
    rw (found, done.processed, done.failed) refl

module _ (p : String) where
  shrunk :
      (redis' redis : Store) (queue : List String)
      → Shrinks p redis' redis
      → IsKept p (lookup p redis) queue
      → IsKept p (lookup p redis') queue
  shrunk redis' redis queue (inl e) h = rw e refl
  shrunk redis' redis queue (inr e) h = rw e h

  -- Writing an entry keeps what it must if the entry does.
  set-IsKept :
      (path : String) (state : FileState) (redis : Store) (queue : List String)
      → (path ≡ p → IsKept p (some (saved state)) queue)
      → IsKept p (lookup p redis) queue
      → IsKept p (lookup p (insert path (saved state) redis)) queue
  set-IsKept path state redis queue own h = elim (Bool-cases (str_eq path p)) [
    | inl e ↦ rw (lookup-insert path p (saved state) redis, e) (own ((eq_iff path p).0 e))
    | inr e ↦ rw (lookup-insert path p (saved state) redis, e) h
  ]

  push-IsKept :
      (path : String) (entry : Option Stored) (queue : List String)
      → IsKept p entry queue
      → IsKept p entry (queue ++ path ∷ [])
  push-IsKept path entry queue h = ground (arith, any-snoc (str_eq p) queue path)

  pushed-IsKept :
      (path : String) (entry : Option Stored) (queue : List String)
      → path ≡ p
      → IsKept p entry (queue ++ path ∷ [])
  pushed-IsKept path entry queue e = ground (arith, any-snoc (str_eq p) queue path, eq_iff p path)

  handle_document-IsKept :
      (path : String) (mtime now : ℕ) (broker after : Broker)
      → handle_document path mtime now broker ≡ some after
      → IsKept p (lookup p broker.redis) broker.queue
      → IsKept p (lookup p after.redis) after.queue
  handle_document-IsKept path mtime now broker after done h =
      elim (handle_document-cases path mtime now broker after done) [
        | inl (new, e) ↦ rw e (pushed (first_state path mtime now))
        | inr (state, known, e) ↦ elim (handle_known-cases path mtime now state broker) [
          | inl same ↦ rw (e, same) h
          | inr (inl (old, same)) ↦ rw (e, same) (pushed (unprocessed mtime now state))
          | inr (inr (old, same)) ↦
              rw (e, same)
                (set-IsKept path (touched mtime now state) broker.redis broker.queue
                  (λ own. let entry = rw own at known in rw entry at h) h)
        ]
      ]
    where
      pushed :
          (state : FileState)
          → IsKept p (lookup p (insert path (saved state) broker.redis)) (broker.queue ++ path ∷ [])
      pushed state =
          set-IsKept path state broker.redis (broker.queue ++ path ∷ [])
            (pushed-IsKept path (some (saved state)) broker.queue)
            (push-IsKept path (lookup p broker.redis) broker.queue h)

  process_path-IsKept :
      (files : List Found) (now : ℕ) (broker : Broker)
      → IsKept p (lookup p broker.redis) broker.queue
      → IsKept p
          (lookup p (process_path files now broker).0.redis)
          (process_path files now broker).0.queue
  unfolding process_path
  process_path-IsKept [] now broker h = h
  process_path-IsKept (found ∷ more) now broker h = elim (Bool-cases (is_document found)) [
    | inr other ↦ rw other (process_path-IsKept more now broker h)
    | inl document ↦ elim (Option-cases (handle_document found.path found.mtime now broker)) [
      | inl raised ↦ rw (document, raised) h
      | inr (after, done) ↦
          rw (document, done)
            (process_path-IsKept more now after
              (handle_document-IsKept found.path found.mtime now broker after done h))
    ]
  ]

  is_queued-acknowledge :
      (path : String) (queue : List String)
      → str_eq path p ≡ false
      → is_queued p (acknowledge path queue) ≡ is_queued p queue
  unfolding any acknowledge
  is_queued-acknowledge path [] apart = refl
  is_queued-acknowledge path (message ∷ queue) apart = ground (
    arith,
    eq_iff message path,
    eq_iff p message,
    eq_iff path p,
    is_queued-acknowledge path queue apart,
  )

  apart_from : {A : Type 0} (path : String) → path ≡ p → str_eq path p ≡ false → A
  apart_from path own apart = absurd (ground (arith, eq_iff path p))

  module _ {V : Type 0} where
    delivered-IsKept :
        (control : Redis) (visit : Visit V) (persists : Bool) (path : String) (worker : Worker)
        (queue : List String)
        → (not (str_eq path p) || persists) ≡ true
        → IsKept p (lookup p worker.redis) queue
        → IsKept p
            (lookup p (callback control visit persists path worker).redis)
            (acknowledge path queue)
    delivered-IsKept control visit persists path worker queue can h =
        elim (Bool-cases (str_eq path p)) [
          | inr apart ↦
              rw
                (
                  callback_apart visit path p apart control persists worker,
                  is_queued-acknowledge path queue apart,
                )
                h
          | inl own ↦
              let same = (eq_iff path p).0 own in
              let saves : persists ≡ true = rw own at can in
              let done = callback-Delivered visit path control worker in
              let after = (callback control visit true path worker).redis in
              let closed =
                ap (λ (t : String). is_open (lookup t after)) (sym same)
                ∙ Delivered-closed visit path (index_document visit path worker.redis).0 after
                    done.2 in
              rw (saves, closed) refl
        ]

    -- A step keeps what it must, if it is orderly.
    step-IsKept :
        (x : Step V) (s : System)
        → is_orderly p (x ∷ []) ≡ true
        → IsKept p (lookup p s.worker.redis) s.queue
        → IsKept p (lookup p (step x s).worker.redis) (step x s).queue
    unfolding step is_orderly
    step-IsKept (scanned files now) s can h = process_path-IsKept files now (broker_of s) h
    step-IsKept (published path) s can h = push-IsKept path (lookup p s.worker.redis) s.queue h
    step-IsKept (written path state) s can h =
        set-IsKept path state s.worker.redis s.queue (λ own. apart_from path own (ground arith)) h
    step-IsKept (delivered control visit persists path) s can h =
        delivered-IsKept control visit persists path s.worker s.queue (ground arith) h
    step-IsKept (requeued_failed answers) s can h =
        shrunk _ s.worker.redis s.queue (failed-Shrinks p answers s.worker.redis) h
    step-IsKept (cleared answers) s can h =
        shrunk _ s.worker.redis s.queue (cleared-Shrinks p answers s.worker.redis) h
    step-IsKept (requeued answers token) s can h =
        shrunk _ s.worker.redis s.queue (requeued-Shrinks p answers token s.worker.redis) h
    step-IsKept (reindexed allowed clears stays) s can h =
        shrunk _ s.worker.redis s.queue (reindexed-Shrinks p allowed clears stays s.worker.redis) h

    orderly_each :
        (x : Step V) (steps : List (Step V))
        → is_orderly p (x ∷ steps) ≡ true
        → (is_orderly p (x ∷ []) ≡ true) × (is_orderly p steps ≡ true)
    unfolding is_orderly
    orderly_each (delivered control visit persists path) steps h = (ground arith, ground arith)
    orderly_each (written path state) steps h = (ground arith, ground arith)
    orderly_each (published path) steps h = (refl, h)
    orderly_each (scanned files now) steps h = (refl, h)
    orderly_each (requeued_failed answers) steps h = (refl, h)
    orderly_each (cleared answers) steps h = (refl, h)
    orderly_each (requeued answers token) steps h = (refl, h)
    orderly_each (reindexed allowed clears stays) steps h = (refl, h)

    run-IsKept :
        (steps : List (Step V)) (s : System)
        → is_orderly p steps ≡ true
        → IsKept p (lookup p s.worker.redis) s.queue
        → IsKept p (lookup p (run steps s).worker.redis) (run steps s).queue
    unfolding run
    run-IsKept [] s can h = h
    run-IsKept (x ∷ steps) s can h =
        let (now, later) = orderly_each x steps can in
        run-IsKept steps (step x s) later (step-IsKept x s now h)

-- Nothing gets lost: from an empty table and queue, after any scans, deliveries and administrator's
-- requests in any order, also between what the lister reads and does for other documents, a document
-- whose entry says neither that it is processed nor that it failed has a message in the queue, if its
-- deliveries can persist a failure and no step comes between the lister's reading and writing of its
-- own entry.
pub run-IsKept_from_start :
    {V : Type 0} (control : Option Service) (steps : List (Step V)) (path : String)
    → is_orderly path steps ≡ true
    → is_open (lookup path (run steps (start_of control)).worker.redis) ≡ true
    → is_queued path (run steps (start_of control)).queue ≡ true
unfolding lookup
run-IsKept_from_start control steps path can open_entry =
    let kept = run-IsKept path steps (start_of control) can refl in ground arith
