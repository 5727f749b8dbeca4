-- ===== src/Pipeline/Stuck.antt =====
-- A failed document waits for an administrator.
use aithena.Base.{
  ℕ, ◌≡◌, refl, sym, ap, ◌∙◌, inl, inr, Bool, true, false, not, ◌&&◌, Option, none, some, List, [],
  ◌∷◌, String, str_eq, eq_iff, arith, Bool-cases, Option-cases,
}
use aithena.Base.Dict.{lookup, lookup-insert}
use aithena.Indexer.Documents.{FileState, Stored, saved, bad_json}
use aithena.Lister.{Broker, is_true, touched, handle_document, Found, is_document, process_path}
use aithena.Pipeline.{is_queued}
use aithena.Lister.Handling.{handle_document-cases, handle_known-cases, handle_document_apart}

-- An entry that says failed and not processed.
abbrev pub is_failed : Option Stored → Bool
is_failed none = false
is_failed (some bad_json) = false
is_failed (some (saved state)) = not (is_true state.processed) && is_true state.failed

-- The lister's scans, each with what `rglob` yields and the time.
unfoldable pub scan_all : List (List Found × ℕ) → Broker → Broker
scan_all [] broker = broker
scan_all ((files, now) ∷ scans) broker = scan_all scans (process_path files now broker).0

module _ (p : String) where
  -- The document failed and is not in the queue.
  abbrev pub IsStuck : Broker → Type 0
  IsStuck broker = (is_failed (lookup p broker.redis) ≡ true) × (is_queued p broker.queue ≡ false)

  handle_document-IsStuck :
      (path : String) (mtime now : ℕ) (broker after : Broker)
      → handle_document path mtime now broker ≡ some after
      → IsStuck broker
      → IsStuck after
  handle_document-IsStuck path mtime now broker after done h = elim (Bool-cases (str_eq path p)) [
    | inr apart ↦
        let same = handle_document_apart p path mtime now broker after apart done in
        rw (same.0, same.1) h
    | inl own ↦
        let here = ap (λ (t : String). lookup t broker.redis) ((eq_iff path p).0 own) in
        elim (handle_document-cases path mtime now broker after done) [
          | inl (new, e) ↦ absurd (no_failure none refl (rw (sym here ∙ new) at h.0))
          | inr (state, known, e) ↦
              let failure = rw (sym here ∙ known) at h.0 in
              elim (handle_known-cases path mtime now state broker) [
                | inl same ↦ rw (e, same) h
                | inr (inl (old, same)) ↦ absurd (unprocessed_failure state old failure)
                | inr (inr (old, same)) ↦
                    rw
                      (
                        e,
                        same,
                        lookup-insert path p (saved (touched mtime now state)) broker.redis,
                        own,
                      )
                      (failure, h.1)
              ]
        ]
  ]
    where
      no_failure : (entry : Option Stored) → entry ≡ none → is_failed entry ≡ true → ⊥
      no_failure none e h = cc
      no_failure (some stored) e h = cc

      unprocessed_failure :
          (state : FileState)
          → is_true state.processed ≡ true
          → is_failed (some (saved state)) ≡ true
          → ⊥
      unprocessed_failure state old h = ground arith

  process_path-IsStuck :
      (files : List Found) (now : ℕ) (broker : Broker)
      → IsStuck broker
      → IsStuck (process_path files now broker).0
  unfolding process_path
  process_path-IsStuck [] now broker h = h
  process_path-IsStuck (found ∷ more) now broker h = elim (Bool-cases (is_document found)) [
    | inr other ↦ rw other (process_path-IsStuck more now broker h)
    | inl document ↦ elim (Option-cases (handle_document found.path found.mtime now broker)) [
      | inl raised ↦ rw (document, raised) h
      | inr (after, done) ↦
          rw (document, done)
            (process_path-IsStuck more now after
              (handle_document-IsStuck found.path found.mtime now broker after done h))
    ]
  ]

-- A document that failed and is not in the queue stays so through any scans of the lister, with
-- whatever times the file has: a file that is replaced after a failure is not indexed again.
pub scan_all-IsStuck :
    (path : String) (scans : List (List Found × ℕ)) (broker : Broker)
    → IsStuck path broker
    → IsStuck path (scan_all scans broker)
unfolding scan_all
scan_all-IsStuck path [] broker h = h
scan_all-IsStuck path ((files, now) ∷ scans) broker h =
    scan_all-IsStuck path scans (process_path files now broker).0
      (process_path-IsStuck path files now broker h)
