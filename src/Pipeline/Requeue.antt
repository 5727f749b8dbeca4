-- ===== src/Pipeline/Requeue.antt =====
-- The administrator's way out of a failure: requeueing, and the scan after it.
use aithena.Base.{
  ℕ, ◌≡◌, refl, sym, ap, ◌∙◌, inl, inr, Bool, true, false, ◌&&◌, none, some, List, [], ◌∷◌, String,
  str_eq, eq_iff, arith, any, Bool-cases, Option-cases,
}
use aithena.Base.Dict.{lookup}
use aithena.Indexer.Documents.{FileState, Stored, saved, bad_json, Store}
use aithena.Lister.{Broker, handle_document, Found, is_document, process_path}
use aithena.AdminDocs.{
  Answers, DocumentStatus, queued, processed, failed, same_status, classify_doc_state,
  iter_admin_docs, delete_key, delete_status, admin_requeue_failed, Entry,
}
use aithena.Pipeline.{is_queued}
use aithena.Pipeline.Deletes.{lookup-delete_key, delete_status-Shrinks}
use aithena.Lister.Handling.{
  any-snoc, handle_document-cases, handle_document_apart, handle_document-queued,
}

same_status_refl : (status : DocumentStatus) → same_status status status ≡ true
same_status_refl queued = refl
same_status_refl processed = refl
same_status_refl failed = refl

-- Once the key is gone, the next complete scan that finds the document queues it.
module _ (p : String) where
  -- The document p is among what `rglob` yields.
  abbrev pub is_found : Found → Bool
  is_found found = is_document found && str_eq found.path p

  process_path-queued :
      (files : List Found) (now : ℕ) (broker : Broker)
      → is_queued p broker.queue ≡ true
      → is_queued p (process_path files now broker).0.queue ≡ true
  unfolding process_path
  process_path-queued [] now broker h = h
  process_path-queued (found ∷ more) now broker h = elim (Bool-cases (is_document found)) [
    | inr other ↦ rw other (process_path-queued more now broker h)
    | inl document ↦ elim (Option-cases (handle_document found.path found.mtime now broker)) [
      | inl raised ↦ rw (document, raised) h
      | inr (after, done) ↦
          rw (document, done)
            (process_path-queued more now after
              (handle_document-queued p found.path found.mtime now broker after done h))
    ]
  ]

  -- Handling the document itself queues it.
  handle_document-new :
      (path : String) (mtime now : ℕ) (broker after : Broker)
      → handle_document path mtime now broker ≡ some after
      → lookup p broker.redis ≡ none
      → str_eq path p ≡ true
      → is_queued p after.queue ≡ true
  handle_document-new path mtime now broker after done unknown own =
      elim (handle_document-cases path mtime now broker after done) [
        | inl (new, e) ↦
            rw e
              (ground (arith, any-snoc (str_eq p) broker.queue path, eq_iff p path, eq_iff path p))
        | inr (state, known, e) ↦
            let here = ap (λ (t : String). lookup t broker.redis) ((eq_iff path p).0 own) in
            absurd (none_saved (sym unknown ∙ sym here ∙ known))
      ]
    where
      none_saved : {stored : Stored} → none ≡ some stored → ⊥
      none_saved e = cc

  process_path-new :
      (files : List Found) (now : ℕ) (broker : Broker)
      → lookup p broker.redis ≡ none
      → any is_found files ≡ true
      → (process_path files now broker).1 ≡ true
      → is_queued p (process_path files now broker).0.queue ≡ true
  unfolding process_path any
  process_path-new [] now broker new found complete = absurd (cc)
  process_path-new (x ∷ more) now broker new found complete = elim (Bool-cases (is_document x)) [
    | inr other ↦
        rw other (process_path-new more now broker new (rw other at found) (rw other at complete))
    | inl document ↦ elim (Option-cases (handle_document x.path x.mtime now broker)) [
      | inl raised ↦ absurd (incomplete (rw (document, raised) at complete))
      | inr (after, done) ↦
          let complete' = rw (document, done) at complete in
          elim (Bool-cases (str_eq x.path p)) [
            | inl own ↦
                rw (document, done)
                  (process_path-queued more now after
                    (handle_document-new x.path x.mtime now broker after done new own))
            | inr apart ↦
                let same = handle_document_apart p x.path x.mtime now broker after apart done in
                rw (document, done)
                  (process_path-new more now after (same.0 ∙ new) (rw (document, apart) at found)
                    complete')
          ]
    ]
  ]
    where
      incomplete : false ≡ true → ⊥
      incomplete e = cc

  -- A key that is gone stays gone while others are deleted.
  delete_status-none :
      (wanted : DocumentStatus) (answers : Answers) (finished : Bool) (docs : List Entry)
      (redis : Store)
      → lookup p redis ≡ none
      → lookup p (delete_status wanted answers finished docs redis).1 ≡ none
  delete_status-none wanted answers finished docs redis gone =
      elim (delete_status-Shrinks p wanted answers finished docs redis) [
        | inl e ↦ e
        | inr e ↦ e ∙ gone
      ]

  -- Some entry of the list is the one of p, and failed.
  abbrev is_entry : DocumentStatus → Entry → Bool
  is_entry wanted (key, state, status) = str_eq key p && same_status status wanted

  delete_status-gone :
      (wanted : DocumentStatus) (answers : Answers) (finished : Bool) (docs : List Entry)
      (redis : Store)
      → ((key : String) → answers.deletes key ≡ true)
      → any (is_entry wanted) docs ≡ true
      → lookup p (delete_status wanted answers finished docs redis).1 ≡ none
  unfolding delete_status any
  delete_status-gone wanted answers finished [] redis up there = absurd (cc)
  delete_status-gone wanted answers finished ((key, state, status) ∷ docs) redis up there =
      elim (Bool-cases (same_status status wanted)) [
        | inr other ↦
            rw other (delete_status-gone wanted answers finished docs redis up (ground arith))
        | inl same ↦ elim (Bool-cases (str_eq key p)) [
          | inl own ↦
              rw (same, up key)
                (delete_status-none wanted answers finished docs (delete_key key redis)
                  (lookup-delete_key p key redis ∙ rw own refl))
          | inr apart ↦
              rw (same, up key)
                (delete_status-gone wanted answers finished docs (delete_key key redis) up
                  (ground arith))
        ]
      ]

  iter_admin_docs-has :
      (answers : Answers) (redis : Store) (state : FileState)
      → ((key : String) → answers.gets key ≡ true)
      → lookup p redis ≡ some (saved state)
      → any (is_entry (classify_doc_state state)) (iter_admin_docs answers redis).0 ≡ true
  unfolding iter_admin_docs lookup any
  iter_admin_docs-has answers [] state up h = absurd (none_saved h)
    where
      none_saved : {stored : Stored} → none ≡ some stored → ⊥
      none_saved e = cc
  iter_admin_docs-has answers ((k, bad_json) ∷ redis) state up h = elim (Bool-cases (str_eq k p)) [
    | inl own ↦ absurd (bad_saved (rw own at h))
    | inr apart ↦ rw (up k) (iter_admin_docs-has answers redis state up (rw apart at h))
  ]
    where
      bad_saved : {state : FileState} → some bad_json ≡ some (saved state) → ⊥
      bad_saved e = cc
  iter_admin_docs-has answers ((k, saved s) ∷ redis) state up h = elim (Bool-cases (str_eq k p)) [
    | inl own ↦
        let same = saved_inj (rw own at h) in
        rw (up k, own, same, same_status_refl (classify_doc_state state)) refl
    | inr apart ↦ rw (up k, apart) (iter_admin_docs-has answers redis state up (rw apart at h))
  ]
    where
      saved_inj : {a b : FileState} → some (saved a) ≡ some (saved b) → a ≡ b
      saved_inj e = cc

-- The broker after the failed documents were requeued.
abbrev pub after_requeue : Answers → Store → List String → Broker
after_requeue answers redis queue = record {
  redis = (admin_requeue_failed answers redis).1;
  queue = queue;
}

-- Requeueing works: where Redis answers, after an administrator requeued the failed documents, the
-- first scan that runs to its end and finds the file of a document that had failed puts it in the
-- queue.
pub admin_requeue_failed-queued :
    (path : String) (answers : Answers) (redis : Store) (queue : List String) (state : FileState)
    (files : List Found) (now : ℕ)
    → answers.scans ≡ true
    → ((key : String) → answers.gets key ≡ true)
    → ((key : String) → answers.deletes key ≡ true)
    → lookup path redis ≡ some (saved state)
    → classify_doc_state state ≡ failed
    → any (is_found path) files ≡ true
    → (process_path files now (after_requeue answers redis queue)).1 ≡ true
    → is_queued path (process_path files now (after_requeue answers redis queue)).0.queue ≡ true
unfolding admin_requeue_failed
admin_requeue_failed-queued path answers redis queue state files now scans reads up entry status
      found complete =
    let listed = iter_admin_docs answers redis in
    process_path-new path files now (after_requeue answers redis queue)
      (rw (scans, admin_requeue_failed)
        (delete_status-gone path failed answers listed.1 listed.0 redis up
          (rw status at (iter_admin_docs-has path answers redis state reads entry))))
      found complete
