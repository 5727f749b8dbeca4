-- ===== src/Lister/Handling.antt =====
-- What handling one file can do to the table and the queue.
use aithena.Base.{
  ℕ, ◌≡◌, refl, ◌⊎◌, inl, inr, Bool, true, false, ◌||◌, Option, none, some, List, [], ◌∷◌, ◌++◌,
  String, str_eq, eq_iff, arith, any, Bool-cases,
}
use aithena.Base.Dict.{lookup, insert, lookup-insert}
use aithena.Indexer.Documents.{FileState, Stored, saved, bad_json}
use aithena.Lister.{
  Broker, is_true, is_modified, first_state, unprocessed, touched, set_state, push_file_to_queue,
  handle_known, handle_document,
}

pub any-snoc :
    (q : String → Bool) (xs : List String) (x : String) → any q (xs ++ x ∷ []) ≡ (any q xs || q x)
unfolding any
any-snoc q [] x = ground arith
any-snoc q (y ∷ xs) x = ground (arith, any-snoc q xs x)

lookup-cases :
    (entry : Option Stored)
    → (entry ≡ none)
      ⊎ (entry ≡ some bad_json)
      ⊎ ((state : FileState) × (entry ≡ some (saved state)))
lookup-cases none = inl refl
lookup-cases (some bad_json) = inr (inl refl)
lookup-cases (some (saved state)) = inr (inr (state, refl))

none-some : {b : Broker} → none ≡ some b → ⊥
none-some e = cc

some_inj : {a b : Broker} → some a ≡ some b → b ≡ a
some_inj e = cc

-- A file that is handled was unknown, and is entered and queued, or its entry was read.
pub handle_document-cases :
    (path : String) (mtime now : ℕ) (broker after : Broker)
    → handle_document path mtime now broker ≡ some after
    → ((lookup path broker.redis ≡ none)
        × (after ≡ set_state path (first_state path mtime now) (push_file_to_queue path broker)))
      ⊎ ((state : FileState) × (lookup path broker.redis ≡ some (saved state))
          × (after ≡ handle_known path mtime now state broker))
unfolding handle_document
handle_document-cases path mtime now broker after done =
    elim (lookup-cases (lookup path broker.redis)) [
      | inl new ↦ inl (new, some_inj (rw (new, handle_document) at done))
      | inr (inl bad) ↦ absurd (none-some (rw (bad, handle_document) at done))
      | inr (inr (state, known)) ↦
          inr (state, known, some_inj (rw (known, handle_document) at done))
    ]

-- A known file that is handled is left as it is, entered and queued, or only entered.
pub handle_known-cases :
    (path : String) (mtime now : ℕ) (state : FileState) (broker : Broker)
    → (handle_known path mtime now state broker ≡ broker)
      ⊎ ((is_true state.processed ≡ true)
          × (handle_known path mtime now state broker
              ≡ set_state path (unprocessed mtime now state) (push_file_to_queue path broker)))
      ⊎ ((is_true state.processed ≡ false)
          × (handle_known path mtime now state broker
              ≡ set_state path (touched mtime now state) broker))
unfolding handle_known
handle_known-cases path mtime now state broker =
    elim (Bool-cases (is_modified state.last_modified mtime)) [
      | inr same ↦ inl (rw same refl)
      | inl modified ↦ elim (Bool-cases (is_true state.processed)) [
        | inl done ↦ inr (inl (done, rw (modified, done) refl))
        | inr fresh ↦ inr (inr (fresh, rw (modified, fresh) refl))
      ]
    ]

-- Handling one file keeps the entry of every other, and whether it is queued.
pub handle_document_apart :
    (p path : String) (mtime now : ℕ) (broker after : Broker)
    → str_eq path p ≡ false
    → handle_document path mtime now broker ≡ some after
    → (lookup p after.redis ≡ lookup p broker.redis)
      × (any (str_eq p) after.queue ≡ any (str_eq p) broker.queue)
handle_document_apart p path mtime now broker after apart done =
    elim (handle_document-cases path mtime now broker after done) [
      | inl (new, e) ↦ rw e (entered (first_state path mtime now), pushed)
      | inr (state, known, e) ↦ elim (handle_known-cases path mtime now state broker) [
        | inl same ↦ rw (e, same) (refl, refl)
        | inr (inl (old, same)) ↦ rw (e, same) (entered (unprocessed mtime now state), pushed)
        | inr (inr (old, same)) ↦ rw (e, same) (entered (touched mtime now state), refl)
      ]
    ]
  where
    entered :
        (state : FileState)
        → lookup p (insert path (saved state) broker.redis) ≡ lookup p broker.redis
    entered state = rw (lookup-insert path p (saved state) broker.redis, apart) refl

    pushed : any (str_eq p) (broker.queue ++ path ∷ []) ≡ any (str_eq p) broker.queue
    pushed = ground (arith, any-snoc (str_eq p) broker.queue path, eq_iff p path, eq_iff path p)

-- What is queued stays queued.
pub handle_document-queued :
    (p path : String) (mtime now : ℕ) (broker after : Broker)
    → handle_document path mtime now broker ≡ some after
    → any (str_eq p) broker.queue ≡ true
    → any (str_eq p) after.queue ≡ true
handle_document-queued p path mtime now broker after done h =
    elim (handle_document-cases path mtime now broker after done) [
      | inl (new, e) ↦ rw e pushed
      | inr (state, known, e) ↦ elim (handle_known-cases path mtime now state broker) [
        | inl same ↦ rw (e, same) h
        | inr (inl (old, same)) ↦ rw (e, same) pushed
        | inr (inr (old, same)) ↦ rw (e, same) h
      ]
    ]
  where
    pushed : any (str_eq p) (broker.queue ++ path ∷ []) ≡ true
    pushed = ground (arith, any-snoc (str_eq p) broker.queue path)
