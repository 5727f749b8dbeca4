-- ===== src/Pipeline/Deletes.antt =====
-- What the administrator's requests delete: an entry is as before, or gone.
use aithena.Base.{
  ◌≡◌, refl, sym, ap, ◌∙◌, ◌⊎◌, inl, inr, Bool, true, false, Option, none, some, List, [], ◌∷◌,
  String, str_eq, eq_iff, arith, if◌then◌else◌, Bool-cases,
}
use aithena.Base.Dict.{lookup, has_key}
use aithena.Indexer.Documents.{Store}
use aithena.AdminDocs.{
  Answers, Token, undecodable, foreign, key_of, DocumentStatus, same_status, iter_admin_docs,
  delete_key, delete_status, admin_requeue_failed, admin_clear_processed, admin_requeue_document,
  admin_reindex, keep_keys, Entry,
}

lookup-keep_keys :
    (p : String) (stay : String → Bool) (redis : Store)
    → lookup p (keep_keys stay redis) ≡ (if stay p then lookup p redis else none)
unfolding lookup keep_keys
lookup-keep_keys p stay [] = ground arith
lookup-keep_keys p stay ((k, stored) ∷ redis) =
    let rest = lookup-keep_keys p stay redis in
    elim (Bool-cases (str_eq k p)) [
      | inl e ↦
          let same = ap stay ((eq_iff k p).0 e) in
          elim (Bool-cases (stay k)) [
            | inl left ↦ rw (left, e, sym same ∙ left) refl
            | inr gone ↦ rw (gone, e, rest, sym same ∙ gone) refl
          ]
      | inr e ↦ elim (Bool-cases (stay k)) [
        | inl left ↦ rw (left, e) rest
        | inr gone ↦ rw (gone, e) rest
      ]
    ]

module _ (p : String) where
  -- The entry of p is as before, or gone.
  abbrev pub Shrinks : Store → Store → Type 0
  Shrinks redis' redis = (lookup p redis' ≡ none) ⊎ (lookup p redis' ≡ lookup p redis)

  pub lookup-delete_key :
      (key : String) (redis : Store)
      → lookup p (delete_key key redis) ≡ (if str_eq key p then none else lookup p redis)
  unfolding lookup delete_key
  lookup-delete_key key [] = ground arith
  lookup-delete_key key ((k, stored) ∷ redis) =
      ground (arith, eq_iff k key, eq_iff k p, eq_iff key p, lookup-delete_key key redis)

  pub delete_key-Shrinks : (key : String) (redis : Store) → Shrinks (delete_key key redis) redis
  delete_key-Shrinks key redis = elim (Bool-cases (str_eq key p)) [
    | inl e ↦ inl (lookup-delete_key key redis ∙ rw e refl)
    | inr e ↦ inr (lookup-delete_key key redis ∙ rw e refl)
  ]

  Shrinks-trans : (a b c : Store) → Shrinks a b → Shrinks b c → Shrinks a c
  Shrinks-trans a b c (inl e) h = inl e
  Shrinks-trans a b c (inr e) (inl f) = inl (e ∙ f)
  Shrinks-trans a b c (inr e) (inr f) = inr (e ∙ f)

  pub delete_status-Shrinks :
      (wanted : DocumentStatus) (answers : Answers) (finished : Bool) (docs : List Entry)
      (redis : Store)
      → Shrinks (delete_status wanted answers finished docs redis).1 redis
  unfolding delete_status
  delete_status-Shrinks wanted answers finished [] redis = inr refl
  delete_status-Shrinks wanted answers finished ((key, state, status) ∷ docs) redis =
      elim (Bool-cases (same_status status wanted)) [
        | inr other ↦ rw other (delete_status-Shrinks wanted answers finished docs redis)
        | inl same ↦ elim (Bool-cases (answers.deletes key)) [
          | inr down ↦ rw (same, down) (inr refl)
          | inl up ↦
              rw (same, up)
                (Shrinks-trans _ (delete_key key redis) redis
                  (delete_status-Shrinks wanted answers finished docs (delete_key key redis))
                  (delete_key-Shrinks key redis))
        ]
      ]

  pub bulk-Shrinks :
      (wanted : DocumentStatus) (answers : Answers) (redis : Store)
      → let listed = iter_admin_docs answers redis in
        Shrinks (delete_status wanted answers listed.1 listed.0 redis).1 redis
  bulk-Shrinks wanted answers redis =
      let listed = iter_admin_docs answers redis in
      delete_status-Shrinks wanted answers listed.1 listed.0 redis

  pub keep_keys-Shrinks :
      (stay : String → Bool) (redis : Store) → Shrinks (keep_keys stay redis) redis
  keep_keys-Shrinks stay redis = elim (Bool-cases (stay p)) [
    | inl e ↦ inr (lookup-keep_keys p stay redis ∙ rw e refl)
    | inr e ↦ inl (lookup-keep_keys p stay redis ∙ rw e refl)
  ]

  pub requeued-Shrinks :
      (answers : Answers) (token : Token) (redis : Store)
      → Shrinks (admin_requeue_document answers token redis).1 redis
  unfolding admin_requeue_document
  requeued-Shrinks answers undecodable redis = inr refl
  requeued-Shrinks answers foreign redis = inr refl
  requeued-Shrinks answers (key_of key) redis = elim (Bool-cases (answers.deletes key)) [
    | inr down ↦ rw down (inr refl)
    | inl up ↦ elim (Bool-cases (has_key key redis)) [
      | inl there ↦ rw (up, there) (delete_key-Shrinks key redis)
      | inr absent ↦ rw (up, absent) (inr refl)
    ]
  ]

  pub failed-Shrinks :
      (answers : Answers) (redis : Store) → Shrinks (admin_requeue_failed answers redis).1 redis
  unfolding admin_requeue_failed
  failed-Shrinks answers redis = elim (Bool-cases answers.scans) [
    | inl up ↦ rw (up, admin_requeue_failed) (bulk-Shrinks DocumentStatus.failed answers redis)
    | inr down ↦ rw (down, admin_requeue_failed) (inr refl)
  ]

  pub cleared-Shrinks :
      (answers : Answers) (redis : Store) → Shrinks (admin_clear_processed answers redis).1 redis
  unfolding admin_clear_processed
  cleared-Shrinks answers redis = elim (Bool-cases answers.scans) [
    | inl up ↦ rw (up, admin_clear_processed) (bulk-Shrinks DocumentStatus.processed answers redis)
    | inr down ↦ rw (down, admin_clear_processed) (inr refl)
  ]

  pub reindexed-Shrinks :
      (allowed clears : Bool) (stays : Option (String → Bool)) (redis : Store)
      → Shrinks (admin_reindex allowed clears stays redis).1 redis
  unfolding admin_reindex lookup
  reindexed-Shrinks false clears stays redis = inr refl
  reindexed-Shrinks true false stays redis = inr refl
  reindexed-Shrinks true true none redis = inl refl
  reindexed-Shrinks true true (some stay) redis = keep_keys-Shrinks stay redis
