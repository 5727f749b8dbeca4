-- ===== src/Indexer/Batches.antt =====
-- Which chunks index_chunks sends to Solr.
use aithena.Base.{
  append_assoc, ℕ, zero, suc, ◌+◌, ◌≤◌, ◌<◌, ◌≡◌, refl, sym, ap, ◌∙◌, ◌⊎◌, inl, inr, List, [], ◌∷◌,
  ◌++◌, map, arith, length, take, drop, length-drop, length-take, Bool-cases,
}
use aithena.Base.Text.{Text}
use aithena.Indexer.{
  Error, Result, ok, err, Metadata, EmbeddingResult, ChunkDoc, PageChunk, Services, build_chunk_doc,
  get_embeddings, batch_docs, index_batches, index_chunks,
}

-- A chunk with its number.
abbrev pub Numbered : Type 0
Numbered = ℕ × Text × ℕ × ℕ

abbrev pub number : ℕ → List PageChunk → List Numbered
number i [] = []
number i (chunk ∷ chunks) = (i, chunk.0, chunk.1, chunk.2) ∷ number (suc i) chunks

number-split :
    (i b : ℕ) (chunks : List PageChunk)
    → number i chunks ≡ number i (take b chunks) ++ number (i + b) (drop b chunks)
number-split i zero chunks = ap (λ (j : ℕ). number j chunks) {x = i} {y = i + 0} (omega arith)
number-split i (suc b) [] = refl
number-split i (suc b) (chunk ∷ chunks) = rw (add_suc i b) (
    ap (λ (rest : List Numbered). (i, chunk.0, chunk.1, chunk.2) ∷ rest)
      (number-split (suc i) b chunks))
  where
    add_suc : (i b : ℕ) → i + suc b ≡ suc i + b
    add_suc i b = omega arith

length-texts : (batch : List PageChunk) → length (map (λ (c : PageChunk). c.0) batch) ≡ length batch
length-texts [] = refl
length-texts (chunk ∷ batch) = ap suc (length-texts batch)

pub Result-cases :
    {A : Type 0} (r : Result A) → ((e : Error) × (r ≡ err e)) ⊎ ((a : A) × (r ≡ ok a))
Result-cases (err e) = inl (e, refl)
Result-cases (ok a) = inr (a, refl)

module _ {V : Type 0} where
  -- What Solr took, in order: the number, text and pages of each document.
  abbrev pub keys : List (ChunkDoc V) → List Numbered
  keys [] = []
  keys (d ∷ docs) = (d.chunk_index_i, d.chunk_text_t, d.page_start_i, d.page_end_i) ∷ keys docs

  abbrev pub all_keys : List (List (ChunkDoc V)) → List Numbered
  all_keys [] = []
  all_keys (docs ∷ batches) = keys docs ++ all_keys batches

  -- Success means that every chunk was sent, numbered from `start` in order, and counted; a failure
  -- leaves a first part of the chunks, numbered in the same way.
  abbrev pub Sent : ℕ → ℕ → List PageChunk → Result ℕ → List (List (ChunkDoc V)) → Type 0
  Sent start total chunks (ok n) batches =
      (n ≡ total + length chunks) × (all_keys batches ≡ number start chunks)
  Sent start total chunks (err e) batches =
      (left : List Numbered) × (number start chunks ≡ all_keys batches ++ left)

  batch_docs-keys :
      (parent_id : Text) (metadata : Metadata) (i : ℕ) (batch : List PageChunk)
      (results : List (EmbeddingResult V))
      → length results ≡ length batch
      → (keys (batch_docs parent_id metadata i batch results) ≡ number i batch)
        × (length (batch_docs parent_id metadata i batch results) ≡ length batch)
  unfolding batch_docs build_chunk_doc
  batch_docs-keys parent_id metadata i [] results e = (refl, refl)
  batch_docs-keys parent_id metadata i (chunk ∷ batch) [] e = absurd (omega arith)
  batch_docs-keys parent_id metadata i (chunk ∷ batch) (result ∷ results) e =
      let rest = batch_docs-keys parent_id metadata (suc i) batch results (omega arith) in
      (ap (λ (l : List Numbered). (i, chunk.0, chunk.1, chunk.2) ∷ l) rest.0, ap suc rest.1)

  length-get_embeddings :
      (server : List Text → Result (List (EmbeddingResult V))) (texts : List Text)
      (results : List (EmbeddingResult V))
      → get_embeddings server texts ≡ ok results
      → length results ≡ length texts
  unfolding get_embeddings
  length-get_embeddings server texts results e = ground arith

  -- A batch that was sent, before the batches after it.
  Sent-batch :
      (start total batch_size : ℕ) (chunks : List PageChunk) (docs : List (ChunkDoc V))
      (result : Result ℕ) (batches : List (List (ChunkDoc V)))
      → keys docs ≡ number start (take batch_size chunks)
      → length docs ≡ length (take batch_size chunks)
      → Sent (start + batch_size) (total + length docs) (drop batch_size chunks) result batches
      → Sent start total chunks result (docs ∷ batches)
  Sent-batch start total b chunks docs (ok n) batches same count h = (
    (let taken = length-take b chunks in
        let dropped = length-drop b chunks in let n_is = h.0 in omega arith),
    rw (same, h.1) (sym (number-split start b chunks)),
  )
  Sent-batch start total b chunks docs (err e) batches same count (left, h) = (
    left,
    number-split start b chunks
        ∙ ap (λ (l : List Numbered). number start (take b chunks) ++ l) h
        ∙ rw⁻¹ same (append_assoc (keys docs) (all_keys batches) left),
  )

  index_batches-Sent :
      (fuel batch_size : ℕ) (services : Services V) (parent_id : Text) (metadata : Metadata)
      (start total : ℕ) (chunks : List PageChunk)
      → 0 < batch_size
      → length chunks ≤ fuel
      → let done = index_batches fuel batch_size services parent_id metadata start total chunks in
        Sent start total chunks done.0 done.1
  unfolding index_batches
  index_batches-Sent fuel b services parent_id metadata start total [] pos enough =
      (omega arith, refl)
  index_batches-Sent zero b services parent_id metadata start total (chunk ∷ chunks) pos enough =
      absurd (omega arith)
  index_batches-Sent (suc fuel) b services parent_id metadata start total (chunk ∷ chunks) pos
        enough =
      let here = take b (chunk ∷ chunks) in
      let texts = map (λ (c : PageChunk). c.0) here in
      elim (Result-cases (get_embeddings (services.server start) texts)) [
        | inl (e, failed) ↦ rw (failed, index_batches) (number start (chunk ∷ chunks), refl)
        | inr (results, got) ↦ elim (Bool-cases (services.accepts start)) [
          | inr refused ↦ rw (got, refused, index_batches) (number start (chunk ∷ chunks), refl)
          | inl taken ↦
              let docs = batch_docs parent_id metadata start here results in
              let same = batch_docs-keys parent_id metadata start here results (
                length-get_embeddings (services.server start) texts results got
                ∙ length-texts here) in
              let rest =
                index_batches-Sent fuel b services parent_id metadata (start + b)
                  (total + length docs) (drop b (chunk ∷ chunks)) pos
                  (let left = length-drop b (chunk ∷ chunks) in omega arith) in
              rw (got, taken, index_batches)
                (Sent-batch start total b (chunk ∷ chunks) docs _ _ same.0 same.1 rest)
        ]
      ]

  -- What index_chunks must achieve from the chunks of the PDF, or from the error of reading it.
  abbrev pub AllSent : Result (List PageChunk) → Result ℕ → List (List (ChunkDoc V)) → Type 0
  AllSent (err e) result batches = (result ≡ err e) × (batches ≡ [])
  AllSent (ok page_chunks) result batches = Sent 0 0 page_chunks result batches

  -- With a positive batch size: if index_chunks returns n, then n is the number of chunks and Solr
  -- took every chunk, numbered from 0 in order, with its text and pages; if it raises, Solr took a
  -- first part of them, numbered in the same way; if the PDF cannot be read, Solr took nothing.
  pub index_chunks-AllSent :
      (batch_size : ℕ) (services : Services V) (parent_id : Text) (metadata : Metadata)
      (page_chunks : Result (List PageChunk))
      → 0 < batch_size
      → let done = index_chunks batch_size services parent_id metadata page_chunks in
        AllSent page_chunks done.0 done.1
  unfolding index_chunks
  index_chunks-AllSent b services parent_id metadata (err e) pos = (refl, refl)
  index_chunks-AllSent b services parent_id metadata (ok page_chunks) pos =
      index_batches-Sent (length page_chunks) b services parent_id metadata 0 0 page_chunks pos
        (omega arith)
