-- ===== src/PerfMetrics/Counts.antt =====
-- The counts that a snapshot reports.
use aithena.Base.{
  ℕ, suc, ◌+◌, ◌-◌, ◌<◌, ◌≡◌, refl, sym, ap, ◌∙◌, inl, inr, Bool, true, false, ◌&&◌, Option, none,
  some, List, [], ◌∷◌, ◌++◌, map, String, str_eq, eq_iff, ltb, leb, arith, if◌then◌else◌, length,
  keep, Bool-cases, Option-cases,
}
use aithena.Base.Dict.{Dict, lookup, lookup-insert}
use aithena.Base.Sort.{insert_by, sort_by}
use aithena.PerfMetrics.{
  TimedSample, CollectionBucket, PerfMetricsStore, init, sorted_values, summarize, bucket_or_new,
  bucket_of, add_request, record_request, prune_samples, prune_bucket, Report, report, prune_all,
  report_all, snapshot,
}

-- A request: its collection, its latencies, whether it failed, and the time of its record.
pub record Request : Type 0 where
  pub collection : String
  pub total : ℕ
  pub embedding : Option ℕ
  pub solr : Option ℕ
  pub error : Bool
  pub at : ℕ

unfoldable pub record_all : List Request → PerfMetricsStore → PerfMetricsStore
record_all [] store = store
record_all (r ∷ rs) store =
    record_all rs (record_request r.collection r.total r.embedding r.solr r.error r.at store)

-- How many requests to the collection there are, and how many from a time on.
abbrev pub count_if : Bool → ℕ → ℕ
count_if true n = suc n
count_if false n = n

abbrev pub requests_to : String → List Request → ℕ
requests_to name [] = 0
requests_to name (r ∷ rs) = count_if (str_eq r.collection name) (requests_to name rs)

abbrev pub recent_to : String → ℕ → List Request → ℕ
recent_to name cutoff [] = 0
recent_to name cutoff (r ∷ rs) =
    count_if (str_eq r.collection name && leb cutoff r.at) (recent_to name cutoff rs)

length-insert_by : (v : ℕ) (vs : List ℕ) → length (insert_by ltb v vs) ≡ suc (length vs)
unfolding insert_by
length-insert_by v [] = refl
length-insert_by v (w ∷ vs) = ground (arith, length-insert_by v vs)

length-sort_by : (vs : List ℕ) → length (sort_by ltb vs) ≡ length vs
unfolding sort_by
length-sort_by [] = refl
length-sort_by (v ∷ vs) = length-insert_by v (sort_by ltb vs) ∙ ap suc (length-sort_by vs)

length-sorted_values :
    (samples : List TimedSample) → length (sorted_values samples) ≡ length samples
length-sorted_values samples =
    length-sort_by (map (λ (s : TimedSample). s.value) samples) ∙ length-values samples
  where
    length-values :
        (samples : List TimedSample)
        → length (map (λ (s : TimedSample). s.value) samples) ≡ length samples
    length-values [] = refl
    length-values (s ∷ samples) = ap suc (length-values samples)

length-prune_append :
    (cutoff : ℕ) (samples : List TimedSample) (s : TimedSample)
    → length (prune_samples cutoff (samples ++ s ∷ []))
      ≡ count_if (leb cutoff s.timestamp) (length (prune_samples cutoff samples))
unfolding prune_samples keep
length-prune_append cutoff [] s = ground arith
length-prune_append cutoff (t ∷ samples) s = ground (arith, length-prune_append cutoff samples s)

bucket_of-record :
    (name : String) (r : Request) (store : PerfMetricsStore)
    → bucket_of name (record_request r.collection r.total r.embedding r.solr r.error r.at store) ≡ (
        if str_eq r.collection name
        then add_request r.at r.total r.embedding r.solr r.error (bucket_of r.collection store)
        else bucket_of name store)
unfolding bucket_of record_request
bucket_of-record name r store =
    let added =
      add_request r.at r.total r.embedding r.solr r.error (bucket_of r.collection store) in
    let found = ap bucket_or_new (lookup-insert r.collection name added store.buckets) in
    elim (Bool-cases (str_eq r.collection name)) [
      | inl e ↦ rw e (rw e at found)
      | inr e ↦ rw e (rw e at found)
    ]

-- What the bucket of a collection counts after some requests.
counts :
    (name : String) (cutoff : ℕ) (rs : List Request) (store : PerfMetricsStore)
    → let before = bucket_of name store in
      let after = bucket_of name (record_all rs store) in
      (after.request_count ≡ before.request_count + requests_to name rs)
      × (length (prune_samples cutoff after.request_latencies)
          ≡ length (prune_samples cutoff before.request_latencies) + recent_to name cutoff rs)
unfolding record_all
counts name cutoff [] store = (omega arith, omega arith)
counts name cutoff (r ∷ rs) store =
    let store' = record_request r.collection r.total r.embedding r.solr r.error r.at store in
    let rest = counts name cutoff rs store' in
    let step = bucket_of-record name r store in
    elim (Bool-cases (str_eq r.collection name)) [
      | inr other ↦
          let same = (rw other at step) in
          rw other (
            rest.0 ∙ ap (λ (b : CollectionBucket). b.request_count + requests_to name rs) same,
            rest.1
                ∙ ap
                    (λ (b : CollectionBucket).
                      length (prune_samples cutoff b.request_latencies) + recent_to name cutoff rs)
                    same,
          )
      | inl mine ↦
          let same =
            (rw mine at step)
            ∙ ap
                (λ (t : String).
                  add_request r.at r.total r.embedding r.solr r.error (bucket_of t store))
                ((eq_iff r.collection name).0 mine) in
          let counted = ap (λ (b : CollectionBucket). b.request_count) same in
          let kept =
            ap (λ (b : CollectionBucket). length (prune_samples cutoff b.request_latencies)) same
            ∙ length-prune_append cutoff (bucket_of name store).request_latencies
                (record { timestamp = r.at; value = r.total }) in
          rw mine (omega (arith, rest.0, counted), ground (arith, rest.1, kept))
    ]

abbrev report_if : ℕ → Option CollectionBucket → Option Report
report_if cutoff none = none
report_if cutoff (some bucket) = some (report (prune_bucket cutoff bucket))

lookup-report_all :
    (name : String) (cutoff : ℕ) (buckets : Dict CollectionBucket) (bucket : CollectionBucket)
    → lookup name buckets ≡ some bucket
    → lookup name (report_all (prune_all cutoff buckets))
      ≡ some (report (prune_bucket cutoff bucket))
unfolding lookup report_all prune_all
lookup-report_all name cutoff [] bucket h = absurd (cc)
lookup-report_all name cutoff ((n, b) ∷ buckets) bucket h = elim (Bool-cases (str_eq n name)) [
  | inl e ↦ rw e (ap (report_if cutoff) (rw e at h))
  | inr e ↦ rw e (lookup-report_all name cutoff buckets bucket (rw e at h))
]

record_all-window :
    (rs : List Request) (store : PerfMetricsStore)
    → (record_all rs store).window_seconds ≡ store.window_seconds
unfolding record_all record_request
record_all-window [] store = refl
record_all-window (r ∷ rs) store =
    record_all-window rs (record_request r.collection r.total r.embedding r.solr r.error r.at store)

lookup-snapshot :
    (name : String) (now : ℕ) (store : PerfMetricsStore) (bucket : CollectionBucket)
    → lookup name store.buckets ≡ some bucket
    → lookup name (snapshot now store).0
      ≡ some (report (prune_bucket (now - store.window_seconds) bucket))
unfolding snapshot
lookup-snapshot name now store bucket found =
    lookup-report_all name (now - store.window_seconds) store.buckets bucket found

zero_add : (n : ℕ) → 0 + n ≡ n
zero_add n = omega arith

-- A snapshot of a new store after some requests reports every collection that had a request, with
-- the number of all its requests, however old, and as the count of its latencies the number of its
-- requests that are not before the window.
pub snapshot-counts :
    (window_seconds started now : ℕ) (rs : List Request) (name : String)
    → 0 < requests_to name rs
    → (r : Report) × (lookup name (snapshot now (record_all rs (init window_seconds started))).0
        ≡ some r)
      × (r.request_count ≡ requests_to name rs)
      × (r.latency.count ≡ recent_to name (now - window_seconds) rs)
unfolding bucket_of lookup report prune_bucket summarize prune_samples keep
snapshot-counts window_seconds started now rs name some_request =
    let store = record_all rs (init window_seconds started) in
    let cutoff = now - window_seconds in
    let counted = counts name cutoff rs (init window_seconds started) in
    elim (Option-cases (lookup name store.buckets)) [
      | inl missing ↦
          let empty = ap (λ o. (bucket_or_new o).request_count) missing in
          absurd (omega (arith, empty, counted.0))
      | inr (bucket, found) ↦
          let same : bucket ≡ bucket_of name store = sym (ap bucket_or_new found) in
          (
            report (prune_bucket (now - store.window_seconds) bucket),
            lookup-snapshot name now store bucket found,
            ap (λ (b : CollectionBucket). b.request_count) same
                ∙ counted.0
                ∙ zero_add (requests_to name rs),
            length-sorted_values
                  (prune_samples (now - store.window_seconds) bucket.request_latencies)
                ∙ ap (λ (w : ℕ). length (prune_samples (now - w) bucket.request_latencies))
                    (record_all-window rs (init window_seconds started))
                ∙ ap (λ (b : CollectionBucket). length (prune_samples cutoff b.request_latencies))
                    same
                ∙ counted.1
                ∙ zero_add (recent_to name cutoff rs),
          )
    ]
