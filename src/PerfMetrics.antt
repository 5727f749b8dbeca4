-- ===== src/PerfMetrics.antt =====
-- src/solr-search/perf_metrics.py: per-collection metrics with a rolling window.
--
-- Times and latencies are natural numbers of some unit; before one window has passed since time 0 the
-- difference in `snapshot` is negative where the one here is 0, and both are at most every time. The
-- means and the roundings of the report are left out. Every method holds the lock.
pub mod Percentiles
pub mod Counts
mod Tests
use aithena.Base.{
  ℕ, suc, ◌+◌, ◌-◌, ◌*◌, ◌/◌, ◌≡◌, Bool, true, false, Option, none, some, List, [], ◌∷◌, ◌++◌, map,
  min, max, String, ltb, leb, if◌then◌else◌, length, get_or, keep,
}
use aithena.Base.Dict.{Dict, lookup, insert}
use aithena.Base.Sort.{sort_by}

pub record TimedSample : Type 0 where
  pub timestamp : ℕ
  pub value : ℕ

pub record CollectionBucket : Type 0 where
  pub request_latencies : List TimedSample
  pub embedding_latencies : List TimedSample
  pub solr_latencies : List TimedSample
  pub request_count : ℕ
  pub error_count : ℕ

abbrev pub new_bucket : CollectionBucket
new_bucket = record {
  request_latencies = [];
  embedding_latencies = [];
  solr_latencies = [];
  request_count = 0;
  error_count = 0;
}

pub record PerfMetricsStore : Type 0 where
  pub window_seconds : ℕ
  pub started_at : ℕ
  pub buckets : Dict CollectionBucket

-- __init__
abbrev pub init : ℕ → ℕ → PerfMetricsStore
init window_seconds now = record { window_seconds = window_seconds; started_at = now; buckets = [] }

-- `int(len(sorted_values) * pct / 100.0 + 0.5)`: where the sum is whole the floats are exact, and
-- elsewhere it is a hundredth or more from a whole number
unfoldable pub nearest_rank : ℕ → ℕ → ℕ
nearest_rank n pct = (n * pct + 50) / 100

-- _percentile; the index is at most the last, so the default of the look-up is never used
unfoldable pub percentile : List ℕ → ℕ → ℕ
unfolding nearest_rank
percentile [] pct = 0
percentile (v ∷ values) pct =
    let n = length (v ∷ values) in get_or (v ∷ values) (min (nearest_rank n pct - 1) (n - 1)) 0

pub record Summary : Type 0 where
  pub p50 : ℕ
  pub p95 : ℕ
  pub p99 : ℕ
  pub count : ℕ

-- `sorted(s.value for s in samples)`
abbrev pub sorted_values : List TimedSample → List ℕ
sorted_values samples = sort_by ltb (map (λ (s : TimedSample). s.value) samples)

-- _summarize; no samples give zeros, as the percentiles of no values do
unfoldable pub summarize : List TimedSample → Summary
summarize samples =
    let values = sorted_values samples in
    record {
      p50 = percentile values 50;
      p95 = percentile values 95;
      p99 = percentile values 99;
      count = length values;
    }

abbrev pub bucket_or_new : Option CollectionBucket → CollectionBucket
bucket_or_new none = new_bucket
bucket_or_new (some bucket) = bucket

-- `self._buckets[collection]` of the defaultdict
unfoldable pub bucket_of : String → PerfMetricsStore → CollectionBucket
bucket_of collection store = bucket_or_new (lookup collection store.buckets)

abbrev add_if_given : ℕ → Option ℕ → List TimedSample → List TimedSample
add_if_given now none samples = samples
add_if_given now (some v) samples = samples ++ record { timestamp = now; value = v } ∷ []

abbrev pub one_more : Bool → ℕ → ℕ
one_more true n = suc n
one_more false n = n

-- what one request adds to a bucket
abbrev pub add_request : ℕ → ℕ → Option ℕ → Option ℕ → Bool → CollectionBucket → CollectionBucket
add_request now total embedding solr error bucket = record {
  request_latencies = bucket.request_latencies ++ record { timestamp = now; value = total } ∷ [];
  embedding_latencies = add_if_given now embedding bucket.embedding_latencies;
  solr_latencies = add_if_given now solr bucket.solr_latencies;
  request_count = suc bucket.request_count;
  error_count = one_more error bucket.error_count;
}

-- record_request
unfoldable pub record_request :
    String → ℕ → Option ℕ → Option ℕ → Bool → ℕ → PerfMetricsStore → PerfMetricsStore
unfolding bucket_of
record_request collection total embedding solr error now store = record store {
  buckets =
      insert collection (add_request now total embedding solr error (bucket_of collection store))
        store.buckets;
}

abbrev add_error : CollectionBucket → CollectionBucket
add_error bucket = record bucket { error_count = suc bucket.error_count }

-- record_error
unfoldable pub record_error : String → PerfMetricsStore → PerfMetricsStore
unfolding bucket_of
record_error collection store = record store {
  buckets = insert collection (add_error (bucket_of collection store)) store.buckets;
}

-- _prune_samples
unfoldable pub prune_samples : ℕ → List TimedSample → List TimedSample
prune_samples cutoff samples = keep (λ (s : TimedSample). leb cutoff s.timestamp) samples

-- _prune_bucket
unfoldable pub prune_bucket : ℕ → CollectionBucket → CollectionBucket
unfolding prune_samples
prune_bucket cutoff bucket = record bucket {
  request_latencies = prune_samples cutoff bucket.request_latencies;
  embedding_latencies = prune_samples cutoff bucket.embedding_latencies;
  solr_latencies = prune_samples cutoff bucket.solr_latencies;
}

-- The report of one collection; `error_rate` is the quotient of the two counts, the second at least 1.
pub record Report : Type 0 where
  pub request_count : ℕ
  pub error_count : ℕ
  pub error_rate : ℕ × ℕ
  pub latency : Summary
  pub embedding_latency : Summary
  pub solr_latency : Summary

unfoldable pub report : CollectionBucket → Report
unfolding summarize
report bucket = record {
  request_count = bucket.request_count;
  error_count = bucket.error_count;
  error_rate = (bucket.error_count, max bucket.request_count 1);
  latency = summarize bucket.request_latencies;
  embedding_latency = summarize bucket.embedding_latencies;
  solr_latency = summarize bucket.solr_latencies;
}

-- the loop of snapshot: each bucket is pruned, then reported
unfoldable pub prune_all : ℕ → Dict CollectionBucket → Dict CollectionBucket
prune_all cutoff [] = []
prune_all cutoff ((name, bucket) ∷ buckets) =
    (name, prune_bucket cutoff bucket) ∷ prune_all cutoff buckets

unfoldable pub report_all : Dict CollectionBucket → Dict Report
report_all [] = []
report_all ((name, bucket) ∷ buckets) = (name, report bucket) ∷ report_all buckets

-- snapshot: the reports of the collections, and the store with its samples pruned
unfoldable pub snapshot : ℕ → PerfMetricsStore → Dict Report × PerfMetricsStore
unfolding prune_all report_all
snapshot now store =
    let pruned = prune_all (now - store.window_seconds) store.buckets in
    (report_all pruned, record store { buckets = pruned })

-- reset
unfoldable pub reset : ℕ → PerfMetricsStore → PerfMetricsStore
reset now store = record store { buckets = []; started_at = now }
