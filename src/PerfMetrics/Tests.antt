-- ===== src/PerfMetrics/Tests.antt =====
-- The metrics at concrete inputs.
use aithena.Base.{ℕ, ◌-◌, ◌≡◌, refl, false, none, some, List, [], ◌∷◌, arith}
use aithena.Base.Dict.{lookup}
use aithena.PerfMetrics.{TimedSample, init, percentile, Report, snapshot}
use aithena.PerfMetrics.Counts.{Request, record_all, requests_to, recent_to, snapshot-counts}

abbrev samples : List TimedSample
samples =
    record { timestamp = 1; value = 30 }
    ∷ record { timestamp = 2; value = 10 }
    ∷ record { timestamp = 3; value = 20 }
    ∷ []

median : percentile (10 ∷ 20 ∷ 30 ∷ []) 50 ≡ 20
unfolding percentile
median = refl

abbrev request : ℕ → Request
request at = record {
  collection = "books";
  total = 5;
  embedding = none;
  solr = some 3;
  error = false;
  at = at;
}

abbrev requests : List Request
requests = request 1 ∷ request 50 ∷ request 55 ∷ []

snapshot-counts_example :
    (r : Report) × (lookup "books" (snapshot 60 (record_all requests (init 20 0))).0 ≡ some r)
    × (r.request_count ≡ requests_to "books" requests)
    × (r.latency.count ≡ recent_to "books" (60 - 20) requests)
snapshot-counts_example = snapshot-counts 20 0 60 requests "books" (omega arith)
