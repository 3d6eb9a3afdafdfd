-- ===== src/Observability/Metrics/Store.antt =====
-- The class ApiMetrics but for its text output.
use lux_ledger_demo.Common.{
  ℕ, ◌+◌, Bool, none, some, List, [], ◌∷◌, ◌++◌, map, Text, Dict, lookup, insert, join_with, codes,
  leb, replicate, length, if◌then◌else◌,
}
use lux_ledger_demo.Common.Int.{ℤ, pos_part}
use lux_ledger_demo.Common.Decimal.{print}

-- The bounds of the buckets, in nanoseconds: 0.005 to 10 seconds.
abbrev pub request_duration_buckets : List ℕ
request_duration_buckets =
    5_000_000 ∷ 10_000_000 ∷ 25_000_000 ∷ 50_000_000 ∷ 100_000_000 ∷ 250_000_000 ∷ 500_000_000
    ∷ 1_000_000_000 ∷ 2_500_000_000 ∷ 5_000_000_000 ∷ 10_000_000_000 ∷ []

-- The entries of an object of labels.
abbrev pub Labels : Type 0
Labels = List (Text × Text)

pub record CounterSeries : Type 0 where
  pub labels : Labels
  pub value : ℕ

pub record HistogramSeries : Type 0 where
  pub labels : Labels
  pub bucket_counts : List ℕ
  pub count : ℕ
  pub sum : ℕ

pub record ApiMetrics : Type 0 where
  pub request_total : Dict CounterSeries
  pub auth_failures_total : Dict CounterSeries
  pub token_issuance_failures_total : Dict CounterSeries
  pub request_duration : Dict HistogramSeries

abbrev pub no_metrics : ApiMetrics
no_metrics = record {
  request_total = [];
  auth_failures_total = [];
  token_issuance_failures_total = [];
  request_duration = [];
}

-- Array.prototype.sort, which is stable, by `precedes l r`: l.localeCompare(r) is at most 0.
module _ {A : Type 0} (precedes : A → A → Bool) where
  unfoldable pub insert_sorted : A → List A → List A
  insert_sorted a [] = a ∷ []
  insert_sorted a (b ∷ bs) = if precedes a b then a ∷ b ∷ bs else b ∷ insert_sorted a bs

  unfoldable pub sort : List A → List A
  sort [] = []
  sort (a ∷ as_) = insert_sorted a (sort as_)

abbrev pub request_labels : Text → ℕ → Labels
request_labels route status = (codes "route", route) ∷ (codes "status", print status) ∷ []

abbrev pub status_labels : ℕ → Labels
status_labels status = (codes "status", print status) ∷ []

-- Every bucket whose bound the duration does not exceed counts one more.
unfoldable pub count_buckets : ℕ → List ℕ → List ℕ → List ℕ
count_buckets d [] counts = counts
count_buckets d (b ∷ bounds) [] = []
count_buckets d (b ∷ bounds) (n ∷ counts) =
    (if leb d b then n + 1 else n) ∷ count_buckets d bounds counts

-- Math.max(0, duration)
abbrev pub clamped : ℤ → ℕ
clamped = pos_part

-- `precedes a b`: a.localeCompare(b) is at most 0.
module _ (precedes : Text → Text → Bool) where
  abbrev pub sort_labels : Labels → Labels
  sort_labels = sort (λ a b. precedes a.0 b.0)

  unfoldable pub canonical_key : Labels → Text
  canonical_key labels = join_with 0 (map (λ l. l.0 ++ b'=' ∷ l.1) (sort_labels labels))

  unfoldable pub upsert_counter : Dict CounterSeries → Labels → ℕ → Dict CounterSeries
  upsert_counter store labels increment =
      let key = canonical_key labels in
      elim (lookup key store) [
        | some series ↦ insert key (record series { value = series.value + increment }) store
        | none ↦ insert key (record { labels = labels; value = increment }) store
      ]

  abbrev pub new_histogram : Labels → HistogramSeries
  new_histogram labels = record {
    labels = labels;
    bucket_counts = replicate (length request_duration_buckets) 0;
    count = 0;
    sum = 0;
  }

  -- The series at a key, or a new one.
  abbrev pub series_at : Text → Labels → Dict HistogramSeries → HistogramSeries
  series_at key labels store = elim (lookup key store) [
    | some series ↦ series
    | none ↦ new_histogram labels
  ]

  unfoldable pub observe_duration : Dict HistogramSeries → Labels → ℕ → Dict HistogramSeries
  observe_duration store labels d =
      let key = canonical_key labels in
      let series = series_at key labels store in
      insert key
        (record series {
          bucket_counts = count_buckets d request_duration_buckets series.bucket_counts;
          count = series.count + 1;
          sum = series.sum + d;
        })
        store

  unfoldable pub observe_request : ApiMetrics → Text → ℕ → ℤ → ApiMetrics
  observe_request metrics route status duration =
      let labels = request_labels route status in
      record metrics {
        request_total = upsert_counter metrics.request_total labels 1;
        request_duration = observe_duration metrics.request_duration labels (clamped duration);
      }

  unfoldable pub increment_auth_failure : ApiMetrics → Text → ℕ → ApiMetrics
  increment_auth_failure metrics route status = record metrics {
    auth_failures_total =
        upsert_counter metrics.auth_failures_total (request_labels route status) 1;
  }

  unfoldable pub increment_token_issuance_failure : ApiMetrics → ℕ → ApiMetrics
  increment_token_issuance_failure metrics status = record metrics {
    token_issuance_failures_total =
        upsert_counter metrics.token_issuance_failures_total (status_labels status) 1;
  }
