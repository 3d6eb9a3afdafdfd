-- ===== src/Observability/Metrics/Render.antt =====
-- The text output of ApiMetrics: `renderPrometheus`.
use lux_ledger_demo.Common.{
  ℕ, Bool, List, [], ◌∷◌, ◌++◌, map, Text, Dict, join_with, codes, ◌==◌, if◌then◌else◌,
}
use lux_ledger_demo.Common.Decimal.{print}
use lux_ledger_demo.Observability.Metrics.Store.{
  Labels, CounterSeries, HistogramSeries, ApiMetrics, sort, sort_labels, canonical_key,
}

-- value.replace(c, with) for every occurrence of the unit `c`
unfoldable pub replace_all : ℕ → Text → Text → Text
replace_all c by [] = []
replace_all c by (d ∷ s) = if d == c then by ++ replace_all c by s else d ∷ replace_all c by s

-- Backslash, line feed and quote, in this order.
unfoldable pub escape_label_value : Text → Text
escape_label_value value =
    replace_all b'"' (b'\\' ∷ b'"' ∷ [])
      (replace_all 10 (b'\\' ∷ b'n' ∷ []) (replace_all b'\\' (b'\\' ∷ b'\\' ∷ []) value))

abbrev pub bucket_names : List Text
bucket_names =
    codes "0.005"
    ∷ codes "0.01"
    ∷ codes "0.025"
    ∷ codes "0.05"
    ∷ codes "0.1"
    ∷ codes "0.25"
    ∷ codes "0.5"
    ∷ codes "1"
    ∷ codes "2.5"
    ∷ codes "5"
    ∷ codes "10"
    ∷ []

-- `precedes` is localeCompare at most 0, `show_sum` the text of a sum of nanoseconds in seconds.
module _ (precedes : Text → Text → Bool) (show_sum : ℕ → Text) where
  -- `${name}="${value}"`
  abbrev label_text : Text × Text → Text
  label_text (name, value) = name ++ b'=' ∷ b'"' ∷ escape_label_value value ++ b'"' ∷ []

  abbrev braces : List Text → Text
  braces [] = []
  braces (e ∷ es) = b'{' ∷ join_with b',' (e ∷ es) ++ b'}' ∷ []

  unfoldable pub format_labels : Labels → Text
  format_labels labels = braces (map label_text (sort_labels precedes labels))

  unfoldable pub get_sorted_counter_series : Dict CounterSeries → List CounterSeries
  get_sorted_counter_series store =
      sort (λ a b. precedes (canonical_key precedes a.labels) (canonical_key precedes b.labels))
        (map (λ e. e.1) store)

  unfoldable pub get_sorted_histogram_series : Dict HistogramSeries → List HistogramSeries
  get_sorted_histogram_series store =
      sort (λ a b. precedes (canonical_key precedes a.labels) (canonical_key precedes b.labels))
        (map (λ e. e.1) store)

  -- `${name}${formatLabels(labels)} ${value}`
  abbrev sample : Text → Labels → Text → Text
  sample name labels value = name ++ format_labels labels ++ b' ' ∷ value

  abbrev counter_lines : Text → Dict CounterSeries → List Text
  counter_lines name store =
      map (λ s. sample name s.labels (print s.value)) (get_sorted_counter_series store)

  abbrev with_bound : Labels → Text → Labels
  with_bound labels bound = labels ++ (codes "le", bound) ∷ []

  -- The lines of the buckets that have a bound.
  unfoldable pub bucket_lines : Labels → List Text → List ℕ → List Text
  bucket_lines labels [] counts = []
  bucket_lines labels (b ∷ bounds) [] = []
  bucket_lines labels (b ∷ bounds) (n ∷ counts) =
      sample (codes "luxledger_http_request_duration_seconds") (with_bound labels b) (print n)
      ∷ bucket_lines labels bounds counts

  unfoldable pub histogram_lines : HistogramSeries → List Text
  histogram_lines s =
      bucket_lines s.labels bucket_names s.bucket_counts
      ++ sample (codes "luxledger_http_request_duration_seconds")
          (with_bound s.labels (codes "+Inf")) (print s.count)
        ∷ sample (codes "luxledger_http_request_duration_seconds_sum") s.labels (show_sum s.sum)
        ∷ sample (codes "luxledger_http_request_duration_seconds_count") s.labels (print s.count)
        ∷ []

  unfoldable pub all_histogram_lines : List HistogramSeries → List Text
  all_histogram_lines [] = []
  all_histogram_lines (s ∷ ss) = histogram_lines s ++ all_histogram_lines ss

  unfoldable pub render_prometheus : ApiMetrics → Text
  render_prometheus metrics =
      join_with 10 (
        codes "# HELP luxledger_http_requests_total Total HTTP requests by route and status."
        ∷ codes "# TYPE luxledger_http_requests_total counter"
        ∷ (counter_lines (codes "luxledger_http_requests_total") metrics.request_total
            ++ codes
                "# HELP luxledger_http_request_duration_seconds HTTP request latency in seconds by route and status."
              ∷ codes "# TYPE luxledger_http_request_duration_seconds histogram"
              ∷ (all_histogram_lines (get_sorted_histogram_series metrics.request_duration)
                  ++ codes "# HELP luxledger_auth_failures_total Auth failures by route and status."
                    ∷ codes "# TYPE luxledger_auth_failures_total counter"
                    ∷ (counter_lines (codes "luxledger_auth_failures_total")
                          metrics.auth_failures_total
                        ++ codes
                            "# HELP luxledger_token_issuance_failures_total Failed access token issuance attempts by status."
                          ∷ codes "# TYPE luxledger_token_issuance_failures_total counter"
                          ∷ counter_lines (codes "luxledger_token_issuance_failures_total")
                              metrics.token_issuance_failures_total))))
      ++ 10 ∷ []
