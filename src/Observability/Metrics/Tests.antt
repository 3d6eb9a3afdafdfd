-- ===== src/Observability/Metrics/Tests.antt =====
-- Three responses.
use lux_ledger_demo.Common.{refl, Bool, true, [], ◌∷◌, length, Text, codes, leb, if◌then◌else◌}
use lux_ledger_demo.Common.Int.{pos, negsuc}
use lux_ledger_demo.Observability.Metrics.{canonical_key, request_labels}
use lux_ledger_demo.Observability.Metrics.Series.{SumsUpAt, CountsAt}
use lux_ledger_demo.Observability.Metrics.Totals.{
  History, respond_all, durations_of, is_auth_failure, respond_all-totals,
}

-- By the first unit: enough to put 'route' before 'status'.
abbrev by_first : Text → Text → Bool
by_first (a ∷ s) (b ∷ t) = leb a b
by_first s t = true

abbrev history : History
history =
    (codes "/v1/a", 401, pos 6000000)
    ∷ (codes "/", 200, pos 5)
    ∷ (codes "/v1/a", 401, negsuc 3)
    ∷ []

respond_all-totals_example :
    SumsUpAt
      (respond_all by_first history).request_duration
      (canonical_key by_first (request_labels (codes "/v1/a") 401))
      (durations_of (codes "/v1/a") 401 history)
    × CountsAt
        (respond_all by_first history).request_total
        (canonical_key by_first (request_labels (codes "/v1/a") 401))
        (length (durations_of (codes "/v1/a") 401 history))
    × CountsAt
        (respond_all by_first history).auth_failures_total
        (canonical_key by_first (request_labels (codes "/v1/a") 401))
        (if is_auth_failure (codes "/v1/a") 401
          then length (durations_of (codes "/v1/a") 401 history)
          else 0)
respond_all-totals_example = respond_all-totals by_first refl history (codes "/v1/a") 401
