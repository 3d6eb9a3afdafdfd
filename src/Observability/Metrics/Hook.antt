-- ===== src/Observability/Metrics/Hook.antt =====
-- The hook that runs on each response.
use lux_ledger_demo.Common.{
  ℕ, Bool, Option, none, some, [], ◌∷◌, ◌&&◌, ◌||◌, Text, text_eq, starts_with, leb, ◌==◌,
  if◌then◌else◌,
}
use lux_ledger_demo.Common.Int.{ℤ}
use lux_ledger_demo.Api.Server.{v1_route_prefix, token_endpoint, route_path}
use lux_ledger_demo.Observability.Metrics.Store.{
  ApiMetrics, observe_request, increment_auth_failure, increment_token_issuance_failure,
}

-- The template of the route, if there is one, else the path of the request.
unfoldable pub resolve_route_label : Option Text → Option Text → Text → Text
resolve_route_label (some (c ∷ template)) api_path url = c ∷ template
resolve_route_label (some []) (some path) url = path
resolve_route_label (some []) none url = route_path url
resolve_route_label none (some path) url = path
resolve_route_label none none url = route_path url

unfoldable pub on_response : (Text → Text → Bool) → ApiMetrics → Text → ℕ → ℤ → ApiMetrics
on_response precedes metrics route status duration =
    let observed = observe_request precedes metrics route status duration in
    let issued =
      if leb 400 status && text_eq route token_endpoint
      then increment_token_issuance_failure precedes observed status
      else observed in
    if (status == 401 || status == 403) && starts_with route v1_route_prefix
    then increment_auth_failure precedes issued route status
    else issued
