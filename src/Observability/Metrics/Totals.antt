-- ===== src/Observability/Metrics/Totals.antt =====
-- The stores against the history of requests: what every counter and histogram adds up to.
use lux_ledger_demo.Common.{
  ℕ, ◌+◌, ◌≡◌, refl, sym, Bool, true, false, ◌&&◌, ◌||◌, starts_with, List, [], ◌∷◌, arith, Text,
  lookup, text_eq, text_eq_iff, text_eq_refl, codes, length, ◌==◌, ==_iff, if◌then◌else◌, inl, inr,
  Bool-cases,
}
use lux_ledger_demo.Common.Int.{ℤ}
use mathlib.Core.Path.{subst}
use lux_ledger_demo.Observability.Metrics.Store.{
  ApiMetrics, no_metrics, request_labels, canonical_key, upsert_counter, clamped, observe_duration,
  observe_request, increment_auth_failure, increment_token_issuance_failure,
}
use lux_ledger_demo.Observability.Metrics.Keys.{request_key-injective}
use lux_ledger_demo.Observability.Metrics.Hook.{on_response}
use lux_ledger_demo.Api.Server.{v1_route_prefix}
use lux_ledger_demo.Observability.Metrics.Series.{
  SumsUpAt, CountsAt, observe_duration-SumsUpAt, upsert_counter-CountsAt,
}

-- The requests of a history, the newest first: the route, the status and the duration of each.
abbrev pub History : Type 0
History = List (Text × ℕ × ℤ)

-- An answer that counts as a failed authentication.
abbrev pub is_auth_failure : Text → ℕ → Bool
is_auth_failure route status = (status == 401 || status == 403) && starts_with route v1_route_prefix

-- The durations of the requests with the route and the status, none below zero.
unfoldable pub durations_of : Text → ℕ → History → List ℕ
durations_of route status [] = []
durations_of route status ((r, s, d) ∷ earlier) =
    let rest = durations_of route status earlier in
    if text_eq r route && s == status then clamped d ∷ rest else rest

module _ (precedes : Text → Text → Bool) where
  -- The metrics after the responses of a history, from none.
  unfoldable pub respond_all : History → ApiMetrics
  respond_all [] = no_metrics
  respond_all ((route, status, duration) ∷ earlier) =
      on_response precedes (respond_all earlier) route status duration

  on_response-request_duration :
      (m : ApiMetrics) (route : Text) (status : ℕ) (d : ℤ)
      → (on_response precedes m route status d).request_duration
        ≡ observe_duration precedes m.request_duration (request_labels route status) (clamped d)
  unfolding on_response observe_request increment_auth_failure increment_token_issuance_failure
  on_response-request_duration m route status d = ground arith

  on_response-request_total :
      (m : ApiMetrics) (route : Text) (status : ℕ) (d : ℤ)
      → (on_response precedes m route status d).request_total
        ≡ upsert_counter precedes m.request_total (request_labels route status) 1
  unfolding on_response observe_request increment_auth_failure increment_token_issuance_failure
  on_response-request_total m route status d = ground arith

  on_response-auth_failures_total :
      (m : ApiMetrics) (route : Text) (status : ℕ) (d : ℤ)
      → (on_response precedes m route status d).auth_failures_total ≡ (
          if is_auth_failure route status
          then upsert_counter precedes m.auth_failures_total (request_labels route status) 1
          else m.auth_failures_total)
  unfolding on_response observe_request increment_auth_failure increment_token_issuance_failure
  on_response-auth_failures_total m route status d = ground arith

  module _ (in_order : precedes (codes "route") (codes "status") ≡ true) where
    same_keys :
        (r route : Text) (s status : ℕ)
        → text_eq r route ≡ true
        → (s == status) ≡ true
        → text_eq
            (canonical_key precedes (request_labels r s))
            (canonical_key precedes (request_labels route status))
          ≡ true
    same_keys r route s status same_route same_status = rw ((text_eq_iff r route).0 same_route) (
        rw ((==_iff s status).0 same_status)
          (text_eq_refl (canonical_key precedes (request_labels route status))))

    apart_parts :
        (r route : Text) (s status : ℕ)
        → text_eq
            (canonical_key precedes (request_labels r s))
            (canonical_key precedes (request_labels route status))
          ≡ false
        → (text_eq r route && s == status) ≡ false
    apart_parts r route s status apart = elim (Bool-cases (text_eq r route)) [
      | inl same_route ↦ elim (Bool-cases (s == status)) [
        | inl same_status ↦
            absurd (ground (arith, same_keys r route s status same_route same_status, apart))
        | inr other ↦ rw (same_route, other) refl
      ]
      | inr other ↦ rw other refl
    ]

    same_key :
        (r route : Text) (s status : ℕ)
        → text_eq
            (canonical_key precedes (request_labels r s))
            (canonical_key precedes (request_labels route status))
          ≡ (text_eq r route && s == status)
    same_key r route s status =
        elim (Bool-cases (
          text_eq (canonical_key precedes (request_labels r s))
            (canonical_key precedes (request_labels route status)))) [
              | inl same ↦
                  let (same_route, same_status) =
                    request_key-injective precedes in_order r route s status
                      ((text_eq_iff _ _).0 same) in
                  rw (same, same_route, same_status, text_eq_refl route) (ground arith)
              | inr apart ↦ rw apart (sym (apart_parts r route s status apart))
            ]

    durations-SumsUpAt :
        (h : History) (route : Text) (status : ℕ)
        → SumsUpAt
            (respond_all h).request_duration
            (canonical_key precedes (request_labels route status))
            (durations_of route status h)
    unfolding respond_all durations_of lookup
    durations-SumsUpAt [] route status = inl (refl, refl)
    durations-SumsUpAt ((r, s, d) ∷ earlier) route status =
        let key = canonical_key precedes (request_labels route status) in
        let rest = durations_of route status earlier in
        rw (on_response-request_duration (respond_all earlier) r s d) (
          rw (← same_key r route s status) (
            observe_duration-SumsUpAt precedes (respond_all earlier).request_duration
              (request_labels r s) (clamped d) key rest (durations-SumsUpAt earlier route status)))

    length-cond :
        (b : Bool) (d : ℕ) (rest : List ℕ)
        → (if b then length rest + 1 else length rest) ≡ length (if b then d ∷ rest else rest)
    length-cond b d rest = ground arith

    requests-CountsAt :
        (h : History) (route : Text) (status : ℕ)
        → CountsAt
            (respond_all h).request_total
            (canonical_key precedes (request_labels route status))
            (length (durations_of route status h))
    unfolding respond_all durations_of lookup
    requests-CountsAt [] route status = inl (refl, refl)
    requests-CountsAt ((r, s, d) ∷ earlier) route status =
        let key = canonical_key precedes (request_labels route status) in
        let rest = durations_of route status earlier in
        rw (on_response-request_total (respond_all earlier) r s d) (
          rw (← length-cond (text_eq r route && s == status) (clamped d) rest) (
            rw (← same_key r route s status) (
              upsert_counter-CountsAt precedes (respond_all earlier).request_total
                (request_labels r s) key (length rest) (requests-CountsAt earlier route status))))

    is_auth_failure-same :
        (r route : Text) (s status : ℕ)
        → (text_eq r route && s == status) ≡ true
        → is_auth_failure r s ≡ is_auth_failure route status
    is_auth_failure-same r route s status same =
        rw ((text_eq_iff r route).0 (ground arith)) (rw ((==_iff s status).0 (ground arith)) refl)

    counted_failure :
        (same failed fails : Bool) (d : ℕ) (rest : List ℕ)
        → (same ≡ true → failed ≡ fails)
        → failed ≡ true
        → (if same
            then (if fails then length rest else 0) + 1
            else (if fails then length rest else 0))
          ≡ (if fails then length (if same then d ∷ rest else rest) else 0)
    counted_failure true failed true d rest h e = omega arith
    counted_failure true failed false d rest h e = absurd (ground (arith, h refl))
    counted_failure false failed fails d rest h e = refl

    passed_over :
        (same failed fails : Bool) (d : ℕ) (rest : List ℕ)
        → (same ≡ true → failed ≡ fails)
        → failed ≡ false
        → (if fails then length rest else 0)
          ≡ (if fails then length (if same then d ∷ rest else rest) else 0)
    passed_over true failed true d rest h e = absurd (ground (arith, h refl))
    passed_over true failed false d rest h e = refl
    passed_over false failed fails d rest h e = refl

    failures-CountsAt :
        (h : History) (route : Text) (status : ℕ)
        → CountsAt
            (respond_all h).auth_failures_total
            (canonical_key precedes (request_labels route status))
            (if is_auth_failure route status then length (durations_of route status h) else 0)
    unfolding respond_all durations_of lookup
    failures-CountsAt [] route status = inl (refl, ground arith)
    failures-CountsAt ((r, s, d) ∷ earlier) route status =
        let key = canonical_key precedes (request_labels route status) in
        let rest = durations_of route status earlier in
        let n = if is_auth_failure route status then length rest else 0 in
        let before = failures-CountsAt earlier route status in
        let counted =
          upsert_counter-CountsAt precedes (respond_all earlier).auth_failures_total
            (request_labels r s) key n before in
        rw (on_response-auth_failures_total (respond_all earlier) r s d)
          (elim (Bool-cases (is_auth_failure r s)) [
            | inl failed ↦ rw failed (
                subst (CountsAt _ key)
                  (counted_failure (text_eq r route && s == status) (is_auth_failure r s)
                    (is_auth_failure route status) (clamped d) rest
                    (is_auth_failure-same r route s status) failed)
                  (rw (same_key r route s status) at counted))
            | inr fine ↦ rw fine (
                subst (CountsAt _ key)
                  (passed_over (text_eq r route && s == status) (is_auth_failure r s)
                    (is_auth_failure route status) (clamped d) rest
                    (is_auth_failure-same r route s status) fine)
                  before)
          ])

    -- After any history of responses, the store's series for a route and a status agree with the
    -- history: the histogram holds, for each bound, how many of the durations of that route and
    -- status do not exceed it, their number and their sum; the request counter holds their number;
    -- and the counter of failed authentications holds it where the answer is a 401 or 403 under
    -- the /v1 prefix, and nothing elsewhere. The order of texts has 'route' before 'status'.
    pub respond_all-totals :
        (h : History) (route : Text) (status : ℕ)
        → SumsUpAt
            (respond_all h).request_duration
            (canonical_key precedes (request_labels route status))
            (durations_of route status h)
          × CountsAt
              (respond_all h).request_total
              (canonical_key precedes (request_labels route status))
              (length (durations_of route status h))
          × CountsAt
              (respond_all h).auth_failures_total
              (canonical_key precedes (request_labels route status))
              (if is_auth_failure route status then length (durations_of route status h) else 0)
    respond_all-totals h route status = (
      durations-SumsUpAt h route status,
      requests-CountsAt h route status,
      failures-CountsAt h route status,
    )
