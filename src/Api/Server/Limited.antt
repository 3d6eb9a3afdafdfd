-- ===== src/Api/Server/Limited.antt =====
-- That the limiter comes before the credentials.
use lux_ledger_demo.Common.{ℕ, ◌≤◌, ◌≡◌, refl, sym, ap, ◌∙◌, some, arith, inl, inr, Bool-cases}
use lux_ledger_demo.Common.Int.{pos}
use lux_ledger_demo.RateLimit.Limiter.{Buckets, consume}
use lux_ledger_demo.RateLimit.Limiter.Retry.{consume-denied}
use lux_ledger_demo.Auth.Jwt.{JwtAuthConfig}
use lux_ledger_demo.Api.Errors.{Thrown, rate_limit_exceeded, error_handler}
use lux_ledger_demo.RateLimit.Policy.{RateLimitConfig}
use lux_ledger_demo.Api.Server.{
  Request, auth_token, write, RateLimitTarget, Services, Hooked, passed, thrown, limiter_key,
  rate_limit_hook, on_request,
}
use lux_ledger_demo.Api.Server.Throttle.{target_of, target_cases, hook_none, hook_at}

module _ (config : RateLimitConfig) where
  abbrev fst : Hooked (Unit {0}) × Buckets → Hooked (Unit {0})
  fst p = p.0

  passed-ne-thrown : {e : Thrown} → ¬ (passed tt ≡ thrown e)
  passed-ne-thrown h = cc

  limited_at :
      (services : Services) (jwt_auth : JwtAuthConfig) (r : Request) (t : RateLimitTarget) (now : ℕ)
      (m : Buckets) (e : Thrown)
      → target_of config r ≡ some t
      → (rate_limit_hook config r now m).0 ≡ thrown e
      → (on_request services jwt_auth config r now m ≡ (thrown e, m))
        × ((error_handler e).status ≡ pos 429)
        × ((seconds : ℕ) × (1 ≤ seconds) × ((error_handler e).retry_after_seconds ≡ some seconds))
  unfolding on_request error_handler
  limited_at services jwt_auth r t now m e at h =
      let key = limiter_key t.key_prefix r.ip in
      let (decision, after) = consume key t.policy now m in
      let h' = rw (hook_at config r t now m at) at h in
      elim (Bool-cases decision.allowed) [
        | inl allowed ↦ ground arith
        | inr denied ↦
            let (same, wait) = consume-denied key t.policy now m denied in
            let e_is : rate_limit_exceeded decision.retry_after_seconds ≡ e = ground arith in
            rw (← e_is) (
              rw (hook_at config r t now m at, denied, same),
              refl,
              (decision.retry_after_seconds, wait, refl),
            )
      ]

  -- A request that the limiter denies is answered before any credential is looked at: whatever the
  -- services are, the hooks throw the limiter's error and the buckets stay as they were, and the
  -- reply has the status 429 and tells to wait for at least one second.
  pub limited_first :
      (services : Services) (jwt_auth : JwtAuthConfig) (r : Request) (now : ℕ) (m : Buckets)
      (e : Thrown)
      → (rate_limit_hook config r now m).0 ≡ thrown e
      → (on_request services jwt_auth config r now m ≡ (thrown e, m))
        × ((error_handler e).status ≡ pos 429)
        × ((seconds : ℕ) × (1 ≤ seconds) × ((error_handler e).retry_after_seconds ≡ some seconds))
  limited_first services jwt_auth r now m e h = elim (target_cases config r) [
    | inl none_ ↦ absurd (passed-ne-thrown (sym (ap fst (hook_none config r now m none_)) ∙ h))
    | inr (inl at) ↦
        limited_at services jwt_auth r
          (record { key_prefix = auth_token; policy = config.auth_token }) now m e at h
    | inr (inr at) ↦
        limited_at services jwt_auth r (record { key_prefix = write; policy = config.write }) now m
          e at h
  ]
