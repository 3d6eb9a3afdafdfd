-- ===== src/Api/Server/Throttle.antt =====
-- The rate limits of the routes.
use lux_ledger_demo.Common.{
  ℕ, ◌+◌, ◌*◌, ◌≤◌, ◌<◌, ◌≡◌, refl, ◌≢◌, ◌⊎◌, Bool, true, false, ◌&&◌, Option, none, some, List, [],
  ◌∷◌, ◌++◌, arith, Text, text_eq, starts_with, codes, All, inl, inr, if◌then◌else◌,
}
use lux_ledger_demo.RateLimit.Limiter.{Buckets, consume}
use lux_ledger_demo.RateLimit.Limiter.Bounds
use lux_ledger_demo.RateLimit.Limiter.Bounds.{admitted, AreFrom, AreBefore, admitted-le-double}
use lux_ledger_demo.RateLimit.Limiter.Consumed.{Policies}
use lux_ledger_demo.Api.Errors.{rate_limit_exceeded}
use lux_ledger_demo.RateLimit.Policy.{RateLimitConfig}
use lux_ledger_demo.Api.Server.{
  Request, KeyPrefix, auth_token, write, RateLimitTarget, Hooked, passed, thrown, route_path,
  resolve_rate_limit_target, limiter_key, rate_limit_hook,
}

append-injective : (p s t : Text) → p ++ s ≡ p ++ t → s ≡ t
append-injective [] s t e = e
append-injective (c ∷ p) s t e = append-injective p s t (ground arith)

limiter_key-injective :
    (k : KeyPrefix) (ip ip' : Text) → limiter_key k ip ≡ limiter_key k ip' → ip ≡ ip'
unfolding limiter_key
limiter_key-injective auth_token ip ip' e = ground arith
limiter_key-injective write ip ip' e = ground arith

-- The two kinds of request never share a bucket, whatever the addresses are.
limiter_key-ne : (ip ip' : Text) → limiter_key auth_token ip ≢ limiter_key write ip'
unfolding limiter_key
limiter_key-ne ip ip' e = ground arith

module _ (config : RateLimitConfig) where
  abbrev pub target_of : Request → Option RateLimitTarget
  target_of r = resolve_rate_limit_target r.method (route_path r.url) config.auth_token config.write

  -- The request is counted against the limit for writes.
  unfoldable pub is_write : Request → Bool
  is_write r = elim (target_of r) [
    | none ↦ false
    | some t ↦ elim t.key_prefix [ auth_token ↦ false | write ↦ true ]
  ]

  -- How many writes of the client `ip` the hook lets pass, when all requests come in turn.
  unfoldable pub passed_writes : Text → List (Request × ℕ) → Buckets → ℕ
  passed_writes ip [] m = 0
  passed_writes ip ((r, now) ∷ rs) m =
      let (hooked, after) = rate_limit_hook config r now m in
      (if is_write r && text_eq r.ip ip then elim hooked [ passed _ ↦ 1 | thrown _ ↦ 0 ] else 0)
      + passed_writes ip rs after

  pub target_cases :
      (r : Request)
      → (target_of r ≡ none)
        ⊎ (target_of r ≡ some (record { key_prefix = auth_token; policy = config.auth_token }))
        ⊎ (target_of r ≡ some (record { key_prefix = write; policy = config.write }))
  unfolding resolve_rate_limit_target
  target_cases r = ground arith

  -- The policy that each of the hook's keys goes with.
  abbrev policies : Policies
  policies key = if starts_with key (codes "auth_token:") then config.auth_token else config.write

  policies-auth_token : (ip : Text) → policies (limiter_key auth_token ip) ≡ config.auth_token
  unfolding limiter_key starts_with
  policies-auth_token ip = refl

  policies-write : (ip : Text) → policies (limiter_key write ip) ≡ config.write
  unfolding limiter_key starts_with
  policies-write ip = refl

  -- The keys and the times of the requests that the limiter sees.
  keyed : List (Request × ℕ) → List (Text × ℕ)
  keyed [] = []
  keyed ((r, now) ∷ rs) = elim (target_of r) [
    | none ↦ keyed rs
    | some t ↦ (limiter_key t.key_prefix r.ip, now) ∷ keyed rs
  ]

  text_eq-limiter_key :
      (ip ip' : Text) → text_eq (limiter_key write ip) (limiter_key write ip') ≡ text_eq ip ip'
  unfolding limiter_key text_eq
  text_eq-limiter_key ip ip' = refl

  text_eq-limiter_key_ne :
      (ip ip' : Text) → text_eq (limiter_key auth_token ip) (limiter_key write ip') ≡ false
  unfolding limiter_key text_eq
  text_eq-limiter_key_ne ip ip' = refl

  -- The outcome of the limiter's decision.
  abbrev pub decided : Bool → ℕ → Hooked (Unit {0})
  decided allowed seconds = if allowed then passed tt else thrown (rate_limit_exceeded seconds)

  pub hook_none :
      (r : Request) (now : ℕ) (m : Buckets)
      → target_of r ≡ none
      → rate_limit_hook config r now m ≡ (passed tt, m)
  unfolding rate_limit_hook
  hook_none r now m e = rw (e, rate_limit_hook)

  pub hook_at :
      (r : Request) (t : RateLimitTarget) (now : ℕ) (m : Buckets)
      → target_of r ≡ some t
      → rate_limit_hook config r now m ≡ (
          let (d, after) = consume (limiter_key t.key_prefix r.ip) t.policy now m in
          (decided d.allowed d.retry_after_seconds, after))
  unfolding rate_limit_hook
  hook_at r t now m e = rw (e, rate_limit_hook)

  keyed-none :
      (r : Request) (now : ℕ) (rs : List (Request × ℕ))
      → target_of r ≡ none
      → keyed ((r, now) ∷ rs) ≡ keyed rs
  unfolding keyed
  keyed-none r now rs e = rw (e, keyed)

  keyed_at :
      (r : Request) (t : RateLimitTarget) (now : ℕ) (rs : List (Request × ℕ))
      → target_of r ≡ some t
      → keyed ((r, now) ∷ rs) ≡ (limiter_key t.key_prefix r.ip, now) ∷ keyed rs
  unfolding keyed
  keyed_at r t now rs e = rw (e, keyed)

  is_write_at :
      (r : Request) (t : RateLimitTarget)
      → target_of r ≡ some t
      → is_write r ≡ elim t.key_prefix [ auth_token ↦ false | write ↦ true ]
  unfolding is_write
  is_write_at r t e = rw (e, is_write)

  is_write-none : (r : Request) → target_of r ≡ none → is_write r ≡ false
  unfolding is_write
  is_write-none r e = rw (e, is_write)

  keyed_nil : keyed [] ≡ []
  unfolding keyed
  keyed_nil = refl

  passed_writes-eq-admitted :
      (ip : Text) (rs : List (Request × ℕ)) (m : Buckets)
      → passed_writes ip rs m ≡ admitted policies (limiter_key write ip) (keyed rs) m
  unfolding passed_writes admitted
  passed_writes-eq-admitted ip [] m = rw keyed_nil
  passed_writes-eq-admitted ip ((r, now) ∷ rs) m = elim (target_cases r) [
    | inl e ↦
        rw
          (
            hook_none r now m e,
            keyed-none r now rs e,
            passed_writes-eq-admitted ip rs m,
            is_write-none r e,
          )
          (omega arith)
    | inr (inl e) ↦
        let t : RateLimitTarget = record { key_prefix = auth_token; policy = config.auth_token } in
        let after = (consume (limiter_key auth_token r.ip) config.auth_token now m).1 in
        rw (
          hook_at r t now m e,
          keyed_at r t now rs e,
          text_eq-limiter_key_ne r.ip ip,
          policies-auth_token r.ip,
          passed_writes-eq-admitted ip rs after,
          is_write_at r t e,
        )
    | inr (inr e) ↦
        let t : RateLimitTarget = record { key_prefix = write; policy = config.write } in
        let after = (consume (limiter_key write r.ip) config.write now m).1 in
        rw
          (
            hook_at r t now m e,
            keyed_at r t now rs e,
            text_eq-limiter_key r.ip ip,
            policies-write r.ip,
            passed_writes-eq-admitted ip rs after,
            is_write_at r t e,
          )
          (ground arith)
  ]

  -- The writes of the client fall within one interval as long as the window for writes.
  abbrev pub AreWithin : Text → ℕ → List (Request × ℕ) → Type 0
  AreWithin ip start = All (λ r.
      is_write r.0 ≡ true
      → r.0.ip ≡ ip
      → (start ≤ r.1) × (r.1 < start + config.write.window_seconds * 1000))

  keyed-AreWithin :
      (ip : Text) (start : ℕ) (rs : List (Request × ℕ))
      → AreWithin ip start rs
      → AreFrom policies (limiter_key write ip) start (keyed rs)
        × AreBefore policies
            (limiter_key write ip)
            (start + Bounds.window_ms policies (limiter_key write ip))
            (keyed rs)
  keyed-AreWithin ip start [] h = rw keyed_nil (tt, tt)
  keyed-AreWithin ip start ((r, now) ∷ rs) (h, hs) = elim (target_cases r) [
    | inl e ↦ rw (keyed-none r now rs e) (keyed-AreWithin ip start rs hs)
    | inr (inl e) ↦
        let (from, before) = keyed-AreWithin ip start rs hs in
        rw (keyed_at r (record { key_prefix = auth_token; policy = config.auth_token }) now rs e) (
          ((λ same. absurd (limiter_key-ne r.ip ip same)), from),
          ((λ same. absurd (limiter_key-ne r.ip ip same)), before),
        )
    | inr (inr e) ↦
        let (from, before) = keyed-AreWithin ip start rs hs in
        let t : RateLimitTarget = record { key_prefix = write; policy = config.write } in
        let here = λ (same : limiter_key write r.ip ≡ limiter_key write ip).
          h (is_write_at r t e) (limiter_key-injective write r.ip ip same) in
        rw (keyed_at r t now rs e) (
          ((λ same. (here same).0), from),
          ((λ same. rw (policies-write ip) (here same).1), before),
        )
  ]

  -- Let all requests come to the hook in turn, and let those of one client that count as writes
  -- fall within an interval as long as the window for writes, with any others between. Then at
  -- most twice the limit for writes of these pass the hook, whatever the buckets held before.
  pub passed_writes-le-double :
      (ip : Text) (start : ℕ) (rs : List (Request × ℕ)) (m : Buckets)
      → AreWithin ip start rs
      → passed_writes ip rs m ≤ 2 * config.write.max_requests
  unfolding limiter_key starts_with
  passed_writes-le-double ip start rs m within =
      let (from, before) = keyed-AreWithin ip start rs within in
      rw (passed_writes-eq-admitted ip rs m)
        (admitted-le-double policies (limiter_key write ip) start (keyed rs) m from before)
