-- ===== src/Demo/Sandbox/Sessions/Opened.antt =====
-- Who gets the cookie of a session, and what a failure leaves.
use lux_ledger_demo.Common.{
  ℕ, ◌+◌, ◌*◌, ◌≡◌, refl, sym, ap, ◌∙◌, ◌≢◌, true, false, Bool-cases, inl, inr, Option, none, some,
  [], ◌∷◌, Text,
}
use mathlib.Core.Path.{subst}
use lux_ledger_demo.Common.Outcome.{Outcome, done, raised, out_of_fuel, pure, raise}
use lux_ledger_demo.Common.Outcome.Rules.{
  IsPreorder, Moves-pure, Moves-bind_reads, >>=-done, done-split, done-bind, stopped-bind,
  bind-raise,
}
use lux_ledger_demo.RateLimit.Limiter.{Buckets, consume}
use lux_ledger_demo.Auth.Jwt.{JwtAuthConfig}
use lux_ledger_demo.Api.Errors.{Thrown}
use lux_ledger_demo.Demo.Sandbox.Sessions.{
  is_same_origin, payload, provision_all, caught, provision_or_revoke, revoke_previous,
  open_session, reply_to, without_cookie, begin, create_session,
}
use lux_ledger_demo.Demo.Sandbox.Model.{
  SandboxRequest, cookie_value, Session, NewSession, Host, Created, forbidden, SessionReply,
  session_seconds, session_limit,
}
use lux_ledger_demo.Demo.Sandbox.Provisioned.{IsComplete, provision_all-IsComplete}

state_of :
    {A S : Type 0} {a b : A} {s t : S}
    → ◌≡◌ {A = Outcome Thrown A × S} (done a, s) (done b, t)
    → s ≡ t
state_of e = ap (λ p. p.1) e

still : {S : Type 0} → IsPreorder {S = S} (λ s t. t ≡ s)
still = record { stay = λ s. refl; go_on = λ s t u e f. f ∙ e }

module _ {S : Type 0} (host : Host S) (jwt : JwtAuthConfig) where
  abbrev pub new_session : Text → Text → ℕ → NewSession
  new_session secret key_secret now = record {
    token_hash = host.hash secret;
    key_hash = host.hash key_secret;
    expires_at = now + session_seconds * 1000;
  }

  -- What becomes of the session that a request still named: its key is revoked.
  abbrev pub IsRevoked : Option Text → S → S → Type 0
  IsRevoked none s t = t ≡ s
  IsRevoked (some []) s t = t ≡ s
  IsRevoked (some (c ∷ old)) s t = host.revoke_session (host.hash (c ∷ old)) s ≡ (done tt, t)

  -- What has happened where the cookie is set: the request came from the same origin and within
  -- the limit, the row of the session and its key were made, all of the sandbox was made, and the
  -- key of the session that the request still named, if any, was revoked.
  pub record HasOpened (request : SandboxRequest) (secret key_secret : Text) (now : ℕ)
      (buckets : Buckets) (s t : S) : Type 0 where
    pub row : Session
    pub begun : S
    pub ready : S
    pub own_origin : is_same_origin host.url_host request ≡ true
    pub within_limit : (consume request.ip session_limit now buckets).0.allowed ≡ true
    pub has_begun : host.begin_session (new_session secret key_secret now) s ≡ (done row, begun)
    pub complete : IsComplete host row.tenant_id begun ready
    pub revoked : IsRevoked (cookie_value request) ready t

  caught-done :
      (row : Session) (p : Outcome Thrown (Unit {0}) × S) (t : S)
      → caught host jwt row p ≡ (done tt, t)
      → p ≡ (done tt, t)
  unfolding raise
  caught-done row (done tt, s) t h = h
  caught-done row (raised e, s) t h = let (_, _, impossible) = >>=-done _ _ s h in cc
  caught-done row (out_of_fuel, s) t h = cc

  payload-same : (row : Session) (now : ℕ) (s : S) → (payload host jwt row now s).1 ≡ s
  unfolding payload
  payload-same row now = (Moves-bind_reads still _ _ (λ assets _ _. Moves-pure still _)).at

  revoke_previous-IsRevoked :
      (previous : Option Text) (s t : S)
      → revoke_previous host jwt previous s ≡ (done tt, t)
      → IsRevoked previous s t
  unfolding revoke_previous pure
  revoke_previous-IsRevoked none s t h = sym (state_of h)
  revoke_previous-IsRevoked (some []) s t h = sym (state_of h)
  revoke_previous-IsRevoked (some (c ∷ old)) s t h = h

  -- The handler until the header set-cookie.
  open_session-HasOpened :
      (request : SandboxRequest) (secret key_secret : Text) (now : ℕ) (buckets : Buckets) (s t : S)
      (row : Session)
      → is_same_origin host.url_host request ≡ true
      → (consume request.ip session_limit now buckets).0.allowed ≡ true
      → open_session host jwt request secret key_secret now s ≡ (done row, t)
      → HasOpened request secret key_secret now buckets s t
  unfolding open_session provision_or_revoke pure
  open_session-HasOpened request secret key_secret now buckets s t row own within h =
      let (row', begun, has_begun, h1) = done-split _ _ s h in
      let (_, ready, provisioned, h2) = done-split _ _ begun h1 in
      let (_, u, revoked, h3) = done-split _ _ ready h2 in
      record {
        row = row';
        begun = begun;
        ready = ready;
        own_origin = own;
        within_limit = within;
        has_begun = has_begun;
        complete =
            provision_all-IsComplete host jwt row'.tenant_id begun ready
              (caught-done row' (provision_all host jwt row'.tenant_id begun) ready provisioned);
        revoked =
            subst (IsRevoked (cookie_value request) ready) (state_of h3)
              (revoke_previous-IsRevoked (cookie_value request) ready u revoked);
      }

  -- Whether a cookie was set, by what was opened.
  reply_to-HasOpened :
      (request : SandboxRequest) (secret key_secret : Text) (now : ℕ) (buckets : Buckets) (s : S)
      (p : Outcome Thrown Session × S) (cookie : Text)
      → is_same_origin host.url_host request ≡ true
      → (consume request.ip session_limit now buckets).0.allowed ≡ true
      → open_session host jwt request secret key_secret now s ≡ p
      → (reply_to host jwt secret now p).0.cookie ≡ some cookie
      → (cookie ≡ secret)
        × HasOpened request secret key_secret now buckets s (reply_to host jwt secret now p).1
  reply_to-HasOpened request secret key_secret now buckets s (done row, t) cookie own within e h = (
    cc,
    subst (HasOpened request secret key_secret now buckets s) (sym (payload-same row now t))
        (open_session-HasOpened request secret key_secret now buckets s t row own within e),
  )
  reply_to-HasOpened request secret key_secret now buckets s (raised x, t) cookie own within e h =
      absurd cc
  reply_to-HasOpened request secret key_secret now buckets s (out_of_fuel, t) cookie own within e
        h =
      absurd cc

  begin-HasOpened :
      (request : SandboxRequest) (secret key_secret : Text) (now : ℕ) (buckets : Buckets) (s : S)
      (cookie : Text)
      → is_same_origin host.url_host request ≡ true
      → (consume request.ip session_limit now buckets).0.allowed ≡ true
      → (begin host jwt request secret key_secret now s).0.cookie ≡ some cookie
      → (cookie ≡ secret)
        × HasOpened request secret key_secret now buckets s
            (begin host jwt request secret key_secret now s).1
  unfolding begin
  begin-HasOpened request secret key_secret now buckets s cookie own within h =
      reply_to-HasOpened request secret key_secret now buckets s
        (open_session host jwt request secret key_secret now s) cookie own within refl h

  -- Where nothing was opened, there is no cookie and no answer.
  reply_to-stopped :
      (secret : Text) (now : ℕ) (p : Outcome Thrown Session × S)
      → ((row : Session) → p.0 ≢ done row)
      → ((reply_to host jwt secret now p).1 ≡ p.1)
        × ((reply_to host jwt secret now p).0.cookie ≡ none)
        × ((c : Created) → (reply_to host jwt secret now p).0.outcome ≢ done c)
  reply_to-stopped secret now (done row, t) h = absurd (h row refl)
  reply_to-stopped secret now (raised e, t) h = (refl, refl, λ c e. cc)
  reply_to-stopped secret now (out_of_fuel, t) h = (refl, refl, λ c e. cc)

  broken_provision :
      (row : Session) (begun failed : S) (e : Thrown)
      → provision_all host jwt row.tenant_id begun ≡ (raised e, failed)
      → provision_or_revoke host jwt row begun ≡ caught host jwt row (raised e, failed)
  unfolding provision_or_revoke
  broken_provision row begun failed e h = ap (λ p. caught host jwt row p) h

  -- The ways through the handler.
  module _ (request : SandboxRequest) (secret key_secret : Text) (now : ℕ) (buckets : Buckets)
      (s : S) where
    turned_away :
        is_same_origin host.url_host request ≡ false
        → create_session host jwt request secret key_secret now (buckets, s)
          ≡ (without_cookie host jwt (done forbidden), (buckets, s))
    unfolding create_session
    turned_away foreign = rw (foreign, create_session)

    limited :
        is_same_origin host.url_host request ≡ true
        → (consume request.ip session_limit now buckets).0.allowed ≡ false
        → (create_session host jwt request secret key_secret now (buckets, s)).0.cookie ≡ none
    unfolding create_session
    limited own over = rw (own, create_session) (rw over)

    let_through :
        is_same_origin host.url_host request ≡ true
        → (consume request.ip session_limit now buckets).0.allowed ≡ true
        → create_session host jwt request secret key_secret now (buckets, s) ≡ (
          (begin host jwt request secret key_secret now s).0,
          (
            (consume request.ip session_limit now buckets).1,
            (begin host jwt request secret key_secret now s).1,
          ),
        )
    unfolding create_session
    let_through own within = rw (own, create_session) (rw within)

    -- Where a part of the provisioning throws.
    broken_off :
        (row : Session) (begun failed : S) (e : Thrown)
        → host.begin_session (new_session secret key_secret now) s ≡ (done row, begun)
        → provision_all host jwt row.tenant_id begun ≡ (raised e, failed)
        → ((open_session host jwt request secret key_secret now s).1
            ≡ (host.revoke_key row.api_key_id failed).1)
          × ((r : Session) → (open_session host jwt request secret key_secret now s).0 ≢ done r)
    unfolding open_session
    broken_off row begun failed e has_begun broken =
        let caught_is : provision_or_revoke host jwt row begun
            ≡ caught host jwt row (raised e, failed) =
          broken_provision row begun failed e broken in
        let last = bind-raise (host.revoke_key row.api_key_id) e failed in
        let (same, none_done) =
          stopped-bind (provision_or_revoke host jwt row) _ begun (rw caught_is last.1) in
        rw (done-bind (host.begin_session (new_session secret key_secret now)) _ s has_begun)
          (same ∙ rw caught_is last.0, none_done)

    begin-stopped :
        ((row : Session) → (open_session host jwt request secret key_secret now s).0 ≢ done row)
        → ((begin host jwt request secret key_secret now s).1
            ≡ (open_session host jwt request secret key_secret now s).1)
          × ((begin host jwt request secret key_secret now s).0.cookie ≡ none)
          × ((c : Created) → (begin host jwt request secret key_secret now s).0.outcome ≢ done c)
    unfolding begin
    begin-stopped h =
        reply_to-stopped secret now (open_session host jwt request secret key_secret now s) h

  -- Where the reply sets a cookie, even if the answer is an error, the cookie is the secret whose
  -- hash was stored, the request came from the same origin and within the limit, and all of the
  -- sandbox was made, in this order and nothing besides: for dollars and for euros the asset, the
  -- ledger, the accounts of the six roles and the opening posting, each of which the ledger package
  -- answered. After that the key of the session that the request still named, if any, was revoked,
  -- and nothing else was written.
  pub created-HasOpened :
      (request : SandboxRequest) (secret key_secret : Text) (now : ℕ) (buckets : Buckets) (s : S)
      (cookie : Text)
      → (create_session host jwt request secret key_secret now (buckets, s)).0.cookie ≡ some cookie
      → (cookie ≡ secret)
        × HasOpened request secret key_secret now buckets s
            (create_session host jwt request secret key_secret now (buckets, s)).1.1
  created-HasOpened request secret key_secret now buckets s cookie h =
      elim (Bool-cases (is_same_origin host.url_host request)) [
        | inr foreign ↦
            let clash : none ≡ some cookie =
              sym (
                ap (λ (r : SessionReply × (Buckets × S)). r.0.cookie)
                  (turned_away request secret key_secret now buckets s foreign))
              ∙ h in
            absurd cc
        | inl own ↦ elim (Bool-cases (consume request.ip session_limit now buckets).0.allowed) [
          | inr over ↦
              let clash : none ≡ some cookie =
                sym (limited request secret key_secret now buckets s own over) ∙ h in
              absurd cc
          | inl within ↦
              let e = let_through request secret key_secret now buckets s own within in
              rw e (
                begin-HasOpened request secret key_secret now buckets s cookie own within
                  (rw e at h))
        ]
      ]

  -- Where the provisioning fails, the key of the new session is revoked from the state that the
  -- failure left, nothing is written after that, the reply sets no cookie, and the answer is an
  -- error.
  pub failed-revoked :
      (request : SandboxRequest) (secret key_secret : Text) (now : ℕ) (buckets : Buckets)
      (s begun failed : S) (row : Session) (e : Thrown) (answer : Created)
      → is_same_origin host.url_host request ≡ true
      → (consume request.ip session_limit now buckets).0.allowed ≡ true
      → host.begin_session (new_session secret key_secret now) s ≡ (done row, begun)
      → provision_all host jwt row.tenant_id begun ≡ (raised e, failed)
      → ((create_session host jwt request secret key_secret now (buckets, s)).1.1
          ≡ (host.revoke_key row.api_key_id failed).1)
        × ((create_session host jwt request secret key_secret now (buckets, s)).0.cookie ≡ none)
        × ((create_session host jwt request secret key_secret now (buckets, s)).0.outcome
            ≢ done answer)
  failed-revoked request secret key_secret now buckets s begun failed row e answer own allowed
        has_begun broken =
      let (state, stopped) =
        broken_off request secret key_secret now buckets s row begun failed e has_begun broken in
      let (same, no_cookie, no_answer) =
        begin-stopped request secret key_secret now buckets s stopped in
      rw (let_through request secret key_secret now buckets s own allowed)
        (same ∙ state, no_cookie, no_answer answer)
