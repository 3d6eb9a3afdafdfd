-- ===== src/RateLimit/Limiter/Bounds.antt =====
-- How many requests of one key the limiter lets through, whatever other keys do in between.
use lux_ledger_demo.Common.{
  ℕ, ◌+◌, ◌-◌, ◌*◌, ◌≤◌, ◌<◌, min, ◌≡◌, refl, sym, ◌∙◌, ◌⊎◌, true, false, Option, none, some, List,
  [], ◌∷◌, arith, Text, lookup, text_eq, text_eq_iff, text_eq_refl, ◌&&◌, if◌then◌else◌, inl, inr,
  Bool-cases, Option-cases, leb, All,
}
use lux_ledger_demo.RateLimit.Limiter.{FixedWindowBucket, Buckets, active_bucket, consume}
use lux_ledger_demo.RateLimit.Limiter.Consumed.{Policies, consume_other, consume_self}

none-ne-some : {b : FixedWindowBucket} → none ≡ some b → ⊥
none-ne-some e = cc

-- A request: its key and the time at which it comes.
abbrev pub Request : Type 0
Request = Text × ℕ

module _ (policy : Policies) (k : Text) where
  -- How many of the requests at key `k` are allowed, when all of them are consumed in turn.
  unfoldable pub admitted : List Request → Buckets → ℕ
  admitted [] m = 0
  admitted ((j, t) ∷ rs) m =
      let (d, m') = consume j (policy j) t m in
      (if text_eq j k && d.allowed then 1 else 0) + admitted rs m'

  -- How many requests are made at key `k`.
  unfoldable pub requested : List Request → ℕ
  requested [] = 0
  requested ((j, t) ∷ rs) = (if text_eq j k then 1 else 0) + requested rs

  -- The length of the key's window in milliseconds.
  abbrev pub window_ms : ℕ
  window_ms = (policy k).window_seconds * 1000

  abbrev pub limit : ℕ
  limit = (policy k).max_requests

  -- The requests at the key come before the time `end`.
  abbrev pub AreBefore : ℕ → List Request → Type 0
  AreBefore end = All (λ r. r.0 ≡ k → r.1 < end)

  -- The requests at the key come at the time `start` or later.
  abbrev pub AreFrom : ℕ → List Request → Type 0
  AreFrom start = All (λ r. r.0 ≡ k → start ≤ r.1)

  -- One request while a window is open.
  consume_open :
      (t : ℕ) (m : Buckets) (b : FixedWindowBucket)
      → lookup k m ≡ some b
      → t < b.window_start_ms + window_ms
      → let (d, m') = consume k (policy k) t m in
        ((d.allowed ≡ true)
          × (b.count < limit)
          × (lookup k m' ≡ some (record b { count = b.count + 1 })))
        ⊎ ((d.allowed ≡ false) × (limit ≤ b.count) × (lookup k m' ≡ some b))
  unfolding active_bucket
  consume_open t m b e h = ground (arith, consume_self k (policy k) t m)

  -- While a window stays open, exactly what is left of the limit is let through.
  admitted_in_window :
      (rs : List Request) (m : Buckets) (b : FixedWindowBucket)
      → lookup k m ≡ some b
      → AreBefore (b.window_start_ms + window_ms) rs
      → admitted rs m ≡ min (limit - b.count) (requested rs)
  unfolding admitted requested
  admitted_in_window [] m b e h = omega arith
  admitted_in_window ((j, t) ∷ rs) m b e (now, later) = elim (Bool-cases (text_eq j k)) [
    | inl same ↦
        let p = (text_eq_iff j k).0 same in
        rw (p, text_eq_refl k)
          (elim (consume_open t m b e (now p)) [
            | inl (yes_, room, e') ↦
                let ih =
                  admitted_in_window rs (consume k (policy k) t m).1
                    (record b { count = b.count + 1 }) e' later in
                rw (yes_, ih) (omega arith)
            | inr (no_, full, e') ↦
                let ih = admitted_in_window rs (consume k (policy k) t m).1 b e' later in
                rw (no_, ih) (omega arith)
          ])
    | inr other ↦
        let apart = consume_other j k (policy j) t m (ground (arith, text_eq_iff j k)) in
        let ih = admitted_in_window rs (consume j (policy j) t m).1 b (rw apart e) later in
        rw (other, ih) (omega arith)
  ]

  -- No window of the key is open at the time `t`.
  abbrev pub HasNoWindow : Buckets → ℕ → Type 0
  HasNoWindow m t =
      (b : FixedWindowBucket) → lookup k m ≡ some b → b.window_start_ms + window_ms ≤ t

  -- One request that opens a window.
  consume_opening :
      (t : ℕ) (m : Buckets)
      → HasNoWindow m t
      → let (d, m') = consume k (policy k) t m in
        ((d.allowed ≡ true)
          × (0 < limit)
          × (lookup k m' ≡ some (record { window_start_ms = t; count = 1 })))
        ⊎ ((d.allowed ≡ false) × (limit ≡ 0) × (m' ≡ m))
  unfolding active_bucket
  consume_opening t m h = elim (Option-cases (lookup k m)) [
    | inl e ↦ ground (arith, consume_self k (policy k) t m)
    | inr (b, e) ↦ ground (arith, consume_self k (policy k) t m, h b e)
  ]

  -- Whatever a limit of zero meets, it lets nothing through.
  admitted_of_zero : (rs : List Request) (m : Buckets) → limit ≡ 0 → admitted rs m ≡ 0
  unfolding admitted
  admitted_of_zero [] m z = refl
  admitted_of_zero ((j, t) ∷ rs) m z = elim (Bool-cases (text_eq j k)) [
    | inl same ↦
        let p = (text_eq_iff j k).0 same in
        rw p (
          ground (
            arith,
            consume_self k (policy k) t m,
            admitted_of_zero rs (consume k (policy k) t m).1 z,
          ))
    | inr other ↦ rw (other, admitted_of_zero rs (consume j (policy j) t m).1 z) (omega arith)
  ]

  -- Let a request at key `k` come when no window of `k` is open, and let the requests at `k` among
  -- those that follow come before this new window ends, with any requests at other keys between.
  -- Then the number of requests at `k` that are allowed is the smaller of the limit and the number
  -- made.
  pub admitted_exactly :
      (t : ℕ) (rs : List Request) (m : Buckets)
      → HasNoWindow m t
      → AreBefore (t + window_ms) rs
      → admitted ((k, t) ∷ rs) m ≡ min limit (requested ((k, t) ∷ rs))
  unfolding admitted requested
  admitted_exactly t rs m free before = rw (text_eq_refl k) (elim (consume_opening t m free) [
    | inl (allowed, room, e) ↦
        let rest =
          admitted_in_window rs (consume k (policy k) t m).1
            (record { window_start_ms = t; count = 1 }) e before in
        rw (allowed, rest) (omega arith)
    | inr (denied, z, same) ↦
        rw (denied, admitted_of_zero rs (consume k (policy k) t m).1 z) (omega arith)
  ])

  -- What is left of the limit in the key's bucket.
  abbrev left_in : Option FixedWindowBucket → ℕ
  left_in none = limit
  left_in (some b) = limit - b.count

  left_in-le : (o : Option FixedWindowBucket) → left_in o ≤ limit
  left_in-le none = omega arith
  left_in-le (some b) = omega arith

  AreBefore-mono :
      (end later : ℕ) (rs : List Request) → end ≤ later → AreBefore end rs → AreBefore later rs
  AreBefore-mono end later [] h b = tt
  AreBefore-mono end later (r ∷ rs) h (b, bs) =
      (λ e. ground (arith, b e), AreBefore-mono end later rs h bs)

  -- Each request opens a window, takes from the one that is open, or is denied.
  consume_any :
      (t : ℕ) (m : Buckets)
      → let (d, m') = consume k (policy k) t m in
        ((d.allowed ≡ true)
          × (0 < limit)
          × (lookup k m' ≡ some (record { window_start_ms = t; count = 1 })))
        ⊎ ((d.allowed ≡ true) × (left_in (lookup k m') + 1 ≤ left_in (lookup k m)))
        ⊎ ((d.allowed ≡ false) × (left_in (lookup k m') ≡ left_in (lookup k m)))
  consume_any t m = elim (Option-cases (lookup k m)) [
    | inl e ↦ elim (consume_opening t m (λ b e'. absurd (none-ne-some (sym e ∙ e')))) [
      | inl opened ↦ inl opened
      | inr (denied, _, same) ↦ inr (inr (denied, rw same))
    ]
    | inr (b, e) ↦ elim (Bool-cases (leb (b.window_start_ms + window_ms) t)) [
      | inl over ↦ elim (consume_opening t m (λ b' e'. ground (arith, sym e ∙ e'))) [
        | inl opened ↦ inl opened
        | inr (denied, _, same) ↦ inr (inr (denied, rw same))
      ]
      | inr running ↦ elim (consume_open t m b e (ground arith)) [
        | inl (allowed, room, e') ↦ inr (inl (allowed, rw (e', e) (omega arith)))
        | inr (denied, full, e') ↦ inr (inr (denied, rw (e', e)))
      ]
    ]
  ]

  admitted-le_left :
      (start : ℕ) (rs : List Request) (m : Buckets)
      → AreFrom start rs
      → AreBefore (start + window_ms) rs
      → admitted rs m ≤ left_in (lookup k m) + limit
  unfolding admitted
  admitted-le_left start [] m from before = omega arith
  admitted-le_left start ((j, t) ∷ rs) m (from, froms) (before, befores) =
      elim (Bool-cases (text_eq j k)) [
        | inl same ↦
            let p = (text_eq_iff j k).0 same in
            let m' = (consume k (policy k) t m).1 in
            let ih = admitted-le_left start rs m' froms befores in
            rw (p, text_eq_refl k)
              (elim (consume_any t m) [
                | inl (allowed, room, e) ↦
                    let opened : FixedWindowBucket = record { window_start_ms = t; count = 1 } in
                    let rest = admitted_in_window rs m' opened e (
                      AreBefore-mono (start + window_ms) (t + window_ms) rs (ground (arith, from p))
                        befores) in
                    rw (allowed, rest) (omega arith)
                | inr (inl (allowed, less)) ↦ rw allowed (omega (arith, less, ih))
                | inr (inr (denied, unchanged)) ↦ rw denied (omega (arith, unchanged, ih))
              ])
        | inr other ↦
            let apart = consume_other j k (policy j) t m (ground (arith, text_eq_iff j k)) in
            let ih = admitted-le_left start rs (consume j (policy j) t m).1 froms befores in
            rw (other, ← apart) (omega (arith, ih))
      ]

  -- Let the requests at key `k` all come within one interval as long as the key's window, in any
  -- order, with any requests at other keys between, and let the buckets be any. Then at most
  -- twice the limit are allowed. (A window may end inside the interval, so once is not the bound.)
  pub admitted-le-double :
      (start : ℕ) (rs : List Request) (m : Buckets)
      → AreFrom start rs
      → AreBefore (start + window_ms) rs
      → admitted rs m ≤ 2 * limit
  admitted-le-double start rs m from before =
      omega (arith, admitted-le_left start rs m from before, left_in-le (lookup k m))
