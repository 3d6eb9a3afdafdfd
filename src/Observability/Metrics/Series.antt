-- ===== src/Observability/Metrics/Series.antt =====
-- What one observation does to the series of a key.
use lux_ledger_demo.Common.{
  ℕ, ◌+◌, ◌≡◌, refl, sym, ◌⊎◌, Bool, Option, none, some, List, [], ◌∷◌, map, arith, Text, Dict,
  lookup, insert, lookup-insert, text_eq, text_eq_iff, leb, length, if◌then◌else◌, inl, inr,
  Bool-cases, Option-cases,
}
use mathlib.Core.Path.{subst, subst₂}
use lux_ledger_demo.Observability.Metrics.Store.{
  request_duration_buckets, Labels, CounterSeries, HistogramSeries, count_buckets, canonical_key,
  upsert_counter, new_histogram, series_at, observe_duration,
}

-- How many of the durations do not exceed the bound.
abbrev pub count_le : ℕ → List ℕ → ℕ
count_le b [] = 0
count_le b (d ∷ ds) = if leb d b then count_le b ds + 1 else count_le b ds

abbrev pub total : List ℕ → ℕ
total [] = 0
total (d ∷ ds) = total ds + d

-- The histogram sums up the durations: for each bound the number of those that do not exceed it,
-- how many they are, and their sum.
pub record SumsUp (s : HistogramSeries) (ds : List ℕ) : Type 0 where
  pub buckets_are : s.bucket_counts ≡ map (λ b. count_le b ds) request_duration_buckets
  pub count_is : s.count ≡ length ds
  pub sum_is : s.sum ≡ total ds

-- No series stands for no durations.
abbrev pub SumsUpAt : Dict HistogramSeries → Text → List ℕ → Type 0
SumsUpAt store key ds =
    ((lookup key store ≡ none) × (ds ≡ []))
    ⊎ ((s : HistogramSeries) × (lookup key store ≡ some s) × SumsUp s ds)

-- The counter at the key stands at `n`.
abbrev pub CountsAt : Dict CounterSeries → Text → ℕ → Type 0
CountsAt store key n =
    ((lookup key store ≡ none) × (n ≡ 0))
    ⊎ ((s : CounterSeries) × (lookup key store ≡ some s) × (s.value ≡ n))

count_buckets-map :
    (d : ℕ) (bounds ds : List ℕ)
    → count_buckets d bounds (map (λ b. count_le b ds) bounds)
      ≡ map (λ b. count_le b (d ∷ ds)) bounds
unfolding count_buckets
count_buckets-map d [] ds = refl
count_buckets-map d (b ∷ bounds) ds = ground (arith, count_buckets-map d bounds ds)

module _ (precedes : Text → Text → Bool) where
  -- One more duration at the key of its labels.
  observe-SumsUp :
      (labels : Labels) (d : ℕ) (ds : List ℕ) (s : HistogramSeries)
      → SumsUp s ds
      → SumsUp
          (record s {
            bucket_counts = count_buckets d request_duration_buckets s.bucket_counts;
            count = s.count + 1;
            sum = s.sum + d;
          })
          (d ∷ ds)
  observe-SumsUp labels d ds s h = record {
    buckets_are = rw h.buckets_are (count_buckets-map d request_duration_buckets ds);
    count_is = omega (arith, h.count_is);
    sum_is = omega (arith, h.sum_is);
  }

  series_at-SumsUp :
      (store : Dict HistogramSeries) (key : Text) (labels : Labels) (ds : List ℕ)
      → SumsUpAt store key ds
      → SumsUp (series_at precedes key labels store) ds
  series_at-SumsUp store key labels ds (inl (missing, empty)) =
      let e : series_at precedes key labels store ≡ new_histogram precedes labels =
        rw (missing, series_at) in
      let fresh : SumsUp (new_histogram precedes labels) [] = record {
        buckets_are = refl;
        count_is = refl;
        sum_is = refl;
      } in
      subst₂ SumsUp (sym e) (sym empty) fresh
  series_at-SumsUp store key labels ds (inr (s, found, sums)) =
      let e : series_at precedes key labels store ≡ s = rw (found, series_at) in
      subst (λ x. SumsUp x ds) (sym e) sums

  pub observe_duration-SumsUpAt :
      (store : Dict HistogramSeries) (labels : Labels) (d : ℕ) (key : Text) (ds : List ℕ)
      → SumsUpAt store key ds
      → SumsUpAt
          (observe_duration precedes store labels d)
          key
          (if text_eq (canonical_key precedes labels) key then d ∷ ds else ds)
  unfolding observe_duration
  observe_duration-SumsUpAt store labels d key ds h =
      let own = canonical_key precedes labels in
      let series = series_at precedes own labels store in
      let next : HistogramSeries = record series {
        bucket_counts = count_buckets d request_duration_buckets series.bucket_counts;
        count = series.count + 1;
        sum = series.sum + d;
      } in
      elim (Bool-cases (text_eq own key)) [
        | inl same ↦
            let at_own = rw (← (text_eq_iff own key).0 same) at h in
            rw same (
              inr (
                next,
                rw (lookup-insert own key next store, same),
                observe-SumsUp labels d ds series (series_at-SumsUp store own labels ds at_own),
              ))
        | inr apart ↦ rw (apart, lookup-insert own key next store) (rw apart h)
      ]

  -- The series that an increment stores.
  incremented : Option CounterSeries → Labels → CounterSeries
  incremented none labels = record { labels = labels; value = 1 }
  incremented (some series) labels = record series { value = series.value + 1 }

  upsert_counter-eq_insert :
      (store : Dict CounterSeries) (labels : Labels)
      → upsert_counter precedes store labels 1
        ≡ insert
            (canonical_key precedes labels)
            (incremented (lookup (canonical_key precedes labels) store) labels)
            store
  unfolding upsert_counter incremented
  upsert_counter-eq_insert store labels =
      elim (Option-cases (lookup (canonical_key precedes labels) store)) [
        | inl e ↦ rw (e, upsert_counter)
        | inr (s, e) ↦ rw (e, upsert_counter)
      ]

  incremented-value :
      (store : Dict CounterSeries) (labels : Labels) (n : ℕ)
      → CountsAt store (canonical_key precedes labels) n
      → (incremented (lookup (canonical_key precedes labels) store) labels).value ≡ n + 1
  unfolding incremented
  incremented-value store labels n (inl (missing, zero_)) = rw (missing, zero_) refl
  incremented-value store labels n (inr (s, found, counts)) = rw found (omega (arith, counts))

  pub upsert_counter-CountsAt :
      (store : Dict CounterSeries) (labels : Labels) (key : Text) (n : ℕ)
      → CountsAt store key n
      → CountsAt
          (upsert_counter precedes store labels 1)
          key
          (if text_eq (canonical_key precedes labels) key then n + 1 else n)
  upsert_counter-CountsAt store labels key n h =
      let own = canonical_key precedes labels in
      let next = incremented (lookup own store) labels in
      rw (upsert_counter-eq_insert store labels, lookup-insert own key next store)
        (elim (Bool-cases (text_eq own key)) [
          | inl same ↦
              let at_own = rw (← (text_eq_iff own key).0 same) at h in
              rw same (inr (next, refl, incremented-value store labels n at_own))
          | inr apart ↦ rw apart h
        ])
