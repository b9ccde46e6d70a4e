-- ===== src/Api/Metrics/Counts.antt =====
-- The histogram of a series counts every request once.
use super_voice.Base.{
  ℕ, zero, suc, ◌+◌, ◌%◌, ◌^◌, ◌≡◌, ◌≢◌, refl, sym, ◌∙◌, ap, inl, inr, Bool, true, false, List, [],
  ◌∷◌, arith, if◌then◌else◌, length, replicate, All, Bool-cases,
}
use super_voice.Api.Env.{is_empty}
use super_voice.Api.Metrics.{
  Doubles, SeriesKey, SeriesMetrics, Registry, Measured, ◌+₆₄◌, same_key, key_less,
  create_histogram, new_series, with_histogram, with_buckets, update_series, count_latency,
  record_in, error_in, record_request, increment_error,
}
use super_voice.Api.Metrics.Render.{below_all, inf_count, back}

unfoldable pub total : List ℕ → ℕ
total [] = 0
total (count ∷ counts) = count + total counts

-- One counter for each bucket and one more, or none at all.
abbrev pub sized : {Double : Type 0} → List Double → ℕ
sized [] = 0
sized (bucket ∷ buckets) = suc (suc (length buckets))

module _ {Double : Type 0} where
  -- A series whose counters agree.
  pub record IsCounted (series : SeriesMetrics Double) : Type 0 where
    pub size : length series.latency.counts ≡ sized series.latency.buckets
    pub balance : total series.latency.counts % 2 ^ 64 ≡ series.latency.total_count
    pub requests : series.requests_total ≡ series.latency.total_count

  below_all-total :
      (cumulative : ℕ) (buckets : List Double) (counts : List ℕ)
      → length counts ≡ suc (length buckets)
      → (below_all cumulative buckets counts + back counts) % 2 ^ 64
        ≡ (cumulative + total counts) % 2 ^ 64
  unfolding below_all back total
  below_all-total cumulative [] (count ∷ []) h = omega arith
  below_all-total cumulative [] (count ∷ next ∷ counts) h = absurd (omega (arith, h))
  below_all-total cumulative buckets [] h = absurd (omega (arith, h))
  below_all-total cumulative (bucket ∷ buckets) (count ∷ []) h = absurd (omega (arith, h))
  below_all-total cumulative (bucket ∷ buckets) (count ∷ next ∷ counts) h =
      omega
        (arith, below_all-total (cumulative +₆₄ count) buckets (next ∷ counts) (omega (arith, h)))

total-zeros : (n : ℕ) → total (replicate n 0) ≡ 0
unfolding total
total-zeros zero = refl
total-zeros (suc n) = omega (arith, total-zeros n)

total-none : (counts : List ℕ) → length counts ≡ 0 → total counts ≡ 0
unfolding total
total-none [] h = refl
total-none (count ∷ counts) h = absurd (omega (arith, h))

module _ {Double : Type 0} (doubles : Doubles Double) where
  count_latency-total :
      (latency : Double) (buckets : List Double) (counts : List ℕ)
      → length counts ≡ suc (length buckets)
      → total (count_latency doubles latency buckets counts) % 2 ^ 64 ≡ (total counts + 1) % 2 ^ 64
  unfolding count_latency total
  count_latency-total latency buckets [] h = absurd (omega (arith, h))
  count_latency-total latency [] (count ∷ []) h = omega arith
  count_latency-total latency [] (count ∷ next ∷ counts) h = absurd (omega (arith, h))
  count_latency-total latency (bucket ∷ buckets) (count ∷ counts) h =
      elim (Bool-cases (doubles.at_most latency bucket)) [
        | inl e ↦ rw e (omega arith)
        | inr e ↦
            rw e (omega (arith, count_latency-total latency buckets counts (omega (arith, h))))
      ]

  length-count_latency :
      (latency : Double) (buckets : List Double) (counts : List ℕ)
      → length (count_latency doubles latency buckets counts) ≡ length counts
  unfolding count_latency
  length-count_latency latency buckets [] = refl
  length-count_latency latency [] (count ∷ []) = refl
  length-count_latency latency [] (count ∷ next ∷ counts) =
      ap suc (length-count_latency latency [] (next ∷ counts))
  length-count_latency latency (bucket ∷ buckets) (count ∷ counts) =
      elim (Bool-cases (doubles.at_most latency bucket)) [
        | inl e ↦ rw e refl
        | inr e ↦ rw e (ap suc (length-count_latency latency buckets counts))
      ]

  IsCounted-new_series : IsCounted (new_series doubles)
  unfolding total
  IsCounted-new_series = record { size = refl; balance = omega arith; requests = refl }

  -- With the histogram in place there is one counter more than there are buckets.
  IsCounted-with_histogram :
      (series : SeriesMetrics Double)
      → IsCounted series
      → IsCounted (with_histogram doubles series)
        × (length (with_histogram doubles series).latency.counts
            ≡ suc (length (with_histogram doubles series).latency.buckets))
  unfolding create_histogram total
  IsCounted-with_histogram series h = cases series.latency.buckets refl
    where
      cases :
          (buckets : List Double)
          → series.latency.buckets ≡ buckets
          → IsCounted (with_buckets doubles buckets series)
            × (length (with_buckets doubles buckets series).latency.counts
                ≡ suc (length (with_buckets doubles buckets series).latency.buckets))
      cases [] e =
          let none_yet = total-none series.latency.counts (h.size ∙ ap sized e) in
          (
            record {
              size = refl;
              balance = refl;
              requests = omega (arith, h.requests, h.balance, none_yet);
            },
            refl,
          )
      cases (bucket ∷ buckets) e =
          (h, h.size ∙ ap sized e ∙ ap (λ (b : List Double). suc (length b)) (sym e))

  IsCounted-record_in :
      (measured : Measured Double) (series : SeriesMetrics Double)
      → IsCounted series
      → IsCounted (record_in doubles measured series)
  unfolding record_in
  IsCounted-record_in measured series h =
      let made = IsCounted-with_histogram series h in
      let filled = with_histogram doubles series in
      let counted =
        count_latency-total measured.latency_ms filled.latency.buckets filled.latency.counts
          made.1 in
      record {
        size =
            length-count_latency measured.latency_ms filled.latency.buckets filled.latency.counts
            ∙ made.0.size;
        balance = omega (arith, counted, made.0.balance);
        requests = ap (λ (n : ℕ). n +₆₄ 1) made.0.requests;
      }

  IsCounted-error_in :
      (error_type : List ℕ) (series : SeriesMetrics Double)
      → IsCounted series
      → IsCounted (error_in doubles error_type series)
  unfolding error_in
  IsCounted-error_in error_type series h =
      let made = (IsCounted-with_histogram series h).0 in
      record { size = made.size; balance = made.balance; requests = made.requests }

  abbrev pub AllCounted : Registry Double → Type 0
  AllCounted = All (λ entry. IsCounted entry.1)

  AllCounted-update_series :
      (key : SeriesKey) (change : SeriesMetrics Double → SeriesMetrics Double)
      (registry : Registry Double)
      → ((series : SeriesMetrics Double) → IsCounted series → IsCounted (change series))
      → AllCounted registry
      → AllCounted (update_series doubles key change registry)
  unfolding update_series
  AllCounted-update_series key change [] kept h =
      (kept (new_series doubles) IsCounted-new_series, tt)
  AllCounted-update_series key change ((other, series) ∷ registry) kept h =
      cases (same_key other key) (key_less key other)
        (AllCounted-update_series key change registry kept h.1)
    where
      cases :
          (same less : Bool)
          → AllCounted (update_series doubles key change registry)
          → AllCounted (
              if same
              then (other, change series) ∷ registry
              else if less
              then (key, change (new_series doubles)) ∷ (other, series) ∷ registry
              else (other, series) ∷ update_series doubles key change registry)
      cases true less ih = (kept series h.0, h.1)
      cases false true ih = (kept (new_series doubles) IsCounted-new_series, h)
      cases false false ih = (h.0, ih)

  -- Recording a request and counting an error keep, for every series, the number of requests equal to
  -- the count of its histogram and to the sum of the histogram's counters, modulo 2^64.
  pub record_request-AllCounted :
      (registry : Registry Double) (key : SeriesKey) (measured : Measured Double)
      (company endpoint error_type : List ℕ)
      → AllCounted registry
      → AllCounted (record_request doubles key measured registry)
        × AllCounted (increment_error doubles company endpoint error_type registry)
  unfolding record_request increment_error
  record_request-AllCounted registry key measured company endpoint error_type h =
      let error_key : SeriesKey = record { company = company; endpoint = endpoint } in
      let counted =
        AllCounted-update_series error_key (error_in doubles error_type) registry
          (IsCounted-error_in error_type) h in
      (
        AllCounted-update_series key (record_in doubles measured) registry
            (IsCounted-record_in measured) h,
        cases error_type counted,
      )
    where
      cases :
          (kind : List ℕ)
          → AllCounted (
              update_series doubles
                (record { company = company; endpoint = endpoint })
                (error_in doubles error_type)
                registry)
          → AllCounted (
              if is_empty kind
              then registry
              else update_series doubles
                  (record { company = company; endpoint = endpoint })
                  (error_in doubles error_type)
                  registry)
      cases [] counted = h
      cases (c ∷ kind) counted = counted

  sized-some : (buckets : List Double) → buckets ≢ [] → sized buckets ≡ suc (length buckets)
  sized-some [] h = absurd (h refl)
  sized-some (bucket ∷ buckets) h = refl

  -- The line of the bucket `+Inf`, which the code adds up anew, shows the count of the histogram, for a
  -- series that has its buckets and whose counters agree.
  pub inf_count-total_count :
      (series : SeriesMetrics Double)
      → IsCounted series
      → series.latency.buckets ≢ []
      → inf_count series.latency ≡ series.latency.total_count
  unfolding inf_count
  inf_count-total_count series h some_bucket = omega (
    arith,
    h.balance,
    below_all-total 0 series.latency.buckets series.latency.counts
        (h.size ∙ sized-some series.latency.buckets some_bucket),
  )
