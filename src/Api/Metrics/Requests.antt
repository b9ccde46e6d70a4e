-- ===== src/Api/Metrics/Requests.antt =====
-- A request is counted once.
use super_voice.Base.{
  ℕ, ◌+◌, ◌%◌, ◌^◌, ◌≡◌, refl, ◌∙◌, ap, Bool, true, false, List, [], ◌∷◌, arith, if◌then◌else◌,
}
use super_voice.Base.Text.{text}
use super_voice.Api.Metrics.{
  Doubles, SeriesKey, SeriesMetrics, Registry, Measured, ◌+₆₄◌, same_key, key_less, new_series,
  with_buckets, update_series, record_in, record_request,
}
use super_voice.Api.Metrics.Observation.{
  Observation, measured_by, complete_first, complete, destroy, Call, call, finish,
}

module _ {Double : Type 0} where
  -- The requests of all series.
  unfoldable pub total_requests : Registry Double → ℕ
  total_requests [] = 0
  total_requests ((key, series) ∷ registry) = series.requests_total + total_requests registry

module _ {Double : Type 0} (doubles : Doubles Double) where
  requests_total-record_in :
      (measured : Measured Double) (series : SeriesMetrics Double)
      → (record_in doubles measured series).requests_total ≡ series.requests_total +₆₄ 1
  unfolding record_in
  requests_total-record_in measured series = cases series.latency.buckets
    where
      cases :
          (buckets : List Double)
          → (with_buckets doubles buckets series).requests_total +₆₄ 1 ≡ series.requests_total +₆₄ 1
      cases [] = refl
      cases (bucket ∷ buckets) = refl

  total_requests-update_series :
      (key : SeriesKey) (measured : Measured Double) (registry : Registry Double)
      → total_requests (update_series doubles key (record_in doubles measured) registry) % 2 ^ 64
        ≡ (total_requests registry + 1) % 2 ^ 64
  unfolding total_requests update_series
  total_requests-update_series key measured [] =
      omega (arith, requests_total-record_in measured (new_series doubles))
  total_requests-update_series key measured ((other, series) ∷ registry) =
      cases (same_key other key) (key_less key other)
        (total_requests-update_series key measured registry)
    where
      cases :
          (same less : Bool)
          → total_requests (update_series doubles key (record_in doubles measured) registry)
              % 2 ^ 64
            ≡ (total_requests registry + 1) % 2 ^ 64
          → total_requests (
                if same
                then (other, record_in doubles measured series) ∷ registry
                else if less
                then (key, record_in doubles measured (new_series doubles))
                  ∷ (other, series)
                  ∷ registry
                else (other, series)
                  ∷ update_series doubles key (record_in doubles measured) registry)
              % 2 ^ 64
            ≡ (series.requests_total + total_requests registry + 1) % 2 ^ 64
      cases true less ih = omega (arith, requests_total-record_in measured series)
      cases false true ih = omega (arith, requests_total-record_in measured (new_series doubles))
      cases false false ih = omega (arith, ih)

  complete-completed :
      (s b t e : ℕ) (kind : List ℕ) (at : ℕ) (observation : Observation doubles)
      (registry : Registry Double)
      → observation.completed ≡ true
      → complete doubles s b t e kind at observation registry ≡ (observation, registry)
  unfolding complete
  complete-completed s b t e kind at observation registry h =
      ap
        (λ (done : Bool).
          if done
          then (observation, registry)
          else complete_first doubles s b t e kind at observation registry)
        h

  complete-open :
      (s b t e : ℕ) (kind : List ℕ) (at : ℕ) (observation : Observation doubles)
      (registry : Registry Double)
      → observation.completed ≡ false
      → complete doubles s b t e kind at observation registry
        ≡ complete_first doubles s b t e kind at observation registry
  unfolding complete
  complete-open s b t e kind at observation registry h =
      ap
        (λ (done : Bool).
          if done
          then (observation, registry)
          else complete_first doubles s b t e kind at observation registry)
        h

  finish-completed :
      (calls : List (Call doubles)) (now : ℕ) (observation : Observation doubles)
      (registry : Registry Double)
      → observation.completed ≡ true
      → (finish doubles calls now observation registry).1 ≡ registry
  unfolding finish destroy
  finish-completed [] now observation registry h = rw h refl
  finish-completed (call s b t e k at ∷ calls) now observation registry h =
      ap
        (λ (done : Observation doubles × Registry Double).
          (finish doubles calls now done.0 done.1).1)
        (complete-completed s b t e k at observation registry h)
      ∙ finish-completed calls now observation registry h

  -- However often a handler completes a request, also if it never does, the request has been counted once
  -- when its observation is gone: the sum of the requests of all series has grown by one, modulo 2^64.
  pub finish-total_requests :
      (calls : List (Call doubles)) (now : ℕ) (observation : Observation doubles)
      (registry : Registry Double)
      → observation.completed ≡ false
      → total_requests (finish doubles calls now observation registry).1 % 2 ^ 64
        ≡ (total_requests registry + 1) % 2 ^ 64
  unfolding finish destroy complete record_request
  finish-total_requests [] now observation registry h = rw h (
      total_requests-update_series observation.key
        (measured_by doubles 0 0 observation.tokens_out observation.stream_events (text "abandoned")
          now observation)
        registry)
  finish-total_requests (call s b t e k at ∷ calls) now observation registry h =
      let first = complete_first doubles s b t e k at observation registry in
      ap
        (λ (done : Observation doubles × Registry Double).
          total_requests (finish doubles calls now done.0 done.1).1 % 2 ^ 64)
        (complete-open s b t e k at observation registry h)
      ∙ ap (λ (r : Registry Double). total_requests r % 2 ^ 64)
          (finish-completed calls now first.0 first.1 refl)
      ∙ total_requests-update_series observation.key (measured_by doubles s b t e k at observation)
          registry
