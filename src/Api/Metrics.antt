-- ===== src/Api/Metrics.antt =====
-- SuperAPI._server/src/core/Metrics.cpp: the registry of metrics and the observation of one request.
-- `double` and its printing are a parameter. Each operation holds the mutex for its whole run, so it is
-- one step here; the counters are 64-bit.
pub mod Render
pub mod Counts
pub mod Observation
pub mod Requests
use super_voice.Base.{
  ℕ, zero, suc, ◌+◌, ◌-◌, ◌%◌, ◌^◌, Bool, true, false, ◌&&◌, ◌||◌, not, List, [], ◌∷◌, ◌++◌, ltb,
  leb, ◌==◌, if◌then◌else◌, length, replicate,
}
use super_voice.Base.Map
use super_voice.Base.Map.{Map}
use super_voice.Base.Text.{text, same, to_string}
use super_voice.Api.Env.{is_empty}

-- Arithmetic on `double`; `of_tenths n` is n / 10.
pub record Doubles (Double : Type 0) : Type 0 where
  pub of_tenths : ℕ → Double
  pub at_most : Double → Double → Bool
  pub add : Double → Double → Double
  pub milliseconds : ℕ → Double
  pub format_double : Double → List ℕ

pub record SeriesKey : Type 0 where
  pub company : List ℕ
  pub endpoint : List ℕ

unfoldable pub same_key : SeriesKey → SeriesKey → Bool
unfolding same
same_key a b = same a.company b.company && same a.endpoint b.endpoint

-- `operator<` of `std::string`.
pub less : List ℕ → List ℕ → Bool
less [] [] = false
less [] (b ∷ bs) = true
less (a ∷ as') [] = false
less (a ∷ as') (b ∷ bs) = ltb a b || (a == b && less as' bs)

pub key_less : SeriesKey → SeriesKey → Bool
unfolding less same
key_less a b = less a.company b.company || (same a.company b.company && less a.endpoint b.endpoint)

pub record Histogram (Double : Type 0) : Type 0 where
  pub buckets : List Double
  pub counts : List ℕ
  pub sum : Double
  pub total_count : ℕ

pub record SeriesMetrics (Double : Type 0) : Type 0 where
  pub requests_total : ℕ
  pub bytes_in : ℕ
  pub bytes_out : ℕ
  pub tokens_in : ℕ
  pub tokens_out : ℕ
  pub stream_events : ℕ
  pub error_counts : Map ℕ
  pub latency : Histogram Double

abbrev pub Registry : Type 0 → Type 0
Registry Double = List (SeriesKey × SeriesMetrics Double)

-- `+` on `std::uint64_t`.
infixl 60 ◌+₆₄◌
abbrev pub ◌+₆₄◌ : ℕ → ℕ → ℕ
a +₆₄ b = (a + b) % 2 ^ 64

unfoldable pub bump_error : List ℕ → Map ℕ → Map ℕ
unfolding same less
bump_error error_type [] = (error_type, 1) ∷ []
bump_error error_type ((kind, count) ∷ errors) =
    if same kind error_type
    then (kind, count +₆₄ 1) ∷ errors
    else if less error_type kind
    then (error_type, 1) ∷ (kind, count) ∷ errors
    else (kind, count) ∷ bump_error error_type errors

abbrev pub escape_char : ℕ → List ℕ
escape_char c =
    if c == 92 || c == b'"' then 92 ∷ c ∷ [] else if c == 10 then 92 ∷ b'n' ∷ [] else c ∷ []

unfoldable pub escape_label : List ℕ → List ℕ
escape_label [] = []
escape_label (c ∷ value) = escape_char c ++ escape_label value

-- What a request adds to its series.
pub record Measured (Double : Type 0) : Type 0 where
  pub latency_ms : Double
  pub bytes_in : ℕ
  pub bytes_out : ℕ
  pub tokens_in : ℕ
  pub tokens_out : ℕ
  pub stream_events : ℕ
  pub error_type : List ℕ

module _ {Double : Type 0} (doubles : Doubles Double) where
  abbrev pub default_buckets : List Double
  default_buckets = tenths (5 ∷ 10 ∷ 25 ∷ 50 ∷ 100 ∷ 250 ∷ 500 ∷ 1000 ∷ 2500 ∷ 5000 ∷ [])
    where
      tenths : List ℕ → List Double
      tenths [] = []
      tenths (n ∷ ns) = doubles.of_tenths n ∷ tenths ns

  unfoldable pub create_histogram : Histogram Double
  create_histogram = record {
    buckets = default_buckets;
    counts = replicate (length default_buckets + 1) 0;
    sum = doubles.of_tenths 0;
    total_count = 0;
  }

  -- A series that the map makes for a new key.
  abbrev pub new_series : SeriesMetrics Double
  new_series = record {
    requests_total = 0;
    bytes_in = 0;
    bytes_out = 0;
    tokens_in = 0;
    tokens_out = 0;
    stream_events = 0;
    error_counts = [];
    latency = record { buckets = []; counts = []; sum = doubles.of_tenths 0; total_count = 0 };
  }

  abbrev pub with_buckets : List Double → SeriesMetrics Double → SeriesMetrics Double
  with_buckets [] series = record series { latency = create_histogram }
  with_buckets (bucket ∷ buckets) series = series

  abbrev pub with_histogram : SeriesMetrics Double → SeriesMetrics Double
  with_histogram series = with_buckets series.latency.buckets series

  -- `metricsBySeries_[key]`, changed in place.
  unfoldable pub update_series :
      SeriesKey → (SeriesMetrics Double → SeriesMetrics Double) → Registry Double → Registry Double
  unfolding same_key key_less
  update_series key change [] = (key, change new_series) ∷ []
  update_series key change ((other, series) ∷ registry) =
      let rest = update_series key change registry in
      if same_key other key
      then (other, change series) ∷ registry
      else if key_less key other
      then (key, change new_series) ∷ (other, series) ∷ registry
      else (other, series) ∷ rest

  -- The first bucket that the latency fits counts it, or else the last counter.
  unfoldable pub count_latency : Double → List Double → List ℕ → List ℕ
  count_latency latency_ms buckets [] = []
  count_latency latency_ms [] (count ∷ []) = (count +₆₄ 1) ∷ []
  count_latency latency_ms [] (count ∷ next ∷ counts) =
      count ∷ count_latency latency_ms [] (next ∷ counts)
  count_latency latency_ms (bucket ∷ buckets) (count ∷ counts) =
      let rest = count_latency latency_ms buckets counts in
      if doubles.at_most latency_ms bucket then (count +₆₄ 1) ∷ counts else count ∷ rest

  abbrev pub count_error : List ℕ → Map ℕ → Map ℕ
  unfolding bump_error
  count_error error_type errors =
      if is_empty error_type then errors else bump_error error_type errors

  unfoldable pub record_in : Measured Double → SeriesMetrics Double → SeriesMetrics Double
  unfolding count_latency
  record_in measured found =
      let series = with_histogram found in
      record series {
        requests_total = series.requests_total +₆₄ 1;
        bytes_in = series.bytes_in +₆₄ measured.bytes_in;
        bytes_out = series.bytes_out +₆₄ measured.bytes_out;
        tokens_in = series.tokens_in +₆₄ measured.tokens_in;
        tokens_out = series.tokens_out +₆₄ measured.tokens_out;
        stream_events = series.stream_events +₆₄ measured.stream_events;
        error_counts = count_error measured.error_type series.error_counts;
        latency = record {
          buckets = series.latency.buckets;
          counts = count_latency measured.latency_ms series.latency.buckets series.latency.counts;
          sum = doubles.add series.latency.sum measured.latency_ms;
          total_count = series.latency.total_count +₆₄ 1;
        };
      }

  unfoldable pub record_request : SeriesKey → Measured Double → Registry Double → Registry Double
  unfolding update_series record_in
  record_request key measured registry = update_series key (record_in measured) registry

  unfoldable pub error_in : List ℕ → SeriesMetrics Double → SeriesMetrics Double
  unfolding bump_error
  error_in error_type found =
      let series = with_histogram found in
      record series { error_counts = bump_error error_type series.error_counts }

  unfoldable pub increment_error : List ℕ → List ℕ → List ℕ → Registry Double → Registry Double
  unfolding update_series error_in
  increment_error company endpoint error_type registry =
      if is_empty error_type
      then registry
      else update_series (record { company = company; endpoint = endpoint }) (error_in error_type)
          registry
