-- ===== src/Api/Metrics/Render.antt =====
-- SuperAPI._server/src/core/Metrics.cpp: the metrics as the text that a scraper reads.
use super_voice.Base.{ℕ, List, [], ◌∷◌, ◌++◌}
use super_voice.Base.Map.{Map}
use super_voice.Base.Text.{text, to_string}
use super_voice.Api.Metrics.{
  Doubles, SeriesKey, Histogram, SeriesMetrics, Registry, ◌+₆₄◌, escape_label,
}

abbrev quote : List ℕ
quote = b'"' ∷ []

abbrev newline : List ℕ
newline = 10 ∷ []

unfoldable pub labels_of : SeriesKey → List ℕ
unfolding escape_label
labels_of key =
    text "company="
    ++ quote
    ++ escape_label key.company
    ++ quote
    ++ text ",endpoint="
    ++ quote
    ++ escape_label key.endpoint
    ++ quote

-- `name{labels} value`
unfoldable pub sample : List ℕ → List ℕ → List ℕ → List ℕ
sample name labels value = name ++ text "{" ++ labels ++ text "} " ++ value ++ newline

unfoldable pub error_lines : List ℕ → Map ℕ → List ℕ
unfolding escape_label sample to_string
error_lines labels [] = []
error_lines labels ((kind, count) ∷ errors) =
    sample (text "errors_total") (labels ++ text ",type=" ++ quote ++ escape_label kind ++ quote)
      (to_string count)
    ++ error_lines labels errors

-- `counts.back()`
unfoldable pub back : List ℕ → ℕ
back [] = 0
back (count ∷ []) = count
back (count ∷ next ∷ counts) = back (next ∷ counts)

module _ {Double : Type 0} where
  -- The cumulative count behind each bucket.
  unfoldable pub cumulative_counts : ℕ → List Double → List ℕ → List (Double × ℕ)
  cumulative_counts cumulative [] counts = []
  cumulative_counts cumulative (bucket ∷ buckets) [] = []
  cumulative_counts cumulative (bucket ∷ buckets) (count ∷ counts) =
      (bucket, cumulative +₆₄ count) ∷ cumulative_counts (cumulative +₆₄ count) buckets counts

  -- The cumulative count when the loop over the buckets ends.
  unfoldable pub below_all : ℕ → List Double → List ℕ → ℕ
  below_all cumulative [] counts = cumulative
  below_all cumulative (bucket ∷ buckets) [] = cumulative
  below_all cumulative (bucket ∷ buckets) (count ∷ counts) =
      below_all (cumulative +₆₄ count) buckets counts

  -- What the line of the bucket `+Inf` says.
  unfoldable pub inf_count : Histogram Double → ℕ
  unfolding below_all back
  inf_count histogram = below_all 0 histogram.buckets histogram.counts +₆₄ back histogram.counts

module _ {Double : Type 0} (doubles : Doubles Double) where
  bucket_lines : List ℕ → List (Double × ℕ) → List ℕ
  unfolding sample to_string
  bucket_lines labels [] = []
  bucket_lines labels ((bucket, count) ∷ counts) =
      sample (text "latency_ms_bucket")
        (labels ++ text ",le=" ++ quote ++ doubles.format_double bucket ++ quote) (to_string count)
      ++ bucket_lines labels counts

  histogram_lines : List ℕ → Histogram Double → List ℕ
  unfolding bucket_lines cumulative_counts inf_count sample to_string
  histogram_lines labels histogram = elim (histogram.buckets) [
    | [] ↦ []
    | bucket ∷ buckets ↦
        bucket_lines labels (cumulative_counts 0 histogram.buckets histogram.counts)
        ++ sample (text "latency_ms_bucket")
            (labels ++ text ",le=" ++ quote ++ text "+Inf" ++ quote)
            (to_string (inf_count histogram))
        ++ sample (text "latency_ms_sum") labels (doubles.format_double histogram.sum)
        ++ sample (text "latency_ms_count") labels (to_string histogram.total_count)
  ]

  pub series_lines : SeriesKey → SeriesMetrics Double → List ℕ
  unfolding labels_of sample to_string error_lines histogram_lines
  series_lines key series =
      let labels = labels_of key in
      sample (text "requests_total") labels (to_string series.requests_total)
      ++ sample (text "bytes_in") labels (to_string series.bytes_in)
      ++ sample (text "bytes_out") labels (to_string series.bytes_out)
      ++ sample (text "tokens_in") labels (to_string series.tokens_in)
      ++ sample (text "tokens_out") labels (to_string series.tokens_out)
      ++ sample (text "stream_events_total") labels (to_string series.stream_events)
      ++ error_lines labels series.error_counts
      ++ histogram_lines labels series.latency

  registry_lines : Registry Double → List ℕ
  unfolding series_lines
  registry_lines [] = []
  registry_lines ((key, series) ∷ registry) = series_lines key series ++ registry_lines registry

-- The two comment lines of a metric.
abbrev about : List ℕ → List ℕ → List ℕ → List ℕ
about name help kind =
    text "# HELP "
    ++ name
    ++ text " "
    ++ help
    ++ newline
    ++ text "# TYPE "
    ++ name
    ++ text " "
    ++ kind
    ++ newline

abbrev preamble : List ℕ
preamble =
    about (text "requests_total") (text "Total number of HTTP requests handled.") (text "counter")
    ++ about (text "errors_total") (text "Total number of error responses by type.")
        (text "counter")
    ++ about (text "latency_ms") (text "Request latency in milliseconds.") (text "histogram")
    ++ about (text "bytes_in") (text "Total bytes received.") (text "counter")
    ++ about (text "bytes_out") (text "Total bytes sent.") (text "counter")
    ++ about (text "tokens_in") (text "Total tokens received.") (text "counter")
    ++ about (text "tokens_out") (text "Total tokens returned.") (text "counter")
    ++ about (text "stream_events_total") (text "Total number of streamed events emitted.")
        (text "counter")

pub render_prometheus : {Double : Type 0} → Doubles Double → Registry Double → List ℕ
unfolding registry_lines
render_prometheus doubles registry = preamble ++ registry_lines doubles registry
