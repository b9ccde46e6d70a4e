-- ===== src/Api/Tests.antt =====
-- The theorems on the API server at concrete inputs.
use super_voice.Base.{
  ℕ, zero, suc, ◌+◌, ◌*◌, ◌%◌, ◌^◌, ◌<◌, ◌≡◌, refl, true, false, some, List, [], ◌∷◌, ◌++◌, arith,
  get_elem?, if◌then◌else◌, leb, All, replicate,
}
use super_voice.Base.Int.{pos}
use super_voice.Base.Text.{text, same}
use super_voice.Api.Env.{load_dot_env, get_env, is_empty, trim}
use super_voice.Api.Env.Quoted.{IsKey, file_of, load_dot_env-quoted}
use super_voice.Api.Tracing.{
  no_context, valid, Drawn, make_context, extract_traceparent, build_traceparent, resolve_env,
  Tracer, put_before, or_fallback,
}
use super_voice.Api.Tracing.Placeholder.{placeholder, with_fallback, resolve_env-placeholder}
use super_voice.Api.Tracing.Resolve.{resolve_env-Some}
use super_voice.Api.Tracing.Traceparent.{
  IsDrawn, make_context-IsSendable, extract_traceparent-build_traceparent,
}
use super_voice.Api.Tracing.Spans.{
  Thread, context_at, start_span, new_span, closed, Span, change_span, set_attribute, int_value,
}
use super_voice.Api.Tracing.Spans.Frozen.{HasEnded, Step-HasEnded}
use super_voice.Api.Tracing.Spans.Once.{sets}
use super_voice.Api.Metrics.{
  Doubles, SeriesKey, SeriesMetrics, Measured, record_request, increment_error, escape_label,
}
use super_voice.Api.Metrics.Observation.{start_request, call, finish}
use super_voice.Api.Metrics.Counts.{
  IsCounted, AllCounted, total, record_request-AllCounted, inf_count-total_count,
}
use super_voice.Api.Metrics.Render.{inf_count}
use super_voice.Api.Metrics.Requests.{total_requests, finish-total_requests}
use super_voice.Api.Middleware.{HttpRequest, do_filter, resolve_company}
use super_voice.Api.Middleware.Trace.{AllSendable, do_filter-Forwards}
use super_voice.Api.Middleware.Label.{escape_label-resolve_company}

-- Bytes that a random device may give.
abbrev drawn : Drawn
drawn = record { for_trace = replicate 16 90; for_span = replicate 8 165 }

byte_each : (n b : ℕ) → b < 256 → All (λ c. c < 256) (replicate n b)
byte_each zero b h = tt
byte_each (suc n) b h = (h, byte_each n b h)

drawn-IsDrawn : IsDrawn drawn
drawn-IsDrawn = record {
  trace_bytes = byte_each 16 90 (omega arith);
  span_bytes = byte_each 8 165 (omega arith);
  sixteen = refl;
  eight = refl;
}

port-IsKey : IsKey (text "PORT")
unfolding trim
port-IsKey = record {
  no_equals = (omega arith, (omega arith, (omega arith, (omega arith, tt))));
  one_line = (omega arith, (omega arith, (omega arith, (omega arith, tt))));
  no_nul = (omega arith, (omega arith, (omega arith, (omega arith, tt))));
  trimmed = refl;
  nonempty = refl;
  no_comment = refl;
}

load_dot_env-quoted_example :
    get_env
      (load_dot_env (some (file_of (text "# port" ∷ []) (text "PORT=\"8 #\""))) []).1
      (text "PORT")
    ≡ some (text "8 #")
load_dot_env-quoted_example =
    load_dot_env-quoted (text "# port" ∷ []) (text "PORT") (text "8 #") []
      (
        (
          omega arith,
          (omega arith, (omega arith, (omega arith, (omega arith, (omega arith, tt))))),
        ),
        tt,
      )
      port-IsKey (omega arith, (omega arith, (omega arith, tt)))
      (omega arith, (omega arith, (omega arith, tt)))

resolve_env-Some_example :
    (r : List ℕ) × (resolve_env [] (text "http://${HOST:-localhost}/") ≡ some r)
resolve_env-Some_example = resolve_env-Some [] (text "http://${HOST:-localhost}/")

extract_traceparent-build_traceparent_example :
    extract_traceparent (build_traceparent (make_context drawn)) ≡ make_context drawn
extract_traceparent-build_traceparent_example =
    extract_traceparent-build_traceparent (make_context drawn)
      (make_context-IsSendable drawn drawn-IsDrawn)

abbrev incoming : List ℕ
incoming = text "00-0af7651916cd43dd8448eb211c80319c-b7ad6b7169203331-01"

-- A tracer that exports.
abbrev exporting : Tracer
exporting = record {
  enabled = true;
  endpoint = text "http://collector/v1/traces";
  headers = [];
  service_name = text "superapi";
  service_namespace = [];
  service_version = [];
  environment = [];
}

-- A thread that has no span yet, with `double` as a number.
abbrev idle : Thread ℕ
idle = record { tracer = exporting; spans = []; owners = []; span_stack = []; sent = [] }

-- The same thread with a span open.
abbrev busy : Thread ℕ
unfolding start_span
busy = start_span (text "GET /") no_context [] (text "SERVER") drawn 5 idle

-- Numbers in place of `double`, in tenths.
abbrev whole : Doubles ℕ
whole = record {
  of_tenths = λ n. n;
  at_most = leb;
  add = λ a b. a + b;
  milliseconds = λ n. 10 * n;
  format_double = λ n. [];
}

abbrev chat_key : SeriesKey
chat_key = record { company = text "acme"; endpoint = text "/v1/chat" }

abbrev slow : Measured ℕ
slow = record {
  latency_ms = 120;
  bytes_in = 10;
  bytes_out = 20;
  tokens_in = 3;
  tokens_out = 4;
  stream_events = 0;
  error_type = text "http_5xx";
}

record_request-AllCounted_example :
    AllCounted whole (record_request whole chat_key slow [])
    × AllCounted whole (increment_error whole (text "acme") (text "/v1/chat") (text "timeout") [])
record_request-AllCounted_example =
    record_request-AllCounted whole [] chat_key slow (text "acme") (text "/v1/chat")
      (text "timeout") tt

-- A series of three requests.
abbrev three : SeriesMetrics ℕ
three = record {
  requests_total = 3;
  bytes_in = 0;
  bytes_out = 0;
  tokens_in = 0;
  tokens_out = 0;
  stream_events = 0;
  error_counts = [];
  latency = record { buckets = 5 ∷ 10 ∷ []; counts = 1 ∷ 0 ∷ 2 ∷ []; sum = 300; total_count = 3 };
}

three-IsCounted : IsCounted three
unfolding total
three-IsCounted = record { size = refl; balance = refl; requests = refl }

inf_count-total_count_example : inf_count three.latency ≡ three.latency.total_count
inf_count-total_count_example = inf_count-total_count whole three three-IsCounted (λ e. cc)

finish-total_requests_example :
    total_requests
        (finish whole
          (call 200 5 1 0 [] 40 ∷ call 500 0 0 0 [] 41 ∷ [])
          50
          (start_request whole (text "acme") (text "/v1/chat") 10 3 30)
          []).1
      % 2 ^ 64
    ≡ (total_requests {Double = ℕ} [] + 1) % 2 ^ 64
unfolding start_request
finish-total_requests_example =
    finish-total_requests whole (call 200 5 1 0 [] 40 ∷ call 500 0 0 0 [] 41 ∷ []) 50
      (start_request whole (text "acme") (text "/v1/chat") 10 3 30) [] refl

-- A request with two headers.
abbrev get_root : HttpRequest
get_root = record {
  get_header = λ name. if same name (text "traceparent") then incoming else text "Acme Inc";
  parameters = [];
  method = text "GET";
  path = text "/";
  body_length = 0;
  peer_ip = [];
  peer_port = 0;
}

escape_label-resolve_company_example :
    (escape_label (resolve_company get_root) ≡ resolve_company get_root)
    × (is_empty (resolve_company get_root) ≡ false)
escape_label-resolve_company_example = escape_label-resolve_company get_root

do_filter-Forwards_example :
    let result = do_filter whole (text "id") drawn 7 get_root idle in
    let parent = extract_traceparent incoming in
    let context = context_at result.thread.spans (some result.span) no_context in
    (get_elem? result.added_headers 1 ≡ some (text "traceparent", build_traceparent context))
    × (extract_traceparent (build_traceparent context) ≡ context)
    × (valid parent ≡ true → context.trace_id ≡ parent.trace_id)
    × AllSendable result.thread.spans
unfolding same
do_filter-Forwards_example =
    do_filter-Forwards whole (text "id") drawn 7 get_root idle drawn-IsDrawn tt

resolve_env-placeholder_example :
    resolve_env []
      (text "http://" ++ placeholder (with_fallback (text "HOST") (text "local")) (text "/v1"))
    ≡ put_before
        (text "http://" ++ or_fallback (get_env [] (text "HOST")) (text "local"))
        (resolve_env [] (text "/v1"))
resolve_env-placeholder_example =
    resolve_env-placeholder [] (text "http://") (text "HOST") (text "local") (text "/v1")
      (
        omega arith,
        (
          omega arith,
          (omega arith, (omega arith, (omega arith, (omega arith, (omega arith, tt))))),
        ),
      )
      (omega arith, (omega arith, (omega arith, (omega arith, tt))))
      (
        omega arith,
        (
          omega arith,
          (
            omega arith,
            (
              omega arith,
              (
                omega arith,
                (
                  omega arith,
                  (omega arith, (omega arith, (omega arith, (omega arith, (omega arith, tt))))),
                ),
              ),
            ),
          ),
        ),
      )

-- A span that has ended, and a thread with it alone.
abbrev over : Span ℕ
over =
    closed (pos 200) [] 9
      (new_span (text "GET /") (make_context drawn) no_context (text "SERVER") [] 5)

abbrev resting : Thread ℕ
resting = record {
  tracer = exporting;
  spans = over ∷ [];
  owners = true ∷ [];
  span_stack = [];
  sent = [];
}

Step-HasEnded_example :
    HasEnded 0 over (change_span 0 (set_attribute (text "late") (int_value (pos 1))) resting)
unfolding HasEnded
Step-HasEnded_example = Step-HasEnded 0 over (sets 0 (text "late") (int_value (pos 1))) (refl, refl)
