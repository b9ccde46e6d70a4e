-- ===== src/Api/Tracing/Spans.antt =====
-- SuperAPI._server/src/core/Tracing.cpp: the spans of one thread. A span is named by the order of its
-- start; `owners` says of each whether a `shared_ptr` to it is left, so that `weak_ptr::lock` succeeds.
-- The clock is an argument. The collector's answer is only logged.
pub mod Nested
pub mod Once
pub mod Frozen
use super_voice.Base.{
  ℕ, suc, ◌+◌, Bool, true, false, ◌&&◌, ◌||◌, not, Option, none, some, List, [], ◌∷◌, ◌++◌, ltb,
  leb, ◌==◌, if◌then◌else◌, length, get_elem?, get_or, set,
}
use super_voice.Base.Int.{ℤ, pos, negsuc, pos_part, is_positive}
use super_voice.Base.Map
use super_voice.Base.Map.{Map}
use super_voice.Base.Text.{text}
use super_voice.Api.Env.{is_empty, drop_last}
use super_voice.Api.Tracing.{SpanContext, Drawn, valid, generate_id, make_context, Tracer, shutdown}

pub data AttributeValue (Double : Type 0) : Type 0 where
  string_value : List ℕ → AttributeValue Double
  int_value : ℤ → AttributeValue Double
  double_value : Double → AttributeValue Double
  bool_value : Bool → AttributeValue Double

abbrev pub Attributes : Type 0 → Type 0
Attributes Double = Map (AttributeValue Double)

pub record Event (Double : Type 0) : Type 0 where
  pub name : List ℕ
  pub time : ℕ
  pub attributes : Attributes Double

pub record Span (Double : Type 0) : Type 0 where
  pub name : List ℕ
  pub context : SpanContext
  pub parent : SpanContext
  pub kind : List ℕ
  pub attributes : Attributes Double
  pub events : List (Event Double)
  pub start_time : ℕ
  pub end_time : ℕ
  pub otel_status : ℕ
  pub http_status : ℤ
  pub status_message : List ℕ
  pub ended : Bool

-- The JSON object of a span; a member that the code leaves out is `none` or empty.
pub record SpanJson (Double : Type 0) : Type 0 where
  pub trace_id : List ℕ
  pub span_id : List ℕ
  pub parent_span_id : Option (List ℕ)
  pub name : List ℕ
  pub kind : List ℕ
  pub start_time_unix_nano : ℕ
  pub end_time_unix_nano : ℕ
  pub status : Option (ℕ × Option (List ℕ))
  pub attributes : Attributes Double
  pub events : List (Event Double)

-- What is posted to the collector, the headers in the order in which they are set.
pub record Payload (Double : Type 0) : Type 0 where
  pub url : List ℕ
  pub headers : List (List ℕ × List ℕ)
  pub resource : Attributes Double
  pub span : SpanJson Double

pub record Thread (Double : Type 0) : Type 0 where
  pub tracer : Tracer
  pub spans : List (Span Double)
  pub owners : List Bool
  pub span_stack : List ℕ
  pub sent : List (ℕ × Payload Double)

-- Whether `lock` gives the span.
abbrev pub locks : List Bool → ℕ → Bool
locks owners span = get_or owners span false

-- What is found above a span, or else the span itself; a dead one with nothing above it is taken off.
abbrev pub or_below : ℕ → Bool → Option ℕ × List ℕ → Option ℕ × List ℕ
or_below span here (some found, above) = (some found, span ∷ above)
or_below span true (none, above) = (some span, span ∷ [])
or_below span false (none, above) = (none, [])

-- The innermost span that is left, and the stack without the dead ones above it.
unfoldable pub current_span : List Bool → List ℕ → Option ℕ × List ℕ
current_span owners [] = (none, [])
current_span owners (span ∷ above) = or_below span (locks owners span) (current_span owners above)

unfoldable pub release_span : List Bool → Option ℕ → List ℕ → List ℕ
unfolding drop_last
release_span owners none stack = drop_last stack
release_span owners (some released) [] = []
release_span owners (some released) (span ∷ above) =
    let rest = release_span owners (some released) above in
    if not (locks owners span) then rest else if span == released then above else span ∷ rest

abbrev pub status_of : ℤ → ℕ
status_of status_code =
    if leb 400 (pos_part status_code) then 2 else if is_positive status_code then 1 else 0

unfoldable pub child_context : SpanContext → Drawn → SpanContext
unfolding valid make_context generate_id
child_context parent drawn =
    if valid parent
    then record {
      trace_id = parent.trace_id;
      span_id = generate_id drawn.for_span;
      trace_flags = parent.trace_flags;
    }
    else make_context drawn

module _ {Double : Type 0} where
  abbrev pub resource_attribute : List ℕ → List ℕ → Attributes Double → Attributes Double
  resource_attribute key value rest =
      if is_empty value then rest else (key, string_value value) ∷ rest

  abbrev pub resource_attributes : Tracer → Attributes Double
  resource_attributes tracer = resource_attribute (text "service.name") tracer.service_name (
      resource_attribute (text "service.namespace") tracer.service_namespace (
        resource_attribute (text "service.version") tracer.service_version
          (resource_attribute (text "deployment.environment") tracer.environment [])))

  abbrev pub status_json : Span Double → Option (ℕ × Option (List ℕ))
  status_json span =
      if not (is_empty span.status_message) || not (span.otel_status == 0)
      then some (
        span.otel_status,
        if is_empty span.status_message then none else some span.status_message,
      )
      else none

  unfoldable pub export_span : Tracer → Span Double → Option (Payload Double)
  unfolding valid
  export_span tracer span =
      if not tracer.enabled
      then none
      else some record {
        url = tracer.endpoint;
        headers = (text "Content-Type", text "application/json") ∷ tracer.headers;
        resource = resource_attributes tracer;
        span = record {
          trace_id = span.context.trace_id;
          span_id = span.context.span_id;
          parent_span_id = if valid span.parent then some span.parent.span_id else none;
          name = span.name;
          kind = span.kind;
          start_time_unix_nano = span.start_time;
          end_time_unix_nano = span.end_time;
          status = status_json span;
          attributes = span.attributes;
          events = span.events;
        };
      }

  unfoldable pub set_attribute : List ℕ → AttributeValue Double → Span Double → Span Double
  set_attribute key value span =
      if span.ended then span else record span { attributes = Map.insert key value span.attributes }

  unfoldable pub add_event : List ℕ → Attributes Double → ℕ → Span Double → Span Double
  add_event name attributes now span = if span.ended then span else record span {
    events = span.events ++ (record { name = name; time = now; attributes = attributes } ∷ []);
  }

  -- The fields that `end` sets.
  abbrev pub closed : ℤ → List ℕ → ℕ → Span Double → Span Double
  closed status_code message now span = record span {
    ended = true;
    http_status = status_code;
    otel_status = status_of status_code;
    status_message = message;
    attributes =
        if is_positive status_code
        then Map.insert (text "http.status_code") (int_value status_code) span.attributes
        else span.attributes;
    end_time = now;
  }

  abbrev pub report :
      ℕ → Option (Payload Double) → List (ℕ × Payload Double) → List (ℕ × Payload Double)
  report span none sent = sent
  report span (some payload) sent = sent ++ ((span, payload) ∷ [])

  -- What `end` does to a span that has not ended.
  unfoldable pub end_live : ℕ → ℤ → List ℕ → ℕ → Thread Double → Span Double → Thread Double
  unfolding export_span release_span
  end_live name status_code message now thread span = record thread {
    spans = set thread.spans name (closed status_code message now span);
    sent =
        report name (export_span thread.tracer (closed status_code message now span)) thread.sent;
    span_stack = release_span thread.owners (some name) thread.span_stack;
  }

  unfoldable pub end_span : ℕ → ℤ → List ℕ → ℕ → Thread Double → Thread Double
  unfolding end_live
  end_span name status_code message now thread = elim (get_elem? thread.spans name) [
    | none ↦ thread
    | some span ↦ if span.ended then thread else end_live name status_code message now thread span
  ]

  -- The last `shared_ptr` goes: the destructor ends the span if nothing has.
  unfoldable pub drop_span : ℕ → ℕ → Thread Double → Thread Double
  unfolding end_span
  drop_span name now thread =
      end_span name (pos 0) [] now (record thread { owners = set thread.owners name false })

  -- An operation on a span by its handle.
  unfoldable pub change_span : ℕ → (Span Double → Span Double) → Thread Double → Thread Double
  change_span name change thread = elim (get_elem? thread.spans name) [
    | none ↦ thread
    | some span ↦ record thread { spans = set thread.spans name (change span) }
  ]

  abbrev pub context_at : List (Span Double) → Option ℕ → SpanContext → SpanContext
  context_at spans none fallback = fallback
  context_at spans (some name) fallback = elim (get_elem? spans name) [
    | none ↦ fallback
    | some span ↦ span.context
  ]

  -- The parent that is given, or the current span where that is not valid.
  unfoldable pub resolve_parent : SpanContext → Thread Double → SpanContext
  unfolding valid current_span
  resolve_parent parent thread =
      if valid parent
      then parent
      else context_at thread.spans (current_span thread.owners thread.span_stack).0 parent

  -- The constructor of `Span`.
  abbrev pub new_span :
      List ℕ → SpanContext → SpanContext → List ℕ → Attributes Double → ℕ → Span Double
  new_span name context parent kind attributes now = record {
    name = name;
    context = context;
    parent = parent;
    kind = kind;
    attributes = attributes;
    events = [];
    start_time = now;
    end_time = 0;
    otel_status = 0;
    http_status = pos 0;
    status_message = [];
    ended = false;
  }

  unfoldable pub start_span :
      List ℕ → SpanContext → Attributes Double → List ℕ → Drawn → ℕ → Thread Double → Thread Double
  unfolding resolve_parent child_context
  start_span name parent attributes kind drawn now thread =
      let resolved = resolve_parent parent thread in
      let stack =
        if valid parent
        then thread.span_stack
        else (current_span thread.owners thread.span_stack).1 in
      record thread {
        spans =
            thread.spans
            ++ (new_span name (child_context resolved drawn) resolved kind attributes now ∷ []);
        owners = thread.owners ++ (true ∷ []);
        span_stack = stack ++ (length thread.spans ∷ []);
      }

  unfoldable pub clear_current_span : Thread Double → Thread Double
  unfolding drop_last
  clear_current_span thread = record thread { span_stack = drop_last thread.span_stack }

  unfoldable pub stop : Thread Double → Thread Double
  unfolding shutdown
  stop thread = record thread { tracer = shutdown thread.tracer; span_stack = [] }
