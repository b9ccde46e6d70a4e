-- ===== src/Api/Middleware/Trace.antt =====
-- What a handler is told of the trace that its request belongs to.
use super_voice.Base.{
  ℕ, zero, suc, ◌≡◌, refl, ◌∙◌, ap, inl, inr, Bool, true, false, Option, none, some, List, [], ◌∷◌,
  ◌++◌, arith, length, get_elem?, if◌then◌else◌, All, Bool-cases,
}
use super_voice.Base.Text.{text}
use super_voice.Api.Tracing.{
  SpanContext, Drawn, valid, extract_traceparent, build_traceparent, make_context, generate_id,
  no_context,
}
use super_voice.Api.Tracing.Traceparent.{
  IsSendable, IsDrawn, extract_traceparent-build_traceparent, extract_traceparent-IsSendable,
  make_context-IsSendable, generate_id-clean, length-generate_id,
}
use super_voice.Api.Tracing.Spans.{
  Span, Thread, current_span, context_at, resolve_parent, child_context, start_span, new_span,
}
use super_voice.Api.Metrics.{Doubles}
use super_voice.Api.Middleware.{HttpRequest, do_filter, traced, span_attributes}

-- A context that is empty or can be sent on.
abbrev IsSane : SpanContext → Type 0
IsSane context = valid context ≡ true → IsSendable context

child_context-IsSendable :
    (parent : SpanContext) (drawn : Drawn)
    → IsSane parent
    → IsDrawn drawn
    → IsSendable (child_context parent drawn)
unfolding child_context
child_context-IsSendable parent drawn sane h = cases (valid parent) refl
  where
    cases :
        (ok : Bool)
        → valid parent ≡ ok
        → IsSendable (
            if ok
            then record {
              trace_id = parent.trace_id;
              span_id = generate_id drawn.for_span;
              trace_flags = parent.trace_flags;
            }
            else make_context drawn)
    cases true e = record {
      trace_length = (sane e).trace_length;
      span_length = omega (arith, length-generate_id drawn.for_span, h.eight);
      trace_clean = (sane e).trace_clean;
      span_clean = generate_id-clean drawn.for_span h.span_bytes;
      flags_clean = (sane e).flags_clean;
    }
    cases false e = make_context-IsSendable drawn h

child_context-trace_id :
    (parent : SpanContext) (drawn : Drawn)
    → valid parent ≡ true
    → (child_context parent drawn).trace_id ≡ parent.trace_id
unfolding child_context
child_context-trace_id parent drawn e = rw e refl

module _ {Double : Type 0} where
  -- Every span of a thread has a context that can be sent on.
  abbrev pub AllSendable : List (Span Double) → Type 0
  AllSendable = All (λ span. IsSendable span.context)

  context_at-IsSane :
      (spans : List (Span Double)) (name : Option ℕ) (fallback : SpanContext)
      → AllSendable spans
      → IsSane fallback
      → IsSane (context_at spans name fallback)
  context_at-IsSane spans none fallback h sane = sane
  context_at-IsSane [] (some i) fallback h sane = sane
  context_at-IsSane (span ∷ spans) (some zero) fallback h sane = λ e. h.0
  context_at-IsSane (span ∷ spans) (some (suc i)) fallback h sane =
      context_at-IsSane spans (some i) fallback h.1 sane

  resolve_parent-IsSane :
      (parent : SpanContext) (thread : Thread Double)
      → IsSane parent
      → AllSendable thread.spans
      → IsSane (resolve_parent parent thread)
  unfolding resolve_parent
  resolve_parent-IsSane parent thread sane h = elim (Bool-cases (valid parent)) [
    | inl e ↦ rw e sane
    | inr e ↦ rw e (
        context_at-IsSane thread.spans (current_span thread.owners thread.span_stack).0 parent h
          sane)
  ]

  AllSendable-append :
      (spans : List (Span Double)) (span : Span Double)
      → AllSendable spans
      → IsSendable span.context
      → AllSendable (spans ++ (span ∷ []))
  AllSendable-append [] span h new = (new, tt)
  AllSendable-append (s ∷ spans) span h new = (h.0, AllSendable-append spans span h.1 new)

  context_at-last :
      (spans : List (Span Double)) (span : Span Double) (fallback : SpanContext)
      → context_at (spans ++ (span ∷ [])) (some (length spans)) fallback ≡ span.context
  context_at-last [] span fallback = refl
  context_at-last (s ∷ spans) span fallback = context_at-last spans span fallback

  resolve_parent-valid :
      (parent : SpanContext) (thread : Thread Double)
      → valid parent ≡ true
      → resolve_parent parent thread ≡ parent
  unfolding resolve_parent
  resolve_parent-valid parent thread e =
      ap
        (λ (ok : Bool).
          if ok
          then parent
          else context_at thread.spans (current_span thread.owners thread.span_stack).0 parent)
        e

  -- The context of a span that is started.
  started_context : SpanContext → Drawn → Thread Double → SpanContext
  started_context parent drawn thread = child_context (resolve_parent parent thread) drawn

  started_context-IsSendable :
      (parent : SpanContext) (drawn : Drawn) (thread : Thread Double)
      → IsSane parent
      → IsDrawn drawn
      → AllSendable thread.spans
      → IsSendable (started_context parent drawn thread)
  unfolding started_context
  started_context-IsSendable parent drawn thread sane h spans =
      child_context-IsSendable (resolve_parent parent thread) drawn
        (resolve_parent-IsSane parent thread sane spans) h

module _ {Double : Type 0} (doubles : Doubles Double) where
  -- The handler of a request meets a `traceparent` header that reads as the context of the request's own
  -- span, this context continues the trace of a caller whose header is valid, and the contexts of the
  -- thread's spans stay fit to be sent, whatever header the request came with; the random device gives
  -- sixteen and eight bytes, and the spans that the thread has already have such contexts.
  pub do_filter-Forwards :
      (random_id : List ℕ) (drawn : Drawn) (now : ℕ) (request : HttpRequest)
      (thread : Thread Double)
      → IsDrawn drawn
      → AllSendable thread.spans
      → let result = do_filter doubles random_id drawn now request thread in
        let incoming = extract_traceparent (request.get_header (text "traceparent")) in
        let context = context_at result.thread.spans (some result.span) no_context in
        (get_elem? result.added_headers 1 ≡ some (text "traceparent", build_traceparent context))
        × (extract_traceparent (build_traceparent context) ≡ context)
        × (valid incoming ≡ true → context.trace_id ≡ incoming.trace_id)
        × AllSendable result.thread.spans
  unfolding do_filter traced start_span started_context
  do_filter-Forwards random_id drawn now request thread h spans =
      let incoming = extract_traceparent (request.get_header (text "traceparent")) in
      let sane = extract_traceparent-IsSendable (request.get_header (text "traceparent")) in
      let context = started_context incoming drawn thread in
      let sendable = started_context-IsSendable incoming drawn thread sane h spans in
      let span =
        new_span (request.method ++ (b' ' ∷ request.path)) context (resolve_parent incoming thread)
          (text "SERVER") (span_attributes doubles request) now in
      let here = context_at-last thread.spans span no_context in
      (
        refl,
        rw here (extract_traceparent-build_traceparent context sendable),
        λ e.
            ap (λ (c : SpanContext). c.trace_id) here
            ∙ child_context-trace_id (resolve_parent incoming thread) drawn
                (rw (resolve_parent-valid incoming thread e) e)
            ∙ ap (λ (c : SpanContext). c.trace_id) (resolve_parent-valid incoming thread e),
        AllSendable-append thread.spans span spans sendable,
      )
