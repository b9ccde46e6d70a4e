-- ===== src/Api/Tracing/Spans/Once.antt =====
-- What a thread sends to the collector.
use super_voice.Base.{ℕ, zero, suc, ◌+◌, ◌≡◌, Bool, false, ◌&&◌, List, [], ◌∷◌, ◌==◌, if◌then◌else◌}
use super_voice.Base.Int.{ℤ}
use super_voice.Api.Tracing.{SpanContext, Drawn}
use super_voice.Api.Tracing.Spans.{
  Attributes, AttributeValue, Span, Payload, Thread, start_span, end_span, drop_span, set_attribute,
  add_event, change_span, clear_current_span,
}

module _ {Double : Type 0} where
  -- How many payloads a span has sent.
  unfoldable pub reports : ℕ → List (ℕ × Payload Double) → ℕ
  reports name [] = 0
  reports name ((sender, payload) ∷ sent) = (if sender == name then 1 else 0) + reports name sent

  unfoldable pub ended_at : List (Span Double) → ℕ → Bool
  ended_at [] name = false
  ended_at (span ∷ spans) zero = span.ended
  ended_at (span ∷ spans) (suc name) = ended_at spans name

  -- The reports that a span owes: one when it has ended and the tracer is on.
  unfoldable pub SentOnce : Thread Double → Type 0
  SentOnce thread =
      (name : ℕ)
      → reports name thread.sent
        ≡ (if thread.tracer.enabled && ended_at thread.spans name then 1 else 0)

  -- What the program does with its spans.
  pub data Step : Thread Double → Thread Double → Type 0 where
    starts :
        {thread : Thread Double} (name kind : List ℕ) (parent : SpanContext)
        (attributes : Attributes Double) (drawn : Drawn) (now : ℕ)
        → Step thread (start_span name parent attributes kind drawn now thread)
    sets :
        {thread : Thread Double} (name : ℕ) (key : List ℕ) (value : AttributeValue Double)
        → Step thread (change_span name (set_attribute key value) thread)
    adds :
        {thread : Thread Double} (name : ℕ) (event : List ℕ) (attributes : Attributes Double)
        (now : ℕ)
        → Step thread (change_span name (add_event event attributes now) thread)
    ends :
        {thread : Thread Double} (name : ℕ) (status : ℤ) (message : List ℕ) (now : ℕ)
        → Step thread (end_span name status message now thread)
    drops : {thread : Thread Double} (name now : ℕ) → Step thread (drop_span name now thread)
    clears : {thread : Thread Double} → Step thread (clear_current_span thread)
