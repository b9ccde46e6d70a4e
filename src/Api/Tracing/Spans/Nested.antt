-- ===== src/Api/Tracing/Spans/Nested.antt =====
-- Starting a span and ending it.
use super_voice.Base.{
  ℕ, ◌<◌, ◌≡◌, Bool, true, Option, none, some, List, [], ◌∷◌, ◌++◌, if◌then◌else◌, length, All,
}
use super_voice.Api.Tracing.{SpanContext, valid}
use super_voice.Api.Tracing.Spans.{Thread, current_span}

-- The span of a search, or the one below.
abbrev or_here : Option ℕ → Bool → ℕ → Option ℕ
or_here none here span = if here then some span else none
or_here (some found) here span = some found

abbrev one_more : List Bool → List Bool
one_more owners = owners ++ (true ∷ [])

-- The handles of a thread name its spans.
pub record IsValid {Double : Type 0} (thread : Thread Double) : Type 0 where
  pub as_many : length thread.owners ≡ length thread.spans
  pub in_range : All (λ i. i < length thread.spans) thread.span_stack

module _ {Double : Type 0} where
  -- The stack that a start begins with.
  stack_before : SpanContext → Thread Double → List ℕ
  stack_before parent thread =
      if valid parent then thread.span_stack else (current_span thread.owners thread.span_stack).1
