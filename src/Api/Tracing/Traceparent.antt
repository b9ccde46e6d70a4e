-- ===== src/Api/Tracing/Traceparent.antt =====
-- The `traceparent` header carries a context.
use super_voice.Base.{
  ℕ, zero, suc, ◌*◌, ◌/◌, ◌%◌, ◌<◌, ◌≡◌, ◌≢◌, refl, inl, inr, Bool, true, false, ◌&&◌, List, [],
  ◌∷◌, ◌++◌, arith, length, set, length-set, ◌-◌, ◌==◌, ==→eq, if◌then◌else◌, All, some, none,
  Option, Bool-cases,
}
use super_voice.Base.Text.{text, same}
use super_voice.Api.Env.{split_at, is_empty}
use super_voice.Api.Tracing.{
  SpanContext, all_zero, no_context, valid, hex, hex_digit, generate_id, Drawn, make_context,
  split_parts, context_of, extract_traceparent, build_traceparent,
}

-- No byte is the separator of the header.
abbrev pub NoDash : List ℕ → Type 0
NoDash = All (λ c. c ≢ b'-')

-- A context that fits into a header.
pub record IsSendable (context : SpanContext) : Type 0 where
  pub trace_length : length context.trace_id ≡ 32
  pub span_length : length context.span_id ≡ 16
  pub trace_clean : NoDash context.trace_id
  pub span_clean : NoDash context.span_id
  pub flags_clean : NoDash context.trace_flags

split_at-clean : (xs ys : List ℕ) → NoDash xs → split_at b'-' (xs ++ (b'-' ∷ ys)) ≡ some (xs, ys)
unfolding split_at
split_at-clean [] ys h = ground arith
split_at-clean (x ∷ xs) ys h = ground (arith, h.0, split_at-clean xs ys h.1)

split_at-none : (xs : List ℕ) → NoDash xs → split_at b'-' xs ≡ none
unfolding split_at
split_at-none [] h = refl
split_at-none (x ∷ xs) h = ground (arith, h.0, split_at-none xs h.1)

split_parts-joined :
    (trace span flags : List ℕ)
    → NoDash trace
    → NoDash span
    → NoDash flags
    → split_parts 4 (text "00-" ++ (trace ++ (b'-' ∷ (span ++ (b'-' ∷ flags)))))
      ≡ text "00" ∷ trace ∷ span ∷ flags ∷ []
unfolding split_parts split_at
split_parts-joined trace span flags t s f =
    rw
      (
        split_at-clean trace (span ++ (b'-' ∷ flags)) t,
        split_at-clean span flags s,
        split_at-none flags f,
      )
      refl

some_bytes : (xs : List ℕ) (n : ℕ) → length xs ≡ suc n → is_empty xs ≡ false
some_bytes [] n h = ground (arith, h)
some_bytes (x ∷ xs) n h = refl

IsSendable-valid : (context : SpanContext) → IsSendable context → valid context ≡ true
unfolding valid
IsSendable-valid context h =
    rw (some_bytes context.trace_id 31 h.trace_length, some_bytes context.span_id 15 h.span_length)
      refl

-- A context whose identifiers have the lengths of the standard and no `-` anywhere is read back from
-- the header that it is written to.
pub extract_traceparent-build_traceparent :
    (context : SpanContext)
    → IsSendable context
    → extract_traceparent (build_traceparent context) ≡ context
unfolding extract_traceparent build_traceparent context_of same
extract_traceparent-build_traceparent context h =
    rw
      (
        IsSendable-valid context h,
        split_parts-joined context.trace_id context.span_id context.trace_flags h.trace_clean
            h.span_clean h.flags_clean,
        h.trace_length,
        h.span_length,
      )
      refl

-- What a search for a separator gives is free of it up to there.
CleanUpTo : List ℕ → Option (List ℕ × List ℕ) → Type 0
CleanUpTo whole none = NoDash whole
CleanUpTo whole (some (part, behind)) = NoDash part

split_at-CleanUpTo : (xs : List ℕ) → CleanUpTo xs (split_at b'-' xs)
unfolding split_at CleanUpTo
split_at-CleanUpTo [] = tt
split_at-CleanUpTo (x ∷ xs) = elim (Bool-cases (x == b'-')) [
  | inl e ↦ rw e tt
  | inr e ↦ rw e (later (split_at b'-' xs) (split_at-CleanUpTo xs) (ground (arith, e)))
]
  where
    later :
        (found : Option (List ℕ × List ℕ))
        → CleanUpTo xs found
        → x ≢ b'-'
        → CleanUpTo
            (x ∷ xs)
            (elim found [ none ↦ none | some (before, behind) ↦ some (x ∷ before, behind) ])
    later none h e = (e, h)
    later (some (before, behind)) h e = (e, h)

hex_digit-clean : (n : ℕ) → n < 16 → hex_digit n ≢ b'-'
hex_digit-clean n h = ground arith

hex-clean : (bytes : List ℕ) → All (λ b. b < 256) bytes → NoDash (hex bytes)
unfolding hex
hex-clean [] h = tt
hex-clean (b ∷ bytes) h = (
  hex_digit-clean (b / 16) (omega (arith, h.0)),
  (hex_digit-clean (b % 16) (omega arith), hex-clean bytes h.1),
)

length-hex : (bytes : List ℕ) → length (hex bytes) ≡ 2 * length bytes
unfolding hex
length-hex [] = refl
length-hex (b ∷ bytes) = omega (arith, length-hex bytes)

All-set : (P : ℕ → Type 0) (xs : List ℕ) (i v : ℕ) → All P xs → P v → All P (set xs i v)
All-set P [] i v h p = tt
All-set P (x ∷ xs) zero v h p = (p, h.1)
All-set P (x ∷ xs) (suc i) v h p = (h.0, All-set P xs i v h.1 p)

pub generate_id-clean : (drawn : List ℕ) → All (λ b. b < 256) drawn → NoDash (generate_id drawn)
unfolding generate_id
generate_id-clean drawn h = elim (Bool-cases (all_zero drawn)) [
  | inl e ↦ rw e (
      hex-clean (set drawn (length drawn - 1) 1)
        (All-set (λ b. b < 256) drawn (length drawn - 1) 1 h (omega arith)))
  | inr e ↦ rw e (hex-clean drawn h)
]

pub length-generate_id : (drawn : List ℕ) → length (generate_id drawn) ≡ 2 * length drawn
unfolding generate_id
length-generate_id drawn = elim (Bool-cases (all_zero drawn)) [
  | inl e ↦
      rw (e, length-hex (set drawn (length drawn - 1) 1), length-set drawn (length drawn - 1) 1)
        refl
  | inr e ↦ rw e (length-hex drawn)
]

-- What the random device gives for a context: bytes, sixteen and eight of them.
pub record IsDrawn (drawn : Drawn) : Type 0 where
  pub trace_bytes : All (λ b. b < 256) drawn.for_trace
  pub span_bytes : All (λ b. b < 256) drawn.for_span
  pub sixteen : length drawn.for_trace ≡ 16
  pub eight : length drawn.for_span ≡ 8

pub make_context-IsSendable : (drawn : Drawn) → IsDrawn drawn → IsSendable (make_context drawn)
unfolding make_context
make_context-IsSendable drawn h = record {
  trace_length = omega (arith, length-generate_id drawn.for_trace, h.sixteen);
  span_length = omega (arith, length-generate_id drawn.for_span, h.eight);
  trace_clean = generate_id-clean drawn.for_trace h.trace_bytes;
  span_clean = generate_id-clean drawn.for_span h.span_bytes;
  flags_clean = (omega arith, (omega arith, tt));
}

abbrev AllClean : List (List ℕ) → Type 0
AllClean = All NoDash

split_parts-clean : (n : ℕ) (header : List ℕ) → AllClean (split_parts n header)
unfolding split_parts CleanUpTo
split_parts-clean zero header = tt
split_parts-clean (suc n) header =
    cases (split_at b'-' header) (split_at-CleanUpTo header) (split_parts-clean n)
  where
    cases :
        (found : Option (List ℕ × List ℕ))
        → CleanUpTo header found
        → ((rest : List ℕ) → AllClean (split_parts n rest))
        → AllClean
            (elim found [ none ↦ header ∷ [] | some (part, behind) ↦ part ∷ split_parts n behind ])
    cases none h ih = (h, tt)
    cases (some (part, behind)) h ih = (h, ih behind)

invalid : (context : SpanContext) → valid no_context ≡ true → IsSendable context
unfolding valid
invalid context h = absurd (impossible h)
  where
    impossible : false ≡ true → ⊥
    impossible e = cc

abbrev fitting : List ℕ → List ℕ → List ℕ → Bool → SpanContext
fitting t s f fits =
    if fits then record { trace_id = t; span_id = s; trace_flags = f } else no_context

context_of-IsSendable :
    (parts : List (List ℕ))
    → AllClean parts
    → valid (context_of parts) ≡ true
    → IsSendable (context_of parts)
unfolding context_of
context_of-IsSendable [] h ok = invalid no_context ok
context_of-IsSendable (v ∷ []) h ok = invalid no_context ok
context_of-IsSendable (v ∷ t ∷ []) h ok = invalid no_context ok
context_of-IsSendable (v ∷ t ∷ s ∷ []) h ok = invalid no_context ok
context_of-IsSendable (v ∷ t ∷ s ∷ f ∷ g ∷ rest) h ok = invalid no_context ok
context_of-IsSendable (v ∷ t ∷ s ∷ f ∷ []) h ok =
    cases (same v (text "00")) (length t == 32) (length s == 16) refl refl ok
  where
    cases :
        (a b c : Bool)
        → (length t == 32) ≡ b
        → (length s == 16) ≡ c
        → valid (fitting t s f (a && (b && c))) ≡ true
        → IsSendable (fitting t s f (a && (b && c)))
    cases false b c e e' ok = invalid no_context ok
    cases true false c e e' ok = invalid no_context ok
    cases true true false e e' ok = invalid no_context ok
    cases true true true e e' ok = record {
      trace_length = ==→eq (length t) 32 e;
      span_length = ==→eq (length s) 16 e';
      trace_clean = h.1.0;
      span_clean = h.1.1.0;
      flags_clean = h.1.1.1.0;
    }

-- Whatever the header holds, a context read from it that is valid has identifiers of the lengths of the
-- standard and no `-` in its parts, so that it can be sent on.
pub extract_traceparent-IsSendable :
    (traceparent : List ℕ)
    → valid (extract_traceparent traceparent) ≡ true
    → IsSendable (extract_traceparent traceparent)
unfolding extract_traceparent
extract_traceparent-IsSendable [] ok = invalid no_context ok
extract_traceparent-IsSendable (c ∷ cs) ok =
    context_of-IsSendable (split_parts 4 (c ∷ cs)) (split_parts-clean 4 (c ∷ cs)) ok
