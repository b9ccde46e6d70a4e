-- ===== src/Api/Tracing.antt =====
-- SuperAPI._server/src/core/Tracing.cpp: identifiers, the `traceparent` header and the configuration.
-- The YAML document is read already: a field is `none` where the node is missing.
pub mod Resolve
pub mod Placeholder
pub mod Spans
pub mod Traceparent
use super_voice.Base.{
  ℕ, zero, suc, ◌+◌, ◌-◌, ◌/◌, ◌%◌, Bool, true, false, ◌&&◌, ◌||◌, not, Option, none, some, List,
  [], ◌∷◌, ◌++◌, ltb, leb, ◌==◌, if◌then◌else◌, length, set,
}
use super_voice.Base.Map
use super_voice.Base.Map.{Map}
use super_voice.Base.Text.{text, same}
use super_voice.Api.Env.{trim, split_at, last, drop_last, is_empty, get_env}

pub record SpanContext : Type 0 where
  pub trace_id : List ℕ
  pub span_id : List ℕ
  pub trace_flags : List ℕ

-- `SpanContext{}`
abbrev pub no_context : SpanContext
no_context = record { trace_id = []; span_id = []; trace_flags = text "01" }

unfoldable pub valid : SpanContext → Bool
valid context = not (is_empty context.trace_id) && not (is_empty context.span_id)

abbrev pub hex_digit : ℕ → ℕ
hex_digit n = if ltb n 10 then b'0' + n else b'a' + (n - 10)

-- `std::hex` with width 2, byte by byte.
unfoldable pub hex : List ℕ → List ℕ
hex [] = []
hex (b ∷ bytes) = hex_digit (b / 16) ∷ hex_digit (b % 16) ∷ hex bytes

abbrev pub all_zero : List ℕ → Bool
all_zero [] = true
all_zero (b ∷ bytes) = b == 0 && all_zero bytes

-- The identifier of the bytes that the random device gives.
unfoldable pub generate_id : List ℕ → List ℕ
unfolding hex
generate_id drawn = hex (if all_zero drawn then set drawn (length drawn - 1) 1 else drawn)

-- The bytes drawn for a trace and for a span.
pub record Drawn : Type 0 where
  pub for_trace : List ℕ
  pub for_span : List ℕ

unfoldable pub make_context : Drawn → SpanContext
unfolding generate_id
make_context drawn = record {
  trace_id = generate_id drawn.for_trace;
  span_id = generate_id drawn.for_span;
  trace_flags = text "01";
}

-- The first parts of the header, at most so many; what is behind the last of them is dropped.
unfoldable pub split_parts : ℕ → List ℕ → List (List ℕ)
unfolding split_at
split_parts zero header = []
split_parts (suc n) header = elim (split_at b'-' header) [
  | none ↦ header ∷ []
  | some (part, behind) ↦ part ∷ split_parts n behind
]

unfoldable pub context_of : List (List ℕ) → SpanContext
unfolding same
context_of (version ∷ trace ∷ span ∷ flags ∷ []) =
    if same version (text "00") && (length trace == 32 && length span == 16)
    then record { trace_id = trace; span_id = span; trace_flags = flags }
    else no_context
context_of _ = no_context

unfoldable pub extract_traceparent : List ℕ → SpanContext
unfolding split_parts context_of
extract_traceparent traceparent =
    if is_empty traceparent then no_context else context_of (split_parts 4 traceparent)

unfoldable pub build_traceparent : SpanContext → List ℕ
unfolding valid
build_traceparent context =
    if valid context
    then text "00-"
      ++ (context.trace_id ++ (b'-' ∷ (context.span_id ++ (b'-' ∷ context.trace_flags))))
    else []

-- The first place where the two bytes stand, or `none`.
unfoldable pub split_pair : ℕ → ℕ → List ℕ → Option (List ℕ × List ℕ)
split_pair a b [] = none
split_pair a b (c ∷ cs) =
    let later = split_pair a b cs in
    let here = c == a && starts_with b cs in
    if here
    then some ([], behind cs)
    else (elim later [ none ↦ none | some (before, rest) ↦ some (c ∷ before, rest) ])
  where
    starts_with : ℕ → List ℕ → Bool
    starts_with x [] = false
    starts_with x (y ∷ ys) = y == x

    behind : List ℕ → List ℕ
    behind [] = []
    behind (y ∷ ys) = ys

abbrev pub or_fallback : Option (List ℕ) → List ℕ → List ℕ
or_fallback none fallback = fallback
or_fallback (some value) fallback = if is_empty value then fallback else value

-- What stands for `${expr}`: the variable, or the fallback behind `:-` where it is not set or empty.
unfoldable pub replacement : Map (List ℕ) → List ℕ → List ℕ
unfolding split_pair get_env
replacement env expr = elim (split_pair b':' b'-' expr) [
  | none ↦ or_fallback (get_env env expr) []
  | some (key, fallback) ↦ or_fallback (get_env env key) fallback
]

-- The next `${expr}`: what is before it, `expr` and what is behind it.
unfoldable pub next_placeholder : List ℕ → Option (List ℕ × (List ℕ × List ℕ))
unfolding split_pair split_at
next_placeholder value = elim (split_pair b'$' b'{' value) [
  | none ↦ none
  | some (before, inner) ↦ elim (split_at b'}' inner) [
    | none ↦ none
    | some (expr, behind) ↦ some (before, (expr, behind))
  ]
]

abbrev pub put_before : List ℕ → Option (List ℕ) → Option (List ℕ)
put_before done none = none
put_before done (some rest) = some (done ++ rest)

-- The text from `pos` on, `none` when the fuel is used up.
unfoldable pub resolve_loop : ℕ → Map (List ℕ) → List ℕ → Option (List ℕ)
unfolding next_placeholder replacement
resolve_loop zero env value = none
resolve_loop (suc fuel) env value = elim (next_placeholder value) [
  | none ↦ some value
  | some (before, (expr, behind)) ↦
      put_before (before ++ replacement env expr) (resolve_loop fuel env behind)
]

unfoldable pub resolve_env : Map (List ℕ) → List ℕ → Option (List ℕ)
unfolding resolve_loop
resolve_env env value = resolve_loop (suc (length value)) env value

-- The items between the commas.
pub split_items : List ℕ → List (List ℕ)
split_items [] = [] ∷ []
split_items (c ∷ cs) =
    let items = split_items cs in
    if c == b','
    then [] ∷ items
    else (elim items [ [] ↦ (c ∷ []) ∷ [] | item ∷ rest ↦ (c ∷ item) ∷ rest ])

pub read_header : List ℕ → Map (List ℕ) → Map (List ℕ)
unfolding split_at trim
read_header item headers = elim (split_at b'=' item) [
  | none ↦ headers
  | some (key, value) ↦
      if not (is_empty (trim key)) && not (is_empty (trim value))
      then Map.insert (trim key) (trim value) headers
      else headers
]

pub read_headers : List (List ℕ) → Map (List ℕ) → Map (List ℕ)
unfolding read_header
read_headers [] headers = headers
read_headers (item ∷ items) headers = read_headers items (read_header item headers)

pub ends_with : List ℕ → List ℕ → Bool
unfolding same
ends_with suffix [] = same suffix []
ends_with suffix (c ∷ cs) = same suffix (c ∷ cs) || ends_with suffix cs

pub normalize_endpoint : List ℕ → List ℕ
unfolding trim last drop_last ends_with
normalize_endpoint endpoint =
    let trimmed = trim endpoint in
    let bare = if last trimmed == b'/' then drop_last trimmed else trimmed in
    if ends_with (text "/v1/traces") bare then bare else bare ++ text "/v1/traces"

pub record Service : Type 0 where
  pub name : Option (List ℕ)
  pub namespace : Option (List ℕ)
  pub version : Option (List ℕ)

pub record Otel : Type 0 where
  pub service : Option Service
  pub resources : Option (Option (List ℕ))
  pub endpoint : Option (List ℕ)
  pub headers : Option (List ℕ)

pub record Tracer : Type 0 where
  pub enabled : Bool
  pub endpoint : List ℕ
  pub headers : Map (List ℕ)
  pub service_name : List ℕ
  pub service_namespace : List ℕ
  pub service_version : List ℕ
  pub environment : List ℕ

abbrev get_or_empty : Option (List ℕ) → List ℕ → List ℕ
get_or_empty none fallback = fallback
get_or_empty (some value) _ = value

-- A text of the configuration with its variables filled in; empty where the node is missing.
abbrev resolved : Map (List ℕ) → Option (List ℕ) → List ℕ
resolved env none = []
resolved env (some value) = get_or_empty (resolve_env env value) []

abbrev name_service : Option Service → Tracer → Tracer
name_service none tracer = tracer
name_service (some service) tracer = record tracer {
  service_name = get_or_empty service.name (text "superapi");
  service_namespace = get_or_empty service.namespace [];
  service_version = get_or_empty service.version [];
}

abbrev name_environment : Option (Option (List ℕ)) → Tracer → Tracer
name_environment none tracer = tracer
name_environment (some environment) tracer = record tracer {
  environment = get_or_empty environment [];
}

pub configure : Map (List ℕ) → Option Otel → Tracer → Tracer
unfolding split_items read_headers normalize_endpoint resolve_env
configure env none tracer = record tracer { enabled = false; endpoint = []; headers = [] }
configure env (some otel) tracer =
    let reset = record tracer { enabled = false; endpoint = []; headers = [] } in
    let named = name_environment otel.resources (name_service otel.service reset) in
    let filled = record named {
      headers = read_headers (split_items (resolved env otel.headers)) [];
    } in
    let endpoint = resolved env otel.endpoint in
    if is_empty endpoint
    then filled
    else record filled { endpoint = normalize_endpoint endpoint; enabled = true }

unfoldable pub shutdown : Tracer → Tracer
shutdown tracer = record tracer { enabled = false; endpoint = []; headers = [] }
