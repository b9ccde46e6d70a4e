-- ===== src/Api/Middleware.antt =====
-- SuperAPI._server/src/middleware/request_id.cpp: what is done to a request before its handler runs. The
-- request of the web framework is a record of what the code asks it for; a header that is missing is
-- empty. The random identifier is drawn beforehand.
pub mod Trace
pub mod Label
use super_voice.Base.{
  ℕ, zero, suc, ◌+◌, ◌*◌, ◌-◌, ◌^◌, Bool, true, false, ◌&&◌, ◌||◌, Option, none, some, List, [],
  ◌∷◌, ◌++◌, ltb, leb, ◌==◌, if◌then◌else◌, length,
}
use super_voice.Base.Chars.{is_space, is_alnum, to_lower}
use super_voice.Base.Int.{ℤ, pos, negsuc}
use super_voice.Base.Map
use super_voice.Base.Map.{Map}
use super_voice.Base.Text.{text}
use super_voice.Api.Env.{is_empty}
use super_voice.Api.Tracing.{SpanContext, no_context, Drawn, extract_traceparent, build_traceparent}
use super_voice.Api.Tracing.Spans.{
  AttributeValue, string_value, int_value, Attributes, Thread, start_span, context_at,
}
use super_voice.Api.Metrics.{Doubles}
use super_voice.Api.Metrics.Observation.{Observation, start_request, add_tokens_in}

pub record HttpRequest : Type 0 where
  pub get_header : List ℕ → List ℕ
  pub parameters : Map (List ℕ)
  pub method : List ℕ
  pub path : List ℕ
  pub body_length : ℕ
  pub peer_ip : List ℕ
  pub peer_port : ℕ

abbrev pub label_char : ℕ → Bool
unfolding is_alnum
label_char c = is_alnum c || (c == b'_' || (c == b'-' || c == b'.'))

unfoldable pub sanitize_chars : List ℕ → List ℕ
unfolding is_alnum is_space to_lower
sanitize_chars [] = []
sanitize_chars (c ∷ cs) =
    let rest = sanitize_chars cs in
    if is_alnum c || (c == b'_' || (c == b'-' || c == b'.'))
    then to_lower c ∷ rest
    else if is_space c
    then b'_' ∷ rest
    else rest

unfoldable pub sanitize_label : List ℕ → List ℕ
unfolding sanitize_chars
sanitize_label value =
    if is_empty (sanitize_chars value) then text "unknown" else sanitize_chars value

unfoldable pub company_parameter : Option (List ℕ) → List ℕ
unfolding sanitize_label
company_parameter none = text "unknown"
company_parameter (some value) = if is_empty value then text "unknown" else sanitize_label value

-- `getHeader` of the names in turn, then the parameter.
unfoldable pub company_from : HttpRequest → List (List ℕ) → List ℕ
unfolding sanitize_label company_parameter
company_from request [] = company_parameter (Map.lookup (text "company") request.parameters)
company_from request (header ∷ headers) =
    let rest = company_from request headers in
    if is_empty (request.get_header header)
    then rest
    else sanitize_label (request.get_header header)

unfoldable pub resolve_company : HttpRequest → List ℕ
unfolding company_from
resolve_company request =
    company_from request (text "X-Company" ∷ text "X-Company-Id" ∷ text "X-Tenant" ∷ [])

unfoldable pub resolve_endpoint : HttpRequest → List ℕ
resolve_endpoint request = if is_empty request.path then text "unknown" else request.path

abbrev is_digit : ℕ → Bool
is_digit c = leb b'0' c && leb c b'9'

-- The number that the leading digits spell.
pub spelled : ℕ → List ℕ → ℕ
spelled value [] = value
spelled value (c ∷ cs) =
    let rest = spelled (value * 10 + (c - b'0')) cs in if is_digit c then rest else value

-- The digits of a number that fits into 64 bits.
pub stoull_digits : List ℕ → Option ℕ
unfolding spelled
stoull_digits [] = none
stoull_digits (c ∷ cs) =
    if is_digit c && ltb (spelled 0 (c ∷ cs)) (2 ^ 64) then some (spelled 0 (c ∷ cs)) else none

abbrev negated : Option ℕ → Option ℕ
negated none = none
negated (some n) = some (if n == 0 then 0 else 2 ^ 64 - n)

-- `std::stoull`, `none` where it throws.
pub stoull : List ℕ → Option ℕ
unfolding stoull_digits is_space
stoull [] = none
stoull (c ∷ cs) =
    let later = stoull cs in
    if is_space c
    then later
    else if c == b'+'
    then stoull_digits cs
    else if c == b'-'
    then negated (stoull_digits cs)
    else stoull_digits (c ∷ cs)

pub parse_unsigned : List ℕ → ℕ
unfolding stoull
parse_unsigned value = elim (stoull value) [ none ↦ 0 | some n ↦ n ]

-- What the log lines of the request show.
pub record LogContext : Type 0 where
  pub request_id : List ℕ
  pub company : List ℕ
  pub endpoint : List ℕ

-- A request on its way to the handler: the headers that are added to it, the attributes and the state.
pub record Filtered {Double : Type 0} (doubles : Doubles Double) : Type 0 where
  pub added_headers : List (List ℕ × List ℕ)
  pub tokens_attribute : Option ℕ
  pub metrics : Observation doubles
  pub span : ℕ
  pub log_context : LogContext
  pub thread : Thread Double

module _ {Double : Type 0} (doubles : Doubles Double) where
  abbrev pub header_or : HttpRequest → List ℕ → List ℕ → List ℕ
  header_or request name fallback =
      if is_empty (request.get_header name) then fallback else request.get_header name

  -- The tokens that the client says it sends; 0 is none.
  pub tokens_of : HttpRequest → ℕ
  unfolding parse_unsigned
  tokens_of request = parse_unsigned (request.get_header (text "X-Tokens-In"))

  abbrev peer_attributes : HttpRequest → Attributes Double
  peer_attributes request =
      if is_empty request.peer_ip
      then []
      else (text "net.peer.ip", string_value request.peer_ip)
        ∷ (text "net.peer.port", int_value (pos request.peer_port))
        ∷ []

  abbrev pub span_attributes : HttpRequest → Attributes Double
  unfolding resolve_company
  span_attributes request =
      (text "http.method", string_value request.method)
      ∷ (text "http.target", string_value request.path)
      ∷ (
        text "http.scheme",
        string_value (header_or request (text "X-Forwarded-Proto") (text "http")),
      )
      ∷ (text "http.host", string_value (request.get_header (text "Host")))
      ∷ (text "company", string_value (resolve_company request))
      ∷ (text "http.user_agent", string_value (request.get_header (text "User-Agent")))
      ∷ peer_attributes request

  -- The thread when the span of the request has started.
  unfoldable pub traced : Drawn → ℕ → HttpRequest → Thread Double → Thread Double
  unfolding start_span extract_traceparent
  traced drawn now request thread =
      start_span (request.method ++ (b' ' ∷ request.path))
        (extract_traceparent (request.get_header (text "traceparent"))) (span_attributes request)
        (text "SERVER") drawn now thread

  abbrev pub counted_tokens : ℕ → Observation doubles → Observation doubles
  unfolding add_tokens_in
  counted_tokens tokens observation =
      if tokens == 0 then observation else add_tokens_in doubles tokens observation

  -- `doFilter`, up to the call of the next filter.
  pub do_filter : List ℕ → Drawn → ℕ → HttpRequest → Thread Double → Filtered doubles
  unfolding resolve_company resolve_endpoint tokens_of traced start_request build_traceparent
  do_filter random_id drawn now request thread =
      let request_id = header_or request (text "X-Request-ID") random_id in
      let company = resolve_company request in
      let endpoint = resolve_endpoint request in
      let tokens = tokens_of request in
      let span = length thread.spans in
      let after = traced drawn now request thread in
      record {
        added_headers =
            (text "X-Request-ID", request_id)
            ∷ (
              text "traceparent",
              build_traceparent (context_at after.spans (some span) no_context),
            )
            ∷ [];
        tokens_attribute = if tokens == 0 then none else some tokens;
        metrics =
            counted_tokens tokens
              (start_request doubles company endpoint request.body_length 0 now);
        span = span;
        log_context = record { request_id = request_id; company = company; endpoint = endpoint };
        thread = after;
      }
