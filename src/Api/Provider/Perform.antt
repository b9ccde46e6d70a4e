-- ===== src/Api/Provider/Perform.antt =====
-- The calls of `HttpProviderBase`: the circuit breaker, the attempts, and the nine operations. Other
-- threads may use the breaker while a call sends: `others` is what they make of it.
pub mod Attempts
pub mod Breaker
use super_voice.Base.{
  ℕ, zero, suc, ◌+◌, Bool, true, false, not, ◌&&◌, ◌||◌, Option, none, some, List, [], ◌∷◌, ◌++◌,
  ltb, leb, ◌==◌, if◌then◌else◌,
}
use super_voice.Base.Maybe.{◌>>=◌}
use super_voice.Base.Text.{text, to_string}
use super_voice.Api.Provider.{
  ProviderOperation, chat_op, embeddings_op, images_op, asr_op, tts_op, video_op, list_models_op,
  batches_op, job_status_op, AuthStrategy, ProviderConfig, RequestContext, Usage, ProviderError,
  Library, Response, is_empty, or_else, is_post_operation, compute_backoff, build_url,
  make_dry_run_error, make_auth_error, make_provider_error, make_circuit_open_error, build_headers,
  has_members, extract_request_id, parse_retry_after, extract_usage,
}

-- `open_until` is a time, and 0 the `time_point{}` that means closed.
pub record CircuitBreakerState : Type 0 where
  pub failures : ℕ
  pub open_until : ℕ

-- The check before the first attempt: whether the call goes on.
pub admit : ℕ → CircuitBreakerState → Bool × CircuitBreakerState
admit now b =
    if not (b.open_until == 0) && ltb now b.open_until
    then (false, b)
    else if not (b.open_until == 0) && leb b.open_until now
    then (true, record { failures = 0; open_until = 0 })
    else (true, b)

pub record_failure : ProviderConfig → ℕ → CircuitBreakerState → CircuitBreakerState
record_failure config now b =
    let failures = b.failures + 1 in
    if leb config.circuit_breaker_threshold failures
    then record { failures = failures; open_until = now + config.circuit_breaker_cooldown }
    else record b { failures = failures }

pub record_success : CircuitBreakerState → CircuitBreakerState
record_success b = record { failures = 0; open_until = 0 }

pub record ProviderResult (T Double : Type 0) : Type 0 where
  pub data_ : Option T
  pub error : Option (ProviderError Double)

pub record JsonOperationResult (Value : Type 0) : Type 0 where
  pub payload : Value
  pub usage : Usage
  pub provider_request_id : List ℕ

-- What goes over the wire.
pub record Request (Header : Type 0) : Type 0 where
  pub url : List ℕ
  pub header : Header
  pub body : Option (List ℕ)

-- What an attempt comes to: `again` if there is one left; `throws` is an exception that leaves the call.
pub data Verdict (Value Double : Type 0) : Type 0 where
  succeeded : JsonOperationResult Value → Verdict Value Double
  stops again : ProviderError Double → Verdict Value Double
  throws : Verdict Value Double

-- How the loop ends; `undefined` is a delay that cannot be computed, `thrown` an exception.
pub data Ending (Value Double : Type 0) : Type 0 where
  success : JsonOperationResult Value → Ending Value Double
  failure : ProviderError Double → Ending Value Double
  undefined : Ending Value Double
  thrown : Ending Value Double

pub record Sent (Value Header Double : Type 0) : Type 0 where
  pub requests : List (Request Header)
  pub delays : List ℕ
  pub ending : Ending Value Double

-- A provider: its configuration and what a subclass overrides.
pub record Provider (Value Header : Type 0) : Type 0 where
  pub config : ProviderConfig
  pub strategy : AuthStrategy
  pub transform_request : ProviderOperation → Value → Value
  pub transform_response : ProviderOperation → Value → Value
  pub augment_headers : Header → Header

-- What a call meets: the environment's variables, the time before and after the attempts, the answer
-- and the random number of each attempt, and the other threads.
pub record Surroundings (Header : Type 0) : Type 0 where
  pub get_env : List ℕ → Option (List ℕ)
  pub now : ℕ
  pub later : ℕ
  pub answers : ℕ → Response Header
  pub jitter : ℕ → ℕ
  pub others : CircuitBreakerState → CircuitBreakerState

-- `result` is none for a delay that cannot be computed and for an exception.
pub record Performed (Value Header Double : Type 0) : Type 0 where
  pub result : Option (ProviderResult (JsonOperationResult Value) Double)
  pub breaker : CircuitBreakerState
  pub requests : List (Request Header)
  pub delays : List ℕ

pub should_retry : {Header : Type 0} → Response Header → Bool
should_retry response = elim response.network_error [
  | some message ↦ true
  | none ↦
      response.status_code == 429 || (leb 500 response.status_code && ltb response.status_code 600)
]

module _ {Value Header Double : Type 0} (lib : Library Value Header Double)
    (self : Provider Value Header) where
  abbrev retried_if : Bool → ProviderError Double → Verdict Value Double
  retried_if retry error = if retry then again error else stops error

  -- A payload is a result once its usage is read.
  abbrev pub with_usage : Value → List ℕ → Option Usage → Verdict Value Double
  with_usage payload provider_id none = throws
  with_usage payload provider_id (some usage) =
      succeeded (record { payload = payload; usage = usage; provider_request_id = provider_id })

  -- The body of the loop up to the question whether to try again.
  pub verdict : RequestContext → Response Header → Verdict Value Double
  unfolding make_provider_error make_auth_error extract_request_id parse_retry_after extract_usage
      should_retry
  verdict context response =
      let provider_id = extract_request_id lib response in
      let id = or_else provider_id context.request_id in
      let retry_after = parse_retry_after lib response in
      elim response.network_error [
        | some message ↦
            retried_if (should_retry response)
              (make_provider_error lib self.config (text "network_error") message id retry_after)
        | none ↦
            if response.status_code == 401 || response.status_code == 403
            then stops
                (record (make_auth_error lib self.config (to_string response.status_code)
                  (or_else response.body (text "Authentication with upstream provider failed."))
                  context) { request_id = id })
            else if leb 200 response.status_code && ltb response.status_code 300
            then (elim (lib.parse_json response.body) [
              | none ↦ retried_if (should_retry response) (
                  make_provider_error lib self.config (text "invalid_json")
                    (or_else (lib.parse_errors response.body)
                      (text "Provider returned invalid JSON payload."))
                    id retry_after)
              | some payload ↦ with_usage payload provider_id (extract_usage lib payload)
            ])
            else retried_if (should_retry response) (
                make_provider_error lib self.config (to_string response.status_code)
                  (or_else response.body (text "Provider returned an error response.")) id
                  retry_after)
      ]

  pub make_request :
      Surroundings Header
      → ProviderOperation
      → Value
      → RequestContext
      → List ℕ
      → List ℕ
      → Request Header
  unfolding build_url build_headers is_post_operation
  make_request env operation payload context resource_id api_key = record {
    url = build_url self.config operation resource_id;
    header =
        self.augment_headers
          (build_headers lib env.get_env self.config self.strategy api_key context);
    body = if is_post_operation operation then some (lib.write_json payload) else none;
  }

  abbrev one_more : Request Header → ℕ → Sent Value Header Double → Sent Value Header Double
  one_more request delay rest = record rest {
    requests = request ∷ rest.requests;
    delays = delay ∷ rest.delays;
  }

  -- The loop at `attempt`, with `left` attempts after it.
  pub send_loop :
      Surroundings Header → RequestContext → Request Header → ℕ → ℕ → Sent Value Header Double
  unfolding verdict compute_backoff
  send_loop env context request zero attempt = elim (verdict context (env.answers attempt)) [
    | succeeded r ↦ record { requests = request ∷ []; delays = []; ending = success r }
    | stops e ↦ record { requests = request ∷ []; delays = []; ending = failure e }
    | again e ↦ record { requests = request ∷ []; delays = []; ending = failure e }
    | throws ↦ record { requests = request ∷ []; delays = []; ending = thrown }
  ]
  send_loop env context request (suc left) attempt = elim (verdict context (env.answers attempt)) [
    | succeeded r ↦ record { requests = request ∷ []; delays = []; ending = success r }
    | stops e ↦ record { requests = request ∷ []; delays = []; ending = failure e }
    | throws ↦ record { requests = request ∷ []; delays = []; ending = thrown }
    | again e ↦
        elim (compute_backoff self.config.base_backoff self.config.max_backoff attempt
          (env.jitter attempt)) [
            | none ↦ record { requests = request ∷ []; delays = []; ending = undefined }
            | some delay ↦ one_more request delay (send_loop env context request left (attempt + 1))
          ]
  ]

  -- The checks before the breaker: the API key, or the error.
  pub data Ready : Type 0 where
    refused : ProviderError Double → Ready
    ready : List ℕ → Ready

  abbrev key_or : ProviderError Double → Option (List ℕ) → Ready
  key_or e none = refused e
  key_or e (some key) = if is_empty key then refused e else ready key

  pub check_config : Surroundings Header → RequestContext → Ready
  unfolding make_dry_run_error make_provider_error make_auth_error
  check_config env context =
      let config = self.config in
      if config.dry_run
      then refused (make_dry_run_error lib config context)
      else if is_empty config.base_url
      then refused (
          make_provider_error lib config (text "missing_base_url")
            (text "Provider base URL is not configured. Please update providers.yaml.")
            context.request_id lib.zero_seconds)
      else if is_empty config.api_key_env
      then refused (
          make_provider_error lib config (text "missing_api_key_env")
            (text "Provider API key environment variable is not configured.") context.request_id
            lib.zero_seconds)
      else key_or
          (make_auth_error lib config (text "missing_api_key")
            (text "API key environment variable is empty or undefined.") context)
          (env.get_env config.api_key_env)

  abbrev pub fails_with : {T : Type 0} → ProviderError Double → ProviderResult T Double
  fails_with e = record { data_ = none; error = some e }

  -- The end of the call: its result, and the breaker as it leaves it.
  pub settle :
      Surroundings Header
      → CircuitBreakerState
      → Sent Value Header Double
      → Performed Value Header Double
  unfolding record_success record_failure
  settle env b sent = elim sent.ending [
    | success r ↦ record {
      result = some (record { data_ = some r; error = none });
      breaker = record_success b;
      requests = sent.requests;
      delays = sent.delays;
    }
    | failure e ↦ record {
      result = some (fails_with e);
      breaker = record_failure self.config env.later b;
      requests = sent.requests;
      delays = sent.delays;
    }
    | undefined ↦ record {
      result = none;
      breaker = b;
      requests = sent.requests;
      delays = sent.delays;
    }
    | thrown ↦ record { result = none; breaker = b; requests = sent.requests; delays = sent.delays }
  ]

  pub perform_http_request :
      Surroundings Header
      → ProviderOperation
      → Value
      → RequestContext
      → List ℕ
      → CircuitBreakerState
      → Performed Value Header Double
  unfolding check_config admit make_request send_loop settle make_circuit_open_error
  perform_http_request env operation payload context resource_id b =
      elim (check_config env context) [
        | refused e ↦ record {
          result = some (fails_with e);
          breaker = b;
          requests = [];
          delays = [];
        }
        | ready api_key ↦
            let (goes_on, admitted) = admit env.now b in
            if goes_on
            then settle env (env.others admitted) (
                send_loop env context
                  (make_request env operation payload context resource_id api_key)
                  self.config.max_retries 0)
            else record {
              result = some (fails_with (make_circuit_open_error lib self.config context));
              breaker = admitted;
              requests = [];
              delays = [];
            }
      ]

  abbrev has_object : Option Value → Bool
  has_object none = false
  has_object (some v) = lib.is_object v

  abbrev object_of : Option Value → Value
  object_of none = lib.empty_object
  object_of (some v) = if lib.is_object v then v else lib.empty_object

  -- `usage` where the payload has none, and a note in `metadata`. `none` is the exception of the first
  -- `isMember`: behind it the payload is an object.
  pub complete_payload : Usage → Value → Option Value
  complete_payload usage payload =
      let p =
        if has_object (lib.member (text "usage") payload)
        then payload
        else lib.put_member (text "usage") (lib.usage_json usage) payload in
      if not (has_members lib payload)
      then none
      else if is_empty usage.note
      then some p
      else some (
          lib.put_member (text "metadata")
            (lib.put_member (text "usage_note") (lib.string_value usage.note)
              (object_of (lib.member (text "metadata") p)))
            p)

  pub complete_result :
      ProviderOperation → JsonOperationResult Value → Option (JsonOperationResult Value)
  unfolding complete_payload extract_usage
  complete_result operation r = do
    let payload = self.transform_response operation r.payload
    usage ← extract_usage lib payload
    completed ← complete_payload usage payload
    some (record r { payload = completed; usage = usage })

  abbrev map_data :
      {S T : Type 0}
      → (S → Option T)
      → Option (ProviderResult S Double)
      → Option (ProviderResult T Double)
  map_data f none = none
  map_data f (some r) = elim r.data_ [
    | none ↦ some (record { data_ = none; error = r.error })
    | some s ↦ elim (f s) [
      | none ↦ none
      | some t ↦ some (record { data_ = some t; error = r.error })
    ]
  ]

  pub perform_json_operation :
      Surroundings Header
      → ProviderOperation
      → Value
      → RequestContext
      → List ℕ
      → CircuitBreakerState
      → Performed Value Header Double
  unfolding perform_http_request complete_result
  perform_json_operation env operation payload context resource_id b =
      let p =
        perform_http_request env operation (self.transform_request operation payload) context
          resource_id b in
      record p { result = map_data (complete_result operation) p.result }
