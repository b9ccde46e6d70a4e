-- ===== src/Api/Provider.antt =====
-- `class HttpProviderBase` of SuperAPI._server/src/providers/HttpProviderBase.cpp: what it decides and
-- puts together for a call of an upstream provider. JSON values, headers and floating numbers belong
-- to libraries: their types and operations are the argument `lib`. Durations are milliseconds.
pub mod Perform
pub mod Operations
pub mod Headers
mod Tests
use super_voice.Base.{
  ℕ, ◌+◌, ◌*◌, ◌^◌, min, Bool, true, false, not, ◌&&◌, ◌||◌, Option, none, some, List, [], ◌∷◌,
  ◌++◌, ltb, leb, ◌==◌, if◌then◌else◌,
}
use super_voice.Base.Chars.{lowered}
use super_voice.Base.Maybe.{◌>>=◌}
use super_voice.Base.Text.{text, same}
use super_voice.Base.Word.{u64}

pub data ProviderOperation : Type 0 where
  chat_op embeddings_op images_op asr_op tts_op video_op list_models_op batches_op job_status_op :
      ProviderOperation

pub data AuthStrategy : Type 0 where
  bearer_authorization x_api_key x_goog_api_key no_auth : AuthStrategy

pub record ProviderConfig : Type 0 where
  pub name : List ℕ
  pub base_url : List ℕ
  pub api_key_env : List ℕ
  pub organization_env : List ℕ
  pub default_headers : List (List ℕ × List ℕ)
  pub max_retries : ℕ
  pub base_backoff : ℕ
  pub max_backoff : ℕ
  pub dry_run : Bool
  pub circuit_breaker_threshold : ℕ
  pub circuit_breaker_cooldown : ℕ

pub record RequestContext : Type 0 where
  pub request_id : List ℕ
  pub vendor : List ℕ

pub record Usage : Type 0 where
  pub prompt_tokens : ℕ
  pub completion_tokens : ℕ
  pub total_tokens : ℕ
  pub audio_tokens : ℕ
  pub cached_tokens : ℕ
  pub note : List ℕ

pub record ProviderError (Double : Type 0) : Type 0 where
  pub kind : List ℕ
  pub message : List ℕ
  pub provider : List ℕ
  pub code : List ℕ
  pub request_id : List ℕ
  pub retry_after : Double

-- What the code calls of jsoncpp, of cpr's headers and of floating numbers. `member` is none where
-- `isMember` is false, and asked only of an object or null; `as_uint64` is none where `asUInt64` throws.
pub record Library (Value Header Double : Type 0) : Type 0 where
  pub is_object : Value → Bool
  pub is_null : Value → Bool
  pub member : List ℕ → Value → Option Value
  pub as_uint64 : Value → Option ℕ
  pub parse_json : List ℕ → Option Value
  pub parse_errors : List ℕ → List ℕ
  pub usage_json : Usage → Value
  pub empty_object : Value
  pub string_value : List ℕ → Value
  pub write_json : Value → List ℕ
  pub put_member : List ℕ → Value → Value → Value
  pub no_header : Header
  pub put_header : List ℕ → List ℕ → Header → Header
  pub find_header : List ℕ → Header → Option (List ℕ)
  pub entries : Header → List (List ℕ × List ℕ)
  pub stod : List ℕ → Option Double
  pub zero_seconds : Double
  pub seconds_of : ℕ → Double

-- `cpr::Response`; `network_error` is the message of an error code that is not OK.
pub record Response (Header : Type 0) : Type 0 where
  pub network_error : Option (List ℕ)
  pub status_code : ℕ
  pub body : List ℕ
  pub header : Header

abbrev pub is_empty : List ℕ → Bool
is_empty [] = true
is_empty (c ∷ cs) = false

abbrev pub or_else : List ℕ → List ℕ → List ℕ
or_else value fallback = if is_empty value then fallback else value

pub is_post_operation : ProviderOperation → Bool
is_post_operation list_models_op = false
is_post_operation job_status_op = false
is_post_operation chat_op = true
is_post_operation embeddings_op = true
is_post_operation images_op = true
is_post_operation asr_op = true
is_post_operation tts_op = true
is_post_operation video_op = true
is_post_operation batches_op = true

-- `none` is a shift or a product that does not fit 64 bits with a sign, or a base that does not fit the
-- `int` that it is cast to for the random range: these have no meaning for the caller.
-- `jitter` is the random number.
pub compute_backoff : ℕ → ℕ → ℕ → ℕ → Option ℕ
compute_backoff base max attempt jitter =
    if leb 63 attempt || leb (2 ^ 63) (base * 2 ^ attempt) || leb (2 ^ 31) base
    then none
    else (let total = min max (base * 2 ^ attempt) + jitter in
        some (if ltb max total then max else total))

pub resolve_path : ProviderOperation → List ℕ → List ℕ
resolve_path chat_op id = text "chat/completions"
resolve_path embeddings_op id = text "embeddings"
resolve_path images_op id = text "images/generations"
resolve_path asr_op id = text "audio/transcriptions"
resolve_path tts_op id = text "audio/speech"
resolve_path video_op id = text "video/generations"
resolve_path list_models_op id = text "models"
resolve_path batches_op id = text "batches"
resolve_path job_status_op id = text "jobs/" ++ id

-- `if (base.back() == '/') base.pop_back()`: one slash at most.
pub drop_slash : List ℕ → List ℕ
drop_slash [] = []
drop_slash (c ∷ cs) = elim cs [ [] ↦ if c == b'/' then [] else c ∷ [] | d ∷ ds ↦ c ∷ drop_slash cs ]

pub starts_with_slash : List ℕ → Bool
starts_with_slash [] = false
starts_with_slash (c ∷ cs) = c == b'/'

pub build_url : ProviderConfig → ProviderOperation → List ℕ → List ℕ
unfolding drop_slash starts_with_slash resolve_path
build_url config operation resource_id =
    let path = resolve_path operation resource_id in
    let base = drop_slash config.base_url in
    if not (is_empty path) && not (starts_with_slash path)
    then base ++ (b'/' ∷ path)
    else base ++ path

module _ {Value Header Double : Type 0} (lib : Library Value Header Double) where
  pub make_dry_run_error : ProviderConfig → RequestContext → ProviderError Double
  make_dry_run_error config context = record {
    kind = text "dry_run";
    message = text "DRY_RUN is enabled; upstream call skipped.";
    provider = config.name;
    code = text "dry_run";
    request_id = context.request_id;
    retry_after = lib.zero_seconds;
  }

  pub make_auth_error : ProviderConfig → List ℕ → List ℕ → RequestContext → ProviderError Double
  make_auth_error config code message context = record {
    kind = text "auth_error";
    message = message;
    provider = config.name;
    code = code;
    request_id = context.request_id;
    retry_after = lib.zero_seconds;
  }

  pub make_provider_error :
      ProviderConfig → List ℕ → List ℕ → List ℕ → Double → ProviderError Double
  make_provider_error config code message request_id retry_after = record {
    kind = text "provider_error";
    message = message;
    provider = config.name;
    code = code;
    request_id = request_id;
    retry_after = retry_after;
  }

  pub make_circuit_open_error : ProviderConfig → RequestContext → ProviderError Double
  unfolding make_provider_error
  make_circuit_open_error config context =
      make_provider_error config (text "circuit_open")
        (text "Provider circuit breaker open after repeated failures.") context.request_id
        (lib.seconds_of config.circuit_breaker_cooldown)

  -- `header[key] = value` for each of the default headers.
  pub put_headers : List (List ℕ × List ℕ) → Header → Header
  put_headers [] header = header
  put_headers ((k, v) ∷ rest) header = put_headers rest (lib.put_header k v header)

  pub put_auth : AuthStrategy → List ℕ → Header → Header
  put_auth bearer_authorization key header =
      lib.put_header (text "Authorization") (text "Bearer " ++ key) header
  put_auth x_api_key key header = lib.put_header (text "x-api-key") key header
  put_auth x_goog_api_key key header = lib.put_header (text "x-goog-api-key") key header
  put_auth no_auth key header = header

  -- The environment variable, if it is set and not empty.
  pub put_organization : Option (List ℕ) → Header → Header
  put_organization none header = header
  put_organization (some organization) header =
      if is_empty organization
      then header
      else lib.put_header (text "OpenAI-Organization") organization header

  pub build_headers :
      (List ℕ → Option (List ℕ)) → ProviderConfig → AuthStrategy → List ℕ → RequestContext → Header
  unfolding put_headers put_auth put_organization
  build_headers get_env config strategy api_key context =
      let h = lib.put_header (text "Content-Type") (text "application/json") lib.no_header in
      let h = lib.put_header (text "Accept") (text "application/json") h in
      let h = lib.put_header (text "User-Agent") (text "superapi_server/0.1.0") h in
      let h =
        if is_empty context.request_id
        then h
        else lib.put_header (text "X-Request-ID") context.request_id h in
      let h = put_auth strategy api_key (put_headers config.default_headers h) in
      if is_empty config.organization_env
      then h
      else put_organization (get_env config.organization_env) h

  -- The first entry whose name is `name` in lower case.
  pub find_lowered : List ℕ → List (List ℕ × List ℕ) → List ℕ
  find_lowered name [] = []
  find_lowered name ((k, v) ∷ rest) = if same (lowered k) name then v else find_lowered name rest

  pub first_of : List (List ℕ) → Header → Option (List ℕ)
  first_of [] header = none
  first_of (name ∷ names) header = elim (lib.find_header name header) [
    | none ↦ first_of names header
    | some v ↦ some v
  ]

  pub extract_request_id : Response Header → List ℕ
  unfolding find_lowered first_of
  extract_request_id response =
      elim (first_of (text "x-request-id" ∷ text "x-requestid" ∷ text "request-id" ∷ [])
        response.header) [
          | none ↦ find_lowered (text "x-request-id") (lib.entries response.header)
          | some v ↦ v
        ]

  -- An entry whose text is no number is passed over.
  pub retry_after_in : List (List ℕ × List ℕ) → Double
  retry_after_in [] = lib.zero_seconds
  retry_after_in ((k, v) ∷ rest) =
      if same (lowered k) (text "retry-after")
      then (elim (lib.stod v) [ none ↦ retry_after_in rest | some seconds ↦ seconds ])
      else retry_after_in rest

  abbrev stod_of : Option (List ℕ) → Option Double
  stod_of none = none
  stod_of (some v) = lib.stod v

  pub parse_retry_after : Response Header → Double
  unfolding retry_after_in
  parse_retry_after response =
      elim (stod_of (lib.find_header (text "Retry-After") response.header)) [
        | none ↦ retry_after_in (lib.entries response.header)
        | some seconds ↦ seconds
      ]

  abbrev no_usage : Usage
  no_usage = record {
    prompt_tokens = 0;
    completion_tokens = 0;
    total_tokens = 0;
    audio_tokens = 0;
    cached_tokens = 0;
    note = [];
  }

  -- `isMember` throws `Json::LogicError` for a value that is no object and not null.
  abbrev pub has_members : Value → Bool
  has_members v = lib.is_object v || lib.is_null v

  -- The number, or the fallback without a member; none is the exception of `asUInt64`.
  abbrev number_or : ℕ → Option Value → Option ℕ
  number_or fallback none = some fallback
  number_or fallback (some v) = lib.as_uint64 v

  -- `none` is a `Json::LogicError`, which nothing here catches.
  pub usage_of : Value → Option Usage
  usage_of raw = if not (has_members raw) then none else (do
    prompt ← number_or 0 (lib.member (text "prompt_tokens") raw)
    completion ← number_or 0 (lib.member (text "completion_tokens") raw)
    total ← number_or (u64 (prompt + completion)) (lib.member (text "total_tokens") raw)
    audio ← number_or 0 (lib.member (text "audio_tokens") raw)
    cached ← number_or 0 (lib.member (text "cached_tokens") raw)
    some (record {
      prompt_tokens = prompt;
      completion_tokens = completion;
      total_tokens = total;
      audio_tokens = audio;
      cached_tokens = cached;
      note = [];
    }))

  pub extract_usage : Value → Option Usage
  unfolding usage_of
  extract_usage payload =
      let missing : Usage = record no_usage { note = text "provider_did_not_return_usage" } in
      if not (lib.is_object payload)
      then some missing
      else (elim (lib.member (text "usage") payload) [
        | none ↦ some missing
        | some raw ↦ usage_of raw
      ])
