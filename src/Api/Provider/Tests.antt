-- ===== src/Api/Provider/Tests.antt =====
-- The theorems on the calls of a provider at concrete inputs.
use super_voice.Base.{
  ℕ, ◌-◌, ◌*◌, ◌≤◌, ◌≡◌, true, false, none, some, List, [], ◌∷◌, arith, length, ◌==◌, if◌then◌else◌,
}
use super_voice.Base.Chars.{lowered}
use super_voice.Base.Map
use super_voice.Base.Map.{Map, lookup-insert}
use super_voice.Base.Text.{text}
use super_voice.Api.Provider.{
  ProviderConfig, RequestContext, Library, chat_op, bearer_authorization, build_headers,
}
use super_voice.Api.Provider.Headers.{HeaderLaws, build_headers_auth}
use super_voice.Api.Provider.Perform.{
  CircuitBreakerState, Provider, Surroundings, perform_http_request, admit, record_failure,
  record_success,
}
use super_voice.Api.Provider.Perform.Attempts.{total, perform_http_request_bounds}
use super_voice.Api.Provider.Perform.Breaker.{
  IsValid, circuit_of, allow, fail, succeed, circuit_refines,
}

-- A header is a map from lowered names; a value of JSON and a `double` are numbers.
abbrev simple : Library ℕ (Map (List ℕ)) ℕ
simple = record {
  is_object = λ v. true;
  is_null = λ v. false;
  member = λ k v. some v;
  as_uint64 = λ v. some v;
  parse_json = λ t. some (length t);
  parse_errors = λ t. [];
  usage_json = λ u. 0;
  empty_object = 0;
  string_value = λ t. 0;
  write_json = λ v. text "{}";
  put_member = λ k v w. w;
  no_header = [];
  put_header = λ k v h. Map.insert (lowered k) v h;
  find_header = λ k h. Map.lookup (lowered k) h;
  entries = λ h. h;
  stod = λ t. none;
  zero_seconds = 0;
  seconds_of = λ n. n;
}

simple-HeaderLaws : HeaderLaws simple
simple-HeaderLaws = record { find-put = λ j k v h. lookup-insert (lowered j) (lowered k) v h }

abbrev config : ProviderConfig
config = record {
  name = text "openai";
  base_url = text "https://api.openai.com";
  api_key_env = text "OPENAI_API_KEY";
  organization_env = [];
  default_headers = (text "authorization", text "none") ∷ [];
  max_retries = 2;
  base_backoff = 100;
  max_backoff = 150;
  dry_run = false;
  circuit_breaker_threshold = 2;
  circuit_breaker_cooldown = 1000;
}

abbrev openai : Provider ℕ (Map (List ℕ))
openai = record {
  config = config;
  strategy = bearer_authorization;
  transform_request = λ op v. v;
  transform_response = λ op v. v;
  augment_headers = λ h. h;
}

-- The first answer is 503, the others are 200.
abbrev recovering : Surroundings (Map (List ℕ))
recovering = record {
  get_env = λ name. some (text "key");
  now = 10;
  later = 400;
  answers = λ i. record {
    network_error = none;
    status_code = if i == 0 then 503 else 200;
    body = text "{}";
    header = [];
  };
  jitter = λ i. 30;
  others = λ b. b;
}

abbrev context : RequestContext
context = record { request_id = text "r1"; vendor = [] }

abbrev one_failure : CircuitBreakerState
one_failure = record { failures = 1; open_until = 0 }

perform_http_request_bounds_example :
    let p = perform_http_request simple openai recovering chat_op 0 context [] one_failure in
    (length p.requests ≤ 3) × (length p.delays ≡ length p.requests - 1) × (total p.delays ≤ 2 * 150)
perform_http_request_bounds_example =
    perform_http_request_bounds simple openai recovering context chat_op 0 [] one_failure

one_failure-IsValid : IsValid config one_failure
one_failure-IsValid = record {
  closed_below = λ e. omega arith;
  open_above = λ h. absurd (omega (arith, h));
}

circuit_refines_example :
    (((admit 10 one_failure).0 ≡ (allow config 10 (circuit_of config one_failure)).0)
      × (circuit_of config (admit 10 one_failure).1
          ≡ (allow config 10 (circuit_of config one_failure)).1)
      × IsValid config (admit 10 one_failure).1)
    × ((circuit_of config (record_failure config 10 one_failure)
          ≡ fail config 10 (circuit_of config one_failure))
        × IsValid config (record_failure config 10 one_failure))
    × ((circuit_of config (record_success one_failure)
          ≡ succeed config (circuit_of config one_failure))
        × IsValid config (record_success one_failure))
circuit_refines_example =
    circuit_refines config 10 one_failure (omega arith) (omega arith) one_failure-IsValid

build_headers_auth_example :
    Map.lookup
      (lowered (text "Authorization"))
      (build_headers simple (λ name. none) config bearer_authorization (text "k") context)
    ≡ some (text "Bearer k")
build_headers_auth_example =
    build_headers_auth simple simple-HeaderLaws (λ name. none) config bearer_authorization
      (text "k") context tt
