-- ===== src/Api/Provider/Operations.antt =====
-- The nine operations of `IProvider` as `HttpProviderBase` implements them, and their responses.
use super_voice.Base.{ℕ, Option, none, some, List, []}
use super_voice.Api.Provider.{
  chat_op, embeddings_op, images_op, asr_op, tts_op, video_op, list_models_op, batches_op,
  job_status_op, RequestContext, Usage, Library,
}
use super_voice.Api.Provider.Perform.{
  CircuitBreakerState, ProviderResult, JsonOperationResult, Provider, Surroundings, Performed,
  perform_json_operation,
}

pub record ChatResponse (Value : Type 0) : Type 0 where
  pub payload : Value
  pub usage : Usage
  pub provider_request_id : List ℕ

pub record EmbeddingsResponse (Value : Type 0) : Type 0 where
  pub payload : Value
  pub usage : Usage
  pub provider_request_id : List ℕ

pub record ImageResponse (Value : Type 0) : Type 0 where
  pub payload : Value
  pub provider_request_id : List ℕ

pub record AsrResponse (Value : Type 0) : Type 0 where
  pub payload : Value
  pub usage : Usage
  pub provider_request_id : List ℕ

pub record TtsResponse (Value : Type 0) : Type 0 where
  pub payload : Value
  pub usage : Usage
  pub provider_request_id : List ℕ

pub record VideoResponse (Value : Type 0) : Type 0 where
  pub payload : Value
  pub usage : Usage
  pub provider_request_id : List ℕ

pub record ListModelsResponse (Value : Type 0) : Type 0 where
  pub payload : Value
  pub provider_request_id : List ℕ

pub record BatchesResponse (Value : Type 0) : Type 0 where
  pub payload : Value
  pub provider_request_id : List ℕ

pub record JobStatusResponse (Value : Type 0) : Type 0 where
  pub payload : Value
  pub provider_request_id : List ℕ

module _ {Value Header Double : Type 0} (lib : Library Value Header Double)
    (self : Provider Value Header) where
  -- The result of an operation and the breaker behind it; `none` is a call without a meaning, or one
  -- that an exception leaves.
  abbrev pub Answer : Type 0 → Type 0
  Answer R = Option (ProviderResult R Double) × CircuitBreakerState

  -- `if (!operation.ok())` keeps the error alone.
  abbrev answer_with :
      {R : Type 0} → (JsonOperationResult Value → R) → Performed Value Header Double → Answer R
  answer_with f p = (
    elim p.result [
      | none ↦ none
      | some r ↦ elim r.data_ [
        | none ↦ some (record { data_ = none; error = r.error })
        | some d ↦ some (record { data_ = some (f d); error = none })
      ]
    ],
    p.breaker,
  )

  pub chat :
      Surroundings Header
      → Value
      → RequestContext
      → CircuitBreakerState
      → Answer (ChatResponse Value)
  chat env payload context b =
      answer_with
        (λ d. record {
          payload = d.payload;
          usage = d.usage;
          provider_request_id = d.provider_request_id;
        })
        (perform_json_operation lib self env chat_op payload context [] b)

  pub embeddings :
      Surroundings Header
      → Value
      → RequestContext
      → CircuitBreakerState
      → Answer (EmbeddingsResponse Value)
  embeddings env payload context b =
      answer_with
        (λ d. record {
          payload = d.payload;
          usage = d.usage;
          provider_request_id = d.provider_request_id;
        })
        (perform_json_operation lib self env embeddings_op payload context [] b)

  pub images :
      Surroundings Header
      → Value
      → RequestContext
      → CircuitBreakerState
      → Answer (ImageResponse Value)
  images env payload context b =
      answer_with (λ d. record { payload = d.payload; provider_request_id = d.provider_request_id })
        (perform_json_operation lib self env images_op payload context [] b)

  pub asr :
      Surroundings Header
      → Value
      → RequestContext
      → CircuitBreakerState
      → Answer (AsrResponse Value)
  asr env payload context b =
      answer_with
        (λ d. record {
          payload = d.payload;
          usage = d.usage;
          provider_request_id = d.provider_request_id;
        })
        (perform_json_operation lib self env asr_op payload context [] b)

  pub tts :
      Surroundings Header
      → Value
      → RequestContext
      → CircuitBreakerState
      → Answer (TtsResponse Value)
  tts env payload context b =
      answer_with
        (λ d. record {
          payload = d.payload;
          usage = d.usage;
          provider_request_id = d.provider_request_id;
        })
        (perform_json_operation lib self env tts_op payload context [] b)

  pub video :
      Surroundings Header
      → Value
      → RequestContext
      → CircuitBreakerState
      → Answer (VideoResponse Value)
  video env payload context b =
      answer_with
        (λ d. record {
          payload = d.payload;
          usage = d.usage;
          provider_request_id = d.provider_request_id;
        })
        (perform_json_operation lib self env video_op payload context [] b)

  pub list_models :
      Surroundings Header
      → Value
      → RequestContext
      → CircuitBreakerState
      → Answer (ListModelsResponse Value)
  list_models env payload context b =
      answer_with (λ d. record { payload = d.payload; provider_request_id = d.provider_request_id })
        (perform_json_operation lib self env list_models_op payload context [] b)

  pub batches :
      Surroundings Header
      → Value
      → RequestContext
      → CircuitBreakerState
      → Answer (BatchesResponse Value)
  batches env payload context b =
      answer_with (λ d. record { payload = d.payload; provider_request_id = d.provider_request_id })
        (perform_json_operation lib self env batches_op payload context [] b)

  pub job_status :
      Surroundings Header
      → List ℕ
      → RequestContext
      → CircuitBreakerState
      → Answer (JobStatusResponse Value)
  job_status env job_id context b =
      answer_with (λ d. record { payload = d.payload; provider_request_id = d.provider_request_id })
        (perform_json_operation lib self env job_status_op lib.empty_object context job_id b)
