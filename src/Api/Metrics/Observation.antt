-- ===== src/Api/Metrics/Observation.antt =====
-- `RequestObservation` of SuperAPI._server/src/core/Metrics.cpp: the measures of one request until it is
-- recorded.
use super_voice.Base.{ℕ, ◌-◌, Bool, true, false, ◌&&◌, List, [], ◌∷◌, leb, if◌then◌else◌}
use super_voice.Base.Text.{text}
use super_voice.Api.Env.{is_empty}
use super_voice.Api.Metrics.{Doubles, SeriesKey, Registry, Measured, ◌+₆₄◌, record_request}

module _ {Double : Type 0} (doubles : Doubles Double) where
  -- A request that is being handled.
  pub record Observation : Type 0 where
    pub key : SeriesKey
    pub bytes_in : ℕ
    pub tokens_in : ℕ
    pub tokens_out : ℕ
    pub stream_events : ℕ
    pub start : ℕ
    pub completed : Bool
    pub latency_ms : Double
    pub status_code : ℕ

  unfoldable pub start_request : List ℕ → List ℕ → ℕ → ℕ → ℕ → Observation
  start_request company endpoint bytes_in tokens_in now = record {
    key = record { company = company; endpoint = endpoint };
    bytes_in = bytes_in;
    tokens_in = tokens_in;
    tokens_out = 0;
    stream_events = 0;
    start = now;
    completed = false;
    latency_ms = doubles.of_tenths 0;
    status_code = 0;
  }

  abbrev pub resolve_error_type : ℕ → List ℕ → List ℕ
  resolve_error_type status_code error_type =
      if is_empty error_type && leb 400 status_code
      then if leb 500 status_code then text "http_5xx" else text "http_4xx"
      else error_type

  -- The record of a request, from the arguments of the call that completes it.
  abbrev pub measured_by : ℕ → ℕ → ℕ → ℕ → List ℕ → ℕ → Observation → Measured Double
  measured_by status_code bytes_out tokens_out stream_events error_type now observation = record {
    latency_ms = doubles.milliseconds (now - observation.start);
    bytes_in = observation.bytes_in;
    bytes_out = bytes_out;
    tokens_in = observation.tokens_in;
    tokens_out = tokens_out;
    stream_events = stream_events;
    error_type = resolve_error_type status_code error_type;
  }

  -- What is left of `complete` for the call that wins the exchange of `completed_`.
  abbrev pub complete_first :
      ℕ → ℕ → ℕ → ℕ → List ℕ → ℕ → Observation → Registry Double → Observation × Registry Double
  complete_first status_code bytes_out tokens_out stream_events error_type now observation
        registry =
      (
        record observation {
          completed = true;
          latency_ms = doubles.milliseconds (now - observation.start);
          status_code = status_code;
          tokens_out = tokens_out;
          stream_events = stream_events;
        },
        record_request doubles observation.key
            (measured_by status_code bytes_out tokens_out stream_events error_type now observation)
            registry,
      )

  unfoldable pub complete :
      ℕ → ℕ → ℕ → ℕ → List ℕ → ℕ → Observation → Registry Double → Observation × Registry Double
  unfolding record_request
  complete status_code bytes_out tokens_out stream_events error_type now observation registry =
      if observation.completed
      then (observation, registry)
      else complete_first status_code bytes_out tokens_out stream_events error_type now observation
          registry

  -- The destructor.
  unfoldable pub destroy : ℕ → Observation → Registry Double → Observation × Registry Double
  unfolding complete
  destroy now observation registry =
      if observation.completed
      then (observation, registry)
      else complete 0 0 observation.tokens_out observation.stream_events (text "abandoned") now
          observation registry

  unfoldable pub add_stream_events : ℕ → Observation → Observation
  add_stream_events count observation = record observation {
    stream_events = observation.stream_events +₆₄ count;
  }

  unfoldable pub add_tokens_out : ℕ → Observation → Observation
  add_tokens_out count observation = record observation {
    tokens_out = observation.tokens_out +₆₄ count;
  }

  unfoldable pub add_tokens_in : ℕ → Observation → Observation
  add_tokens_in count observation = record observation {
    tokens_in = observation.tokens_in +₆₄ count;
  }

  -- One call of `complete`, with the time at which it is made.
  pub data Call : Type 0 where
    call : ℕ → ℕ → ℕ → ℕ → List ℕ → ℕ → Call

  -- The calls of `complete` that a handler makes, and then the destructor.
  unfoldable pub finish :
      List Call → ℕ → Observation → Registry Double → Observation × Registry Double
  unfolding complete destroy
  finish [] now observation registry = destroy now observation registry
  finish (call status_code bytes_out tokens_out stream_events error_type at ∷ calls) now observation
        registry =
      let done =
        complete status_code bytes_out tokens_out stream_events error_type at observation
          registry in
      finish calls now done.0 done.1
