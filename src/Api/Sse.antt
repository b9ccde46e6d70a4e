-- ===== src/Api/Sse.antt =====
-- `class SseStream` of SuperAPI._server/src/http/SSE.cpp. The mutex is a field, since a method that
-- locks it while it is held never returns: `hangs`. `send` of the response stream is the argument
-- `accepts`, of what was sent before and the frame. The number in front of an event is fuel for
-- calls inside calls; `spent` is a call that used it up.
use super_voice.Base.{
  ℕ, zero, suc, ◌+◌, ◌-◌, ◌*◌, Bool, true, false, not, ◌&&◌, ◌||◌, List, [], ◌∷◌, ◌++◌, ltb, ◌==◌,
  if◌then◌else◌, length,
}
use super_voice.Base.Text.{text}
pub mod Deliver
pub mod Frame

pub record SseStream : Type 0 where
  pub max_buffered_bytes : ℕ
  pub heartbeat_interval : ℕ
  pub locked : Bool
  pub has_stream : Bool
  pub stream_ready : Bool
  pub closed : Bool
  pub has_loop : Bool
  pub heartbeat : Bool
  pub pending : List (List ℕ)
  pub buffered_bytes : ℕ
  pub sent : List (List ℕ)

pub data Outcome : Type 0 where
  spent : Outcome
  hangs : Outcome
  done : SseStream → Outcome

abbrev pub newline : ℕ
newline = 10

-- `find('\n')` from a position on: what is before it, if it is there, and what is behind it.
pub data Found : Type 0 where
  not_found : Found
  found : List ℕ → List ℕ → Found

pub one_later : ℕ → Found → Found
one_later c not_found = not_found
one_later c (found line rest) = found (c ∷ line) rest

pub find_newline : List ℕ → Found
unfolding one_later
find_newline [] = not_found
find_newline (c ∷ cs) =
    let later = find_newline cs in if c == newline then found [] cs else one_later c later

-- The loop of `escapeData` over what is left; each round that goes on has passed a newline, so the
-- length of the text is fuel enough.
pub escape_loop : ℕ → List ℕ → List ℕ
unfolding find_newline
escape_loop zero data_ = []
escape_loop (suc fuel) [] = []
escape_loop (suc fuel) (c ∷ cs) = elim (find_newline (c ∷ cs)) [
  | not_found ↦ text "data: " ++ ((c ∷ cs) ++ (newline ∷ []))
  | found line rest ↦ text "data: " ++ (line ++ (newline ∷ escape_loop fuel rest))
]

pub escape_data : List ℕ → List ℕ
unfolding escape_loop
escape_data data_ =
    escape_loop (length data_) data_
    ++ ((if length data_ == 0 then text "data: " ++ (newline ∷ []) else []) ++ (newline ∷ []))

pub format_event : List ℕ → List ℕ → List ℕ
unfolding escape_data
format_event event data_ =
    (if length event == 0 then [] else text "event: " ++ (event ++ (newline ∷ [])))
    ++ escape_data data_

abbrev pub lock_guard : (SseStream → Outcome) → SseStream → Outcome
lock_guard body s = if s.locked then hangs else (elim (body (record s { locked = true })) [
  | spent ↦ spent
  | hangs ↦ hangs
  | done t ↦ done (record t { locked = false })
])

pub cancel_heartbeat_unlocked : SseStream → SseStream
cancel_heartbeat_unlocked s = if s.has_loop then record s { heartbeat = false } else s

pub schedule_heartbeat_unlocked : SseStream → SseStream
schedule_heartbeat_unlocked s =
    if not s.has_loop || s.closed || s.heartbeat_interval == 0
    then s
    else record s { heartbeat = true }

-- `close` once the mutex is held.
pub close_locked : SseStream → SseStream
unfolding cancel_heartbeat_unlocked
close_locked s =
    if s.closed then s else record (cancel_heartbeat_unlocked (record s { closed = true })) {
      pending = [];
      buffered_bytes = 0;
      has_stream = false;
    }

pub close : SseStream → Outcome
unfolding close_locked
close s = lock_guard (λ t. done (close_locked t)) s

module _ (accepts : List (List ℕ) → List ℕ → Bool) where
  -- The loop of `flushUnlocked`.
  pub flush_loop : List (List ℕ) → SseStream → SseStream
  unfolding cancel_heartbeat_unlocked
  flush_loop [] s = record s { pending = [] }
  flush_loop (front ∷ rest) s = elim (accepts s.sent front) [
    | true ↦ flush_loop rest (record s {
      pending = rest;
      buffered_bytes = s.buffered_bytes - length front;
      sent = s.sent ++ (front ∷ []);
    })
    | false ↦
        cancel_heartbeat_unlocked
          (record s { closed = true; has_stream = false; pending = []; buffered_bytes = 0 })
  ]

  pub flush_unlocked : SseStream → SseStream
  unfolding flush_loop
  flush_unlocked s = if not s.stream_ready || not s.has_stream then s else flush_loop s.pending s

  -- `sendError` with the text of its payload, up to the mutex; `again` is what follows behind it.
  pub enqueue_with : (SseStream → Outcome) → List ℕ → SseStream → Outcome
  unfolding flush_unlocked close
  enqueue_with send_error frame s =
      if s.closed || length frame == 0
      then done s
      else (let t : SseStream = record s {
        buffered_bytes = s.buffered_bytes + length frame;
        pending = s.pending ++ (frame ∷ []);
      } in
          if ltb t.max_buffered_bytes t.buffered_bytes
          then (elim (send_error t) [ spent ↦ spent | hangs ↦ hangs | done u ↦ close u ])
          else done (flush_unlocked t))

  -- `enqueueUnlocked`, whose error event goes through `sendJsonEvent`, the lock and `enqueueUnlocked`.
  -- `overflow` is the text of the payload of that event.
  pub enqueue_unlocked : ℕ → List ℕ → List ℕ → SseStream → Outcome
  unfolding enqueue_with format_event
  enqueue_unlocked zero overflow frame s = spent
  enqueue_unlocked (suc fuel) overflow frame s =
      enqueue_with
        (lock_guard (enqueue_unlocked fuel overflow (format_event (text "error") overflow))) frame s

  -- `sendTextEvent`, and `sendJsonEvent` with the text of its payload.
  pub send_text_event : ℕ → List ℕ → List ℕ → List ℕ → SseStream → Outcome
  unfolding enqueue_unlocked
  send_text_event fuel overflow event data_ s =
      lock_guard (enqueue_unlocked fuel overflow (format_event event data_)) s

  -- `sendDone` with the text of its payload.
  pub send_done : ℕ → List ℕ → List ℕ → SseStream → Outcome
  unfolding send_text_event
  send_done fuel overflow payload s = elim (send_text_event fuel overflow (text "done") payload s) [
    | spent ↦ spent
    | hangs ↦ hangs
    | done t ↦ close t
  ]

  -- `stream` tells whether the pointer is set, `loop` whether this thread has an event loop.
  pub on_stream_ready : ℕ → List ℕ → Bool → Bool → SseStream → Outcome
  unfolding enqueue_unlocked schedule_heartbeat_unlocked
  on_stream_ready fuel overflow stream loop s =
      lock_guard
        (λ t.
          if t.closed
          then done t
          else (let u : SseStream = record t {
            has_stream = stream;
            stream_ready = true;
            has_loop = loop;
          } in
              elim (enqueue_unlocked fuel overflow (text "retry: 5000" ++ (newline ∷ [])) u) [
                | spent ↦ spent
                | hangs ↦ hangs
                | done v ↦ done (schedule_heartbeat_unlocked (flush_unlocked v))
              ]))
        s

  pub send_heartbeat_unlocked : SseStream → SseStream
  unfolding flush_unlocked
  send_heartbeat_unlocked s =
      let comment : List ℕ = text ": heartbeat" ++ (newline ∷ newline ∷ []) in
      if not s.stream_ready || s.closed
      then s
      else flush_unlocked (record s {
        pending = s.pending ++ (comment ∷ []);
        buffered_bytes = s.buffered_bytes + length comment;
      })

  -- The timer.
  pub tick : SseStream → Outcome
  unfolding send_heartbeat_unlocked
  tick s = lock_guard (λ t. done (if t.closed then t else send_heartbeat_unlocked t)) s

pub is_open : SseStream → Bool
is_open s = not s.closed

-- A stream from `create`.
pub construct : ℕ → ℕ → SseStream
construct heartbeat_interval max_buffered_bytes = record {
  max_buffered_bytes = max_buffered_bytes;
  heartbeat_interval = heartbeat_interval;
  locked = false;
  has_stream = false;
  stream_ready = false;
  closed = false;
  has_loop = false;
  heartbeat = false;
  pending = [];
  buffered_bytes = 0;
  sent = [];
}
