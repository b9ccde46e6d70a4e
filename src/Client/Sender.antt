-- ===== src/Client/Sender.antt =====
-- `class Sender` of FileRelay_.server/Client/src/sender.hpp: slots, retries, the connection that takes
-- a chunk, the metrics window and the text that goes over the wire. Each function is what the code
-- does under one lock, or one callback. Sockets, threads and the output are left out. Times are
-- milliseconds.
pub mod Calls
pub mod Slots
pub mod Tests
pub mod Traffic
use super_voice.Base.{
  ℕ, zero, suc, ◌+◌, ◌-◌, ◌%◌, max, Bool, true, false, not, ◌&&◌, ◌||◌, Option, none, some, List,
  [], ◌∷◌, ◌++◌, ltb, leb, ◌==◌, if◌then◌else◌, length, get_elem?,
}
use super_voice.Base.Word.{u16, u64}
use super_voice.Base.Text.{text, to_string}
use super_voice.Client.Chunker.{FileChunk}
use super_voice.Client.Queue.{Call, blocked, returns}

pub record SenderOptions : Type 0 where
  pub host_prefix : List ℕ
  pub base_port : ℕ
  pub connections : ℕ
  pub max_send_retries : ℕ

pub record Connection : Type 0 where
  pub index : ℕ
  pub host : List ℕ
  pub port : ℕ

pub record PendingChunk : Type 0 where
  pub chunk : FileChunk
  pub attempt : ℕ

pub record MetricsWindow : Type 0 where
  pub start : ℕ
  pub chunks : ℕ
  pub bytes : ℕ
  pub retries : ℕ

pub record Sender : Type 0 where
  pub options : SenderOptions
  pub connections : List Connection
  pub next_connection_index : ℕ
  pub retry_queue : List PendingChunk
  pub inflight : ℕ
  pub finishing : Bool
  pub metrics_window : MetricsWindow

-- The loop of the constructor, at `index` with `n` rounds left.
pub make_connections : SenderOptions → ℕ → ℕ → List Connection
make_connections o zero index = []
make_connections o (suc n) index =
    record {
      index = index;
      host = o.host_prefix ++ to_string index;
      port = u16 (o.base_port + index);
    }
    ∷ make_connections o n (index + 1)

pub construct : SenderOptions → Sender
unfolding make_connections
construct options =
    let o : SenderOptions =
      if options.connections == 0 then record options { connections = 1 } else options in
    record {
      options = o;
      connections = make_connections o o.connections 0;
      next_connection_index = 0;
      retry_queue = [];
      inflight = 0;
      finishing = false;
      metrics_window = record { start = 0; chunks = 0; bytes = 0; retries = 0 };
    }

-- `none` is the exception "No connections available".
pub next_connection : Sender → Option (Connection × Sender)
next_connection s = elim (get_elem? s.connections s.next_connection_index) [
  | none ↦ none
  | some c ↦
      some (
        c,
        record s { next_connection_index = (s.next_connection_index + 1) % length s.connections },
      )
]

-- The number of open connections is an argument of what calls this.
pub acquire_slot : Bool → Sender → Call (Bool × Sender)
acquire_slot stop_requested s =
    if ltb s.inflight s.options.connections || stop_requested
    then if stop_requested
      then returns (false, s)
      else returns (true, record s { inflight = s.inflight + 1 })
    else blocked

-- The Boolean is whether `retry_cv_` is notified.
pub release_slot : Sender → Bool × Sender
release_slot s =
    let inflight = if ltb 0 s.inflight then s.inflight - 1 else s.inflight in
    (inflight == 0 && s.finishing, record s { inflight = inflight })

-- `wait_for_inflight_zero`
pub inflight_zero : Sender → Bool
inflight_zero s = s.inflight == 0

pub max_attempts : Sender → ℕ
max_attempts s = max 1 s.options.max_send_retries

pub reset_metrics_window : ℕ → Sender → Sender
reset_metrics_window now s = record s {
  metrics_window = record { start = now; chunks = 0; bytes = 0; retries = 0 };
}

-- The report goes to the output; what stays is the reset.
pub maybe_report_metrics : ℕ → Bool → Sender → Sender
unfolding reset_metrics_window
maybe_report_metrics now force s =
    if not force && ltb (now - s.metrics_window.start) 5000 then s else reset_metrics_window now s

abbrev pub retries_of : ℕ → ℕ
retries_of attempt = if ltb 0 attempt then attempt - 1 else 0

pub on_chunk_success : ℕ → FileChunk → ℕ → Sender → Bool × Sender
unfolding maybe_report_metrics release_slot
on_chunk_success now chunk attempt s =
    let w = s.metrics_window in
    let counted : Sender = record s {
      metrics_window = record w {
        chunks = u64 (w.chunks + 1);
        bytes = u64 (w.bytes + length chunk.payload);
        retries = u64 (w.retries + retries_of attempt);
      };
    } in
    release_slot (maybe_report_metrics now false counted)

-- What becomes of a chunk whose sending failed.
pub data Fate : Type 0 where
  dropped retried : Fate

pub on_chunk_failure : ℕ → FileChunk → ℕ → Sender → Fate × Sender
unfolding maybe_report_metrics release_slot max_attempts
on_chunk_failure now chunk attempt s =
    if leb (max_attempts s) attempt
    then (let w = s.metrics_window in
        let counted : Sender = record s {
          metrics_window = record w { retries = u64 (w.retries + retries_of attempt) };
        } in
        (dropped, (release_slot (maybe_report_metrics now false counted)).1))
    else (let pending : PendingChunk = record { chunk = chunk; attempt = attempt + 1 } in
        (retried, (release_slot (record s { retry_queue = s.retry_queue ++ (pending ∷ []) })).1))

-- The head of the loop of `run`: a chunk that waits for another attempt goes first.
pub take_retry : Sender → Option (PendingChunk × Sender)
take_retry s = elim s.retry_queue [
  | [] ↦ none
  | pending ∷ rest ↦ some (pending, record s { retry_queue = rest })
]

-- What the loop does when the queue is closed and empty, once its wait is over.
pub data Turn : Type 0 where
  goes_on ends : Turn

pub finish_turn : Bool → Sender → Call (Turn × Sender)
finish_turn stop_requested s =
    let finishing : Sender = record s { finishing = true } in
    if stop_requested then returns (ends, finishing) else elim s.retry_queue [
      | (p ∷ ps) ↦ returns (goes_on, record s { finishing = false })
      | [] ↦ if s.inflight == 0 then returns (ends, finishing) else blocked
    ]

-- `Connection::serialize`
pub serialize : FileChunk → List ℕ
unfolding to_string
serialize chunk =
    text "FILE "
    ++ (chunk.descriptor.path
        ++ (text "\nSHA256 "
            ++ (chunk.sha256_hex
                ++ (text "\nORIGINAL_SIZE "
                    ++ (to_string chunk.descriptor.size
                        ++ (text "\nCHUNK "
                            ++ (to_string chunk.index
                                ++ (text "/"
                                    ++ (to_string chunk.total_chunks
                                        ++ (text "\nPAYLOAD_SIZE "
                                            ++ (to_string (length chunk.payload)
                                                ++ (text "\n\n" ++ chunk.payload))))))))))))
