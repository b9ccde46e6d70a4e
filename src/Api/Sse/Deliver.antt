-- ===== src/Api/Sse/Deliver.antt =====
-- What a stream keeps, and what its events come to.
use super_voice.Base.{ℕ, ◌+◌, ◌≤◌, ◌≡◌, Bool, true, false, ◌&&◌, List, [], ◌∷◌, ◌++◌, length}
use super_voice.Api.Sse.{SseStream}

abbrev total : List (List ℕ) → ℕ
total [] = 0
total (f ∷ fs) = length f + total fs

pub record IsValid (s : SseStream) : Type 0 where
  pub buffered : s.buffered_bytes ≡ total s.pending
  pub shut : s.closed ≡ true → (s.pending ≡ []) × (s.has_stream ≡ false)
  pub drained : s.stream_ready && s.has_stream ≡ true → s.pending ≡ []
  pub room : s.stream_ready ≡ false → s.buffered_bytes ≤ s.max_buffered_bytes

module _ (accepts : List (List ℕ) → List ℕ → Bool) where
  -- What the loop of `flushUnlocked` leaves.
  pub record Flushed (frames : List (List ℕ)) (s t : SseStream) : Type 0 where
    pub nothing_left : t.pending ≡ []
    pub count : s.buffered_bytes ≡ total frames → t.buffered_bytes ≡ 0
    pub same_lock : t.locked ≡ s.locked
    pub same_ready : t.stream_ready ≡ s.stream_ready
    pub shut : t.closed ≡ true → t.has_stream ≡ false
    pub all_sent : t.closed ≡ false → (t.sent ≡ s.sent ++ frames) × (t.has_stream ≡ s.has_stream)

  -- Open again, nothing is lost.
  pub record Keeps (frames : List (List ℕ)) (t : SseStream) : Type 0 where
    pub valid : IsValid t
    pub free : t.locked ≡ false
    pub in_order : t.closed ≡ false → t.sent ++ t.pending ≡ frames

  abbrev queued : List ℕ → SseStream → SseStream
  queued frame s = record s {
    buffered_bytes = s.buffered_bytes + length frame;
    pending = s.pending ++ (frame ∷ []);
  }
