-- ===== src/Client/Sender/Calls.antt =====
-- What a call that returned has changed, and a list less one element.
use super_voice.Base.{
  ℕ, ◌+◌, ◌-◌, ◌<◌, ◌≡◌, true, false, some, List, [], ◌∷◌, ◌++◌, arith, length, All, max,
}
use super_voice.Client.Chunker.{FileChunk}
use super_voice.Client.Queue.{returns}
use super_voice.Client.Sender.{
  Sender, PendingChunk, dropped, retried, acquire_slot, on_chunk_success, on_chunk_failure,
  take_retry,
}

pub acquire_inv :
    (s t : Sender)
    → acquire_slot false s ≡ returns (true, t)
    → (s.inflight < s.options.connections)
      × (t.inflight ≡ s.inflight + 1)
      × (t.options ≡ s.options)
      × (t.retry_queue ≡ s.retry_queue)
unfolding acquire_slot
acquire_inv s t h = ground arith

pub success_inv :
    (now : ℕ) (chunk : FileChunk) (attempt : ℕ) (s : Sender)
    → let t = (on_chunk_success now chunk attempt s).1 in
      (t.inflight ≡ s.inflight - 1) × (t.options ≡ s.options) × (t.retry_queue ≡ s.retry_queue)
unfolding on_chunk_success
success_inv now chunk attempt s = ground arith

pub drop_inv :
    (now : ℕ) (chunk : FileChunk) (attempt : ℕ) (s t : Sender)
    → on_chunk_failure now chunk attempt s ≡ (dropped, t)
    → (t.inflight ≡ s.inflight - 1) × (t.options ≡ s.options) × (t.retry_queue ≡ s.retry_queue)
unfolding on_chunk_failure
drop_inv now chunk attempt s t h = ground arith

pub fail_inv :
    (now : ℕ) (chunk : FileChunk) (attempt : ℕ) (s t : Sender)
    → on_chunk_failure now chunk attempt s ≡ (retried, t)
    → (t.inflight ≡ s.inflight - 1)
      × (t.options ≡ s.options)
      × (attempt < max 1 s.options.max_send_retries)
      × (t.retry_queue ≡ s.retry_queue ++ (record { chunk = chunk; attempt = attempt + 1 } ∷ []))
unfolding on_chunk_failure
fail_inv now chunk attempt s t h = ground arith

pub retry_inv :
    (s t : Sender) (p : PendingChunk)
    → take_retry s ≡ some (p, t)
    → (s.retry_queue ≡ p ∷ t.retry_queue) × (t.inflight ≡ s.inflight) × (t.options ≡ s.options)
unfolding take_retry
retry_inv s t p h = ground arith

-- A requested stop gives no slot.
pub stop_inv : (s t : Sender) → acquire_slot true s ≡ returns (false, t) → t ≡ s
unfolding acquire_slot
stop_inv s t h = ground arith

pub All-remove {ℓ κ} :
    {A : Type ℓ} (P : A → Type κ) (before : List A) (p : A) (after : List A)
    → All P (before ++ (p ∷ after))
    → P p × All P (before ++ after)
All-remove P [] p after h = h
All-remove P (x ∷ before) p after h =
    let rest = All-remove P before p after h.1 in (rest.0, (h.0, rest.1))

pub length-remove {ℓ} :
    {A : Type ℓ} (before : List A) (p : A) (after : List A)
    → length (before ++ (p ∷ after)) ≡ length (before ++ after) + 1
length-remove [] p after = omega arith
length-remove (x ∷ before) p after = omega (arith, length-remove before p after)
