-- ===== src/Client/Sender/Slots.antt =====
-- Chunks on their way: how many are in flight, how often each is tried, and what becomes of each.
use super_voice.Base.{
  ℕ, ◌+◌, ◌≤◌, ◌≡◌, refl, ap, ◌∙◌, true, false, some, List, [], ◌∷◌, ◌++◌, arith, length, All,
  All-append, max,
}
use super_voice.Client.Chunker.{FileChunk}
use super_voice.Client.Queue.{returns}
use super_voice.Client.Sender.Calls.{
  acquire_inv, success_inv, drop_inv, fail_inv, retry_inv, stop_inv, All-remove, length-remove,
}
use super_voice.Client.Sender.{
  Sender, SenderOptions, PendingChunk, dropped, retried, acquire_slot, on_chunk_success,
  on_chunk_failure, take_retry, construct,
}
use super_voice.Client.Sender.Traffic.{
  World, Step, Reach, here, next, sends_new, sends_again, loses_new, loses_again, succeeds, drops,
  fails, total, pending, first_try, start,
}

pending-append :
    (f : FileChunk → ℕ) (xs ys : List PendingChunk)
    → pending f (xs ++ ys) ≡ pending f xs + pending f ys
pending-append f [] ys = omega arith
pending-append f (x ∷ xs) ys = omega (arith, pending-append f xs ys)

pending-remove :
    (f : FileChunk → ℕ) (before : List PendingChunk) (p : PendingChunk) (after : List PendingChunk)
    → pending f (before ++ (p ∷ after)) ≡ f p.chunk + pending f (before ++ after)
pending-remove f [] p after = refl
pending-remove f (x ∷ xs) p after = omega (arith, pending-remove f xs p after)

-- The attempt is one of those allowed.
abbrev Allowed : ℕ → PendingChunk → Type 0
Allowed limit p = (1 ≤ p.attempt) × (p.attempt ≤ limit)

pub record IsValid (o : SenderOptions) (w : World) : Type 0 where
  pub options : w.sender.options ≡ o
  pub slots : w.sender.inflight ≡ length w.sending
  pub bounded : length w.sending ≤ o.connections
  pub tries : All (Allowed (max 1 o.max_send_retries)) w.sending
  pub retries : All (Allowed (max 1 o.max_send_retries)) w.sender.retry_queue
  pub conserved :
      (f : FileChunk → ℕ)
      → total f w.taken
        ≡ pending f w.sending
          + pending f w.sender.retry_queue
          + total f w.delivered
          + total f w.abandoned
          + total f w.lost

module _ (o : SenderOptions) {w : World} (v : IsValid o w) where
  sends_new-IsValid :
      (chunk : FileChunk) (s : Sender)
      → acquire_slot false w.sender ≡ returns (true, s)
      → IsValid o
          (record w { sender = s; sending = first_try chunk ∷ w.sending; taken = chunk ∷ w.taken })
  sends_new-IsValid chunk s e =
      let (room, one, opts, queue) = acquire_inv w.sender s e in
      record {
        options = opts ∙ v.options;
        slots = omega (arith, one, v.slots);
        bounded = omega (arith, room, v.slots, ap (λ (q : SenderOptions). q.connections) v.options);
        tries = ((omega arith, omega arith), v.tries);
        retries = rw queue v.retries;
        conserved = λ f. omega (arith, v.conserved f, ap (pending f) queue);
      }

  sends_again-IsValid :
      (p : PendingChunk) (s t : Sender)
      → take_retry w.sender ≡ some (p, s)
      → acquire_slot false s ≡ returns (true, t)
      → IsValid o (record w { sender = t; sending = p ∷ w.sending })
  sends_again-IsValid p s t r e =
      let (front, same, opts) = retry_inv w.sender s p r in
      let (room, one, opts', queue) = acquire_inv s t e in
      let tries : Allowed (max 1 o.max_send_retries) p
          × All (Allowed (max 1 o.max_send_retries)) s.retry_queue =
        rw front at v.retries in
      record {
        options = opts' ∙ opts ∙ v.options;
        slots = omega (arith, one, same, v.slots);
        bounded = omega (
          arith,
          room,
          same,
          v.slots,
          ap (λ (q : SenderOptions). q.connections) (opts ∙ v.options),
        );
        tries = (tries.0, v.tries);
        retries = rw queue tries.1;
        conserved = λ f. omega (arith, v.conserved f, ap (pending f) queue, ap (pending f) front);
      }

  loses_new-IsValid :
      (chunk : FileChunk) (s : Sender)
      → acquire_slot true w.sender ≡ returns (false, s)
      → IsValid o (record w { sender = s; taken = chunk ∷ w.taken; lost = chunk ∷ w.lost })
  loses_new-IsValid chunk s e =
      let same = stop_inv w.sender s e in
      record {
        options = ap (λ (q : Sender). q.options) same ∙ v.options;
        slots = ap (λ (q : Sender). q.inflight) same ∙ v.slots;
        bounded = v.bounded;
        tries = v.tries;
        retries = rw same v.retries;
        conserved =
            λ f. omega (arith, v.conserved f, ap (λ (q : Sender). pending f q.retry_queue) same);
      }

  loses_again-IsValid :
      (p : PendingChunk) (s t : Sender)
      → take_retry w.sender ≡ some (p, s)
      → acquire_slot true s ≡ returns (false, t)
      → IsValid o (record w { sender = t; lost = p.chunk ∷ w.lost })
  loses_again-IsValid p s t r e =
      let (front, count, opts) = retry_inv w.sender s p r in
      let same = stop_inv s t e in
      let tries : Allowed (max 1 o.max_send_retries) p
          × All (Allowed (max 1 o.max_send_retries)) s.retry_queue =
        rw front at v.retries in
      record {
        options = ap (λ (q : Sender). q.options) same ∙ opts ∙ v.options;
        slots = ap (λ (q : Sender). q.inflight) same ∙ count ∙ v.slots;
        bounded = v.bounded;
        tries = v.tries;
        retries = rw same tries.1;
        conserved = λ f. omega (
          arith,
          v.conserved f,
          ap (λ (q : Sender). pending f q.retry_queue) same,
          ap (pending f) front,
        );
      }

  -- A chunk that leaves its slot.
  module _ (before after : List PendingChunk) (p : PendingChunk)
      (at : w.sending ≡ before ++ (p ∷ after)) where
    count : length w.sending ≡ length (before ++ after) + 1
    count = ap length at ∙ length-remove before p after

    weight : (f : FileChunk → ℕ) → pending f w.sending ≡ f p.chunk + pending f (before ++ after)
    weight f = ap (pending f) at ∙ pending-remove f before p after

    split :
        Allowed (max 1 o.max_send_retries) p
        × All (Allowed (max 1 o.max_send_retries)) (before ++ after)
    split = All-remove (Allowed (max 1 o.max_send_retries)) before p after (rw at at v.tries)

    succeeds-IsValid :
        (now : ℕ)
        → IsValid o (record w {
          sender = (on_chunk_success now p.chunk p.attempt w.sender).1;
          sending = before ++ after;
          delivered = p.chunk ∷ w.delivered;
        })
    succeeds-IsValid now =
        let (less, opts, queue) = success_inv now p.chunk p.attempt w.sender in
        record {
          options = opts ∙ v.options;
          slots = omega (arith, less, v.slots, count);
          bounded = omega (arith, v.bounded, count);
          tries = split.1;
          retries = rw queue v.retries;
          conserved = λ f. omega (arith, v.conserved f, ap (pending f) queue, weight f);
        }

    drops-IsValid :
        (now : ℕ) (s : Sender)
        → on_chunk_failure now p.chunk p.attempt w.sender ≡ (dropped, s)
        → IsValid o
            (record w { sender = s; sending = before ++ after; abandoned = p.chunk ∷ w.abandoned })
    drops-IsValid now s e =
        let (less, opts, queue) = drop_inv now p.chunk p.attempt w.sender s e in
        record {
          options = opts ∙ v.options;
          slots = omega (arith, less, v.slots, count);
          bounded = omega (arith, v.bounded, count);
          tries = split.1;
          retries = rw queue v.retries;
          conserved = λ f. omega (arith, v.conserved f, ap (pending f) queue, weight f);
        }

    fails-IsValid :
        (now : ℕ) (s : Sender)
        → on_chunk_failure now p.chunk p.attempt w.sender ≡ (retried, s)
        → IsValid o (record w { sender = s; sending = before ++ after })
    fails-IsValid now s e =
        let (less, opts, again, queue) = fail_inv now p.chunk p.attempt w.sender s e in
        record {
          options = opts ∙ v.options;
          slots = omega (arith, less, v.slots, count);
          bounded = omega (arith, v.bounded, count);
          tries = split.1;
          retries = rw queue (
              All-append (Allowed (max 1 o.max_send_retries)) w.sender.retry_queue _ v.retries (
                (
                  omega arith,
                  omega (arith, again, ap (λ (q : SenderOptions). q.max_send_retries) v.options),
                ),
                tt,
              ));
          conserved = λ f. omega (
            arith,
            v.conserved f,
            ap (pending f) queue,
            pending-append f w.sender.retry_queue
                (record { chunk = p.chunk; attempt = p.attempt + 1 } ∷ []),
            weight f,
          );
        }

Step-IsValid : (o : SenderOptions) {w u : World} → Step w u → IsValid o w → IsValid o u
Step-IsValid o (sends_new chunk s e) v = sends_new-IsValid o v chunk s e
Step-IsValid o (sends_again p s t r e) v = sends_again-IsValid o v p s t r e
Step-IsValid o (loses_new chunk s e) v = loses_new-IsValid o v chunk s e
Step-IsValid o (loses_again p s t r e) v = loses_again-IsValid o v p s t r e
Step-IsValid o (succeeds now before after p at) v = succeeds-IsValid o v before after p at now
Step-IsValid o (drops now before after p s at e) v = drops-IsValid o v before after p at now s e
Step-IsValid o (fails now before after p s at e) v = fails-IsValid o v before after p at now s e

calls_keep : (o : SenderOptions) {w u : World} → Reach w u → IsValid o w → IsValid o u
calls_keep o here v = v
calls_keep o (next r st) v = Step-IsValid o st (calls_keep o r v)

-- In every order of sends, stops, successes and failures from a new sender: the slots in use are as
-- many as the chunks being sent, and at most as many as there are connections; every chunk that is sent
-- or waits to be sent again is on an attempt between 1 and the larger of 1 and `max_send_retries`; and
-- the chunks taken from the queue are, each with its content and as often, those being sent, those that
-- wait to be sent again, those delivered, those dropped, and those that a stop found waiting for a slot.
pub Reach-slots :
    (o : SenderOptions) {w : World} → Reach (start o) w → IsValid (construct o).options w
unfolding construct
Reach-slots o r = calls_keep (construct o).options r (record {
  options = refl;
  slots = refl;
  bounded = omega arith;
  tries = tt;
  retries = tt;
  conserved = λ f. refl;
})
