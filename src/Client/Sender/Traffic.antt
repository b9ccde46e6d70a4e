-- ===== src/Client/Sender/Traffic.antt =====
-- The chunks on their way through the sender: who has each, and the steps of the loop and the callbacks.
use super_voice.Base.{ℕ, ◌+◌, ◌≡◌, true, false, some, List, [], ◌∷◌, ◌++◌}
use super_voice.Client.Chunker.{FileChunk}
use super_voice.Client.Queue.{returns}
use super_voice.Client.Sender.{
  Sender, SenderOptions, PendingChunk, dropped, retried, acquire_slot, on_chunk_success,
  on_chunk_failure, take_retry, construct,
}

-- The sum of a weight over chunks; that two lists have the same sum for every weight is that they hold
-- the same chunks, each as often.
abbrev pub total : (FileChunk → ℕ) → List FileChunk → ℕ
total f [] = 0
total f (c ∷ cs) = f c + total f cs

-- The same, of chunks with their attempts.
abbrev pub pending : (FileChunk → ℕ) → List PendingChunk → ℕ
pending f [] = 0
pending f (p ∷ ps) = f p.chunk + pending f ps

-- The sender with the chunks that hold a slot, those that `run` took from the queue, and what became
-- of them: the last are those that a stop found waiting for a slot.
pub record World : Type 0 where
  pub sender : Sender
  pub sending : List PendingChunk
  pub taken : List FileChunk
  pub delivered : List FileChunk
  pub abandoned : List FileChunk
  pub lost : List FileChunk

abbrev pub first_try : FileChunk → PendingChunk
first_try chunk = record { chunk = chunk; attempt = 1 }

-- A turn of `run` that starts to send, one that a stop ends while it waits for a slot, and the two
-- callbacks, for any chunk that is being sent. A connection that cannot be opened is a failure too.
pub data Step (w : World) : World → Type 0 where
  sends_new :
      (chunk : FileChunk) (s : Sender)
      → acquire_slot false w.sender ≡ returns (true, s)
      → Step w
          (record w { sender = s; sending = first_try chunk ∷ w.sending; taken = chunk ∷ w.taken })
  sends_again :
      (p : PendingChunk) (s t : Sender)
      → take_retry w.sender ≡ some (p, s)
      → acquire_slot false s ≡ returns (true, t)
      → Step w (record w { sender = t; sending = p ∷ w.sending })
  loses_new :
      (chunk : FileChunk) (s : Sender)
      → acquire_slot true w.sender ≡ returns (false, s)
      → Step w (record w { sender = s; taken = chunk ∷ w.taken; lost = chunk ∷ w.lost })
  loses_again :
      (p : PendingChunk) (s t : Sender)
      → take_retry w.sender ≡ some (p, s)
      → acquire_slot true s ≡ returns (false, t)
      → Step w (record w { sender = t; lost = p.chunk ∷ w.lost })
  succeeds :
      (now : ℕ) (before after : List PendingChunk) (p : PendingChunk)
      → w.sending ≡ before ++ (p ∷ after)
      → Step w (record w {
        sender = (on_chunk_success now p.chunk p.attempt w.sender).1;
        sending = before ++ after;
        delivered = p.chunk ∷ w.delivered;
      })
  drops :
      (now : ℕ) (before after : List PendingChunk) (p : PendingChunk) (s : Sender)
      → w.sending ≡ before ++ (p ∷ after)
      → on_chunk_failure now p.chunk p.attempt w.sender ≡ (dropped, s)
      → Step w
          (record w { sender = s; sending = before ++ after; abandoned = p.chunk ∷ w.abandoned })
  fails :
      (now : ℕ) (before after : List PendingChunk) (p : PendingChunk) (s : Sender)
      → w.sending ≡ before ++ (p ∷ after)
      → on_chunk_failure now p.chunk p.attempt w.sender ≡ (retried, s)
      → Step w (record w { sender = s; sending = before ++ after })

pub data Reach (w : World) : World → Type 0 where
  here : Reach w w
  next : {u v : World} → Reach w u → Step u v → Reach w v

abbrev pub start : SenderOptions → World
start o = record {
  sender = construct o;
  sending = [];
  taken = [];
  delivered = [];
  abandoned = [];
  lost = [];
}
