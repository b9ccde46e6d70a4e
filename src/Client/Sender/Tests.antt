-- ===== src/Client/Sender/Tests.antt =====
-- Concrete inputs for the theorem on the sender.
use super_voice.Base.{refl, [], ◌∷◌}
use super_voice.Base.Text.{text}
use super_voice.Client.Chunker.{FileChunk}
use super_voice.Client.Sender.{SenderOptions, construct, acquire_slot}
use super_voice.Client.Sender.Slots.{IsValid, Reach-slots}
use super_voice.Client.Sender.Traffic.{World, Reach, here, next, sends_new, start, first_try}

abbrev two : SenderOptions
two = record { host_prefix = text "h"; base_port = 9000; connections = 2; max_send_retries = 3 }

abbrev piece : FileChunk
piece = record {
  descriptor = record { path = text "a"; size = 1; last_write_time = 0 };
  sha256_hex = text "00";
  index = 0;
  total_chunks = 1;
  payload = 1 ∷ [];
}

abbrev sending : World
sending = record (start two) {
  sender = record (construct two) { inflight = 1 };
  sending = first_try piece ∷ [];
  taken = piece ∷ [];
}

sends : Reach (start two) sending
unfolding construct acquire_slot
sends = next here (sends_new piece (record (construct two) { inflight = 1 }) refl)

Reach-slots_example : IsValid (construct two).options sending
Reach-slots_example = Reach-slots two sends
