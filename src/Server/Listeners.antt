-- ===== src/Server/Listeners.antt =====
-- `class ListenerManager` of FileRelay_.server/Server/src/listeners.hpp: which acceptors exist, on
-- which ports, and which of them run. What the operating system answers for a port is an argument.
-- The threads that accept, and the handler they call, are left out.
use super_voice.Base.{
  ℕ, zero, suc, ◌+◌, ◌-◌, Bool, true, false, not, ◌&&◌, Option, none, some, List, [], ◌∷◌, ◌++◌,
  map, ltb, ◌==◌, if◌then◌else◌, length,
}
use super_voice.Base.Word.{u16}
pub mod Asked
pub mod Count
pub mod Ports

pub data Channel : Type 0 where
  health : Channel
  telemetry : Channel
  control : Channel
  ack : Channel
  data_ : Channel

-- `static_cast<Channel>(i)` for the indices of the system's acceptors.
pub channel_of : ℕ → Channel
channel_of i =
    if i == 0
    then health
    else if i == 1
    then telemetry
    else if i == 2
    then control
    else if i == 3
    then ack
    else data_

pub record AcceptorContext : Type 0 where
  pub channel : Channel
  pub port : ℕ
  pub running : Bool

-- Whether `open`, `bind` and `listen` succeed.
pub record PortAnswers : Type 0 where
  pub opens : Bool
  pub binds : Bool
  pub listens : Bool

pub record ListenerManager : Type 0 where
  pub sys_base : ℕ
  pub data_base : ℕ
  pub system_acceptors : List (Option AcceptorContext)
  pub data_acceptors : List AcceptorContext
  pub started : Bool
  pub desired_data_count : ℕ

pub construct : ℕ → ℕ → ℕ → ListenerManager
construct sys_base data_base initial_data_count = record {
  sys_base = sys_base;
  data_base = data_base;
  system_acceptors = none ∷ none ∷ none ∷ none ∷ [];
  data_acceptors = [];
  started = false;
  desired_data_count = initial_data_count;
}

pub stop_acceptor_locked : AcceptorContext → AcceptorContext
stop_acceptor_locked ctx = record ctx { running = false }

-- `data_acceptors_.pop_back()`
pub pop_back {ℓ} : {A : Type ℓ} → List A → List A
pop_back [] = []
pop_back (x ∷ xs) = elim xs [ [] ↦ [] | y ∷ ys ↦ x ∷ pop_back xs ]

-- The loop that drops acceptors, with at least as much fuel as there are.
pub shrink : ℕ → ℕ → List AcceptorContext → List AcceptorContext
unfolding pop_back
shrink zero target acceptors = acceptors
shrink (suc fuel) target acceptors =
    if ltb target (length acceptors) then shrink fuel target (pop_back acceptors) else acceptors

-- Each acceptor in the array, stopped.
pub stop_system : List (Option AcceptorContext) → List (Option AcceptorContext)
unfolding stop_acceptor_locked
stop_system [] = []
stop_system (none ∷ rest) = none ∷ stop_system rest
stop_system (some ctx ∷ rest) = some (stop_acceptor_locked ctx) ∷ stop_system rest

module _ (answers : ℕ → PortAnswers) where
  pub start_acceptor : AcceptorContext → AcceptorContext
  start_acceptor ctx =
      let a = answers ctx.port in
      if not a.opens
      then ctx
      else if not a.binds
      then ctx
      else if not a.listens
      then ctx
      else record ctx { running = true }

  -- The loop of `start`, with `n` rounds left.
  pub start_system : ℕ → ℕ → ℕ → List (Option AcceptorContext)
  unfolding start_acceptor channel_of
  start_system sys_base zero i = []
  start_system sys_base (suc n) i =
      some (
        start_acceptor
          (record { channel = channel_of i; port = u16 (sys_base + i); running = false }))
      ∷ start_system sys_base n (i + 1)

  -- The loop that adds acceptors, from index `i` on with `n` rounds left.
  pub grow : ℕ → ℕ → ℕ → List AcceptorContext → List AcceptorContext
  unfolding start_acceptor
  grow data_base zero i acceptors = acceptors
  grow data_base (suc n) i acceptors = grow data_base n (i + 1) (
      acceptors
      ++ (start_acceptor (record { channel = data_; port = u16 (data_base + i); running = false })
          ∷ []))

  pub ensure_data_acceptors_locked : ℕ → ListenerManager → ListenerManager
  unfolding shrink grow
  ensure_data_acceptors_locked target m =
      let count = length m.data_acceptors in
      if target == count
      then m
      else if ltb target count
      then record m { data_acceptors = shrink count target m.data_acceptors }
      else record m { data_acceptors = grow m.data_base (target - count) count m.data_acceptors }

  pub start : ListenerManager → ListenerManager
  unfolding ensure_data_acceptors_locked start_system
  start m =
      if m.started
      then m
      else ensure_data_acceptors_locked m.desired_data_count (record m {
        started = true;
        system_acceptors = start_system m.sys_base (length m.system_acceptors) 0;
      })

  pub update_data_listener_count : ℕ → ListenerManager → ListenerManager
  unfolding ensure_data_acceptors_locked
  update_data_listener_count new_count m =
      let n : ListenerManager = record m { desired_data_count = new_count } in
      if not m.started then n else ensure_data_acceptors_locked new_count n

pub stop : ListenerManager → ListenerManager
unfolding stop_system
stop m = if not m.started then m else record m {
  system_acceptors = stop_system m.system_acceptors;
  data_acceptors = [];
  started = false;
}
