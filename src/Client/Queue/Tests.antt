-- ===== src/Client/Queue/Tests.antt =====
-- Concrete inputs for the theorems on the queue.
use super_voice.Base.{ℕ, ◌+◌, ◌≤◌, ◌≡◌, arith, refl, false, [], ◌∷◌}
use super_voice.Base.Result.{ok}
use super_voice.Client.Queue.{Queue, construct, push}
use super_voice.Client.Queue.Monitor
use super_voice.Client.Queue.Monitor.{
  Monitor, calls_pop, calls_push, takes, pops, pushes, then_, none_yet, enters, pop_turn, push_turn,
}
use super_voice.Client.Queue.Monitor.Wakeups.{NoLostWakeup, idle, weight, Reach-settles}
use super_voice.Client.Queue.History.{
  World, Reach, here, next, pushed, IsValid, fresh, Reach-IsValid,
}

abbrev small : Queue ℕ
small = record { capacity = 1; items = []; closed = false }

abbrev filled : World ℕ
filled = record { queue = record small { items = 8 ∷ [] }; accepted = 8 ∷ []; handed_out = [] }

fills : Reach (fresh small) filled
unfolding push
fills = next here (pushed 8 (record small { items = 8 ∷ [] }) refl)

made : construct 1 ≡ ok small
unfolding construct
made = refl

Reach-IsValid_example : IsValid 1 filled
Reach-IsValid_example = Reach-IsValid 1 small made fills

abbrev called : Monitor ℕ
called = record (idle small) { poppers = record { ready = 1; asleep = 0 } }

-- A pop that found the queue empty, and a push that is ready.
abbrev waiting : Monitor ℕ
waiting = record (pop_turn called) { pushers = enters (pop_turn called).pushers }

waits : Monitor.Reach (idle small) waiting
unfolding pop_turn
waits =
    Monitor.next (Monitor.next (Monitor.next Monitor.here calls_pop) (takes (pops (omega arith))))
      calls_push

Reach-settles_example :
    (2 + weight (pop_turn (push_turn 8 waiting)) ≤ weight waiting)
    × NoLostWakeup (pop_turn (push_turn 8 waiting))
unfolding pop_turn push_turn
Reach-settles_example =
    Reach-settles small waits (then_ (then_ none_yet (pushes 8 (omega arith))) (pops (omega arith)))
