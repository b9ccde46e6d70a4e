-- ===== src/Client/Queue/Monitor.antt =====
-- The threads that wait at the queue of FileRelay_.server/Client/src/queue.hpp: its two condition
-- variables, and who is told when. A thread in a call is ready, where it is about to take the mutex and
-- test its wait's predicate, or asleep on the condition variable.
pub mod Wakeups
use super_voice.Base.{
  ℕ, ◌+◌, ◌-◌, ◌≤◌, ◌<◌, ◌≡◌, refl, ap, ◌⊎◌, inl, inr, true, false, none, some, Bool-cases, ◌*◌,
  List, [], ◌∷◌, ◌++◌, arith, length, length-append, ltb, if◌then◌else◌,
}
use super_voice.Client.Queue.{Queue, blocked, returns, push, pop, close}

-- The threads in calls of one kind.
pub record Threads : Type 0 where
  pub ready : ℕ
  pub asleep : ℕ

-- `untold` counts the calls of `close` that have not yet called `notify_all`.
pub record Monitor (A : Type 0) : Type 0 where
  pub queue : Queue A
  pub poppers : Threads
  pub pushers : Threads
  pub untold_poppers : ℕ
  pub untold_pushers : ℕ

abbrev pub enters : Threads → Threads
enters t = record t { ready = t.ready + 1 }

abbrev pub leaves : Threads → Threads
leaves t = record t { ready = t.ready - 1 }

abbrev pub sleeps : Threads → Threads
sleeps t = record { ready = t.ready - 1; asleep = t.asleep + 1 }

abbrev pub wakes : Threads → Threads
wakes t = record { ready = t.ready + 1; asleep = t.asleep - 1 }

abbrev pub notify_one : Threads → Threads
notify_one t = if ltb 0 t.asleep then wakes t else t

abbrev pub notify_all : Threads → Threads
notify_all t = record { ready = t.ready + t.asleep; asleep = 0 }

module _ {A : Type 0} where
  -- What a ready thread does under the mutex.
  unfoldable pub push_turn : A → Monitor A → Monitor A
  unfolding push
  push_turn x m = elim (push m.queue x) [
    | blocked ↦ record m { pushers = sleeps m.pushers }
    | returns (true, q) ↦ record m {
      queue = q;
      pushers = leaves m.pushers;
      poppers = notify_one m.poppers;
    }
    | returns (false, q) ↦ record m { queue = q; pushers = leaves m.pushers }
  ]

  unfoldable pub pop_turn : Monitor A → Monitor A
  unfolding pop
  pop_turn m = elim (pop m.queue) [
    | blocked ↦ record m { poppers = sleeps m.poppers }
    | returns (some x, q) ↦ record m {
      queue = q;
      poppers = leaves m.poppers;
      pushers = notify_one m.pushers;
    }
    | returns (none, q) ↦ record m { queue = q; poppers = leaves m.poppers }
  ]

  -- `close` under the mutex, and the two notifications behind it.
  pub close_turn : Monitor A → Monitor A
  unfolding close
  close_turn m = record m {
    queue = close m.queue;
    untold_poppers = m.untold_poppers + 1;
    untold_pushers = m.untold_pushers + 1;
  }

  pub tell_poppers : Monitor A → Monitor A
  tell_poppers m = record m {
    poppers = notify_all m.poppers;
    untold_poppers = m.untold_poppers - 1;
  }

  pub tell_pushers : Monitor A → Monitor A
  tell_pushers m = record m {
    pushers = notify_all m.pushers;
    untold_pushers = m.untold_pushers - 1;
  }

-- A ready thread takes the mutex.
pub data Turn {A : Type 0} (m : Monitor A) : Monitor A → Type 0 where
  pops : 0 < m.poppers.ready → Turn m (pop_turn m)
  pushes : (x : A) → 0 < m.pushers.ready → Turn m (push_turn x m)

-- As many turns, one after the other.
pub data Turns {A : Type 0} (m : Monitor A) : ℕ → Monitor A → Type 0 where
  none_yet : Turns m 0 m
  then_ : {n : ℕ} {u v : Monitor A} → Turns m n u → Turn u v → Turns m (n + 1) v

-- What threads and the scheduler may do next; the last two are wakeups without a notification.
pub data Step {A : Type 0} (m : Monitor A) : Monitor A → Type 0 where
  calls_pop : Step m (record m { poppers = enters m.poppers })
  calls_push : Step m (record m { pushers = enters m.pushers })
  takes : {n : Monitor A} → Turn m n → Step m n
  closes : Step m (close_turn m)
  tells_poppers : 0 < m.untold_poppers → Step m (tell_poppers m)
  tells_pushers : 0 < m.untold_pushers → Step m (tell_pushers m)
  wakes_popper : 0 < m.poppers.asleep → Step m (record m { poppers = wakes m.poppers })
  wakes_pusher : 0 < m.pushers.asleep → Step m (record m { pushers = wakes m.pushers })

pub data Reach {A : Type 0} (m : Monitor A) : Monitor A → Type 0 where
  here : Reach m m
  next : {u v : Monitor A} → Reach m u → Step u v → Reach m v
