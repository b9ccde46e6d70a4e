-- ===== src/Client/Queue.antt =====
-- `class BoundedBlockingQueue` of FileRelay_.server/Client/src/queue.hpp. Each method holds the mutex
-- from the end of its wait on, so it is one step on the state, which is open to it only if its wait's
-- predicate holds; `blocked` is a call that still waits. Monitor has the threads that wait. The two
-- overloads of `push` are one.
pub mod History
pub mod Monitor
pub mod Tests
use super_voice.Base.{
  ℕ, ◌+◌, Bool, true, false, not, ◌&&◌, ◌||◌, Option, none, some, List, [], ◌∷◌, ◌++◌, ltb, ◌==◌,
  if◌then◌else◌, length,
}
use super_voice.Base.Result.{Result, ok, err, invalid_argument}

pub record Queue {ℓ} (A : Type ℓ) : Type ℓ where
  pub capacity : ℕ
  pub items : List A
  pub closed : Bool

pub data Call {ℓ} (R : Type ℓ) : Type ℓ where
  blocked : Call R
  returns : R → Call R

module _ {ℓ} {A : Type ℓ} where
  pub construct : ℕ → Result (Queue A)
  construct capacity =
      if capacity == 0
      then err invalid_argument
      else ok (record { capacity = capacity; items = []; closed = false })

  pub push : Queue A → A → Call (Bool × Queue A)
  push q value =
      if q.closed || ltb (length q.items) q.capacity
      then if q.closed
        then returns (false, q)
        else returns (true, record q { items = q.items ++ (value ∷ []) })
      else blocked

  -- `queue_.empty()`, and the front with what is behind it.
  pub empty : List A → Bool
  empty [] = true
  empty (x ∷ xs) = false

  pub take_front : List A → Option (A × List A)
  take_front [] = none
  take_front (x ∷ xs) = some (x, xs)

  pub pop : Queue A → Call (Option A × Queue A)
  unfolding empty take_front
  pop q =
      if q.closed || not (empty q.items)
      then (elim (take_front q.items) [
        | none ↦ returns (none, q)
        | some (x, rest) ↦ returns (some x, record q { items = rest })
      ])
      else blocked

  pub close : Queue A → Queue A
  close q = record q { closed = true }

  pub size : Queue A → ℕ
  size q = length q.items
