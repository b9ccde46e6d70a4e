-- ===== src/Client/Queue/Monitor/Wakeups.antt =====
-- That no wakeup at the queue is lost, and that the threads come to rest.
use super_voice.Base.{
  ℕ, ◌+◌, ◌≤◌, ◌<◌, ◌≡◌, refl, ap, ◌⊎◌, inl, inr, true, false, none, some, Bool-cases, ◌*◌, List,
  [], ◌∷◌, ◌++◌, arith, length, length-append,
}
use super_voice.Client.Queue.{Queue, blocked, returns, push, pop, close}
use super_voice.Client.Queue.Monitor.{
  Monitor, Turn, Turns, Step, Reach, pops, pushes, none_yet, then_, calls_pop, calls_push, takes,
  closes, tells_poppers, tells_pushers, wakes_popper, wakes_pusher, here, next, push_turn, pop_turn,
  close_turn, tell_poppers, tell_pushers,
}

-- While a pop sleeps, either the queue is open and as many pops are ready as it holds values, or it is
-- closed and a notification is to come; and likewise a push, for the places that are free.
pub record NoLostWakeup {A : Type 0} (m : Monitor A) : Type 0 where
  pub poppers :
      (m.poppers.asleep ≡ 0)
      ⊎ ((m.queue.closed ≡ false) × (length m.queue.items ≤ m.poppers.ready))
      ⊎ ((m.queue.closed ≡ true) × (0 < m.untold_poppers))
  pub pushers :
      (m.pushers.asleep ≡ 0)
      ⊎ ((m.queue.closed ≡ false) × (m.queue.capacity ≤ length m.queue.items + m.pushers.ready))
      ⊎ ((m.queue.closed ≡ true) × (0 < m.untold_pushers))

module _ {A : Type 0} where
  pop_cases :
      (q : Queue A)
      → ((pop q ≡ blocked) × (q.closed ≡ false) × (length q.items ≡ 0))
        ⊎ ((pop q ≡ returns (none, q)) × (q.closed ≡ true))
        ⊎ ((x : A) × (rest : List A) × (length q.items ≡ length rest + 1)
            × (pop q ≡ returns (some x, record q { items = rest })))
  unfolding pop
  pop_cases q = by_items q.items refl
    where
      by_items :
          (xs : List A)
          → q.items ≡ xs
          → ((pop q ≡ blocked) × (q.closed ≡ false) × (length q.items ≡ 0))
            ⊎ ((pop q ≡ returns (none, q)) × (q.closed ≡ true))
            ⊎ ((x : A) × (rest : List A) × (length q.items ≡ length rest + 1)
                × (pop q ≡ returns (some x, record q { items = rest })))
      by_items [] e = elim (Bool-cases q.closed) [
        | inl shut ↦ inr (inl (ground (arith, e, shut), shut))
        | inr open_ ↦ inl (ground (arith, e, open_), open_, ap (λ (xs : List A). length xs) e)
      ]
      by_items (x ∷ rest) e =
          inr (inr (x, rest, omega (arith, ap (λ (xs : List A). length xs) e), ground (arith, e)))

  push_cases :
      (q : Queue A) (x : A)
      → ((push q x ≡ blocked) × (q.closed ≡ false) × (q.capacity ≤ length q.items))
        ⊎ ((push q x ≡ returns (false, q)) × (q.closed ≡ true))
        ⊎ ((q.closed ≡ false)
            × (push q x ≡ returns (true, record q { items = q.items ++ (x ∷ []) })))
  unfolding push
  push_cases q x = ground arith

  pop_turn-NoLostWakeup :
      (m : Monitor A) → 0 < m.poppers.ready → NoLostWakeup m → NoLostWakeup (pop_turn m)
  unfolding pop_turn
  pop_turn-NoLostWakeup m some_ready v = elim (pop_cases m.queue) [
    | inl (e, open_, nothing) ↦
        rw (e, pop_turn) (record { poppers = inr (inl (open_, omega arith)); pushers = v.pushers })
    | inr (inl (e, shut)) ↦
        rw (e, pop_turn) (record { poppers = ground (arith, v.poppers); pushers = v.pushers })
    | inr (inr (x, rest, size, e)) ↦
        rw (e, pop_turn)
          (record { poppers = ground (arith, v.poppers); pushers = ground (arith, v.pushers) })
  ]

  push_turn-NoLostWakeup :
      (x : A) (m : Monitor A) → 0 < m.pushers.ready → NoLostWakeup m → NoLostWakeup (push_turn x m)
  unfolding push_turn
  push_turn-NoLostWakeup x m some_ready v = elim (push_cases m.queue x) [
    | inl (e, open_, full) ↦
        rw (e, push_turn)
          (record { poppers = v.poppers; pushers = inr (inl (open_, omega (arith, full))) })
    | inr (inl (e, shut)) ↦
        rw (e, push_turn) (record { poppers = v.poppers; pushers = ground (arith, v.pushers) })
    | inr (inr (open_, e)) ↦
        rw (e, push_turn)
          (let size = length-append m.queue.items (x ∷ []) in
            record { poppers = ground (arith, v.poppers); pushers = ground (arith, v.pushers) })
  ]

  Turn-NoLostWakeup : {m n : Monitor A} → Turn m n → NoLostWakeup m → NoLostWakeup n
  Turn-NoLostWakeup {m} (pops r) v = pop_turn-NoLostWakeup m r v
  Turn-NoLostWakeup {m} (pushes x r) v = push_turn-NoLostWakeup x m r v

  Step-NoLostWakeup : {m n : Monitor A} → Step m n → NoLostWakeup m → NoLostWakeup n
  unfolding close_turn close tell_poppers tell_pushers
  Step-NoLostWakeup calls_pop v = record {
    poppers = ground (arith, v.poppers);
    pushers = v.pushers;
  }
  Step-NoLostWakeup calls_push v = record {
    poppers = v.poppers;
    pushers = ground (arith, v.pushers);
  }
  Step-NoLostWakeup (takes t) v = Turn-NoLostWakeup t v
  Step-NoLostWakeup closes v = record {
    poppers = inr (inr (refl, omega arith));
    pushers = inr (inr (refl, omega arith));
  }
  Step-NoLostWakeup (tells_poppers r) v = record { poppers = inl refl; pushers = v.pushers }
  Step-NoLostWakeup (tells_pushers r) v = record { poppers = v.poppers; pushers = inl refl }
  Step-NoLostWakeup (wakes_popper r) v = record {
    poppers = ground (arith, r, v.poppers);
    pushers = v.pushers;
  }
  Step-NoLostWakeup (wakes_pusher r) v = record {
    poppers = v.poppers;
    pushers = ground (arith, r, v.pushers);
  }

  calls_keep : {m n : Monitor A} → Reach m n → NoLostWakeup m → NoLostWakeup n
  calls_keep here v = v
  calls_keep (next r st) v = Step-NoLostWakeup st (calls_keep r v)

  -- A call that is ready counts twice.
  abbrev pub weight : Monitor A → ℕ
  weight m = 2 * (m.poppers.ready + m.pushers.ready) + m.poppers.asleep + m.pushers.asleep

  Turn-weight : {m n : Monitor A} → Turn m n → weight n + 1 ≤ weight m
  unfolding pop_turn push_turn
  Turn-weight {m} (pops r) = elim (pop_cases m.queue) [
    | inl (e, _, _) ↦ rw (e, pop_turn) (omega arith)
    | inr (inl (e, _)) ↦ rw (e, pop_turn) (omega arith)
    | inr (inr (x, rest, size, e)) ↦ rw (e, pop_turn) (ground arith)
  ]
  Turn-weight {m} (pushes x r) = elim (push_cases m.queue x) [
    | inl (e, _, _) ↦ rw (e, push_turn) (omega arith)
    | inr (inl (e, _)) ↦ rw (e, push_turn) (omega arith)
    | inr (inr (_, e)) ↦ rw (e, push_turn) (ground arith)
  ]

  Turns-settle :
      {m v : Monitor A} {n : ℕ}
      → Turns m n v
      → NoLostWakeup m
      → (n + weight v ≤ weight m) × NoLostWakeup v
  Turns-settle none_yet k = (omega arith, k)
  Turns-settle (then_ r t) k =
      let (before, kept) = Turns-settle r k in
      (omega (arith, before, Turn-weight t), Turn-NoLostWakeup t kept)

  abbrev pub idle : Queue A → Monitor A
  idle q = record {
    queue = q;
    poppers = record { ready = 0; asleep = 0 };
    pushers = record { ready = 0; asleep = 0 };
    untold_poppers = 0;
    untold_pushers = 0;
  }

  -- After any calls on a queue that no thread used before, with wakeups without a reason among them:
  -- each turn that a ready thread takes next, while no call, close, notification of a close or wakeup
  -- comes between, takes something off the weight of the threads in calls, where a ready one counts 2
  -- and one asleep counts 1, so that there are no more such turns than this weight; and after them no
  -- wakeup is lost: pops sleep only while at least as many pops are ready as the open queue holds
  -- values, or while the queue is closed and a `notify_all` for them is to come; pushes sleep only while
  -- at least as many pushes are ready as the open queue has free places, or while the queue is closed
  -- and a `notify_all` for them is to come.
  pub Reach-settles :
      (q : Queue A) {m v : Monitor A} {n : ℕ}
      → Reach (idle q) m
      → Turns m n v
      → (n + weight v ≤ weight m) × NoLostWakeup v
  Reach-settles q r turns =
      Turns-settle turns (calls_keep r (record { poppers = inl refl; pushers = inl refl }))
