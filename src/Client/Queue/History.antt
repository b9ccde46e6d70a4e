-- ===== src/Client/Queue/History.antt =====
-- The queue under any interleaving of calls from any number of threads.
use mathlib.Core.List.{append_assoc}
use super_voice.Base.{
  ℕ, ◌≤◌, ◌<◌, ◌≡◌, refl, sym, ap, ◌∙◌, ◌⊎◌, inl, inr, Bool, true, false, Option, none, some, List,
  [], ◌∷◌, ◌++◌, arith, length, length-append,
}
use super_voice.Base.Result.{ok}
use super_voice.Client.Queue.{construct, Queue, returns, push, pop, close}

-- The queue, with every value that a `push` accepted and every value that a `pop` handed out.
pub record World {ℓ} (A : Type ℓ) : Type ℓ where
  pub queue : Queue A
  pub accepted : List A
  pub handed_out : List A

-- One call that gets past its wait, by any thread.
pub data Step {ℓ} {A : Type ℓ} (w : World A) : World A → Type ℓ where
  pushed :
      (x : A) (q : Queue A)
      → push w.queue x ≡ returns (true, q)
      → Step w (record { queue = q; accepted = w.accepted ++ (x ∷ []); handed_out = w.handed_out })
  refused :
      (x : A) (q : Queue A) → push w.queue x ≡ returns (false, q) → Step w (record w { queue = q })
  popped :
      (x : A) (q : Queue A)
      → pop w.queue ≡ returns (some x, q)
      → Step w (record { queue = q; accepted = w.accepted; handed_out = w.handed_out ++ (x ∷ []) })
  drained : (q : Queue A) → pop w.queue ≡ returns (none, q) → Step w (record w { queue = q })
  closes : Step w (record w { queue = close w.queue })

pub data Reach {ℓ} {A : Type ℓ} (w : World A) : World A → Type ℓ where
  here : Reach w w
  next : {u v : World A} → Reach w u → Step u v → Reach w v

module _ {A : Type 0} where
  -- What a call that returns did.
  push_inv :
      (q : Queue A) (x : A) (b : Bool) (q' : Queue A)
      → push q x ≡ returns (b, q')
      → ((q.closed ≡ true) × (b ≡ false) × (q' ≡ q))
        ⊎ ((q.closed ≡ false)
            × (length q.items < q.capacity)
            × (b ≡ true)
            × (q' ≡ record q { items = q.items ++ (x ∷ []) }))
  unfolding push
  push_inv q x b q' e = ground arith

  pop_inv :
      (q : Queue A) (o : Option A) (q' : Queue A)
      → pop q ≡ returns (o, q')
      → ((q.closed ≡ true) × (q.items ≡ []) × (o ≡ none) × (q' ≡ q))
        ⊎ ((x : A) × (rest : List A) × (q.items ≡ x ∷ rest)
            × (o ≡ some x)
            × (q' ≡ record q { items = rest }))
  unfolding pop
  pop_inv q o q' e = ground arith

  -- What every state keeps, of a queue of capacity `cap`.
  pub record IsValid (cap : ℕ) (w : World A) : Type 0 where
    pub capacity : w.queue.capacity ≡ cap
    pub bounded : length w.queue.items ≤ cap
    pub conserved : w.accepted ≡ w.handed_out ++ w.queue.items

  Step-IsValid : (cap : ℕ) {w v : World A} → Step w v → IsValid cap w → IsValid cap v
  unfolding close
  Step-IsValid cap {w} (pushed x q e) i = elim (push_inv w.queue x true q e) [
    | inl (c, b, s) ↦ cc
    | inr (c, room, b, s) ↦ rw s (record {
      capacity = i.capacity;
      bounded = omega (arith, i.capacity, length-append w.queue.items (x ∷ []));
      conserved = rw i.conserved (append_assoc w.handed_out w.queue.items (x ∷ []));
    })
  ]
  Step-IsValid cap {w} (refused x q e) i = elim (push_inv w.queue x false q e) [
    | inl (c, b, s) ↦ rw s i
    | inr (c, room, b, s) ↦ cc
  ]
  Step-IsValid cap {w} (popped x q e) i = elim (pop_inv w.queue (some x) q e) [
    | inl (c, n, b, s) ↦ cc
    | inr (y, rest, front, b, s) ↦ rw s (record {
      capacity = i.capacity;
      bounded = omega (arith, i.bounded, ap length front);
      conserved =
          i.conserved
          ∙ rw front
              (let same : y ≡ x = cc in rw same (sym (append_assoc w.handed_out (x ∷ []) rest)));
    })
  ]
  Step-IsValid cap {w} (drained q e) i = elim (pop_inv w.queue none q e) [
    | inl (c, n, b, s) ↦ rw s i
    | inr (y, rest, front, b, s) ↦ cc
  ]
  Step-IsValid cap closes i = record {
    capacity = i.capacity;
    bounded = i.bounded;
    conserved = i.conserved;
  }

  calls_keep : (cap : ℕ) {w v : World A} → Reach w v → IsValid cap w → IsValid cap v
  calls_keep cap here i = i
  calls_keep cap (next r st) i = Step-IsValid cap st (calls_keep cap r i)

  abbrev pub fresh : Queue A → World A
  fresh q = record { queue = q; accepted = []; handed_out = [] }

  -- Whatever calls threads make on a new queue, and in whatever order, it never holds more values
  -- than its capacity, and the values that pushes accepted are, in their order, those that pops
  -- handed out followed by those that it holds: none is lost, doubled or overtaken.
  pub Reach-IsValid :
      (cap : ℕ) (q : Queue A) {w : World A}
      → construct cap ≡ ok q
      → Reach (fresh q) w
      → IsValid cap w
  Reach-IsValid cap q e r = calls_keep cap r (initial cap q e)
    where
      initial : (cap : ℕ) (q : Queue A) → construct cap ≡ ok q → IsValid cap (fresh q)
      initial cap q e = unfold construct in ground arith

  -- What a step on a closed queue leaves as it was.
  abbrev Frozen : World A → World A → Type 0
  Frozen w v =
      (v.queue.closed ≡ true)
      × (v.accepted ≡ w.accepted)
      × (v.handed_out ++ v.queue.items ≡ w.handed_out ++ w.queue.items)

  Step-Frozen : {w v : World A} → Step w v → w.queue.closed ≡ true → Frozen w v
  unfolding close
  Step-Frozen {w} (pushed x q e) c = elim (push_inv w.queue x true q e) [
    | inl (_, b, s) ↦ cc
    | inr (o, room, b, s) ↦ cc
  ]
  Step-Frozen {w} (refused x q e) c = elim (push_inv w.queue x false q e) [
    | inl (_, b, s) ↦ rw s (c, refl, refl)
    | inr (o, room, b, s) ↦ cc
  ]
  Step-Frozen {w} (popped x q e) c = elim (pop_inv w.queue (some x) q e) [
    | inl (_, n, b, s) ↦ cc
    | inr (y, rest, front, b, s) ↦ rw s (
      c,
      refl,
      rw front (let same : x ≡ y = cc in rw same (append_assoc w.handed_out (y ∷ []) rest)),
    )
  ]
  Step-Frozen {w} (drained q e) c = elim (pop_inv w.queue none q e) [
    | inl (_, n, b, s) ↦ rw s (c, refl, refl)
    | inr (y, rest, front, b, s) ↦ cc
  ]
  Step-Frozen closes c = (refl, refl, refl)

  -- From a state whose queue is closed, whatever calls follow, the queue stays closed, no further
  -- value is accepted, and the values handed out followed by those that the queue holds stay the
  -- same.
  pub closed_for_good :
      {w v : World A}
      → w.queue.closed ≡ true
      → Reach w v
      → (v.queue.closed ≡ true)
        × (v.accepted ≡ w.accepted)
        × (v.handed_out ++ v.queue.items ≡ w.handed_out ++ w.queue.items)
  closed_for_good c here = (c, refl, refl)
  closed_for_good c (next r st) =
      let before = closed_for_good c r in
      let step = Step-Frozen st before.0 in (step.0, step.1 ∙ before.1, step.2 ∙ before.2)
