-- ===== src/Server/Listeners/Ports.antt =====
-- Which data listeners there are after any calls; what a change leaves alone.
use mathlib.Core.Path.{subst}
use super_voice.Base.{
  ℕ, zero, suc, ◌+◌, ◌≡◌, ◌≢◌, refl, sym, ap, ◌∙◌, inl, inr, true, false, Option, none, some, List,
  [], ◌∷◌, arith, length, take, min, Bool-cases,
}
use super_voice.Server.Listeners.{
  ListenerManager, AcceptorContext, PortAnswers, construct, stop_system, start_system,
  ensure_data_acceptors_locked, start, update_data_listener_count, stop,
}
use super_voice.Server.Listeners.Count.{Numbered, ensure-Ensured}

pub record IsValid (m : ListenerManager) : Type 0 where
  pub numbered : Numbered m.data_base 0 m.data_acceptors
  pub as_desired : m.started ≡ true → length m.data_acceptors ≡ m.desired_data_count
  pub none_stopped : m.started ≡ false → m.data_acceptors ≡ []
  pub system_count : length m.system_acceptors ≡ 4

module _ (answers : ℕ → PortAnswers) where
  ensure-IsValid :
      (m : ListenerManager)
      → Numbered m.data_base 0 m.data_acceptors
      → m.started ≡ true
      → length m.system_acceptors ≡ 4
      → IsValid (ensure_data_acceptors_locked answers m.desired_data_count m)
  ensure-IsValid m h on four =
      let r = ensure-Ensured answers m.desired_data_count m h in
      record {
        numbered =
            subst
              (λ b.
                Numbered b 0
                  (ensure_data_acceptors_locked answers m.desired_data_count m).data_acceptors)
              (sym (ap (λ (q : ListenerManager). q.data_base) r.rest)) r.numbered;
        as_desired = λ e. r.count ∙ sym (ap (λ (q : ListenerManager). q.desired_data_count) r.rest);
        none_stopped = λ e.
            absurd (differ (sym on ∙ sym (ap (λ (q : ListenerManager). q.started) r.rest) ∙ e));
        system_count = ap (λ (q : ListenerManager). length q.system_acceptors) r.rest ∙ four;
      }
    where
      differ : true ≢ false
      differ p = cc

  length-start_system : (base n i : ℕ) → length (start_system answers base n i) ≡ n
  unfolding start_system
  length-start_system base zero i = refl
  length-start_system base (suc n) i = omega (arith, length-start_system base n (i + 1))

  start-IsValid : (m : ListenerManager) → IsValid m → IsValid (start answers m)
  unfolding start
  start-IsValid m v = elim (Bool-cases m.started) [
    | inl on ↦ subst IsValid (sym (started_eq on)) v
    | inr off ↦ subst IsValid (sym (stopped_eq off)) (
        ensure-IsValid _ v.numbered refl
          (length-start_system m.sys_base (length m.system_acceptors) 0 ∙ v.system_count))
  ]
    where
      started_eq : m.started ≡ true → start answers m ≡ m
      started_eq on = rw on refl

      stopped_eq :
          m.started ≡ false
          → start answers m
            ≡ ensure_data_acceptors_locked answers m.desired_data_count (record m {
              started = true;
              system_acceptors = start_system answers m.sys_base (length m.system_acceptors) 0;
            })
      stopped_eq off = rw off refl

  pub update_started :
      (n : ℕ) (m : ListenerManager)
      → m.started ≡ true
      → update_data_listener_count answers n m
        ≡ ensure_data_acceptors_locked answers n (record m { desired_data_count = n })
  unfolding update_data_listener_count
  update_started n m on = ground (arith, on)

  pub update_data_listener_count-desired :
      (n : ℕ) (m : ListenerManager)
      → (update_data_listener_count answers n m).desired_data_count ≡ n
  unfolding update_data_listener_count ensure_data_acceptors_locked
  update_data_listener_count-desired n m = ground arith

  pub update_data_listener_count-IsValid :
      (n : ℕ) (m : ListenerManager) → IsValid m → IsValid (update_data_listener_count answers n m)
  unfolding update_data_listener_count
  update_data_listener_count-IsValid n m v = elim (Bool-cases m.started) [
    | inl on ↦
        subst IsValid (sym (update_started n m on))
          (ensure-IsValid (record m { desired_data_count = n }) v.numbered on v.system_count)
    | inr off ↦ subst IsValid (sym (stopped_eq off)) (record {
      numbered = v.numbered;
      as_desired = λ e. cc;
      none_stopped = v.none_stopped;
      system_count = v.system_count;
    })
  ]
    where
      stopped_eq :
          m.started ≡ false
          → update_data_listener_count answers n m ≡ record m { desired_data_count = n }
      stopped_eq off = ground (arith, off)

length-stop_system : (xs : List (Option AcceptorContext)) → length (stop_system xs) ≡ length xs
unfolding stop_system
length-stop_system [] = refl
length-stop_system (none ∷ xs) = omega (arith, length-stop_system xs)
length-stop_system (some x ∷ xs) = omega (arith, length-stop_system xs)

stop-IsValid : (m : ListenerManager) → IsValid m → IsValid (stop m)
unfolding stop
stop-IsValid m v = elim (Bool-cases m.started) [
  | inl on ↦ subst IsValid (sym (started_eq on)) (record {
    numbered = tt;
    as_desired = λ e. cc;
    none_stopped = λ e. refl;
    system_count = length-stop_system m.system_acceptors ∙ v.system_count;
  })
  | inr off ↦ subst IsValid (sym (stopped_eq off)) v
]
  where
    started_eq :
        m.started ≡ true
        → stop m ≡ record m {
          system_acceptors = stop_system m.system_acceptors;
          data_acceptors = [];
          started = false;
        }
    started_eq on = ground (arith, on)

    stopped_eq : m.started ≡ false → stop m ≡ m
    stopped_eq off = ground (arith, off)

-- A call, with the answers that the operating system gives during it.
pub data Step (m : ListenerManager) : ListenerManager → Type 0 where
  starts : (answers : ℕ → PortAnswers) → Step m (start answers m)
  updates : (answers : ℕ → PortAnswers) (n : ℕ) → Step m (update_data_listener_count answers n m)
  stops : Step m (stop m)

pub data Reach (m : ListenerManager) : ListenerManager → Type 0 where
  here : Reach m m
  next : {u v : ListenerManager} → Reach m u → Step u v → Reach m v

Step-IsValid : {u v : ListenerManager} → Step u v → IsValid u → IsValid v
Step-IsValid {u} (starts answers) h = start-IsValid answers u h
Step-IsValid {u} (updates answers n) h = update_data_listener_count-IsValid answers n u h
Step-IsValid {u} stops h = stop-IsValid u h

pub Reach-IsValid :
    (sys_base data_base initial : ℕ) {m : ListenerManager}
    → Reach (construct sys_base data_base initial) m
    → IsValid m
unfolding construct
Reach-IsValid sys_base data_base initial here = record {
  numbered = tt;
  as_desired = λ e. cc;
  none_stopped = λ e. refl;
  system_count = omega arith;
}
Reach-IsValid sys_base data_base initial (next r st) =
    Step-IsValid st (Reach-IsValid sys_base data_base initial r)

-- On a started manager that is valid, a new count is met, and the acceptors whose index is below both
-- the old count and the new one are the ones of before, unchanged.
pub update_keeps :
    (answers : ℕ → PortAnswers) (n : ℕ) (m : ListenerManager)
    → IsValid m
    → m.started ≡ true
    → let after = (update_data_listener_count answers n m).data_acceptors in
      let both = min n (length m.data_acceptors) in
      (length after ≡ n) × (take both after ≡ take both m.data_acceptors)
update_keeps answers n m v on =
    let r = ensure-Ensured answers n (record m { desired_data_count = n }) v.numbered in
    rw (update_started answers n m on) (r.count, r.kept)
