-- ===== src/Server/Listeners/Asked.antt =====
-- What the calls on a listener manager asked for, and that it is what there is.
use mathlib.Core.Path.{subst}
use super_voice.Base.{
  ℕ, zero, suc, ◌+◌, ◌≡◌, refl, sym, ap, ◌∙◌, inl, inr, Bool, true, false, Option, none, some, List,
  [], ◌∷◌, arith, length, if◌then◌else◌, Bool-cases, ltb, ◌==◌,
}
use super_voice.Base.Word.{u16}
use super_voice.Server.Listeners.{
  ListenerManager, AcceptorContext, PortAnswers, channel_of, construct, stop_system, start_system,
  ensure_data_acceptors_locked, start, update_data_listener_count, stop,
}
use super_voice.Server.Listeners.Count.{Numbered, start_acceptor-same}
use super_voice.Server.Listeners.Ports.{
  Reach, starts, updates, stops, here, next, update_started, Reach-IsValid,
}

-- The number of data listeners that the constructor or the last update was given.
abbrev pub asked : ℕ → {m n : ListenerManager} → Reach m n → ℕ
asked initial here = initial
asked initial (next r (starts answers)) = asked initial r
asked initial (next r (updates answers n)) = n
asked initial (next r stops) = asked initial r

-- Whether the last of the calls of `start` and `stop` was `start`.
abbrev pub running : {m n : ListenerManager} → Reach m n → Bool
running here = false
running (next r (starts answers)) = true
running (next r (updates answers n)) = running r
running (next r stops) = false

-- The system's acceptors from index `i` on have the channels and the ports that follow one another.
abbrev pub SystemNumbered : ℕ → ℕ → List (Option AcceptorContext) → Type 0
SystemNumbered sys_base i [] = Unit
SystemNumbered sys_base i (none ∷ rest) = ⊥
SystemNumbered sys_base i (some ctx ∷ rest) =
    (ctx.channel ≡ channel_of i)
    × (ctx.port ≡ u16 (sys_base + i))
    × SystemNumbered sys_base (i + 1) rest

-- The fields that follow the arguments of the calls.
record Follows (sys_base data_base asked : ℕ) (running : Bool) (m : ListenerManager) : Type 0 where
  pub system : m.sys_base ≡ sys_base
  pub data_from : m.data_base ≡ data_base
  pub desired : m.desired_data_count ≡ asked
  pub on : m.started ≡ running
  pub acceptors : running ≡ true → SystemNumbered sys_base 0 m.system_acceptors

start_system-SystemNumbered :
    (answers : ℕ → PortAnswers) (base n i : ℕ)
    → SystemNumbered base i (start_system answers base n i)
unfolding start_system
start_system-SystemNumbered answers base zero i = tt
start_system-SystemNumbered answers base (suc n) i =
    let same =
      start_acceptor-same answers
        (record { channel = channel_of i; port = u16 (base + i); running = false }) in
    (same.0, same.1, start_system-SystemNumbered answers base n (i + 1))

module _ (answers : ℕ → PortAnswers) where
  ensure-Follows :
      {sys_base data_base count : ℕ} {on : Bool} (target : ℕ) (m : ListenerManager)
      → Follows sys_base data_base count on m
      → Follows sys_base data_base count on (ensure_data_acceptors_locked answers target m)
  unfolding ensure_data_acceptors_locked
  ensure-Follows target m f = elim (Bool-cases (target == length m.data_acceptors)) [
    | inl same ↦ rw same f
    | inr differs ↦ elim (Bool-cases (ltb target (length m.data_acceptors))) [
      | inl less ↦
          rw (differs, less)
            (record {
              system = f.system;
              data_from = f.data_from;
              desired = f.desired;
              on = f.on;
              acceptors = f.acceptors;
            })
      | inr more ↦
          rw (differs, more)
            (record {
              system = f.system;
              data_from = f.data_from;
              desired = f.desired;
              on = f.on;
              acceptors = f.acceptors;
            })
    ]
  ]

  start-Follows :
      {sys_base data_base count : ℕ} {on : Bool} (m : ListenerManager)
      → Follows sys_base data_base count on m
      → Follows sys_base data_base count true (start answers m)
  unfolding start
  start-Follows {sys_base} {data_base} {count} {on} m f = elim (Bool-cases m.started) [
    | inl started ↦
        subst (Follows sys_base data_base count true) (sym (start_started started)) (record {
          system = f.system;
          data_from = f.data_from;
          desired = f.desired;
          on = started;
          acceptors = λ e. f.acceptors (sym f.on ∙ started);
        })
    | inr stopped ↦ subst (Follows sys_base data_base count true) (sym (start_stopped stopped)) (
        ensure-Follows m.desired_data_count _ (record {
          system = f.system;
          data_from = f.data_from;
          desired = f.desired;
          on = refl;
          acceptors = λ e.
              subst
                (λ b.
                  SystemNumbered b 0
                    (start_system answers m.sys_base (length m.system_acceptors) 0))
                f.system
                (start_system-SystemNumbered answers m.sys_base (length m.system_acceptors) 0);
        }))
  ]
    where
      start_started : m.started ≡ true → start answers m ≡ m
      start_started e = rw e refl

      start_stopped :
          m.started ≡ false
          → start answers m
            ≡ ensure_data_acceptors_locked answers m.desired_data_count (record m {
              started = true;
              system_acceptors = start_system answers m.sys_base (length m.system_acceptors) 0;
            })
      start_stopped e = rw e refl

  update-Follows :
      {sys_base data_base count : ℕ} {on : Bool} (n : ℕ) (m : ListenerManager)
      → Follows sys_base data_base count on m
      → Follows sys_base data_base n on (update_data_listener_count answers n m)
  unfolding update_data_listener_count
  update-Follows {sys_base} {data_base} {count} {on} n m f =
      let changed : ListenerManager = record m { desired_data_count = n } in
      let g : Follows sys_base data_base n on changed = record {
        system = f.system;
        data_from = f.data_from;
        desired = refl;
        on = f.on;
        acceptors = f.acceptors;
      } in
      elim (Bool-cases m.started) [
        | inl started ↦
            subst (Follows sys_base data_base n on) (sym (update_started answers n m started))
              (ensure-Follows n changed g)
        | inr stopped ↦ subst (Follows sys_base data_base n on) (sym (update_stopped stopped)) g
      ]
    where
      update_stopped :
          m.started ≡ false
          → update_data_listener_count answers n m ≡ record m { desired_data_count = n }
      update_stopped e = ground (arith, e)

stop-Follows :
    {sys_base data_base count : ℕ} {on : Bool} (m : ListenerManager)
    → Follows sys_base data_base count on m
    → Follows sys_base data_base count false (stop m)
unfolding stop
stop-Follows {sys_base} {data_base} {count} m f = elim (Bool-cases m.started) [
  | inl started ↦
      subst (Follows sys_base data_base count false) (sym (stop_started started)) (record {
        system = f.system;
        data_from = f.data_from;
        desired = f.desired;
        on = refl;
        acceptors = λ e. cc;
      })
  | inr stopped ↦
      subst (Follows sys_base data_base count false) (sym (stop_stopped stopped)) (record {
        system = f.system;
        data_from = f.data_from;
        desired = f.desired;
        on = stopped;
        acceptors = λ e. cc;
      })
]
  where
    stop_started :
        m.started ≡ true
        → stop m ≡ record m {
          system_acceptors = stop_system m.system_acceptors;
          data_acceptors = [];
          started = false;
        }
    stop_started e = ground (arith, e)

    stop_stopped : m.started ≡ false → stop m ≡ m
    stop_stopped e = ground (arith, e)

Reach-Follows :
    (sys_base data_base initial : ℕ) {m : ListenerManager}
    (r : Reach (construct sys_base data_base initial) m)
    → Follows sys_base data_base (asked initial r) (running r) m
unfolding construct
Reach-Follows sys_base data_base initial here = record {
  system = refl;
  data_from = refl;
  desired = refl;
  on = refl;
  acceptors = λ e. cc;
}
Reach-Follows sys_base data_base initial (next {u} r (starts answers)) =
    start-Follows answers u (Reach-Follows sys_base data_base initial r)
Reach-Follows sys_base data_base initial (next {u} r (updates answers n)) =
    update-Follows answers n u (Reach-Follows sys_base data_base initial r)
Reach-Follows sys_base data_base initial (next {u} r stops) =
    stop-Follows u (Reach-Follows sys_base data_base initial r)

-- What a manager has that was made with these ports, was asked for `asked` data listeners, and runs or
-- does not.
pub record Serves (sys_base data_base asked : ℕ) (running : Bool) (m : ListenerManager)
    : Type 0 where
  pub started : m.started ≡ running
  pub count : length m.data_acceptors ≡ (if running then asked else 0)
  pub data_ports : Numbered data_base 0 m.data_acceptors
  pub system_count : length m.system_acceptors ≡ 4
  pub system_ports : running ≡ true → SystemNumbered sys_base 0 m.system_acceptors

-- After any calls on a new manager: it is started exactly if the last of the starts and stops was a
-- start; while it is, the data acceptors are as many as the constructor or the last update was given,
-- and else there are none; they have the data channel and the ports from the constructor's `data_base`
-- on, one after the other, modulo 2^16; and there are four places for system acceptors, which while the
-- manager is started hold the channels health, telemetry, control and ack in this order, on the ports
-- from the constructor's `sys_base` on, modulo 2^16.
pub Reach-ports :
    (sys_base data_base initial : ℕ) {m : ListenerManager}
    (r : Reach (construct sys_base data_base initial) m)
    → Serves sys_base data_base (asked initial r) (running r) m
Reach-ports sys_base data_base initial {m} r =
    let v = Reach-IsValid sys_base data_base initial r in
    let f = Reach-Follows sys_base data_base initial r in
    record {
      started = f.on;
      count = elim (Bool-cases (running r)) [
        | inl serving ↦ rw serving (v.as_desired (f.on ∙ serving) ∙ f.desired)
        | inr idle ↦
            rw idle (ap (λ (xs : List AcceptorContext). length xs) (v.none_stopped (f.on ∙ idle)))
      ];
      data_ports = subst (λ b. Numbered b 0 m.data_acceptors) f.data_from v.numbered;
      system_count = v.system_count;
      system_ports = f.acceptors;
    }
