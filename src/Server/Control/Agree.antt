-- ===== src/Server/Control/Agree.antt =====
-- That the counters which `STATUS` reports are what the parts behind them work with.
use super_voice.Base.{
  ℕ, ◌+◌, ◌<◌, ◌≡◌, ap, ◌⊎◌, inl, inr, true, some, List, arith, ◌==◌, Bool-cases,
}
use super_voice.Base.Text.{text}
use super_voice.Base.Int.{is_positive}
use super_voice.Server.Storage.{update_ttl}
use super_voice.Server.Storage.Ttl.{update_ttl-default}
use super_voice.Server.Listeners.Ports.{
  IsValid, update_data_listener_count-IsValid, update_data_listener_count-desired,
}
use super_voice.Server.Control.{
  ControlPlane, Surroundings, scale_data, set_ttl, apply_command, status, read_word, skip_spaces,
}

pub record Agrees (p : ControlPlane) : Type 0 where
  pub valid : IsValid p.listeners
  pub count : p.listeners.desired_data_count ≡ p.data_listener_count
  pub some_listener : 0 < p.data_listener_count
  pub lifetime : p.storage.default_ttl ≡ p.ttl
  pub positive : is_positive p.ttl ≡ true

scale_data-Agrees :
    (env : Surroundings) (args : List ℕ) (p : ControlPlane)
    → Agrees p
    → Agrees (scale_data env args p).1
unfolding scale_data
scale_data-Agrees env args p a = elim (Bool-cases (env.read_size args == 0)) [
  | inl nothing ↦ rw nothing a
  | inr several ↦ rw several (record {
    valid = update_data_listener_count-IsValid env.ports (env.read_size args) p.listeners a.valid;
    count = update_data_listener_count-desired env.ports (env.read_size args) p.listeners;
    some_listener = ground (arith, several);
    lifetime = a.lifetime;
    positive = a.positive;
  })
]

set_ttl_inv :
    (env : Surroundings) (args response : List ℕ) (p q : ControlPlane)
    → set_ttl env args p ≡ some (response, q)
    → (q ≡ p)
      ⊎ ((is_positive (env.read_seconds args) ≡ true)
          × (update_ttl (env.read_seconds args) env.saves p.storage ≡ some q.storage)
          × (q ≡ record p { ttl = env.read_seconds args; storage = q.storage }))
unfolding set_ttl
set_ttl_inv env args response p q e = ground arith

set_ttl-Agrees :
    (env : Surroundings) (args response : List ℕ) (p q : ControlPlane)
    → Agrees p
    → set_ttl env args p ≡ some (response, q)
    → Agrees q
set_ttl-Agrees env args response p q a e = elim (set_ttl_inv env args response p q e) [
  | inl same_plane ↦ rw same_plane a
  | inr (positive, updated, changed) ↦ rw changed (record {
    valid = a.valid;
    count = a.count;
    some_listener = a.some_listener;
    lifetime = update_ttl-default (env.read_seconds args) p.storage q.storage env.saves updated;
    positive = positive;
  })
]

apply_command_inv :
    (env : Surroundings) (command response : List ℕ) (p q : ControlPlane)
    → apply_command env command p ≡ some (response, q)
    → let args = (read_word (skip_spaces command)).1 in
      ((response, q) ≡ scale_data env args p)
      ⊎ ((set_ttl env args p ≡ some (response, q))
          ⊎ ((q ≡ record p { hook_calls = p.hook_calls + 1 })
              ⊎ ((response ≡ status p) × (q ≡ p)
                  ⊎ (response ≡ text "ERR unknown command") × (q ≡ p))))
unfolding apply_command
apply_command_inv env command response p q e = ground arith

-- A command whose answers suffice keeps what was so before: the number of data listeners that `STATUS`
-- reports is positive and the one the listener manager works with, the lifetime is positive and the one
-- the storage gives to new entries, and the listener manager is valid.
pub apply_command-Agrees :
    (env : Surroundings) (command response : List ℕ) (p q : ControlPlane)
    → Agrees p
    → apply_command env command p ≡ some (response, q)
    → Agrees q
apply_command-Agrees env command response p q a e =
    elim (apply_command_inv env command response p q e) [
      | inl scaled ↦
          rw (ap (λ (r : List ℕ × ControlPlane). r.1) scaled) (scale_data-Agrees env _ p a)
      | inr (inl set_) ↦ set_ttl-Agrees env _ response p q a set_
      | inr (inr (inl pinged)) ↦ rw pinged (record {
        valid = a.valid;
        count = a.count;
        some_listener = a.some_listener;
        lifetime = a.lifetime;
        positive = a.positive;
      })
      | inr (inr (inr (inl (_, same_plane)))) ↦ rw same_plane a
      | inr (inr (inr (inr (_, same_plane)))) ↦ rw same_plane a
    ]
