-- ===== src/Server/Control.antt =====
-- `class ControlPlane` of FileRelay_.server/Server/src/control.hpp: the commands of the control
-- channel. How a stream reads a number (`std::istream >>`) is an argument, of what follows the word
-- that was read; the hook for metrics is a number of calls.
use super_voice.Base.{
  ℕ, zero, suc, ◌+◌, Bool, true, false, ◌&&◌, ◌||◌, Option, none, some, List, [], ◌∷◌, ◌++◌, ltb,
  leb, ◌==◌, if◌then◌else◌,
}
use super_voice.Base.Text.{text, same, to_string, to_string_signed}
use super_voice.Base.Int.{ℤ, is_positive}
use super_voice.Server.Disk.{SaveCalls}
use super_voice.Server.Storage.{Storage, update_ttl}
use super_voice.Server.Listeners.{ListenerManager, PortAnswers, update_data_listener_count}
pub mod Agree
pub mod Tests

-- `listeners_`, `storage_` and the two counters stand for the objects that the class refers to.
pub record ControlPlane : Type 0 where
  pub listeners : ListenerManager
  pub storage : Storage
  pub data_listener_count : ℕ
  pub ttl : ℤ
  pub hook_calls : ℕ

-- How numbers are read, of an unsigned and a signed type, and what the operating system answers.
pub record Surroundings : Type 0 where
  pub read_size : List ℕ → ℕ
  pub read_seconds : List ℕ → ℤ
  pub ports : ℕ → PortAnswers
  pub saves : List SaveCalls

pub is_space : ℕ → Bool
is_space c = c == 32 || (leb 9 c && leb c 13)

pub skip_spaces : List ℕ → List ℕ
unfolding is_space
skip_spaces [] = []
skip_spaces (c ∷ cs) = if is_space c then skip_spaces cs else c ∷ cs

-- `ss >> verb` on a text with no space in front: the word, and what follows it.
pub read_word : List ℕ → List ℕ × List ℕ
unfolding is_space
read_word [] = ([], [])
read_word (c ∷ cs) =
    let rest = read_word cs in if is_space c then ([], c ∷ cs) else (c ∷ rest.0, rest.1)

pub scale_data : Surroundings → List ℕ → ControlPlane → List ℕ × ControlPlane
scale_data env args p =
    let value = env.read_size args in
    if value == 0 then (text "ERR data listener count must be > 0", p) else (
      text "OK data listeners=" ++ to_string value,
      record p {
        data_listener_count = value;
        listeners = update_data_listener_count env.ports value p.listeners;
      },
    )

pub set_ttl : Surroundings → List ℕ → ControlPlane → Option (List ℕ × ControlPlane)
set_ttl env args p =
    let seconds = env.read_seconds args in
    if is_positive seconds
    then (elim (update_ttl seconds env.saves p.storage) [
      | none ↦ none
      | some storage ↦ some (
        text "OK ttl=" ++ to_string_signed seconds,
        record p { ttl = seconds; storage = storage },
      )
    ])
    else some (text "ERR ttl must be positive", p)

pub status : ControlPlane → List ℕ
status p =
    text "OK listeners="
    ++ (to_string p.data_listener_count ++ (text " ttl=" ++ to_string_signed p.ttl))

-- `none`: the answers ended before the call did, as for `update_ttl`.
pub apply_command : Surroundings → List ℕ → ControlPlane → Option (List ℕ × ControlPlane)
unfolding skip_spaces read_word scale_data set_ttl status
apply_command env command p =
    let (verb, args) = read_word (skip_spaces command) in
    if same verb (text "SCALE_DATA")
    then some (scale_data env args p)
    else if same verb (text "SET_TTL")
    then set_ttl env args p
    else if same verb (text "PING")
    then some (text "PONG", record p { hook_calls = p.hook_calls + 1 })
    else if same verb (text "STATUS")
    then some (status p, p)
    else some (text "ERR unknown command", p)
