-- ===== src/Server/Control/Tests.antt =====
-- Concrete inputs for the theorem on commands.
use super_voice.Base.{◌≡◌, refl, true, false, none, some, [], ◌∷◌, arith}
use super_voice.Base.Int.{pos}
use super_voice.Base.Text.{text, same}
use super_voice.Server.Control.{
  ControlPlane, Surroundings, apply_command, read_word, skip_spaces, is_space,
}
use super_voice.Server.Control.Agree.{Agrees, apply_command-Agrees}

abbrev plane : ControlPlane
plane = record {
  listeners = record {
    sys_base = 7000;
    data_base = 9000;
    system_acceptors = none ∷ none ∷ none ∷ none ∷ [];
    data_acceptors = [];
    started = false;
    desired_data_count = 2;
  };
  storage = record {
    patches_dir = text "/p";
    files_dir = text "/f";
    default_ttl = pos 60;
    payloads = [];
    disk = [];
  };
  data_listener_count = 2;
  ttl = pos 60;
  hook_calls = 0;
}

abbrev around : Surroundings
around = record {
  read_size = λ t. 0;
  read_seconds = λ t. pos 5;
  ports = λ port. record { opens = true; binds = true; listens = true };
  saves = [];
}

plane-Agrees : Agrees plane
plane-Agrees = record {
  valid = record {
    numbered = tt;
    as_desired = λ e. cc;
    none_stopped = λ e. refl;
    system_count = omega arith;
  };
  count = refl;
  some_listener = omega arith;
  lifetime = refl;
  positive = refl;
}

pings :
    apply_command around (text "PING") plane ≡ some (text "PONG", record plane { hook_calls = 1 })
unfolding apply_command read_word skip_spaces is_space same
pings = refl

apply_command-Agrees_example : Agrees (record plane { hook_calls = 1 })
apply_command-Agrees_example =
    apply_command-Agrees around (text "PING") (text "PONG") plane (record plane { hook_calls = 1 })
      plane-Agrees pings
