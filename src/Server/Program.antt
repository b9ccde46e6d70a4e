-- ===== src/Server/Program.antt =====
-- FileRelay_.server/Server/src/main.cpp: the arguments of the program and the text of its metrics.
-- How a text is read as a number is an argument (`none` is an exception).
use super_voice.Base.{ℕ, Option, none, some, List, [], ◌∷◌, ◌++◌, ◌||◌, if◌then◌else◌}
use super_voice.Base.Text.{text, same, to_string}
use super_voice.Base.Word.{u16}
use super_voice.Base.Int.{ℤ, pos}

pub record Config : Type 0 where
  pub listen_address : List ℕ
  pub sys_base : ℕ
  pub data_base : ℕ
  pub data_listeners : ℕ
  pub ttl : ℤ
  pub root_dir : List ℕ

abbrev pub default_config : List ℕ → Config
default_config listen_address = record {
  listen_address = listen_address;
  sys_base = 7000;
  data_base = 7100;
  data_listeners = 4;
  ttl = pos 3600;
  root_dir = text "server_data";
}

-- `stoi` cut to 16 bits, `stoul`, `stoll` and `make_address`.
pub record Readers : Type 0 where
  pub stoi : List ℕ → Option ℕ
  pub stoul : List ℕ → Option ℕ
  pub stoll : List ℕ → Option ℤ
  pub make_address : List ℕ → Option (List ℕ)

-- `exits` is `--help`, and `threw` an exception.
pub data Parsed : Type 0 where
  exits threw : Parsed
  parsed : Config → Parsed

-- The options that take a value, once one follows: the new configuration, if the text is such an
-- option, or the exception.
pub data Taken : Type 0 where
  not_taken invalid : Taken
  taken : Config → Taken

abbrev taken_from {ℓ} : {A : Type ℓ} → Option A → (A → Config) → Taken
taken_from none f = invalid
taken_from (some a) f = taken (f a)

pub take_option : Readers → List ℕ → List ℕ → Config → Taken
take_option r arg value config =
    if same arg (text "--address")
    then taken_from (r.make_address value) (λ a. record config { listen_address = a })
    else if same arg (text "--sys-base")
    then taken_from (r.stoi value) (λ n. record config { sys_base = u16 n })
    else if same arg (text "--data-base")
    then taken_from (r.stoi value) (λ n. record config { data_base = u16 n })
    else if same arg (text "--x")
    then taken_from (r.stoul value) (λ n. record config { data_listeners = n })
    else if same arg (text "--ttl")
    then taken_from (r.stoll value) (λ z. record config { ttl = z })
    else if same arg (text "--root")
    then taken (record config { root_dir = value })
    else not_taken

-- The loop over the arguments after the program's name. An option without its value, and any other
-- text, is reported and passed over.
pub parse_loop : Readers → List (List ℕ) → Config → Parsed
unfolding take_option
parse_loop r [] config = parsed config
parse_loop r (arg ∷ []) config =
    if same arg (text "--help") || same arg (text "-h") then exits else parsed config
parse_loop r (arg ∷ value ∷ rest) config =
    if same arg (text "--help") || same arg (text "-h")
    then exits
    else (elim (take_option r arg value config) [
      | invalid ↦ threw
      | not_taken ↦ parse_loop r (value ∷ rest) config
      | taken c ↦ parse_loop r rest c
    ])

pub parse_arguments : Readers → List ℕ → List (List ℕ) → Parsed
unfolding parse_loop
parse_arguments r listen_address args = parse_loop r args (default_config listen_address)

pub record Metrics : Type 0 where
  pub accepted : ℕ
  pub health : ℕ
  pub telemetry : ℕ
  pub control : ℕ
  pub acks : ℕ
  pub data_connections : ℕ
  pub chunks : ℕ
  pub chunk_errors : ℕ
  pub assemblies : ℕ
  pub assembly_errors : ℕ

abbrev field_text : List ℕ → ℕ → List ℕ → List ℕ
field_text name value rest = name ++ (to_string value ++ rest)

pub metrics_snapshot : Metrics → List ℕ
metrics_snapshot m = field_text (text "accepted=") m.accepted (
    field_text (text " health=") m.health (
      field_text (text " telemetry=") m.telemetry (
        field_text (text " control=") m.control (
          field_text (text " ack=") m.acks (
            field_text (text " data=") m.data_connections (
              field_text (text " chunks=") m.chunks (
                field_text (text " chunk_errors=") m.chunk_errors (
                  field_text (text " assemblies=") m.assemblies
                    (field_text (text " assembly_errors=") m.assembly_errors [])))))))))
