-- ===== src/Acipctl/Command.antt =====
-- The command `config` of bin/acipctl.rs.
use acip_sidecar.Prelude.{Bool, Option, none, some, List, [], ok, err, ◌>>=◌, if◌then◌else◌}
use acip_sidecar.Text.{Text, text, from_utf8, Unicode}
use acip_sidecar.Json.{Fallible, context}
use acip_sidecar.Reputation.File.Effects.{FilePath, Bytes, Disk, Effect}
use acip_sidecar.Acipctl.Restart.{RestartMode, Runner, Restarted, restart_service}
use acip_sidecar.Acipctl.Config.{
  failed, Outcome, TomlEdit, WriteRun, set_config_value, unset_config_value,
}

pub record RestartArgs : Type 0 where
  pub restart : RestartMode
  pub compose_file : Text
  pub compose_service : Text
  pub no_restart : Bool

pub data ConfigCmd : Type 0 where
  example : ConfigCmd
  validate : FilePath → ConfigCmd
  show : FilePath → ConfigCmd
  set : FilePath → Text → Text → RestartArgs → ConfigCmd
  unset : FilePath → Text → RestartArgs → ConfigCmd

-- What a command did to the disk, the commands that it ran, what it printed, and its result.
pub record Handled : Type 0 where
  pub effects : List Effect
  pub ran : List (List Text)
  pub printed : Option Text
  pub result : Outcome (Unit {0})

outcome : {A : Type 0} → Fallible A → Outcome A
outcome (ok a) = ok a
outcome (err e) = err (failed e)

-- `fs::read_to_string`.
read_to_string : Option Bytes → Fallible Text
read_to_string none = err (text "No such file or directory")
read_to_string (some bytes) = elim (from_utf8 bytes) [
  | none ↦ err (text "stream did not contain valid UTF-8")
  | some raw ↦ ok raw
]

-- `Config::load` of config.rs, with the parser of the configuration.
unfoldable pub load : (Text → Fallible (Unit {0})) → Option Bytes → Fallible (Unit {0})
unfolding read_to_string
load parse content = do raw ← read_to_string content; parse raw

restarted : List Effect → Restarted → Handled
unfolding outcome
restarted effects r = record {
  effects = effects;
  ran = r.ran;
  printed = r.printed;
  result = outcome r.result;
}

-- The restart follows an edit that succeeded, unless it is switched off.
after_edit : Runner → RestartArgs → List Effect → Outcome (Unit {0}) → Handled
unfolding restarted
after_edit run args effects (err e) = record {
  effects = effects;
  ran = [];
  printed = none;
  result = err e;
}
after_edit run args effects (ok done) =
    if args.no_restart
    then record { effects = effects; ran = []; printed = none; result = ok tt }
    else restarted effects (restart_service run args.restart args.compose_file args.compose_service)

shown : Outcome Text → Handled
shown (ok txt) = record { effects = []; ran = []; printed = some txt; result = ok tt }
shown (err e) = record { effects = []; ran = []; printed = none; result = err e }

silent : Outcome (Unit {0}) → Handled
silent result = record { effects = []; ran = []; printed = none; result = result }

module _ (u : Unicode) (toml : TomlEdit) (parse : Text → Fallible (Unit {0})) (run : Runner)
    (write : WriteRun) (example_toml : Text) (disk : Disk) where
  unfoldable pub handle_config : ConfigCmd → Handled
  unfolding after_edit shown silent load read_to_string outcome
  handle_config example = shown (ok example_toml)
  handle_config (validate path) = silent (outcome (context (load parse (disk path)) (text "load")))
  handle_config (show path) = shown (outcome (context (read_to_string (disk path)) (text "read")))
  handle_config (set path key value args) =
      let (effects, result) = set_config_value u toml parse write path disk key value in
      after_edit run args effects result
  handle_config (unset path key args) =
      let (effects, result) = unset_config_value u toml parse write path disk key in
      after_edit run args effects result
