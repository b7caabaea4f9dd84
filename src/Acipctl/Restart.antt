-- ===== src/Acipctl/Restart.antt =====
-- The restart of the service in bin/acipctl.rs. Commands are their words; what running one gives is
-- a parameter.
pub mod Words
use acip_sidecar.Prelude.{
  ℕ, Bool, true, false, ◌&&◌, ◌||◌, Option, none, some, List, [], ◌∷◌, ◌++◌, leb, ◌==◌,
  if◌then◌else◌, all, any, Result, ok, err,
}
use acip_sidecar.Text.{Text, text, replace}
use acip_sidecar.Json.{Fallible, context}

pub data RestartMode : Type 0 where
  system user docker_compose : RestartMode

-- `char::is_ascii_alphanumeric`.
is_ascii_alphanumeric : ℕ → Bool
is_ascii_alphanumeric c =
    (leb b'0' c && leb c b'9') || (leb b'A' c && leb c b'Z') || (leb b'a' c && leb c b'z')

-- The characters that need no quotes.
pub is_plain : ℕ → Bool
unfolding is_ascii_alphanumeric text
is_plain c = is_ascii_alphanumeric c || any (λ d. d == c) (text "-._/:")

unfoldable pub shell_escape : Text → Text
unfolding is_plain replace
shell_escape s =
    if all is_plain s then s else text "'" ++ (replace s (text "'") (text "'\\''") ++ text "'")

-- The line that the mode for docker compose prints.
unfoldable pub compose_line : Text → Text → Text
compose_line compose_file compose_service =
    text "docker compose -f "
    ++ (shell_escape compose_file ++ (text " restart " ++ shell_escape compose_service))

-- What a restart did: the commands that it ran, what it printed, and its result.
pub record Restarted : Type 0 where
  pub ran : List (List Text)
  pub printed : Option Text
  pub result : Fallible (Unit {0})

-- `Command::status`: whether the command succeeded, if it could be run.
abbrev pub Runner : Type 0
Runner = List Text → Fallible Bool

abbrev pub restart_args : List Text
restart_args = text "restart" ∷ text "acip-sidecar" ∷ []

succeeded : Fallible Bool → Fallible (Unit {0})
succeeded (ok true) = ok tt
succeeded (ok false) = err (text "restart failed")
succeeded (err e) = err e

-- `status.map(|s| s.success()).unwrap_or(false)`.
is_success : Fallible Bool → Bool
is_success (ok b) = b
is_success (err e) = false

unfoldable pub restart_service : Runner → RestartMode → Text → Text → Restarted
unfolding succeeded is_success
restart_service run system compose_file compose_service =
    let direct = text "systemctl" ∷ restart_args in
    let sudo = text "sudo" ∷ direct in
    if is_success (run direct)
    then record { ran = direct ∷ []; printed = none; result = ok tt }
    else record {
      ran = direct ∷ sudo ∷ [];
      printed = none;
      result = succeeded (context (run sudo) (text "run sudo systemctl"));
    }
restart_service run user compose_file compose_service =
    let command = text "systemctl" ∷ text "--user" ∷ restart_args in
    record {
      ran = command ∷ [];
      printed = none;
      result = succeeded (context (run command) (text "run systemctl --user"));
    }
restart_service run docker_compose compose_file compose_service = record {
  ran = [];
  printed = some (compose_line compose_file compose_service);
  result = ok tt;
}
