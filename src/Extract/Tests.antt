-- ===== src/Extract/Tests.antt =====
-- A concrete run of the helper, and a concrete environment.
use acip_sidecar.Prelude.{
  ◌^◌, ◌<◌, All, ◌≤◌, ◌≡◌, refl, none, some, [], ◌∷◌, ok, true, false, if◌then◌else◌, arith, all,
  ◌&&◌, ◌==◌,
}
use acip_sidecar.Text.{text, text_eq}
use acip_sidecar.Environment.{Env}
use acip_sidecar.Extract.Sandbox.{
  cpu_secs, megabytes, pre_exec, Libseccomp, denied_syscalls, install_network_deny,
}
use acip_sidecar.Extract.Sandbox.Limits.{as_mb, fsize_mb, IsLimited, pre_exec-IsLimited}
use acip_sidecar.Extract.Sandbox.Filter.{
  eperm_action, network_calls, releases, install_network_deny-Added,
}
use acip_sidecar.Ingest.Samples.{idle_helper, only}
use acip_sidecar.Extract.{
  ExtractRequest, ExtractResponse, svg, HelperRun, output_cap_bytes, run_helper, child_env,
}
use acip_sidecar.Extract.Laws.{Completed, run_helper-Completed}
use acip_sidecar.Extract.Laws.ChildEnv.{Entry, IsKeyless, child_env-Entry}

abbrev svg_request : ExtractRequest
svg_request = record {
  kind = svg;
  content_type = none;
  max_pages = none;
  dpi = none;
  max_output_chars = none;
}

abbrev svg_response : ExtractResponse
svg_response = record {
  succeeded = true;
  kind = svg;
  content = text "a";
  warnings = [];
  stats = record { pages = none; text_chars = 1; ocr_used = false; ocr_chars = 0 };
}

abbrev good_run : HelperRun
good_run = record idle_helper {
  spawned = ok tt;
  open_out = ok (1 ∷ 2 ∷ []);
  from_slice = λ bytes. ok svg_response;
}

good : run_helper good_run svg_request ≡ ok svg_response
unfolding run_helper output_cap_bytes
good = refl

run_helper-Completed_example :
    Completed good_run svg_request svg_response × (output_cap_bytes svg_request ≤ 33554432)
run_helper-Completed_example = run_helper-Completed good_run svg_request svg_response good

child_env-Entry_example :
    All
      (λ entry.
        Entry (only (text "GEMINI_API_KEY") (text "k")) (text "/o") (text "/e") entry
        × IsKeyless entry)
      (child_env (only (text "GEMINI_API_KEY") (text "k")) (text "/o") (text "/e"))
child_env-Entry_example =
    child_env-Entry (only (text "GEMINI_API_KEY") (text "k")) (text "/o") (text "/e")

-- A configured memory of a gigabyte and the filter.
abbrev tuned : Env
tuned = λ n.
    if text_eq n (text "ACIP_EXTRACTOR_RLIMIT_AS_MB")
    then some (text "1024")
    else if text_eq n (text "ACIP_EXTRACTOR_SECCOMP")
    then some (text "1")
    else none

all_good : (pre_exec (λ c. true) tuned 30).1 ≡ true
unfolding pre_exec text acip_sidecar.Extract.Sandbox.pre_exec_steps text_eq acip_sidecar.Text.trim
all_good = refl

in_range : (as_mb tuned < 2 ^ 44) × (fsize_mb tuned < 2 ^ 44)
unfolding text text_eq acip_sidecar.Text.trim acip_sidecar.Text.parse_uint
in_range = (omega arith, omega arith)

pre_exec-IsLimited_example : IsLimited (λ c. true) tuned 30
pre_exec-IsLimited_example =
    pre_exec-IsLimited (λ c. true) tuned 30 (omega arith) in_range.0 in_range.1 all_good

-- A rule for `bind` that cannot be added.
abbrev refusing : Libseccomp
refusing = record {
  init = λ action. true;
  rule_add = λ action n. if text_eq n (text "bind") then 22 else 0;
  load = 0;
}

install_network_deny-Added_example :
    ((install_network_deny refusing).1 ≡ (
      true && all (λ n. refusing.rule_add eperm_action n == 0) network_calls && refusing.load == 0))
    × (releases (install_network_deny refusing).0 ≡ (if true then 1 else 0))
install_network_deny-Added_example = install_network_deny-Added refusing
