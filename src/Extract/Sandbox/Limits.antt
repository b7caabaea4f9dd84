-- ===== src/Extract/Sandbox/Limits.antt =====
-- What the child that goes on to run the helper has been limited to.
use acip_sidecar.Prelude.{
  ℕ, ◌+◌, ◌*◌, ◌^◌, ◌≤◌, ◌<◌, ◌≡◌, refl, Bool, true, false, Option, none, some, List, [], ◌∷◌, ◌++◌,
  arith, All, Bool-cases, ◌⊎◌, inl, inr, unwrap_or, if◌then◌else◌, u64_max,
}
use acip_sidecar.Text.{text}
use acip_sidecar.Environment.{Env}
use acip_sidecar.Extract.Sandbox.{
  cpu, address_space, nofile, core, nproc, fsize, Call, setrlimit, set_no_new_privs, deny_network,
  set_pdeathsig, Step, required, best_effort, env_u64, megabytes, limit, nproc_steps, seccomp_on,
  cpu_secs, pre_exec_steps, after_call, run_steps, pre_exec,
}

-- A step that went well, as far as it must.
abbrev Done : (Call → Bool) → Step → Type 0
Done succeeds (required c) = succeeds c ≡ true
Done succeeds (best_effort c) = Unit {0}

after_call-success : (c : Call) (t : List Call × Bool) → (after_call c t).1 ≡ t.1
unfolding after_call
after_call-success c (calls, b) = refl

run_steps-Done :
    (succeeds : Call → Bool) (steps : List Step)
    → (run_steps succeeds steps).1 ≡ true
    → All (Done succeeds) steps
unfolding run_steps
run_steps-Done succeeds [] h = tt
run_steps-Done succeeds (best_effort c ∷ rest) h =
    (tt, run_steps-Done succeeds rest (rw after_call-success at h))
run_steps-Done succeeds (required c ∷ rest) h = elim (Bool-cases (succeeds c)) [
  | inl e ↦ (e, run_steps-Done succeeds rest (rw (e, after_call-success) at h))
  | inr e ↦ absurd (cc (rw e at h))
]

All-back : {A : Type 0} (P : A → Type 0) (xs ys : List A) → All P (xs ++ ys) → All P ys
All-back P [] ys h = h
All-back P (x ∷ xs) ys h = All-back P xs ys h.1

-- The megabytes of memory and of a file's size, and the number of open files, as configured.
abbrev pub as_mb : Env → ℕ
as_mb env = unwrap_or (env_u64 env (text "ACIP_EXTRACTOR_RLIMIT_AS_MB")) 2048

abbrev pub fsize_mb : Env → ℕ
fsize_mb env = unwrap_or (env_u64 env (text "ACIP_EXTRACTOR_RLIMIT_FSIZE_MB")) 512

abbrev pub open_files : Env → ℕ
open_files env = unwrap_or (env_u64 env (text "ACIP_EXTRACTOR_RLIMIT_NOFILE")) 64

-- No number of processes is configured, or it is the limit.
abbrev pub ProcessesLimited : (Call → Bool) → Option ℕ → Type 0
ProcessesLimited succeeds configured =
    (configured ≡ none)
    ⊎ ((n : ℕ) × (configured ≡ some n) × (succeeds (setrlimit nproc n n) ≡ true))

-- The calls that have succeeded.
pub record IsLimited (succeeds : Call → Bool) (env : Env) (timeout : ℕ) : Type 0 where
  pub cpu : succeeds (setrlimit cpu (timeout + 5) (timeout + 5)) ≡ true
  pub memory : succeeds (setrlimit address_space (as_mb env * 2 ^ 20) (as_mb env * 2 ^ 20)) ≡ true
  pub files : succeeds (setrlimit nofile (open_files env) (open_files env)) ≡ true
  pub no_core : succeeds (setrlimit core 0 0) ≡ true
  pub processes : ProcessesLimited succeeds (env_u64 env (text "ACIP_EXTRACTOR_RLIMIT_NPROC"))
  pub file_size : succeeds (setrlimit fsize (fsize_mb env * 2 ^ 20) (fsize_mb env * 2 ^ 20)) ≡ true
  pub no_new_privs : succeeds set_no_new_privs ≡ true
  pub dies_with_parent : succeeds set_pdeathsig ≡ true
  pub no_network :
      (seccomp_on (env (text "ACIP_EXTRACTOR_SECCOMP")) ≡ false) ⊎ (succeeds deny_network ≡ true)

nproc_steps-back :
    (succeeds : Call → Bool) (n : Option ℕ) (rest : List Step)
    → All (Done succeeds) (nproc_steps n ++ rest)
    → ProcessesLimited succeeds n × All (Done succeeds) rest
unfolding nproc_steps limit
nproc_steps-back succeeds none rest h = (inl refl, h)
nproc_steps-back succeeds (some n) rest h = (inr (n, refl, h.0), h.1)

denied_if_on :
    (succeeds : Call → Bool) (on : Bool)
    → All
        (Done succeeds)
        ((if on then required deny_network ∷ [] else []) ++ (required set_pdeathsig ∷ []))
    → (succeeds set_pdeathsig ≡ true) × ((on ≡ false) ⊎ (succeeds deny_network ≡ true))
denied_if_on succeeds true h = (h.1.0, inr h.0)
denied_if_on succeeds false h = (h.0, inl refl)

cpu_secs-exact : (timeout : ℕ) → timeout + 5 ≤ u64_max → cpu_secs timeout ≡ timeout + 5
unfolding cpu_secs
cpu_secs-exact timeout h = omega arith

megabytes-exact : (mb : ℕ) → mb < 2 ^ 44 → megabytes mb ≡ mb * 2 ^ 20
unfolding megabytes
megabytes-exact mb h = omega arith

-- The child goes on to run the helper only with all of its limits in force: five seconds more of
-- processor time than the helper is given, the memory, the number of open files, the size of files
-- and, where one is set, the number of processes that are configured, no core dumps, no new
-- privileges, a death with its parent, and no network where that is asked for. The configured sizes
-- are below 2^44 megabytes here, from which on they wrap, and the time is below 2^64 seconds.
pub pre_exec-IsLimited :
    (succeeds : Call → Bool) (env : Env) (timeout : ℕ)
    → timeout + 5 ≤ u64_max
    → as_mb env < 2 ^ 44
    → fsize_mb env < 2 ^ 44
    → (pre_exec succeeds env timeout).1 ≡ true
    → IsLimited succeeds env timeout
unfolding pre_exec pre_exec_steps limit
pre_exec-IsLimited succeeds env timeout time memory size h =
    let done = run_steps-Done succeeds (pre_exec_steps env timeout) h in
    let (processes, r) =
      nproc_steps-back succeeds (env_u64 env (text "ACIP_EXTRACTOR_RLIMIT_NPROC")) _ done.1.1.1.1 in
    let (dies, denied) =
      denied_if_on succeeds (seccomp_on (env (text "ACIP_EXTRACTOR_SECCOMP"))) r.1.1.1.1.1 in
    record {
      cpu = rw (← (cpu_secs-exact timeout time)) done.0;
      memory = rw (← (megabytes-exact (as_mb env) memory)) done.1.0;
      files = done.1.1.0;
      no_core = done.1.1.1.0;
      processes = processes;
      file_size = rw (← (megabytes-exact (fsize_mb env) size)) r.0;
      no_new_privs = r.1.1.1.1.0;
      dies_with_parent = dies;
      no_network = denied;
    }
