-- ===== src/Extract/Sandbox.antt =====
-- The sandbox of the helper in extract.rs: what the child does between fork and exec, and the
-- filter on system calls. Whether a call succeeds is a parameter.
pub mod Limits
pub mod Filter
use Prim.Native.Nat.{bit_and, bit_or}
use acip_sidecar.Prelude.{
  ℕ, zero, suc, ◌+◌, ◌-◌, ◌*◌, ◌%◌, ◌^◌, Bool, true, false, ◌&&◌, Option, none, some, List, [], ◌∷◌,
  ◌++◌, max, ◌==◌, leb, if◌then◌else◌, unwrap_or, u64_max, saturating_add_u64,
}
use acip_sidecar.Text.{Text, text, text_eq, trim, parse_uint}
use acip_sidecar.Environment.{Env}

pub data Resource : Type 0 where
  cpu address_space nofile core nproc fsize : Resource

-- The system calls of the child, in the source's order. `nice` has a sign and a magnitude.
pub data Call : Type 0 where
  setrlimit : Resource → ℕ → ℕ → Call
  nice : Bool → ℕ → Call
  umask : ℕ → Call
  ioprio_set : ℕ → Call
  set_no_new_privs : Call
  deny_network : Call
  set_pdeathsig : Call

-- A call that must succeed, or one whose result is dropped.
pub data Step : Type 0 where
  required : Call → Step
  best_effort : Call → Step

-- `std::env::var(key).ok().and_then(|v| v.trim().parse::<u64>().ok())`.
abbrev pub env_u64 : Env → Text → Option ℕ
env_u64 env key = elim (env key) [ none ↦ none | some v ↦ parse_uint u64_max (trim v) ]

-- `mb * 1024 * 1024`, which wraps in a release build.
unfoldable pub megabytes : ℕ → ℕ
megabytes mb = mb * 1024 % 2 ^ 64 * 1024 % 2 ^ 64

-- `parse::<i32>`: whether it is negative, and its magnitude.
abbrev i32_min : ℕ
i32_min = 2 ^ 31

-- After a minus there is no other sign.
starts_unsigned : Text → Bool
starts_unsigned [] = false
starts_unsigned (c ∷ s) = leb b'0' c && leb c b'9'

parse_i32 : Text → Option (Bool × ℕ)
unfolding starts_unsigned
parse_i32 [] = none
parse_i32 (c ∷ s) =
    if c == b'-'
    then (if starts_unsigned s
        then elim (parse_uint i32_min s) [ none ↦ none | some n ↦ some (true, n) ]
        else none)
    else elim (parse_uint (2 ^ 31 - 1) (c ∷ s)) [ none ↦ none | some n ↦ some (false, n) ]

limit : Resource → ℕ → Step
limit resource n = required (setrlimit resource n n)

nproc_steps : Option ℕ → List Step
unfolding limit
nproc_steps none = []
nproc_steps (some n) = limit nproc n ∷ []

nice_of : Option Text → Bool × ℕ
unfolding parse_i32
nice_of none = (false, 10)
nice_of (some v) = unwrap_or (parse_i32 (trim v)) (false, 10)

pub seccomp_on : Option Text → Bool
seccomp_on none = false
seccomp_on (some v) = text_eq (trim v) (text "1")

-- `3 << 13`.
ioprio_idle : ℕ
ioprio_idle = 3 * 2 ^ 13

unfoldable pub cpu_secs : ℕ → ℕ
cpu_secs timeout = max (saturating_add_u64 timeout 5) 1

unfoldable pub pre_exec_steps : Env → ℕ → List Step
unfolding limit nproc_steps nice_of seccomp_on ioprio_idle cpu_secs
pre_exec_steps env timeout =
    let (negative, inc) = nice_of (env (text "ACIP_EXTRACTOR_NICE")) in
    limit cpu (cpu_secs timeout)
    ∷ limit address_space
        (megabytes (unwrap_or (env_u64 env (text "ACIP_EXTRACTOR_RLIMIT_AS_MB")) 2048))
    ∷ limit nofile (unwrap_or (env_u64 env (text "ACIP_EXTRACTOR_RLIMIT_NOFILE")) 64)
    ∷ limit core 0
    ∷ (nproc_steps (env_u64 env (text "ACIP_EXTRACTOR_RLIMIT_NPROC"))
        ++ (limit fsize
              (megabytes (unwrap_or (env_u64 env (text "ACIP_EXTRACTOR_RLIMIT_FSIZE_MB")) 512))
            ∷ best_effort (nice negative inc)
            ∷ best_effort (umask 0x3f)
            ∷ best_effort (ioprio_set ioprio_idle)
            ∷ required set_no_new_privs
            ∷ ((if seccomp_on (env (text "ACIP_EXTRACTOR_SECCOMP"))
                  then required deny_network ∷ []
                  else [])
                ++ (required set_pdeathsig ∷ []))))

after_call : Call → List Call × Bool → List Call × Bool
after_call c (calls, success) = (c ∷ calls, success)

-- The calls that are made, and whether the child goes on to exec.
pub run_steps : (Call → Bool) → List Step → List Call × Bool
unfolding after_call
run_steps succeeds [] = ([], true)
run_steps succeeds (best_effort c ∷ rest) = after_call c (run_steps succeeds rest)
run_steps succeeds (required c ∷ rest) =
    let next = after_call c (run_steps succeeds rest) in
    if succeeds c then next else (c ∷ [], false)

unfoldable pub pre_exec : (Call → Bool) → Env → ℕ → List Call × Bool
unfolding run_steps
pre_exec succeeds env timeout = run_steps succeeds (pre_exec_steps env timeout)

-- libseccomp: whether a context is made with a default action, the result of adding a rule with an
-- action for a system call, and that of loading.
pub record Libseccomp : Type 0 where
  pub init : ℕ → Bool
  pub rule_add : ℕ → Text → ℕ
  pub load : ℕ

pub data FilterCall : Type 0 where
  seccomp_init : ℕ → FilterCall
  seccomp_rule_add : ℕ → Text → FilterCall
  seccomp_load : FilterCall
  seccomp_release : FilterCall

abbrev scmp_act_allow : ℕ
scmp_act_allow = 0x7fff0000

-- The action that fails a system call with an error number.
scmp_act_errno : ℕ → ℕ
scmp_act_errno errno = bit_or 0x00050000 (bit_and errno 0x0000ffff)

-- `EPERM`.
abbrev eperm : ℕ
eperm = 1

abbrev pub denied_syscalls : List Text
denied_syscalls =
    text "socket"
    ∷ text "connect"
    ∷ text "accept"
    ∷ text "accept4"
    ∷ text "bind"
    ∷ text "listen"
    ∷ text "sendto"
    ∷ text "recvfrom"
    ∷ text "sendmsg"
    ∷ text "recvmsg"
    ∷ text "getsockopt"
    ∷ text "setsockopt"
    ∷ text "shutdown"
    ∷ text "socketpair"
    ∷ text "getpeername"
    ∷ text "getsockname"
    ∷ []

after_filter_call : FilterCall → List FilterCall × Bool → List FilterCall × Bool
after_filter_call c (calls, success) = (c ∷ calls, success)

load_filter : Libseccomp → List FilterCall × Bool
load_filter lib = (seccomp_load ∷ seccomp_release ∷ [], lib.load == 0)

add_rules : Libseccomp → ℕ → List Text → List FilterCall × Bool
unfolding after_filter_call load_filter
add_rules lib deny [] = load_filter lib
add_rules lib deny (name ∷ names) =
    let next = after_filter_call (seccomp_rule_add deny name) (add_rules lib deny names) in
    if lib.rule_add deny name == 0
    then next
    else (seccomp_rule_add deny name ∷ seccomp_release ∷ [], false)

-- `install_network_deny`: the calls, and whether it succeeded.
unfoldable pub install_network_deny : Libseccomp → List FilterCall × Bool
unfolding add_rules scmp_act_errno after_filter_call
install_network_deny lib =
    if lib.init scmp_act_allow
    then after_filter_call (seccomp_init scmp_act_allow)
        (add_rules lib (scmp_act_errno eperm) denied_syscalls)
    else (seccomp_init scmp_act_allow ∷ [], false)
