-- ===== src/Extract/Sandbox/Filter.antt =====
-- The filter on system calls is whole or is not there, and its context is released.
use acip_sidecar.Prelude.{
  ℕ, ◌+◌, ◌≡◌, refl, ◌&&◌, List, [], ◌∷◌, all, ◌==◌, if◌then◌else◌, Bool-cases, inl, inr,
}
use acip_sidecar.Text.{Text, text}
use acip_sidecar.Extract.Sandbox.{
  Libseccomp, FilterCall, seccomp_init, seccomp_rule_add, seccomp_load, seccomp_release,
  after_filter_call, load_filter, add_rules, install_network_deny, scmp_act_errno,
}

-- How often the context is released.
pub releases : List FilterCall → ℕ
releases [] = 0
releases (seccomp_release ∷ rest) = 1 + releases rest
releases (seccomp_init a ∷ rest) = releases rest
releases (seccomp_rule_add d n ∷ rest) = releases rest
releases (seccomp_load ∷ rest) = releases rest

add_rules-releases :
    (lib : Libseccomp) (deny : ℕ) (names : List Text) → releases (add_rules lib deny names).0 ≡ 1
unfolding add_rules load_filter after_filter_call releases
add_rules-releases lib deny [] = refl
add_rules-releases lib deny (n ∷ names) = elim (Bool-cases (lib.rule_add deny n == 0)) [
  | inl e ↦ rw e (add_rules-releases lib deny names)
  | inr e ↦ rw e refl
]

add_rules-added :
    (lib : Libseccomp) (deny : ℕ) (names : List Text)
    → (add_rules lib deny names).1 ≡ (all (λ n. lib.rule_add deny n == 0) names && lib.load == 0)
unfolding add_rules load_filter after_filter_call
add_rules-added lib deny [] = refl
add_rules-added lib deny (n ∷ names) = elim (Bool-cases (lib.rule_add deny n == 0)) [
  | inl e ↦ rw e (add_rules-added lib deny names)
  | inr e ↦ rw e refl
]

-- The actions of libseccomp: to let a call through, and to fail it with `EPERM`.
abbrev pub allow_action : ℕ
allow_action = 0x7fff0000

abbrev pub eperm_action : ℕ
eperm_action = 0x00050001

-- The system calls of the network.
abbrev pub network_calls : List Text
network_calls =
    text "socket"
    ∷ text "connect"
    ∷ text "accept"
    ∷ text "accept4"
    ∷ text "bind"
    ∷ text "listen"
    ∷ text "sendto"
    ∷ text "recvfrom"
    ∷ text "sendmsg"
    ∷ text "recvmsg"
    ∷ text "getsockopt"
    ∷ text "setsockopt"
    ∷ text "shutdown"
    ∷ text "socketpair"
    ∷ text "getpeername"
    ∷ text "getsockname"
    ∷ []

-- The filter is reported as installed exactly if there is a context that allows by default, each of
-- the sixteen system calls of the network has got a rule that fails it with `EPERM`, and the filter
-- was loaded; and whatever fails, a context that was made is released exactly once, and none is
-- released that was not made.
pub install_network_deny-Added :
    (lib : Libseccomp)
    → ((install_network_deny lib).1 ≡ (
        lib.init allow_action
        && all (λ n. lib.rule_add eperm_action n == 0) network_calls
        && lib.load == 0))
      × (releases (install_network_deny lib).0 ≡ (if lib.init allow_action then 1 else 0))
unfolding install_network_deny after_filter_call releases scmp_act_errno
install_network_deny-Added lib = elim (Bool-cases (lib.init allow_action)) [
  | inl e ↦ rw e (
    add_rules-added lib eperm_action network_calls,
    add_rules-releases lib eperm_action network_calls,
  )
  | inr e ↦ rw e (refl, refl)
]
