-- ===== src/Identity.antt =====
-- The identity that the service runs under: the lookups of names and ids in main.rs, and its check
-- of the identity, which drops root's privileges. libc's calls are parameters.
pub mod Lookup
pub mod Laws
pub mod Ends
pub mod Tests
use acip_sidecar.Prelude.{
  ℕ, zero, suc, ◌*◌, Bool, true, false, ◌&&◌, ◌||◌, not, Option, none, some, List, [], ◌∷◌, ◌++◌,
  Result, ok, err, ◌>>=◌, ◌==◌, if◌then◌else◌, is_some, unwrap_or, any,
}
use acip_sidecar.Text.{Text, text, text_eq}
use acip_sidecar.Decimal.{to_decimal}

-- What a call such as `getpwuid_r` answers, given the length of the buffer.
pub data Answer (A : Type 0) : Type 0 where
  found : A → Answer A
  missing : Answer A
  erange : Answer A
  failed : Text → Answer A

-- Why the start ends: an error, or a lookup that asks for ever longer buffers.
pub data Halt : Type 0 where
  error : Text → Halt
  looping : Halt

abbrev pub Checked : Type 0 → Type 0
Checked A = Result Halt A

-- libc: the lookups, and the identity of the process with the calls that change it.
pub record Libc : Type 1 where
  pub getpwuid_r : ℕ → ℕ → Answer Text
  pub getgrgid_r : ℕ → ℕ → Answer Text
  pub getpwnam_r : Text → ℕ → Answer ℕ
  pub getgrnam_r : Text → ℕ → Answer ℕ
  pub Process : Type 0
  pub geteuid : Process → ℕ
  pub getegid : Process → ℕ
  pub setgid : ℕ → Process → Result Text Process
  pub initgroups : Text → ℕ → Process → Result Text Process
  pub setuid : ℕ → Process → Result Text Process

-- The loop of the four lookups, which doubles the buffer, on fuel.
resolve : {A : Type 0} → (ℕ → Checked A) → ℕ → Text → Text → Answer A → Checked A
resolve again len missing_error failed_prefix (found a) = ok a
resolve again len missing_error failed_prefix missing = err (error missing_error)
resolve again len missing_error failed_prefix erange = again (len * 2)
resolve again len missing_error failed_prefix (failed e) = err (error (failed_prefix ++ e))

pub lookup_loop : {A : Type 0} → ℕ → (ℕ → Answer A) → Text → Text → ℕ → Checked A
unfolding resolve
lookup_loop zero call missing_error failed_prefix len = err looping
lookup_loop (suc fuel) call missing_error failed_prefix len =
    resolve (lookup_loop fuel call missing_error failed_prefix) len missing_error failed_prefix
      (call len)

-- `std::ffi::CString::new`.
abbrev pub c_string : Text → Checked (Unit {0})
c_string s =
    if any (λ c. c == 0) s then err (error (text "nul byte found in provided data")) else ok tt

abbrev pub first_len : ℕ
first_len = 1024

pub record ServiceConfig : Type 0 where
  pub user : Option Text
  pub group : Option Text
  pub enforce_identity : Option Bool

-- `map(|u| u == current).unwrap_or(true)`.
abbrev pub matches_current : Option Text → Text → Bool
matches_current none current = true
matches_current (some name) current = text_eq name current

-- `bail!` on an error of a system call.
pub call_error : {A : Type 0} → Text → Result Text A → Checked A
call_error prefix (ok a) = ok a
call_error prefix (err e) = err (error (prefix ++ e))

-- `bail!` unless a condition holds.
abbrev ensure : Bool → Text → Checked (Unit {0})
ensure true e = ok tt
ensure false e = err (error e)

-- `desired.is_some() && new != target`.
abbrev is_mismatch : Option Text → Text → Text → Bool
is_mismatch desired new target = is_some desired && not (text_eq new target)

module _ (sys : Libc) (fuel : ℕ) where
  unfoldable pub username_from_uid : ℕ → Checked Text
  unfolding lookup_loop
  username_from_uid uid =
      lookup_loop fuel (sys.getpwuid_r uid) (text "no passwd entry for uid " ++ to_decimal uid)
        (text "getpwuid_r failed for uid " ++ (to_decimal uid ++ text ": ")) first_len

  unfoldable pub groupname_from_gid : ℕ → Checked Text
  unfolding lookup_loop
  groupname_from_gid gid =
      lookup_loop fuel (sys.getgrgid_r gid) (text "no group entry for gid " ++ to_decimal gid)
        (text "getgrgid_r failed for gid " ++ (to_decimal gid ++ text ": ")) first_len

  unfoldable pub uid_from_username : Text → Checked ℕ
  unfolding lookup_loop
  uid_from_username name = do
    cname ← c_string name
    lookup_loop fuel (sys.getpwnam_r name) (text "no passwd entry for user " ++ name)
        (text "getpwnam_r failed for user " ++ (name ++ text ": ")) first_len

  unfoldable pub gid_from_groupname : Text → Checked ℕ
  unfolding lookup_loop
  gid_from_groupname name = do
    cname ← c_string name
    lookup_loop fuel (sys.getgrnam_r name) (text "no group entry for group " ++ name)
        (text "getgrnam_r failed for group " ++ (name ++ text ": ")) first_len

  -- Root becomes the configured user and group, or `acip_user` for the one that is not configured.
  unfoldable pub drop_privileges : sys.Process → Option Text → Option Text → Checked sys.Process
  unfolding username_from_uid groupname_from_gid uid_from_username gid_from_groupname call_error
  drop_privileges process desired_user desired_group =
      let target_user = unwrap_or desired_user (text "acip_user") in
      let target_group = unwrap_or desired_group (text "acip_user") in
      do
        target_uid ← uid_from_username target_user
        target_gid ← gid_from_groupname target_group
        in_group ←
            call_error (text "setgid(" ++ (to_decimal target_gid ++ text ") failed: "))
              (sys.setgid target_gid process)
        cuser ← c_string target_user
        in_groups ←
            call_error (text "initgroups(" ++ (target_user ++ text ") failed: "))
              (sys.initgroups target_user target_gid in_group)
        dropped ←
            call_error (text "setuid(" ++ (to_decimal target_uid ++ text ") failed: "))
              (sys.setuid target_uid in_groups)
        new_user ← username_from_uid (sys.geteuid dropped)
        new_group ← groupname_from_gid (sys.getegid dropped)
        right_user ←
            ensure (not (is_mismatch desired_user new_user target_user))
              (text "priv drop mismatch: expected user " ++ target_user)
        right_group ←
            ensure (not (is_mismatch desired_group new_group target_group))
              (text "priv drop mismatch: expected group " ++ target_group)
        ok dropped

  -- The desired identity against the current one.
  pub check_identity : sys.Process → Option Text → Option Text → Checked sys.Process
  unfolding drop_privileges
  check_identity process desired_user desired_group = do
    current_user ← username_from_uid (sys.geteuid process)
    current_group ← groupname_from_gid (sys.getegid process)
    (if matches_current desired_user current_user && matches_current desired_group current_group
        then ok process
        else if sys.geteuid process == 0
        then drop_privileges process desired_user desired_group
        else err (error (text "service identity mismatch")))

  pub enforce_service : sys.Process → ServiceConfig → Checked sys.Process
  unfolding check_identity
  enforce_service process service =
      if unwrap_or service.enforce_identity true && (is_some service.user || is_some service.group)
      then check_identity process service.user service.group
      else ok process

  -- What `main` does about the section `service` of the configuration.
  unfoldable pub enforce_identity : sys.Process → Option ServiceConfig → Checked sys.Process
  unfolding enforce_service
  enforce_identity process none = ok process
  enforce_identity process (some service) = enforce_service process service
