-- ===== src/Identity/Ends.antt =====
-- The identity check of main.rs ends.
use acip_sidecar.Prelude.{
  ℕ, suc, ◌*◌, ◌^◌, ◌≤◌, ◌≢◌, Bool, true, false, ◌&&◌, ◌||◌, not, Option, none, some, ◌++◌, Result,
  ok, err, ◌>>=◌, ◌==◌, is_some, unwrap_or, any, if_either,
}
use acip_sidecar.Text.{Text, text}
use acip_sidecar.Identity.{
  looping, Checked, Libc, c_string, first_len, ServiceConfig, call_error, ensure, is_mismatch,
  matches_current, username_from_uid, groupname_from_gid, uid_from_username, gid_from_groupname,
  drop_privileges, check_identity, enforce_service, enforce_identity,
}
use acip_sidecar.Identity.Lookup.{Suffices, lookup_loop-ne-looping}

-- The lookups are content with buffers of a certain length, as libc documents them to be.
pub record Buffers (sys : Libc) (n : ℕ) : Type 0 where
  pub getpwuid_r : (uid : ℕ) → Suffices (sys.getpwuid_r uid) n
  pub getgrgid_r : (gid : ℕ) → Suffices (sys.getgrgid_r gid) n
  pub getpwnam_r : (name : Text) → Suffices (sys.getpwnam_r name) n
  pub getgrnam_r : (name : Text) → Suffices (sys.getgrnam_r name) n

abbrev Halts : {A : Type 0} → Checked A → Type 0
Halts o = o ≢ err looping

ok-Halts : {A : Type 0} (a : A) → Halts (ok a)
ok-Halts a = λ q. cc

bind-Halts :
    {A B : Type 0} (o : Checked A) (f : A → Checked B)
    → Halts o
    → ((a : A) → Halts (f a))
    → Halts (o >>= f)
bind-Halts (ok a) f h k = k a
bind-Halts (err e) f h k = λ q. h (cc)

c_string-Halts : (s : Text) → Halts (c_string s)
c_string-Halts s = if_either Halts (any (λ c. c == 0) s) (λ q. cc) (λ q. cc)

call_error-Halts : {A : Type 0} (prefix : Text) (r : Result Text A) → Halts (call_error prefix r)
unfolding call_error
call_error-Halts prefix (ok a) = λ q. cc
call_error-Halts prefix (err e) = λ q. cc

ensure-Halts : (b : Bool) (e : Text) → Halts (ensure b e)
ensure-Halts true e = λ q. cc
ensure-Halts false e = λ q. cc

module _ (sys : Libc) (n k : ℕ) (enough : Buffers sys n) (fits : n ≤ first_len * 2 ^ k) where
  username_from_uid-Halts : (uid : ℕ) → Halts (username_from_uid sys (suc k) uid)
  unfolding username_from_uid
  username_from_uid-Halts uid =
      lookup_loop-ne-looping (sys.getpwuid_r uid) n (enough.getpwuid_r uid) _ _ k first_len fits

  groupname_from_gid-Halts : (gid : ℕ) → Halts (groupname_from_gid sys (suc k) gid)
  unfolding groupname_from_gid
  groupname_from_gid-Halts gid =
      lookup_loop-ne-looping (sys.getgrgid_r gid) n (enough.getgrgid_r gid) _ _ k first_len fits

  uid_from_username-Halts : (name : Text) → Halts (uid_from_username sys (suc k) name)
  unfolding uid_from_username
  uid_from_username-Halts name = bind-Halts (c_string name) _ (c_string-Halts name) λ _.
      lookup_loop-ne-looping (sys.getpwnam_r name) n (enough.getpwnam_r name) _ _ k first_len fits

  gid_from_groupname-Halts : (name : Text) → Halts (gid_from_groupname sys (suc k) name)
  unfolding gid_from_groupname
  gid_from_groupname-Halts name = bind-Halts (c_string name) _ (c_string-Halts name) λ _.
      lookup_loop-ne-looping (sys.getgrnam_r name) n (enough.getgrnam_r name) _ _ k first_len fits

  drop_privileges-Halts :
      (process : sys.Process) (user group : Option Text)
      → Halts (drop_privileges sys (suc k) process user group)
  unfolding drop_privileges
  drop_privileges-Halts process user group =
      let target_user = unwrap_or user (text "acip_user") in
      let target_group = unwrap_or group (text "acip_user") in
      bind-Halts (uid_from_username sys (suc k) target_user) _ (uid_from_username-Halts target_user)
        λ uid.
          bind-Halts (gid_from_groupname sys (suc k) target_group) _
            (gid_from_groupname-Halts target_group)
            λ gid. bind-Halts (call_error _ (sys.setgid gid process)) _ (call_error-Halts _ _) λ p1.
              bind-Halts (c_string target_user) _ (c_string-Halts target_user) λ _.
                bind-Halts (call_error _ (sys.initgroups target_user gid p1)) _
                  (call_error-Halts _ _)
                  λ p2. bind-Halts (call_error _ (sys.setuid uid p2)) _ (call_error-Halts _ _) λ p3.
                    bind-Halts (username_from_uid sys (suc k) (sys.geteuid p3)) _
                      (username_from_uid-Halts _)
                      λ new_user.
                        bind-Halts (groupname_from_gid sys (suc k) (sys.getegid p3)) _
                          (groupname_from_gid-Halts _)
                          λ new_group.
                            bind-Halts
                              (ensure (not (is_mismatch user new_user target_user))
                                (text "priv drop mismatch: expected user " ++ target_user))
                              _ (ensure-Halts _ _)
                              λ _.
                                bind-Halts
                                  (ensure (not (is_mismatch group new_group target_group))
                                    (text "priv drop mismatch: expected group " ++ target_group))
                                  _ (ensure-Halts _ _) λ _. ok-Halts p3

  check_identity-Halts :
      (process : sys.Process) (user group : Option Text)
      → Halts (check_identity sys (suc k) process user group)
  unfolding check_identity
  check_identity-Halts process user group =
      bind-Halts (username_from_uid sys (suc k) (sys.geteuid process)) _ (username_from_uid-Halts _)
        λ current_user.
          bind-Halts (groupname_from_gid sys (suc k) (sys.getegid process)) _
            (groupname_from_gid-Halts _)
            λ current_group.
              if_either Halts
                (matches_current user current_user && matches_current group current_group) (λ q. cc)
                (if_either Halts (sys.geteuid process == 0)
                  (drop_privileges-Halts process user group) (λ q. cc))

  -- The identity check ends: where libc's lookups are content with buffers of `n` bytes or more, the
  -- buffer is doubled at most `k` times, if 1024 bytes doubled `k` times are `n` bytes.
  pub enforce_identity-Halts :
      (process : sys.Process) (service : Option ServiceConfig)
      → enforce_identity sys (suc k) process service ≢ err looping
  unfolding enforce_identity enforce_service
  enforce_identity-Halts process none = λ q. cc
  enforce_identity-Halts process (some service) =
      if_either Halts
        (unwrap_or service.enforce_identity true && (is_some service.user || is_some service.group))
        (check_identity-Halts process service.user service.group) (λ q. cc)
