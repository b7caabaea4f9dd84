-- ===== src/Identity/Laws.antt =====
-- What the identity check of main.rs guarantees.
use mathlib.Core.Path.{subst}
use acip_sidecar.Prelude.{
  ℕ, ◌≡◌, refl, ◌∙◌, sym, ap, true, false, ◌&&◌, ◌||◌, not, Option, none, some, ◌++◌, ok, err, ◌==◌,
  if◌then◌else◌, is_some, unwrap_or, bind-ok, ok_injective, Bool-cases, inl, inr, ==_iff, Result,
  err,
}
use acip_sidecar.Text.{Text, text, text_eq}
use acip_sidecar.Text.Laws.{text_eq_iff}
use acip_sidecar.Identity.{
  error, Checked, Libc, c_string, ServiceConfig, matches_current, call_error, ensure, is_mismatch,
  username_from_uid, groupname_from_gid, uid_from_username, gid_from_groupname, drop_privileges,
  check_identity, enforce_service, enforce_identity,
}

-- The name that is wanted, if one is, is the one that the lookup gives.
abbrev pub IsDesired : Option Text → Checked Text → Type 0
IsDesired none name = Unit {0}
IsDesired (some want) name = name ≡ ok want

module _ (sys : Libc) (fuel : ℕ) (before : sys.Process) (user group : Option Text) where
  -- How a process comes by its identity: it is the one that was started, or root, the process that
  -- was started, has looked up the ids of the user and the group, and has become the group, the
  -- user's supplementary groups and the user, in this order.
  pub data CameBy (p : sys.Process) : Type 0 where
    as_started : p ≡ before → CameBy p
    dropped :
        sys.geteuid before ≡ 0
        → (uid gid : ℕ) → uid_from_username sys fuel (unwrap_or user (text "acip_user")) ≡ ok uid
        → gid_from_groupname sys fuel (unwrap_or group (text "acip_user")) ≡ ok gid
        → (in_group in_groups : sys.Process) → sys.setgid gid before ≡ ok in_group
        → sys.initgroups (unwrap_or user (text "acip_user")) gid in_group ≡ ok in_groups
        → sys.setuid uid in_groups ≡ ok p
        → CameBy p

  -- A process runs as the configured user and group.
  pub record RunsAs (process : sys.Process) : Type 0 where
    pub as_user : IsDesired user (username_from_uid sys fuel (sys.geteuid process))
    pub as_group : IsDesired group (groupname_from_gid sys fuel (sys.getegid process))
    pub came_by : CameBy process

call_error-ok :
    {A : Type 0} (prefix : Text) (r : Result Text A) (a : A) → call_error prefix r ≡ ok a → r ≡ ok a
unfolding call_error
call_error-ok prefix (ok x) a h = cc
call_error-ok prefix (err e) a h = absurd (cc)

matches-IsDesired :
    (want : Option Text) (current : Text) (name : Checked Text)
    → name ≡ ok current
    → matches_current want current ≡ true
    → IsDesired want name
matches-IsDesired none current name e h = tt
matches-IsDesired (some want) current name e h = e ∙ ap ok (sym ((text_eq_iff want current).0 h))

checked-IsDesired :
    (want : Option Text) (default new e : Text) (name : Checked Text) (u : Unit {0})
    → name ≡ ok new
    → ensure (not (is_mismatch want new (unwrap_or want default))) e ≡ ok u
    → IsDesired want name
checked-IsDesired none default new e name u n h = tt
checked-IsDesired (some want) default new e name u n h = elim (Bool-cases (text_eq new want)) [
  | inl same ↦ n ∙ ap ok ((text_eq_iff new want).0 same)
  | inr other ↦ absurd (cc (rw other at h))
]

module _ (sys : Libc) (fuel : ℕ) (process : sys.Process) (user group : Option Text)
    (p : sys.Process) where
  drop_privileges-RunsAs :
      sys.geteuid process ≡ 0
      → drop_privileges sys fuel process user group ≡ ok p
      → RunsAs sys fuel process user group p
  unfolding drop_privileges
  drop_privileges-RunsAs root h =
      let target_user = unwrap_or user (text "acip_user") in
      let target_group = unwrap_or group (text "acip_user") in
      let (uid, has_uid, h) = bind-ok (uid_from_username sys fuel target_user) _ p h in
      let (gid, has_gid, h) = bind-ok (gid_from_groupname sys fuel target_group) _ p h in
      let (p1, did_setgid, h) = bind-ok (call_error _ (sys.setgid gid process)) _ p h in
      let (_, _, h) = bind-ok (c_string target_user) _ p h in
      let (p2, did_initgroups, h) =
        bind-ok (call_error _ (sys.initgroups target_user gid p1)) _ p h in
      let (p3, did_setuid, h) = bind-ok (call_error _ (sys.setuid uid p2)) _ p h in
      let (new_user, named, h) = bind-ok (username_from_uid sys fuel (sys.geteuid p3)) _ p h in
      let (new_group, grouped, h) = bind-ok (groupname_from_gid sys fuel (sys.getegid p3)) _ p h in
      let (u, right_user, h) =
        bind-ok
          (ensure (not (is_mismatch user new_user target_user))
            (text "priv drop mismatch: expected user " ++ target_user))
          _ p h in
      let (g, right_group, h) =
        bind-ok
          (ensure (not (is_mismatch group new_group target_group))
            (text "priv drop mismatch: expected group " ++ target_group))
          _ p h in
      let same : p3 ≡ p = ok_injective h in
      subst (λ q. RunsAs sys fuel process user group q) same
        (record {
          as_user =
              checked-IsDesired user (text "acip_user") new_user _
                (username_from_uid sys fuel (sys.geteuid p3)) u named right_user;
          as_group =
              checked-IsDesired group (text "acip_user") new_group _
                (groupname_from_gid sys fuel (sys.getegid p3)) g grouped right_group;
          came_by =
              dropped root uid gid has_uid has_gid p1 p2 (call_error-ok _ _ p1 did_setgid)
                (call_error-ok _ _ p2 did_initgroups) (call_error-ok _ _ p3 did_setuid);
        })

  otherwise :
      (if sys.geteuid process == 0
          then drop_privileges sys fuel process user group
          else err (error (text "service identity mismatch")))
        ≡ ok p
      → RunsAs sys fuel process user group p
  otherwise h = elim (Bool-cases (sys.geteuid process == 0)) [
    | inl root ↦ drop_privileges-RunsAs ((==_iff (sys.geteuid process) 0).0 root) (rw root at h)
    | inr other ↦ absurd (cc (rw other at h))
  ]

  -- The three ways in which the check goes on.
  decided :
      (current_user current_group : Text)
      → username_from_uid sys fuel (sys.geteuid process) ≡ ok current_user
      → groupname_from_gid sys fuel (sys.getegid process) ≡ ok current_group
      → (if matches_current user current_user && matches_current group current_group
          then ok process
          else if sys.geteuid process == 0
          then drop_privileges sys fuel process user group
          else err (error (text "service identity mismatch")))
        ≡ ok p
      → RunsAs sys fuel process user group p
  decided current_user current_group named grouped h =
      elim (Bool-cases (matches_current user current_user)) [
        | inr a ↦ otherwise (rw a at h)
        | inl a ↦ elim (Bool-cases (matches_current group current_group)) [
          | inr b ↦ otherwise (rw (a, b) at h)
          | inl b ↦
              subst (λ q. RunsAs sys fuel process user group q) (ok_injective (rw (a, b) at h))
                (record {
                  as_user = matches-IsDesired user current_user _ named a;
                  as_group = matches-IsDesired group current_group _ grouped b;
                  came_by = as_started refl;
                })
        ]
      ]

  check_identity-RunsAs :
      check_identity sys fuel process user group ≡ ok p → RunsAs sys fuel process user group p
  unfolding check_identity
  check_identity-RunsAs h =
      let (current_user, named, h) =
        bind-ok (username_from_uid sys fuel (sys.geteuid process)) _ p h in
      let (current_group, grouped, h) =
        bind-ok (groupname_from_gid sys fuel (sys.getegid process)) _ p h in
      decided current_user current_group named grouped h

nothing_desired :
    (sys : Libc) (fuel : ℕ) (process : sys.Process) (user group : Option Text)
    → (is_some user || is_some group) ≡ false
    → RunsAs sys fuel process user group process
nothing_desired sys fuel process none none h = record {
  as_user = tt;
  as_group = tt;
  came_by = as_started refl;
}
nothing_desired sys fuel process none (some g) h = absurd (cc)
nothing_desired sys fuel process (some u) group h = absurd (cc)

-- A service that starts, and enforces its identity, runs as the configured user and group, as far as
-- they are configured: it was started so, or it was started as root, which has looked up the ids of
-- the user and the group (`acip_user` for the one that is not configured) and has set the group, the
-- user's supplementary groups and the user, in this order, each with success. Any other process ends
-- the start.
pub enforce_identity-RunsAs :
    (sys : Libc) (fuel : ℕ) (process p : sys.Process) (service : ServiceConfig)
    → unwrap_or service.enforce_identity true ≡ true
    → enforce_identity sys fuel process (some service) ≡ ok p
    → RunsAs sys fuel process service.user service.group p
unfolding enforce_identity enforce_service
enforce_identity-RunsAs sys fuel process p service on h =
    elim (Bool-cases (is_some service.user || is_some service.group)) [
      | inl some_identity ↦
          check_identity-RunsAs sys fuel process service.user service.group p
            (rw (on, some_identity) at h)
      | inr none_desired ↦
          subst (RunsAs sys fuel process service.user service.group)
            (ok_injective (rw (on, none_desired) at h))
            (nothing_desired sys fuel process service.user service.group none_desired)
    ]
