-- ===== src/Startup/Main/Laws.antt =====
-- What holds of a service that starts.
use mathlib.Core.Path.{subst}
use acip_sidecar.Prelude.{
  ◌≡◌, refl, ◌∙◌, ap, ◌++◌, ◌∷◌, ◌==◌, ==_iff, drop, length, ◌⊎◌, inl, inr, true, false, Option,
  none, some, [], ok, err, unwrap_or, bind-ok, ok_injective, Bool-cases,
}
use acip_sidecar.Text.{Text, text, starts_with}
use acip_sidecar.Json.{Fallible}
use acip_sidecar.Sentry.Client.{SecretStore}
use acip_sidecar.Policy.Laws.{HasDefault}
use acip_sidecar.Secrets
use acip_sidecar.Secrets.{Dotenv}
use acip_sidecar.Secrets.Laws.{IsPrivate, load-IsPrivate}
use acip_sidecar.Settings.{NormalizeSettings}
use acip_sidecar.Reputation.{RepMap}
use acip_sidecar.Reputation.File.{Traced, load_or_create}
use acip_sidecar.Reputation.File.Load.{Starts, load_or_create-IsLoaded}
use acip_sidecar.Ingest.{Backend, in_memory, json_file}
use acip_sidecar.Identity.{Checked, ServiceConfig, enforce_identity}
use acip_sidecar.Identity.Laws.{RunsAs, enforce_identity-RunsAs}
use acip_sidecar.Startup.{
  Config, CliOverrides, token_required, token_env, resolve_token, build_secrets_store,
  build_policy_store,
}
use acip_sidecar.Startup.Laws.{Guard, unguarded_or_guarded, build_policy_store-HasDefault}
use acip_sidecar.Startup.Main.{
  ConfigFile, parsed, not_found, unreadable, System, Started, Ready, settings, ended, map_option,
  file_of, build_state, begin, after_load, with_store, after_begin, start_from, start,
}

ended-ok : {A : Type 0} (r : Fallible A) (a : A) → ended r ≡ ok a → r ≡ ok a
unfolding ended
ended-ok (ok x) a h = cc
ended-ok (err e) a h = absurd (cc)

prefixed : (s p : Text) → starts_with s p ≡ true → s ≡ p ++ drop (length p) s
unfolding starts_with
prefixed s [] h = refl
prefixed [] (p ∷ ps) h = absurd (cc)
prefixed (c ∷ s) (p ∷ ps) h = elim (Bool-cases (c == p)) [
  | inl e ↦ let same : c ≡ p = (==_iff c p).0 e in rw (same, ← (prefixed s ps (rw e at h))) refl
  | inr e ↦ absurd (cc (rw e at h))
]

file_of-some : (s path : Text) → file_of s ≡ some path → s ≡ text "file:" ++ path
unfolding file_of text
file_of-some s path h = elim (Bool-cases (starts_with s (text "file:"))) [
  | inl e ↦
      let same : drop 5 s ≡ path = cc (rw e at h) in
      prefixed s (text "file:") e ∙ ap (λ rest. text "file:" ++ rest) same
  | inr e ↦ absurd (cc (rw e at h))
]

file_of-none : (s : Text) → file_of s ≡ none → starts_with s (text "file:") ≡ false
unfolding file_of
file_of-none s h = elim (Bool-cases (starts_with s (text "file:"))) [
  | inl e ↦ absurd (cc (rw e at h))
  | inr e ↦ e
]

module _ (sys : System) (cli : CliOverrides) (secrets_file : Option Text)
    (initial : sys.libc.Process) where
  -- The identity of a process, as the configuration asks for it.
  pub data Identified (p : sys.libc.Process) : Option ServiceConfig → Type 0 where
    unconfigured : Identified p none
    unenforced :
        (service : ServiceConfig)
        → unwrap_or service.enforce_identity true ≡ false
        → Identified p (some service)
    enforced :
        (service : ServiceConfig)
        → RunsAs sys.libc sys.fuel initial service.user service.group p
        → Identified p (some service)

  -- The variable `ACIP_REPUTATION_STORE`.
  abbrev pub store_setting : Text
  store_setting = unwrap_or (sys.env (text "ACIP_REPUTATION_STORE")) (text "memory")

  -- Where the records of the reputation store come from: from the file that follows `file:` in the
  -- setting, or from nowhere, where it does not begin so.
  pub data Restored : Backend → RepMap → Type 0 where
    fresh : starts_with store_setting (text "file:") ≡ false → Restored in_memory []
    from_file :
        (path : Text) (records : RepMap)
        → store_setting ≡ text "file:" ++ path
        → Starts sys.codec records (sys.disk (sys.path_of path))
        → Restored json_file records

  -- There is no secrets file, or it is private.
  abbrev pub SecretsPrivate : Type 0
  SecretsPrivate =
      (secrets_file ≡ none)
      ⊎ ((path : Text) × (secrets_file ≡ some path) × IsPrivate (sys.dotenv_at path))

  pub record Fit (cfg : Option Config) (service : Option ServiceConfig)
      (st : Started sys cli secrets_file initial) : Type 0 where
    pub guard : Guard sys.net (settings sys cli secrets_file initial cfg) cfg st.secrets st.token
    pub identity : Identified st.process service
    pub private_secrets : SecretsPrivate
    pub default_policy : HasDefault st.policies
    pub records : Restored st.backend st.reputation

  enforce-Identified :
      (p : sys.libc.Process) (service : Option ServiceConfig)
      → enforce_identity sys.libc sys.fuel initial service ≡ ok p
      → Identified p service
  enforce-Identified p none h = unconfigured
  enforce-Identified p (some service) h =
      elim (Bool-cases (unwrap_or service.enforce_identity true)) [
        | inl on ↦
            enforced service (enforce_identity-RunsAs sys.libc sys.fuel initial p service on h)
        | inr off ↦ unenforced service off
      ]

  build_secrets_store-IsPrivate :
      (file : Option Text) (secrets : SecretStore)
      → build_secrets_store sys.env (map_option sys.dotenv_at file) ≡ ok secrets
      → (file ≡ none) ⊎ ((path : Text) × (file ≡ some path) × IsPrivate (sys.dotenv_at path))
  unfolding build_secrets_store map_option
  build_secrets_store-IsPrivate none secrets h = inl refl
  build_secrets_store-IsPrivate (some path) secrets h =
      let (map, loaded, _) = bind-ok (Secrets.load (sys.dotenv_at path)) _ secrets h in
      inr (path, refl, (load-IsPrivate (sys.dotenv_at path) map loaded).0)

  -- What `begin` has seen to.
  record Begun (cfg : Option Config) (service : Option ServiceConfig)
      (ready : Ready sys cli secrets_file initial) : Type 0 where
    guard : Guard sys.net (settings sys cli secrets_file initial cfg) cfg ready.1 ready.2
    identity : Identified ready.0 service
    private_secrets : SecretsPrivate

  begin-Begun :
      (cfg : Option Config) (service : Option ServiceConfig)
      (ready : Ready sys cli secrets_file initial)
      → begin sys cli secrets_file initial cfg service ≡ ok ready
      → Begun cfg service ready
  unfolding begin
  begin-Begun cfg service ready h =
      let eff = settings sys cli secrets_file initial cfg in
      let (required, needs, h) = bind-ok (ended (token_required sys.net eff cfg)) _ ready h in
      let (dropped, runs, h) =
        bind-ok (enforce_identity sys.libc sys.fuel initial service) _ ready h in
      let (secrets, built, h) =
        bind-ok (ended (build_secrets_store sys.env (map_option sys.dotenv_at secrets_file))) _
          ready h in
      let (token, resolved, h) =
        bind-ok (ended (resolve_token required secrets (token_env cfg))) _ ready h in
      let same : (dropped, secrets, token) ≡ ready = ok_injective h in
      subst (Begun cfg service) same record {
        guard =
            unguarded_or_guarded sys.net eff cfg secrets required token (ended-ok _ required needs)
              (ended-ok _ token resolved);
        identity = enforce-Identified dropped service runs;
        private_secrets =
            build_secrets_store-IsPrivate secrets_file secrets (ended-ok _ secrets built);
      }

  build_state-Fit :
      (cfg : Option Config) (service : Option ServiceConfig)
      (normalize : Option (NormalizeSettings sys.floats))
      (ready : Ready sys cli secrets_file initial) (backend : Backend) (records : RepMap)
      (st : Started sys cli secrets_file initial)
      → Begun cfg service ready
      → Restored backend records
      → build_state sys cli secrets_file initial cfg normalize ready.0 ready.1 ready.2 backend
          records
        ≡ ok st
      → Fit cfg service st
  unfolding build_state
  build_state-Fit cfg service normalize ready backend records st begun restored h =
      let (_, _, h) = bind-ok (ended sys.http_client) _ st h in
      let (policies, built, h) =
        bind-ok (ended (build_policy_store sys.unicode ready.1 _)) _ st h in
      subst (Fit cfg service) (ok_injective h) record {
        guard = begun.guard;
        identity = begun.identity;
        private_secrets = begun.private_secrets;
        default_policy =
            build_policy_store-HasDefault sys.unicode ready.1 _ policies
              (ended-ok _ policies built);
        records = restored;
      }

  after_load-Fit :
      (cfg : Option Config) (service : Option ServiceConfig)
      (normalize : Option (NormalizeSettings sys.floats))
      (ready : Ready sys cli secrets_file initial) (t : Traced (Fallible RepMap))
      (st : Started sys cli secrets_file initial)
      → Begun cfg service ready
      → ((records : RepMap) → t.1 ≡ ok records → Restored json_file records)
      → (after_load sys cli secrets_file initial cfg normalize ready t).1 ≡ ok st
      → Fit cfg service st
  unfolding after_load
  after_load-Fit cfg service normalize ready t st begun restored h =
      let (records, loaded, h) = bind-ok (ended t.1) _ st h in
      build_state-Fit cfg service normalize ready json_file records st begun
        (restored records (ended-ok t.1 records loaded)) h

  with_store-Fit :
      (cfg : Option Config) (service : Option ServiceConfig)
      (normalize : Option (NormalizeSettings sys.floats))
      (ready : Ready sys cli secrets_file initial) (store : Option Text)
      (st : Started sys cli secrets_file initial)
      → Begun cfg service ready
      → file_of store_setting ≡ store
      → (with_store sys cli secrets_file initial cfg normalize ready store).1 ≡ ok st
      → Fit cfg service st
  unfolding with_store
  with_store-Fit cfg service normalize ready none st begun setting h =
      build_state-Fit cfg service normalize ready in_memory [] st begun
        (fresh (file_of-none store_setting setting)) h
  with_store-Fit cfg service normalize ready (some path) st begun setting h =
      let loaded = load_or_create-IsLoaded sys.codec sys.load_run (sys.path_of path) sys.disk in
      after_load-Fit cfg service normalize ready
        (load_or_create sys.codec sys.load_run (sys.path_of path) sys.disk) st begun
        (λ records e.
          from_file path records (file_of-some store_setting path setting)
            (loaded.started records e))
        h

  after_begin-Fit :
      (cfg : Option Config) (service : Option ServiceConfig)
      (normalize : Option (NormalizeSettings sys.floats))
      (begun : Checked (Ready sys cli secrets_file initial))
      (st : Started sys cli secrets_file initial)
      → begin sys cli secrets_file initial cfg service ≡ begun
      → (after_begin sys cli secrets_file initial cfg normalize begun).1 ≡ ok st
      → Fit cfg service st
  unfolding after_begin
  after_begin-Fit cfg service normalize (err e) st b h = absurd (cc)
  after_begin-Fit cfg service normalize (ok ready) st b h =
      with_store-Fit cfg service normalize ready _ st (begin-Begun cfg service ready b) refl h

  -- The sections of a configuration file, none where there is no file.
  abbrev pub config_of : ConfigFile sys.floats → Option Config
  config_of (parsed cfg service normalize) = some cfg
  config_of not_found = none
  config_of (unreadable e) = none

  abbrev pub service_of : ConfigFile sys.floats → Option ServiceConfig
  service_of (parsed cfg service normalize) = service
  service_of not_found = none
  service_of (unreadable e) = none

  start_from-Fit :
      (file : ConfigFile sys.floats) (st : Started sys cli secrets_file initial)
      → (start_from sys cli secrets_file initial file).1 ≡ ok st
      → Fit (config_of file) (service_of file) st
  unfolding start_from
  start_from-Fit (parsed cfg service normalize) st h =
      after_begin-Fit (some cfg) service normalize _ st refl h
  start_from-Fit not_found st h = after_begin-Fit none none none _ st refl h
  start_from-Fit (unreadable e) st h = absurd (cc)

  -- A service that starts is fit to serve: its routes are guarded by the token of its secrets or need
  -- none, it runs as the configured identity unless there is none or it is not enforced, its secrets
  -- file is private, it has the policy `default`, and its reputation records are those of the file
  -- that `ACIP_REPUTATION_STORE` names after `file:`, or none where it names none.
  pub start-Fit :
      (st : Started sys cli secrets_file initial)
      → (start sys cli secrets_file initial).1 ≡ ok st
      → Fit (config_of sys.config) (service_of sys.config) st
  unfolding start
  start-Fit st h = start_from-Fit sys.config st h
