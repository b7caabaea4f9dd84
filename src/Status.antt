-- ===== src/Status.antt =====
-- status.rs: the route that shows the settings in effect.
use acip_sidecar.Prelude.{true, unwrap_or}
use acip_sidecar.Text.{Text, text}
use acip_sidecar.Environment.{Env}
use acip_sidecar.Json.{Value, bool, num, str, arr, obj, Fields, field, end, array, opt_str}
use acip_sidecar.Policy.{PolicyStore, sorted_names}
use acip_sidecar.Settings.{TruncationPolicy}

extractor_fields : Env → Fields
extractor_fields env =
    field (text "timeout_secs") (opt_str (env (text "ACIP_EXTRACTOR_TIMEOUT_SECS"))) (
      field (text "rlimit_as_mb") (opt_str (env (text "ACIP_EXTRACTOR_RLIMIT_AS_MB"))) (
        field (text "rlimit_nofile") (opt_str (env (text "ACIP_EXTRACTOR_RLIMIT_NOFILE"))) (
          field (text "rlimit_fsize_mb") (opt_str (env (text "ACIP_EXTRACTOR_RLIMIT_FSIZE_MB"))) (
            field (text "nice") (opt_str (env (text "ACIP_EXTRACTOR_NICE"))) (
              field (text "rlimit_nproc") (opt_str (env (text "ACIP_EXTRACTOR_RLIMIT_NPROC"))) (
                field (text "tmpdir") (opt_str (env (text "ACIP_EXTRACTOR_TMPDIR")))
                  (field (text "bin") (opt_str (env (text "ACIP_EXTRACTOR_BIN"))) end)))))))

policy_fields : TruncationPolicy → Fields
policy_fields p =
    field (text "head") (num p.head)
      (field (text "tail") (num p.tail) (field (text "full_if_lte") (num p.full_if_lte) end))

-- The version is that of the package. The secrets and the reputation store are not read.
unfoldable pub get_status : Text → Env → TruncationPolicy → PolicyStore → Value
unfolding extractor_fields policy_fields
get_status version env policy policies = obj (
    field (text "ok") (bool true) (
      field (text "version") (str version) (
        field (text "sentry_mode") (str (unwrap_or (env (text "ACIP_SENTRY_MODE")) (text "live"))) (
          field (text "policy") (obj (policy_fields policy)) (
            field (text "policies") (arr (array (sorted_names policies)))
              (field (text "extractor") (obj (extractor_fields env)) end))))))
