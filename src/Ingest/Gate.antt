-- ===== src/Ingest/Gate.antt =====
-- The two caps on tools in ingest.rs.
pub mod Laws
pub mod Strict
use acip_sidecar.Prelude.{Bool, true, false, ◌&&◌, not, if◌then◌else◌, push}
use acip_sidecar.Text.{Text, text}
use acip_sidecar.Sentry.{Decision}

unfoldable pub enforce_markup_tools_cap : Decision → Bool → Decision
enforce_markup_tools_cap d is_markup =
    if is_markup && d.tools_allowed
    then record d {
      tools_allowed = false;
      reasons = push d.reasons (text "tools hard-capped for markup content (html/svg)");
    }
    else d

unfoldable pub enforce_tools_authorization : Decision → Bool → Decision
enforce_tools_authorization d allow_tools =
    if d.tools_allowed && not allow_tools
    then record d {
      tools_allowed = false;
      reasons =
          push d.reasons
            (text "tools not authorized by caller (set X-ACIP-Allow-Tools=true to allow)");
    }
    else d
