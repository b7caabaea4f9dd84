-- ===== src/Extractor.antt =====
-- The extraction that runs in the helper process: the text of SVG and PDF in extract.rs, and the
-- helper bin/acip-extract.rs around it. A panic ends the helper.
pub mod Svg
pub mod Pdf
pub mod Program
pub mod Tests
use acip_sidecar.Prelude.{ℕ, Result}
use acip_sidecar.Text.{Text}

-- Why a function gives no value: an error, a panic, or fuel that ran out.
pub data Stop : Type 0 where
  failed : Text → Stop
  panicked : Stop
  exhausted : Stop

abbrev pub Outcome : Type 0 → Type 0
Outcome A = Result Stop A
