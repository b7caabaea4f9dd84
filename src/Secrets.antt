-- ===== src/Secrets.antt =====
-- secrets.rs: where secrets come from, and the file of secrets.
pub mod Laws
use Prim.Native.Nat.{bit_and}
use mathlib.Core.List.{reverse}
use acip_sidecar.Prelude.{
  ℕ, Bool, true, false, ◌&&◌, not, Option, none, some, List, [], ◌∷◌, ◌++◌, Result, ok, err, ◌>>=◌,
  ◌==◌, if◌then◌else◌, is_empty,
}
use acip_sidecar.Text.{Text, text, trim, starts_with}
use acip_sidecar.Environment.{Env}
use acip_sidecar.Assoc.{Assoc, lookup, insert}
use acip_sidecar.Json.{Fallible, context}
use acip_sidecar.Sentry.Client.{SecretStore}

-- `.filter(|v| !v.is_empty())`.
filled : Option Text → Option Text
filled none = none
filled (some v) = if is_empty v then none else some v

-- `EnvStore`.
unfoldable pub env_store : Env → SecretStore
unfolding filled
env_store env key = filled (env key)

-- `contents.lines()`: the lines, of which the last may lack its newline. A `\r` before a newline
-- goes with it; the lines are trimmed anyway. The line read so far is reversed.
lines_from : Text → Text → List Text
lines_from [] [] = []
lines_from (c ∷ acc) [] = reverse (c ∷ acc) ∷ []
lines_from acc (c ∷ s) =
    let next = reverse acc ∷ lines_from [] s in
    let longer = lines_from (c ∷ acc) s in if c == 0x0a then next else longer

unfoldable pub lines : Text → List Text
unfolding lines_from
lines s = lines_from [] s

-- `split_once('=')`.
onto_key : ℕ → Option (Text × Text) → Option (Text × Text)
onto_key c none = none
onto_key c (some (k, v)) = some (c ∷ k, v)

unfoldable pub split_once : Text → Option (Text × Text)
unfolding onto_key
split_once [] = none
split_once (c ∷ s) =
    let later = onto_key c (split_once s) in if c == b'=' then some ([], s) else later

-- `if !k.is_empty() && !v.is_empty() { map.insert(k, v) }`, on the trimmed parts.
pub insert_pair : Option (Text × Text) → Assoc Text → Assoc Text
insert_pair none map = map
insert_pair (some (k, v)) map =
    if not (is_empty (trim k)) && not (is_empty (trim v)) then insert (trim k) (trim v) map else map

-- One round of the loop over the lines.
pub insert_line : Text → Assoc Text → Assoc Text
unfolding insert_pair split_once
insert_line raw map =
    let line = trim raw in
    if is_empty line
    then map
    else if starts_with line (0x23 ∷ [])
    then map
    else insert_pair (split_once line) map

pub insert_lines : List Text → Assoc Text → Assoc Text
unfolding insert_line
insert_lines [] map = map
insert_lines (line ∷ rest) map = insert_lines rest (insert_line line map)

-- `fs::metadata`: the mode and the owner.
pub record Metadata : Type 0 where
  pub mode : ℕ
  pub uid : ℕ

-- The dotenv file as the file system answers for it; a path without a parent has none.
pub record Dotenv : Type 0 where
  pub exists_there : Bool
  pub file : Fallible Metadata
  pub parent : Option (Fallible Metadata)
  pub contents : Fallible Text

-- `(mode & 0o777) & 0o077`.
abbrev pub open_bits : Metadata → ℕ
open_bits m = bit_and (bit_and m.mode 511) 63

check_parent : Metadata → Option (Fallible Metadata) → Fallible (Unit {0})
check_parent meta none = ok tt
check_parent meta (some answer) = do
  pmeta ← answer
  if open_bits pmeta == 0
      then (if meta.uid == pmeta.uid then ok tt else err (text "dotenv ownership mismatch"))
      else err (text "dotenv parent dir permissions too open (need 700-ish)")

-- The messages are without the path and the mode.
unfoldable pub ensure_secure_dotenv : Dotenv → Fallible (Unit {0})
unfolding check_parent
ensure_secure_dotenv d =
    if d.exists_there
    then (do
      meta ← d.file
      if open_bits meta == 0
          then check_parent meta d.parent
          else err (text "dotenv file permissions too open (need 600-ish)"))
    else err (text "dotenv file not found")

-- `EnvFileStore::load`, and its `get`.
unfoldable pub load : Dotenv → Fallible (Assoc Text)
unfolding ensure_secure_dotenv insert_lines lines
load d = do
  secure ← ensure_secure_dotenv d
  contents ← context d.contents (text "failed reading dotenv file")
  ok (insert_lines (lines contents) [])

unfoldable pub file_store : Assoc Text → SecretStore
unfolding filled
file_store map key = filled (lookup key map)

-- `CompositeStore`: the first store that has the key.
unfoldable pub composite_store : List SecretStore → SecretStore
composite_store [] key = none
composite_store (s ∷ rest) key = elim (s key) [ some v ↦ some v | none ↦ composite_store rest key ]
