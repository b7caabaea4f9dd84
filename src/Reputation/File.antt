-- ===== src/Reputation/File.antt =====
-- The reputation store in a JSON file: `JsonFileReputationStore` of reputation.rs, on a disk. The
-- operations of the file system leave their effects in order, so that a theorem can speak of the
-- disk at any moment; whether each of them succeeds is a parameter.
pub mod Effects
pub mod Atomic
pub mod Load
pub mod Reload
pub mod Tests
use acip_sidecar.Prelude.{
  ℕ, Bool, true, false, Option, none, some, List, [], ◌∷◌, ◌++◌, Result, ok, err, if◌then◌else◌,
  map, take, unwrap_or, is_empty,
}
use acip_sidecar.Text.{Text, text, as_bytes, from_utf8}
use acip_sidecar.Decimal.{to_decimal}
use acip_sidecar.Json.{Fallible}
use acip_sidecar.Reputation.{ReputationRecord, Observation, RepMap, record_file}
use acip_sidecar.Reputation.File.Effects.{
  FilePath, Bytes, Disk, Effect, create, write_byte, rename_to, remove, apply_all,
}

-- `path.file_name().and_then(|name| name.to_str()).unwrap_or("reputation.json")`.
abbrev name_of : FilePath → Text
name_of path = unwrap_or path.file_name (text "reputation.json")

unfoldable pub quarantine_path : FilePath → ℕ → FilePath
quarantine_path path ts = record path {
  file_name = some (name_of path ++ (text ".corrupt." ++ to_decimal ts));
}

unfoldable pub temp_path_for : FilePath → Text → ℕ → ℕ → FilePath
temp_path_for path parent pid nanos = record {
  parent = some parent;
  file_name = some (
      text "."
      ++ (name_of path ++ (text ".tmp." ++ (to_decimal pid ++ (text "." ++ to_decimal nanos)))));
}

-- serde_json on `JsonStoreFile`.
pub record StoreCodec : Type 0 where
  pub from_str : Text → Fallible RepMap
  pub to_string_pretty : RepMap → Fallible Text

-- What the steps of `load_or_create` meet. A copy that fails may have made the file, and written a
-- part of it: `copied` is its length, if there is one.
pub record LoadRun : Type 0 where
  pub now_unix : ℕ
  pub read : Fallible (Unit {0})
  pub rename : Fallible (Unit {0})
  pub copy : Fallible (Unit {0})
  pub copied : Option ℕ
  pub remove : Fallible (Unit {0})

-- The effects on the disk of a part of the program, in their order, and its result.
abbrev pub Traced : Type 0 → Type 0
Traced A = List Effect × A

copy_bytes : FilePath → Bytes → List Effect
copy_bytes path bytes = create path ∷ map (write_byte path) bytes

copied_part : FilePath → Bytes → Option ℕ → List Effect
unfolding copy_bytes
copied_part path bytes none = []
copied_part path bytes (some n) = copy_bytes path (take n bytes)

remove_effects : FilePath → Fallible (Unit {0}) → Traced (Fallible (Unit {0}))
remove_effects path (ok done) = (remove path ∷ [], ok tt)
remove_effects path (err e) = ([], err e)

-- `fs::copy(path, quarantine)?; fs::remove_file(path)?`.
copy_and_remove :
    LoadRun → FilePath → FilePath → Bytes → Fallible (Unit {0}) → Traced (Fallible (Unit {0}))
unfolding copy_bytes copied_part remove_effects
copy_and_remove run path quarantine bytes (ok done) =
    let (removed, result) = remove_effects path run.remove in
    (copy_bytes quarantine bytes ++ removed, result)
copy_and_remove run path quarantine bytes (err e) = (copied_part quarantine bytes run.copied, err e)

quarantine_effects :
    LoadRun → FilePath → FilePath → Bytes → Fallible (Unit {0}) → Traced (Fallible (Unit {0}))
unfolding copy_and_remove
quarantine_effects run path quarantine bytes (ok done) = (rename_to path quarantine ∷ [], ok tt)
quarantine_effects run path quarantine bytes (err e) =
    copy_and_remove run path quarantine bytes run.copy

unfoldable pub quarantine_corrupt_file :
    LoadRun → FilePath → FilePath → Bytes → Traced (Fallible (Unit {0}))
unfolding quarantine_effects
quarantine_corrupt_file run path quarantine bytes =
    quarantine_effects run path quarantine bytes run.rename

-- The `match` on the parsed file. Whether the file could be put aside is only logged.
parsed_or_quarantined : LoadRun → FilePath → Bytes → Fallible RepMap → Traced (Fallible RepMap)
unfolding quarantine_corrupt_file quarantine_path
parsed_or_quarantined run path bytes (ok records) = ([], ok records)
parsed_or_quarantined run path bytes (err e) =
    let (effects, logged) =
      quarantine_corrupt_file run path (quarantine_path path run.now_unix) bytes in
    (effects, ok [])

-- `fs::read_to_string`, which fails on bytes that are not UTF-8.
read_text : StoreCodec → LoadRun → FilePath → Bytes → Option Text → Traced (Fallible RepMap)
unfolding parsed_or_quarantined
read_text c run path bytes none = ([], err (text "stream did not contain valid UTF-8"))
read_text c run path bytes (some raw) = parsed_or_quarantined run path bytes (c.from_str raw)

read_file : StoreCodec → LoadRun → FilePath → Bytes → Fallible (Unit {0}) → Traced (Fallible RepMap)
unfolding read_text
read_file c run path bytes (ok done) = read_text c run path bytes (from_utf8 bytes)
read_file c run path bytes (err e) = ([], err e)

-- The disk is what the process sees of it: `path.exists()` is false as well where the metadata of the
-- file cannot be read, and the file is not there for the process then.
load_from : StoreCodec → LoadRun → FilePath → Option Bytes → Traced (Fallible RepMap)
unfolding read_file
load_from c run path none = ([], ok [])
load_from c run path (some bytes) = read_file c run path bytes run.read

unfoldable pub load_or_create : StoreCodec → LoadRun → FilePath → Disk → Traced (Fallible RepMap)
unfolding load_from
load_or_create c run path disk = load_from c run path (disk path)

-- What the steps of `persist` meet. A write that fails may have written a part.
pub record PersistRun : Type 0 where
  pub pid : ℕ
  pub nanos : ℕ
  pub create_dir_all : Fallible (Unit {0})
  pub open_new : Fallible (Unit {0})
  pub write_all : Fallible (Unit {0})
  pub written : ℕ
  pub rename : Fallible (Unit {0})
  pub remove : Fallible (Unit {0})

-- `let _ = fs::remove_file(&temp_path)`.
remove_best_effort : FilePath → Fallible (Unit {0}) → List Effect
unfolding remove_effects
remove_best_effort path outcome = (remove_effects path outcome).0

rename_over : PersistRun → FilePath → FilePath → Fallible (Unit {0}) → Traced (Fallible (Unit {0}))
unfolding remove_best_effort
rename_over run temp path (ok done) = (rename_to temp path ∷ [], ok tt)
rename_over run temp path (err e) = (remove_best_effort temp run.remove, err e)

write_temp :
    PersistRun → FilePath → FilePath → Bytes → Fallible (Unit {0}) → Traced (Fallible (Unit {0}))
unfolding rename_over
write_temp run temp path raw (ok done) =
    let (effects, result) = rename_over run temp path run.rename in
    (map (write_byte temp) raw ++ effects, result)
write_temp run temp path raw (err e) = (map (write_byte temp) (take run.written raw), err e)

open_temp :
    PersistRun → FilePath → FilePath → Bytes → Fallible (Unit {0}) → Traced (Fallible (Unit {0}))
unfolding write_temp
open_temp run temp path raw (ok done) =
    let (effects, result) = write_temp run temp path raw run.write_all in
    (create temp ∷ effects, result)
open_temp run temp path raw (err e) = ([], err e)

persist_raw :
    PersistRun
    → FilePath
    → Text
    → Fallible (Unit {0})
    → Fallible Text
    → Traced (Fallible (Unit {0}))
unfolding open_temp temp_path_for
persist_raw run path parent (ok done) (ok raw) =
    open_temp run (temp_path_for path parent run.pid run.nanos) path (as_bytes raw) run.open_new
persist_raw run path parent (ok done) (err e) = ([], err e)
persist_raw run path parent (err e) raw = ([], err e)

-- `self.path.parent().unwrap_or_else(|| Path::new("."))`.
abbrev parent_or_dot : FilePath → Text
parent_or_dot path = unwrap_or path.parent (text ".")

unfoldable pub persist : StoreCodec → PersistRun → FilePath → RepMap → Traced (Fallible (Unit {0}))
unfolding persist_raw
persist c run path records =
    let parent = parent_or_dot path in
    persist_raw run path parent (if is_empty parent then ok tt else run.create_dir_all)
      (c.to_string_pretty records)

-- The store: the map in memory, and the disk with its file.
pub record FileStore : Type 0 where
  pub records : RepMap
  pub disk : Disk

-- The disk after the effects of `persist`.
abbrev pub persisted : StoreCodec → PersistRun → FilePath → RepMap → Disk → Disk
persisted c run path records = apply_all (persist c run path records).0

-- `JsonFileReputationStore::record`, at the time `now`: the records that were written, and the new
-- store. The result of `persist` is dropped.
unfoldable pub record_and_persist :
    StoreCodec
    → PersistRun
    → FilePath
    → ℕ
    → FileStore
    → Observation
    → FileStore × List ReputationRecord
record_and_persist c run path now store obs =
    let (records, out) = record_file now store.records obs in
    (record { records = records; disk = persisted c run path records store.disk }, out)
