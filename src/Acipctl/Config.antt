-- ===== src/Acipctl/Config.antt =====
-- The edits of the configuration file in bin/acipctl.rs. toml_edit's documents and the validation
-- by the real configuration are parameters.
pub mod Laws
pub mod Write
pub mod Tests
use mathlib.Core.Option
use acip_sidecar.Prelude.{
  ℕ, Bool, true, false, not, ◌||◌, Option, none, some, List, [], ◌∷◌, ◌++◌, map, Result, ok, err,
  ◌>>=◌, ◌==◌, if◌then◌else◌, is_empty, take, or_else,
}
use acip_sidecar.Text.{
  Text, text, text_eq, trim, as_bytes, from_utf8, eq_ignore_ascii_case, Unicode,
}
use acip_sidecar.Json.{Fallible}
use acip_sidecar.Reputation.File.{Traced}
use acip_sidecar.Reputation.File.Effects.{
  FilePath, Bytes, Disk, Effect, create, write_byte, rename_to, remove,
}

-- Why an edit ends without a result.
pub data Stop : Type 0 where
  failed : Text → Stop
  panicked : Stop

abbrev pub Outcome : Type 0 → Type 0
Outcome A = Result Stop A

-- toml_edit: a document is the item of its root table.
pub record TomlEdit : Type 1 where
  pub Item : Type 0
  pub parse : Text → Fallible Item
  pub print : Item → Text
  -- `item[key]`, read: it panics, here `none`, on a key that is not there.
  pub index : Item → Text → Option Item
  -- `item[key] = value`, which makes an entry of its own: it panics on what can have no entries.
  pub assign : Item → Text → Item → Option Item
  pub is_none : Item → Bool
  -- `is_table` and `as_table_mut` are about tables in sections, not about inline tables.
  pub is_table : Item → Bool
  pub remove : Item → Text → Item
  pub table : Item
  pub boolean : Bool → Item
  -- The item of a text that parses as `i64`, or as `f64`.
  pub integer : Text → Option Item
  pub float : Text → Option Item
  pub string : Text → Item

-- The steps of `write_atomic`, whose temporary file tempfile names and removes again.
pub record WriteRun : Type 0 where
  pub temp : FilePath
  pub new_in : Fallible (Unit {0})
  pub write_all : Fallible (Unit {0})
  pub written : ℕ
  pub persist : Fallible (Unit {0})

-- `split('.').filter(|p| !p.is_empty())`.
add_part : Text → List Text → List Text
add_part part rest = if is_empty part then rest else part ∷ rest

split_from : Text → Text → List Text
unfolding add_part
split_from part [] = add_part part []
split_from part (c ∷ s) =
    let next = split_from [] s in
    let more = split_from (part ++ c ∷ []) s in if c == b'.' then add_part part next else more

unfoldable pub parts_of : Text → List Text
unfolding split_from
parts_of key = split_from [] key

lift : {A : Type 0} → Fallible A → Text → Outcome A
lift (ok a) c = ok a
lift (err e) c = err (failed (c ++ (text ": " ++ e)))

-- An error with its contexts.
as_failed : {A : Type 0} → Fallible A → Outcome A
as_failed (ok a) = ok a
as_failed (err e) = err (failed e)

or_panic : {A : Type 0} → Option A → Outcome A
or_panic (some a) = ok a
or_panic none = err panicked

read_bytes : Option Bytes → Outcome Text
read_bytes none = err (failed (text "No such file or directory"))
read_bytes (some bytes) = elim (from_utf8 bytes) [
  | none ↦ err (failed (text "stream did not contain valid UTF-8"))
  | some raw ↦ ok raw
]

-- With what is left behind where `persist` fails.
persist_temp : WriteRun → FilePath → Bytes → Fallible (Unit {0}) → Traced (Fallible (Unit {0}))
persist_temp run path raw (ok done) =
    (create run.temp ∷ (map (write_byte run.temp) raw ++ rename_to run.temp path ∷ []), ok tt)
persist_temp run path raw (err e) = (
  create run.temp ∷ (map (write_byte run.temp) raw ++ remove run.temp ∷ []),
  err (text "persist: " ++ e),
)

write_temp : WriteRun → FilePath → Bytes → Fallible (Unit {0}) → Traced (Fallible (Unit {0}))
unfolding persist_temp
write_temp run path raw (ok done) = persist_temp run path raw run.persist
write_temp run path raw (err e) = (
  create run.temp ∷ (map (write_byte run.temp) (take run.written raw) ++ remove run.temp ∷ []),
  err (text "write temp: " ++ e),
)

new_temp : WriteRun → FilePath → Bytes → Fallible (Unit {0}) → Traced (Fallible (Unit {0}))
unfolding write_temp
new_temp run path raw (ok done) = write_temp run path raw run.write_all
new_temp run path raw (err e) = ([], err (text "create temp file: " ++ e))

unfoldable pub write_atomic : WriteRun → FilePath → Text → Traced (Fallible (Unit {0}))
unfolding new_temp
write_atomic run path contents = new_temp run path (as_bytes contents) run.new_in

-- The end of an edit: nothing to write, or the new text.
written : WriteRun → FilePath → Outcome (Option Text) → Traced (Outcome (Unit {0}))
unfolding write_atomic as_failed
written run path (err e) = ([], err e)
written run path (ok none) = ([], ok tt)
written run path (ok (some new_txt)) =
    let (effects, result) = write_atomic run path new_txt in (effects, as_failed result)

some_parts : List Text → Outcome (List Text)
some_parts parts = if is_empty parts then err (failed (text "invalid key")) else ok parts

module _ (toml : TomlEdit) where
  -- A table in the way of the key stays; anything else that is there becomes an empty table.
  step_into : toml.Item → toml.Item
  step_into seen = if toml.is_table seen then seen else toml.table

  -- The walk along the key. What is not the last part is looked at before it is entered.
  pub set_in : List Text → toml.Item → toml.Item → Outcome toml.Item
  unfolding or_panic step_into
  set_in [] value cur = ok value
  set_in (p ∷ []) value cur = or_panic (toml.assign cur p value)
  set_in (p ∷ q ∷ ps) value cur = do
    seen ← or_panic (toml.index cur p)
    inner ← set_in (q ∷ ps) value (step_into seen)
    or_panic (toml.assign cur p inner)

  -- `none` where there is nothing to do.
  pub unset_in : List Text → toml.Item → Outcome (Option toml.Item)
  unfolding or_panic
  unset_in [] cur = ok none
  unset_in (p ∷ []) cur = if toml.is_table cur then ok (some (toml.remove cur p)) else ok none
  unset_in (p ∷ q ∷ ps) cur = do
    seen ← or_panic (toml.index cur p)
    inner ← if toml.is_none seen then ok none else unset_in (q ∷ ps) seen
    elim inner [
      | none ↦ ok none
      | some item ↦ or_panic (toml.assign cur p item) >>= λ changed. ok (some changed)
    ]

module _ (u : Unicode) (toml : TomlEdit) where
  unfoldable pub parse_toml_value : Text → toml.Item
  parse_toml_value s =
      let t = trim s in
      let l = u.to_lowercase t in
      if text_eq l (text "true") || text_eq l (text "false")
      then toml.boolean (eq_ignore_ascii_case t (text "true"))
      else elim (or_else (toml.integer t) (toml.float t)) [
        | none ↦ toml.string t
        | some item ↦ item
      ]

-- With the validation of a text by the real configuration.
module _ (u : Unicode) (toml : TomlEdit) (validate : Text → Fallible (Unit {0})) where
  validated : toml.Item → Outcome (Option Text)
  unfolding lift
  validated doc = do
    config ← lift (validate (toml.print doc)) (text "validate config")
    ok (some (toml.print doc))

  pub set_text : Text → Text → Text → Outcome (Option Text)
  unfolding validated some_parts lift
  set_text raw dotted_key value = do
    doc ← lift (toml.parse raw) (text "parse toml")
    parts ← some_parts (parts_of dotted_key)
    changed ← set_in toml parts (parse_toml_value u toml value) doc
    validated changed

  pub unset_text : Text → Text → Outcome (Option Text)
  unfolding validated some_parts lift
  unset_text raw dotted_key = do
    doc ← lift (toml.parse raw) (text "parse toml")
    parts ← some_parts (parts_of dotted_key)
    changed ← unset_in toml parts doc
    elim changed [ none ↦ ok none | some item ↦ validated item ]

  unfoldable pub set_config_value :
      WriteRun → FilePath → Disk → Text → Text → Traced (Outcome (Unit {0}))
  unfolding read_bytes set_text written
  set_config_value run path disk dotted_key value =
      written run path (read_bytes (disk path) >>= λ raw. set_text raw dotted_key value)

  unfoldable pub unset_config_value :
      WriteRun → FilePath → Disk → Text → Traced (Outcome (Unit {0}))
  unfolding read_bytes unset_text written
  unset_config_value run path disk dotted_key =
      written run path (read_bytes (disk path) >>= λ raw. unset_text raw dotted_key)
