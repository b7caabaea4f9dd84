-- ===== src/Acipctl/Config/Write.antt =====
-- What `set_config_value` of bin/acipctl.rs does to the configuration file.
use acip_sidecar.Prelude.{
  ◌≡◌, refl, ◌∙◌, sym, ap, ◌≢◌, Option, none, some, List, [], ◌∷◌, ◌++◌, ok, err, All, All-append,
  map, take, bind-ok, ok_injective, Option-cases, inl, inr,
}
use acip_sidecar.Text.{Text, as_bytes, from_utf8, Unicode, text}
use acip_sidecar.Json.{Fallible}
use acip_sidecar.Reputation.File.Effects.{
  FilePath, Bytes, Disk, create, write_byte, remove, Avoids, writes-Avoids,
}
use acip_sidecar.Reputation.File.Atomic.{IsAtomic, untouched-IsAtomic, renamed-IsAtomic}
use acip_sidecar.Acipctl.Config.{
  Outcome, TomlEdit, WriteRun, parts_of, lift, as_failed, read_bytes, persist_temp, write_temp,
  new_temp, write_atomic, written, set_in, parse_toml_value, validated, some_parts, set_text,
  set_config_value,
}
use acip_sidecar.Acipctl.Config.Laws.{
  get_path, TomlLaws, Diverge, IsTablesAlong, set_in-get_path, set_in-kept,
}

module _ (path : FilePath) (disk : Disk) (New : Bytes → Type 0) (run : WriteRun)
    (apart : run.temp ≢ path) where
  -- A temporary file that is written and removed again.
  thrown_away :
      (bytes : Bytes)
      → All
          (Avoids path)
          (create run.temp ∷ (map (write_byte run.temp) bytes ++ remove run.temp ∷ []))
  thrown_away bytes = (
    apart,
    All-append (Avoids path) (map (write_byte run.temp) bytes) _
        (writes-Avoids path run.temp bytes apart) (apart, tt),
  )

  -- The three steps, as they turn out.
  new_temp-IsAtomic :
      (contents : Text) (made wrote renamed : Fallible (Unit {0}))
      → New (as_bytes contents)
      → let t =
          new_temp
            (record run { write_all = wrote; persist = renamed })
            path
            (as_bytes contents)
            made in
        IsAtomic path disk New (t.0, as_failed t.1)
  unfolding new_temp write_temp persist_temp as_failed
  new_temp-IsAtomic contents (err e) wrote renamed new = untouched-IsAtomic path disk New [] _ tt
  new_temp-IsAtomic contents (ok d) (err e) renamed new =
      untouched-IsAtomic path disk New _ _ (thrown_away (take run.written (as_bytes contents)))
  new_temp-IsAtomic contents (ok d) (ok w) (err e) new =
      untouched-IsAtomic path disk New _ _ (thrown_away (as_bytes contents))
  new_temp-IsAtomic contents (ok d) (ok w) (ok r) new =
      renamed-IsAtomic path disk New run.temp (as_bytes contents) apart new

lift-ok : {A : Type 0} (r : Fallible A) (c : Text) (a : A) → lift r c ≡ ok a → r ≡ ok a
unfolding lift
lift-ok (ok x) c a h = cc
lift-ok (err e) c a h = absurd (cc)

some_parts-ok : (parts ps : List Text) → some_parts parts ≡ ok ps → parts ≡ ps
unfolding some_parts
some_parts-ok [] ps h = absurd (cc)
some_parts-ok (p ∷ parts) ps h = cc

module _ (u : Unicode) (toml : TomlEdit) (laws : TomlLaws toml)
    (validate : Text → Fallible (Unit {0})) where
  -- The text of an edited document: valid, with the value at the key, and all else as it was.
  pub record IsEdit (raw key value new_txt : Text) : Type 0 where
    pub doc : toml.Item
    pub changed : toml.Item
    pub parsed : toml.parse raw ≡ ok doc
    pub printed : new_txt ≡ toml.print changed
    pub valid : validate new_txt ≡ ok tt
    pub at_key : get_path toml (parts_of key) changed ≡ some (parse_toml_value u toml value)
    pub elsewhere :
        (path : List Text)
        → Diverge (parts_of key) path
        → IsTablesAlong toml (parts_of key) doc
        → get_path toml path changed ≡ get_path toml path doc

  set_text-IsEdit :
      (raw key value : Text) (o : Option Text)
      → set_text u toml validate raw key value ≡ ok o
      → (new_txt : Text) × (o ≡ some new_txt) × IsEdit raw key value new_txt
  unfolding set_text validated
  set_text-IsEdit raw key value o h =
      let (doc, parsed, h) = bind-ok (lift (toml.parse raw) (text "parse toml")) _ o h in
      let (parts, split, h) = bind-ok (some_parts (parts_of key)) _ o h in
      let (changed, set, h) =
        bind-ok (set_in toml parts (parse_toml_value u toml value) doc) _ o h in
      let (config, valid, h) =
        bind-ok (lift (validate (toml.print changed)) (text "validate config")) _ o h in
      let same : parts_of key ≡ parts = some_parts-ok (parts_of key) parts split in
      let set' : set_in toml (parts_of key) (parse_toml_value u toml value) doc ≡ ok changed =
        rw same set in
      (
        toml.print changed,
        sym (ok_injective h),
        record {
          doc = doc;
          changed = changed;
          parsed = lift-ok (toml.parse raw) _ doc parsed;
          printed = refl;
          valid = lift-ok (validate (toml.print changed)) _ config valid;
          at_key = set_in-get_path toml laws (parts_of key) _ doc changed set';
          elsewhere = λ path d tables.
              set_in-kept toml laws (parts_of key) path _ doc changed d tables set';
        },
      )

  -- The new text of the file, and the old one that it is an edit of.
  abbrev pub Edited : FilePath → Disk → Text → Text → Bytes → Type 0
  Edited path disk key value bytes =
      (old : Bytes) × (raw : Text) × (new_txt : Text) × (disk path ≡ some old)
      × (from_utf8 old ≡ some raw)
      × (bytes ≡ as_bytes new_txt)
      × IsEdit raw key value new_txt

  module _ (run : WriteRun) (path : FilePath) (disk : Disk) (apart : run.temp ≢ path)
      (key value : Text) where
    read_bytes-ok :
        (content : Option Bytes) (raw : Text)
        → read_bytes content ≡ ok raw
        → (old : Bytes) × (content ≡ some old) × (from_utf8 old ≡ some raw)
    unfolding read_bytes
    read_bytes-ok none raw h = absurd (cc)
    read_bytes-ok (some old) raw h = elim (Option-cases (from_utf8 old)) [
      | inl q ↦ absurd (cc (rw (q, read_bytes) at h))
      | inr (s, q) ↦
          let e : s ≡ raw = ok_injective (rw (q, read_bytes) at h) in (old, refl, q ∙ ap some e)
    ]

    written-IsAtomic :
        (o : Outcome (Option Text))
        → ((r : Option Text)
            → o ≡ ok r
            → (new_txt : Text) × (r ≡ some new_txt) × Edited path disk key value (as_bytes new_txt))
        → IsAtomic path disk (Edited path disk key value) (written run path o)
    unfolding written write_atomic
    written-IsAtomic (err e) h = untouched-IsAtomic path disk (Edited path disk key value) [] e tt
    written-IsAtomic (ok none) h = let (new_txt, e, _) = h none refl in absurd (cc)
    written-IsAtomic (ok (some contents)) h =
        let (new_txt, e, edited) = h (some contents) refl in
        let same : new_txt ≡ contents = cc in
        new_temp-IsAtomic path disk (Edited path disk key value) run apart contents run.new_in
          run.write_all run.persist (rw same at edited)

    -- An edit of the configuration replaces the file in one go: whatever fails, and at every moment,
    -- it holds what it held or all of an edit of it; in the end the edit if the command succeeds, and
    -- what it held if it fails. In an edit the value stands at its key, the real configuration accepts the text, and
    -- every entry elsewhere is as it was if tables in sections lead to the key. This is for a
    -- temporary file that is another one, and documents in which a write to an item is read back.
    pub set_config_value-IsAtomic :
        IsAtomic path disk
          (Edited path disk key value)
          (set_config_value u toml validate run path disk key value)
    unfolding set_config_value
    set_config_value-IsAtomic = written-IsAtomic _ (λ r h.
        let (raw, read, h) =
          bind-ok (read_bytes (disk path)) (λ raw. set_text u toml validate raw key value) r h in
        let (old, there, decoded) = read_bytes-ok (disk path) raw read in
        let (new_txt, e, edit) = set_text-IsEdit raw key value r h in
        (new_txt, e, (old, raw, new_txt, there, decoded, refl, edit)))
