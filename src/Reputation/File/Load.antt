-- ===== src/Reputation/File/Load.antt =====
-- What a start of the service makes of the file of the reputation store.
use acip_sidecar.Prelude.{
  ℕ, ◌≡◌, refl, ◌∙◌, sym, ap, ◌≢◌, ◌⊎◌, inl, inr, Option, none, some, List, [], ◌∷◌, ◌++◌, arith,
  ok, err, All, All-take, take, push, length-append, append-nil,
}
use acip_sidecar.Text.{Text, text, from_utf8}
use acip_sidecar.Decimal.{to_decimal}
use acip_sidecar.Json.{Fallible}
use acip_sidecar.Reputation.{RepMap}
use acip_sidecar.Reputation.File.{
  quarantine_path, StoreCodec, LoadRun, Traced, copy_bytes, copied_part, remove_effects,
  copy_and_remove, quarantine_effects, quarantine_corrupt_file, parsed_or_quarantined, read_text,
  read_file, load_from, load_or_create,
}
use acip_sidecar.Reputation.File.Effects.{
  FilePath, Bytes, Disk, Effect, rename_to, remove, apply_all, apply_all-append, rename_lem,
  remove_lem, Avoids, apply_all-Avoids, writes-Avoids, apply_all-new_file, take-push,
}
use acip_sidecar.Reputation.File.Atomic.{longer}

quarantine_path-ne : (path : FilePath) (ts : ℕ) → quarantine_path path ts ≢ path
unfolding quarantine_path text
quarantine_path-ne path ts e =
    longer path.file_name (text "reputation.json") [] (text ".corrupt." ++ to_decimal ts)
      (omega (arith, length-append (text ".corrupt.") (to_decimal ts))) (ap (λ p. p.file_name) e)

-- At every moment the bytes are in the file or in the one that it is put aside as.
abbrev pub IsKept : FilePath → FilePath → Disk → Bytes → List Effect → Type 0
IsKept path aside disk bytes effects =
    (n : ℕ)
    → (apply_all (take n effects) disk path ≡ some bytes)
      ⊎ (apply_all (take n effects) disk aside ≡ some bytes)

module _ (path aside : FilePath) (disk : Disk) (bytes : Bytes) (apart : aside ≢ path)
    (there : disk path ≡ some bytes) where
  avoiding-IsKept :
      (effects : List Effect) → All (Avoids path) effects → IsKept path aside disk bytes effects
  avoiding-IsKept effects h n =
      inl (apply_all-Avoids path (take n effects) disk (All-take (Avoids path) n effects h) ∙ there)

  copy-Avoids : (part : Bytes) → All (Avoids path) (copy_bytes aside part)
  unfolding copy_bytes
  copy-Avoids part = (apart, writes-Avoids path aside part apart)

  copied_part-Avoids : (n : Option ℕ) → All (Avoids path) (copied_part aside bytes n)
  unfolding copied_part
  copied_part-Avoids none = tt
  copied_part-Avoids (some n) = copy-Avoids (take n bytes)

  -- Steps that avoid the file, with a last one after which the bytes are aside.
  last-IsKept :
      (effects : List Effect) (e : Effect)
      → All (Avoids path) effects
      → apply_all (push effects e) disk aside ≡ some bytes
      → IsKept path aside disk bytes (push effects e)
  last-IsKept effects e h put_aside n = elim (take-push n effects e) [
    | inl q ↦ rw q (avoiding-IsKept effects h n)
    | inr q ↦ inr (rw q put_aside)
  ]

  removed-IsKept :
      (outcome : Fallible (Unit {0}))
      → IsKept path aside disk bytes (copy_bytes aside bytes ++ (remove_effects path outcome).0)
  unfolding copy_bytes remove_effects
  removed-IsKept (err e) = rw append-nil (avoiding-IsKept _ (copy-Avoids bytes))
  removed-IsKept (ok done) =
      last-IsKept (copy_bytes aside bytes) (remove path) (copy-Avoids bytes) (
        ap (λ d. d aside) (apply_all-append (copy_bytes aside bytes) (remove path ∷ []) disk)
        ∙ remove_lem path aside _ (λ q. apart (sym q))
        ∙ apply_all-new_file aside bytes disk)

  quarantine-IsKept :
      (run : LoadRun) (renamed copied : Fallible (Unit {0}))
      → IsKept path aside disk bytes
          (quarantine_effects (record run { copy = copied }) path aside bytes renamed).0
  unfolding quarantine_effects copy_and_remove
  quarantine-IsKept run (ok done) copied =
      last-IsKept [] (rename_to path aside) tt
        (rename_lem path aside disk (λ q. apart (sym q)) ∙ there)
  quarantine-IsKept run (err e) (ok done) = removed-IsKept run.remove
  quarantine-IsKept run (err e) (err f) = avoiding-IsKept _ (copied_part-Avoids run.copied)

-- A text that serde_json refuses.
abbrev pub IsCorrupt : StoreCodec → Text → Type 0
IsCorrupt c raw = (e : Text) × (c.from_str raw ≡ err e)

-- What the records of a store that starts can be, from what stood in its file.
pub data Starts (c : StoreCodec) (records : RepMap) : Option Bytes → Type 0 where
  no_file : records ≡ [] → Starts c records none
  parsed :
      (bytes : Bytes) (raw : Text)
      → from_utf8 bytes ≡ some raw
      → c.from_str raw ≡ ok records
      → Starts c records (some bytes)
  corrupt :
      (bytes : Bytes) (raw : Text)
      → from_utf8 bytes ≡ some raw
      → IsCorrupt c raw
      → records ≡ []
      → Starts c records (some bytes)

-- `kept` is about every moment, `started` and `refused` about the end.
pub record IsLoaded (c : StoreCodec) (run : LoadRun) (path : FilePath) (disk : Disk)
    (t : Traced (Fallible RepMap)) : Type 0 where
  pub kept :
      (bytes : Bytes)
      → disk path ≡ some bytes
      → IsKept path (quarantine_path path run.now_unix) disk bytes t.0
  pub started : (records : RepMap) → t.1 ≡ ok records → Starts c records (disk path)
  pub refused :
      (e : Text)
      → t.1 ≡ err e
      → (t.0 ≡ [])
        × ((bytes : Bytes) × (disk path ≡ some bytes)
            × ((run.read ≢ ok tt) ⊎ (from_utf8 bytes ≡ none)))

module _ (c : StoreCodec) (run : LoadRun) (path : FilePath) (disk : Disk) where
  no_effects :
      (bytes : Bytes)
      → disk path ≡ some bytes
      → IsKept path (quarantine_path path run.now_unix) disk bytes []
  no_effects bytes h =
      avoiding-IsKept path (quarantine_path path run.now_unix) disk bytes
        (quarantine_path-ne path run.now_unix) h [] tt

  parsed-IsLoaded :
      (bytes : Bytes) (raw : Text) (r : Fallible RepMap)
      → disk path ≡ some bytes
      → from_utf8 bytes ≡ some raw
      → c.from_str raw ≡ r
      → IsLoaded c run path disk (parsed_or_quarantined run path bytes r)
  unfolding parsed_or_quarantined quarantine_corrupt_file
  parsed-IsLoaded bytes raw (ok records) there decoded h = record {
    kept = no_effects;
    started = λ rs q. rw there (parsed bytes raw decoded (h ∙ q));
    refused = λ e q. absurd (cc);
  }
  parsed-IsLoaded bytes raw (err e) there decoded h = record {
    kept = λ bs q.
        let same : bs ≡ bytes = cc in
        rw same (
          quarantine-IsKept path (quarantine_path path run.now_unix) disk bytes
            (quarantine_path-ne path run.now_unix) there run run.rename run.copy);
    started = λ rs q. rw there (corrupt bytes raw decoded (e, h) (cc));
    refused = λ f q. absurd (cc);
  }

  unread-IsLoaded :
      (bytes : Bytes) (e : Text)
      → disk path ≡ some bytes
      → (run.read ≢ ok tt) ⊎ (from_utf8 bytes ≡ none)
      → IsLoaded c run path disk ([], err e)
  unread-IsLoaded bytes e there why = record {
    kept = no_effects;
    started = λ rs q. absurd (cc);
    refused = λ f q. (refl, (bytes, there, why));
  }

  text-IsLoaded :
      (bytes : Bytes) (raw : Option Text)
      → disk path ≡ some bytes
      → from_utf8 bytes ≡ raw
      → IsLoaded c run path disk (read_text c run path bytes raw)
  unfolding read_text
  text-IsLoaded bytes none there h = unread-IsLoaded bytes _ there (inr h)
  text-IsLoaded bytes (some raw) there h = parsed-IsLoaded bytes raw (c.from_str raw) there h refl

  file-IsLoaded :
      (bytes : Bytes) (r : Fallible (Unit {0}))
      → disk path ≡ some bytes
      → run.read ≡ r
      → IsLoaded c run path disk (read_file c run path bytes r)
  unfolding read_file
  file-IsLoaded bytes (ok done) there h = text-IsLoaded bytes (from_utf8 bytes) there refl
  file-IsLoaded bytes (err e) there h = unread-IsLoaded bytes e there (inl (λ q. cc))

  content-IsLoaded :
      (content : Option Bytes)
      → disk path ≡ content
      → IsLoaded c run path disk (load_from c run path content)
  unfolding load_from
  content-IsLoaded none absent = record {
    kept = no_effects;
    started = λ rs q. rw absent (no_file (cc));
    refused = λ f q. absurd (cc);
  }
  content-IsLoaded (some bytes) there = file-IsLoaded bytes run.read there refl

-- A start loses no file: at every moment, and whichever steps fail, the bytes of the store's file
-- are in the file or in the one that it is put aside as. A store that starts has the records that
-- the file was parsed as, or none, where there is no file or JSON that is refused. The start fails
-- only, and with nothing changed on the disk, where the file could not be read or is not UTF-8.
pub load_or_create-IsLoaded :
    (c : StoreCodec) (run : LoadRun) (path : FilePath) (disk : Disk)
    → IsLoaded c run path disk (load_or_create c run path disk)
unfolding load_or_create
load_or_create-IsLoaded c run path disk = content-IsLoaded c run path disk (disk path) refl
