-- ===== src/Reputation/File/Reload.antt =====
-- The store in the file against the store in memory, and what a restart brings back.
use acip_sidecar.Prelude.{
  ℕ, ◌≡◌, refl, ◌∙◌, ap, true, some, List, [], ◌∷◌, ok, all, map, push, if◌then◌else◌, ◌==◌,
}
use acip_sidecar.Text.{Text, is_scalar, as_bytes}
use acip_sidecar.Text.Utf8.RoundTrip.{from_utf8-as_bytes}
use acip_sidecar.Assoc.{lookup}
use acip_sidecar.Reputation.{Observation, RepMap, record_file}
use acip_sidecar.Reputation.History.{record_all}
use acip_sidecar.Reputation.File.{
  StoreCodec, LoadRun, load_or_create, load_from, read_file, read_text, parsed_or_quarantined,
  PersistRun, persist, persisted, FileStore, record_and_persist,
}
use acip_sidecar.Reputation.File.Effects.{FilePath, Disk}
use acip_sidecar.Reputation.File.Atomic.{persist-IsAtomic}

-- A request to the store: what its persistence meets, the time, and the observation.
pub record Request : Type 0 where
  pub run : PersistRun
  pub now : ℕ
  pub obs : Observation

-- The observation with its time.
abbrev pub timed : Request → Observation
timed r = record r.obs { now_unix = if r.obs.now_unix == 0 then r.now else r.obs.now_unix }

module _ (c : StoreCodec) (path : FilePath) where
  pub serve : FileStore → List Request → FileStore
  serve store [] = store
  serve store (r ∷ rest) = serve (record_and_persist c r.run path r.now store r.obs).0 rest

  -- The records in memory are those of the store without a file.
  serve-records :
      (store : FileStore) (requests : List Request)
      → (serve store requests).records ≡ record_all store.records (map timed requests)
  unfolding serve record_all record_and_persist record_file
  serve-records store [] = refl
  serve-records store (r ∷ rest) =
      serve-records (record_and_persist c r.run path r.now store r.obs).0 rest

-- serde_json reads back what it printed: a text of scalar values, and a map with the same records.
abbrev pub RoundTrips : StoreCodec → Type 0
RoundTrips c =
    (records : RepMap) (raw : Text)
    → c.to_string_pretty records ≡ ok raw
    → (all is_scalar raw ≡ true)
      × ((back : RepMap) × (c.from_str raw ≡ ok back)
          × ((k : Text) → lookup k back ≡ lookup k records))

load_printed :
    (c : StoreCodec) (run : LoadRun) (path : FilePath) (disk : Disk) (raw : Text) (back : RepMap)
    → run.read ≡ ok tt
    → disk path ≡ some (as_bytes raw)
    → all is_scalar raw ≡ true
    → c.from_str raw ≡ ok back
    → load_or_create c run path disk ≡ ([], ok back)
unfolding load_or_create load_from read_file read_text parsed_or_quarantined
load_printed c run path disk raw back reads there scalar parses =
    rw (there, reads, from_utf8-as_bytes raw scalar, parses) refl

persisted_load :
    (c : StoreCodec) (law : RoundTrips c) (saved : PersistRun) (run : LoadRun) (path : FilePath)
    (records : RepMap) (disk : Disk)
    → run.read ≡ ok tt
    → (persist c saved path records).1 ≡ ok tt
    → (back : RepMap) × (load_or_create c run path (persisted c saved path records disk)
        ≡ ([], ok back))
      × ((k : Text) → lookup k back ≡ lookup k records)
persisted_load c law saved run path records disk reads done =
    let (bytes, (raw, prints, same), there) =
      (persist-IsAtomic c saved path records disk).on_ok done in
    let (scalar, (back, parses, lookups)) = law records raw prints in
    (back, load_printed c run path _ raw back reads (there ∙ ap some same) scalar parses, lookups)

module _ (c : StoreCodec) (path : FilePath) where
  serve-push :
      (store : FileStore) (before : List Request) (last : Request)
      → serve c path store (push before last)
        ≡ (record_and_persist c last.run path last.now (serve c path store before) last.obs).0
  unfolding serve
  serve-push store [] last = refl
  serve-push store (r ∷ rest) last =
      serve-push (record_and_persist c r.run path r.now store r.obs).0 rest last

  -- The file after a request is the one that `persist` made of the records.
  disk-serve :
      (store : FileStore) (before : List Request) (last : Request)
      → (serve c path store (push before last)).disk
        ≡ persisted c last.run path
            (serve c path store (push before last)).records
            (serve c path store before).disk
  unfolding record_and_persist
  disk-serve store before last = rw serve-push refl

  -- The service with its store in a file keeps the records that one without a file has; and if the
  -- last request before a restart could be persisted, the restart brings all records back, whatever
  -- became of the earlier ones' persistence. This is so if serde_json reads what it prints, and the
  -- file can be read.
  pub restart-record_all :
      RoundTrips c
      → (store : FileStore) (before : List Request) (last : Request) (run : LoadRun)
      → run.read ≡ ok tt
      → (persist c last.run path (record_all store.records (map timed (push before last)))).1
        ≡ ok tt
      → ((serve c path store (push before last)).records
          ≡ record_all store.records (map timed (push before last)))
        × ((back : RepMap) × (load_or_create c run path (serve c path store (push before last)).disk
              ≡ ([], ok back))
            × ((k : Text)
                → lookup k back
                  ≡ lookup k (record_all store.records (map timed (push before last)))))
  restart-record_all law store before last run reads done =
      let same = serve-records c path store (push before last) in
      (
        same,
        rw (disk-serve, same)
            (persisted_load c law last.run run path _ (serve c path store before).disk reads done),
      )
