-- ===== src/Reputation/File/Atomic.antt =====
-- What `persist` of reputation.rs does to the file of the store, at every moment and at its end.
use acip_sidecar.Prelude.{
  ℕ, ◌+◌, ◌≤◌, ◌≡◌, refl, ap, ◌≢◌, ◌⊎◌, inl, inr, Option, none, some, List, [], ◌∷◌, ◌++◌, arith,
  Result, ok, err, All, All-take, All-append, map, take, push, length, length-append, if◌then◌else◌,
  is_empty, unwrap_or,
}
use acip_sidecar.Text.{Text, text, as_bytes}
use acip_sidecar.Json.{Fallible}
use acip_sidecar.Reputation.{RepMap}
use acip_sidecar.Reputation.File.{
  temp_path_for, StoreCodec, Traced, PersistRun, remove_effects, remove_best_effort, rename_over,
  write_temp, open_temp, persist_raw, persist, parent_or_dot,
}
use acip_sidecar.Reputation.File.Effects.{
  FilePath, Bytes, Disk, Effect, create, write_byte, rename_to, apply_all, apply_all-renamed,
  Avoids, apply_all-Avoids, writes-Avoids, take-push,
}

-- At every moment, the ones between its effects included, the file is what it was or all of the new
-- bytes; in the end it is new if the result is `ok`, and what it was if it is an error.
pub record IsAtomic {E : Type 0} (path : FilePath) (disk : Disk) (New : Bytes → Type 0)
    (t : Traced (Result E (Unit {0}))) : Type 0 where
  pub moments :
      (n : ℕ)
      → (apply_all (take n t.0) disk path ≡ disk path)
        ⊎ ((bytes : Bytes) × New bytes × (apply_all (take n t.0) disk path ≡ some bytes))
  pub on_ok : t.1 ≡ ok tt → (bytes : Bytes) × New bytes × (apply_all t.0 disk path ≡ some bytes)
  pub on_err : (e : E) → t.1 ≡ err e → apply_all t.0 disk path ≡ disk path

module _ (path : FilePath) (disk : Disk) (New : Bytes → Type 0) where
  pub untouched-IsAtomic :
      {E : Type 0} (effects : List Effect) (e : E)
      → All (Avoids path) effects
      → IsAtomic path disk New (effects, err e)
  untouched-IsAtomic effects e h = record {
    moments =
        λ n. inl (apply_all-Avoids path (take n effects) disk (All-take (Avoids path) n effects h));
    on_ok = λ q. absurd (cc);
    on_err = λ _ q. apply_all-Avoids path effects disk h;
  }

  pub renamed-IsAtomic :
      {E : Type 0} (temp : FilePath) (bytes : Bytes)
      → temp ≢ path
      → New bytes
      → IsAtomic {E = E} path disk New
          (push (create temp ∷ map (write_byte temp) bytes) (rename_to temp path), ok tt)
  renamed-IsAtomic temp bytes apart new =
      let written = create temp ∷ map (write_byte temp) bytes in
      let avoids : All (Avoids path) written = (apart, writes-Avoids path temp bytes apart) in
      let renamed = apply_all-renamed temp path bytes disk apart in
      record {
        moments = λ n. elim (take-push n written (rename_to temp path)) [
          | inl e ↦ inl (
              rw e (
                apply_all-Avoids path (take n written) disk
                  (All-take (Avoids path) n written avoids)))
          | inr e ↦ inr (bytes, new, rw e renamed)
        ];
        on_ok = λ q. (bytes, new, renamed);
        on_err = λ e q. absurd (cc);
      }

  removed-Avoids :
      (temp : FilePath) (outcome : Fallible (Unit {0}))
      → temp ≢ path
      → All (Avoids path) (remove_best_effort temp outcome)
  unfolding remove_best_effort remove_effects
  removed-Avoids temp (ok done) apart = (apart, tt)
  removed-Avoids temp (err e) apart = tt

  module _ (run : PersistRun) (temp : FilePath) (apart : temp ≢ path) (raw : Bytes)
      (new : New raw) where
    open_temp-IsAtomic :
        (opened written renamed : Fallible (Unit {0}))
        → IsAtomic path disk New
            (open_temp (record run { write_all = written; rename = renamed }) temp path raw opened)
    unfolding open_temp write_temp rename_over
    open_temp-IsAtomic (err e) written renamed = untouched-IsAtomic [] e tt
    open_temp-IsAtomic (ok done) (err e) renamed =
        untouched-IsAtomic _ e (apart, writes-Avoids path temp (take run.written raw) apart)
    open_temp-IsAtomic (ok done) (ok all) (err e) = untouched-IsAtomic _ e (
      apart,
      All-append (Avoids path) (map (write_byte temp) raw) _ (writes-Avoids path temp raw apart)
          (removed-Avoids temp run.remove apart),
    )
    open_temp-IsAtomic (ok done) (ok all) (ok over) = renamed-IsAtomic temp raw apart new

some_length : Option Text → ℕ
some_length none = 0
some_length (some s) = length s

pub longer :
    (name : Option Text) (default front back : Text)
    → 1 ≤ length front + length back
    → some (front ++ (unwrap_or name default ++ back)) ≢ name
unfolding some_length
longer none default front back h e = absurd (cc)
longer (some s) default front back h e =
    omega (arith, ap some_length e, length-append front (s ++ back), length-append s back)

-- The temporary file is another one, because its name is longer.
pub temp_path_for-ne :
    (path : FilePath) (parent : Text) (pid nanos : ℕ) → temp_path_for path parent pid nanos ≢ path
unfolding temp_path_for text
temp_path_for-ne path parent pid nanos e =
    longer path.file_name (text "reputation.json") (text ".") _ (omega arith)
      (ap (λ p. p.file_name) e)

-- The bytes that the records are printed as.
abbrev pub Prints : StoreCodec → RepMap → Bytes → Type 0
Prints c records bytes =
    (raw : Text) × (c.to_string_pretty records ≡ ok raw) × (bytes ≡ as_bytes raw)

persist_raw-IsAtomic :
    (c : StoreCodec) (run : PersistRun) (path : FilePath) (records : RepMap) (disk : Disk)
    (parent : Text) (made : Fallible (Unit {0})) (printed : Fallible Text)
    → c.to_string_pretty records ≡ printed
    → IsAtomic path disk (Prints c records) (persist_raw run path parent made printed)
unfolding persist_raw
persist_raw-IsAtomic c run path records disk parent (err e) printed h =
    untouched-IsAtomic path disk (Prints c records) [] e tt
persist_raw-IsAtomic c run path records disk parent (ok done) (err e) h =
    untouched-IsAtomic path disk (Prints c records) [] e tt
persist_raw-IsAtomic c run path records disk parent (ok done) (ok raw) h =
    open_temp-IsAtomic path disk (Prints c records) run
      (temp_path_for path parent run.pid run.nanos) (temp_path_for-ne path parent run.pid run.nanos)
      (as_bytes raw) (raw, h, refl) run.open_new run.write_all run.rename

-- Persisting replaces the store's file in one go. Whatever steps fail, and also if the process dies
-- between any two of them, the file is what it was or all of the printed records; it is new if
-- `persist` succeeds and what it was if it fails.
pub persist-IsAtomic :
    (c : StoreCodec) (run : PersistRun) (path : FilePath) (records : RepMap) (disk : Disk)
    → IsAtomic path disk (Prints c records) (persist c run path records)
unfolding persist
persist-IsAtomic c run path records disk =
    persist_raw-IsAtomic c run path records disk (parent_or_dot path)
      (if is_empty (parent_or_dot path) then ok tt else run.create_dir_all)
      (c.to_string_pretty records) refl
