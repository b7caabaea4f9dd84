-- ===== src/Reputation/File/Tests.antt =====
-- The store in a file at concrete requests, with a serde_json that prints small maps alone.
use native.Mathlib.Decide.{ℕ_discrete}
use mathlib.Core.List.{List-discrete}
use mathlib.Core.Logic.{ite, if_pos, if_neg}
use acip_sidecar.Prelude.{
  ℕ, zero, suc, ◌≡◌, refl, ap, sym, true, none, some, [], ◌∷◌, ok, err, all, map, push, length,
}
use acip_sidecar.Text.{Text, text, is_scalar}
use acip_sidecar.Assoc.{lookup}
use acip_sidecar.Reputation.{Observation, RepMap, fresh, record_inner}
use acip_sidecar.Reputation.History.{record_all}
use acip_sidecar.Reputation.File.{
  StoreCodec, LoadRun, PersistRun, FileStore, persist, load_or_create,
}
use acip_sidecar.Reputation.File.Effects.{FilePath, Disk}
use acip_sidecar.Reputation.File.Atomic.{IsAtomic, Prints, persist-IsAtomic}
use acip_sidecar.Reputation.File.Load.{IsLoaded, load_or_create-IsLoaded}
use acip_sidecar.Reputation.File.Reload.{Request, timed, serve, RoundTrips, restart-record_all}

-- The store after `n` harmless requests of one source.
abbrev sample : ℕ → RepMap
sample n =
    (text "source_id:a", record (fresh (text "source_id:a")) { seen_count = n; last_seen_unix = 7 })
    ∷ []

RepMap-discrete : Discrete RepMap
RepMap-discrete = hlevel (ℕ_discrete, List-discrete)

abbrev count : RepMap → ℕ
count [] = 0
count ((k, rec) ∷ rest) = rec.seen_count

unary : ℕ → Text
unary zero = []
unary (suc n) = b'x' ∷ unary n

abbrev codec : StoreCodec
codec = record {
  from_str = λ s. ok (sample (length s));
  to_string_pretty = λ m.
      ite (RepMap-discrete m (sample (count m))) (ok (unary (count m))) (err (text "not printed"));
}

unary-scalar : (n : ℕ) → all is_scalar (unary n) ≡ true
unfolding unary
unary-scalar zero = refl
unary-scalar (suc n) = unary-scalar n

length-unary : (n : ℕ) → length (unary n) ≡ n
unfolding unary
length-unary zero = refl
length-unary (suc n) = ap suc (length-unary n)

codec-RoundTrips : RoundTrips codec
codec-RoundTrips m raw h = elim (RepMap-discrete m (sample (count m))) [
  | yes e ↦
      let printed : unary (count m) ≡ raw = cc (rw (if_pos _ e) at h) in
      (
        rw (← printed) (unary-scalar (count m)),
        (m, rw (← printed, length-unary) (ap ok (sym e)), λ k. refl),
      )
  | no e ↦ absurd (cc (rw (if_neg _ e) at h))
]

prints : (n : ℕ) → codec.to_string_pretty (sample n) ≡ ok (unary n)
prints n = if_pos (RepMap-discrete (sample n) (sample n)) refl _ _

abbrev path : FilePath
path = record { parent = some (text "/var/lib/acip"); file_name = some (text "reputation.json") }

abbrev empty : Disk
empty = λ p. none

abbrev smooth : PersistRun
smooth = record {
  pid = 1;
  nanos = 2;
  create_dir_all = ok tt;
  open_new = ok tt;
  write_all = ok tt;
  written = 0;
  rename = ok tt;
  remove = ok tt;
}

abbrev harmless : Observation
harmless = record {
  source_id = text "a";
  host = none;
  threat_score = 0;
  attack_types = [];
  now_unix = 0;
}

abbrev request : PersistRun → Request
request run = record { run = run; now = 7; obs = harmless }

-- The first request's rename fails.
abbrev unlucky : PersistRun
unlucky = record smooth { rename = err (text "busy") }

abbrev start : FileStore
start = record { records = []; disk = empty }

abbrev loads : LoadRun
loads = record {
  now_unix = 9;
  read = ok tt;
  rename = err (text "denied");
  copy = ok tt;
  copied = none;
  remove = ok tt;
}

two_requests : record_all [] (map timed (push (request unlucky ∷ []) (request smooth))) ≡ sample 2
unfolding record_all record_inner lookup text acip_sidecar.Assoc.insert acip_sidecar.Text.text_eq
two_requests = refl

saved : (n : ℕ) → (persist codec smooth path (sample n)).1 ≡ ok tt
unfolding persist text
saved n = rw prints refl

restart-record_all_example :
    ((serve codec path start (push (request unlucky ∷ []) (request smooth))).records
      ≡ record_all [] (map timed (push (request unlucky ∷ []) (request smooth))))
    × ((back : RepMap) × (load_or_create codec loads path
            (serve codec path start (push (request unlucky ∷ []) (request smooth))).disk
          ≡ ([], ok back))
        × ((k : Text)
            → lookup k back
              ≡ lookup k
                  (record_all [] (map timed (push (request unlucky ∷ []) (request smooth))))))
restart-record_all_example =
    restart-record_all codec path codec-RoundTrips start (request unlucky ∷ []) (request smooth)
      loads refl (rw two_requests (saved 2))

persist-IsAtomic_example :
    IsAtomic path empty (Prints codec (sample 3)) (persist codec unlucky path (sample 3))
persist-IsAtomic_example = persist-IsAtomic codec unlucky path (sample 3) empty

-- A file that is not JSON.
abbrev damaged : Disk
damaged = λ p. some (b'x' ∷ b'y' ∷ [])

abbrev strict : StoreCodec
strict = record codec { from_str = λ s. err (text "expected value") }

load_or_create-IsLoaded_example :
    IsLoaded strict loads path damaged (load_or_create strict loads path damaged)
load_or_create-IsLoaded_example = load_or_create-IsLoaded strict loads path damaged
