-- ===== src/Extract/Laws.antt =====
-- What comes back from a run of the helper.
pub mod ChildEnv
use acip_sidecar.Prelude.{
  ℕ, zero, suc, ◌+◌, ◌≤◌, ◌<◌, ◌≡◌, refl, ◌∙◌, sym, ap, ◌⊎◌, inl, inr, Bool, true, false, ◌||◌,
  Option, none, some, List, [], ◌∷◌, ◌++◌, arith, Result, ok, err, All, All-append, any, take,
  length, length-take, ltb, leb, min, Bool-cases, u64_max, saturating_add_u64, Result-cases,
  take-all, bind-ok,
}
use acip_sidecar.Text.{Text, text, text_eq, trim}
use acip_sidecar.Text.Laws.{text_eq_refl}
use acip_sidecar.Environment.{Env}
use acip_sidecar.Json.{Fallible}
use acip_sidecar.Extract.{
  ExtractRequest, ExtractResponse, ExtractorError, output_too_large, output_parse, io, spawn,
  is_success, output_cap_bytes, passed_keys, non_blank, pass_key, pass_keys, child_env, HelperRun,
  map_err, read_limited_file, after_wait, stdin_of, run_helper, truncate_chars, non_zero_exit,
}

-- The output that is read is within the cap of the request, and the cap within 32 MiB.
pub output_cap-le : (req : ExtractRequest) → output_cap_bytes req ≤ 33554432
unfolding output_cap_bytes
output_cap-le req = omega arith

-- The text that `truncate_chars` keeps.
pub truncate_chars-take : (s : Text) (n : ℕ) → (truncate_chars s n).0 ≡ take n s
unfolding truncate_chars
truncate_chars-take s n = elim (Bool-cases (leb (length s) n)) [
  | inl e ↦ rw e (sym (take-all n s (ground arith)))
  | inr e ↦ rw e refl
]

-- A run that completed: the helper left with 0, and all of its output file, within the cap, was
-- read and parsed.
pub record Completed (run : HelperRun) (req : ExtractRequest) (resp : ExtractResponse)
    : Type 0 where
  pub file : List ℕ
  pub exited : run.wait ≡ ok (some (some 0))
  pub opened : run.open_out ≡ ok file
  pub short : length file ≤ output_cap_bytes req
  pub parsed : run.from_slice file ≡ ok resp

map_err-ok :
    {A : Type 0} (r : Fallible A) (f : Text → ExtractorError) (a : A)
    → map_err r f ≡ ok a
    → r ≡ ok a
map_err-ok (ok x) f a h = cc
map_err-ok (err e) f a h = absurd (cc)

-- A buffer that was read whole.
record Whole (run : HelperRun) (cap : ℕ) (buf : List ℕ) : Type 0 where
  opened : run.open_out ≡ ok buf
  short : length buf ≤ cap

within_limit :
    (file : List ℕ) (cap : ℕ)
    → cap < u64_max
    → ltb cap (length (take (saturating_add_u64 cap 1) file)) ≡ false
    → length file ≤ cap
within_limit file cap fits h = ground (arith, length-take (saturating_add_u64 cap 1) file)

read_limited_file-Whole :
    (run : HelperRun) (cap : ℕ) (buf : List ℕ)
    → cap < u64_max
    → read_limited_file run cap ≡ ok buf
    → Whole run cap buf
unfolding read_limited_file
read_limited_file-Whole run cap buf fits h =
    let (file, opened, h1) = bind-ok (map_err run.open_out output_parse) _ buf h in
    let (_, _, h2) = bind-ok (map_err run.read_out output_parse) _ buf h1 in
    elim (Bool-cases (ltb cap (length (take (saturating_add_u64 cap 1) file)))) [
      | inl large ↦ absurd (cc (rw large at h2))
      | inr fine ↦
          let short = within_limit file cap fits fine in
          let all : take (saturating_add_u64 cap 1) file ≡ file = take-all _ file (omega arith) in
          let same : take (saturating_add_u64 cap 1) file ≡ buf = cc (rw fine at h2) in
          let e : file ≡ buf = sym all ∙ same in
          record {
            opened = rw e at (map_err-ok run.open_out output_parse file opened);
            short = rw e at short;
          }
    ]

-- A file within the limit is read.
pub read_limited_file-short :
    (run : HelperRun) (cap : ℕ) (file : List ℕ)
    → cap < u64_max
    → run.open_out ≡ ok file
    → run.read_out ≡ ok tt
    → length file ≤ cap
    → read_limited_file run cap ≡ ok file
unfolding read_limited_file
read_limited_file-short run cap file fits opened reads short =
    let kept : take (saturating_add_u64 cap 1) file ≡ file = take-all _ file (omega arith) in
    let within : ltb cap (length file) ≡ false = ground arith in
    rw (opened, reads, kept, within) refl

is_zero : (status : Option ℕ) → is_success status ≡ true → status ≡ some 0
is_zero none h = absurd (cc)
is_zero (some zero) h = refl
is_zero (some (suc n)) h = absurd (cc)

-- A helper that left with 0, and one that did not.
pub after_wait-zero :
    (run : HelperRun) (req : ExtractRequest) (file : List ℕ) (resp : ExtractResponse)
    → run.open_out ≡ ok file
    → run.read_out ≡ ok tt
    → length file ≤ output_cap_bytes req
    → run.from_slice file ≡ ok resp
    → after_wait run req (some (some 0)) ≡ ok resp
unfolding after_wait
after_wait-zero run req file resp opened reads short parses =
    rw
      (
        read_limited_file-short run (output_cap_bytes req) file (omega (arith, output_cap-le req))
            opened reads short,
        parses,
      )
      refl

pub after_wait-suc :
    (run : HelperRun) (req : ExtractRequest) (n : ℕ) (log : Text)
    → run.err_log ≡ some log
    → after_wait run req (some (some (suc n))) ≡ err (non_zero_exit (some (suc n)) (trim log))
unfolding after_wait
after_wait-suc run req n log h = rw h refl

after_wait-Completed :
    (run : HelperRun) (req : ExtractRequest) (status : Option (Option ℕ)) (resp : ExtractResponse)
    → run.wait ≡ ok status
    → after_wait run req status ≡ ok resp
    → Completed run req resp
unfolding after_wait
after_wait-Completed run req none resp waited h = absurd (cc)
after_wait-Completed run req (some status) resp waited h = elim (Bool-cases (is_success status)) [
  | inl good ↦
      let (buf, read, parsed) =
        bind-ok (read_limited_file run (output_cap_bytes req)) _ resp (rw good at h) in
      let whole =
        read_limited_file-Whole run (output_cap_bytes req) buf (omega (arith, output_cap-le req))
          read in
      record {
        file = buf;
        exited = waited ∙ ap (λ x. ok (some x)) (is_zero status good);
        opened = whole.opened;
        short = whole.short;
        parsed = map_err-ok (run.from_slice buf) output_parse resp parsed;
      }
  | inr bad ↦ absurd (cc (rw bad at h))
]

-- A run of the helper that gives a response has completed: the helper left with exit code 0 within
-- its time, and the response is what all of its output file, which is within the request's cap and
-- so within 32 MiB, was parsed as. No other run, and no truncated output, gives a response.
pub run_helper-Completed :
    (run : HelperRun) (req : ExtractRequest) (resp : ExtractResponse)
    → run_helper run req ≡ ok resp
    → Completed run req resp × (output_cap_bytes req ≤ 33554432)
unfolding run_helper
run_helper-Completed run req resp h =
    let (_, _, h) = bind-ok (map_err run.tempdir io) _ resp h in
    let (_, _, h) = bind-ok (map_err run.set_permissions io) _ resp h in
    let (_, _, h) = bind-ok (map_err run.create_out io) _ resp h in
    let (_, _, h) = bind-ok (map_err run.create_err io) _ resp h in
    let (_, _, h) = bind-ok (map_err run.spawned spawn) _ resp h in
    let (_, _, h) = bind-ok (stdin_of run.has_stdin) _ resp h in
    let (_, _, h) = bind-ok (map_err run.header output_parse) _ resp h in
    let (_, _, h) = bind-ok (map_err run.write_header spawn) _ resp h in
    let (_, _, h) = bind-ok (map_err run.write_newline spawn) _ resp h in
    let (_, _, h) = bind-ok (map_err run.write_bytes spawn) _ resp h in
    let (status, waited, h) = bind-ok (map_err run.wait spawn) _ resp h in
    (
      after_wait-Completed run req status resp (map_err-ok run.wait spawn status waited) h,
      output_cap-le req,
    )
