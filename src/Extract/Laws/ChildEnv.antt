-- ===== src/Extract/Laws/ChildEnv.antt =====
-- What reaches the helper's environment.
use acip_sidecar.Prelude.{
  ◌≡◌, refl, inl, inr, true, false, Option, none, some, List, [], ◌∷◌, arith, All, All-append, any,
  Bool-cases, is_empty,
}
use acip_sidecar.Text.{Text, text, text_eq, trim}
use acip_sidecar.Text.Laws.{text_eq_refl, text_eq_iff}
use acip_sidecar.Environment.{Env}
use acip_sidecar.Extract.{passed_keys, non_blank, pass_key, pass_keys, child_env}

-- A variable of the parent, that is not blank, under one of the keys.
pub record FromParent (env : Env) (keys : List Text) (entry : Text × Text) : Type 0 where
  pub listed : any (text_eq entry.0) keys ≡ true
  pub value : env entry.0 ≡ some entry.1
  pub filled : is_empty (trim entry.1) ≡ false

-- The limits and switches of the helper.
abbrev pub tuning_keys : List Text
tuning_keys =
    text "ACIP_EXTRACTOR_RLIMIT_AS_MB"
    ∷ text "ACIP_EXTRACTOR_RLIMIT_NOFILE"
    ∷ text "ACIP_EXTRACTOR_RLIMIT_FSIZE_MB"
    ∷ text "ACIP_EXTRACTOR_RLIMIT_NPROC"
    ∷ text "ACIP_EXTRACTOR_NICE"
    ∷ text "ACIP_EXTRACTOR_SECCOMP"
    ∷ text "ACIP_EXTRACTOR_SELFTEST_NET"
    ∷ text "ACIP_EXTRACTOR_SELFTEST_LARGE"
    ∷ []

-- Where an entry of the helper's environment comes from.
pub data Entry (env : Env) (out_path err_path : Text) (entry : Text × Text) : Type 0 where
  path : entry ≡ (text "PATH", text "/usr/bin:/bin") → Entry env out_path err_path entry
  out_file : entry ≡ (text "ACIP_EXTRACTOR_OUT", out_path) → Entry env out_path err_path entry
  err_file : entry ≡ (text "ACIP_EXTRACTOR_ERR", err_path) → Entry env out_path err_path entry
  passed : FromParent env tuning_keys entry → Entry env out_path err_path entry
  temp_dir :
      (v : Text)
      → env (text "ACIP_EXTRACTOR_TMPDIR") ≡ some v
      → entry ≡ (text "TMPDIR", v)
      → Entry env out_path err_path entry

non_blank-filled :
    (o : Option Text) (v : Text) → non_blank o ≡ some v → (o ≡ some v) × (is_empty (trim v) ≡ false)
non_blank-filled none v h = absurd (cc)
non_blank-filled (some w) v h = elim (Bool-cases (is_empty (trim w))) [
  | inl blank ↦ absurd (cc (rw blank at h))
  | inr filled ↦
      let same : some w ≡ some v = rw filled at h in let e : w ≡ v = cc in (same, rw e at filled)
]

weaken :
    (env : Env) (key : Text) (keys : List Text) (entries : List (Text × Text))
    → All (FromParent env keys) entries
    → All (FromParent env (key ∷ keys)) entries
weaken env key keys [] h = tt
weaken env key keys (x ∷ entries) (h, rest) = (
  record { listed = ground (arith, h.listed); value = h.value; filled = h.filled },
  weaken env key keys entries rest,
)

pass_key-FromParent :
    (env : Env) (key : Text) (keys : List Text) (o : Option Text) (entries : List (Text × Text))
    → non_blank (env key) ≡ o
    → All (FromParent env (key ∷ keys)) entries
    → All (FromParent env (key ∷ keys)) (pass_key key o entries)
unfolding pass_key
pass_key-FromParent env key keys none entries e h = h
pass_key-FromParent env key keys (some v) entries e h =
    let (value, filled) = non_blank-filled (env key) v e in
    (record { listed = ground (arith, text_eq_refl key); value = value; filled = filled }, h)

pass_keys-FromParent :
    (env : Env) (keys : List Text) → All (FromParent env keys) (pass_keys env keys)
unfolding pass_keys
pass_keys-FromParent env [] = tt
pass_keys-FromParent env (key ∷ keys) =
    pass_key-FromParent env key keys (non_blank (env key)) (pass_keys env keys) refl
      (weaken env key keys (pass_keys env keys) (pass_keys-FromParent env keys))

module _ (env : Env) (out_path err_path : Text) where
  passed-Entry :
      (entries : List (Text × Text))
      → All (FromParent env tuning_keys) entries
      → All (Entry env out_path err_path) entries
  passed-Entry [] h = tt
  passed-Entry (x ∷ entries) (h, rest) = (passed h, passed-Entry entries rest)

  temp_dir-Entry :
      (o : Option Text) (rest : List (Text × Text))
      → non_blank (env (text "ACIP_EXTRACTOR_TMPDIR")) ≡ o
      → All (Entry env out_path err_path) rest
      → All (Entry env out_path err_path) (pass_key (text "TMPDIR") o rest)
  unfolding pass_key
  temp_dir-Entry none rest e h = h
  temp_dir-Entry (some v) rest e h = (temp_dir v (non_blank-filled _ v e).0 refl, h)

-- An entry that is no API key of a model.
abbrev pub IsKeyless : Text × Text → Type 0
IsKeyless entry =
    (text_eq entry.0 (text "GEMINI_API_KEY") ≡ false)
    × (text_eq entry.0 (text "ANTHROPIC_API_KEY") ≡ false)

-- A name in a list is not one that the list lacks.
not_listed :
    (name key : Text) (keys : List Text)
    → any (text_eq name) keys ≡ true
    → any (text_eq key) keys ≡ false
    → text_eq name key ≡ false
not_listed name key keys listed lacks = elim (Bool-cases (text_eq name key)) [
  | inl e ↦ let same : name ≡ key = (text_eq_iff name key).0 e in absurd (cc (rw same at listed))
  | inr e ↦ e
]

lacks_gemini : any (text_eq (text "GEMINI_API_KEY")) tuning_keys ≡ false
unfolding text text_eq
lacks_gemini = refl

lacks_anthropic : any (text_eq (text "ANTHROPIC_API_KEY")) tuning_keys ≡ false
unfolding text text_eq
lacks_anthropic = refl

Entry-IsKeyless :
    (env : Env) (out_path err_path : Text) (entry : Text × Text)
    → Entry env out_path err_path entry
    → IsKeyless entry
unfolding text text_eq
Entry-IsKeyless env out_path err_path entry (path e) = rw e (refl, refl)
Entry-IsKeyless env out_path err_path entry (out_file e) = rw e (refl, refl)
Entry-IsKeyless env out_path err_path entry (err_file e) = rw e (refl, refl)
Entry-IsKeyless env out_path err_path entry (passed h) = (
  not_listed entry.0 (text "GEMINI_API_KEY") tuning_keys h.listed lacks_gemini,
  not_listed entry.0 (text "ANTHROPIC_API_KEY") tuning_keys h.listed lacks_anthropic,
)
Entry-IsKeyless env out_path err_path entry (temp_dir v set e) = rw e (refl, refl)

with_IsKeyless :
    (env : Env) (out_path err_path : Text) (entries : List (Text × Text))
    → All (Entry env out_path err_path) entries
    → All (λ entry. Entry env out_path err_path entry × IsKeyless entry) entries
with_IsKeyless env out_path err_path [] h = tt
with_IsKeyless env out_path err_path (x ∷ entries) h = (
  (h.0, Entry-IsKeyless env out_path err_path x h.0),
  with_IsKeyless env out_path err_path entries h.1,
)

-- The helper starts with a cleared environment: all that it gets is a fixed PATH, the two files of
-- its own, the directory for temporary files that was configured, and those of its eight limits and
-- switches that are set and not blank, with their values. None of these is an API key of a model.
pub child_env-Entry :
    (env : Env) (out_path err_path : Text)
    → All
        (λ entry. Entry env out_path err_path entry × IsKeyless entry)
        (child_env env out_path err_path)
unfolding child_env
child_env-Entry env out_path err_path =
    with_IsKeyless env out_path err_path (child_env env out_path err_path) (
      path refl,
      All-append (Entry env out_path err_path) (pass_keys env passed_keys) _
          (passed-Entry env out_path err_path _ (pass_keys-FromParent env passed_keys))
          (temp_dir-Entry env out_path err_path _ _ refl (out_file refl, (err_file refl, tt))),
    )
