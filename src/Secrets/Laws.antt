-- ===== src/Secrets/Laws.antt =====
-- What a secrets file that is accepted is like, and what it gives.
use acip_sidecar.Prelude.{
  ◌≡◌, refl, inl, inr, false, ◌&&◌, not, Option, none, some, List, [], ◌∷◌, arith, ok, err, All,
  ◌==◌, ==_iff, if◌then◌else◌, if_either, if_cases, Bool-cases, is_empty, bind-ok,
}
use acip_sidecar.Text.{Text, text, trim, text_eq, starts_with}
use acip_sidecar.Text.Trim.{trim-trim}
use acip_sidecar.Assoc.{Assoc, insert}
use acip_sidecar.Json.{Fallible, context}
use acip_sidecar.Secrets.{
  insert_pair, insert_line, insert_lines, split_once, lines, Metadata, Dotenv, open_bits,
  check_parent, ensure_secure_dotenv, load,
}

-- A parent directory, if there is one, that is closed to others and has the file's owner.
pub data ParentIsPrivate (file : Metadata) (parent : Option (Fallible Metadata)) : Type 0 where
  no_parent : parent ≡ none → ParentIsPrivate file parent
  private_parent :
      (m : Metadata)
      → parent ≡ some (ok m)
      → open_bits m ≡ 0
      → file.uid ≡ m.uid
      → ParentIsPrivate file parent

pub record IsPrivate (d : Dotenv) : Type 0 where
  pub meta : Metadata
  pub found : d.file ≡ ok meta
  pub closed : open_bits meta ≡ 0
  pub parent : ParentIsPrivate meta d.parent

-- A key and a value that are trimmed and not empty.
pub record IsClean (entry : Text × Text) : Type 0 where
  pub key : trim entry.0 ≡ entry.0
  pub key_filled : is_empty entry.0 ≡ false
  pub value : trim entry.1 ≡ entry.1
  pub value_filled : is_empty entry.1 ≡ false

check_parent-ParentIsPrivate :
    (m : Metadata) (p : Option (Fallible Metadata)) → check_parent m p ≡ ok tt → ParentIsPrivate m p
unfolding check_parent
check_parent-ParentIsPrivate m none h = no_parent refl
check_parent-ParentIsPrivate m (some (err e)) h = absurd (cc)
check_parent-ParentIsPrivate m (some (ok p)) h = elim (Bool-cases (open_bits p == 0)) [
  | inr opened ↦ absurd (cc (rw opened at h))
  | inl closed ↦ elim (Bool-cases (m.uid == p.uid)) [
    | inl same ↦ private_parent p refl ((==_iff _ _).0 closed) ((==_iff _ _).0 same)
    | inr other ↦ absurd (cc (rw (closed, other) at h))
  ]
]

mode-IsPrivate :
    (d : Dotenv) (m : Metadata)
    → d.file ≡ ok m
    → (if open_bits m == 0
        then check_parent m d.parent
        else err (text "dotenv file permissions too open (need 600-ish)"))
      ≡ ok tt
    → IsPrivate d
mode-IsPrivate d m found h = elim (Bool-cases (open_bits m == 0)) [
  | inl closed ↦ record {
    meta = m;
    found = found;
    closed = (==_iff _ _).0 closed;
    parent = check_parent-ParentIsPrivate m d.parent (rw closed at h);
  }
  | inr opened ↦ absurd (cc (rw opened at h))
]

ensure_secure_dotenv-IsPrivate : (d : Dotenv) → ensure_secure_dotenv d ≡ ok tt → IsPrivate d
unfolding ensure_secure_dotenv
ensure_secure_dotenv-IsPrivate d h = elim (Bool-cases d.exists_there) [
  | inl there ↦
      let (m, found, h1) = bind-ok d.file _ tt (rw there at h) in mode-IsPrivate d m found h1
  | inr missing ↦ absurd (cc (rw missing at h))
]

insert-IsClean :
    (k v : Text) (map : Assoc Text)
    → IsClean (k, v)
    → All IsClean map
    → All IsClean (insert k v map)
unfolding insert
insert-IsClean k v [] c h = (c, tt)
insert-IsClean k v ((j, w) ∷ map) c (d, h) =
    if_either (All IsClean) (text_eq j k) (c, h) (d, insert-IsClean k v map c h)

insert_pair-IsClean :
    (o : Option (Text × Text)) (map : Assoc Text)
    → All IsClean map
    → All IsClean (insert_pair o map)
unfolding insert_pair
insert_pair-IsClean none map h = h
insert_pair-IsClean (some (k, v)) map h =
    if_cases (All IsClean) (not (is_empty (trim k)) && not (is_empty (trim v)))
      (λ both.
        insert-IsClean (trim k) (trim v) map
          (record {
            key = trim-trim k;
            key_filled = ground arith;
            value = trim-trim v;
            value_filled = ground arith;
          })
          h)
      (λ _. h)

insert_lines-IsClean :
    (ls : List Text) (map : Assoc Text) → All IsClean map → All IsClean (insert_lines ls map)
unfolding insert_lines insert_line
insert_lines-IsClean [] map h = h
insert_lines-IsClean (line ∷ ls) map h = insert_lines-IsClean ls _ (
    if_either (All IsClean) (is_empty (trim line)) h (
      if_either (All IsClean) (starts_with (trim line) (0x23 ∷ [])) h
        (insert_pair-IsClean (split_once (trim line)) map h)))

-- A secrets file is loaded only if neither the group nor others may access it or its directory in
-- any way and both have one owner; all keys and values that it gives are trimmed and not empty.
pub load-IsPrivate :
    (d : Dotenv) (map : Assoc Text) → load d ≡ ok map → IsPrivate d × All IsClean map
unfolding load
load-IsPrivate d map h =
    let (u, secure, h1) = bind-ok (ensure_secure_dotenv d) _ map h in
    let (contents, _, h2) = bind-ok (context d.contents _) _ map h1 in
    let same : insert_lines (lines contents) [] ≡ map = cc in
    (
      ensure_secure_dotenv-IsPrivate d secure,
      rw same at (insert_lines-IsClean (lines contents) [] tt),
    )
