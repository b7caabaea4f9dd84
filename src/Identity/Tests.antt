-- ===== src/Identity/Tests.antt =====
-- The identity check on a system with two users, and a process that only root can change.
use acip_sidecar.Prelude.{
  ℕ, ◌≡◌, refl, ◌≢◌, some, none, ok, err, Result, arith, ◌==◌, if◌then◌else◌, leb, le→leb,
}
use acip_sidecar.Text.{Text, text, text_eq}
use acip_sidecar.Identity.{
  Answer, found, missing, erange, looping, Libc, ServiceConfig, enforce_identity,
}
use acip_sidecar.Identity.Lookup.{Suffices}
use acip_sidecar.Identity.Laws.{RunsAs, enforce_identity-RunsAs}
use acip_sidecar.Identity.Ends.{Buffers, enforce_identity-Halts}

record Credentials : Type 0 where
  uid : ℕ
  gid : ℕ

-- A lookup that needs 3000 bytes.
abbrev with_buffer : {A : Type 0} → Answer A → ℕ → Answer A
with_buffer a len = if leb 3000 len then a else erange

name_of : ℕ → Answer Text
name_of id =
    if id == 0 then found (text "root") else if id == 7 then found (text "acip_user") else missing

id_of : Text → Answer ℕ
id_of name = if text_eq name (text "acip_user") then found 7 else missing

as_root : Credentials → Credentials → Result Text Credentials
as_root p q = if p.uid == 0 then ok q else err (text "Operation not permitted")

abbrev system : Libc
system = record {
  getpwuid_r = λ uid. with_buffer (name_of uid);
  getgrgid_r = λ gid. with_buffer (name_of gid);
  getpwnam_r = λ name. with_buffer (id_of name);
  getgrnam_r = λ name. with_buffer (id_of name);
  Process = Credentials;
  geteuid = λ p. p.uid;
  getegid = λ p. p.gid;
  setgid = λ gid p. as_root p (record p { gid = gid });
  initgroups = λ name gid p. as_root p p;
  setuid = λ uid p. as_root p (record p { uid = uid });
}

abbrev root : Credentials
root = record { uid = 0; gid = 0 }

abbrev acip_user : Credentials
acip_user = record { uid = 7; gid = 7 }

abbrev service : ServiceConfig
service = record { user = some (text "acip_user"); group = none; enforce_identity = none }

dropped : enforce_identity system 3 root (some service) ≡ ok acip_user
unfolding enforce_identity text name_of text_eq id_of as_root
dropped = refl

enforce_identity-RunsAs_example : RunsAs system 3 root (some (text "acip_user")) none acip_user
enforce_identity-RunsAs_example =
    enforce_identity-RunsAs system 3 root acip_user service refl dropped

name_of-ne-erange : (id : ℕ) → name_of id ≢ erange
unfolding name_of
name_of-ne-erange id = ground arith

id_of-ne-erange : (name : Text) → id_of name ≢ erange
unfolding id_of
id_of-ne-erange name = ground arith

with_buffer-Suffices : {A : Type 0} (a : Answer A) → a ≢ erange → Suffices (with_buffer a) 3000
with_buffer-Suffices a h len long = rw (le→leb 3000 len long) h

buffers : Buffers system 3000
buffers = record {
  getpwuid_r = λ uid. with_buffer-Suffices (name_of uid) (name_of-ne-erange uid);
  getgrgid_r = λ gid. with_buffer-Suffices (name_of gid) (name_of-ne-erange gid);
  getpwnam_r = λ name. with_buffer-Suffices (id_of name) (id_of-ne-erange name);
  getgrnam_r = λ name. with_buffer-Suffices (id_of name) (id_of-ne-erange name);
}

enforce_identity-Halts_example : enforce_identity system 3 root (some service) ≢ err looping
enforce_identity-Halts_example =
    enforce_identity-Halts system 3000 2 buffers (omega arith) root (some service)
