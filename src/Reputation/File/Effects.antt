-- ===== src/Reputation/File/Effects.antt =====
-- The files of a disk, as the reputation store sees them, and what the operations of the file
-- system do to them. Permissions and directories are left aside.
use native.Mathlib.Decide.{ℕ_discrete}
use mathlib.Core.List.{List-discrete}
use mathlib.Core.Logic.{ite, if_pos, if_neg}
use acip_sidecar.Prelude.{
  ℕ, suc, zero, ◌≡◌, refl, ◌≢◌, ◌∙◌, sym, ap, ◌⊎◌, inl, inr, Option, none, some, List, [], ◌∷◌,
  ◌++◌, map, take, push, All, append_assoc, append-nil,
}
use acip_sidecar.Text.{Text}

-- A path as `Path::parent` and `Path::file_name` take it apart.
pub record FilePath : Type 0 where
  pub parent : Option Text
  pub file_name : Option Text

pub FilePath-discrete : Discrete FilePath
FilePath-discrete = hlevel (ℕ_discrete, List-discrete)

abbrev pub Bytes : Type 0
Bytes = List ℕ

abbrev pub Disk : Type 0
Disk = FilePath → Option Bytes

pub put : FilePath → Option Bytes → Disk → Disk
put p v disk q = ite (FilePath-discrete p q) v (disk q)

pub put_self : (p : FilePath) (v : Option Bytes) (disk : Disk) → put p v disk p ≡ v
unfolding put
put_self p v disk = if_pos (FilePath-discrete p p) refl v (disk p)

pub put_other : (p q : FilePath) (v : Option Bytes) (disk : Disk) → p ≢ q → put p v disk q ≡ disk q
unfolding put
put_other p q v disk h = if_neg (FilePath-discrete p q) h v (disk q)

-- `create` stands for a new file, or for one that is emptied; a write goes byte by byte.
pub data Effect : Type 0 where
  create : FilePath → Effect
  write_byte : FilePath → ℕ → Effect
  rename_to : FilePath → FilePath → Effect
  remove : FilePath → Effect

append_byte : ℕ → Option Bytes → Option Bytes
append_byte b none = none
append_byte b (some bytes) = some (push bytes b)

pub apply : Effect → Disk → Disk
unfolding append_byte
apply (create p) disk = put p (some []) disk
apply (write_byte p b) disk = put p (append_byte b (disk p)) disk
apply (rename_to p q) disk = put p none (put q (disk p) disk)
apply (remove p) disk = put p none disk

pub apply_all : List Effect → Disk → Disk
unfolding apply
apply_all [] disk = disk
apply_all (e ∷ effects) disk = apply_all effects (apply e disk)

pub apply_all-append :
    (es fs : List Effect) (disk : Disk)
    → apply_all (es ++ fs) disk ≡ apply_all fs (apply_all es disk)
unfolding apply_all
apply_all-append [] fs disk = refl
apply_all-append (e ∷ es) fs disk = apply_all-append es fs (apply e disk)

-- Effects that have nothing to do with a file.
abbrev pub Avoids : FilePath → Effect → Type 0
Avoids p (create q) = q ≢ p
Avoids p (write_byte q b) = q ≢ p
Avoids p (rename_to q r) = (q ≢ p) × (r ≢ p)
Avoids p (remove q) = q ≢ p

apply-Avoids : (p : FilePath) (e : Effect) (disk : Disk) → Avoids p e → apply e disk p ≡ disk p
unfolding apply
apply-Avoids p (create q) disk h = put_other q p _ disk h
apply-Avoids p (write_byte q b) disk h = put_other q p _ disk h
apply-Avoids p (rename_to q r) disk h = put_other q p none _ h.0 ∙ put_other r p _ disk h.1
apply-Avoids p (remove q) disk h = put_other q p none disk h

pub apply_all-Avoids :
    (p : FilePath) (es : List Effect) (disk : Disk)
    → All (Avoids p) es
    → apply_all es disk p ≡ disk p
unfolding apply_all
apply_all-Avoids p [] disk h = refl
apply_all-Avoids p (e ∷ es) disk h =
    apply_all-Avoids p es (apply e disk) h.1 ∙ apply-Avoids p e disk h.0

pub writes-Avoids :
    (p q : FilePath) (bytes : Bytes) → q ≢ p → All (Avoids p) (map (write_byte q) bytes)
writes-Avoids p q [] h = tt
writes-Avoids p q (b ∷ bytes) h = (h, writes-Avoids p q bytes h)

-- A file that is there after a write has the bytes at its end.
pub apply_all-writes :
    (p : FilePath) (bytes old : Bytes) (disk : Disk)
    → disk p ≡ some old
    → apply_all (map (write_byte p) bytes) disk p ≡ some (old ++ bytes)
unfolding apply_all apply append_byte
apply_all-writes p [] old disk h = h ∙ ap some (sym (append-nil old))
apply_all-writes p (b ∷ bytes) old disk h =
    apply_all-writes p bytes (push old b) (apply (write_byte p b) disk)
      (put_self p _ disk ∙ ap (append_byte b) h)
    ∙ ap some (append_assoc old (b ∷ []) bytes)

-- A new file with the bytes.
pub apply_all-new_file :
    (p : FilePath) (bytes : Bytes) (disk : Disk)
    → apply_all (create p ∷ map (write_byte p) bytes) disk p ≡ some bytes
unfolding apply_all apply
apply_all-new_file p bytes disk =
    apply_all-writes p bytes [] (apply (create p) disk) (put_self p (some []) disk)

pub remove_lem : (p q : FilePath) (disk : Disk) → p ≢ q → apply_all (remove p ∷ []) disk q ≡ disk q
unfolding apply_all apply
remove_lem p q disk h = put_other p q none disk h

pub rename_lem :
    (p q : FilePath) (disk : Disk) → p ≢ q → apply_all (rename_to p q ∷ []) disk q ≡ disk p
unfolding apply_all apply
rename_lem p q disk h = put_other p q none _ h ∙ put_self q (disk p) disk

-- A file that is written elsewhere and renamed.
pub apply_all-renamed :
    (temp path : FilePath) (bytes : Bytes) (disk : Disk)
    → temp ≢ path
    → apply_all ((create temp ∷ map (write_byte temp) bytes) ++ rename_to temp path ∷ []) disk path
      ≡ some bytes
apply_all-renamed temp path bytes disk apart =
    let written = create temp ∷ map (write_byte temp) bytes in
    let after = apply_all written disk in
    ap (λ d. d path) (apply_all-append written (rename_to temp path ∷ []) disk)
    ∙ rename_lem temp path after apart
    ∙ apply_all-new_file temp bytes disk

-- Stopped at any moment, a list of effects has run but for its last one, or whole.
pub take-push :
    {A : Type 0} (n : ℕ) (xs : List A) (x : A)
    → (take n (push xs x) ≡ take n xs) ⊎ (take n (push xs x) ≡ push xs x)
take-push zero xs x = inl refl
take-push (suc zero) [] x = inr refl
take-push (suc (suc n)) [] x = inr refl
take-push (suc n) (y ∷ xs) x = elim (take-push n xs x) [
  | inl e ↦ inl (ap (◌∷◌ y) e)
  | inr e ↦ inr (ap (◌∷◌ y) e)
]
