-- ===== src/Acipctl/Config/Laws.antt =====
-- What an edit of the configuration leaves in the document.
use acip_sidecar.Prelude.{
  ◌≡◌, refl, ◌∙◌, sym, ap, ◌≢◌, ◌⊎◌, true, Option, none, some, List, [], ◌∷◌, ok, if◌then◌else◌,
  bind-ok, ok_injective, inl, inr,
}
use acip_sidecar.Text.{Text, text_eq}
use acip_sidecar.Text.Laws.{text_eq_refl}
use acip_sidecar.Assoc.Laws.{text_eq-false}
use acip_sidecar.Acipctl.Config.{TomlEdit, or_panic, step_into, set_in}

-- The item at a path of keys.
pub get_path : (toml : TomlEdit) → List Text → toml.Item → Option toml.Item
get_path toml [] item = some item
get_path toml (p ∷ ps) item = elim (toml.index item p) [
  | none ↦ none
  | some inner ↦ get_path toml ps inner
]

-- A write to an item is read back, and changes no other entry; a new table is one, and is empty.
pub record TomlLaws (toml : TomlEdit) : Type 0 where
  pub index-assign :
      (item value item' : toml.Item) (p k : Text)
      → toml.assign item p value ≡ some item'
      → toml.index item' k ≡ (if text_eq p k then some value else toml.index item k)

-- Two paths that part before either ends.
abbrev pub Diverge : List Text → List Text → Type 0
Diverge (p ∷ ps) (k ∷ ks) = (p ≢ k) ⊎ ((p ≡ k) × Diverge ps ks)
Diverge _ _ = ⊥

-- What lies on the way to the last part of a path are tables in sections.
pub IsTablesAlong : (toml : TomlEdit) → List Text → toml.Item → Type 0
IsTablesAlong toml [] item = Unit
IsTablesAlong toml (p ∷ []) item = Unit
IsTablesAlong toml (p ∷ q ∷ ps) item =
    (inner : toml.Item)
    → toml.index item p ≡ some inner
    → (toml.is_table inner ≡ true) × IsTablesAlong toml (q ∷ ps) inner

or_panic-ok : {A : Type 0} (o : Option A) (a : A) → or_panic o ≡ ok a → o ≡ some a
unfolding or_panic
or_panic-ok none a h = absurd (cc)
or_panic-ok (some x) a h = cc

module _ (toml : TomlEdit) (laws : TomlLaws toml) where
  index_self :
      (item value item' : toml.Item) (p : Text)
      → toml.assign item p value ≡ some item'
      → toml.index item' p ≡ some value
  index_self item value item' p h = laws.index-assign item value item' p p h ∙ (rw text_eq_refl)

  index-other :
      (item value item' : toml.Item) (p k : Text)
      → p ≢ k
      → toml.assign item p value ≡ some item'
      → toml.index item' k ≡ toml.index item k
  index-other item value item' p k ne h =
      laws.index-assign item value item' p k h ∙ (rw (text_eq-false p k ne) refl)

  -- The value is found at its key.
  pub set_in-get_path :
      (parts : List Text) (value cur changed : toml.Item)
      → set_in toml parts value cur ≡ ok changed
      → get_path toml parts changed ≡ some value
  unfolding set_in get_path
  set_in-get_path [] value cur changed h = ap some (sym (ok_injective h))
  set_in-get_path (p ∷ []) value cur changed h =
      rw (index_self cur value changed p (or_panic-ok _ changed h), get_path) refl
  set_in-get_path (p ∷ q ∷ ps) value cur changed h =
      let (seen, _, h) = bind-ok (or_panic (toml.index cur p)) _ changed h in
      let (inner, inside, h) =
        bind-ok (set_in toml (q ∷ ps) value (step_into toml seen)) _ changed h in
      rw (index_self cur inner changed p (or_panic-ok _ changed h), get_path)
        (set_in-get_path (q ∷ ps) value (step_into toml seen) inner inside)

  kept_beside :
      (cur value changed : toml.Item) (p k : Text) (ks : List Text)
      → p ≢ k
      → toml.assign cur p value ≡ some changed
      → get_path toml (k ∷ ks) changed ≡ get_path toml (k ∷ ks) cur
  unfolding get_path
  kept_beside cur value changed p k ks ne h =
      rw (index-other cur value changed p k ne h, get_path) refl

  at_key :
      (item : toml.Item) (p : Text) (ks : List Text) (inner : toml.Item)
      → toml.index item p ≡ some inner
      → get_path toml (p ∷ ks) item ≡ get_path toml ks inner
  unfolding get_path
  at_key item p ks inner h = rw (h, get_path) refl

  step_into-table : (seen : toml.Item) → toml.is_table seen ≡ true → step_into toml seen ≡ seen
  unfolding step_into
  step_into-table seen h = rw h refl

  -- Everything elsewhere is as it was, if tables in sections lead to the key.
  pub set_in-kept :
      (parts path : List Text) (value cur changed : toml.Item)
      → Diverge parts path
      → IsTablesAlong toml parts cur
      → set_in toml parts value cur ≡ ok changed
      → get_path toml path changed ≡ get_path toml path cur
  unfolding set_in IsTablesAlong
  set_in-kept [] path value cur changed d tables h = elim d [ ]
  set_in-kept (p ∷ []) [] value cur changed d tables h = elim d [ ]
  set_in-kept (p ∷ q ∷ ps) [] value cur changed d tables h = elim d [ ]
  set_in-kept (p ∷ []) (k ∷ ks) value cur changed (inl ne) tables h =
      kept_beside cur value changed p k ks ne (or_panic-ok _ changed h)
  set_in-kept (p ∷ []) (k ∷ ks) value cur changed (inr (e, d)) tables h = absurd d
  set_in-kept (p ∷ q ∷ ps) (k ∷ ks) value cur changed (inl ne) tables h =
      let (seen, _, h) = bind-ok (or_panic (toml.index cur p)) _ changed h in
      let (inner, inside, h) =
        bind-ok (set_in toml (q ∷ ps) value (step_into toml seen)) _ changed h in
      kept_beside cur inner changed p k ks ne (or_panic-ok _ changed h)
  set_in-kept (p ∷ q ∷ ps) (k ∷ ks) value cur changed (inr (e, d)) tables h =
      let (seen, at_p, h) = bind-ok (or_panic (toml.index cur p)) _ changed h in
      let (inner, inside, h) =
        bind-ok (set_in toml (q ∷ ps) value (step_into toml seen)) _ changed h in
      let found = or_panic-ok (toml.index cur p) seen at_p in
      let (is_tab, below) = tables seen found in
      let kept : step_into toml seen ≡ seen = step_into-table seen is_tab in
      rw (← e) (
        at_key changed p ks inner (index_self cur inner changed p (or_panic-ok _ changed h))
        ∙ set_in-kept (q ∷ ps) ks value seen inner d below (rw kept at inside)
        ∙ sym (at_key cur p ks seen found))
