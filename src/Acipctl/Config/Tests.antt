-- ===== src/Acipctl/Config/Tests.antt =====
-- An edit of a small document.
use acip_sidecar.Prelude.{
  ◌≡◌, refl, ◌≢◌, Bool, true, false, Option, none, some, [], ok, arith, if◌then◌else◌,
}
use acip_sidecar.Text.{Text, text, text_eq}
use acip_sidecar.Text.Laws.{text_eq_iff}
use acip_sidecar.Ingest.Samples.{unicode}
use acip_sidecar.Reputation.File.Effects.{FilePath, Disk}
use acip_sidecar.Reputation.File.Atomic.{IsAtomic}
use acip_sidecar.Acipctl.Config.{TomlEdit, WriteRun, set_config_value}
use acip_sidecar.Acipctl.Config.Laws.{TomlLaws}
use acip_sidecar.Acipctl.Config.Write.{Edited, set_config_value-IsAtomic}

mutual
  data Item : Type 0 where
    leaf : Text → Item
    section : Entries → Item

  data Entries : Type 0 where
    end : Entries
    entry : Text → Item → Entries → Entries

find : Text → Entries → Option Item
find k end = none
find k (entry j v rest) = if text_eq j k then some v else find k rest

write : Text → Item → Entries → Entries
write k v end = entry k v end
write k v (entry j w rest) = if text_eq j k then entry k v rest else entry j w (write k v rest)

find-write :
    (p k : Text) (v : Item) (es : Entries)
    → find k (write p v es) ≡ (if text_eq p k then some v else find k es)
unfolding find write
find-write p k v end = refl
find-write p k v (entry j w rest) =
    ground (arith, text_eq_iff p k, text_eq_iff j k, text_eq_iff j p, find-write p k v rest)

index : Item → Text → Option Item
index (leaf s) k = none
index (section es) k = find k es

assign : Item → Text → Item → Option Item
assign (leaf s) k v = none
assign (section es) k v = some (section (write k v es))

is_section : Item → Bool
is_section (leaf s) = false
is_section (section es) = true

abbrev document : Item
document = section (entry (text "policy") (section (entry (text "head") (leaf (text "1")) end)) end)

abbrev toml : TomlEdit
toml = record {
  Item = Item;
  parse = λ s. ok document;
  print = λ item. text "printed";
  index = index;
  assign = assign;
  is_none = λ item. false;
  is_table = is_section;
  remove = λ item k. item;
  table = section end;
  boolean = λ b. leaf (if b then text "true" else text "false");
  integer = λ s. none;
  float = λ s. none;
  string = leaf;
}

index-assign :
    (item value item' : Item) (p k : Text)
    → assign item p value ≡ some item'
    → index item' k ≡ (if text_eq p k then some value else index item k)
unfolding index assign
index-assign (leaf s) value item' p k h = absurd (cc)
index-assign (section es) value item' p k h =
    let e : section (write p value es) ≡ item' = cc in rw (← e) (find-write p k value es)

laws : TomlLaws toml
laws = record { index-assign = index-assign }

abbrev path : FilePath
path = record { parent = some (text "/etc/acip"); file_name = some (text "config.toml") }

abbrev temp : FilePath
temp = record { parent = some (text "/etc/acip"); file_name = some (text ".tmp") }

apart : temp ≢ path
unfolding text
apart = λ e. cc

abbrev run : WriteRun
run = record { temp = temp; new_in = ok tt; write_all = ok tt; written = 0; persist = ok tt }

abbrev disk : Disk
disk = λ p. some []

set_config_value-IsAtomic_example :
    IsAtomic path disk
      (Edited unicode toml laws (λ s. ok tt) path disk (text "policy.head") (text "4000"))
      (set_config_value unicode toml (λ s. ok tt) run path disk (text "policy.head") (text "4000"))
set_config_value-IsAtomic_example =
    set_config_value-IsAtomic unicode toml laws (λ s. ok tt) run path disk apart
      (text "policy.head") (text "4000")
