-- ===== src/Json.antt =====
-- JSON values, and what the program takes from serde_json: the parser, the printer and pointers.
-- Errors are the text that `{:#}` prints.
use acip_sidecar.Prelude.{
  ℕ, Bool, true, false, Option, none, some, List, [], ◌∷◌, ◌++◌, Result, ok, err,
}
use acip_sidecar.Text.{Text, text}

mutual
  pub data Value : Type 0 where
    null : Value
    bool : Bool → Value
    num : ℕ → Value
    other_num : Text → Value
    str : Text → Value
    arr : Items → Value
    obj : Fields → Value

  pub data Items : Type 0 where
    nil : Items
    cons : Value → Items → Items

  pub data Fields : Type 0 where
    end : Fields
    field : Text → Value → Fields → Fields

abbrev pub Fallible : Type 0 → Type 0
Fallible A = Result Text A

-- `anyhow::Context::context`.
abbrev pub context {ℓ} : {A : Type ℓ} → Result Text A → Text → Result Text A
context (ok a) c = ok a
context (err e) c = err (c ++ (text ": " ++ e))

-- `Option::ok_or_else`.
abbrev pub ok_or {ℓ} : {A : Type ℓ} → Option A → Text → Result Text A
ok_or none e = err e
ok_or (some a) e = ok a

abbrev pub is_container : Value → Bool
is_container (obj _) = true
is_container (arr _) = true
is_container _ = false

abbrev pub as_str : Value → Option Text
as_str (str s) = some s
as_str _ = none

abbrev pub array : List Text → Items
array [] = nil
array (s ∷ rest) = cons (str s) (array rest)

abbrev pub opt_str : Option Text → Value
opt_str none = null
opt_str (some s) = str s

pub record SerdeJson : Type 0 where
  pub from_str : Text → Result Text Value
  pub to_string : Value → Text
  pub pointer : Value → Text → Option Value
