-- ===== src/Threat.antt =====
-- threat.rs: phrases that mark a text as an attack, with a score and audit indicators.
pub mod Laws
pub mod Tests
use acip_sidecar.Prelude.{
  ℕ, ◌≡◌, arith, true, false, List, [], ◌∷◌, ◌++◌, leb, ◌==◌, if◌then◌else◌, push,
  saturating_add_u8,
}
use acip_sidecar.Prelude.Sort.{Order, sort, dedup}
use acip_sidecar.Text.{Text, text, contains, Unicode}
use acip_sidecar.Text.Order.{text_order}

pub data AttackType : Type 0 where
  prompt_injection tool_coercion data_exfiltration credential_theft jailbreak : AttackType
  social_engineering : AttackType

-- The derived order of the variants.
abbrev pub rank : AttackType → ℕ
rank prompt_injection = 0
rank tool_coercion = 1
rank data_exfiltration = 2
rank credential_theft = 3
rank jailbreak = 4
rank social_engineering = 5

pub eq_of_rank : (a b : AttackType) → rank a ≡ rank b → a ≡ b
eq_of_rank a b h = ground arith

pub rank-total : (a b : AttackType) → leb (rank a) (rank b) ≡ false → leb (rank b) (rank a) ≡ true
rank-total a b h = ground arith

pub rank_trans :
    (a b c : AttackType)
    → leb (rank a) (rank b) ≡ true
    → leb (rank b) (rank c) ≡ true
    → leb (rank a) (rank c) ≡ true
rank_trans a b c h k = ground arith

pub rank-antisym :
    (a b : AttackType) → leb (rank a) (rank b) ≡ true → leb (rank b) (rank a) ≡ true → a ≡ b
rank-antisym a b h k = eq_of_rank a b (ground arith)

pub rank-beq : (a b : AttackType) → (rank a == rank b) ≡ true → a ≡ b
rank-beq a b h = eq_of_rank a b (ground arith)

pub rank_refl : (a : AttackType) → (rank a == rank a) ≡ true
rank_refl a = ground arith

abbrev pub type_order : Order AttackType
type_order = record {
  le = λ a b. leb (rank a) (rank b);
  beq = λ a b. rank a == rank b;
  beq→eq = rank-beq;
  beq-refl = rank_refl;
  total = rank-total;
  trans = rank_trans;
  antisym = rank-antisym;
}

-- `{:?}`.
pub debug : AttackType → Text
debug prompt_injection = text "PromptInjection"
debug tool_coercion = text "ToolCoercion"
debug data_exfiltration = text "DataExfiltration"
debug credential_theft = text "CredentialTheft"
debug jailbreak = text "Jailbreak"
debug social_engineering = text "SocialEngineering"

pub record ThreatAssessment : Type 0 where
  pub attack_types : List AttackType
  pub indicators : List Text
  pub threat_score : ℕ

-- `ThreatAssessment::none`; `none` is the constructor of `Option` here.
abbrev pub none_found : ThreatAssessment
none_found = record { attack_types = []; indicators = []; threat_score = 0 }

unfoldable pub add : ThreatAssessment → AttackType → Text → ℕ → ThreatAssessment
add a ty indicator score = record {
  attack_types = push a.attack_types ty;
  indicators = push a.indicators indicator;
  threat_score = saturating_add_u8 a.threat_score score;
}

-- `normalize`: both lists sorted, without duplicates.
unfoldable pub normalize : ThreatAssessment → ThreatAssessment
normalize a = record {
  attack_types = dedup type_order (sort type_order a.attack_types);
  indicators = dedup text_order (sort text_order a.indicators);
  threat_score = a.threat_score;
}

-- One of the loops `for p in phrases` of `assess`.
unfoldable pub scan_phrases :
    Text → AttackType → Text → ℕ → List Text → ThreatAssessment → ThreatAssessment
unfolding add
scan_phrases lower ty label score [] a = a
scan_phrases lower ty label score (p ∷ ps) a =
    scan_phrases lower ty label score ps
      (if contains lower p then add a ty (label ++ p) score else a)

abbrev pub pi_phrases : List Text
pi_phrases =
    text "ignore previous"
    ∷ text "ignore all previous"
    ∷ text "disregard above"
    ∷ text "system prompt"
    ∷ text "developer message"
    ∷ text "follow these instructions"
    ∷ text "you must"
    ∷ text "do not follow"
    ∷ text "tool"
    ∷ text "function call"
    ∷ text "call the tool"
    ∷ []

abbrev pub cred_phrases : List Text
cred_phrases =
    text "api key"
    ∷ text "secret"
    ∷ text "token"
    ∷ text "password"
    ∷ text "private key"
    ∷ text "ssh key"
    ∷ text "wallet seed"
    ∷ text "mnemonic"
    ∷ []

abbrev pub exfil_phrases : List Text
exfil_phrases =
    text "send to"
    ∷ text "exfiltrate"
    ∷ text "upload"
    ∷ text "pastebin"
    ∷ text "webhook"
    ∷ text "http://"
    ∷ text "https://"
    ∷ []

abbrev pub jailbreak_phrases : List Text
jailbreak_phrases =
    text "jailbreak"
    ∷ text "dan mode"
    ∷ text "no restrictions"
    ∷ text "bypass"
    ∷ text "override"
    ∷ text "you are free"
    ∷ []

abbrev pub se_phrases : List Text
se_phrases =
    text "urgent"
    ∷ text "immediately"
    ∷ text "asap"
    ∷ text "do this now"
    ∷ text "time sensitive"
    ∷ text "do not tell"
    ∷ []

abbrev pub tool_phrases : List Text
tool_phrases =
    text "run curl"
    ∷ text "execute"
    ∷ text "shell"
    ∷ text "terminal"
    ∷ text "powershell"
    ∷ text "cmd.exe"
    ∷ []

-- The loops of `assess` on the lowercased text, before `normalize`.
pub scan_all : Text → ThreatAssessment
unfolding scan_phrases
scan_all lower =
    let a = scan_phrases lower prompt_injection (text "contains_phrase:") 8 pi_phrases none_found in
    let a = scan_phrases lower credential_theft (text "mentions_sensitive:") 10 cred_phrases a in
    let a = scan_phrases lower data_exfiltration (text "mentions_exfil:") 6 exfil_phrases a in
    let a = scan_phrases lower jailbreak (text "mentions:") 8 jailbreak_phrases a in
    let a = scan_phrases lower social_engineering (text "social_pressure:") 4 se_phrases a in
    scan_phrases lower tool_coercion (text "tool_request:") 10 tool_phrases a

unfoldable pub assess : Unicode → Text → ThreatAssessment
unfolding scan_all normalize
assess u t = normalize (scan_all (u.to_lowercase t))
