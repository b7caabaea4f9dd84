-- ===== src/Policy/Laws.antt =====
-- The policy `default` in the stores of policy_store.rs.
use acip_sidecar.Prelude.{◌≡◌, refl, Option, none, some, [], ok, err, Result-cases, inl, inr}
use acip_sidecar.Text.{Text, text}
use acip_sidecar.Assoc.{Assoc, lookup}
use acip_sidecar.Assoc.Laws.{lookup-insert_self}
use acip_sidecar.Json.{Fallible}
use acip_sidecar.Policy.{
  PolicyConfig, PolicyStore, Provider, load, from_file, default_from_env, get, require,
}

pub record HasDefault (store : PolicyStore) : Type 0 where
  pub policy : PolicyConfig
  pub found : require store (text "default") ≡ ok policy

found-HasDefault :
    (pf : Assoc PolicyConfig) (policy : PolicyConfig)
    → lookup (text "default") pf ≡ some policy
    → HasDefault (from_file pf)
unfolding from_file require get
found-HasDefault pf policy e = record { policy = policy; found = rw e refl }

loaded-HasDefault :
    (found : Option PolicyConfig) (parsed pf : Assoc PolicyConfig)
    → lookup (text "default") parsed ≡ found
    → load (ok []) (λ raw. ok parsed) [] ≡ ok pf
    → HasDefault (from_file pf)
unfolding load
loaded-HasDefault none parsed pf e h = absurd (cc (rw e at h))
loaded-HasDefault (some policy) parsed pf e h =
    let same : parsed ≡ pf = cc (rw e at h) in found-HasDefault pf policy (rw same at e)

-- Whatever was read and however it parses: a policies file that `load` accepts makes a store in
-- which the policy `default` is found.
pub load-HasDefault :
    (read : Fallible Text) (from_str : Text → Fallible (Assoc PolicyConfig)) (path : Text)
    (pf : Assoc PolicyConfig)
    → load read from_str path ≡ ok pf
    → HasDefault (from_file pf)
unfolding load
load-HasDefault (err e) from_str path pf h = absurd (cc)
load-HasDefault (ok raw) from_str path pf h = elim (Result-cases (from_str raw)) [
  | inl (parsed, e) ↦ loaded-HasDefault (lookup (text "default") parsed) parsed pf refl (rw e at h)
  | inr (e, failed) ↦ absurd (cc (rw failed at h))
]

-- So does the store that the environment's models make.
pub default_from_env-HasDefault :
    (l1 : Provider) (m1 : Text) (l2 : Provider) (m2 : Text)
    → HasDefault (default_from_env l1 m1 l2 m2)
unfolding default_from_env require get
default_from_env-HasDefault l1 m1 l2 m2 = record {
  policy = record {
    l1 = record { provider = l1; model = m1 };
    l2 = record { provider = l2; model = m2 };
  };
  found = rw lookup-insert_self refl;
}
