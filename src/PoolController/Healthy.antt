-- ===== src/PoolController/Healthy.antt =====
-- What pkg/controllers/instancepool/instancepool.go relies on when nothing fails: the interface between
-- the controller of a pool and a cluster that holds the pool's instances.
pub mod Deleted
pub mod Rebalanced
pub mod Settled
use harvester_equinix_addon.Prelude.{
  ℕ, suc, ◌+◌, ◌<◌, String, ◌≡◌, ◌⊎◌, true, Bool, false, Option, none, some, List, [], ◌∷◌, ◌++◌,
  length,
}
use harvester_equinix_addon.Prelude.Text.{◌<>◌, lookup}
use harvester_equinix_addon.Api.{
  StringMap, Instance, InstancePool, NetworkingConfiguration, is_empty, is_valid_type,
}
use harvester_equinix_addon.Harvester.{HarvesterConfig}
use harvester_equinix_addon.Services.{Services, Node, ok, Call}
use harvester_equinix_addon.PoolController.Reconcile.{selector}

-- A call that neither creates nor deletes an instance.
abbrev pub leaves_instances : Call → Bool
leaves_instances (Call.instance_create i) = false
leaves_instances (Call.instance_delete name) = false
leaves_instances _ = true

-- A cluster that holds the instances of the pool with the name, by their label, and in which no call of
-- the pool's controller fails.
pub record Cluster {W : Type 0} (env : Services W) (name : String)
    (network : NetworkingConfiguration) : Type 0 where
  -- The instances that carry the label and are not being deleted, and whether there are no others.
  pub present : W → List Instance
  pub settled : W → Bool
  pub lists :
      (w : W)
      → settled w ≡ true
      → (env.perform (Call.instance_list ("instancePool=" <> name)) w).0 ≡ ok (present w)
  pub keeps :
      (c : Call) (w : W)
      → leaves_instances c ≡ true
      → (present (env.perform c w).1 ≡ present w) × (settled (env.perform c w).1 ≡ settled w)
  pub creates : (i : Instance) (w : W) → (env.perform (Call.instance_create i) w).0 ≡ none
  -- A created instance is listed with the others if it carries the label of the pool.
  pub grows :
      (i : Instance) (w : W)
      → lookup "instancePool" i.meta.labels ≡ some name
      → length (present (env.perform (Call.instance_create i) w).1) ≡ length (present w) + 1
  pub deletes : (name : String) (w : W) → (env.perform (Call.instance_delete name) w).0 ≡ none
  -- After the deletion by name of the last instance in the list, that one is being deleted.
  pub shrinks :
      (others : List Instance) (last : Instance) (w : W)
      → present w ≡ others ++ last ∷ []
      → present (env.perform (Call.instance_delete last.meta.name) w).1 ≡ others
  pub writes :
      (p : InstancePool) (w : W) → (env.perform (Call.pool_update_status p) w).0 ≡ (p, none)
  -- What a submission needs besides.
  pub secret : StringMap
  pub token : String
  pub project : String
  pub reads_secret :
      (namespace name : String) (w : W)
      → (env.perform (Call.secret_get namespace name) w).0 ≡ ok secret
  pub has_token : lookup "METAL_AUTH_TOKEN" secret ≡ some token
  pub has_project : lookup "PROJECT_ID" secret ≡ some project
  pub node : Node
  pub nodes : List Node
  pub lists_nodes : (s : String) (w : W) → (env.perform (Call.node_list s) w).0 ≡ ok (node ∷ nodes)
  pub address : String
  pub addresses : List String
  pub exposes :
      (namespace name : String) (w : W)
      → (env.perform (Call.service_get namespace name) w).0
        ≡ ok (record { ingress = address ∷ addresses })
  pub draws : (w : W) → (env.perform (Call.rand_intn 52) w).0 < 52
  pub print : HarvesterConfig → String
  pub marshals : (c : HarvesterConfig) → env.yaml_marshal c ≡ ok (print c)
  -- The networking of the pool is none or of a known type.
  pub networks : (is_empty network ≡ true) ⊎ (is_valid_type network ≡ true)

-- A cluster that holds the instances of the pool.
abbrev pub Healthy : {W : Type 0} → Services W → InstancePool → Type 0
Healthy env ip = Cluster env ip.meta.name ip.spec.networking_configuration
