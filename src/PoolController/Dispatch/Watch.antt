-- ===== src/PoolController/Dispatch/Watch.antt =====
-- pkg/controllers/instancepool/instancepool.go, `ReconcileNodePool`: which changes of the instances that
-- a pool has created put the pool on the queue.
use harvester_equinix_addon.Prelude.{◌≡◌, refl, ◌∙◌, ◌≢◌, ◌⊎◌, none, some, [], ◌∷◌, arith}
use harvester_equinix_addon.Prelude.Text.{get, eq_iff}
use harvester_equinix_addon.Api.{Instance, InstancePool}
use harvester_equinix_addon.PoolController.Submit.Created.{MadeFor}
use harvester_equinix_addon.PoolController.Dispatch.{is_deleted, reconcile_node_pool}

-- What brings an instance to its pool: it is managed, or it is being deleted.
abbrev pub IsNews : Instance → Type 0
IsNews j = (j.status.status ≡ "managed") ⊎ (j.meta.deletion_timestamp ≢ none)

label :
    (ip : InstancePool) (i j : Instance)
    → MadeFor ip i
    → j.meta.labels ≡ i.meta.labels
    → get "instancePool" j.meta.labels ≡ ip.meta.name
unfolding get
label ip i j made same = rw (same ∙ made.labelled) refl

-- An instance that a pool has created, whatever else has become of it, puts exactly that pool on the
-- queue when it is managed or being deleted, as long as its labels stay, and none otherwise.
pub reconcile_node_pool_lem :
    (ip : InstancePool) (i j : Instance)
    → MadeFor ip i
    → j.meta.labels ≡ i.meta.labels
    → (IsNews j → reconcile_node_pool (some j) ≡ ip.meta.name ∷ [])
      × (¬ (IsNews j) → reconcile_node_pool (some j) ≡ [])
unfolding reconcile_node_pool is_deleted
reconcile_node_pool_lem ip i j made same = (
  λ news. ground (arith, eq_iff j.status.status "managed", label ip i j made same),
  λ old. ground (arith, eq_iff j.status.status "managed"),
)
