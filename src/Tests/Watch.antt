-- ===== src/Tests/Watch.antt =====
-- The theorem on `ReconcileNodePool` of pkg/controllers/instancepool/instancepool.go at an instance that
-- a pool has created.
use harvester_equinix_addon.Prelude.{◌≡◌, refl, ◌≢◌, inl, some, [], ◌∷◌}
use harvester_equinix_addon.Prelude.Int.{pos}
use harvester_equinix_addon.Prelude.Text.{lookup}
use harvester_equinix_addon.Api.{Instance, InstancePool}
use harvester_equinix_addon.PoolController.Template.{instance_meta, instance_spec}
use harvester_equinix_addon.PoolController.Submit.Created.{MadeFor}
use harvester_equinix_addon.PoolController.Dispatch.{reconcile_node_pool}
use harvester_equinix_addon.PoolController.Dispatch.Watch.{reconcile_node_pool_lem}
use harvester_equinix_addon.Tests.Data.{pool, pool_status, status_of}

abbrev owner : InstancePool
owner = pool (pool_status "tokenReady" (pos 1) (pos 1))

abbrev made : Instance
made = record {
  meta = instance_meta owner "abcdefgh" "t0" "secret";
  spec = instance_spec owner "p0";
  status = record { status = ""; instance_id = ""; public_ip = ""; private_ip = "" };
}

no_url : owner.spec.ipxe_script_url ≢ "" → ⊥
no_url h = h refl

made-MadeFor : MadeFor owner made
unfolding instance_meta instance_spec lookup
made-MadeFor = record {
  suffix = "abcdefgh";
  named = refl;
  labelled = refl;
  owned = refl;
  blank = refl;
  manageable = λ h. cc;
  reconfigured = (λ h. absurd (no_url h), λ h. refl);
  network = inl (refl, refl);
}

reconcile_node_pool_lem_example :
    reconcile_node_pool (some (record made { status = status_of "managed" })) ≡ "pool" ∷ []
reconcile_node_pool_lem_example =
    (reconcile_node_pool_lem owner made (record made { status = status_of "managed" }) made-MadeFor
        refl).0
      (inl refl)
