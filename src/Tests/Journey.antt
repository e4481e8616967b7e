-- ===== src/Tests/Journey.antt =====
-- The theorem on the cloud-init of a machine, from its creation to its reinstallation, at a concrete pool.
use harvester_equinix_addon.Prelude.{
  String, ◌≡◌, refl, sym, ◌≢◌, none, some, List, [], ◌∷◌, if◌then◌else◌,
}
use harvester_equinix_addon.Prelude.Int.{pos}
use harvester_equinix_addon.Prelude.Text.{◌==◌}
use harvester_equinix_addon.Api.{InstancePool}
use harvester_equinix_addon.Harvester.{HarvesterConfig}
use harvester_equinix_addon.Services.{Services, Error, Result, ok}
use harvester_equinix_addon.Metal.CloudInit.{with_management, cloud_config, update_cloud_init}
use harvester_equinix_addon.PoolController.Template.{join_config}
use harvester_equinix_addon.PoolController.Submit.{generate_cloud_init}
use harvester_equinix_addon.PoolController.Submit.Journey.{
  filled, ReadsBack, Joins, cloud_init-Joins,
}
use harvester_equinix_addon.Tests.Data.{pool, pool_status, blank_meta, services}

abbrev joining : InstancePool
joining = pool (pool_status "tokenReady" (pos 1) (pos 1))

abbrev joined : HarvesterConfig
joined = join_config joining blank_meta "2.2.2.2"

abbrev machine_macs : List String
machine_macs = "00:01" ∷ []

abbrev reinstalled : HarvesterConfig
reinstalled = with_management (filled joined) machine_macs none

-- A writer and a reader of YAML for the two configurations.
abbrev two_texts : HarvesterConfig → Result String
two_texts c = elim c.install.networks [ none ↦ ok "join" | some n ↦ ok "managed" ]

abbrev two_configs : String → Result HarvesterConfig
two_configs s = ok (if s == cloud_config "join" then filled joined else filled reinstalled)

abbrev join_services : Services (Unit {0})
join_services = record services { yaml_marshal = two_texts; yaml_unmarshal = two_configs }

ok_text : {s t : String} → ok s ≡ ok t → s ≡ t
ok_text h = cc

joined-ReadsBack : ReadsBack join_services joined
unfolding join_config
joined-ReadsBack text h = rw (sym (ok_text h)) refl

reinstalled-ReadsBack : ReadsBack join_services reinstalled
unfolding join_config with_management
reinstalled-ReadsBack text h = rw (sym (ok_text h)) refl

generates :
    generate_cloud_init join_services joining blank_meta "2.2.2.2" ≡ (cloud_config "join", none)
unfolding generate_cloud_init join_config
generates = refl

updates :
    update_cloud_init join_services (cloud_config "join") machine_macs none
    ≡ ok (cloud_config "managed")
unfolding update_cloud_init join_config with_management
updates = refl

wraps : (e : Error) (message : String) → join_services.errors_wrap (some e) message ≢ none
wraps e message h = cc

cloud_init-Joins_example :
    (d : HarvesterConfig) × Joins joining blank_meta "2.2.2.2" machine_macs none d
    × (join_services.yaml_unmarshal (cloud_config "managed") ≡ ok d)
cloud_init-Joins_example =
    cloud_init-Joins join_services joining blank_meta "2.2.2.2" (cloud_config "join") machine_macs
      none (cloud_config "managed") wraps joined-ReadsBack reinstalled-ReadsBack generates updates
