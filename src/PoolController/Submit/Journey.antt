-- ===== src/PoolController/Submit/Journey.antt =====
-- pkg/controllers/instancepool/instancepool.go, `generateCloudInit`, and pkg/equinix/equinix.go,
-- `updateCloudInit`: the cloud-init from the creation of an instance to its reinstallation.
use harvester_equinix_addon.Prelude.{
  String, ◌≡◌, refl, sym, ap, ◌∙◌, ◌≢◌, Option, none, some, List, [], ◌∷◌, arith,
}
use harvester_equinix_addon.Prelude.Text.{◌<>◌, lookup, get, insert}
use harvester_equinix_addon.Api.{StringMap, ObjectMeta, InstancePool}
use harvester_equinix_addon.Harvester.{Network, HarvesterConfig}
use harvester_equinix_addon.Services.{Services, Error, Result, ok, err}
use harvester_equinix_addon.Metal.CloudInit.{
  management_network, or_empty, with_management, cloud_config, update_cloud_init,
}
use harvester_equinix_addon.Metal.CloudInit.Networks.{networks, update_cloud_init-Managed}
use harvester_equinix_addon.PoolController.Template.{join_config}
use harvester_equinix_addon.PoolController.Submit.{generate_cloud_init}

-- A map that is nil is written as one without entries, and read so.
abbrev filled_network : Network → Network
filled_network n = record n { bond_options = some (elim n.bond_options [ none ↦ [] | some o ↦ o ]) }

abbrev filled_networks : List (String × Network) → List (String × Network)
filled_networks [] = []
filled_networks ((name, n) ∷ ns) = (name, filled_network n) ∷ filled_networks ns

abbrev pub filled : HarvesterConfig → HarvesterConfig
filled c = record c {
  install = record (c.install) { networks = some (filled_networks (networks c)) };
}

-- The reader of YAML reads back what the writer writes of the configuration, also behind the first line
-- of a cloud-init, but for maps that are nil.
abbrev pub ReadsBack : {W : Type 0} → Services W → HarvesterConfig → Type 0
ReadsBack env c =
    (text : String)
    → env.yaml_marshal c ≡ ok text
    → env.yaml_unmarshal (cloud_config text) ≡ ok (filled c)

-- A configuration with which a machine joins the cluster of the pool.
pub record Joins (ip : InstancePool) (meta : ObjectMeta) (address : String) (macs : List String)
    (options : Option StringMap) (d : HarvesterConfig) : Type 0 where
  pub server : d.server_url ≡ "https://" <> address <> ":8443"
  pub token : d.token ≡ ip.status.token
  pub hostname : d.os.hostname ≡ meta.name
  pub password : d.os.password ≡ get "password" meta.annotations
  pub mode : d.install.mode ≡ "join"
  pub management :
      lookup "harvester-mgmt" (networks d) ≡ some (filled_network (management_network macs options))

module _ {W : Type 0} (env : Services W) (ip : InstancePool) (meta : ObjectMeta)
    (address base : String) where
  -- What `generateCloudInit` returns, by the reply of the writer.
  abbrev generated : Result String → String × Option Error
  generated (err e) =
      ("", env.errors_wrap (some e) "error during marshalling harverster config to cloudInit")
  generated (ok config) = (cloud_config config, none)

  generate_cloud_init-generated :
      generate_cloud_init env ip meta address
      ≡ generated (env.yaml_marshal (join_config ip meta address))
  unfolding generate_cloud_init
  generate_cloud_init-generated = ground arith

  written :
      ((e : Error) (message : String) → env.errors_wrap (some e) message ≢ none)
      → (r : Result String) → generated r ≡ (base, none)
      → (text : String) × (r ≡ ok text) × (base ≡ cloud_config text)
  written wraps (ok text) h = (text, refl, cc h)
  written wraps (err e) h = absurd (wraps e _ (ap (λ r. r.1) h))

  base_read :
      ((e : Error) (message : String) → env.errors_wrap (some e) message ≢ none)
      → ReadsBack env (join_config ip meta address)
      → generate_cloud_init env ip meta address ≡ (base, none)
      → env.yaml_unmarshal base ≡ ok (filled (join_config ip meta address))
  base_read wraps reads h =
      let (text, marshalled, e) =
        written wraps (env.yaml_marshal (join_config ip meta address))
          (sym generate_cloud_init-generated ∙ h) in
      ap env.yaml_unmarshal e ∙ reads text marshalled

  -- If YAML reads back what is written of the configuration that is generated and of the one that it
  -- becomes with the management network, but for maps that are nil, which are read as empty, and a
  -- wrapped error is an error: then the cloud-init with which a machine is reinstalled, made from the one
  -- that was generated for its instance, still joins the cluster of the pool by the name and the password
  -- of the instance, and has the management network with the addresses of the machine.
  pub cloud_init-Joins :
      (macs : List String) (options : Option StringMap) (new : String)
      → ((e : Error) (message : String) → env.errors_wrap (some e) message ≢ none)
      → ReadsBack env (join_config ip meta address)
      → ReadsBack env (with_management (filled (join_config ip meta address)) macs options)
      → generate_cloud_init env ip meta address ≡ (base, none)
      → update_cloud_init env base macs options ≡ ok new
      → (d : HarvesterConfig) × Joins ip meta address macs options d
        × (env.yaml_unmarshal new ≡ ok d)
  unfolding join_config with_management insert lookup or_empty
  cloud_init-Joins macs options new wraps reads reads' made updated =
      let parsed = base_read wraps reads made in
      let c = filled (join_config ip meta address) in
      let (managed, (text, marshalled, e)) =
        update_cloud_init-Managed env base macs options c new parsed updated in
      (
        filled (with_management c macs options),
        record {
          server = refl;
          token = refl;
          hostname = refl;
          password = refl;
          mode = refl;
          management = refl;
        },
        ap env.yaml_unmarshal e ∙ reads' text marshalled,
      )
