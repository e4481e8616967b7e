-- ===== src/Metal/CloudInit/Networks.antt =====
-- pkg/equinix/equinix.go, `updateCloudInit`: what it changes in a configuration.
use harvester_equinix_addon.Prelude.{
  String, ◌≡◌, refl, sym, ◌≢◌, ap, ◌∙◌, Option, none, some, List, [], ◌∷◌, arith,
}
use harvester_equinix_addon.Prelude.Text.{lookup, insert, eq_iff, eq_refl}
use harvester_equinix_addon.Api.{StringMap}
use harvester_equinix_addon.Harvester.{Network, HarvesterConfig}
use harvester_equinix_addon.Services.{Services, Result, ok, err}
use harvester_equinix_addon.Metal.CloudInit.{
  management_network, or_empty, with_management, cloud_config, update_cloud_init,
}

module _ {V : Type 0} where
  lookup-insert : (k : String) (v : V) (m : List (String × V)) → lookup k (insert k v m) ≡ some v
  unfolding lookup insert
  lookup-insert k v [] = ground (arith, eq_refl k)
  lookup-insert k v ((j, w) ∷ m) = ground (arith, eq_refl k, lookup-insert k v m)

  lookup-insert_other :
      (k : String) (v : V) (m : List (String × V)) (j : String)
      → j ≢ k
      → lookup j (insert k v m) ≡ lookup j m
  unfolding lookup insert
  lookup-insert_other k v [] j ne = ground (arith, eq_iff k j)
  lookup-insert_other k v ((i, w) ∷ m) j ne =
      ground (arith, eq_iff k j, eq_iff i k, eq_iff i j, lookup-insert_other k v m j ne)

-- The networks of a configuration; a missing map has none.
abbrev pub networks : HarvesterConfig → List (String × Network)
networks hc = elim hc.install.networks [ none ↦ [] | some n ↦ n ]

-- `d` is `c` but for its management network, which takes the addresses by DHCP.
pub record Managed (macs : List String) (options : Option StringMap) (c d : HarvesterConfig)
    : Type 0 where
  pub written : lookup "harvester-mgmt" (networks d) ≡ some (management_network macs options)
  pub others :
      (name : String)
      → name ≢ "harvester-mgmt"
      → lookup name (networks d) ≡ lookup name (networks c)
  pub rest : record d { install = record (d.install) { networks = c.install.networks } } ≡ c

or_empty-networks : (c : HarvesterConfig) → or_empty c.install.networks ≡ networks c
unfolding or_empty
or_empty-networks c = ground arith

with_management-Managed :
    (c : HarvesterConfig) (macs : List String) (options : Option StringMap)
    → Managed macs options c (with_management c macs options)
unfolding with_management
with_management-Managed c macs options = record {
  written = lookup-insert "harvester-mgmt" _ (or_empty c.install.networks);
  others = λ name ne.
      lookup-insert_other "harvester-mgmt" _ (or_empty c.install.networks) name ne
      ∙ ap (lookup name) (or_empty-networks c);
  rest = refl;
}

wrote :
    (r : Result String) (new : String)
    → (elim r [ err e ↦ err e | ok s ↦ ok (cloud_config s) ]) ≡ ok new
    → (text : String) × (r ≡ ok text) × (new ≡ cloud_config text)
wrote (ok s) new h = (s, refl, cc h)
wrote (err e) new h = cc

-- What is written into the new cloud-init of a configuration is the configuration with its management
-- network, and nothing else changed.
pub update_cloud_init-Managed :
    {W : Type 0} (env : Services W) (base : String) (macs : List String)
    (options : Option StringMap) (c : HarvesterConfig) (new : String)
    → env.yaml_unmarshal base ≡ ok c
    → update_cloud_init env base macs options ≡ ok new
    → Managed macs options c (with_management c macs options)
      × ((text : String) × (env.yaml_marshal (with_management c macs options) ≡ ok text)
          × (new ≡ cloud_config text))
unfolding update_cloud_init
update_cloud_init-Managed env base macs options c new parsed done = (
  with_management-Managed c macs options,
  wrote (env.yaml_marshal (with_management c macs options)) new (
      ap
        (λ r. elim r [
          | err e ↦ err e
          | ok hc ↦ elim (env.yaml_marshal (with_management hc macs options)) [
            | err e ↦ err e
            | ok s ↦ ok (cloud_config s)
          ]
        ])
        (sym parsed)
      ∙ done),
)
