-- ===== src/Generated/Factory.antt =====
-- pkg/generated/controllers/equinix.harvesterhci.io, factory.go and the two files interface.go.
use harvester_equinix_addon.Prelude.{String, false, Option, none, some}
use harvester_equinix_addon.Api.{Instance, InstancePool}
use harvester_equinix_addon.Services.{Exit, returned, panicked}
use harvester_equinix_addon.Setup.Crd.{GroupVersionKind}
use harvester_equinix_addon.Generated.Objects.{Answer}
use harvester_equinix_addon.Generated.Client.{
  Factory as ControllerFactory, Controller, new_controller,
}

-- `generic.Factory` is `G`, a configuration `C`, the options `Y`, and a controller factory `H`.
pub record FactoryLibrary (G C Y H : Type 0) : Type 0 where
  -- `generic.NewFactoryFromConfigWithOptions`, of which the factory may be nil.
  pub new_factory : C → Option Y → Answer (Option G)
  -- `&FactoryOptions{Namespace: namespace}`
  pub with_namespace : String → Y
  pub controller_factory : G → H

-- `Factory` embeds a pointer to the generic one.
pub record Factory (G : Type 0) : Type 0 where
  pub factory : Option G

-- `group`, and `version`.
pub record Group (H : Type 0) : Type 0 where
  pub controller_factory : H

pub record Version (H : Type 0) : Type 0 where
  pub controller_factory : H

module _ {G C Y H : Type 0} (lib : FactoryLibrary G C Y H) where
  unfoldable pub new_factory_from_config_with_options : C → Option Y → Answer (Factory G)
  new_factory_from_config_with_options config opts =
      let (f, err) = lib.new_factory config opts in (record { factory = f }, err)

  unfoldable pub new_factory_from_config : C → Answer (Factory G)
  unfolding new_factory_from_config_with_options
  new_factory_from_config config = new_factory_from_config_with_options config none

  unfoldable pub new_factory_from_config_with_namespace : C → String → Answer (Factory G)
  unfolding new_factory_from_config_with_options
  new_factory_from_config_with_namespace config namespace =
      new_factory_from_config_with_options config (some (lib.with_namespace namespace))

  abbrev or_panic : {A : Type 0} → Answer A → Exit A
  or_panic (a, none) = returned a
  or_panic (a, some err) = panicked

  unfoldable pub new_factory_from_config_or_die : C → Exit (Factory G)
  unfolding new_factory_from_config
  new_factory_from_config_or_die config = or_panic (new_factory_from_config config)

  unfoldable pub new_factory_from_config_with_options_or_die : C → Option Y → Exit (Factory G)
  unfolding new_factory_from_config_with_options
  new_factory_from_config_with_options_or_die config opts =
      or_panic (new_factory_from_config_with_options config opts)

  -- `New` of interface.go
  abbrev pub new_group : H → Group H
  new_group controller_factory = record { controller_factory = controller_factory }

  -- A factory without a generic one panics.
  unfoldable pub equinix : Factory G → Exit (Group H)
  equinix c = elim c.factory [
    | none ↦ panicked
    | some f ↦ returned (new_group (lib.controller_factory f))
  ]

-- `New` of v1/interface.go, and `V1`.
abbrev pub new_version : {H : Type 0} → H → Version H
new_version controller_factory = record { controller_factory = controller_factory }

abbrev pub v1 : {H : Type 0} → Group H → Version H
v1 g = new_version g.controller_factory

abbrev pub instance_gvk : GroupVersionKind
instance_gvk = record { group = "equinix.harvesterhci.io"; version = "v1"; kind = "Instance" }

abbrev pub instance_pool_gvk : GroupVersionKind
instance_pool_gvk = record {
  group = "equinix.harvesterhci.io";
  version = "v1";
  kind = "InstancePool";
}

-- What a shared factory of controllers makes, for objects of the two types.
pub record Factories (L M X V D W : Type 0) : Type 0 where
  pub instances : ControllerFactory Instance L X V D W
  pub instance_pools : ControllerFactory InstancePool M X V D W

module _ {L M X V D W : Type 0} where
  unfoldable pub instance_controller :
      Version (Factories L M X V D W) → W → Controller Instance L X V D W × W
  unfolding new_controller
  instance_controller c w =
      new_controller instance_gvk "instances" false c.controller_factory.instances w

  unfoldable pub instance_pool_controller :
      Version (Factories L M X V D W) → W → Controller InstancePool M X V D W × W
  unfolding new_controller
  instance_pool_controller c w =
      new_controller instance_pool_gvk "instancepools" false c.controller_factory.instance_pools w
