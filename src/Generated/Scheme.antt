-- ===== src/Generated/Scheme.antt =====
-- pkg/apis/equinix.harvesterhci.io, zz_generated_register.go and v1/zz_generated_register.go: the names
-- under which the types are known; and the constructors of v1/zz_generated_list_types.go.
use harvester_equinix_addon.Prelude.{String, Option, none, List, [], ◌∷◌}
use harvester_equinix_addon.Api.{Instance, InstancePool}
use harvester_equinix_addon.Services.{Error}
use harvester_equinix_addon.Setup.Crd.{GroupVersionKind}
use harvester_equinix_addon.Generated.Objects.{Stored, Resource}
use harvester_equinix_addon.Generated.Client.{GroupResource}
use harvester_equinix_addon.Generated.Resources.{instance_resource, instance_pool_resource}

abbrev pub group_name : String
group_name = "equinix.harvesterhci.io"

abbrev pub instance_resource_name : String
instance_resource_name = "instances"

abbrev pub instance_pool_resource_name : String
instance_pool_resource_name = "instancepools"

pub record GroupVersion : Type 0 where
  pub group : String
  pub version : String

pub record GroupKind : Type 0 where
  pub group : String
  pub kind : String

abbrev pub scheme_group_version : GroupVersion
scheme_group_version = record { group = group_name; version = "v1" }

-- `GroupVersion.WithKind`
abbrev pub with_kind : GroupVersion → String → GroupVersionKind
with_kind gv kind = record { group = gv.group; version = gv.version; kind = kind }

unfoldable pub group_kind : String → GroupKind
group_kind kind = record { group = (with_kind scheme_group_version kind).group; kind = kind }

unfoldable pub group_resource : String → GroupResource
group_resource resource = record { group = scheme_group_version.group; resource = resource }

-- The types of which an empty object is added to a scheme.
pub data KnownType : Type 0 where
  instance instance_list instance_pool instance_pool_list : KnownType

-- The scheme `S` of Kubernetes.
pub record SchemeLibrary (S : Type 0) : Type 0 where
  pub add_known_types : GroupVersion → List KnownType → S → S
  pub add_to_group_version : GroupVersion → S → S
  -- `NewSchemeBuilder` with its `AddToScheme`
  pub build : List (S → Option Error × S) → S → Option Error × S

module _ {S : Type 0} (lib : SchemeLibrary S) where
  unfoldable pub add_known_types : S → Option Error × S
  add_known_types scheme =
      let known =
        lib.add_known_types scheme_group_version
          (KnownType.instance ∷ KnownType.instance_list ∷ KnownType.instance_pool
            ∷ KnownType.instance_pool_list ∷ [])
          scheme in
      (none, lib.add_to_group_version scheme_group_version known)

  -- `AddToScheme`
  unfoldable pub add_to_scheme : S → Option Error × S
  unfolding add_known_types
  add_to_scheme scheme = lib.build (add_known_types ∷ []) scheme

  -- `init` of pkg/generated/controllers/equinix.harvesterhci.io/v1/interface.go, on what `schemes` holds.
  unfoldable pub init_schemes : {W : Type 0} → ((S → Option Error × S) → W → W) → W → W
  unfolding add_to_scheme
  init_schemes register w = register add_to_scheme w

-- `ToAPIVersionAndKind` gives the version as one text, and the kind.
module _ (to_api_version : GroupVersionKind → String) where
  abbrev named : {O T : Type 0} → Resource O T → String → String → String → Stored O → Stored O
  named r kind namespace name obj = record {
    type_meta = record {
      kind = kind;
      api_version = to_api_version (with_kind scheme_group_version kind);
    };
    namespace = namespace;
    resource_version = obj.resource_version;
    object = r.with_name name obj.object;
  }

  unfoldable pub new_instance : String → String → Stored Instance → Stored Instance
  new_instance namespace name obj = named instance_resource "Instance" namespace name obj

  unfoldable pub new_instance_pool : String → String → Stored InstancePool → Stored InstancePool
  new_instance_pool namespace name obj =
      named instance_pool_resource "InstancePool" namespace name obj
