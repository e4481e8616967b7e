-- ===== src/Copies/PoolSpecs.antt =====
-- zz_generated_deepcopy.go, the copies of `InstancePoolSpec`.
use harvester_equinix_addon.Prelude.{String, false, refl, ap, ◌≡◌, ◌∙◌, none, some, Option, List}
use harvester_equinix_addon.Prelude.Int.{ℤ, pos}
use harvester_equinix_addon.Api.{StringMap, InstancePoolSpec, NetworkingConfiguration}
use harvester_equinix_addon.Copies.Cells.{
  Address, NetworkingRef, InstancePoolSpecRef, Cell, open_instance_pool_spec,
}
use harvester_equinix_addon.Copies.Copier.{Copier, IsDeep}
use harvester_equinix_addon.Copies.Rules.{
  pair, pair-IsDeep, plain, plain-IsDeep, struct, struct-IsDeep,
}
use harvester_equinix_addon.Copies.Box.{box, box-IsDeep}
use harvester_equinix_addon.Copies.Slices.{
  strings, strings-IsDeep, string_map, string_map-IsDeep, duration, duration-IsDeep,
}
use harvester_equinix_addon.Copies.Networks.{
  or_nil, zero_networking, networking_configuration, networking_configuration-IsDeep,
}

abbrev pub zero_instance_pool_spec : InstancePoolSpecRef
zero_instance_pool_spec = record {
  count = pos 0;
  billing_cycle = "";
  spot_instance = false;
  spot_price_max = "";
  custom_data = "";
  user_ssh_keys = none;
  project_ssh_keys = none;
  features = none;
  no_ssh_keys = false;
  management_interfaces = none;
  management_bonding_options = none;
  ipxe_script_url = "";
  iso_url = "";
  plan = "";
  metro = "";
  facility = none;
  node_cleanup_wait_interval = none;
  networking_configuration = zero_networking;
}

-- The fields that are copied one by one.
abbrev Fields : Type 0
Fields =
    String
    × (Address
        × (Address × (Address × (Address × (Address × (Address × (Address × NetworkingRef)))))))

abbrev fields_of : InstancePoolSpecRef → Fields
fields_of s = (
  s.spot_price_max,
  (
    s.user_ssh_keys,
    (
      s.project_ssh_keys,
      (
        s.features,
        (
          s.management_interfaces,
          (
            s.management_bonding_options,
            (s.facility, (s.node_cleanup_wait_interval, s.networking_configuration)),
          ),
        ),
      ),
    ),
  ),
)

abbrev with_fields : InstancePoolSpecRef → Fields → InstancePoolSpecRef
with_fields s (a, (b, (c, (d, (e, (f, (g, (i, j)))))))) = record s {
  spot_price_max = a;
  user_ssh_keys = b;
  project_ssh_keys = c;
  features = d;
  management_interfaces = e;
  management_bonding_options = f;
  facility = g;
  node_cleanup_wait_interval = i;
  networking_configuration = j;
}

abbrev Seen : Type 0
Seen =
    String
    × (Option (List String)
        × (Option (List String)
            × (Option StringMap
                × (Option (List String)
                    × (Option StringMap
                        × (Option (List String) × (Option ℤ × NetworkingConfiguration)))))))

-- The specification as it is seen, without its addresses.
abbrev seen_spec : InstancePoolSpecRef → Seen → InstancePoolSpec
seen_spec s (a, (b, (c, (d, (e, (f, (g, (i, j)))))))) = record {
  count = s.count;
  billing_cycle = s.billing_cycle;
  spot_instance = s.spot_instance;
  spot_price_max = a;
  custom_data = s.custom_data;
  user_ssh_keys = or_nil b;
  project_ssh_keys = or_nil c;
  features = or_nil d;
  no_ssh_keys = s.no_ssh_keys;
  management_interfaces = or_nil e;
  management_bonding_options = f;
  ipxe_script_url = s.ipxe_script_url;
  iso_url = s.iso_url;
  plan = s.plan;
  metro = s.metro;
  facility = or_nil g;
  node_cleanup_wait_interval = i;
  networking_configuration = j;
}

-- `resource.Quantity` has a `DeepCopy` of its own.
module _ (copy_quantity : String → String) where
  module _ {F M N : Type 0} where
    abbrev quantity : Copier (Cell F M N) String String
    quantity = plain (λ q. some q) copy_quantity

    -- `DeepCopyInto`
    unfoldable pub copy_instance_pool_spec :
        InstancePoolSpecRef → List (Cell F M N) → InstancePoolSpecRef × List (Cell F M N)
    copy_instance_pool_spec s h0 =
        let (user_ssh_keys, h1) = strings.copy s.user_ssh_keys h0 in
        let (project_ssh_keys, h2) = strings.copy s.project_ssh_keys h1 in
        let (features, h3) = string_map.copy s.features h2 in
        let (management_interfaces, h4) = strings.copy s.management_interfaces h3 in
        let (management_bonding_options, h5) = string_map.copy s.management_bonding_options h4 in
        let (facility, h6) = strings.copy s.facility h5 in
        let (node_cleanup_wait_interval, h7) = duration.copy s.node_cleanup_wait_interval h6 in
        let (networking, h8) = networking_configuration.copy s.networking_configuration h7 in
        (
          record s {
            spot_price_max = copy_quantity s.spot_price_max;
            user_ssh_keys = user_ssh_keys;
            project_ssh_keys = project_ssh_keys;
            features = features;
            management_interfaces = management_interfaces;
            management_bonding_options = management_bonding_options;
            facility = facility;
            node_cleanup_wait_interval = node_cleanup_wait_interval;
            networking_configuration = networking;
          },
          h8,
        )

    abbrev parts : Copier (Cell F M N) Fields Seen
    parts = pair quantity (
        pair strings (
          pair strings (
            pair string_map (
              pair strings
                (pair string_map (pair strings (pair duration networking_configuration)))))))

    abbrev pub instance_pool_spec : Copier (Cell F M N) InstancePoolSpecRef InstancePoolSpec
    instance_pool_spec = record (struct parts fields_of with_fields seen_spec) {
      copy = copy_instance_pool_spec;
    }

    -- `DeepCopy`
    abbrev pub instance_pool_spec_pointer : Copier (Cell F M N) Address (Option InstancePoolSpec)
    instance_pool_spec_pointer =
        box instance_pool_spec Cell.instance_pool_spec open_instance_pool_spec
          (λ s. zero_instance_pool_spec)

    module _ (quantities : (q : String) → copy_quantity q ≡ q) where
      quantity-IsDeep : IsDeep quantity
      quantity-IsDeep =
          plain-IsDeep (λ q. some q) copy_quantity (λ q u e. ap some (quantities q) ∙ e)

      parts-IsDeep : IsDeep parts
      parts-IsDeep = pair-IsDeep _ _ quantity-IsDeep (
          pair-IsDeep _ _ strings-IsDeep (
            pair-IsDeep _ _ strings-IsDeep (
              pair-IsDeep _ _ string_map-IsDeep (
                pair-IsDeep _ _ strings-IsDeep (
                  pair-IsDeep _ _ string_map-IsDeep (
                    pair-IsDeep _ _ strings-IsDeep
                      (pair-IsDeep _ _ duration-IsDeep networking_configuration-IsDeep)))))))

      pub instance_pool_spec-IsDeep : IsDeep instance_pool_spec
      unfolding copy_instance_pool_spec
      instance_pool_spec-IsDeep =
          struct-IsDeep parts fields_of with_fields seen_spec (λ r s. refl) (λ r s u. refl)
            parts-IsDeep

      pub instance_pool_spec_pointer-IsDeep : IsDeep instance_pool_spec_pointer
      instance_pool_spec_pointer-IsDeep =
          box-IsDeep instance_pool_spec Cell.instance_pool_spec open_instance_pool_spec
            (λ s. zero_instance_pool_spec) instance_pool_spec-IsDeep (λ e. refl)
