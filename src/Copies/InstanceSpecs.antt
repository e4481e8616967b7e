-- ===== src/Copies/InstanceSpecs.antt =====
-- zz_generated_deepcopy.go, the copies of `InstanceSpec`.
use harvester_equinix_addon.Prelude.{String, false, refl, ap, ◌≡◌, ◌∙◌, none, some, Option, List}
use harvester_equinix_addon.Prelude.Int.{ℤ, pos}
use harvester_equinix_addon.Api.{StringMap, InstanceSpec, NetworkingConfiguration}
use harvester_equinix_addon.Copies.Cells.{
  Address, NetworkingRef, InstanceSpecRef, Cell, open_instance_spec,
}
use harvester_equinix_addon.Copies.Copier.{Copier, IsDeep}
use harvester_equinix_addon.Copies.Rules.{
  pair, pair-IsDeep, plain, plain-IsDeep, struct, struct-IsDeep,
}
use harvester_equinix_addon.Copies.Box.{box, box-IsDeep}
use harvester_equinix_addon.Copies.Slices.{
  strings, strings-IsDeep, string_map, string_map-IsDeep, duration, duration-IsDeep,
}
use harvester_equinix_addon.Copies.Networks.{
  or_nil, zero_networking, networking_configuration, networking_configuration-IsDeep,
}

abbrev pub zero_instance_spec : InstanceSpecRef
zero_instance_spec = record {
  plan = "";
  facility = none;
  metro = "";
  os = "";
  billing_cycle = "";
  project_id = "";
  user_data = "";
  tags = none;
  description = "";
  ipxe_script_url = "";
  public_ipv4_subnet_size = pos 0;
  always_pxe = false;
  hardware_reservation_id = "";
  spot_instance = false;
  spot_price_max = "";
  custom_data = "";
  user_ssh_keys = none;
  project_ssh_keys = none;
  features = none;
  no_ssh_keys = false;
  node_cleanup_wait_interval = none;
  management_interfaces = none;
  management_bonding_options = none;
  networking_configuration = zero_networking;
}

-- The fields that are copied one by one.
abbrev Fields : Type 0
Fields =
    Address
    × (Address
        × (String
            × (Address
                × (Address × (Address × (Address × (Address × (Address × NetworkingRef))))))))

abbrev fields_of : InstanceSpecRef → Fields
fields_of s = (
  s.facility,
  (
    s.tags,
    (
      s.spot_price_max,
      (
        s.user_ssh_keys,
        (
          s.project_ssh_keys,
          (
            s.features,
            (
              s.node_cleanup_wait_interval,
              (s.management_interfaces, (s.management_bonding_options, s.networking_configuration)),
            ),
          ),
        ),
      ),
    ),
  ),
)

abbrev with_fields : InstanceSpecRef → Fields → InstanceSpecRef
with_fields s (a, (b, (c, (d, (e, (f, (g, (i, (j, k))))))))) = record s {
  facility = a;
  tags = b;
  spot_price_max = c;
  user_ssh_keys = d;
  project_ssh_keys = e;
  features = f;
  node_cleanup_wait_interval = g;
  management_interfaces = i;
  management_bonding_options = j;
  networking_configuration = k;
}

abbrev Seen : Type 0
Seen =
    Option (List String)
    × (Option (List String)
        × (String
            × (Option (List String)
                × (Option (List String)
                    × (Option StringMap
                        × (Option ℤ
                            × (Option (List String)
                                × (Option StringMap × NetworkingConfiguration))))))))

-- The specification as it is seen, without its addresses.
abbrev seen_spec : InstanceSpecRef → Seen → InstanceSpec
seen_spec s (a, (b, (c, (d, (e, (f, (g, (i, (j, k))))))))) = record {
  plan = s.plan;
  facility = or_nil a;
  metro = s.metro;
  os = s.os;
  billing_cycle = s.billing_cycle;
  project_id = s.project_id;
  user_data = s.user_data;
  tags = or_nil b;
  description = s.description;
  ipxe_script_url = s.ipxe_script_url;
  public_ipv4_subnet_size = s.public_ipv4_subnet_size;
  always_pxe = s.always_pxe;
  hardware_reservation_id = s.hardware_reservation_id;
  spot_instance = s.spot_instance;
  spot_price_max = c;
  custom_data = s.custom_data;
  user_ssh_keys = or_nil d;
  project_ssh_keys = or_nil e;
  features = or_nil f;
  no_ssh_keys = s.no_ssh_keys;
  node_cleanup_wait_interval = g;
  management_interfaces = or_nil i;
  management_bonding_options = j;
  networking_configuration = k;
}

-- `resource.Quantity` has a `DeepCopy` of its own.
module _ (copy_quantity : String → String) where
  module _ {F M N : Type 0} where
    abbrev quantity : Copier (Cell F M N) String String
    quantity = plain (λ q. some q) copy_quantity

    -- `DeepCopyInto`
    unfoldable pub copy_instance_spec :
        InstanceSpecRef → List (Cell F M N) → InstanceSpecRef × List (Cell F M N)
    copy_instance_spec s h0 =
        let (facility, h1) = strings.copy s.facility h0 in
        let (tags, h2) = strings.copy s.tags h1 in
        let (user_ssh_keys, h3) = strings.copy s.user_ssh_keys h2 in
        let (project_ssh_keys, h4) = strings.copy s.project_ssh_keys h3 in
        let (features, h5) = string_map.copy s.features h4 in
        let (node_cleanup_wait_interval, h6) = duration.copy s.node_cleanup_wait_interval h5 in
        let (management_interfaces, h7) = strings.copy s.management_interfaces h6 in
        let (management_bonding_options, h8) = string_map.copy s.management_bonding_options h7 in
        let (networking, h9) = networking_configuration.copy s.networking_configuration h8 in
        (
          record s {
            facility = facility;
            tags = tags;
            spot_price_max = copy_quantity s.spot_price_max;
            user_ssh_keys = user_ssh_keys;
            project_ssh_keys = project_ssh_keys;
            features = features;
            node_cleanup_wait_interval = node_cleanup_wait_interval;
            management_interfaces = management_interfaces;
            management_bonding_options = management_bonding_options;
            networking_configuration = networking;
          },
          h9,
        )

    abbrev parts : Copier (Cell F M N) Fields Seen
    parts = pair strings (
        pair strings (
          pair quantity (
            pair strings (
              pair strings (
                pair string_map
                  (pair duration (pair strings (pair string_map networking_configuration))))))))

    abbrev pub instance_spec : Copier (Cell F M N) InstanceSpecRef InstanceSpec
    instance_spec = record (struct parts fields_of with_fields seen_spec) {
      copy = copy_instance_spec;
    }

    -- `DeepCopy`
    abbrev pub instance_spec_pointer : Copier (Cell F M N) Address (Option InstanceSpec)
    instance_spec_pointer =
        box instance_spec Cell.instance_spec open_instance_spec (λ s. zero_instance_spec)

    module _ (quantities : (q : String) → copy_quantity q ≡ q) where
      quantity-IsDeep : IsDeep quantity
      quantity-IsDeep =
          plain-IsDeep (λ q. some q) copy_quantity (λ q u e. ap some (quantities q) ∙ e)

      parts-IsDeep : IsDeep parts
      parts-IsDeep = pair-IsDeep _ _ strings-IsDeep (
          pair-IsDeep _ _ strings-IsDeep (
            pair-IsDeep _ _ quantity-IsDeep (
              pair-IsDeep _ _ strings-IsDeep (
                pair-IsDeep _ _ strings-IsDeep (
                  pair-IsDeep _ _ string_map-IsDeep (
                    pair-IsDeep _ _ duration-IsDeep (
                      pair-IsDeep _ _ strings-IsDeep
                        (pair-IsDeep _ _ string_map-IsDeep networking_configuration-IsDeep))))))))

      pub instance_spec-IsDeep : IsDeep instance_spec
      unfolding copy_instance_spec
      instance_spec-IsDeep =
          struct-IsDeep parts fields_of with_fields seen_spec (λ r s. refl) (λ r s u. refl)
            parts-IsDeep

      pub instance_spec_pointer-IsDeep : IsDeep instance_spec_pointer
      instance_spec_pointer-IsDeep =
          box-IsDeep instance_spec Cell.instance_spec open_instance_spec (λ s. zero_instance_spec)
            instance_spec-IsDeep (λ e. refl)
