-- ===== src/Copies/Networks.antt =====
-- zz_generated_deepcopy.go, the copies of `InterfaceConfiguration` and `NetworkingConfiguration`.
use harvester_equinix_addon.Prelude.{refl, none, some, Option, List, [], ◌∷◌}
use harvester_equinix_addon.Api.{InterfaceConfiguration, NetworkingConfiguration}
use harvester_equinix_addon.Copies.Cells.{
  Address, InterfaceRef, NetworkingRef, Cell, open_interfaces, open_interface_configuration,
  open_networking_configuration,
}
use harvester_equinix_addon.Copies.Copier.{Copier, IsDeep}
use harvester_equinix_addon.Copies.Rules.{struct, struct-IsDeep}
use harvester_equinix_addon.Copies.Sequence.{sequence, sequence-IsDeep}
use harvester_equinix_addon.Copies.Box.{box, box-IsDeep}
use harvester_equinix_addon.Copies.Slices.{strings, strings-IsDeep}

-- What is seen of a slice: nil is the empty list.
abbrev pub or_nil : {A : Type 0} → Option (List A) → List A
or_nil none = []
or_nil (some xs) = xs

abbrev pub zero_interface : InterfaceRef
zero_interface = record { name = ""; vlan_ids = none }

abbrev pub zero_networking : NetworkingRef
zero_networking = record { kind = ""; interfaces = none }

abbrev zero_interfaces : List InterfaceRef → List InterfaceRef
zero_interfaces [] = []
zero_interfaces (x ∷ xs) = zero_interface ∷ zero_interfaces xs

module _ {F M N : Type 0} where
  -- `DeepCopyInto`: `*out = *in`, and then the fields that are references.
  abbrev pub copy_interface_configuration :
      InterfaceRef → List (Cell F M N) → InterfaceRef × List (Cell F M N)
  copy_interface_configuration i h =
      let (vlan_ids, h') = strings.copy i.vlan_ids h in (record i { vlan_ids = vlan_ids }, h')

  abbrev pub interface_configuration : Copier (Cell F M N) InterfaceRef InterfaceConfiguration
  interface_configuration =
      record (struct strings (λ i. i.vlan_ids) (λ i a. record i { vlan_ids = a })
        (λ i v. record { name = i.name; vlan_ids = or_nil v })) {
          copy = copy_interface_configuration;
        }

  pub interface_configuration-IsDeep : IsDeep interface_configuration
  interface_configuration-IsDeep =
      struct-IsDeep strings (λ i. i.vlan_ids) (λ i a. record i { vlan_ids = a })
        (λ i v. record { name = i.name; vlan_ids = or_nil v }) (λ r s. refl) (λ r s u. refl)
        strings-IsDeep

  -- `DeepCopy`
  abbrev pub interface_configuration_pointer :
      Copier (Cell F M N) Address (Option InterfaceConfiguration)
  interface_configuration_pointer =
      box interface_configuration Cell.interface_configuration open_interface_configuration
        (λ i. zero_interface)

  pub interface_configuration_pointer-IsDeep : IsDeep interface_configuration_pointer
  interface_configuration_pointer-IsDeep =
      box-IsDeep interface_configuration Cell.interface_configuration open_interface_configuration
        (λ i. zero_interface) interface_configuration-IsDeep (λ e. refl)

  abbrev interfaces : Copier (Cell F M N) Address (Option (List InterfaceConfiguration))
  interfaces =
      box (sequence interface_configuration) Cell.interfaces open_interfaces zero_interfaces

  interfaces-IsDeep : IsDeep interfaces
  interfaces-IsDeep =
      box-IsDeep (sequence interface_configuration) Cell.interfaces open_interfaces zero_interfaces
        (sequence-IsDeep interface_configuration interface_configuration-IsDeep) (λ e. refl)

  abbrev pub copy_networking_configuration :
      NetworkingRef → List (Cell F M N) → NetworkingRef × List (Cell F M N)
  copy_networking_configuration n h =
      let (interfaces, h') = interfaces.copy n.interfaces h in
      (record n { interfaces = interfaces }, h')

  abbrev pub networking_configuration : Copier (Cell F M N) NetworkingRef NetworkingConfiguration
  networking_configuration =
      record (struct interfaces (λ n. n.interfaces) (λ n a. record n { interfaces = a })
        (λ n v. record { kind = n.kind; interfaces = or_nil v })) {
          copy = copy_networking_configuration;
        }

  pub networking_configuration-IsDeep : IsDeep networking_configuration
  networking_configuration-IsDeep =
      struct-IsDeep interfaces (λ n. n.interfaces) (λ n a. record n { interfaces = a })
        (λ n v. record { kind = n.kind; interfaces = or_nil v }) (λ r s. refl) (λ r s u. refl)
        interfaces-IsDeep

  abbrev pub networking_configuration_pointer :
      Copier (Cell F M N) Address (Option NetworkingConfiguration)
  networking_configuration_pointer =
      box networking_configuration Cell.networking_configuration open_networking_configuration
        (λ n. zero_networking)

  pub networking_configuration_pointer-IsDeep : IsDeep networking_configuration_pointer
  networking_configuration_pointer-IsDeep =
      box-IsDeep networking_configuration Cell.networking_configuration
        open_networking_configuration (λ n. zero_networking) networking_configuration-IsDeep
        (λ e. refl)
