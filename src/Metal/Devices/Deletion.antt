-- ===== src/Metal/Devices/Deletion.antt =====
-- pkg/equinix/equinix.go, `DeleteDevice` and `deviceExists`.
use harvester_equinix_addon.Prelude.{
  String, ◌≡◌, refl, ◌≢◌, ◌⊎◌, inr, true, false, none, some, List, [], ◌∷◌, arith,
}
use harvester_equinix_addon.Prelude.Text.{eq_iff}
use harvester_equinix_addon.Api.{Instance}
use harvester_equinix_addon.Services.{
  Services, Error, Device, MetalClient, ok, err, Call, State, returned, statements,
}
use harvester_equinix_addon.Metal.Devices.{has_device, delete_device}

-- Some device of the list has the identifier.
abbrev pub Listed : String → List Device → Type 0
Listed id [] = ⊥
Listed id (d ∷ ds) = (d.id ≡ id) ⊎ Listed id ds

has_device_of_Listed : (id : String) (ds : List Device) → Listed id ds → has_device id ds ≡ true
unfolding has_device
has_device_of_Listed id [] h = absurd h
has_device_of_Listed id (d ∷ ds) h = ground (arith, eq_iff d.id id, has_device_of_Listed id ds)

has_device_of_not_Listed :
    (id : String) (ds : List Device) → ¬ (Listed id ds) → has_device id ds ≡ false
unfolding has_device
has_device_of_not_Listed id [] h = refl
has_device_of_not_Listed id (d ∷ ds) h =
    ground (arith, eq_iff d.id id, has_device_of_not_Listed id ds (λ k. h (inr k)))

module _ {W : Type 0} (env : Services W) (m : MetalClient) (i : Instance) (s : State W) where
  abbrev listed_call : Call
  listed_call = Call.device_list m m.project_id

  abbrev delete_call : Call
  delete_call = Call.device_delete m i.status.instance_id true

  -- An instance that has no device yet needs no call. Otherwise the devices of the project are
  -- listed, an error of the list is returned, and the device is deleted exactly if it is listed.
  pub delete_device_lem :
      (i.status.instance_id ≡ "" → delete_device env m i s ≡ (returned none, s))
      × ((e : Error)
          → i.status.instance_id ≢ ""
          → (env.perform listed_call s.world).0 ≡ err e
          → ((delete_device env m i s).0 ≡ returned (some e))
            × ((delete_device env m i s).1.calls ≡ listed_call ∷ s.calls))
      × ((ds : List Device)
          → i.status.instance_id ≢ ""
          → (env.perform listed_call s.world).0 ≡ ok ds
          → (Listed i.status.instance_id ds
              → ((delete_device env m i s).0
                  ≡ returned (env.perform delete_call (env.perform listed_call s.world).1).0)
                × ((delete_device env m i s).1.calls ≡ delete_call ∷ listed_call ∷ s.calls))
            × (¬ (Listed i.status.instance_id ds)
                → ((delete_device env m i s).0 ≡ returned none)
                  × ((delete_device env m i s).1.calls ≡ listed_call ∷ s.calls)))
  unfolding delete_device statements
  delete_device_lem =
      let test = eq_iff i.status.instance_id "" in
      (
        λ blank. ground (arith, test),
        λ e ne h. ground (arith, test),
        λ ds ne h. (
          λ l. ground (arith, test, has_device_of_Listed i.status.instance_id ds l),
          λ l. ground (arith, test, has_device_of_not_Listed i.status.instance_id ds l),
        ),
      )
