-- ===== src/InstanceController/Lifecycle/Creation.antt =====
-- pkg/controllers/instance/instance.go, `submitRequest`, and pkg/equinix/equinix.go, `CreateNewDevice`:
-- the device of a new instance.
use harvester_equinix_addon.Prelude.{◌≡◌, Option, none, some, [], ◌∷◌, arith}
use harvester_equinix_addon.Api.{Instance}
use harvester_equinix_addon.Services.{
  Services, Error, Device, ok, err, Call, State, returned, statements,
}
use harvester_equinix_addon.Metal.Devices.{generate_device_creation_request, create_new_device}
use harvester_equinix_addon.InstanceController.Lifecycle.{
  finalizer, annotated_client, set_finalizers, set_status, submit_request,
}

module _ {W : Type 0} (env : Services W) (i : Instance) (s : State W) where
  abbrev pub creation : Call
  creation =
      Call.device_create (annotated_client i)
        (generate_device_creation_request env (annotated_client i) i)

  -- The instance that knows its device.
  abbrev pub with_device : Device → Instance
  with_device d = set_status (record (i.status) { instance_id = d.id; status = d.state }) i

  -- The state of the outside after the creation.
  abbrev pub created_world : W
  created_world = (env.perform creation s.world).1

  abbrev pub recorded : Device → (Instance × Option Error) × W
  recorded d = env.perform (Call.instance_update_status (with_device d)) created_world

  -- The device is created first. An error of that, as it is wrapped, is returned with the instance as it
  -- was. Then the status is written with the identifier and the state of the device, and an error of
  -- that is returned: the device is there, and no finalizer. Only then is the finalizer set, on the
  -- object that came back.
  pub submit_request_lem :
      ((e wrapped : Error)
        → (env.perform creation s.world).0 ≡ err e
        → env.errors_wrap (some e) "error during device creation" ≡ some wrapped
        → ((submit_request env i s).0 ≡ returned (i, some wrapped))
          × ((submit_request env i s).1.calls ≡ creation ∷ s.calls))
      × ((d : Device) (j : Instance) (e : Error)
          → (env.perform creation s.world).0 ≡ ok d
          → (recorded d).0 ≡ (j, some e)
          → ((submit_request env i s).0 ≡ returned (j, some e))
            × ((submit_request env i s).1.calls
                ≡ Call.instance_update_status (with_device d) ∷ creation ∷ s.calls))
      × ((d : Device) (j : Instance)
          → (env.perform creation s.world).0 ≡ ok d
          → (recorded d).0 ≡ (j, none)
          → let update = Call.instance_update (set_finalizers (finalizer ∷ []) j) in
            ((submit_request env i s).0 ≡ returned (env.perform update (recorded d).1).0)
            × ((submit_request env i s).1.calls
                ≡ update ∷ Call.instance_update_status (with_device d) ∷ creation ∷ s.calls))
  unfolding submit_request create_new_device statements
  submit_request_lem =
      (λ e wrapped h k. ground arith, λ d j e h k. ground arith, λ d j h k. ground arith)
