-- ===== src/InstanceController/Lifecycle/Transitions.antt =====
-- pkg/controllers/instance/instance.go: the state machine of an instance, and what the controller may
-- call in each of its states.
use harvester_equinix_addon.Prelude.{
  String, ◌≡◌, refl, ◌⊎◌, true, false, ◌||◌, Option, some, [], ◌∷◌, arith,
}
use harvester_equinix_addon.Prelude.Text.{◌==◌, ◌!=◌, eq_iff}
use harvester_equinix_addon.Api.{Instance, InstanceStatus}
use harvester_equinix_addon.Services.{
  Services, Error, ok, err, Call, OnlyFunc, pure-Only, if-Only, if_cases-Only, if_cases-OnlyFunc,
  option-Only, leave_on_then-Only, leave_on-Only, bind-Only, bind-Yields-Only, invoke-Only,
  body-Only, run-Only, run-Yields,
}
use harvester_equinix_addon.Metal.Network.Calls.{Ports}
use harvester_equinix_addon.Metal.Devices.Calls.{
  create_new_device-Only, check_device_status-Only, reinstall_device-Only,
}
use harvester_equinix_addon.Metal.Devices.Results.{
  Unless, request_hostname, check_device_status-Yields, reinstall_device-Yields,
}
use harvester_equinix_addon.InstanceController.Lifecycle.{
  finalizer, two_minutes, annotated_client, set_finalizers, set_status, submit_request,
  check_status, reinstall, manage_nodes, dispatch, on_instance_change,
}

abbrev pub IsPending : InstanceStatus → Type 0
IsPending a = (a.status ≡ "submitted") ⊎ (a.status ≡ "queued")

-- The edges of the state machine: from the status of an instance to the next status written.
pub data Edge (a b : InstanceStatus) : Type 0 where
  created : a.status ≡ "" → Edge a b
  reinstalled : IsPending a → b ≡ record a { status = "reinstalling" } → Edge a b
  activated :
      a.status ≡ "reinstalling" → b.status ≡ "ready" → b.instance_id ≡ a.instance_id → Edge a b
  joined : a.status ≡ "ready" → b ≡ record a { status = "managed" } → Edge a b

-- What may be called for the instance `i`: devices are created only for a new instance, ports are
-- changed and devices updated and reinstalled only while it is pending, and its status is written
-- only along an edge, on an object that is `i` otherwise.
abbrev pub Allowed : Instance → Call → Type 0
Allowed i (Call.device_create m r) =
    (i.status.status ≡ "") × (m ≡ annotated_client i) × (r.hostname ≡ i.meta.name)
Allowed i (Call.device_get m id) = id ≡ i.status.instance_id
Allowed i (Call.device_list m project) = ⊥
Allowed i (Call.device_delete m id force) = ⊥
Allowed i (Call.device_update m id r) = IsPending i.status × (id ≡ i.status.instance_id)
Allowed i (Call.device_reinstall m id r) = IsPending i.status × (id ≡ i.status.instance_id)
Allowed i (Call.port_assign m port vlan) = IsPending i.status
Allowed i (Call.port_bond m port bulk) = IsPending i.status
Allowed i (Call.port_disbond m port bulk) = IsPending i.status
Allowed i (Call.port_to_layer_two m port) = IsPending i.status
Allowed i (Call.port_to_layer_three m port rs) = IsPending i.status
Allowed i (Call.instance_get name) = ⊥
Allowed i (Call.instance_delete name) = ⊥
Allowed i (Call.instance_enqueue name) = ⊥
Allowed i (Call.instance_list selector) = ⊥
Allowed i (Call.instance_create j) = ⊥
Allowed i (Call.instance_update j) = (i.status.status ≡ "") × (j.meta.finalizers ≡ finalizer ∷ [])
Allowed i (Call.instance_update_status j) =
    (j.meta ≡ i.meta) × (j.spec ≡ i.spec) × Edge i.status j.status
Allowed i (Call.instance_enqueue_after name d) = Unit
Allowed i (Call.node_enqueue_after name d) = ⊥
Allowed i (Call.node_get name) = (i.status.status ≡ "ready") × (name ≡ i.meta.name)
Allowed i (Call.node_delete name) = ⊥
Allowed i (Call.node_list selector) = ⊥
Allowed i (Call.pool_update_status p) = ⊥
Allowed i (Call.secret_get namespace name) = ⊥
Allowed i (Call.service_get namespace name) = ⊥
Allowed i Call.now = ⊥
Allowed i (Call.rand_intn n) = ⊥
Allowed i (Call.rand_seed t) = ⊥

not-not-eq : (s t : String) → (s != t) ≡ false → s ≡ t
not-not-eq s t h = ground (arith, eq_iff s t)

==→eq : (s t : String) → (s == t) ≡ true → s ≡ t
==→eq s t = (eq_iff s t).0

pending :
    (a : InstanceStatus) → (a.status == "submitted" || a.status == "queued") ≡ true → IsPending a
pending a h = ground (arith, eq_iff a.status "submitted", eq_iff a.status "queued")

module _ {W : Type 0} (env : Services W) (i : Instance) where
  ports-Allowed : IsPending i.status → Ports (annotated_client i) (Allowed i)
  ports-Allowed h = record {
    may_bond = λ id bulk. h;
    may_disbond = λ id bulk. h;
    may_layer_two = λ id. h;
    may_layer_three = λ id rs. h;
    may_assign = λ id vlan. h;
  }

  submit_request-Allowed : i.status.status ≡ "" → OnlyFunc (Allowed i) (submit_request env i)
  unfolding submit_request
  submit_request-Allowed h = body-Only (
      bind-Only (run-Only (create_new_device-Only env _ i (h, refl, request_hostname env _ i))) λ r.
        bind-Only (leave_on-Only r.1 _) λ _.
          bind-Only
            (invoke-Only env (Call.instance_update_status (set_status r.0 i))
              (refl, refl, Edge.created h))
            λ u. bind-Only (leave_on-Only u.1 _) λ _.
              invoke-Only {P = Allowed i} env
                (Call.instance_update (set_finalizers (finalizer ∷ []) u.0)) (h, refl))

  -- Which results `CheckDeviceStatus` and `ReInstallDevice` give without an error.
  abbrev SameDevice : InstanceStatus × Option Error → Type 0
  SameDevice = Unless (λ st. st.instance_id ≡ i.status.instance_id)

  abbrev Reinstalled : InstanceStatus × Option Error → Type 0
  Reinstalled = Unless (λ st. st ≡ record (i.status) { status = "reinstalling" })

  check_status-Allowed :
      (key : String)
      → i.status.status ≡ "reinstalling"
      → OnlyFunc (Allowed i) (check_status env key i)
  unfolding check_status
  check_status-Allowed key h = body-Only (
      bind-Yields-Only SameDevice
        (run-Only (check_device_status-Only env (annotated_client i) i refl))
        (run-Yields (check_device_status-Yields env (annotated_client i) i))
        λ r same. leave_on_then-Only r.1 _ _ λ fine.
          if_cases-Only (r.0.status != "ready")
            (λ _.
              bind-Only (invoke-Only env (Call.instance_enqueue_after key two_minutes) tt)
                (λ _. pure-Only _))
            (λ e.
              invoke-Only env (Call.instance_update_status (set_status r.0 i))
                (refl, refl, Edge.activated h (not-not-eq _ _ e) (same fine))))

  reinstall-Allowed :
      (key : String) → IsPending i.status → OnlyFunc (Allowed i) (reinstall env key i)
  unfolding reinstall
  reinstall-Allowed key h = body-Only (
      bind-Only (run-Only (check_device_status-Only env (annotated_client i) i refl)) λ r.
        bind-Only (leave_on-Only r.1 _) λ _.
          if-Only (r.0.status != "ready")
            (bind-Only (invoke-Only env (Call.instance_enqueue_after key two_minutes) tt)
              (λ _. pure-Only _))
            (bind-Yields-Only Reinstalled
              (run-Only (
                reinstall_device-Only env (annotated_client i) i (ports-Allowed h) refl
                  (λ _. (h, refl)) (λ _. (h, refl))))
              (run-Yields (reinstall_device-Yields env (annotated_client i) i))
              λ u done. leave_on_then-Only u.1 _ _ λ fine.
                invoke-Only env (Call.instance_update_status (set_status u.0 i))
                  (refl, refl, Edge.reinstalled h (done fine))))

  manage_nodes-Allowed : i.status.status ≡ "ready" → OnlyFunc (Allowed i) (manage_nodes env i)
  unfolding manage_nodes
  manage_nodes-Allowed h = body-Only (
      bind-Only (invoke-Only env (Call.node_get i.meta.name) (h, refl)) elim [
        | err e ↦ pure-Only _
        | ok node ↦
            invoke-Only env
              (Call.instance_update_status
                (set_status (record (i.status) { status = "managed" }) i))
              (refl, refl, Edge.joined h refl)
      ])

  dispatch-Allowed : (key : String) → OnlyFunc (Allowed i) (dispatch env key i)
  unfolding dispatch
  dispatch-Allowed key =
      if_cases-OnlyFunc (i.status.status == "") (λ e. submit_request-Allowed (==→eq _ _ e))
        λ _.
          if_cases-OnlyFunc (i.status.status == "submitted" || i.status.status == "queued")
            (λ e. reinstall-Allowed key (pending i.status e))
            λ _.
              if_cases-OnlyFunc (i.status.status == "reinstalling")
                (λ e. check_status-Allowed key (==→eq _ _ e))
                λ _.
                  if_cases-OnlyFunc (i.status.status == "ready")
                    (λ e. manage_nodes-Allowed (==→eq _ _ e)) (λ _. body-Only (pure-Only _))

-- A change of an instance leads only to calls that its state allows.
pub change-Allowed :
    {W : Type 0} (env : Services W) (key : String) (i : Instance)
    → OnlyFunc (Allowed i) (on_instance_change env key (some i))
unfolding on_instance_change
change-Allowed env key i = body-Only (
    option-Only i.meta.deletion_timestamp (λ t. pure-Only _)
      (bind-Only (run-Only (dispatch-Allowed env i key)) (λ r. pure-Only _)))
