-- ===== src/Controllers/Justified.antt =====
-- pkg/controllers: what stands behind each call that the program makes, whatever the event.
use harvester_equinix_addon.Prelude.{◌≡◌, ◌≢◌, some, ◌⊎◌, inl, inr, none, [], ◌∷◌, true, false}
use harvester_equinix_addon.Api.{Instance, InstancePool}
use harvester_equinix_addon.Services.{Node, Call}
use harvester_equinix_addon.Controllers.{Event}
use harvester_equinix_addon.Util.{contains_finalizer}
use harvester_equinix_addon.InstanceController.Lifecycle.{finalizer, annotated_client}
use harvester_equinix_addon.InstanceController.Lifecycle.Transitions.{Allowed, IsPending, Edge}
use harvester_equinix_addon.InstanceController.Removal.{removal_client}
use harvester_equinix_addon.InstanceController.Removal.Calls.{Removing, IsLeaving}
use harvester_equinix_addon.InstanceController.Nodes.Calls.{Resolving}
use harvester_equinix_addon.PoolController.Submit.Created.{MadeFor, Submitting}
use harvester_equinix_addon.PoolController.Dispatch.Calls.{SamePool, Keeping}

-- The objects that an event hands to the program.
abbrev pub HandsInstance : Event → Instance → Type 0
HandsInstance (Event.instance_change key (some j)) i = i ≡ j
HandsInstance (Event.instance_remove (some j)) i = i ≡ j
HandsInstance _ i = ⊥

abbrev pub HandsPool : Event → InstancePool → Type 0
HandsPool (Event.pool_change (some p)) ip = ip ≡ p
HandsPool _ ip = ⊥

abbrev pub HandsNode : Event → Node → Type 0
HandsNode (Event.node_change (some m)) n = n ≡ m
HandsNode _ n = ⊥

-- The event hands out an instance of which the predicate holds.
abbrev HandsWith : Event → (Instance → Type 0) → Type 0
HandsWith e P = (i : Instance) × HandsInstance e i × P i

abbrev IsWaiting : Instance → Type 0
IsWaiting i = IsPending i.status

-- Why the program may make a call that changes something, in the handler of the event: an object that
-- the event hands to it.
abbrev pub Justified : Event → Call → Type 0
-- A device is created for a new instance, by its name.
Justified e (Call.device_create m r) =
    HandsWith e
      (λ i. (i.status.status ≡ "") × (m ≡ annotated_client i) × (r.hostname ≡ i.meta.name))
-- A device is deleted by force, for an instance that is being deleted and has this device.
Justified e (Call.device_delete m id force) =
    HandsWith e
      (λ i. IsLeaving i × (m ≡ removal_client i) × (id ≡ i.status.instance_id) × (force ≡ true))
-- A device is updated, reinstalled, or has its ports changed, for an instance that waits for it.
Justified e (Call.device_update m id r) =
    HandsWith e (λ i. IsPending i.status × (id ≡ i.status.instance_id))
Justified e (Call.device_reinstall m id r) =
    HandsWith e (λ i. IsPending i.status × (id ≡ i.status.instance_id))
Justified e (Call.port_assign m port vlan) = HandsWith e IsWaiting
Justified e (Call.port_bond m port bulk) = HandsWith e IsWaiting
Justified e (Call.port_disbond m port bulk) = HandsWith e IsWaiting
Justified e (Call.port_to_layer_two m port) = HandsWith e IsWaiting
Justified e (Call.port_to_layer_three m port rs) = HandsWith e IsWaiting
-- An instance is created as the pool makes it.
Justified e (Call.instance_create i) = (ip : InstancePool) × HandsPool e ip × MadeFor ip i
-- The status of an instance goes along an edge of the state machine, and the rest stays.
Justified e (Call.instance_update_status j) =
    HandsWith e (λ i. (j.meta ≡ i.meta) × (j.spec ≡ i.spec) × Edge i.status j.status)
-- The finalizer is set on a new instance, and taken off one that is being deleted.
Justified e (Call.instance_update j) = HandsWith e (λ i.
    (i.status.status ≡ "") × (j.meta.finalizers ≡ finalizer ∷ [])
    ⊎ (i.meta.deletion_timestamp ≢ none)
      × (j.spec ≡ i.spec)
      × (j.status ≡ i.status)
      × (contains_finalizer j.meta.finalizers finalizer ≡ false))
-- A node is deleted with the instance of its name.
Justified e (Call.node_delete name) = HandsWith e (λ i. IsLeaving i × (name ≡ i.meta.name))
-- An instance is deleted by a pool, for a live node, or with the node of its name.
Justified e (Call.instance_delete name) =
    ((ip : InstancePool) × HandsPool e ip)
    ⊎ ((n : Node) × HandsNode e n × ((n.deletion_timestamp ≡ none) ⊎ (name ≡ n.name)))
-- The status of a pool is written on a pool that is the same otherwise.
Justified e (Call.pool_update_status p) = (ip : InstancePool) × HandsPool e ip × SamePool ip p
Justified e _ = Unit

pub Allowed-Justified :
    (e : Event) (i : Instance) → HandsInstance e i → (c : Call) → Allowed i c → Justified e c
Allowed-Justified e i given (Call.device_create m r) h = (i, given, h)
Allowed-Justified e i given (Call.device_update m id r) h = (i, given, h)
Allowed-Justified e i given (Call.device_reinstall m id r) h = (i, given, h)
Allowed-Justified e i given (Call.port_assign m port vlan) h = (i, given, h)
Allowed-Justified e i given (Call.port_bond m port bulk) h = (i, given, h)
Allowed-Justified e i given (Call.port_disbond m port bulk) h = (i, given, h)
Allowed-Justified e i given (Call.port_to_layer_two m port) h = (i, given, h)
Allowed-Justified e i given (Call.port_to_layer_three m port rs) h = (i, given, h)
Allowed-Justified e i given (Call.instance_update j) h = (i, given, inl h)
Allowed-Justified e i given (Call.instance_update_status j) h = (i, given, h)
Allowed-Justified e i given (Call.device_delete m id force) h = absurd h
Allowed-Justified e i given (Call.instance_create j) h = absurd h
Allowed-Justified e i given (Call.instance_delete name) h = absurd h
Allowed-Justified e i given (Call.node_delete name) h = absurd h
Allowed-Justified e i given (Call.pool_update_status p) h = absurd h
Allowed-Justified e i given _ h = tt

pub Removing-Justified :
    (e : Event) (i : Instance) → HandsInstance e i → (c : Call) → Removing i c → Justified e c
Removing-Justified e i given (Call.device_delete m id force) h = (i, given, h)
Removing-Justified e i given (Call.node_delete name) h = (i, given, h)
Removing-Justified e i given (Call.instance_update j) h = (i, given, inr h)
Removing-Justified e i given (Call.device_list m project) h = tt
Removing-Justified e i given (Call.node_get name) h = tt
Removing-Justified e i given _ h = absurd h

pub Resolving-Justified :
    (e : Event) (n : Node) → HandsNode e n → (c : Call) → Resolving n c → Justified e c
Resolving-Justified e n given (Call.instance_delete name) h = inr (n, given, h)
Resolving-Justified e n given (Call.instance_get name) h = tt
Resolving-Justified e n given (Call.instance_enqueue name) h = tt
Resolving-Justified e n given (Call.node_enqueue_after name d) h = tt
Resolving-Justified e n given Call.now h = tt
Resolving-Justified e n given _ h = absurd h

pub Keeping-Justified :
    (e : Event) (ip : InstancePool) → HandsPool e ip → (c : Call) → Keeping ip c → Justified e c
Keeping-Justified e ip given (Call.instance_list s) h = tt
Keeping-Justified e ip given (Call.instance_delete name) h = inl (ip, given)
Keeping-Justified e ip given (Call.pool_update_status p) h = (ip, given, h)
Keeping-Justified e ip given _ h = absurd h

pub Submitting-Justified :
    (e : Event) (ip : InstancePool) → HandsPool e ip → (c : Call) → Submitting ip c → Justified e c
Submitting-Justified e ip given (Call.instance_create i) h = (ip, given, h)
Submitting-Justified e ip given (Call.secret_get namespace name) h = tt
Submitting-Justified e ip given (Call.node_list selector) h = tt
Submitting-Justified e ip given (Call.service_get namespace name) h = tt
Submitting-Justified e ip given Call.now h = tt
Submitting-Justified e ip given (Call.rand_seed t) h = tt
Submitting-Justified e ip given (Call.rand_intn n) h = tt
Submitting-Justified e ip given _ h = absurd h
