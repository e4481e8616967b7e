-- ===== src/Tests/Rebalance.antt =====
-- The theorem on a pool out of balance, at a cluster that keeps a list of instances.
use harvester_equinix_addon.Prelude.{
  String, Bool, true, false, ◌≡◌, refl, ap, Option, none, some, List, [], ◌∷◌, ◌++◌, length,
  if◌then◌else◌, inl, inr, arith, length-append,
}
use mathlib.Core.List.{append-nil}
use harvester_equinix_addon.Prelude.Int.{pos}
use harvester_equinix_addon.Prelude.Text.{◌==◌, eq_refl, lookup}
use harvester_equinix_addon.Api.{Instance, InstancePool, is_empty}
use harvester_equinix_addon.Services.{Services, ok, Call, Reply, State, returned}
use harvester_equinix_addon.PoolController.Reconcile.{ready_count}
use harvester_equinix_addon.PoolController.Healthy.Settled.{recounted, Holds, settles}
use harvester_equinix_addon.PoolController.Remove.{last_item, drop_last}
use harvester_equinix_addon.PoolController.Dispatch.{dispatch}
use harvester_equinix_addon.PoolController.Healthy.{Healthy, leaves_instances}
use harvester_equinix_addon.PoolController.Healthy.Rebalanced.{counted, counting, rebalanced}
use harvester_equinix_addon.Tests.Data.{
  instance_in, pool, pool_status, services, replies, sick_node,
}

-- The instances, and those that are being deleted.
abbrev Store : Type 0
Store = List Instance × List Instance

-- A deletion takes the last instance of the list, here `last`, if it has the name.
abbrev mark_named : String → Option Instance → Store → Store
mark_named name none w = w
mark_named name (some last) w = if last.meta.name == name then (drop_last w.0, last ∷ w.1) else w

abbrev reply : (c : Call) → Store → Reply c
reply (Call.instance_list label) w = ok (w.0 ++ w.1)
reply c w = (replies c tt).0

-- A new instance is held with the others if it has the label of the pool.
abbrev add_labelled : Instance → Option String → Store → Store
add_labelled i none w = w
add_labelled i (some label) w = if label == "pool" then (w.0 ++ i ∷ [], w.1) else w

abbrev changed : Call → Store → Store
changed (Call.instance_create i) w = add_labelled i (lookup "instancePool" i.meta.labels) w
changed (Call.instance_delete name) w = mark_named name (last_item w.0) w
changed c w = w

abbrev store_replies : (c : Call) → Store → Reply c × Store
store_replies c w = (reply c w, if leaves_instances c then w else changed c w)

abbrev none_leaves : List Instance → Bool
none_leaves [] = true
none_leaves (i ∷ is) = false

abbrev store : Services Store
store = record {
  perform = store_replies;
  is_not_found = services.is_not_found;
  errors_wrap = services.errors_wrap;
  lookup_env = services.lookup_env;
  read_file = services.read_file;
  yaml_marshal = services.yaml_marshal;
  yaml_unmarshal = services.yaml_unmarshal;
  yaml_unmarshal_map = services.yaml_unmarshal_map;
  mergo_merge = services.mergo_merge;
  as_approximate_float64 = services.as_approximate_float64;
  get_port_by_name = services.get_port_by_name;
  get_bond_ports = services.get_bond_ports;
  get_physical_ports = services.get_physical_ports;
  get_network_info = services.get_network_info;
}

last_item-snoc : (xs : List Instance) (x : Instance) → last_item (xs ++ x ∷ []) ≡ some x
unfolding last_item
last_item-snoc [] x = refl
last_item-snoc (a ∷ []) x = refl
last_item-snoc (a ∷ b ∷ xs) x = last_item-snoc (b ∷ xs) x

drop_last-snoc : (xs : List Instance) (x : Instance) → drop_last (xs ++ x ∷ []) ≡ xs
unfolding drop_last
drop_last-snoc [] x = refl
drop_last-snoc (a ∷ []) x = refl
drop_last-snoc (a ∷ b ∷ xs) x = ap (λ l. a ∷ l) (drop_last-snoc (b ∷ xs) x)

mark_named-snoc :
    (others : List Instance) (last : Instance) (w : Store)
    → w.0 ≡ others ++ last ∷ []
    → (mark_named last.meta.name (last_item w.0) w).0 ≡ others
mark_named-snoc others last w e =
    rw (e, last_item-snoc others last, eq_refl last.meta.name) (drop_last-snoc others last)

store_keeps :
    (c : Call) (w : Store)
    → leaves_instances c ≡ true
    → ((store_replies c w).1.0 ≡ w.0) × (none_leaves (store_replies c w).1.1 ≡ none_leaves w.1)
store_keeps c w e = rw e (refl, refl)

all_listed : (w : Store) → none_leaves w.1 ≡ true → ok (w.0 ++ w.1) ≡ ok w.0
all_listed (here, []) e = ap ok (append-nil here)
all_listed (here, i ∷ is) e = cc

abbrev test_pool : InstancePool
test_pool = record (pool (pool_status "ready" (pos 1) (pos 0))) {
  spec = record ((pool (pool_status "ready" (pos 1) (pos 0))).spec) { count = pos 2 };
}

abbrev healthy_store : Healthy store test_pool
unfolding lookup is_empty
healthy_store = record {
  present = λ w. w.0;
  settled = λ w. none_leaves w.1;
  lists = all_listed;
  keeps = store_keeps;
  creates = λ i w. refl;
  grows = λ i w labelled. rw labelled (length-append w.0 (i ∷ []));
  deletes = λ name w. refl;
  shrinks = mark_named-snoc;
  writes = λ p w. refl;
  secret = ("METAL_AUTH_TOKEN", "t0") ∷ ("PROJECT_ID", "p0") ∷ [];
  token = "t0";
  project = "p0";
  reads_secret = λ namespace name w. refl;
  has_token = refl;
  has_project = refl;
  node = sick_node;
  nodes = [];
  lists_nodes = λ s w. refl;
  address = "2.2.2.2";
  addresses = [];
  exposes = λ namespace name w. refl;
  draws = λ w. omega arith;
  print = λ c. c.token;
  marshals = λ c. refl;
  networks = inl refl;
}

abbrev one_instance : State Store
one_instance = record { world = (instance_in "managed" ∷ [], []); calls = []; locked = false }

abbrev pool_then : InstancePool
pool_then = counted store test_pool healthy_store one_instance

abbrev state_then : State Store
state_then = counting store test_pool healthy_store one_instance

not_two : ¬ ((pos 1 ≡ pos 2) × (pos (ready_count (instance_in "managed" ∷ [])) ≡ pos 2))
not_two (h, k) = cc

rebalanced_example :
    (dispatch store test_pool one_instance ≡ (returned (pool_then, none), state_then))
    × (let (r, t) = dispatch store pool_then state_then in
        ((q : InstancePool) × r ≡ returned (q, none)) × (length t.world.0 ≡ 2) × (t.locked ≡ false))
unfolding healthy_store
rebalanced_example =
    rebalanced store test_pool healthy_store one_instance 2 refl (inr refl)
      (omega arith, omega arith, omega arith) refl not_two refl

-- Two managed instances, and a pool that is still submitted.
abbrev pair : List Instance
pair = instance_in "managed" ∷ instance_in "managed" ∷ []

abbrev pair_state : State Store
pair_state = record { world = (pair, []); calls = []; locked = false }

abbrev grown_pool : InstancePool
grown_pool = record test_pool { status = pool_status "submitted" (pos 1) (pos 0) }

abbrev healthy_pair : Healthy store grown_pool
unfolding healthy_store
healthy_pair = healthy_store

settles_example :
    let once = recounted pair grown_pool in
    let twice = recounted pair once in
    ((t : State Store) × (u : State Store) × (dispatch store grown_pool pair_state
        ≡ (returned (once, none), t))
      × (dispatch store once t ≡ (returned (twice, none), u))
      × Holds store grown_pool healthy_pair pair u)
    × ((v : State Store)
        → Holds store grown_pool healthy_pair pair v
        → (dispatch store twice v).0 ≡ returned (twice, none))
    × (twice.status.status ≡ "ready")
    × (twice.status.needed ≡ pos 0)
    × (twice.status.requested ≡ pos 2)
    × (twice.status.ready ≡ pos 2)
unfolding healthy_store healthy_pair
settles_example =
    settles store grown_pool healthy_pair pair pair_state (inl refl) (refl, refl)
      (omega arith, omega arith, omega arith) (refl, (refl, tt)) refl
