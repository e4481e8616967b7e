-- ===== src/Generated/Generating.antt =====
-- pkg/generated/controllers/equinix.harvesterhci.io/v1, the generated handler that applies the objects
-- which a handler asks for.
pub mod Applied
use harvester_equinix_addon.Prelude.{String, Bool, true, false, Option, none, some, List, [], ◌∷◌}
use harvester_equinix_addon.Prelude.Int.{ℤ}
use harvester_equinix_addon.Services.{Error}
use harvester_equinix_addon.Setup.Crd.{GroupVersionKind}
use harvester_equinix_addon.Copies.Cells.{TypeMeta}
use harvester_equinix_addon.Generated.Objects.{Stored, RuntimeObject, Answer, Resource, zero_stored}
use harvester_equinix_addon.Generated.Handlers.{TypedHandler, from_handler}
use harvester_equinix_addon.Generated.Client.{
  Controller, add_generic_handler, group_version_kind, on_change, update_status,
}
use harvester_equinix_addon.Generated.Status.{StatusHandler, Statuses, sync}

-- `InstanceGeneratingHandler`: the objects to apply, the status, the error, and the object as the handler
-- leaves it.
abbrev pub GeneratingHandler : Type 0 → Type 0 → Type 0 → Type 0
GeneratingHandler O T W =
    Stored O → T → W → ((List RuntimeObject × (T × Option Error)) × Stored O) × W

-- `ConfigureApplyForObject(apply, obj, &opts).WithOwner(owner).WithSetID(id).ApplyObjects(objs...)`,
-- with options `X`.
pub record ApplyCall (O X : Type 0) : Type 0 where
  pub configured_for : Stored O
  pub options : X
  pub owner : Stored O
  pub set_id : String
  pub objects : List RuntimeObject

-- What is used of wrangler: `apply`, `kv.RSplit`, and the version of a kind as one text.
pub record Applier (O X W : Type 0) : Type 0 where
  pub apply : ApplyCall O X → W → Option Error × W
  pub no_options : X
  pub r_split : String → String → String × String
  pub to_api_version : GroupVersionKind → String

module _ {O T X W : Type 0} (r : Resource O T) (lib : Applier O X W) (name : String)
    (opts : X) where
  abbrev pub apply_call : Stored O → List RuntimeObject → ApplyCall O X
  apply_call obj objs = record {
    configured_for = obj;
    options = opts;
    owner = obj;
    set_id = name;
    objects = objs;
  }

  -- The object of which the key is all that is left.
  abbrev pub removed_object : GroupVersionKind → String → Stored O
  removed_object gvk key =
      let (namespace, object_name) = lib.r_split key "/" in
      record {
        type_meta = record { kind = gvk.kind; api_version = lib.to_api_version gvk };
        namespace = namespace;
        resource_version = "";
        object = r.with_name object_name r.empty;
      }

  unfoldable pub remove : GroupVersionKind → TypedHandler O W
  remove gvk key (some obj) w = ((some obj, none), w)
  remove gvk key none w =
      let (err, w1) = lib.apply (apply_call (removed_object gvk key) []) w in ((none, err), w1)

  -- The end of `Handle`, from what the handler gives.
  unfoldable pub apply_objects :
      ((List RuntimeObject × (T × Option Error)) × Stored O) × W → (Answer T × Stored O) × W
  apply_objects (((objs, (status, some err)), obj), w) = (((status, some err), obj), w)
  apply_objects (((objs, (status, none)), obj), w) =
      let (err, w1) = lib.apply (apply_call obj objs) w in (((status, err), obj), w1)

  -- `Handle`, by the time of deletion.
  unfoldable pub handle_at : Option ℤ → GeneratingHandler O T W → StatusHandler O T W
  unfolding apply_objects
  handle_at (some time) handler obj status w = (((status, none), obj), w)
  handle_at none handler obj status w = apply_objects (handler obj status w)

  unfoldable pub handle : GeneratingHandler O T W → StatusHandler O T W
  unfolding handle_at
  handle handler obj status w =
      handle_at (r.meta obj.object).deletion_timestamp handler obj status w

module _ {O T L X V D W : Type 0} (r : Resource O T) (c : Controller O L X V D W)
    (statuses : Statuses T W) (condition name : String) where
  -- `UpdateStatus` of the controller as that of the interface `InstanceClient`.
  unfoldable pub client_update_status : Option (Stored O) → W → Answer (Option (Stored O)) × W
  unfolding update_status
  client_update_status obj w =
      let ((new, err), w1) = update_status r c obj w in ((some new, err), w1)

  unfoldable pub register_status_handler : StatusHandler O T W → W → W
  unfolding add_generic_handler client_update_status
  register_status_handler handler w =
      add_generic_handler r c name
        (from_handler r (sync r statuses condition client_update_status handler)) w

  abbrev options_or : {A : Type 0} → A → Option A → A
  options_or a none = a
  options_or a (some b) = b

  module _ {Y : Type 0} (lib : Applier O Y W) where
    unfoldable pub register_generating_handler : GeneratingHandler O T W → Option Y → W → W
    unfolding on_change register_status_handler group_version_kind
    register_generating_handler handler opts w =
        let opts' = options_or lib.no_options opts in
        let w1 = on_change r c name (remove r lib name opts' (group_version_kind c)) w in
        register_status_handler (handle r lib name opts' handler) w1
