-- ===== src/Generated/Pools.antt =====
-- pkg/generated/controllers/equinix.harvesterhci.io/v1/instancepool.go, which is instance.go with the
-- other type: the operations of the other modules for `InstancePool`.
use harvester_equinix_addon.Prelude.{ℕ, String, Bool, Option, List}
use harvester_equinix_addon.Api.{InstancePool, InstancePoolStatus}
use harvester_equinix_addon.Services.{Error, Exit}
use harvester_equinix_addon.Setup.Crd.{GroupVersionKind}
use harvester_equinix_addon.Generated.Objects.{Stored, Answer}
use harvester_equinix_addon.Generated.Resources.{instance_pool_resource}
use harvester_equinix_addon.Generated.Handlers.{TypedHandler, GenericHandler, Updater, from_handler}
use harvester_equinix_addon.Generated.Client as C
use harvester_equinix_addon.Generated.Client.{Factory, Controller, GroupResource}
use harvester_equinix_addon.Generated.Cache as K
use harvester_equinix_addon.Generated.Cache.{Cache, Indexer}
use harvester_equinix_addon.Generated.Status as S
use harvester_equinix_addon.Generated.Status.{StatusHandler, Statuses}
use harvester_equinix_addon.Generated.Generating as G
use harvester_equinix_addon.Generated.Generating.{GeneratingHandler, Applier}
use harvester_equinix_addon.Generated.Changes as U
use harvester_equinix_addon.Generated.Changes.{ChangeHandler}

abbrev Pool : Type 0
Pool = Stored InstancePool

abbrev pub from_instance_pool_handler_to_handler :
    {W : Type 0} → TypedHandler InstancePool W → GenericHandler W
from_instance_pool_handler_to_handler = from_handler instance_pool_resource

abbrev pub update_instance_pool_deep_copy_on_change :
    {W : Type 0}
    → (Pool → Pool → Bool)
    → (Option Pool → W → Answer (Option Pool) × W)
    → Option Pool
    → ChangeHandler InstancePool W
    → W
    → Answer (Option Pool) × W
update_instance_pool_deep_copy_on_change = U.update_deep_copy_on_change

module _ {L X V D W : Type 0} where
  abbrev pub new_instance_pool_controller :
      GroupVersionKind
      → String
      → Bool
      → Factory InstancePool L X V D W
      → W
      → Controller InstancePool L X V D W × W
  new_instance_pool_controller = C.new_controller

  module _ (c : Controller InstancePool L X V D W) where
    abbrev pub pool_informer : D
    pool_informer = C.informer c

    abbrev pub pool_kind : GroupVersionKind
    pool_kind = C.group_version_kind c

    abbrev pub pool_cache : Cache D
    pool_cache = K.controller_cache c

    abbrev pub create_pool : Option Pool → W → Answer Pool × W
    create_pool = C.create instance_pool_resource c

    abbrev pub update_pool : Option Pool → W → Answer Pool × W
    update_pool = C.update instance_pool_resource c

    abbrev pub update_pool_status : Option Pool → W → Answer Pool × W
    update_pool_status = C.update_status instance_pool_resource c

    abbrev pub delete_pool : String → Option X → W → Option Error × W
    delete_pool = C.delete instance_pool_resource c

    abbrev pub get_pool : String → X → W → Answer Pool × W
    get_pool = C.get instance_pool_resource c

    abbrev pub list_pools : X → W → Answer L × W
    list_pools = C.list instance_pool_resource c

    abbrev pub watch_pools : X → W → Answer V × W
    watch_pools = C.watch instance_pool_resource c

    abbrev pub patch_pool : String → String → List ℕ → List String → W → Answer Pool × W
    patch_pool = C.patch instance_pool_resource c

    abbrev pub pool_updater : Updater W
    pool_updater = C.controller_updater instance_pool_resource c

    abbrev pub add_generic_pool_handler : String → GenericHandler W → W → W
    add_generic_pool_handler = C.add_generic_handler instance_pool_resource c

    abbrev pub add_generic_pool_remove_handler : String → GenericHandler W → W → W
    add_generic_pool_remove_handler = C.add_generic_remove_handler instance_pool_resource c

    abbrev pub on_pool_change : String → TypedHandler InstancePool W → W → W
    on_pool_change = C.on_change instance_pool_resource c

    abbrev pub on_pool_remove : String → TypedHandler InstancePool W → W → W
    on_pool_remove = C.on_remove instance_pool_resource c

    abbrev pub enqueue_pool : String → W → W
    enqueue_pool = C.enqueue instance_pool_resource c

    abbrev pub enqueue_pool_after : String → ℕ → W → W
    enqueue_pool_after = C.enqueue_after instance_pool_resource c

    abbrev pub register_instance_pool_status_handler :
        Statuses InstancePoolStatus W
        → String
        → String
        → StatusHandler InstancePool InstancePoolStatus W
        → W
        → W
    register_instance_pool_status_handler = G.register_status_handler instance_pool_resource c

    abbrev pub register_instance_pool_generating_handler :
        {Y : Type 0}
        → Statuses InstancePoolStatus W
        → String
        → String
        → Applier InstancePool Y W
        → GeneratingHandler InstancePool InstancePoolStatus W
        → Option Y
        → W
        → W
    register_instance_pool_generating_handler statuses condition name lib =
        G.register_generating_handler instance_pool_resource c statuses condition name lib

module _ {S D : Type 0} (lib : Indexer S D) where
  abbrev pub cached_pool : Cache D → String → Exit (Answer (Option Pool))
  cached_pool = K.cached instance_pool_resource lib

  abbrev pub cached_pools : Cache D → S → Exit (Answer (List (Option Pool)))
  cached_pools = K.cached_list instance_pool_resource lib

  abbrev pub add_pool_indexer : Cache D → String → (Option Pool → Answer (List String)) → Exit D
  add_pool_indexer = K.add_indexer instance_pool_resource lib

  abbrev pub pools_by_index : Cache D → String → String → Exit (Answer (List (Option Pool)))
  pools_by_index = K.get_by_index instance_pool_resource lib

module _ {W : Type 0} where
  abbrev pub sync_pool_status :
      Statuses InstancePoolStatus W
      → String
      → (Option Pool → W → Answer (Option Pool) × W)
      → StatusHandler InstancePool InstancePoolStatus W
      → TypedHandler InstancePool W
  sync_pool_status = S.sync instance_pool_resource

  module _ {Y : Type 0} (lib : Applier InstancePool Y W) (name : String) (opts : Y) where
    abbrev pub remove_pool : GroupVersionKind → TypedHandler InstancePool W
    remove_pool = G.remove instance_pool_resource lib name opts

    abbrev pub handle_pool :
        GeneratingHandler InstancePool InstancePoolStatus W
        → StatusHandler InstancePool InstancePoolStatus W
    handle_pool = G.handle instance_pool_resource lib name opts
