-- ===== src/Generated/Client.antt =====
-- pkg/generated/controllers/equinix.harvesterhci.io/v1, the generated controller: its construction, the
-- registration of handlers, its queue, and its client.
use harvester_equinix_addon.Prelude.{ℕ, String, Bool, Option, none, some, List}
use harvester_equinix_addon.Services.{Error}
use harvester_equinix_addon.Setup.Crd.{GroupVersionKind}
use harvester_equinix_addon.Generated.Objects.{Stored, Answer, Resource, zero_stored}
use harvester_equinix_addon.Generated.Handlers.{
  TypedHandler, GenericHandler, Updater, from_handler, updater,
}

pub record GroupResource : Type 0 where
  pub group : String
  pub resource : String

-- The client of lasso for one type of objects `O`, with lists `L`, options of calls `X` and watches `V`.
-- An operation is given the namespace, a pointer to the object, and the result to fill where it has
-- one, which it hands on as it leaves it, whether it fails or not.
pub record Client (O L X V W : Type 0) : Type 0 where
  pub create : String → Option (Stored O) → Stored O → X → W → Answer (Stored O) × W
  pub update : String → Option (Stored O) → Stored O → X → W → Answer (Stored O) × W
  pub update_status : String → Option (Stored O) → Stored O → X → W → Answer (Stored O) × W
  pub delete : String → String → X → W → Option Error × W
  pub get : String → String → Stored O → X → W → Answer (Stored O) × W
  pub list : String → L → X → W → Answer L × W
  pub watch : String → X → W → Answer V × W
  pub patch :
      String → String → String → List ℕ → Stored O → X → List String → W → Answer (Stored O) × W
  pub no_options : X
  -- `InstanceList{}`
  pub empty_list : L

-- The shared controller of lasso, with its indexer `D`, and the handler of wrangler for removals.
pub record Shared (D W : Type 0) : Type 0 where
  pub register_handler : String → GenericHandler W → W → W
  pub enqueue : String → String → W → W
  pub enqueue_after : String → String → ℕ → W → W
  pub indexer : D
  pub remove_handler : String → Updater W → GenericHandler W → GenericHandler W

-- `instanceController`
pub record Controller (O L X V D W : Type 0) : Type 0 where
  pub controller : Shared D W
  pub client : Client O L X V W
  pub gvk : GroupVersionKind
  pub group_resource : GroupResource

-- What the factory gives for a kind of resource: its controller, and the client of that.
pub record Factory (O L X V D W : Type 0) : Type 0 where
  pub for_resource_kind : GroupVersionKind → String → Bool → W → (Shared D W × Client O L X V W) × W

module _ {O L X V D W : Type 0} where
  unfoldable pub new_controller :
      GroupVersionKind → String → Bool → Factory O L X V D W → W → Controller O L X V D W × W
  new_controller gvk resource namespaced factory w =
      let ((controller, client), w1) = factory.for_resource_kind gvk resource namespaced w in
      (
        record {
          controller = controller;
          client = client;
          gvk = gvk;
          group_resource = record { group = gvk.group; resource = resource };
        },
        w1,
      )

  -- `Informer`, of which only the indexer is used.
  unfoldable pub informer : Controller O L X V D W → D
  informer c = c.controller.indexer

  unfoldable pub group_version_kind : Controller O L X V D W → GroupVersionKind
  group_version_kind c = c.gvk

  module _ {T : Type 0} (r : Resource O T) (c : Controller O L X V D W) where
    unfoldable pub create : Option (Stored O) → W → Answer (Stored O) × W
    create obj w = c.client.create "" obj (zero_stored r) c.client.no_options w

    unfoldable pub update : Option (Stored O) → W → Answer (Stored O) × W
    update obj w = c.client.update "" obj (zero_stored r) c.client.no_options w

    unfoldable pub update_status : Option (Stored O) → W → Answer (Stored O) × W
    update_status obj w = c.client.update_status "" obj (zero_stored r) c.client.no_options w

    unfoldable pub delete : String → Option X → W → Option Error × W
    delete name none w = c.client.delete "" name c.client.no_options w
    delete name (some options) w = c.client.delete "" name options w

    unfoldable pub get : String → X → W → Answer (Stored O) × W
    get name options w = c.client.get "" name (zero_stored r) options w

    unfoldable pub list : X → W → Answer L × W
    list opts w = c.client.list "" c.client.empty_list opts w

    unfoldable pub watch : X → W → Answer V × W
    watch opts w = c.client.watch "" opts w

    unfoldable pub patch : String → String → List ℕ → List String → W → Answer (Stored O) × W
    patch name pt bytes subresources w =
        c.client.patch "" name pt bytes (zero_stored r) c.client.no_options subresources w

    -- `Updater`, of which the pointer to the new object is never nil.
    unfoldable new_object : Option (Stored O) → W → Answer (Option (Stored O)) × W
    unfolding update
    new_object obj w = let ((new, err), w1) = update obj w in ((some new, err), w1)

    unfoldable pub controller_updater : Updater W
    unfolding updater new_object
    controller_updater obj w = updater r new_object obj w

    unfoldable pub add_generic_handler : String → GenericHandler W → W → W
    add_generic_handler name handler w = c.controller.register_handler name handler w

    unfoldable pub add_generic_remove_handler : String → GenericHandler W → W → W
    unfolding add_generic_handler
    add_generic_remove_handler name handler w =
        add_generic_handler name (c.controller.remove_handler name controller_updater handler) w

    unfoldable pub on_change : String → TypedHandler O W → W → W
    unfolding add_generic_handler
    on_change name sync w = add_generic_handler name (from_handler r sync) w

    unfoldable pub on_remove : String → TypedHandler O W → W → W
    unfolding add_generic_handler
    on_remove name sync w =
        add_generic_handler name
          (c.controller.remove_handler name controller_updater (from_handler r sync)) w

    unfoldable pub enqueue : String → W → W
    enqueue name w = c.controller.enqueue "" name w

    unfoldable pub enqueue_after : String → ℕ → W → W
    enqueue_after name duration w = c.controller.enqueue_after "" name duration w
