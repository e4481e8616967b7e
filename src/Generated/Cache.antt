-- ===== src/Generated/Cache.antt =====
-- pkg/generated/controllers/equinix.harvesterhci.io/v1, the generated cache over an indexer.
use harvester_equinix_addon.Prelude.{String, Bool, true, false, Option, none, some, List, [], ◌∷◌}
use harvester_equinix_addon.Services.{Error, Exit, returned, panicked, waiting}
use harvester_equinix_addon.Generated.Objects.{Stored, RuntimeObject, Answer, Resource}
use harvester_equinix_addon.Generated.Client.{GroupResource, Controller, informer}

-- `instanceCache`
pub record Cache (D : Type 0) : Type 0 where
  pub indexer : D
  pub resource : GroupResource

-- `Cache` of the controller.
unfoldable pub controller_cache : {O L X V D W : Type 0} → Controller O L X V D W → Cache D
unfolding informer
controller_cache c = record { indexer = informer c; resource = c.group_resource }

-- An `IndexFunc`, which may panic.
abbrev pub IndexFunc : Type 0
IndexFunc = RuntimeObject → Exit (Answer (List String))

-- The indexer of client-go, with selectors `S`: what it answers is what it holds. `list_all` gives the
-- objects that `cache.ListAll` calls its function on.
pub record Indexer (S D : Type 0) : Type 0 where
  pub get_by_key : String → D → Answer (RuntimeObject × Bool)
  pub by_index : String → String → D → Answer (List RuntimeObject)
  pub list_all : S → D → Answer (List RuntimeObject)
  pub add_indexers : List (String × IndexFunc) → D → Option Error × D
  -- `errors.NewNotFound`
  pub not_found : GroupResource → String → Error

abbrev then : {A B : Type 0} → Exit A → (A → Exit B) → Exit B
then (returned a) f = f a
then panicked f = panicked
then waiting f = waiting

module _ {O T S D : Type 0} (r : Resource O T) (lib : Indexer S D) where
  -- `append(ret, m.(*v1.Instance))` for each object.
  unfoldable pub assert_all : List RuntimeObject → Exit (List (Option (Stored O)))
  assert_all [] = returned []
  assert_all (m ∷ ms) = then (r.assert m) (λ v. then (assert_all ms) (λ vs. returned (v ∷ vs)))

  unfoldable pub cached_object :
      GroupResource → String → Answer (RuntimeObject × Bool) → Exit (Answer (Option (Stored O)))
  cached_object resource name (found, some err) = returned (none, some err)
  cached_object resource name ((obj, false), none) =
      returned (none, some (lib.not_found resource name))
  cached_object resource name ((obj, true), none) = then (r.assert obj) (λ v. returned (v, none))

  unfoldable pub cached : Cache D → String → Exit (Answer (Option (Stored O)))
  unfolding cached_object
  cached c name = cached_object c.resource name (lib.get_by_key name c.indexer)

  unfoldable pub cached_list : Cache D → S → Exit (Answer (List (Option (Stored O))))
  unfolding assert_all
  cached_list c selector =
      let (ms, err) = lib.list_all selector c.indexer in
      then (assert_all ms) (λ ret. returned (ret, err))

  unfoldable pub index_func : (Option (Stored O) → Answer (List String)) → IndexFunc
  index_func indexer obj = then (r.assert obj) (λ v. returned (indexer v))

  -- `utilruntime.Must`
  unfoldable pub must : Option Error × D → Exit D
  must (none, d) = returned d
  must (some err, d) = panicked

  -- What becomes of the indexer.
  unfoldable pub add_indexer :
      Cache D → String → (Option (Stored O) → Answer (List String)) → Exit D
  unfolding index_func must
  add_indexer c index_name indexer =
      must (lib.add_indexers ((index_name, index_func indexer) ∷ []) c.indexer)

  unfoldable pub indexed_objects :
      Answer (List RuntimeObject) → Exit (Answer (List (Option (Stored O))))
  unfolding assert_all
  indexed_objects (objs, some err) = returned ([], some err)
  indexed_objects (objs, none) = then (assert_all objs) (λ result. returned (result, none))

  unfoldable pub get_by_index : Cache D → String → String → Exit (Answer (List (Option (Stored O))))
  unfolding indexed_objects
  get_by_index c index_name key = indexed_objects (lib.by_index index_name key c.indexer)
