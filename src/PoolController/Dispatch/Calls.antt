-- ===== src/PoolController/Dispatch/Calls.antt =====
-- pkg/controllers/instancepool/instancepool.go: what the handlers of a pool call, but for the creation
-- of instances.
use harvester_equinix_addon.Prelude.{ℕ, zero, suc, String, ◌≡◌, refl, Option, none, some, List, ◌∷◌}
use harvester_equinix_addon.Prelude.Int.{neg_part}
use harvester_equinix_addon.Prelude.Text.{lookup}
use harvester_equinix_addon.Api.{Instance, InstancePool}
use harvester_equinix_addon.Services.{
  Services, Error, YamlValue, text, other, Call, Only, OnlyFunc, pure-Only, leave-Only, crash-Only,
  or_leave-Only, leave_on-Only, bind-Only, invoke-Only, or_crash-Only, option-Only, body-Only,
  list-Only, Any, Yields, pure-Yields, bind-Yields, list-Yields, Any-Yields, pure, crash, leave,
  bind-Yields-Only,
}
use harvester_equinix_addon.PoolController.Prepare.{
  token_of_config, find_token, prepare_instance_pool,
}
use harvester_equinix_addon.PoolController.Reconcile.{selector, reconcile_instances}
use harvester_equinix_addon.PoolController.Remove.{
  last_item, drop_last, one_removed, remove_rounds, remove_instances,
}

-- The pool but for its status.
abbrev pub SamePool : InstancePool → InstancePool → Type 0
SamePool ip p = (p.meta ≡ ip.meta) × (p.spec ≡ ip.spec)

-- What keeping the pool may call: its own instances are listed and some are deleted, and its own status
-- is written.
abbrev pub Keeping : InstancePool → Call → Type 0
Keeping ip (Call.instance_list s) = s ≡ selector ip
Keeping ip (Call.instance_delete name) = Unit
Keeping ip (Call.pool_update_status p) = SamePool ip p
Keeping ip _ = ⊥

module _ {W : Type 0} (env : Services W) where
  token_value-Keeping :
      (ip : InstancePool) (o : Option YamlValue) (r : InstancePool × Option Error)
      → Only {W = W} {R = InstancePool × Option Error} {A = String}
          (Keeping ip)
          (elim o [ none ↦ leave r | some (text t) ↦ pure t | some other ↦ crash ])
  token_value-Keeping ip none r = leave-Only r
  token_value-Keeping ip (some (text t)) r = pure-Only t
  token_value-Keeping ip (some other) r = crash-Only

  token_of_config-Keeping : (ip : InstancePool) → Only (Keeping ip) (token_of_config env ip)
  unfolding token_of_config
  token_of_config-Keeping ip =
      bind-Only (or_leave-Only (env.read_file "/etc/rancher/rancherd/config.yaml") _) λ config.
        bind-Only (or_leave-Only (env.yaml_unmarshal_map config) _)
          λ entries. token_value-Keeping ip (lookup "token" entries) _

  find_token-Keeping : (ip : InstancePool) → Only (Keeping ip) (find_token env ip)
  unfolding find_token
  find_token-Keeping ip =
      option-Only (env.lookup_env "TOKEN") (λ t. pure-Only t) (token_of_config-Keeping ip)

  pub prepare-Keeping : (ip : InstancePool) → OnlyFunc (Keeping ip) (prepare_instance_pool env ip)
  unfolding prepare_instance_pool
  prepare-Keeping ip = body-Only (
      bind-Only (find_token-Keeping ip)
        λ t. invoke-Only {P = Keeping ip} env (Call.pool_update_status _) (refl, refl))

  pub reconcile-Keeping : (ip : InstancePool) → OnlyFunc (Keeping ip) (reconcile_instances env ip)
  unfolding reconcile_instances
  reconcile-Keeping ip = body-Only (
      bind-Only (invoke-Only env (Call.instance_list (selector ip)) refl) λ r.
        bind-Only (or_leave-Only r _)
          λ items. invoke-Only {P = Keeping ip} env (Call.pool_update_status _) (refl, refl))

  remove_rounds-Keeping :
      (n : ℕ) (ip q : InstancePool) (items : List Instance)
      → Only (Keeping ip) (remove_rounds env n q items)
  unfolding remove_rounds
  remove_rounds-Keeping zero ip q items = pure-Only _
  remove_rounds-Keeping (suc n) ip q items = bind-Only (or_crash-Only (last_item items)) λ i.
      bind-Only (invoke-Only env (Call.instance_delete i.meta.name) tt) λ e.
        bind-Only (leave_on-Only e _)
          (λ _. remove_rounds-Keeping n ip (one_removed q) (drop_last items))

  remove_rounds-Yields :
      (n : ℕ) (ip q : InstancePool) (items : List Instance)
      → SamePool ip q
      → Yields Any (SamePool ip) (remove_rounds env n q items)
  unfolding remove_rounds one_removed
  remove_rounds-Yields zero ip q items h = pure-Yields q h
  remove_rounds-Yields (suc n) ip q items h = bind-Yields Any (Any-Yields _) λ i _.
      bind-Yields Any (Any-Yields _) λ e _.
        bind-Yields Any (Any-Yields _)
          (λ _ _. remove_rounds-Yields n ip (one_removed q) (drop_last items) h)

  pub remove-Keeping : (ip : InstancePool) → OnlyFunc (Keeping ip) (remove_instances env ip)
  unfolding remove_instances
  remove-Keeping ip = body-Only (
      bind-Only (invoke-Only env (Call.instance_list (selector ip)) refl) λ r.
        bind-Only (or_leave-Only r _) λ items.
          bind-Yields-Only (SamePool ip)
            (list-Only items (pure-Only ip)
              (λ x xs. remove_rounds-Keeping (neg_part ip.status.needed) ip ip (x ∷ xs)))
            (list-Yields items (pure-Yields ip (refl, refl)) (λ x xs.
              remove_rounds-Yields (neg_part ip.status.needed) ip ip (x ∷ xs) (refl, refl)))
            λ p same. invoke-Only {P = Keeping ip} env (Call.pool_update_status _) same)
