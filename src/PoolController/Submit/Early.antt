-- ===== src/PoolController/Submit/Early.antt =====
-- pkg/controllers/instancepool/instancepool.go, `submitInstances`: what stands before its loop, and its
-- early returns, each of which has an error.
use harvester_equinix_addon.Prelude.{ℕ, zero, suc, String, ◌≢◌, Option, none, some}
use harvester_equinix_addon.Prelude.Text.{lookup}
use harvester_equinix_addon.Api.{StringMap, InstancePool, is_empty, is_valid_type}
use harvester_equinix_addon.Services.{
  Services, Error, Call, err, Only, OnlyFunc, pure-Only, leave-Only, crash-Only, or_leave-Only,
  bind-Only, invoke-Only, body-Only, run-Only, option-Only, list-Only, Any, Yields, Any-YieldsFunc,
  pure-Yields, leave-Yields, if-Yields, bind-Yields, invoke_then-Yields, or_leave_then-Yields,
  leave_on_then-Yields, run_then-Yields, option-Yields, list-Yields, leave_on_last-Yields,
}
use harvester_equinix_addon.Util.{rand_string_runes, lower_rand_string_runes}
use harvester_equinix_addon.PoolController.Template.{Credentials}
use harvester_equinix_addon.PoolController.Submit.{
  networking, submit_one, submit_rounds, secret_key, find_join_address, credentials,
}

-- An early return has an error.
abbrev pub HasError : InstancePool × Option Error → Type 0
HasError (q, e) = e ≢ none

module _ {W : Type 0} (env : Services W) (ip : InstancePool) where
  module _ {P : Call → Type 0}
      (may_get_secret : (namespace name : String) → P (Call.secret_get namespace name))
      (may_list_nodes : (selector : String) → P (Call.node_list selector))
      (may_get_service : (namespace name : String) → P (Call.service_get namespace name)) where
    secret_key-Only : (secret : StringMap) (key : String) → Only P (secret_key env ip secret key)
    unfolding secret_key
    secret_key-Only secret key = option-Only (lookup key secret) (λ v. pure-Only v) (leave-Only _)

    find_join_address-Only : OnlyFunc P (find_join_address env)
    unfolding find_join_address
    find_join_address-Only = body-Only (
        bind-Only (invoke-Only env _ (may_get_service _ _)) λ r.
          bind-Only (or_leave-Only r err)
            λ service. list-Only service.ingress crash-Only (λ x xs. pure-Only _))

    pub credentials-Only : Only P (credentials env ip)
    unfolding credentials
    credentials-Only = bind-Only (invoke-Only env _ (may_get_secret _ _)) λ r.
        bind-Only (or_leave-Only r _) λ secret.
          bind-Only (secret_key-Only secret "METAL_AUTH_TOKEN") λ token.
            bind-Only (secret_key-Only secret "PROJECT_ID") λ project_id.
              bind-Only (invoke-Only env _ (may_list_nodes _)) λ r.
                bind-Only (or_leave-Only r _) λ nodes. list-Only nodes (leave-Only _) (λ x xs.
                  bind-Only (run-Only find_join_address-Only)
                    λ r. bind-Only (or_leave-Only r _) (λ a. pure-Only _))

  some_error : {e : Error} → some e ≢ none
  some_error h = cc

  secret_key-Yields :
      (secret : StringMap) (key : String) → Yields HasError Any (secret_key env ip secret key)
  unfolding secret_key
  secret_key-Yields secret key =
      option-Yields (lookup key secret) (λ v. pure-Yields v tt) (leave-Yields _ some_error)

  pub credentials-Yields : Yields HasError Any (credentials env ip)
  unfolding credentials
  credentials-Yields = invoke_then-Yields env (Call.secret_get _ _) λ r.
      or_leave_then-Yields r _ (λ e. some_error)
        λ secret. bind-Yields Any (secret_key-Yields secret "METAL_AUTH_TOKEN") λ token _.
          bind-Yields Any (secret_key-Yields secret "PROJECT_ID") λ project_id _.
            invoke_then-Yields env (Call.node_list _) λ r.
              or_leave_then-Yields r _ (λ e. some_error)
                λ nodes. list-Yields nodes (leave-Yields _ some_error) (λ x xs.
                  run_then-Yields (Any-YieldsFunc (find_join_address env))
                    λ r _. or_leave_then-Yields r _ (λ e. some_error) (λ a. pure-Yields _ tt))

  networking-Yields : Yields HasError Any (networking env ip)
  unfolding networking
  networking-Yields = if-Yields (is_empty ip.spec.networking_configuration) (pure-Yields _ tt) (
      if-Yields (is_valid_type ip.spec.networking_configuration) (pure-Yields _ tt)
        (leave-Yields _ some_error))

  submit_one-Yields : (c : Credentials) → Yields HasError Any (submit_one env ip c)
  unfolding submit_one
  submit_one-Yields c = run_then-Yields (Any-YieldsFunc (lower_rand_string_runes env 8)) λ suffix _.
      run_then-Yields (Any-YieldsFunc (rand_string_runes env 16)) λ password _.
        bind-Yields Any networking-Yields λ n _.
          leave_on_then-Yields _ _ _ (λ e. some_error)
            λ _.
              invoke_then-Yields env (Call.instance_create _)
                (λ e. leave_on_last-Yields e _ (λ e. some_error))

  pub submit_rounds-Yields :
      (n : ℕ) (c : Credentials) → Yields HasError Any (submit_rounds env n ip c)
  unfolding submit_rounds
  submit_rounds-Yields zero c = pure-Yields tt tt
  submit_rounds-Yields (suc n) c =
      bind-Yields Any (submit_one-Yields c) (λ _ _. submit_rounds-Yields n c)
