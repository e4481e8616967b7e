-- ===== src/Tests/Pools.antt =====
-- The theorems on pkg/controllers/instancepool/instancepool.go at concrete pools.
use harvester_equinix_addon.Prelude.{◌≡◌, refl, ◌≢◌, false, Option, none, some, [], ◌∷◌, arith}
use harvester_equinix_addon.Prelude.Int.{pos, negsuc, ◌+ℤ◌, ◌<ℤ◌}
use harvester_equinix_addon.Api.{InstancePool, InstancePoolStatus}
use harvester_equinix_addon.Services.{
  Services, Error, Call, returned, panicked, waiting, Only, statements,
}
use harvester_equinix_addon.PoolController.Prepare.{prepare_instance_pool}
use harvester_equinix_addon.PoolController.Prepare.Token.{ready, TokenSource, prepare-ready}
use harvester_equinix_addon.PoolController.Template.{Credentials}
use harvester_equinix_addon.PoolController.Submit.{credentials, submit_rounds, submit_instances}
use harvester_equinix_addon.PoolController.Submit.Created.{Submitting, submit_rounds-Only}
use harvester_equinix_addon.PoolController.Submit.Lock.{
  all_submitted, Submission, submit_instances-Submission, submit_instances_deadlock,
}
use harvester_equinix_addon.PoolController.Reconcile.{selector, ready_count, reconciled}
use harvester_equinix_addon.PoolController.Reconcile.Counts.{reconciled_lem}
use harvester_equinix_addon.PoolController.Remove.{remove_instances}
use harvester_equinix_addon.PoolController.Remove.Outcome.{
  Ending, remove_instances-Ending, remove_instances_overrun,
}
use harvester_equinix_addon.Tests.Data.{
  instance_in, pool, pool_status, services, secretless, start_state,
}

abbrev new_pool : InstancePool
new_pool = pool (pool_status "tokenReady" (pos 1) (pos 1))

abbrev large_pool : InstancePool
large_pool = pool (pool_status "cleanupNodes" (pos 2) (negsuc 0))

abbrev overfull_pool : InstancePool
overfull_pool = pool (pool_status "cleanupNodes" (pos 2) (negsuc 1))

abbrev test_credentials : Credentials
test_credentials = record { token = "t0"; project_id = "p0"; join_address = "2.2.2.2" }

submit_instances-Submission_example :
    let (r, t) = submit_instances services new_pool start_state in
    Submission new_pool start_state r t
submit_instances-Submission_example = submit_instances-Submission services new_pool start_state refl

secretless_stops :
    (e : Option Error)
    → (submit_instances secretless new_pool start_state).0 ≢ returned (all_submitted new_pool, e)
unfolding submit_instances credentials statements
secretless_stops e h = cc

submit_instances_deadlock_example :
    let t = (submit_instances secretless new_pool start_state).1 in
    submit_instances secretless large_pool t ≡ (waiting, t)
submit_instances_deadlock_example =
    submit_instances_deadlock secretless new_pool start_state refl secretless_stops large_pool

submit_rounds-Only_example :
    Only (Submitting new_pool) (submit_rounds services 1 new_pool test_credentials)
submit_rounds-Only_example = submit_rounds-Only services new_pool 1 test_credentials

remove_instances-Ending_example :
    let (r, t) = remove_instances services large_pool start_state in
    Ending 1 large_pool
      (instance_in "managed" ∷ [])
      (Call.instance_list (selector large_pool) ∷ [])
      (r, t.calls)
remove_instances-Ending_example =
    remove_instances-Ending services large_pool start_state (instance_in "managed") [] tt 1 refl
      refl (omega arith) (omega arith, omega arith)

remove_instances_overrun_example :
    (remove_instances services overfull_pool start_state).0 ≡ panicked
remove_instances_overrun_example =
    remove_instances_overrun services overfull_pool start_state (instance_in "managed") [] tt 2 refl
      refl (λ y v. refl) (omega arith)

abbrev scaled : InstancePoolStatus
scaled = reconciled (pos 2) (instance_in "managed" ∷ []) (pool_status "ready" (pos 1) (pos 0))

not_converged : ¬ ((pos 1 ≡ pos 2) × (pos (ready_count (instance_in "managed" ∷ [])) ≡ pos 2))
not_converged (h, k) = cc

reconciled_lem_example :
    (scaled.requested ≡ pos 2)
    × (scaled.needed +ℤ pos 1 ≡ pos 2)
    × (pos 2 <ℤ pos 1 → scaled.status ≡ "cleanupNodes")
    × (pos 1 <ℤ pos 2 → scaled.status ≡ "tokenReady")
    × (pos 2 ≡ pos 1 → scaled.status ≡ "ready")
reconciled_lem_example =
    (reconciled_lem (pos 2) (instance_in "managed" ∷ []) (pool_status "ready" (pos 1) (pos 0))
        (omega arith, omega arith, omega arith)).1
      not_converged

abbrev with_token : Services (Unit {0})
with_token = record services { lookup_env = λ name. some "t9" }

prepare-ready_example : prepare_instance_pool with_token new_pool start_state ≡ (
  returned (ready "t9" new_pool, none),
  record { world = tt; calls = Call.pool_update_status (ready "t9" new_pool) ∷ []; locked = false },
)
prepare-ready_example =
    prepare-ready with_token new_pool start_state "t9" (TokenSource.from_env refl)
