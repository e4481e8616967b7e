-- ===== src/PoolController/Remove.antt =====
-- pkg/controllers/instancepool/instancepool.go, `removeInstances`.
pub mod Rounds
pub mod Counters
pub mod Outcome
use harvester_equinix_addon.Prelude.{ℕ, zero, suc, Option, none, some, List, [], ◌∷◌}
use harvester_equinix_addon.Prelude.Int.{pos, neg_part, ◌+ℤ◌, ◌-ℤ◌, wrap64}
use harvester_equinix_addon.Api.{Instance, InstancePool}
use harvester_equinix_addon.Services.{
  Services, Error, Call, Code, Func, ◌>>=◌, ◌>>◌, pure, or_crash, body, invoke, or_leave, leave_on,
}
use harvester_equinix_addon.PoolController.Prepare.{with_status}
use harvester_equinix_addon.PoolController.Reconcile.{selector}

-- `items[len(items)-1]`, which is out of range for the empty list, and `items[:len(items)-1]`.
unfoldable pub last_item {ℓ} : {A : Type ℓ} → List A → Option A
last_item [] = none
last_item (x ∷ []) = some x
last_item (x ∷ y ∷ xs) = last_item (y ∷ xs)

unfoldable pub drop_last {ℓ} : {A : Type ℓ} → List A → List A
drop_last [] = []
drop_last (x ∷ []) = []
drop_last (x ∷ y ∷ xs) = x ∷ drop_last (y ∷ xs)

-- `ip.Status.Requested--; ip.Status.Needed++`
unfoldable pub one_removed : InstancePool → InstancePool
one_removed ip =
    with_status
      (record (ip.status) {
        requested = wrap64 (ip.status.requested -ℤ pos 1);
        needed = wrap64 (ip.status.needed +ℤ pos 1);
      })
      ip

-- The pool after `n` instances have been removed.
abbrev pub many_removed : ℕ → InstancePool → InstancePool
many_removed zero ip = ip
many_removed (suc n) ip = many_removed n (one_removed ip)

module _ {W : Type 0} (env : Services W) where
  -- The loop `for i := ip.Status.Needed; i < 0; i++`, by the rounds that are left.
  unfoldable pub remove_rounds :
      ℕ → InstancePool → List Instance → Code W (InstancePool × Option Error) InstancePool
  unfolding last_item drop_last
  remove_rounds zero ip items = pure ip
  remove_rounds (suc n) ip items = do
    last ← or_crash (last_item items)
    leave_on (← invoke env (Call.instance_delete last.meta.name)) (λ e. (ip, some e))
    remove_rounds n (one_removed ip) (drop_last items)

  unfoldable pub remove_instances : InstancePool → Func W (InstancePool × Option Error)
  unfolding remove_rounds
  remove_instances ip = body do
    items ← or_leave (← invoke env (Call.instance_list (selector ip))) (λ e. (ip, some e))
    ip' ← elim items [
      | [] ↦ pure ip
      | x ∷ xs ↦ remove_rounds (neg_part ip.status.needed) ip (x ∷ xs)
    ]
    invoke env
        (Call.pool_update_status (with_status (record (ip'.status) { status = "submitted" }) ip'))
