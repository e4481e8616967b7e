-- ===== src/PoolController/Remove/Outcome.antt =====
-- pkg/controllers/instancepool/instancepool.go, `removeInstances`: every way in which it can end.
use harvester_equinix_addon.Prelude.{
  ℕ, zero, suc, ◌≤◌, ◌<◌, ◌≡◌, refl, ap, ◌∙◌, inl, inr, Option, none, some, List, ◌∷◌, ◌++◌, map,
  arith, length, Option-cases,
}
use harvester_equinix_addon.Prelude.Int.{pos, neg_part, ◌-ℤ◌}
use harvester_equinix_addon.Api.{Instance, InstancePool}
use harvester_equinix_addon.Services.{
  Services, Error, Call, State, Flow, next, return, panic, blocked, Exit, ok, statements, returned,
  panicked, waiting,
}
use harvester_equinix_addon.PoolController.Reconcile.{selector}
use harvester_equinix_addon.PoolController.Prepare.{with_status}
use harvester_equinix_addon.PoolController.Remove.{remove_rounds, remove_instances, many_removed}
use harvester_equinix_addon.PoolController.Remove.Counters.{
  neg, HasRoom, needed-many_removed, requested-many_removed,
}
use harvester_equinix_addon.PoolController.Remove.Rounds.{
  deletion, Rounds, remove_rounds-Rounds, remove_rounds-panic,
}

-- The `n` last of the items, and a pool that lacks them.
pub record Gone (n : ℕ) (ip : InstancePool) (items : List Instance) (p : InstancePool)
    : Type 0 where
  pub kept : List Instance
  pub gone : List Instance
  pub split : items ≡ kept ++ gone
  pub as_many : length gone ≡ n
  pub needs_none : p.status.needed ≡ pos 0
  pub requests : p.status.requested ≡ ip.status.requested -ℤ pos n
  pub submitted : p.status.status ≡ "submitted"

-- How `removeInstances` ends over a list of items of which the `n` last are to go, by what it returns
-- and the calls that it has made after those in `before`.
pub data Ending (n : ℕ) (ip : InstancePool) (items : List Instance) (before : List Call)
    (o : Exit (InstancePool × Option Error) × List Call) : Type 0 where
  -- The last `n` have been deleted, the last of all first, and the status is written.
  removed :
      (p : InstancePool) (g : Gone n ip items p) (u : InstancePool × Option Error)
      → o ≡ (returned u, Call.pool_update_status p ∷ map deletion g.gone ++ before)
      → Ending n ip items before o
  -- A deletion has failed, after `k` that went well, and the object that comes back counts those `k`.
  failed :
      (k : ℕ) (kept gone : List Instance) (e : Error)
      → k < n
      → items ≡ kept ++ gone
      → length gone ≡ suc k
      → o ≡ (returned (many_removed k ip, some e), map deletion gone ++ before)
      → Ending n ip items before o
  -- All items have been deleted, and more were to go: an index is out of range.
  overrun :
      length items < n → o ≡ (panicked, map deletion items ++ before) → Ending n ip items before o

neg_part-neg : (n : ℕ) → neg_part (neg n) ≡ n
neg_part-neg zero = refl
neg_part-neg (suc n) = refl

module _ {W : Type 0} (env : Services W) (ip : InstancePool) (s : State W) (x : Instance)
    (xs : List Instance) (w : W) (n : ℕ)
    (listed : env.perform (Call.instance_list (selector ip)) s.world ≡ (ok (x ∷ xs), w))
    (surplus : ip.status.needed ≡ neg n) where
  abbrev start : State W
  start = record s { world = w; calls = Call.instance_list (selector ip) ∷ s.calls }

  -- The end of the function, by how the rounds have ended.
  abbrev tail :
      Flow (InstancePool × Option Error) InstancePool × State W
      → Exit (InstancePool × Option Error) × List Call
  tail (next p, t) =
      let q = with_status (record (p.status) { status = "submitted" }) p in
      (
        returned (env.perform (Call.pool_update_status q) t.world).0,
        Call.pool_update_status q ∷ t.calls,
      )
  tail (return r, t) = (returned r, t.calls)
  tail (panic, t) = (panicked, t.calls)
  tail (blocked, t) = (waiting, t.calls)

  tail_panic :
      (r : Flow (InstancePool × Option Error) InstancePool × State W)
      → r.0 ≡ panic
      → (tail r).0 ≡ panicked
  tail_panic (next p, t) h = cc
  tail_panic (return p, t) h = cc
  tail_panic (panic, t) h = refl
  tail_panic (blocked, t) h = cc

  remove_instances-tail :
      let (r, t) = remove_instances env ip s in
      ◌≡◌ {A = Exit (InstancePool × Option Error) × List Call}
        (r, t.calls)
        (tail (remove_rounds env n ip (x ∷ xs) start))
  unfolding remove_instances statements
  remove_instances-tail = ground (arith, neg_part-neg n)

  tail-Ending :
      n ≤ 9223372036854775808
      → HasRoom n ip.status.requested
      → (r : Flow (InstancePool × Option Error) InstancePool × State W)
      → Rounds n ip (x ∷ xs) start r
      → Ending n ip (x ∷ xs) start.calls (tail r)
  tail-Ending small room (next p, t) (kept, gone, e, l, m, c) =
      let q : InstancePool = with_status (record (p.status) { status = "submitted" }) p in
      let u : InstancePool × Option Error = (env.perform (Call.pool_update_status q) t.world).0 in
      Ending.removed q
        (record {
          kept = kept;
          gone = gone;
          split = e;
          as_many = l;
          needs_none = ap (λ q. q.status.needed) m ∙ needed-many_removed n ip surplus small;
          requests = ap (λ q. q.status.requested) m ∙ requested-many_removed n ip room;
          submitted = refl;
        })
        u (ap (λ calls. (returned u, Call.pool_update_status q ∷ calls)) c)
  tail-Ending small room (return (p, e), t) (k, kept, gone, b, split, l, m, ne, c) =
      elim (Option-cases e) [
        | inl h ↦ absurd (ne h)
        | inr (e', h) ↦ Ending.failed k kept gone e' b split l (cc (m, h, c))
      ]
  tail-Ending small room (panic, t) (l, c) = Ending.overrun l (cc c)
  tail-Ending small room (blocked, t) h = absurd h

  -- A removal over a list that is not empty ends in one of the three ways of `Ending`, whatever the
  -- services reply, if the counters are in the range of an `int`.
  pub remove_instances-Ending :
      n ≤ 9223372036854775808
      → HasRoom n ip.status.requested
      → let (r, t) = remove_instances env ip s in
        Ending n ip (x ∷ xs) (Call.instance_list (selector ip) ∷ s.calls) (r, t.calls)
  remove_instances-Ending small room = rw remove_instances-tail (
      tail-Ending small room (remove_rounds env n ip (x ∷ xs) start)
        (remove_rounds-Rounds env n ip (x ∷ xs) start))

  -- If an instance is listed, but fewer than are to go, and no deletion fails, the code panics.
  pub remove_instances_overrun :
      ((y : Instance) (v : W) → (env.perform (deletion y) v).0 ≡ none)
      → length (x ∷ xs) < n
      → (remove_instances env ip s).0 ≡ panicked
  remove_instances_overrun fine short =
      ap (λ o. o.0) remove_instances-tail
      ∙ tail_panic (remove_rounds env n ip (x ∷ xs) start)
          (remove_rounds-panic env fine n ip (x ∷ xs) start short)
