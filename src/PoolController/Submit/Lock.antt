-- ===== src/PoolController/Submit/Lock.antt =====
-- pkg/controllers/instancepool/instancepool.go, `submitInstances` and its mutex `instanceLock`.
use harvester_equinix_addon.Prelude.{
  ℕ, ◌+◌, ◌≤◌, ◌≡◌, refl, sym, ap, ◌∙◌, ◌≢◌, true, false, Option, none, some, List, ◌∷◌, ◌++◌, All,
  arith,
}
use harvester_equinix_addon.Prelude.Int.{pos, pos_part}
use harvester_equinix_addon.Api.{InstancePool}
use harvester_equinix_addon.Services.{
  Services, Error, Call, State, Flow, next, return, panic, blocked, Exit, returned, panicked,
  waiting, Makes, Makes-trans, FlowHolds, Any, statements,
}
use harvester_equinix_addon.PoolController.Prepare.{with_status}
use harvester_equinix_addon.PoolController.Template.{Credentials}
use harvester_equinix_addon.PoolController.Submit.{credentials, submit_rounds, submit_instances}
use harvester_equinix_addon.PoolController.Submit.Early.{
  HasError, credentials-Only, credentials-Yields, submit_rounds-Yields,
}
use harvester_equinix_addon.PoolController.Submit.Created.{Submitting, submit_rounds-Only}
use harvester_equinix_addon.PoolController.Submit.Count.{
  creates, Added, creates-Makes, submit_rounds-Adds,
}

-- The pool when all that it needs has been submitted.
abbrev pub all_submitted : InstancePool → InstancePool
all_submitted ip = with_status (record (ip.status) { status = "submitted"; needed = pos 0 }) ip

-- How `submitInstances` ends from `s`, by what it returns and the state that it leaves.
pub data Submission {W : Type 0} (ip : InstancePool) (s : State W)
    (r : Exit (InstancePool × Option Error)) (t : State W) : Type 0 where
  -- All instances needed have been created, each as the pool makes them, the status has been
  -- written by the last call, and the mutex is free.
  submitted :
      (new : List Call) (e : Option Error)
      → r ≡ returned (all_submitted ip, e)
      → t.calls ≡ Call.pool_update_status (all_submitted ip) ∷ new ++ s.calls
      → All (Submitting ip) new
      → creates (new ++ s.calls) ≡ creates s.calls + pos_part ip.status.needed
      → t.locked ≡ false
      → Submission ip s r t
  -- An early return or a panic: the mutex is held for ever, the status has not been written, and
  -- no more instances than needed have been created.
  stopped :
      (new : List Call)
      → ((q : InstancePool) → r ≢ returned (q, none))
      → t.calls ≡ new ++ s.calls
      → All (Submitting ip) new
      → creates t.calls ≤ creates s.calls + pos_part ip.status.needed
      → t.locked ≡ true
      → Submission ip s r t

module _ {W : Type 0} (env : Services W) (ip : InstancePool) where
  -- While the mutex is held a call waits at once, and does nothing.
  pub submit_waits : (s : State W) → s.locked ≡ true → submit_instances env ip s ≡ (waiting, s)
  unfolding submit_instances statements
  submit_waits s h = ground arith

module _ {W : Type 0} (env : Services W) (ip : InstancePool) (s : State W)
    (free : s.locked ≡ false) where
  abbrev pub start : State W
  start = record s { locked = true }

  -- What comes after the loop.
  abbrev pub finishing :
      Flow (InstancePool × Option Error) (Unit {0}) × State W
      → Exit (InstancePool × Option Error) × State W
  finishing (next tt, t) =
      let (x, w) = env.perform (Call.pool_update_status (all_submitted ip)) t.world in
      (
        returned (all_submitted ip, x.1),
        record t {
          world = w;
          calls = Call.pool_update_status (all_submitted ip) ∷ t.calls;
          locked = false;
        },
      )
  finishing (return r, t) = (returned r, t)
  finishing (panic, t) = (panicked, t)
  finishing (blocked, t) = (waiting, t)

  abbrev pub looping :
      Flow (InstancePool × Option Error) Credentials × State W
      → Exit (InstancePool × Option Error) × State W
  looping (next c, t) = finishing (submit_rounds env (pos_part ip.status.needed) ip c t)
  looping (return r, t) = (returned r, t)
  looping (panic, t) = (panicked, t)
  looping (blocked, t) = (waiting, t)

  pub submit_instances-looping : submit_instances env ip s ≡ looping (credentials env ip start)
  unfolding submit_instances statements
  submit_instances-looping = ground arith

  not_done :
      (r : InstancePool × Option Error)
      → HasError r
      → (q : InstancePool) → returned r ≢ returned (q, none)
  not_done (p, none) h q e = absurd (h refl)
  not_done (p, some e') h q e = cc

  append_creates :
      (new : List Call) (t : State W)
      → t.calls ≡ new ++ s.calls
      → creates (new ++ s.calls) ≡ creates t.calls
  append_creates new t h = ap creates (sym h)

  finishing-Submission :
      (r : Flow (InstancePool × Option Error) (Unit {0})) (t : State W)
      → Makes (Submitting ip) start t
      → FlowHolds HasError Any r
      → Added (pos_part ip.status.needed) start (r, t)
      → let (r', t') = finishing (r, t) in Submission ip s r' t'
  finishing-Submission (next tt) t m y k =
      Submission.submitted m.new
        (env.perform (Call.pool_update_status (all_submitted ip)) t.world).0.1 refl
        (ap (λ calls. Call.pool_update_status (all_submitted ip) ∷ calls) m.grown) m.each
        (append_creates m.new t m.grown ∙ k) refl
  finishing-Submission (return r) t m y k =
      Submission.stopped m.new (not_done r y) m.grown m.each k m.same_lock
  finishing-Submission panic t m y k =
      Submission.stopped m.new (λ q h. cc) m.grown m.each k m.same_lock
  finishing-Submission blocked t m y k =
      Submission.stopped m.new (λ q h. cc) m.grown m.each k m.same_lock

  Added-from :
      (n : ℕ) (a b : State W) (r : Flow (InstancePool × Option Error) (Unit {0}) × State W)
      → creates b.calls ≡ creates a.calls
      → Added n b r
      → Added n a r
  Added-from n a b (next x, t) h k = omega arith
  Added-from n a b (return x, t) h k = omega arith
  Added-from n a b (panic, t) h k = omega arith
  Added-from n a b (blocked, t) h k = omega arith

  looping-Submission :
      (r : Flow (InstancePool × Option Error) Credentials) (t : State W)
      → Makes (Submitting ip) start t
      → FlowHolds HasError Any r
      → creates t.calls ≡ creates s.calls
      → let (r', t') = looping (r, t) in Submission ip s r' t'
  looping-Submission (next c) t m y k =
      let n = pos_part ip.status.needed in
      let out = submit_rounds env n ip c t in
      finishing-Submission out.0 out.1 (Makes-trans m ((submit_rounds-Only env ip n c).makes t))
        ((submit_rounds-Yields env ip n c).yields t)
        (Added-from n start t out k ((submit_rounds-Adds env ip c n).adds t))
  looping-Submission (return r) t m y k =
      Submission.stopped m.new (not_done r y) m.grown m.each (omega arith) m.same_lock
  looping-Submission panic t m y k =
      Submission.stopped m.new (λ q h. cc) m.grown m.each (omega arith) m.same_lock
  looping-Submission blocked t m y k =
      Submission.stopped m.new (λ q h. cc) m.grown m.each (omega arith) m.same_lock

  -- Whatever the services reply, a submission that finds the mutex free ends in one of two ways: it
  -- creates as many instances as the pool needs, each as the pool makes it, writes the status and
  -- frees the mutex; or it stops early, with no more instances than needed, and keeps the mutex.
  pub submit_instances-Submission : let (r, t) = submit_instances env ip s in Submission ip s r t
  submit_instances-Submission =
      let out = credentials env ip start in
      rw submit_instances-looping (
        looping-Submission out.0 out.1
          ((credentials-Only env ip (λ n m. tt) (λ l. tt) (λ n m. tt)).makes start)
          ((credentials-Yields env ip).yields start)
          (creates-Makes start out.1
            ((credentials-Only env ip (λ n m. refl) (λ l. refl) (λ n m. refl)).makes start)))

  lock_kept :
      {r : Exit (InstancePool × Option Error)} {t : State W}
      → Submission ip s r t
      → ((e : Option Error) → r ≢ returned (all_submitted ip, e))
      → t.locked ≡ true
  lock_kept (Submission.submitted new e h c a n l) ne = absurd (ne e h)
  lock_kept (Submission.stopped new ne' c a n l) ne = l

  -- After a submission that stops early, by an error or a panic before the status is written, every
  -- later submission, of any pool, waits for ever.
  pub submit_instances_deadlock :
      ((e : Option Error) → (submit_instances env ip s).0 ≢ returned (all_submitted ip, e))
      → (other : InstancePool)
      → let t = (submit_instances env ip s).1 in submit_instances env other t ≡ (waiting, t)
  submit_instances_deadlock stops other =
      submit_waits env other (submit_instances env ip s).1
        (lock_kept submit_instances-Submission stops)
