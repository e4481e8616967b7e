-- ===== src/Controllers/Mutex.antt =====
-- pkg/controllers: what holds over every history of the mutex and of the instances that are created.
use harvester_equinix_addon.Prelude.{
  ℕ, ◌+◌, ◌≤◌, ◌≡◌, refl, ap, ◌∙◌, inl, inr, true, false, Option, ◌++◌, Bool-cases, arith,
}
use harvester_equinix_addon.Prelude.Int.{pos_part}
use harvester_equinix_addon.Api.{InstancePool}
use harvester_equinix_addon.Services.{Services, Error, Exit, State, Makes, Makes-mono}
use harvester_equinix_addon.PoolController.Submit.Count.{creates, creates-Makes}
use harvester_equinix_addon.PoolController.Submit.Lock.{Submission, submitted, stopped}
use harvester_equinix_addon.Controllers.Steps.{Calm, demand, Handled, handle-Handled}
use harvester_equinix_addon.Controllers.{Event, handle, History}

creates_same :
    {W : Type 0} (e : Event) (s t : State W)
    → Makes (Calm e) s t
    → creates t.calls ≡ creates s.calls
creates_same e s t m = creates-Makes s t (Makes-mono (λ c h. h.1) m)

-- What one event may do to the mutex and to the number of created instances.
pub record Balance {W : Type 0} (n : ℕ) (s t : State W) : Type 0 where
  pub at_most : creates t.calls ≤ creates s.calls + n
  pub exact : t.locked ≡ false → creates t.calls ≡ creates s.calls + n
  pub kept : s.locked ≡ true → (t.locked ≡ true) × (creates t.calls ≡ creates s.calls)

Submission-Balance :
    {W : Type 0} (ip : InstancePool) (s : State W) (r : Exit (InstancePool × Option Error))
    (t : State W) (n : ℕ)
    → s.locked ≡ false
    → n ≡ pos_part ip.status.needed
    → Submission ip s r t
    → Balance n s t
unfolding creates
Submission-Balance ip s r t n free d (submitted new e h c a k l) =
    let grown : creates t.calls ≡ creates (new ++ s.calls) = ap creates c in
    record { at_most = omega arith; exact = λ _. omega arith; kept = λ held. absurd (cc) }
Submission-Balance ip s r t n free d (stopped new h c a k l) = record {
  at_most = omega arith;
  exact = λ free'. absurd (cc);
  kept = λ held. absurd (cc);
}

Handled-Balance : {W : Type 0} (e : Event) (s t : State W) → Handled e s t → Balance (demand e) s t
Handled-Balance e s t (Handled.calm m d) =
    let same = creates_same e s t m in
    record {
      at_most = omega arith;
      exact = λ _. omega arith;
      kept = λ held. (m.same_lock ∙ held, same);
    }
Handled-Balance e s t (Handled.waited held same) =
    rw same
      (record { at_most = omega arith; exact = λ free. absurd (cc); kept = λ held'. (held, refl) })
Handled-Balance e s t (Handled.submitted ip r free d given sub) =
    Submission-Balance ip s r t (demand e) free d sub

locked_before :
    {W : Type 0} {n : ℕ} {s t : State W} → Balance n s t → t.locked ≡ false → s.locked ≡ false
locked_before {s = s} b free = elim (Bool-cases s.locked) [
  | inl held ↦ absurd (cc (b.kept held).0)
  | inr free ↦ free
]

Balance-trans :
    {W : Type 0} {m n : ℕ} {s t u : State W} → Balance m s t → Balance n t u → Balance (m + n) s u
Balance-trans b c = record {
  at_most = omega (arith, b.at_most, c.at_most);
  exact = λ free. omega (arith, b.exact (locked_before c free), c.exact free);
  kept = λ held. let (l, e) = b.kept held in let (l', e') = c.kept l in (l', e' ∙ e);
}

module _ {W : Type 0} (env : Services W) {s : State W} where
  -- The number of instances that the events of a history have asked for.
  pub demanded : {t : State W} → History env s t → ℕ
  demanded History.start = 0
  demanded (History.handled h e) = demanded h + demand e
  demanded (History.elsewhere h w) = demanded h

  -- Over any history, whatever the services reply and whatever changes outside, at most as many
  -- instances are created as the pools that were to submit needed, and exactly as many if the mutex is
  -- free in the end; and once the mutex is held it is held for ever, and none is created any more.
  pub history-Balance : {t : State W} (h : History env s t) → Balance (demanded h) s t
  unfolding demanded
  history-Balance History.start = record {
    at_most = omega arith;
    exact = λ _. omega arith;
    kept = λ held. (held, refl);
  }
  history-Balance (History.handled {t = t} h e) =
      Balance-trans (history-Balance h)
        (Handled-Balance e t (handle env e t) (handle-Handled env e t))
  history-Balance (History.elsewhere h w) =
      let b = history-Balance h in record { at_most = b.at_most; exact = b.exact; kept = b.kept }
