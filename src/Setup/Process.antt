-- ===== src/Setup/Process.antt =====
-- main.go: how the process starts, and how it ends.
use harvester_equinix_addon.Prelude.{
  String, true, false, Option, none, some, [], ◌∷◌, ◌++◌, ◌≡◌, refl, ap,
}
use harvester_equinix_addon.Services.{Error, Result, ok, err}
use harvester_equinix_addon.Setup.{Step, Outside, Log, taken, after, outcome, setup_code}
use harvester_equinix_addon.Setup.Crd.{Library}
use harvester_equinix_addon.Setup.Startup.{ending, main}
use harvester_equinix_addon.Setup.Plan.{Plan, follow, start_plan, start-follow}

module _ {C W : Type 0} (out : Outside C W) where
  -- The log when all steps of a plan have been taken.
  abbrev pub taken_all : Plan C → Log C W → Log C W
  taken_all [] s = s
  taken_all ((b, x) ∷ p) s = taken_all p (taken out x s)

  -- No step of the plan that can stop it fails, each in the world that those before it leave.
  abbrev pub NoneFails : Plan C → Log C W → Type 0
  NoneFails [] s = Unit
  NoneFails ((true, x) ∷ p) s = ((out.perform x s.world).0 ≡ none) × NoneFails p (taken out x s)
  NoneFails ((false, x) ∷ p) s = NoneFails p (taken out x s)

  -- How the run of a plan ends: all steps have been taken, or it stops at the first that fails.
  data Ran (p : Plan C) (s : Log C W) : Result (Unit {0}) × Log C W → Type 0 where
    completed : NoneFails p s → Ran p s (ok tt, taken_all p s)
    stopped :
        (before rest : Plan C) (x : Step C) (e : Error)
        → p ≡ before ++ (true, x) ∷ rest
        → NoneFails before s
        → (out.perform x (taken_all before s).world).0 ≡ some e
        → Ran p s (err e, taken out x (taken_all before s))

  passed-Ran :
      (p : Plan C) (x : Step C) (s : Log C W) (r : Result (Unit {0}) × Log C W)
      → Ran p (taken out x s) r
      → Ran ((false, x) ∷ p) s r
  passed-Ran p x s _ (Ran.completed n) = Ran.completed n
  passed-Ran p x s _ (Ran.stopped before rest y e q n k) =
      Ran.stopped ((false, x) ∷ before) rest y e (ap (λ l. (false, x) ∷ l) q) n k

  went-Ran :
      (p : Plan C) (x : Step C) (s : Log C W) (r : Result (Unit {0}) × Log C W)
      → (out.perform x s.world).0 ≡ none
      → Ran p (taken out x s) r
      → Ran ((true, x) ∷ p) s r
  went-Ran p x s _ h (Ran.completed n) = Ran.completed (h, n)
  went-Ran p x s _ h (Ran.stopped before rest y e q n k) =
      Ran.stopped ((true, x) ∷ before) rest y e (ap (λ l. (true, x) ∷ l) q) (h, n) k

  follow-Ran : (p : Plan C) (s : Log C W) → Ran p s (follow out p s)
  unfolding follow setup_code
  follow-Ran [] s = Ran.completed tt
  follow-Ran ((true, x) ∷ p) s =
      after_attempt (out.perform x s.world).0 refl (follow-Ran p (taken out x s))
    where
      after_attempt :
          (o : Option Error)
          → (out.perform x s.world).0 ≡ o
          → Ran p (taken out x s) (follow out p (taken out x s))
          → Ran ((true, x) ∷ p) s (after (λ _. follow out p) (outcome o, taken out x s))
      after_attempt none e h = went-Ran p x s _ e h
      after_attempt (some z) e h = Ran.stopped [] p x z refl tt e
  follow-Ran ((false, x) ∷ p) s = passed-Ran p x s _ (follow-Ran p (taken out x s))

module _ {C O W : Type 0} (lib : Library C O) (out : Outside C W) (kubeconfig : String)
    (s : Log C W) where
  abbrev pub configured : Log C W
  configured = taken out (Step.get_kubeconfig kubeconfig) (taken out Step.setup_signals s)

  -- What the process has done when it serves, or when it has ended.
  pub data Process : Log C W → Type 0 where
    serving :
        NoneFails out (start_plan lib out) configured
        → Process (taken out Step.await_done (taken_all out (start_plan lib out) configured))
    ended :
        (before rest : Plan C) (x : Step C) (e : Error)
        → start_plan lib out ≡ before ++ (true, x) ∷ rest
        → NoneFails out before configured
        → (out.perform x (taken_all out before configured).world).0 ≡ some e
        → Process (taken out (Step.fatal e) (taken out x (taken_all out before configured)))

  ending-Process :
      (r : Result (Unit {0}) × Log C W)
      → Ran out (start_plan lib out) configured r
      → Process (ending lib out r)
  ending-Process _ (Ran.completed n) = Process.serving n
  ending-Process _ (Ran.stopped before rest x e p n k) = Process.ended before rest x e p n k

  -- The process makes its configuration and takes the steps of the start in the order of their plan,
  -- each in the world that those before it leave. If none that is tested for an error fails, it then
  -- waits for a signal; otherwise it takes none after the first that fails, and ends with its error.
  pub main-Process : Process (main lib out kubeconfig s)
  unfolding main
  main-Process = rw (start-follow lib out configured) (
      ending-Process (follow out (start_plan lib out) configured)
        (follow-Ran out (start_plan lib out) configured))
