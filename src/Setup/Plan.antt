-- ===== src/Setup/Plan.antt =====
-- main.go and pkg/controllers/controllers.go: the steps of the start in their order, and where an
-- error stops them.
use harvester_equinix_addon.Prelude.{Bool, true, false, List, [], ◌∷◌, ◌++◌, ◌≡◌, refl, ap, ◌∙◌}
use harvester_equinix_addon.Services.{Result, ok, err}
use harvester_equinix_addon.Setup.{
  Handler, Step, Outside, Log, Setup, ◌>>◌, attempt, perform, taken, after, setup_code,
}
use harvester_equinix_addon.Setup.Crd.{Library, list, create}
use harvester_equinix_addon.Setup.Startup.{
  register_instance, register_instance_pool, register, start,
}

-- Steps in order, each with whether its error stops what follows.
abbrev pub Plan : Type 0 → Type 0
Plan C = List (Bool × Step C)

module _ {C W : Type 0} (out : Outside C W) where
  -- The run of a plan.
  unfoldable pub follow : Plan C → Setup C W (Unit {0})
  follow [] s = (ok tt, s)
  follow ((true, x) ∷ p) s = (attempt out x >> follow p) s
  follow ((false, x) ∷ p) s = (perform out x >> follow p) s

  record Follows (m : Setup C W (Unit {0})) (p : Plan C) : Type 0 where
    follows : (s : Log C W) → m s ≡ follow p s

  after_after :
      {A B : Type 0} (f : A → Setup C W (Unit {0})) (g : Unit {0} → Setup C W B)
      (r : Result A × Log C W)
      → after g (after f r) ≡ after (λ a t. after g (f a t)) r
  after_after f g (ok a, t) = refl
  after_after f g (err e, t) = refl

  after_ext :
      {A B : Type 0} (f g : A → Setup C W B) (r : Result A × Log C W)
      → ((a : A) (t : Log C W) → f a t ≡ g a t)
      → after f r ≡ after g r
  after_ext f g (ok a, t) h = h a t
  after_ext f g (err e, t) h = refl

  follow-append :
      (p q : Plan C) (s : Log C W) → after (λ _. follow q) (follow p s) ≡ follow (p ++ q) s
  unfolding follow setup_code
  follow-append [] q s = refl
  follow-append ((true, x) ∷ p) q s =
      after_after (λ _. follow p) (λ _. follow q) (attempt out x s)
      ∙ after_ext _ _ (attempt out x s) (λ a t. follow-append p q t)
  follow-append ((false, x) ∷ p) q s = follow-append p q (taken out x s)

  attempt-Follows : (x : Step C) → Follows (attempt out x) ((true, x) ∷ [])
  unfolding follow setup_code
  attempt-Follows x = record { follows = λ s. stays (attempt out x s) }
    where
      stays : (r : Result (Unit {0}) × Log C W) → r ≡ after (λ _ t. (ok tt, t)) r
      stays (ok a, t) = refl
      stays (err e, t) = refl

  perform-Follows : (x : Step C) → Follows (perform out x) ((false, x) ∷ [])
  unfolding follow setup_code
  perform-Follows x = record { follows = λ s. refl }

  then-Follows :
      {m k : Setup C W (Unit {0})} {p q : Plan C}
      → Follows m p
      → Follows k q
      → Follows (m >> k) (p ++ q)
  unfolding setup_code
  then-Follows {m} {k} {p} {q} h g = record {
    follows = λ s.
        ap (after (λ _. k)) (h.follows s)
        ∙ after_ext (λ _. k) (λ _. follow q) (follow p s) (λ a t. g.follows t)
        ∙ follow-append p q s;
  }

module _ {C O W : Type 0} (lib : Library C O) (out : Outside C W) where
  register_instance-Follows : Follows out (register_instance lib out) (
      (false, Step.on_change "node-change" Handler.resolve_node)
      ∷ (false, Step.on_change "instance-change" Handler.on_instance_change)
      ∷ (false, Step.on_remove "instance-remove" Handler.on_instance_remove)
      ∷ [])
  unfolding register_instance
  register_instance-Follows =
      then-Follows out (perform-Follows out _)
        (then-Follows out (perform-Follows out _) (perform-Follows out _))

  register_instance_pool-Follows : Follows out (register_instance_pool lib out) (
      (false, Step.watch_cluster_scoped "instancePool-instance-change" Handler.reconcile_node_pool)
      ∷ (false, Step.on_change "instancePool-change" Handler.wrapper)
      ∷ [])
  unfolding register_instance_pool
  register_instance_pool-Follows = then-Follows out (perform-Follows out _) (perform-Follows out _)

  create-Follows :
      Follows out
        (create lib out)
        ((true, Step.crd_factory) ∷ (true, Step.batch_create (list lib)) ∷ [])
  unfolding create
  create-Follows = then-Follows out (attempt-Follows out _) (attempt-Follows out _)

  -- The start in order.
  abbrev pub start_plan : Plan C
  start_plan =
      (true, Step.client_config)
      ∷ (true, Step.crd_factory)
      ∷ (true, Step.batch_create (list lib))
      ∷ (true, Step.client_config)
      ∷ (true, Step.shared_client_factory)
      ∷ (false, Step.shared_controller_factory 5000000 300000000000 5)
      ∷ (true, Step.instance_factory)
      ∷ (true, Step.core_factory)
      ∷ (false, Step.on_change "node-change" Handler.resolve_node)
      ∷ (false, Step.on_change "instance-change" Handler.on_instance_change)
      ∷ (false, Step.on_remove "instance-remove" Handler.on_instance_remove)
      ∷ (
        false,
        Step.watch_cluster_scoped "instancePool-instance-change" Handler.reconcile_node_pool,
      )
      ∷ (false, Step.on_change "instancePool-change" Handler.wrapper)
      ∷ (true, Step.start_all 5)
      ∷ []

  start-Follows : Follows out (start lib out) start_plan
  unfolding start register
  start-Follows = then-Follows out (attempt-Follows out _) (
      then-Follows out create-Follows (
        then-Follows out (attempt-Follows out _) (
          then-Follows out (attempt-Follows out _) (
            then-Follows out (perform-Follows out _) (
              then-Follows out (attempt-Follows out _) (
                then-Follows out (attempt-Follows out _) (
                  then-Follows out register_instance-Follows
                    (then-Follows out register_instance_pool-Follows (attempt-Follows out _)))))))))

  -- The start is the run of its plan: the steps in their order, up to the first that fails.
  pub start-follow : (s : Log C W) → start lib out s ≡ follow out start_plan s
  start-follow s = start-Follows.follows s
