-- ===== src/Setup.antt =====
-- What is done once, when the program starts (main.go, pkg/controllers/controllers.go, pkg/crd/crd.go)
-- and when its code is generated (pkg/codegen): steps that reach outside, of which each can fail.
pub mod Crd
pub mod Startup
pub mod Codegen
pub mod Plan
pub mod Process
pub mod Printed
pub mod Written
use harvester_equinix_addon.Prelude.{ℕ, String, Bool, Option, none, some, List, ◌∷◌}
use harvester_equinix_addon.Services.{Error, Result, ok, err}

-- The type of the resource that a schema describes.
pub data Schema : Type 0 where
  instance instance_pool : Schema

-- The handlers that are registered.
pub data Handler : Type 0 where
  resolve_node on_instance_change on_instance_remove reconcile_node_pool wrapper : Handler

-- The options of the generator of clients: `args.Options`, with its one group.
pub record GeneratorOptions : Type 0 where
  pub output_package : String
  pub boilerplate : String
  pub group : String
  pub types : List String
  pub generate_types : Bool

-- A step outside; `C` is the library's type for the definition of a custom resource. A writer is
-- named by its file.
pub data Step (C : Type 0) : Type 0 where
  mkdir_all create_file close_file remove_all cleanup unsetenv : String → Step C
  write : String → String → Step C
  print_line : String → String → Step C
  controller_gen : GeneratorOptions → Step C
  setup_signals : Step C
  get_kubeconfig : String → Step C
  client_config : Step C
  crd_factory : Step C
  batch_create : List C → Step C
  shared_client_factory instance_factory core_factory : Step C
  -- The base and the greatest delay of the rate limiter, in nanoseconds, and the number of workers.
  shared_controller_factory : ℕ → ℕ → ℕ → Step C
  on_change on_remove watch_cluster_scoped : String → Handler → Step C
  start_all : ℕ → Step C
  await_done : Step C
  fatal panic : Error → Step C

-- The error of a step, where it has one, and what is outside after it.
pub record Outside (C W : Type 0) : Type 0 where
  pub perform : Step C → W → Option Error × W

-- The state of the outside, and the steps taken so far, the newest first.
pub record Log (C W : Type 0) : Type 0 where
  pub world : W
  pub steps : List (Step C)

-- Code that returns a value or an error.
abbrev pub Setup : Type 0 → Type 0 → Type 0 → Type 0
Setup C W A = Log C W → Result A × Log C W

abbrev pub outcome : Option Error → Result (Unit {0})
outcome none = ok tt
outcome (some e) = err e

module _ {C W : Type 0} where
  -- What follows goes on from a value, and not from an error.
  abbrev pub after : {A B : Type 0} → (A → Setup C W B) → Result A × Log C W → Result B × Log C W
  after f (ok a, t) = f a t
  after f (err e, t) = (err e, t)

  infixl 5 ◌>>=◌ ◌>>◌
  unfoldable pub ◌>>=◌ : {A B : Type 0} → Setup C W A → (A → Setup C W B) → Setup C W B
  ◌>>=◌ m f s = after f (m s)

  abbrev pub ◌>>◌ : {B : Type 0} → Setup C W (Unit {0}) → Setup C W B → Setup C W B
  m >> k = m >>= λ _. k

  -- `x, err := …; if err != nil { return err }`, on what a library computes.
  unfoldable pub lift : {A : Type 0} → Result A → Setup C W A
  lift r s = (r, s)

  -- A step taken, and the log after it.
  abbrev pub taken : Outside C W → Step C → Log C W → Log C W
  taken out x s = record { world = (out.perform x s.world).1; steps = x ∷ s.steps }

  -- A step whose error is returned.
  unfoldable pub attempt : Outside C W → Step C → Setup C W (Unit {0})
  attempt out x s = (outcome (out.perform x s.world).0, taken out x s)

  -- A step that has no error, or whose error is not looked at.
  unfoldable pub perform : Outside C W → Step C → Setup C W (Unit {0})
  perform out x s = (ok tt, taken out x s)

  -- `defer x()` before the rest of the body.
  unfoldable pub deferred : {A : Type 0} → Outside C W → Step C → Setup C W A → Setup C W A
  deferred out x m s = let (r, t) = m s in (r, taken out x t)

-- To unfold this is to unfold all of these.
unfoldable pub setup_code : Unit {0}
unfolding ◌>>=◌ lift attempt perform deferred
setup_code = tt
