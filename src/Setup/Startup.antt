-- ===== src/Setup/Startup.antt =====
-- main.go and pkg/controllers/controllers.go, with the `Register` functions of the two controllers.
use harvester_equinix_addon.Prelude.{String}
use harvester_equinix_addon.Services.{Result, ok, err}
use harvester_equinix_addon.Setup.{
  Handler, Step, Outside, Log, Setup, ◌>>◌, attempt, perform, taken,
}
use harvester_equinix_addon.Setup.Crd.{Library, create}

module _ {C O W : Type 0} (lib : Library C O) (out : Outside C W) where
  unfoldable pub register_instance : Setup C W (Unit {0})
  register_instance = do
    perform out (Step.on_change "node-change" Handler.resolve_node)
    perform out (Step.on_change "instance-change" Handler.on_instance_change)
    perform out (Step.on_remove "instance-remove" Handler.on_instance_remove)

  unfoldable pub register_instance_pool : Setup C W (Unit {0})
  register_instance_pool = do
    perform out
        (Step.watch_cluster_scoped "instancePool-instance-change" Handler.reconcile_node_pool)
    perform out (Step.on_change "instancePool-change" Handler.wrapper)

  unfoldable pub register : Setup C W (Unit {0})
  unfolding register_instance register_instance_pool
  register = do
    attempt out Step.client_config
    attempt out Step.shared_client_factory
    perform out (Step.shared_controller_factory 5000000 300000000000 5)
    attempt out Step.instance_factory
    attempt out Step.core_factory
    register_instance
    register_instance_pool
    attempt out (Step.start_all 5)

  unfoldable pub start : Setup C W (Unit {0})
  unfolding register create
  start = do attempt out Step.client_config; create lib out; register

  -- After an error the process ends; otherwise it waits for a signal.
  abbrev pub ending : Result (Unit {0}) × Log C W → Log C W
  ending (err e, t) = taken out (Step.fatal e) t
  ending (ok u, t) = taken out Step.await_done t

  unfoldable pub main : String → Log C W → Log C W
  unfolding start
  main kubeconfig s =
      ending (start (taken out (Step.get_kubeconfig kubeconfig) (taken out Step.setup_signals s)))
