-- ===== src/PoolController/Submit.antt =====
-- pkg/controllers/instancepool/instancepool.go, `submitInstances`, `generateCloudInit` and
-- `findJoinAddress`.
pub mod Lock
pub mod Created
pub mod Count
pub mod Early
pub mod Filled
pub mod Journey
use harvester_equinix_addon.Prelude.{
  ℕ, zero, suc, String, true, false, Option, none, some, List, [], ◌∷◌, if◌then◌else◌,
}
use harvester_equinix_addon.Prelude.Int.{pos, pos_part}
use harvester_equinix_addon.Prelude.Text.{◌==◌, ◌!=◌, ◌<>◌, lookup, insert, get}
use harvester_equinix_addon.Api.{
  StringMap, ObjectMeta, NetworkingConfiguration, is_empty, is_valid_type, InstanceSpec, Instance,
  InstancePool, InstancePoolStatus,
}
use harvester_equinix_addon.Harvester.{HarvesterConfig}
use harvester_equinix_addon.Services.{
  Services, Error, errorf, Result, ok, err, Call, Code, Func, ◌>>=◌, ◌>>◌, pure, crash, leave, body,
  run, invoke, or_leave, leave_on, lock, unlock,
}
use harvester_equinix_addon.Util.{rand_string_runes, lower_rand_string_runes}
use harvester_equinix_addon.Metal.CloudInit.{cloud_config}
use harvester_equinix_addon.PoolController.Prepare.{with_status}
use harvester_equinix_addon.PoolController.Template.{
  Credentials, instance_spec, instance_meta, join_config,
}

abbrev pub default_credential_secret : String
default_credential_secret = "equinix-addon"

abbrev pub default_namespace : String
default_namespace = "harvester-system"

abbrev pub default_ingress_service : String
default_ingress_service = "ingress-expose"

-- `os.Getenv(name)`, or the default where that is empty.
env_or : Option String → String → String
env_or none default = default
env_or (some v) default = if v == "" then default else v

module _ {W : Type 0} (env : Services W) where
  unfoldable pub find_join_address : Func W (Result String)
  find_join_address = body do
    service ← or_leave (← invoke env (Call.service_get "kube-system" default_ingress_service)) err
    elim service.ingress [ [] ↦ crash | ip ∷ rest ↦ pure (ok ip) ]

  unfoldable pub generate_cloud_init : InstancePool → ObjectMeta → String → String × Option Error
  generate_cloud_init ip meta join_address =
      elim (env.yaml_marshal (join_config ip meta join_address)) [
        | err e ↦
            ("", env.errors_wrap (some e) "error during marshalling harverster config to cloudInit")
        | ok config ↦ (cloud_config config, none)
      ]

  -- The networking configuration of an instance: none, or the pool's if its type is known.
  unfoldable pub networking :
      InstancePool → Code W (InstancePool × Option Error) NetworkingConfiguration
  unfolding is_empty is_valid_type
  networking ip =
      let n = ip.spec.networking_configuration in
      if is_empty n
      then pure (record { kind = ""; interfaces = [] })
      else if is_valid_type n
      then pure n
      else leave (
        ip,
        some (
            errorf (
              "invalid network configuration type " <> n.kind <> " in instancePool "
              <> ip.meta.name)),
      )

  -- One round of the loop.
  unfoldable pub submit_one :
      InstancePool → Credentials → Code W (InstancePool × Option Error) (Unit {0})
  unfolding networking
  submit_one ip c = do
    suffix ← run (lower_rand_string_runes env 8)
    password ← run (rand_string_runes env 16)
    network ← networking ip
    let meta = instance_meta ip suffix c.token password
    let spec : InstanceSpec = record (instance_spec ip c.project_id) {
      networking_configuration = network;
    }
    let (user_data, e) = generate_cloud_init ip meta c.join_address
    leave_on e (λ e. (ip, some e))
    let i : Instance = record {
      meta = meta;
      spec = record spec { user_data = user_data };
      status = record { status = ""; instance_id = ""; public_ip = ""; private_ip = "" };
    }
    leave_on (← invoke env (Call.instance_create i)) (λ e. (ip, some e))

  unfoldable pub submit_rounds :
      ℕ → InstancePool → Credentials → Code W (InstancePool × Option Error) (Unit {0})
  submit_rounds zero ip c = pure tt
  submit_rounds (suc n) ip c = submit_one ip c >> submit_rounds n ip c

  -- `token, ok := secret.Data[key]; if !ok { return … }`
  unfoldable pub secret_key :
      InstancePool → StringMap → String → Code W (InstancePool × Option Error) String
  unfolding lookup
  secret_key ip secret key = elim (lookup key secret) [
    | some v ↦ pure v
    | none ↦ leave (ip, some (errorf ("operator secret doesnt contain a key " <> key)))
  ]

  -- What stands before the loop.
  unfoldable pub credentials : InstancePool → Code W (InstancePool × Option Error) Credentials
  unfolding secret_key env_or
  credentials ip = do
    let name = env_or (env.lookup_env "EQUINIX_SECRET") default_credential_secret
    let namespace = env_or (env.lookup_env "NAMESPACE") default_namespace
    secret ← or_leave (← invoke env (Call.secret_get namespace name)) (λ e. (ip, some e))
    token ← secret_key ip secret "METAL_AUTH_TOKEN"
    project_id ← secret_key ip secret "PROJECT_ID"
    nodes ←
        or_leave (← invoke env (Call.node_list "node-role.kubernetes.io/control-plane=true"))
          (λ e. (ip, some e))
    elim nodes [
      | [] ↦ leave (ip, some (errorf "no control-plane nodes found"))
      | _ ∷ _ ↦ do
        join_address ← or_leave (← run find_join_address) (λ e. (ip, some e))
        pure (record { token = token; project_id = project_id; join_address = join_address })
    ]

  -- The loop `for i := 1; i <= ip.Status.Needed; i++` has as many rounds as are needed.
  unfoldable pub submit_instances : InstancePool → Func W (InstancePool × Option Error)
  unfolding credentials submit_rounds submit_one
  submit_instances ip = body do
    lock
    c ← credentials ip
    submit_rounds (pos_part ip.status.needed) ip c
    let status : InstancePoolStatus = record (ip.status) { status = "submitted"; needed = pos 0 }
    let ip' = with_status status ip
    (_, e) ← invoke env (Call.pool_update_status ip')
    unlock
    leave_on e (λ e. (ip', some e))
    pure (ip', none)
