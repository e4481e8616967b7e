-- ===== src/PoolController/Prepare.antt =====
-- pkg/controllers/instancepool/instancepool.go, `prepareInstancePool`: the join token of the cluster,
-- from the environment or from the configuration file of rancherd.
pub mod Token
use harvester_equinix_addon.Prelude.{String, Option, none, some}
use harvester_equinix_addon.Prelude.Text.{lookup}
use harvester_equinix_addon.Api.{InstancePool, InstancePoolStatus}
use harvester_equinix_addon.Services.{
  Services, Error, text, other, Call, Code, Func, ◌>>=◌, pure, crash, leave, body, invoke, or_leave,
}

abbrev pub with_status : InstancePoolStatus → InstancePool → InstancePool
with_status status ip = record ip { status = status }

module _ {W : Type 0} (env : Services W) where
  -- The `else` branch; a token that is not text fails the type assertion `token.(string)`.
  unfoldable pub token_of_config : InstancePool → Code W (InstancePool × Option Error) String
  token_of_config ip = do
    config ←
        or_leave (env.read_file "/etc/rancher/rancherd/config.yaml")
          (λ e. (ip, env.errors_wrap (some e) "unable to read config.yaml"))
    config_map ←
        or_leave (env.yaml_unmarshal_map config)
          (λ e. (ip, env.errors_wrap (some e) "unable to parse config.yaml"))
    elim (lookup "token" config_map) [
      | none ↦ leave (ip, env.errors_wrap none "no token found in config.yaml")
      | some (text token) ↦ pure token
      | some other ↦ crash
    ]

  unfoldable pub find_token : InstancePool → Code W (InstancePool × Option Error) String
  unfolding token_of_config lookup
  find_token ip = elim (env.lookup_env "TOKEN") [
    | some token ↦ pure token
    | none ↦ token_of_config ip
  ]

  unfoldable pub prepare_instance_pool : InstancePool → Func W (InstancePool × Option Error)
  unfolding find_token
  prepare_instance_pool ip = body do
    token ← find_token ip
    let status : InstancePoolStatus = record (ip.status) {
      token = token;
      needed = ip.spec.count;
      status = "tokenReady";
      requested = ip.spec.count;
    }
    invoke env (Call.pool_update_status (with_status status ip))
