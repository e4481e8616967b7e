-- ===== src/PoolController/Prepare/Token.antt =====
-- pkg/controllers/instancepool/instancepool.go, `prepareInstancePool`: the places of the join token.
use harvester_equinix_addon.Prelude.{String, ◌≡◌, Option, none, some, List, ◌∷◌, arith}
use harvester_equinix_addon.Prelude.Text.{lookup}
use harvester_equinix_addon.Api.{InstancePool}
use harvester_equinix_addon.Services.{
  Services, ok, text, YamlValue, Call, State, returned, statements,
}
use harvester_equinix_addon.PoolController.Prepare.{
  with_status, token_of_config, find_token, prepare_instance_pool,
}

-- The pool once its join token is known: all its instances are requested and needed.
abbrev pub ready : String → InstancePool → InstancePool
ready token ip =
    with_status
      (record {
        status = "tokenReady";
        needed = ip.spec.count;
        ready = ip.status.ready;
        requested = ip.spec.count;
        token = token;
      })
      ip

-- The configuration file of rancherd maps the key "token" to this value, or to none.
pub record Configured {W : Type 0} (env : Services W) (value : Option YamlValue) : Type 0 where
  pub file : String
  pub entries : List (String × YamlValue)
  pub unset : env.lookup_env "TOKEN" ≡ none
  pub read : env.read_file "/etc/rancher/rancherd/config.yaml" ≡ ok file
  pub parsed : env.yaml_unmarshal_map file ≡ ok entries
  pub has : lookup "token" entries ≡ value

-- Where a join token can come from.
pub data TokenSource {W : Type 0} (env : Services W) (token : String) : Type 0 where
  from_env : env.lookup_env "TOKEN" ≡ some token → TokenSource env token
  from_config : Configured env (some (text token)) → TokenSource env token

module _ {W : Type 0} (env : Services W) (ip : InstancePool) (s : State W) where
  -- A pool whose token has a source becomes ready by one call, and what the server replies comes back.
  pub prepare-ready :
      (token : String)
      → TokenSource env token
      → prepare_instance_pool env ip s ≡ (
          let (reply, w) = env.perform (Call.pool_update_status (ready token ip)) s.world in
          (
            returned reply,
            record s { world = w; calls = Call.pool_update_status (ready token ip) ∷ s.calls },
          ))
  unfolding prepare_instance_pool find_token token_of_config statements
  prepare-ready token (TokenSource.from_env h) = ground arith
  prepare-ready token (TokenSource.from_config c) = ground (arith, c.unset, c.read, c.parsed, c.has)
