-- ===== src/PoolController/Submit/Created.antt =====
-- pkg/controllers/instancepool/instancepool.go, `submitInstances`: the instances that it creates.
use harvester_equinix_addon.Prelude.{
  ℕ, zero, suc, String, ◌≡◌, refl, ◌≢◌, ◌⊎◌, inl, inr, true, some, [], ◌∷◌, arith,
}
use harvester_equinix_addon.Prelude.Text.{◌<>◌, lookup, eq_iff}
use harvester_equinix_addon.Api.{
  NetworkingConfiguration, is_empty, is_valid_type, Instance, InstancePool,
}
use harvester_equinix_addon.Services.{
  Services, Call, Only, pure-Only, leave-Only, if-Only, leave_on-Only, bind-Only, bind-Yields-Only,
  invoke-Only, run-Only, Any, Yields, if_cases-Yields, pure-Yields, leave-Yields,
}
use harvester_equinix_addon.Util.Calls.{rand_string_runes-Only, lower_rand_string_runes-Only}
use harvester_equinix_addon.PoolController.Template.{
  default_ipxe_script_url, Credentials, instance_spec, instance_meta,
}
use harvester_equinix_addon.PoolController.Submit.{networking, submit_one, submit_rounds}

-- An instance as the pool makes it: it is named after the pool and labelled with it, the pool owns
-- it, its status is blank, it has a management interface, the script for its reconfiguration is the
-- pool's or the default, and its networking is blank or the pool's, of a known type.
pub record MadeFor (ip : InstancePool) (i : Instance) : Type 0 where
  pub suffix : String
  pub named : i.meta.name ≡ ip.meta.name <> "-" <> suffix
  pub labelled : i.meta.labels ≡ ("instancePool", ip.meta.name) ∷ []
  pub owned :
      i.meta.owner_references
      ≡ record {
        api_version = "equinix.harvesterhci.io/v1";
        kind = "InstancePool";
        name = ip.meta.name;
        uid = ip.meta.uid;
      }
        ∷ []
  pub blank : i.status ≡ record { status = ""; instance_id = ""; public_ip = ""; private_ip = "" }
  pub manageable : i.spec.management_interfaces ≢ []
  pub reconfigured :
      (ip.spec.ipxe_script_url ≢ ""
        → lookup "reconfig_ipxe_url" i.meta.annotations ≡ some ip.spec.ipxe_script_url)
      × (ip.spec.ipxe_script_url ≡ ""
          → lookup "reconfig_ipxe_url" i.meta.annotations ≡ some default_ipxe_script_url)
  pub network :
      (ip.spec.networking_configuration.kind ≡ "")
        × (i.spec.networking_configuration ≡ record { kind = ""; interfaces = [] })
      ⊎ (is_valid_type ip.spec.networking_configuration ≡ true)
        × (i.spec.networking_configuration ≡ ip.spec.networking_configuration)

-- What may be called while the instances of the pool are submitted.
abbrev pub Submitting : InstancePool → Call → Type 0
Submitting ip (Call.instance_create i) = MadeFor ip i
Submitting ip (Call.secret_get namespace name) = Unit
Submitting ip (Call.node_list selector) = Unit
Submitting ip (Call.service_get namespace name) = Unit
Submitting ip Call.now = Unit
Submitting ip (Call.rand_seed t) = Unit
Submitting ip (Call.rand_intn n) = Unit
Submitting ip _ = ⊥

-- The networking of an instance of the pool.
abbrev Networked : InstancePool → NetworkingConfiguration → Type 0
Networked ip n =
    (ip.spec.networking_configuration.kind ≡ "") × (n ≡ record { kind = ""; interfaces = [] })
    ⊎ (is_valid_type ip.spec.networking_configuration ≡ true)
      × (n ≡ ip.spec.networking_configuration)

module _ {W : Type 0} (env : Services W) (ip : InstancePool) where
  networking-Yields : Yields Any (Networked ip) (networking env ip)
  unfolding networking
  networking-Yields =
      if_cases-Yields (is_empty ip.spec.networking_configuration)
        (λ e. pure-Yields _ (inl ((eq_iff _ "").0 (unfold is_empty in e), refl)))
        λ _.
          if_cases-Yields (is_valid_type ip.spec.networking_configuration)
            (λ e. pure-Yields _ (inr (e, refl))) (λ _. leave-Yields _ tt)

  networking-Only : Only (Submitting ip) (networking env ip)
  unfolding networking
  networking-Only =
      if-Only (is_empty ip.spec.networking_configuration) (pure-Only _)
        (if-Only (is_valid_type ip.spec.networking_configuration) (pure-Only _) (leave-Only _))

  made :
      (suffix token project_id password user_data : String) (n : NetworkingConfiguration)
      → Networked ip n
      → MadeFor ip (record {
        meta = instance_meta ip suffix token password;
        spec = record (instance_spec ip project_id) {
          networking_configuration = n;
          user_data = user_data;
        };
        status = record { status = ""; instance_id = ""; public_ip = ""; private_ip = "" };
      })
  unfolding instance_meta instance_spec lookup
  made suffix token project_id password user_data n h = record {
    suffix = suffix;
    named = refl;
    labelled = refl;
    owned = refl;
    blank = refl;
    manageable = ground arith;
    reconfigured = (
      λ ne. ground (arith, eq_iff ip.spec.ipxe_script_url ""),
      λ e. ground (arith, eq_iff ip.spec.ipxe_script_url ""),
    );
    network = h;
  }

  submit_one-Only : (c : Credentials) → Only (Submitting ip) (submit_one env ip c)
  unfolding submit_one
  submit_one-Only c =
      bind-Only (run-Only (lower_rand_string_runes-Only env tt (λ t. tt) (λ n. tt) 8)) λ suffix.
        bind-Only (run-Only (rand_string_runes-Only env tt (λ t. tt) (λ n. tt) 16)) λ password.
          bind-Yields-Only (Networked ip) networking-Only networking-Yields λ n h.
            bind-Only (leave_on-Only _ _) λ _.
              bind-Only
                (invoke-Only env (Call.instance_create _)
                  (made suffix c.token c.project_id password _ n h))
                (λ e. leave_on-Only e _)

  -- Whatever the services reply, the rounds of a pool create no instance but as the pool makes it, and
  -- besides that they only read the clock and draw random numbers, or read secrets, nodes and services.
  pub submit_rounds-Only :
      (n : ℕ) (c : Credentials) → Only (Submitting ip) (submit_rounds env n ip c)
  unfolding submit_rounds
  submit_rounds-Only zero c = pure-Only tt
  submit_rounds-Only (suc n) c = bind-Only (submit_one-Only c) (λ _. submit_rounds-Only n c)
