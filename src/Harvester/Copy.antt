-- ===== src/Harvester/Copy.antt =====
-- pkg/harvester/config.go: the copy of a configuration, its copy without secrets, how it is printed,
-- and the default options of a bond.
use harvester_equinix_addon.Prelude.{
  String, ◌≡◌, refl, ap, ◌⊎◌, false, none, some, List, [], ◌∷◌, map, All, arith, if◌then◌else◌,
}
use harvester_equinix_addon.Prelude.Text.{◌!=◌, ◌<>◌, eq_iff}
use harvester_equinix_addon.Harvester.{Network, Wifi, HarvesterConfig}
use harvester_equinix_addon.Services.{Services, Error, remote, errorf, Result, ok, err}

abbrev pub sanitize_mask : String
sanitize_mask = "***"

abbrev pub bond_mode_balance_tlb : String
bond_mode_balance_tlb = "balance-tlb"

abbrev pub new_harvester_config : HarvesterConfig
new_harvester_config = record {
  server_url = "";
  token = "";
  os = record {
    ssh_authorized_keys = [];
    write_files = [];
    hostname = "";
    modules = [];
    sysctls = [];
    ntp_servers = [];
    dns_nameservers = [];
    wifi = [];
    password = "";
    environment = [];
  };
  install = record {
    automatic = false;
    mode = "";
    networks = none;
    vip = "";
    vip_hw_addr = "";
    vip_mode = "";
    force_efi = false;
    device = "";
    config_url = "";
    silent = false;
    iso_url = "";
    power_off = false;
    no_format = false;
    debug = false;
    tty = "";
    force_gpt = false;
    webhooks = [];
  };
  runtime_version = "";
}

-- `err.Error()`.
abbrev pub error_text : Error → String
error_text (remote s) = s
error_text (errorf s) = s

-- `if s != "" { s = SanitizeMask }`.
masked : String → String
masked s = if s != "" then sanitize_mask else s

-- `for i := range copied.Wifi { copied.Wifi[i].Passphrase = SanitizeMask }`.
mask_wifi : List Wifi → List Wifi
mask_wifi [] = []
mask_wifi (w ∷ ws) = record w { passphrase = sanitize_mask } ∷ mask_wifi ws

unfoldable pub mask : HarvesterConfig → HarvesterConfig
unfolding masked mask_wifi
mask c = record c {
  os = record (c.os) { password = masked c.os.password; wifi = mask_wifi c.os.wifi };
  token = masked c.token;
}

-- `address` is what `%p` prints of the configuration, and `print` what `%+v` does.
module _ {W : Type 0} (env : Services W) (address : String) where
  unfoldable pub deep_copy : HarvesterConfig → Result HarvesterConfig
  deep_copy c = elim (env.mergo_merge new_harvester_config c) [
    | ok new_conf ↦ ok new_conf
    | err e ↦ err (
        errorf (
          "fail to create copy of harvester.HarvesterConfig at "
          <> address
          <> ": "
          <> error_text e))
  ]

  unfoldable pub sanitized : HarvesterConfig → Result HarvesterConfig
  unfolding deep_copy mask
  sanitized c = elim (deep_copy c) [ err e ↦ err e | ok copied ↦ ok (mask copied) ]

  unfoldable pub to_string : (HarvesterConfig → String) → HarvesterConfig → String
  unfolding sanitized
  to_string print c = elim (sanitized c) [ err e ↦ error_text e | ok s ↦ print s ]

unfoldable pub add_default_bond_options : Network → Network
add_default_bond_options n = record n {
  bond_options = some (("mode", bond_mode_balance_tlb) ∷ ("miimon", "100") ∷ []);
}

-- A secret is blank or masked.
abbrev pub Hidden : String → Type 0
Hidden s = (s ≡ "") ⊎ (s ≡ sanitize_mask)

pub record Sanitized (c d : HarvesterConfig) : Type 0 where
  pub password : Hidden d.os.password
  pub token : Hidden d.token
  pub passphrases : All (λ (w : Wifi). w.passphrase ≡ sanitize_mask) d.os.wifi
  pub names : map (λ (w : Wifi). w.name) d.os.wifi ≡ map (λ (w : Wifi). w.name) c.os.wifi
  -- With the secrets of `c` put back, it is `c`.
  pub rest :
      record d {
        os = record (d.os) { password = c.os.password; wifi = c.os.wifi };
        token = c.token;
      }
      ≡ c

masked-Hidden : (s : String) → Hidden (masked s)
unfolding masked
masked-Hidden s = ground (arith, eq_iff s "")

mask_wifi-All : (ws : List Wifi) → All (λ (w : Wifi). w.passphrase ≡ sanitize_mask) (mask_wifi ws)
unfolding mask_wifi
mask_wifi-All [] = tt
mask_wifi-All (w ∷ ws) = (refl, mask_wifi-All ws)

mask_wifi-names :
    (ws : List Wifi) → map (λ (w : Wifi). w.name) (mask_wifi ws) ≡ map (λ (w : Wifi). w.name) ws
unfolding mask_wifi
mask_wifi-names [] = refl
mask_wifi-names (w ∷ ws) = ap (λ ns. w.name ∷ ns) (mask_wifi-names ws)

mask-Sanitized : (c : HarvesterConfig) → Sanitized c (mask c)
unfolding mask
mask-Sanitized c = record {
  password = masked-Hidden c.os.password;
  token = masked-Hidden c.token;
  passphrases = mask_wifi-All c.os.wifi;
  names = mask_wifi-names c.os.wifi;
  rest = refl;
}

-- If a merge into a new configuration copies the other, what is printed of a configuration is the
-- print of one in which the password, the token and every Wi-Fi passphrase are blank or masked, and
-- all else is as it was.
pub to_string-Sanitized :
    {W : Type 0} (env : Services W) (address : String) (print : HarvesterConfig → String)
    → ((c : HarvesterConfig) → env.mergo_merge new_harvester_config c ≡ ok c)
    → (c : HarvesterConfig)
    → (d : HarvesterConfig) × Sanitized c d × (to_string env address print c ≡ print d)
unfolding to_string sanitized deep_copy
to_string-Sanitized env address print copies c =
    (mask c, mask-Sanitized c, ground (arith, copies c))
