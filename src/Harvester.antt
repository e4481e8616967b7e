-- ===== src/Harvester.antt =====
-- The configuration of a Harvester node: pkg/harvester/config.go.
pub mod Copy
use harvester_equinix_addon.Prelude.{String, Bool, Option, List}
use harvester_equinix_addon.Api.{StringMap}

pub record NetworkInterface : Type 0 where
  pub name : String
  pub hw_addr : String

pub record Network : Type 0 where
  pub interfaces : List NetworkInterface
  pub method : String
  pub ip : String
  pub subnet_mask : String
  pub gateway : String
  pub default_route : Bool
  pub bond_options : Option StringMap

pub record HttpBasicAuth : Type 0 where
  pub user : String
  pub password : String

pub record Webhook : Type 0 where
  pub event : String
  pub method : String
  pub headers : List (String × List String)
  pub url : String
  pub payload : String
  pub insecure : Bool
  pub basic_auth : HttpBasicAuth

pub record Install : Type 0 where
  pub automatic : Bool
  pub mode : String
  pub networks : Option (List (String × Network))
  pub vip : String
  pub vip_hw_addr : String
  pub vip_mode : String
  pub force_efi : Bool
  pub device : String
  pub config_url : String
  pub silent : Bool
  pub iso_url : String
  pub power_off : Bool
  pub no_format : Bool
  pub debug : Bool
  pub tty : String
  pub force_gpt : Bool
  pub webhooks : List Webhook

pub record Wifi : Type 0 where
  pub name : String
  pub passphrase : String

pub record File : Type 0 where
  pub encoding : String
  pub content : String
  pub owner : String
  pub path : String
  pub raw_file_permissions : String

pub record Os : Type 0 where
  pub ssh_authorized_keys : List String
  pub write_files : List File
  pub hostname : String
  pub modules : List String
  pub sysctls : StringMap
  pub ntp_servers : List String
  pub dns_nameservers : List String
  pub wifi : List Wifi
  pub password : String
  pub environment : StringMap

pub record HarvesterConfig : Type 0 where
  pub server_url : String
  pub token : String
  pub os : Os
  pub install : Install
  pub runtime_version : String
