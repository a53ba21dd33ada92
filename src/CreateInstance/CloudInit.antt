-- ===== src/CreateInstance/CloudInit.antt =====
-- frontend/src/components/CloudInitFields.tsx and CloudInitConfig of frontend/src/api/client.ts: what cloud-init is
-- told, and the fields that change it.
use vantric.Prelude.{ℕ, Bool, true, false, [], List, Option, none, some, if◌then◌else◌, ◌∷◌, ◌||◌}
use vantric.Prelude.Text.{Text, is_empty, join}

pub data Ipv6Mode : Type 0 where
  disabled dhcpv6 slaac static : Ipv6Mode

pub record CloudInitConfig : Type 0 where
  pub user : Text
  pub password : Text
  pub ssh_keys : Text
  pub nameservers : Text
  pub search_domain : Text
  pub upgrade_packages : Bool
  pub datasource : Text
  pub dhcp : Bool
  pub address : Text
  pub gateway : Text
  pub ipv6_mode : Ipv6Mode
  pub address6 : Text
  pub gateway6 : Text

abbrev pub empty_cloud_init : CloudInitConfig
empty_cloud_init = record {
  user = [];
  password = [];
  ssh_keys = [];
  nameservers = [];
  search_domain = [];
  upgrade_packages = false;
  datasource = [];
  dhcp = true;
  address = [];
  gateway = [];
  ipv6_mode = disabled;
  address6 = [];
  gateway6 = [];
}

-- A field that a form of cloud-init shows, with what is put into it
pub data CloudInitField : Type 0 where
  user_field password_field ssh_keys_field nameservers_field : Text → CloudInitField
  search_domain_field datasource_field address_field : Text → CloudInitField
  gateway_field address6_field gateway6_field : Text → CloudInitField
  upgrade_field dhcp_field : Bool → CloudInitField
  ipv6_mode_field : Ipv6Mode → CloudInitField

-- `{ ...value, [key]: v }`
abbrev pub set_field : CloudInitField → CloudInitConfig → CloudInitConfig
set_field (user_field v) value = record value { user = v }
set_field (password_field v) value = record value { password = v }
set_field (ssh_keys_field v) value = record value { ssh_keys = v }
set_field (nameservers_field v) value = record value { nameservers = v }
set_field (search_domain_field v) value = record value { search_domain = v }
set_field (datasource_field v) value = record value { datasource = v }
set_field (address_field v) value = record value { address = v }
set_field (gateway_field v) value = record value { gateway = v }
set_field (address6_field v) value = record value { address6 = v }
set_field (gateway6_field v) value = record value { gateway6 = v }
set_field (upgrade_field v) value = record value { upgrade_packages = v }
set_field (dhcp_field v) value = record value { dhcp = v }
set_field (ipv6_mode_field v) value = record value { ipv6_mode = v }

-- What the form reads of the template that a guest is cloned from
pub record TemplateDetail : Type 0 where
  pub cpus : ℕ
  pub memory_mb : ℕ
  pub disk_gb : ℕ
  pub cloud_init_user : Text
  pub ssh_keys : Option (List Text)
  pub nameservers : Text
  pub search_domain : Text
  pub datasource : Text
  pub upgrade_packages : Bool

-- `current || other`
abbrev pub or_text : Text → Text → Text
or_text current other = if is_empty current then other else current

-- `(template.sshKeys ?? []).join('\n')`
unfoldable pub key_lines : Option (List Text) → Text
unfolding join
key_lines none = []
key_lines (some keys) = join (10 ∷ []) keys

-- What the effect on a template makes of the configuration: what is blank is filled.
unfoldable pub prefilled : TemplateDetail → CloudInitConfig → CloudInitConfig
unfolding key_lines
prefilled template current = record current {
  user = or_text current.user template.cloud_init_user;
  ssh_keys = or_text current.ssh_keys (key_lines template.ssh_keys);
  nameservers = or_text current.nameservers template.nameservers;
  search_domain = or_text current.search_domain template.search_domain;
  datasource = or_text current.datasource template.datasource;
  upgrade_packages = current.upgrade_packages || template.upgrade_packages;
}
