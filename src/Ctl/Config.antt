-- ===== src/Ctl/Config.antt =====
-- valonctl/pkg/config/config.go. Reading the file and YAML are outside: a parameter.
use valon.Prelude.{
  Bool, Option, none, some, List, [], ◌∷◌, Bytes, codes, Result, ok, err, if◌then◌else◌, ◌≟◌, true,
  false,
}

pub record Config : Type 0 where
  pub wg_interface : Bytes
  pub ip : Bytes
  pub endpoint : Bytes
  pub network : Bytes
  pub dns_zone : Bytes
  pub etcd_endpoints : List Bytes
  pub api_url : Bytes

abbrev pub default_config_path : Bytes
default_config_path = codes "/etc/valon/valonctl.yml"

pub data ConfigError : Type 0 where
  read_failed parse_failed : Bytes → ConfigError
  interface_required ip_required network_required dns_zone_required endpoints_required
        api_url_required :
      ConfigError

abbrev is_empty : List Bytes → Bool
is_empty [] = true
is_empty (x ∷ xs) = false

unfoldable pub validate : Config → Option ConfigError
validate c =
    if c.wg_interface ≟ []
    then some interface_required
    else if c.ip ≟ []
    then some ip_required
    else if c.network ≟ []
    then some network_required
    else if c.dns_zone ≟ []
    then some dns_zone_required
    else if is_empty c.etcd_endpoints
    then some endpoints_required
    else if c.api_url ≟ []
    then some api_url_required
    else none

-- `os.ReadFile` and `yaml.Unmarshal`, each `none` for an error
unfoldable pub load :
    (Bytes → Option Bytes) → (Bytes → Option Config) → Bytes → Result ConfigError Config
unfolding validate
load read_file unmarshal config_path =
    let path = if config_path ≟ [] then default_config_path else config_path in
    elim (read_file path) [
      | none ↦ err (read_failed path)
      | some text ↦ elim (unmarshal text) [
        | none ↦ err (parse_failed path)
        | some c ↦ elim (validate c) [ none ↦ ok c | some x ↦ err x ]
      ]
    ]
