-- ===== src/Ctl/Root.antt =====
-- valonctl/cmd/root.go: what runs before every command. The configuration of an earlier run of the
-- program is never there, so `none` is the nil pointer with which a command starts that needs none.
use valon.Prelude.{
  ◌≡◌, ◌≢◌, refl, sym, ◌⊎◌, inl, inr, ◌||◌, Option, none, some, [], Bytes, codes, Result, ok, err,
  if◌then◌else◌, ◌≟◌, ◌≟◌, ≟_iff, Bool-cases, arith,
}
use valon.Ctl.Config.{Config, ConfigError, validate, load}

unfoldable pub persistent_pre_run :
    (Bytes → Option Bytes)
    → (Bytes → Option Config)
    → Bytes
    → Bytes
    → Result ConfigError (Option Config)
persistent_pre_run read_file unmarshal cfg_file command =
    if command ≟ codes "version" || command ≟ codes "help"
    then ok none
    else elim (load read_file unmarshal cfg_file) [ err x ↦ err x | ok c ↦ ok (some c) ]

-- every setting that a command needs
pub record IsComplete (c : Config) : Type 0 where
  pub has_interface : c.wg_interface ≢ []
  pub has_ip : c.ip ≢ []
  pub has_network : c.network ≢ []
  pub has_dns_zone : c.dns_zone ≢ []
  pub has_endpoints : c.etcd_endpoints ≢ []
  pub has_api_url : c.api_url ≢ []

validate-IsComplete : (c : Config) → validate c ≡ none → IsComplete c
unfolding validate
validate-IsComplete c h = ground (
  arith,
  ≟_iff c.wg_interface [],
  ≟_iff c.ip [],
  ≟_iff c.network [],
  ≟_iff c.dns_zone [],
  ≟_iff c.api_url [],
)

module _ (read_file : Bytes → Option Bytes) (unmarshal : Bytes → Option Config) where
  load-IsComplete :
      (path : Bytes) (c : Config) → load read_file unmarshal path ≡ ok c → IsComplete c
  unfolding load
  load-IsComplete path c h = validate-IsComplete c (ground arith)

  -- A command that is neither `version` nor `help` runs only with a configuration in which the
  -- interface, the address, the network, the DNS zone, the endpoints of etcd and the URL of the
  -- DDNS API are not empty.
  pub persistent_pre_run-IsComplete :
      (cfg_file command : Bytes) (started : Option Config)
      → persistent_pre_run read_file unmarshal cfg_file command ≡ ok started
      → (command ≡ codes "version")
        ⊎ ((command ≡ codes "help") ⊎ ((c : Config) × (started ≡ some c) × IsComplete c))
  unfolding persistent_pre_run
  persistent_pre_run-IsComplete cfg_file command started h =
      elim (Bool-cases (command ≟ codes "version")) [
        | inl version ↦ inl ((≟_iff command (codes "version")).0 version)
        | inr other ↦ elim (Bool-cases (command ≟ codes "help")) [
          | inl help ↦ inr (inl ((≟_iff command (codes "help")).0 help))
          | inr neither ↦
              let (c, loads, runs) =
                loaded_of (load read_file unmarshal cfg_file)
                  (rw (persistent_pre_run, other, neither) at h) in
              inr (inr (c, sym runs, load-IsComplete cfg_file c loads))
        ]
      ]
    where
      loaded_of :
          (r : Result ConfigError Config)
          → (elim r as (λ x. Result ConfigError (Option Config)) [
            | err x ↦ err x
            | ok c ↦ ok (some c)
          ])
            ≡ ok started
          → (c : Config) × (r ≡ ok c) × (some c ≡ started)
      loaded_of (err x) e = absurd cc
      loaded_of (ok c) e = (c, refl, cc)
