-- ===== src/Tests/Settings.antt =====
-- Configurations of both programs.
use valon.Prelude.{
  if◌then◌else◌, ◌≡◌, refl, ◌⊎◌, Option, none, some, List, [], ◌∷◌, Bytes, codes, ok, ◌≟◌,
}
use valon.Ctl.Config.{Config}
use valon.Ctl.Connect.{TlsConfig, TlsSettings, Library, new_etcd_client}
use valon.Ctl.Connect.Uses.{Outcome, new_etcd_client-Outcome}
use valon.Ctl.Root.{IsComplete, persistent_pre_run, persistent_pre_run-IsComplete}

-- one file with the certificates, whose text is the pool; there is no key
abbrev files : Library Bytes Bytes (Option (TlsSettings Bytes Bytes))
files = record {
  read_file = λ name. if name ≟ codes "ca.pem" then some (codes "CA") else none;
  append_certs = λ text. some text;
  load_key_pair = λ cert key. none;
  new_client = λ endpoints settings. some settings;
}

abbrev tls : TlsConfig
tls = record { ca_cert = codes "ca.pem"; client_cert = codes "cert.pem"; client_key = [] }

abbrev endpoints : List Bytes
endpoints = codes "https://localhost:2379" ∷ []

new_etcd_client-Outcome_example :
    Outcome files endpoints
      (some (codes "http://localhost:8053"))
      (some tls)
      (new_etcd_client files endpoints (some tls) (some (codes "http://localhost:8053")))
new_etcd_client-Outcome_example =
    new_etcd_client-Outcome files endpoints (some (codes "http://localhost:8053")) (some tls)

abbrev settings : Config
settings = record {
  wg_interface = codes "wg0";
  ip = codes "100.100.0.1";
  endpoint = [];
  network = codes "100.100.0.0/24";
  dns_zone = codes "valon.internal";
  etcd_endpoints = endpoints;
  api_url = codes "http://localhost:8053";
}

abbrev read_any : Bytes → Option Bytes
read_any path = some path

abbrev unmarshal : Bytes → Option Config
unmarshal text = some settings

runs_list : persistent_pre_run read_any unmarshal [] (codes "list") ≡ ok (some settings)
unfolding persistent_pre_run ◌≟◌ valon.Ctl.Config.load
runs_list = refl

persistent_pre_run-IsComplete_example :
    (codes "list" ≡ codes "version")
    ⊎ ((codes "list" ≡ codes "help") ⊎ ((c : Config) × (some settings ≡ some c) × IsComplete c))
persistent_pre_run-IsComplete_example =
    persistent_pre_run-IsComplete read_any unmarshal [] (codes "list") (some settings) runs_list
