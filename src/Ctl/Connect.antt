-- ===== src/Ctl/Connect.antt =====
-- valonctl/pkg/client/etcd.go, NewEtcdClient and loadTLSConfig. The files, the parsers of
-- crypto/tls and crypto/x509 and the constructor of the etcd client are not part of the repository:
-- they are the fields of `Library`, `none` for an error.
pub mod Uses
use valon.Prelude.{
  Bool, true, false, not, ◌&&◌, Option, none, some, List, Bytes, [], Result, ok, err, if◌then◌else◌,
  ◌≟◌,
}

pub record TlsConfig : Type 0 where
  pub ca_cert : Bytes
  pub client_cert : Bytes
  pub client_key : Bytes

-- The fields of tls.Config that are set.
pub record TlsSettings (Pool Cert : Type 0) : Type 0 where
  pub root_cas : Option Pool
  pub certificate : Option Cert

pub record Library (Pool Cert Client : Type 0) : Type 0 where
  pub read_file : Bytes → Option Bytes
  -- `AppendCertsFromPEM` on a new pool
  pub append_certs : Bytes → Option Pool
  pub load_key_pair : Bytes → Bytes → Option Cert
  -- `clientv3.New`, with the endpoints and the settings for TLS if there are any
  pub new_client : List Bytes → Option (TlsSettings Pool Cert) → Option Client

pub data ConnectError : Type 0 where
  read_ca_failed append_ca_failed load_pair_failed create_failed : ConnectError

-- the endpoint of the DDNS API, empty without a configuration of it
abbrev pub url_or_empty : Option Bytes → Bytes
url_or_empty none = []
url_or_empty (some url) = url

module _ {Pool Cert Client : Type 0} (lib : Library Pool Cert Client) where
  load_ca : Bytes → Result ConnectError (Option Pool)
  load_ca ca_cert = if ca_cert ≟ [] then ok none else elim (lib.read_file ca_cert) [
    | none ↦ err read_ca_failed
    | some text ↦ elim (lib.append_certs text) [
      | none ↦ err append_ca_failed
      | some pool ↦ ok (some pool)
    ]
  ]

  load_pair : Bytes → Bytes → Result ConnectError (Option Cert)
  load_pair client_cert client_key =
      if not (client_cert ≟ []) && not (client_key ≟ [])
      then elim (lib.load_key_pair client_cert client_key) [
        | none ↦ err load_pair_failed
        | some cert ↦ ok (some cert)
      ]
      else ok none

  with_pair :
      Option Pool → Result ConnectError (Option Cert) → Result ConnectError (TlsSettings Pool Cert)
  with_pair pool (err x) = err x
  with_pair pool (ok cert) = ok (record { root_cas = pool; certificate = cert })

  with_ca :
      TlsConfig → Result ConnectError (Option Pool) → Result ConnectError (TlsSettings Pool Cert)
  unfolding with_pair load_pair
  with_ca c (err x) = err x
  with_ca c (ok pool) = with_pair pool (load_pair c.client_cert c.client_key)

  unfoldable pub load_tls_config : TlsConfig → Result ConnectError (TlsSettings Pool Cert)
  unfolding with_ca load_ca
  load_tls_config c = with_ca c (load_ca c.ca_cert)

  -- the client, and the endpoint of the DDNS API
  connected : Bytes → Option Client → Result ConnectError (Client × Bytes)
  connected ddns_endpoint none = err create_failed
  connected ddns_endpoint (some client) = ok (client, ddns_endpoint)

  with_tls :
      List Bytes
      → Bytes
      → Result ConnectError (TlsSettings Pool Cert)
      → Result ConnectError (Client × Bytes)
  unfolding connected
  with_tls endpoints ddns_endpoint (err x) = err x
  with_tls endpoints ddns_endpoint (ok settings) =
      connected ddns_endpoint (lib.new_client endpoints (some settings))

  unfoldable pub new_etcd_client :
      List Bytes → Option TlsConfig → Option Bytes → Result ConnectError (Client × Bytes)
  unfolding with_tls connected load_tls_config
  new_etcd_client endpoints none ddns_url =
      connected (url_or_empty ddns_url) (lib.new_client endpoints none)
  new_etcd_client endpoints (some tls) ddns_url =
      with_tls endpoints (url_or_empty ddns_url) (load_tls_config tls)
