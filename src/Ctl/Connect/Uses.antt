-- ===== src/Ctl/Connect/Uses.antt =====
-- What the connection to etcd is made with.
use valon.Prelude.{
  ◌≡◌, ◌≢◌, refl, ◌⊎◌, inl, inr, Option, none, some, List, [], Bytes, Result, ok, err, ◌≟◌, ne_of_≟,
  ≟_iff, Bool-cases, Option-cases,
}
use valon.Ctl.Connect.{
  url_or_empty, with_tls, connected, new_etcd_client, TlsConfig, TlsSettings, Library, ConnectError,
  read_ca_failed, append_ca_failed, load_pair_failed, create_failed, load_ca, load_pair, with_pair,
  with_ca, load_tls_config,
}

module _ {Pool Cert Client : Type 0} (lib : Library Pool Cert Client) where
  -- the root certificates are those of the file that is named, and the default ones without a name
  abbrev pub UsesCa : Bytes → Option Pool → Type 0
  UsesCa ca_cert none = ca_cert ≡ []
  UsesCa ca_cert (some pool) =
      (text : Bytes) × (lib.read_file ca_cert ≡ some text) × (lib.append_certs text ≡ some pool)

  -- the certificate is that of the two files, if both are named
  abbrev pub UsesPair : Bytes → Bytes → Option Cert → Type 0
  UsesPair client_cert client_key none = (client_cert ≡ []) ⊎ (client_key ≡ [])
  UsesPair client_cert client_key (some cert) = lib.load_key_pair client_cert client_key ≡ some cert

  abbrev pub Uses : TlsConfig → TlsSettings Pool Cert → Type 0
  Uses c settings =
      UsesCa c.ca_cert settings.root_cas × UsesPair c.client_cert c.client_key settings.certificate

  abbrev pub UsesTls : List Bytes → Option TlsConfig → Client → Type 0
  UsesTls endpoints none client = lib.new_client endpoints none ≡ some client
  UsesTls endpoints (some c) client =
      (settings : TlsSettings Pool Cert) × Uses c settings
      × (lib.new_client endpoints (some settings) ≡ some client)

  -- what an error says
  abbrev pub Failed : TlsConfig → ConnectError → Type 0
  Failed c read_ca_failed = (c.ca_cert ≢ []) × (lib.read_file c.ca_cert ≡ none)
  Failed c append_ca_failed =
      (text : Bytes) × (lib.read_file c.ca_cert ≡ some text) × (lib.append_certs text ≡ none)
  Failed c load_pair_failed =
      (c.client_cert ≢ [])
      × (c.client_key ≢ [])
      × (lib.load_key_pair c.client_cert c.client_key ≡ none)
  Failed c create_failed = ⊥

  abbrev pub TlsOutcome : TlsConfig → Result ConnectError (TlsSettings Pool Cert) → Type 0
  TlsOutcome c (ok settings) = Uses c settings
  TlsOutcome c (err x) = Failed c x

  abbrev CaOutcome : TlsConfig → Result ConnectError (Option Pool) → Type 0
  CaOutcome c (ok pool) = UsesCa c.ca_cert pool
  CaOutcome c (err x) = Failed c x

  abbrev PairOutcome : TlsConfig → Result ConnectError (Option Cert) → Type 0
  PairOutcome c (ok cert) = UsesPair c.client_cert c.client_key cert
  PairOutcome c (err x) = Failed c x

  CaOutcome-load_ca : (c : TlsConfig) → CaOutcome c (load_ca lib c.ca_cert)
  unfolding load_ca
  CaOutcome-load_ca c = elim (Bool-cases (c.ca_cert ≟ [])) [
    | inl empty ↦ rw (load_ca, empty) ((≟_iff c.ca_cert []).0 empty)
    | inr named ↦ elim (Option-cases (lib.read_file c.ca_cert)) [
      | inl missing ↦ rw (load_ca, named, missing) (ne_of_≟ c.ca_cert [] named, missing)
      | inr (text, found) ↦ elim (Option-cases (lib.append_certs text)) [
        | inl bad ↦ rw (load_ca, named, found, bad) (text, found, bad)
        | inr (pool, good) ↦ rw (load_ca, named, found, good) (text, found, good)
      ]
    ]
  ]

  PairOutcome-load_pair : (c : TlsConfig) → PairOutcome c (load_pair lib c.client_cert c.client_key)
  unfolding load_pair
  PairOutcome-load_pair c = elim (Bool-cases (c.client_cert ≟ [])) [
    | inl empty ↦ rw (load_pair, empty) (inl ((≟_iff c.client_cert []).0 empty))
    | inr cert ↦ elim (Bool-cases (c.client_key ≟ [])) [
      | inl empty ↦ rw (load_pair, cert, empty) (inr ((≟_iff c.client_key []).0 empty))
      | inr key ↦ elim (Option-cases (lib.load_key_pair c.client_cert c.client_key)) [
        | inl bad ↦
            rw (load_pair, cert, key, bad)
              (ne_of_≟ c.client_cert [] cert, ne_of_≟ c.client_key [] key, bad)
        | inr (pair, good) ↦ rw (load_pair, cert, key, good) good
      ]
    ]
  ]

  TlsOutcome-with_pair :
      (c : TlsConfig) (pool : Option Pool) (r : Result ConnectError (Option Cert))
      → UsesCa c.ca_cert pool
      → PairOutcome c r
      → TlsOutcome c (with_pair lib pool r)
  unfolding with_pair
  TlsOutcome-with_pair c pool (ok cert) ca pair = (ca, pair)
  TlsOutcome-with_pair c pool (err x) ca failed = failed

  TlsOutcome-with_ca :
      (c : TlsConfig) (r : Result ConnectError (Option Pool))
      → CaOutcome c r
      → TlsOutcome c (with_ca lib c r)
  unfolding with_ca
  TlsOutcome-with_ca c (ok pool) ca =
      TlsOutcome-with_pair c pool (load_pair lib c.client_cert c.client_key) ca
        (PairOutcome-load_pair c)
  TlsOutcome-with_ca c (err x) failed = failed

  -- The settings for TLS have the root certificates of the file that is named for them, and the
  -- client certificate of the two files that are named for it, if both are; a certificate without a
  -- key, or a key without a certificate, is passed over. An error says which file could not be read.
  load_tls_config-TlsOutcome : (c : TlsConfig) → TlsOutcome c (load_tls_config lib c)
  unfolding load_tls_config
  load_tls_config-TlsOutcome c = TlsOutcome-with_ca c (load_ca lib c.ca_cert) (CaOutcome-load_ca c)

  -- The settings could not be made, or no client could be made with them.
  abbrev pub NotMade : List Bytes → Option TlsConfig → ConnectError → Type 0
  NotMade endpoints none create_failed = lib.new_client endpoints none ≡ none
  NotMade endpoints (some c) create_failed =
      (settings : TlsSettings Pool Cert) × Uses c settings
      × (lib.new_client endpoints (some settings) ≡ none)
  NotMade endpoints none x = ⊥
  NotMade endpoints (some c) x = Failed c x

  module _ (endpoints : List Bytes) (ddns_url : Option Bytes) where
    abbrev pub Outcome : Option TlsConfig → Result ConnectError (Client × Bytes) → Type 0
    Outcome tls (ok (client, ddns_endpoint)) =
        UsesTls endpoints tls client × (ddns_endpoint ≡ url_or_empty ddns_url)
    Outcome tls (err x) = NotMade endpoints tls x

    Outcome-with_tls :
        (c : TlsConfig) (r : Result ConnectError (TlsSettings Pool Cert))
        → TlsOutcome c r
        → Outcome (some c) (with_tls lib endpoints (url_or_empty ddns_url) r)
    unfolding with_tls connected
    Outcome-with_tls c (err read_ca_failed) h = h
    Outcome-with_tls c (err append_ca_failed) h = h
    Outcome-with_tls c (err load_pair_failed) h = h
    Outcome-with_tls c (err create_failed) h = absurd h
    Outcome-with_tls c (ok settings) h =
        elim (Option-cases (lib.new_client endpoints (some settings))) [
          | inl failed ↦ rw (with_tls, failed) (settings, h, failed)
          | inr (client, made) ↦ rw (with_tls, made) ((settings, h, made), refl)
        ]

    -- A client for etcd is made with the settings for TLS of the configuration, if it has any: the
    -- root certificates of the file that is named for them, and the client certificate of the two
    -- files that are named for it, if both are; a certificate without a key, or a key without a
    -- certificate, is passed over. The endpoint of the DDNS API is the URL of its configuration, or
    -- empty. An error says which file could not be read, or that no client could be made.
    pub new_etcd_client-Outcome :
        (tls : Option TlsConfig) → Outcome tls (new_etcd_client lib endpoints tls ddns_url)
    unfolding new_etcd_client connected
    new_etcd_client-Outcome none = elim (Option-cases (lib.new_client endpoints none)) [
      | inl failed ↦ rw (new_etcd_client, failed) failed
      | inr (client, made) ↦ rw (new_etcd_client, made) (made, refl)
    ]
    new_etcd_client-Outcome (some c) =
        Outcome-with_tls c (load_tls_config lib c) (load_tls_config-TlsOutcome c)
