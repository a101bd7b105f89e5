-- ===== src/Registered/Commands.antt =====
-- `valonctl peer add` (valonctl/cmd/peer_add.go), a start of the plugin
-- (coredns-plugin/valon/valon.go) after it, and the queries after that.
use valon.Prelude.{
  ℕ, ◌≡◌, ◌≢◌, ◌∙◌, inl, inr, Bool, true, false, none, some, List, [], Bytes, ok, All, Option-cases,
}
use valon.Text.{Unicode, to_lower, all_bytes}
use valon.Text.Path.{IsPlain}
use valon.Base32.RoundTrip.{IsByte}
use valon.Base64
use valon.Net.Addr.{parse_ip}
use valon.Etcd.{Etcd, IsEtcd, KeyValue}
use valon.Etcd.Keys.{alias_key}
use valon.Wireguard.{Wgctrl}
use valon.Plugin.Cache
use valon.Plugin.World.{Config}
use valon.Plugin.Load.{load_from_etcd}
use valon.Plugin.Load.Keys.{IsUnmarked}
use valon.Plugin.Load.OnlyPeers.{HasOnlyPeers}
use valon.Plugin.Load.RoundTrip.{fresh}
use valon.Plugin.Encoding.Labels.{is_label_letter}
use valon.Plugin.Handler.Lookup.{key_label}
use valon.Ctl.Config
use valon.Ctl.EtcdClient.Added.{registered, write_all-added_keys}
use valon.Ctl.Validation.{validate_alias}
use valon.Ctl.Validation.Names.{IsName, validate_alias-IsName}
use valon.Ctl.PeerAdd.{Outside, Added, peer_info, run_peer_add}
use valon.Ctl.PeerAdd.Registers.{run_peer_add-written}
use valon.Registered.Serves.{AnswersPeer, registered-AnswersPeer}

module _ {S T : Type 0} (e : Etcd S) (wg : Wgctrl T) (laws : IsEtcd e) (u : Unicode)
    (cfg : Config.Config) (fuel : ℕ) (pubkey alias : Bytes) where
  run_peer_add-validates :
      (etcd_client : Bool) (wg_ip : Bytes) (o : Outside S T) (added : Added)
      → (run_peer_add e wg u cfg fuel pubkey alias etcd_client wg_ip o).0 ≡ ok added
      → validate_alias u alias ≡ none
  unfolding run_peer_add
  run_peer_add-validates etcd_client wg_ip o added done =
      elim (Option-cases (validate_alias u alias)) [
        | inl good ↦ good
        | inr (x, bad) ↦ let never = rw (run_peer_add, bad) at done in absurd (cc never)
      ]

  module _ (etcd_client : Bool) (wg_ip : Bytes) (o : Outside S T) (added : Added)
      (done : (run_peer_add e wg u cfg fuel pubkey alias etcd_client wg_ip o).0 ≡ ok added)
      (plain_key : IsPlain pubkey) (lower : to_lower u alias ≡ alias) where
    is_name : IsName alias
    is_name =
        validate_alias-IsName u alias lower (run_peer_add-validates etcd_client wg_ip o added done)

    contents-run_peer_add :
        laws.contents (run_peer_add e wg u cfg fuel pubkey alias etcd_client wg_ip o).1.etcd
        ≡ registered (peer_info pubkey added.0 alias) (laws.contents o.etcd)
    contents-run_peer_add =
        let (parsed, free, wrote) =
          run_peer_add-written e wg laws u cfg fuel pubkey alias etcd_client wg_ip o added done in
        wrote ∙ write_all-added_keys (peer_info pubkey added.0 alias) _ plain_key is_name.plain

    -- After a run of `peer add` that succeeds, a plugin that starts and loads etcd answers a query
    -- for the label of the peer's key with the address that the command printed, which is an IP,
    -- and one for its alias, if etcd answers it, with a CNAME record to that label and the address.
    -- The alias is its own lower-case form and has a byte that is no letter of a label; the key,
    -- which is the base64 form of bytes with a label, has no empty element and none of dots between
    -- slashes and none of the texts `/wg_ip`, `/alias` and `/endpoints`, and the last holds of the
    -- keys of all peers in etcd.
    pub run_peer_add-serves :
        (v : Config) (now : ℕ) (key : Bytes) (kvs : List KeyValue)
        (entries : List (Bytes × Cache.PeerInfo))
        → IsUnmarked pubkey
        → HasOnlyPeers (laws.contents o.etcd)
        → All IsByte key
        → key_label u key ≢ []
        → pubkey ≡ Base64.encode key
        → all_bytes is_label_letter alias ≡ false
        → (load_from_etcd e now
            (fresh (run_peer_add e wg u cfg fuel pubkey alias etcd_client wg_ip o).1.etcd)).0
          ≡ true
        → (e.get
            (load_from_etcd e now
              (fresh (run_peer_add e wg u cfg fuel pubkey alias etcd_client wg_ip o).1.etcd)).1.etcd
            (alias_key alias)).0
          ≡ some kvs
        → (ip : Bytes) × (parse_ip added.0 ≡ some ip)
          × AnswersPeer e u v
              (peer_info pubkey added.0 alias)
              key
              ip
              entries
              (load_from_etcd e now
                (fresh (run_peer_add e wg u cfg fuel pubkey alias etcd_client wg_ip o).1.etcd)).1
    run_peer_add-serves v now key kvs entries is_unmarked only bytes labelled is_key other loaded
          got =
        let ((ip, parsed), free, wrote) =
          run_peer_add-written e wg laws u cfg fuel pubkey alias etcd_client wg_ip o added done in
        (
          ip,
          parsed,
          registered-AnswersPeer e laws (peer_info pubkey added.0 alias) _ (laws.contents o.etcd)
              is_unmarked only contents-run_peer_add u v now key ip kvs entries bytes labelled
              is_key (is_name.no_lan, is_name.no_nated) is_name.ascii other parsed loaded got,
        )
