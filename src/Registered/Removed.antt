-- ===== src/Registered/Removed.antt =====
-- A start of the plugin (coredns-plugin/valon/valon.go) on an etcd from which valonctl
-- (valonctl/pkg/client/etcd.go) has removed a peer, and the queries after it.
use valon.Prelude.{
  ℕ, ◌≡◌, refl, ap, sym, ◌∙◌, ◌++◌, append_assoc, Bool, true, false, Option, none, some, List, [],
  Bytes, codes, ok, if◌then◌else◌, ≟_refl, All,
}
use valon.Text.{Unicode, has_prefix, is_ascii, all_bytes}
use valon.Text.Laws.{has_prefix-append}
use valon.Text.Path.{IsPlain}
use valon.Base32.RoundTrip.{IsByte}
use valon.Base64
use valon.Etcd.{Etcd, IsEtcd}
use valon.Etcd.Fields.{field_name}
use valon.Etcd.Keys.{peer_key, alias_key}
use valon.Plugin.Cache
use valon.Plugin.World.{Config}
use valon.Plugin.Load.{load_from_etcd}
use valon.Plugin.Load.Keys.{IsUnmarked}
use valon.Plugin.Load.Fields.{held}
use valon.Plugin.Load.Reads.{contents-load_from_etcd}
use valon.Plugin.Load.OnlyPeers.{HasOnlyPeers}
use valon.Plugin.Load.RoundTrip.{fresh, load_from_etcd-fields}
use valon.Plugin.Message.{type_a}
use valon.Plugin.Encoding.Labels.{is_label_letter}
use valon.Plugin.Handler.{Target, label_of, nxdomain, serve_dns}
use valon.Plugin.Handler.Lookup.{qualified, name_of, key_label}
use valon.Plugin.Handler.Alias.{a_query, IsFree}
use valon.Plugin.Handler.Absent.{
  is_kept-asked_of, asked_of, serve_dns-absent, serve_dns-unregistered,
}
use valon.Ctl.EtcdClient.{peer_path, identify, call_ddns, remove_peer}
use valon.Ctl.EtcdClient.Added.{peer_path-plain, alias_path-alias_key}
use valon.Ctl.EtcdClient.Removed.{remove_peer-contents}

within_path : (q field : Bytes) → IsPlain q → has_prefix (peer_key q field) (peer_path q) ≡ true
unfolding peer_key
within_path q field plain =
    rw (peer_path-plain q plain, ← append_assoc (codes "/valon/peers/") q (codes "/" ++ field))
      (has_prefix-append (codes "/valon/peers/" ++ q) (codes "/" ++ field))

removed_at :
    (a b : Bool) (old : Option Bytes)
    → b ≡ true
    → (if a then none else if b then none else old) ≡ none
removed_at true b old h = refl
removed_at false b old h = rw h refl

still_held :
    (a b : Bool) (old : Option Bytes) (v : Bytes)
    → (if a then none else if b then none else old) ≡ some v
    → old ≡ some v
still_held true b old v h = absurd cc
still_held false true old v h = absurd cc
still_held false false old v h = h

module _ {S : Type 0} (e : Etcd S) (laws : IsEtcd e) (ddns : Option (Bytes → S → Bool × S))
    (arg pubkey alias : Bytes) (s : S) (is_unmarked : IsUnmarked pubkey)
    (plain_key : IsPlain pubkey) (plain_alias : IsPlain alias)
    (only : HasOnlyPeers (laws.contents s)) (known : (identify e arg s).0 ≡ ok (pubkey, alias))
    (adds_nothing : (j v : Bytes)
      → laws.contents (call_ddns e ddns pubkey (identify e arg s).1) j ≡ some v
      → laws.contents s j ≡ some v)
    (removed : (remove_peer e ddns arg s).0 ≡ none) where
  HasOnlyPeers-remove_peer : HasOnlyPeers (laws.contents (remove_peer e ddns arg s).1)
  HasOnlyPeers-remove_peer j v inside found = only j v inside (
      adds_nothing j v (
        still_held _ _ _ v
          (sym (remove_peer-contents e laws ddns arg pubkey alias s known removed j) ∙ found)))

  no_field :
      (field : Bytes) → laws.contents (remove_peer e ddns arg s).1 (peer_key pubkey field) ≡ none
  no_field field =
      remove_peer-contents e laws ddns arg pubkey alias s known removed (peer_key pubkey field)
      ∙ removed_at _ _ _ (within_path pubkey field plain_key)

  no_alias : laws.contents (remove_peer e ddns arg s).1 (alias_key alias) ≡ none
  no_alias =
      remove_peer-contents e laws ddns arg pubkey alias s known removed (alias_key alias)
      ∙ rw (alias_path-alias_key alias plain_alias, ≟_refl (alias_key alias)) refl

  -- After valonctl has removed a peer without an error and the plugin has started and loaded etcd,
  -- the answer to a query for the label of the peer's key, alone or with lan. or nated. in front, and
  -- to one for its alias is NXDOMAIN, whatever the DDNS API answers. The call of the API adds nothing
  -- to etcd. The key has none of the texts `/wg_ip`, `/alias` and `/endpoints`, and so have the keys
  -- of all peers in etcd; the alias is one that the server looks up, ASCII text with a byte that is
  -- no letter of a label, in front of which stands neither lan. nor nated.; key and alias have no
  -- empty element and none of dots between slashes.
  pub restart_forgets :
      (u : Unicode) (v : Config) (now : ℕ) (key : Bytes) (t : Target)
      (entries : List (Bytes × Cache.PeerInfo))
      → All IsByte key
      → label_of t ≡ key_label u key
      → pubkey ≡ Base64.encode key
      → IsFree alias
      → is_ascii alias ≡ true
      → all_bytes is_label_letter alias ≡ false
      → (load_from_etcd e now (fresh (remove_peer e ddns arg s).1)).0 ≡ true
      → let w = (load_from_etcd e now (fresh (remove_peer e ddns arg s).1)).1 in
        ((serve_dns e u v (record { name = qualified (name_of t) v; qtype = type_a }) entries w).0
          ≡ nxdomain)
        × ((serve_dns e u v (a_query v alias) entries w).0 ≡ nxdomain)
  restart_forgets u v now key t entries bytes names is_key free ascii other done =
      let w = (load_from_etcd e now (fresh (remove_peer e ddns arg s).1)).1 in
      let empty : held (asked_of t) (Cache.get w.cache (Base64.encode key)) ≡ [] = rw (← is_key) (
        load_from_etcd-fields e laws now (remove_peer e ddns arg s).1 pubkey (asked_of t)
          HasOnlyPeers-remove_peer is_unmarked (is_kept-asked_of t) done
        ∙ rw (no_field (field_name (asked_of t))) refl) in
      (
        ap (λ r. r.0) (serve_dns-absent e u v key t entries w bytes names empty),
        serve_dns-unregistered e u v laws alias entries w free ascii other (
            ap (λ m. m (alias_key alias))
              (contents-load_from_etcd e laws now (fresh (remove_peer e ddns arg s).1))
            ∙ no_alias),
      )
