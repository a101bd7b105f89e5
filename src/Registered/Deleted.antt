-- ===== src/Registered/Deleted.antt =====
-- RemovePeer of valonctl (valonctl/pkg/client/etcd.go) with the HTTP API of a running plugin
-- (coredns-plugin/valon/ddns.go), and the queries after it. The state is that of the plugin, with
-- the etcd that both share.
use valon.Prelude.{
  ℕ, ◌≡◌, ◌≢◌, refl, ap, sym, ◌∙◌, true, false, Option, none, some, List, [], Bytes, codes, ok,
  if◌then◌else◌, ◌≟◌, ≟_ne, ≟_refl, All,
}
use valon.Text.{Unicode, has_prefix, trim_prefix, is_ascii, all_bytes}
use valon.Text.Laws.{has_prefix-append, trim_prefix-append}
use valon.Text.Path.{IsPlain}
use valon.Base32.RoundTrip.{IsByte}
use valon.Base64
use valon.Etcd.{Etcd, IsEtcd}
use valon.Etcd.Keys.{alias_key}
use valon.Plugin.Cache
use valon.Plugin.Cache.{PeerInfo}
use valon.Plugin.Cache.Laws.{IsMap, get-delete}
use valon.Plugin.Ddns.{DdnsEndpointRequest, HttpRequest, extract_client_ip}
use valon.Plugin.Ddns.Delete.{cache-handle_endpoint_delete}
use valon.Plugin.Ddns.Server.{with_body, serve_http, request_ddns_server}
use valon.Plugin.Encoding.Labels.{is_label_letter}
use valon.Plugin.Handler.{Target, label_of, nxdomain, serve_dns}
use valon.Plugin.Handler.Lookup.{qualified, name_of, key_label}
use valon.Plugin.Handler.Alias.{a_query, IsFree}
use valon.Plugin.Handler.Absent.{asked_of, serve_dns-absent, serve_dns-unregistered}
use valon.Plugin.Load.Fields.{held}
use valon.Plugin.Message.{type_a}
use valon.Plugin.World.{World, Config}
use valon.Ctl.DdnsDelete.{call_ddns_delete, ddns_call}
use valon.Ctl.EtcdClient.{RemoveError, identify, call_ddns, remove_peer}
use valon.Ctl.EtcdClient.Added.{alias_path-alias_key}
use valon.Ctl.EtcdClient.Removed.{
  delete_keys-contents, remove_peer-delete_keys, view-delete_keys, view-identify,
}
use valon.Registered.Shared.{on_world, on_world-IsEtcd}

module _ {Body : Type 0} (decode_update : Body → Option DdnsEndpointRequest)
    (decode_delete : Body → Option Bytes) (marshal : Bytes → Body) {S : Type 0} (e : Etcd S)
    (u : Unicode) (v : Config) (ddns_listen base remote : Bytes) (now : ℕ) where
  -- a request without a proxy from the address `remote`
  abbrev pub request : Bytes → Body → HttpRequest Body
  request method body = record {
    method = method;
    body = some body;
    forwarded_for = [];
    remote_addr = remote;
  }

  -- the plugin answers at the URL `base`, and nothing else does
  abbrev pub send_to_plugin : Bytes → Bytes → Body → World S → Option ℕ × World S
  send_to_plugin method url body w =
      if has_prefix url base
      then request_ddns_server decode_update decode_delete e u v ddns_listen (trim_prefix url base)
          (request method body) now w
      else (none, w)

  abbrev pub remove : Bytes → World S → Option RemoveError × World S
  remove = remove_peer (on_world e) (ddns_call send_to_plugin marshal (some base))

  cache-call_ddns_delete :
      (pubkey : Bytes) (w : World S)
      → ddns_listen ≢ []
      → decode_delete (marshal pubkey) ≡ some pubkey
      → pubkey ≢ []
      → (call_ddns_delete send_to_plugin marshal base pubkey w).1.cache ≡ (
          if extract_client_ip (request (codes "DELETE") (marshal pubkey)) ≟ v.self_wg_ip
          then Cache.delete w.cache pubkey
          else w.cache)
  unfolding call_ddns_delete extract_client_ip request_ddns_server serve_http ◌≟◌
  cache-call_ddns_delete pubkey w listens decodes has_key =
      rw
        (
          has_prefix-append base (codes "/api/endpoint/delete"),
          trim_prefix-append base (codes "/api/endpoint/delete"),
          ≟_ne ddns_listen [] listens,
        )
        (cache-handle_endpoint_delete e v
          (with_body decode_delete (request (codes "DELETE") (marshal pubkey))) pubkey w refl
          decodes has_key)

  -- the address that the plugin sees
  abbrev pub seen_ip : Bytes
  seen_ip = extract_client_ip (request (codes "DELETE") (marshal []))

  call_ddns-called :
      (pubkey : Bytes) (w : World S)
      → base ≢ []
      → call_ddns (on_world e) (ddns_call send_to_plugin marshal (some base)) pubkey w
        ≡ (call_ddns_delete send_to_plugin marshal base pubkey w).1
  unfolding call_ddns ddns_call
  call_ddns-called pubkey w has_base = rw (≟_ne base [] has_base) refl

  module _ (arg pubkey alias : Bytes) (w : World S) (has_base : base ≢ [])
      (listens : ddns_listen ≢ []) (decodes : decode_delete (marshal pubkey) ≡ some pubkey)
      (has_key : pubkey ≢ []) (known : (identify (on_world e) arg w).0 ≡ ok (pubkey, alias)) where
    -- `RemovePeer` with the API of a running plugin takes the peer from the plugin's cache if the
    -- plugin sees the request come from the Discovery Role's address, and leaves the cache as it
    -- was otherwise, whatever etcd answers after the key and the alias of the peer have been found.
    -- The plugin has a listen address and reads back the key that the request carries.
    pub remove-cache :
        (remove arg w).1.cache
        ≡ (if seen_ip ≟ v.self_wg_ip then Cache.delete w.cache pubkey else w.cache)
    unfolding extract_client_ip
    remove-cache =
        let found = (identify (on_world e) arg w).1 in
        let same : found.cache ≡ w.cache =
          view-identify (on_world e) (λ x. x.cache) arg w (λ x k. refl) in
        ap (λ r. r.1.cache) (remove_peer-delete_keys (on_world e) _ arg pubkey alias w known)
        ∙ view-delete_keys (on_world e) (λ x. x.cache) _ pubkey alias found (λ x k. refl)
            (λ x p. refl)
        ∙ ap (λ x. x.cache) (call_ddns-called pubkey found has_base)
        ∙ cache-call_ddns_delete pubkey found listens decodes has_key
        ∙ rw same refl

    module _ (laws : IsEtcd e) where
      no_alias :
          IsPlain alias
          → (remove arg w).0 ≡ none
          → laws.contents (remove arg w).1.etcd (alias_key alias) ≡ none
      no_alias plain removed =
          let all =
            remove_peer-delete_keys (on_world e) (ddns_call send_to_plugin marshal (some base)) arg
              pubkey alias w known in
          ap (λ r. laws.contents r.1.etcd (alias_key alias)) all
          ∙ delete_keys-contents (on_world e) (on_world-IsEtcd e laws) _ pubkey alias
              (identify (on_world e) arg w).1 (sym (ap (λ r. r.0) all) ∙ removed) (alias_key alias)
          ∙ rw (alias_path-alias_key alias plain, ≟_refl (alias_key alias)) refl

      -- After `RemovePeer` without an error, with the API of a running plugin that sees the request
      -- come from the Discovery Role's address, the answer to a query for the label of the peer's
      -- key, alone or with lan. or nated. in front, and to one for its alias is NXDOMAIN. The plugin
      -- has a listen address and reads back the key that the request carries, and the keys of its
      -- cache are distinct; the alias is one that the server looks up, ASCII text with a byte that
      -- is no letter of a label, in front of which stands neither lan. nor nated., with no empty
      -- element and none of dots between slashes.
      pub remove-unanswered :
          (key : Bytes) (t : Target) (entries : List (Bytes × PeerInfo))
          → IsMap w.cache
          → seen_ip ≡ v.self_wg_ip
          → All IsByte key
          → label_of t ≡ key_label u key
          → pubkey ≡ Base64.encode key
          → IsPlain alias
          → IsFree alias
          → is_ascii alias ≡ true
          → all_bytes is_label_letter alias ≡ false
          → (remove arg w).0 ≡ none
          → ((serve_dns e u v
                (record { name = qualified (name_of t) v; qtype = type_a })
                entries
                (remove arg w).1).0
              ≡ nxdomain)
            × ((serve_dns e u v (a_query v alias) entries (remove arg w).1).0 ≡ nxdomain)
      remove-unanswered key t entries map from_discovery bytes names is_key plain free ascii other
            removed =
          let gone : Cache.get (remove arg w).1.cache (Base64.encode key) ≡ none =
            rw (← is_key, remove-cache, from_discovery, ≟_refl v.self_wg_ip)
              (get-delete w.cache pubkey pubkey map ∙ rw (≟_refl pubkey) refl) in
          (
            ap (λ r. r.0)
                (serve_dns-absent e u v key t entries (remove arg w).1 bytes names
                  (ap (held (asked_of t)) gone)),
            serve_dns-unregistered e u v laws alias entries (remove arg w).1 free ascii other
                (no_alias plain removed),
          )
