-- ===== src/Plugin/Ddns/Update.antt =====
-- What an accepted update does to the cache and to the aliases in etcd.
use valon.Prelude.{
  ℕ, ◌≤◌, ◌≡◌, ◌≢◌, refl, ap, ◌∙◌, inl, inr, true, false, some, [], Bytes, length, ltb,
  if◌then◌else◌, ◌≟◌, ≟_iff, ≟_ne, arith, Bool-cases, Option-cases,
}
use mathlib.Core.Option
use valon.Text.{Unicode}
use valon.Etcd.{Etcd, IsEtcd, write}
use valon.Etcd.Keys.{alias_key, peer_key, alias_field}
use valon.Plugin.Encoding.{pubkey_to_dns_label}
use valon.Plugin.Cache
use valon.Plugin.Cache.{PeerInfo, PeerCache}
use valon.Plugin.Cache.Laws.{touched, get-update}
use valon.Plugin.World.{World, Config}
use valon.Plugin.Ddns.{
  DdnsEndpointRequest, HttpRequest, send_success, register_alias, commit_update,
  handle_endpoint_update, apply_update, is_offline, offline_endpoint, updated,
}

-- The peer after an update: the endpoint of the request, empty if that marks the peer offline;
-- everything that comes from elsewhere is kept.
abbrev pub updated_peer : DdnsEndpointRequest → ℕ → PeerInfo → PeerInfo
updated_peer req now p = record p {
  pub_key = req.pub_key;
  lan_endpoint = if is_offline req.lan_endpoint then [] else req.lan_endpoint;
  updated_at = now;
  dirty = true;
}

touched-apply_update :
    (req : DdnsEndpointRequest) (now : ℕ) (p : PeerInfo)
    → p.lan_endpoint ≢ offline_endpoint
    → touched (apply_update req) now p ≡ updated_peer req now p
unfolding apply_update
touched-apply_update req now p h = ground (
  arith,
  ≟_iff p.lan_endpoint req.lan_endpoint,
  ≟_iff req.lan_endpoint offline_endpoint,
  ≟_iff req.lan_endpoint [],
)

module _ {S : Type 0} (e : Etcd S) (u : Unicode) where
  pub cache-register_alias :
      (req : DdnsEndpointRequest) (w : World S) → (register_alias e u req w).1.cache ≡ w.cache
  unfolding register_alias
  cache-register_alias req w = ground arith

  -- An accepted update gives its peer the endpoint of the request and marks it for the next
  -- synchronisation; no other peer changes, and no peer is added.
  pub get-commit_update :
      (req : DdnsEndpointRequest) (now : ℕ) (w : World S) (j : Bytes)
      → Cache.get (commit_update e u req now w).1.cache j ≡ (
          if req.pub_key ≟ j
          then Option.map (touched (apply_update req) now) (Cache.get w.cache j)
          else Cache.get w.cache j)
  unfolding commit_update
  get-commit_update req now w j =
      rw
        (cache-register_alias req
          (record w { cache = Cache.update w.cache req.pub_key (apply_update req) now }))
        (get-update w.cache req.pub_key j (apply_update req) now)

  handle-commit :
      (v : Config) (r : HttpRequest DdnsEndpointRequest) (now : ℕ) (w : World S)
      (req : DdnsEndpointRequest) (message : Bytes)
      → r.body ≡ some req
      → (handle_endpoint_update e u v r now w).0 ≡ send_success message
      → handle_endpoint_update e u v r now w ≡ commit_update e u req now w
  unfolding handle_endpoint_update
  handle-commit v r now w req message body h = ground arith

  -- When a request to update is answered with success, the peer that it names has the endpoint of
  -- the request, empty if that marks the peer offline, the new time, and is marked for the next
  -- synchronisation; its other fields and all other peers are as before. A key that is not in the
  -- cache is not added to it. The condition is that the cache does not hold the offline marker
  -- 0.0.0.0:0 itself as the peer's endpoint.
  pub handle_endpoint_update-cache :
      (v : Config) (r : HttpRequest DdnsEndpointRequest) (now : ℕ) (w : World S)
      (req : DdnsEndpointRequest) (message : Bytes)
      → r.body ≡ some req
      → ((p : PeerInfo)
          → Cache.get w.cache req.pub_key ≡ some p
          → p.lan_endpoint ≢ offline_endpoint)
      → (handle_endpoint_update e u v r now w).0 ≡ send_success message
      → (j : Bytes)
      → Cache.get (handle_endpoint_update e u v r now w).1.cache j ≡ (
          if req.pub_key ≟ j
          then Option.map (updated_peer req now) (Cache.get w.cache j)
          else Cache.get w.cache j)
  handle_endpoint_update-cache v r now w req message body online h j =
      rw (handle-commit v r now w req message body h, get-commit_update req now w j)
        (elim (Bool-cases (req.pub_key ≟ j)) [
          | inl same ↦ rw same (elim (Option-cases (Cache.get w.cache j)) [
            | inl missing ↦ rw missing
            | inr (p, found) ↦
                let at_j : Cache.get w.cache req.pub_key ≡ some p =
                  rw ((≟_iff req.pub_key j).0 same) found in
                rw found (ap some (touched-apply_update req now p (online p at_j)))
          ])
          | inr other ↦ rw other
        ])

-- An alias that comes with an accepted update is written under its own key, with the key of the
-- peer as its value, and under the peer's key, if both writes succeed, the alias is not empty and
-- the key has a label and at least 20 bytes. The rest of etcd is left alone, and the response is a
-- success.
pub register_alias-contents :
    {S : Type 0} (e : Etcd S) (u : Unicode) (laws : IsEtcd e) (req : DdnsEndpointRequest)
    (w : World S) (label : Bytes)
    → pubkey_to_dns_label u req.pub_key ≡ some label
    → req.alias ≢ []
    → 20 ≤ length req.pub_key
    → (e.put w.etcd (alias_key req.alias) req.pub_key).0 ≡ true
    → (e.put
        (e.put w.etcd (alias_key req.alias) req.pub_key).1
        (peer_key req.pub_key alias_field)
        req.alias).0
      ≡ true
    → ((register_alias e u req w).0 ≡ updated)
      × (laws.contents (register_alias e u req w).1.etcd
          ≡ write
              (write (laws.contents w.etcd) (alias_key req.alias) req.pub_key)
              (peer_key req.pub_key alias_field)
              req.alias)
unfolding register_alias
register_alias-contents e u laws req w label decodes named long first second =
    let enough : ltb (length req.pub_key) 20 ≡ false = ground arith in
    let wrote = laws.put_writes _ (peer_key req.pub_key alias_field) req.alias second in
    let wrote_alias = laws.put_writes w.etcd (alias_key req.alias) req.pub_key first in
    rw (≟_ne req.alias [] named, decodes, first, enough)
      (refl, wrote ∙ ap (λ m. write m (peer_key req.pub_key alias_field) req.alias) wrote_alias)
