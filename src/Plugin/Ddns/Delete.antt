-- ===== src/Plugin/Ddns/Delete.antt =====
-- What an accepted deletion does to the cache and to the aliases in etcd.
use valon.Prelude.{
  ◌≡◌, ◌≢◌, [], ≟_refl, sym, ◌∙◌, true, none, some, Bytes, codes, if◌then◌else◌, ◌≟◌, ≟_ne, arith,
}
use mathlib.Core.List.{append_cancel_left}
use valon.Etcd.{Etcd, IsEtcd}
use valon.Etcd.Keys.{alias_key}
use valon.Plugin.Cache
use valon.Plugin.Cache.Laws.{IsMap, get-delete}
use valon.Plugin.World.{World, Config}
use valon.Plugin.Ddns.{
  extract_client_ip, HttpRequest, send_success, commit_delete, handle_endpoint_delete,
}

pub alias_key_inj : (a b : Bytes) → alias_key a ≡ alias_key b → a ≡ b
unfolding alias_key
alias_key_inj a b h = append_cancel_left (codes "/valon/aliases/") a b h

module _ {S : Type 0} (e : Etcd S) where
  delete-commit :
      (v : Config) (r : HttpRequest Bytes) (w : World S) (pubkey message : Bytes)
      → r.body ≡ some pubkey
      → (handle_endpoint_delete e v r w).0 ≡ send_success message
      → handle_endpoint_delete e v r w ≡ commit_delete e pubkey w
  unfolding handle_endpoint_delete
  delete-commit v r w pubkey message body h = ground arith

  -- After a deletion that is answered with success the peer is not in the cache, whose keys are
  -- distinct, and every other peer is as before.
  handle_endpoint_delete-cache :
      (v : Config) (r : HttpRequest Bytes) (w : World S) (pubkey message : Bytes)
      → IsMap w.cache
      → r.body ≡ some pubkey
      → (handle_endpoint_delete e v r w).0 ≡ send_success message
      → (j : Bytes)
      → Cache.get (handle_endpoint_delete e v r w).1.cache j
        ≡ (if pubkey ≟ j then none else Cache.get w.cache j)
  handle_endpoint_delete-cache v r w pubkey message valid body h j =
      rw (delete-commit v r w pubkey message body h)
        (unfold commit_delete in get-delete w.cache pubkey j valid)

  -- A deletion that succeeds in etcd too leaves every alias but one that is spelled like the key
  -- of the peer: the alias under which the peer was registered still leads to its key.
  pub handle_endpoint_delete-keeps_alias :
      (laws : IsEtcd e) (v : Config) (r : HttpRequest Bytes) (w : World S) (pubkey message : Bytes)
      → r.body ≡ some pubkey
      → (handle_endpoint_delete e v r w).0 ≡ send_success message
      → (e.delete w.etcd (alias_key pubkey)).0 ≡ true
      → (alias : Bytes) → alias ≢ pubkey
      → laws.contents (handle_endpoint_delete e v r w).1.etcd (alias_key alias)
        ≡ laws.contents w.etcd (alias_key alias)
  handle_endpoint_delete-keeps_alias laws v r w pubkey message body h done alias ne =
      rw (delete-commit v r w pubkey message body h) (
        unfold commit_delete in
        laws.delete_removes w.etcd (alias_key pubkey) done (alias_key alias)
        ∙ rw (
            ≟_ne (alias_key pubkey) (alias_key alias)
              (λ x. ne (sym (alias_key_inj pubkey alias x)))))

-- A request to delete that names a peer takes it from the cache if it comes from the Discovery
-- Role, and changes no cache otherwise.
pub cache-handle_endpoint_delete :
    {S : Type 0} (e : Etcd S) (v : Config) (r : HttpRequest Bytes) (pubkey : Bytes) (w : World S)
    → r.method ≡ codes "DELETE"
    → r.body ≡ some pubkey
    → pubkey ≢ []
    → (handle_endpoint_delete e v r w).1.cache
      ≡ (if extract_client_ip r ≟ v.self_wg_ip then Cache.delete w.cache pubkey else w.cache)
unfolding handle_endpoint_delete commit_delete
cache-handle_endpoint_delete e v r pubkey w method body has_key =
    let keyed = ≟_ne pubkey [] has_key in
    let by_delete : r.method ≟ codes "DELETE" ≡ true = rw method (≟_refl (codes "DELETE")) in
    ground arith
