-- ===== src/Plugin/Handler/Absent.antt =====
-- A query for an address that a peer does not have.
use valon.Prelude.{
  true, false, ap, ◌∷◌, ◌≡◌, refl, ◌∙◌, none, some, List, [], Bytes, Option, All, ◌≟◌,
}
use valon.Text.{Unicode, is_ascii, all_bytes}
use valon.Base32.RoundTrip.{IsByte}
use valon.Base64
use valon.Etcd.{Etcd, IsEtcd, KeyValue}
use valon.Etcd.Keys.{alias_key}
use valon.Etcd.Fields.{Field, of_wg_ip, of_lan, of_nated}
use valon.Plugin.Encoding.Labels.{is_label_letter, All-label}
use valon.Plugin.Encoding.RoundTrip.{dns_label_to_pubkey-label}
use valon.Plugin.Cache
use valon.Plugin.Cache.{PeerInfo}
use valon.Plugin.Load.Fields.{is_kept, held}
use valon.Plugin.Message.{type_a}
use valon.Plugin.World.{World, Config}
use valon.Plugin.Handler.{
  alias_label, lookup_alias, or_cname, Target, direct, lan, nated, label_of, nxdomain, answer_ip,
  answer_a, target_ip, overlay_ip, endpoint_ip, handle_a_target, serve_dns,
}
use valon.Plugin.Handler.Alias.{a_query, IsFree, not_decoded, serve_dns-direct}
use valon.Plugin.Handler.Lookup.{qualified, name_of, key_label, read_target-name_of, serve_dns-a}

-- the field that holds the address
abbrev pub asked_of : Target → Field
asked_of (direct l) = of_wg_ip
asked_of (lan l) = of_lan
asked_of (nated l) = of_nated

pub is_kept-asked_of : (t : Target) → is_kept (asked_of t) ≡ true
is_kept-asked_of (direct l) = refl
is_kept-asked_of (lan l) = refl
is_kept-asked_of (nated l) = refl

answer_a-absent :
    (name : Bytes) (t : Target) (o : Option PeerInfo)
    → held (asked_of t) o ≡ []
    → answer_a name t o ≡ nxdomain
unfolding answer_a answer_ip target_ip overlay_ip endpoint_ip ◌≟◌
answer_a-absent name t none h = refl
answer_a-absent name (direct l) (some p) h = rw h refl
answer_a-absent name (lan l) (some p) h = rw h refl
answer_a-absent name (nated l) (some p) h = rw h refl

module _ {S : Type 0} (e : Etcd S) (u : Unicode) (v : Config) where
  -- For the label of a key, alone or with lan. or nated. in front, the answer is NXDOMAIN if the
  -- cache has no peer with the key, or one in which the address is empty.
  pub serve_dns-absent :
      (key : Bytes) (t : Target) (entries : List (Bytes × PeerInfo)) (w : World S)
      → All IsByte key
      → label_of t ≡ key_label u key
      → held (asked_of t) (Cache.get w.cache (Base64.encode key)) ≡ []
      → serve_dns e u v (record { name = qualified (name_of t) v; qtype = type_a }) entries w
        ≡ (nxdomain, w.etcd)
  unfolding handle_a_target
  serve_dns-absent key t entries w bytes names empty =
      serve_dns-a e u v (name_of t) entries w
      ∙ rw (read_target-name_of t (rw names (All-label u key bytes))) (
          rw (names, dns_label_to_pubkey-label u key bytes, handle_a_target)
            (rw (answer_a-absent _ t (Cache.get w.cache (Base64.encode key)) empty) refl))

  label-missing :
      (laws : IsEtcd e) (k : Bytes) (s : S) (o : Option (List KeyValue))
      → (e.get s k).0 ≡ o
      → laws.contents s k ≡ none
      → alias_label u o ≡ []
  unfolding alias_label
  label-missing laws k s none got missing = refl
  label-missing laws k s (some []) got missing = refl
  label-missing laws k s (some (kv ∷ kvs)) got missing =
      let never : kv ∷ kvs ≡ [] = laws.get_returns s k (kv ∷ kvs) got ∙ rw missing refl in absurd cc

  -- For an ASCII alias with a byte that is no letter of a label, and with neither lan. nor nated. in
  -- front, that is not in etcd, the answer is NXDOMAIN, whether etcd answers or not.
  pub serve_dns-unregistered :
      (laws : IsEtcd e) (alias : Bytes) (entries : List (Bytes × PeerInfo)) (w : World S)
      → IsFree alias
      → is_ascii alias ≡ true
      → all_bytes is_label_letter alias ≡ false
      → laws.contents w.etcd (alias_key alias) ≡ none
      → (serve_dns e u v (a_query v alias) entries w).0 ≡ nxdomain
  unfolding handle_a_target or_cname lookup_alias ◌≟◌
  serve_dns-unregistered laws alias entries w free ascii other missing =
      ap (λ r. r.0) (serve_dns-direct e u v alias entries w free)
      ∙ rw (not_decoded u alias ascii other, handle_a_target)
          (rw (label-missing laws (alias_key alias) w.etcd _ refl missing) refl)
