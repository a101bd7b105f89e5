-- ===== src/Plugin/Sync/Written.antt =====
-- What the write of one peer leaves in etcd.
use valon.Prelude.{
  ◌≡◌, refl, ◌∙◌, Bool, ap, ◌&&◌, true, false, Option, some, List, [], ◌∷◌, Bytes, ◌++◌, arith,
  if◌then◌else◌, ◌≟◌, ≟_refl, Option-cases, inl, inr,
}
use valon.Etcd.{Etcd, IsEtcd, KeyValue, Contents, write, write_all}
use valon.Etcd.Fields.{Field, of_wg_ip, of_lan, of_nated, of_alias, field_name, ≟-peer_key}
use valon.Plugin.Load.Fields.{field_of}
use valon.Etcd.Keys.{peer_key, wg_ip_field, lan_field, nated_field}
use valon.Plugin.Cache.{PeerInfo}
use valon.Plugin.Sync.{put_unless_empty, peer_ops, run_ops, committed, write_peer_to_etcd}

-- An empty field leaves what its key held.
abbrev pub overwritten : Bytes → Option Bytes → Option Bytes
overwritten value old = if value ≟ [] then old else some value

write_all-append :
    (m : Contents) (xs ys : List KeyValue) → write_all m (xs ++ ys) ≡ write_all (write_all m xs) ys
write_all-append m [] ys = refl
write_all-append m ((k, v) ∷ xs) ys = write_all-append (write m k v) xs ys

abbrev put_at : Bool → Bytes → Option Bytes → Option Bytes
put_at b value old = if b then overwritten value old else old

write_all-put_unless_empty :
    (m : Contents) (k j value : Bytes)
    → write_all m (put_unless_empty k value) j ≡ put_at (k ≟ j) value (m j)
write_all-put_unless_empty m k j value = ground arith

write_all-peer_ops_at :
    (m : Contents) (k j : Bytes) (p : PeerInfo)
    → write_all m (peer_ops k p) j
      ≡ put_at (peer_key k nated_field ≟ j) p.nat_endpoint (
          put_at
            (peer_key k lan_field ≟ j)
            p.lan_endpoint
            (put_at (peer_key k wg_ip_field ≟ j) p.wg_ip (m j)))
unfolding peer_ops
write_all-peer_ops_at m k j p =
    let ip = put_unless_empty (peer_key k wg_ip_field) p.wg_ip in
    let lan = put_unless_empty (peer_key k lan_field) p.lan_endpoint in
    let nated = put_unless_empty (peer_key k nated_field) p.nat_endpoint in
    ap (λ n. n j)
      (write_all-append m ip (lan ++ nated) ∙ write_all-append (write_all m ip) lan nated)
    ∙ write_all-put_unless_empty (write_all (write_all m ip) lan) (peer_key k nated_field) j
        p.nat_endpoint
    ∙ ap (put_at (peer_key k nated_field ≟ j) p.nat_endpoint) (
        write_all-put_unless_empty (write_all m ip) (peer_key k lan_field) j p.lan_endpoint
        ∙ ap (put_at (peer_key k lan_field ≟ j) p.lan_endpoint)
            (write_all-put_unless_empty m (peer_key k wg_ip_field) j p.wg_ip))

-- one field of the three is meant, if the keys are of one peer
pick :
    (b : Bool) (f : Field) (p : PeerInfo) (old : Option Bytes)
    → put_at (b && field_name of_nated ≟ field_name f) p.nat_endpoint (
        put_at
          (b && field_name of_lan ≟ field_name f)
          p.lan_endpoint
          (put_at (b && field_name of_wg_ip ≟ field_name f) p.wg_ip old))
      ≡ put_at b (field_of f p) old
unfolding ◌≟◌
pick false f p old = refl
pick true of_wg_ip p old = refl
pick true of_lan p old = refl
pick true of_nated p old = refl
pick true of_alias p old = refl

-- what the operations of one peer make of the fields of any peer
pub write_all-peer_ops :
    (m : Contents) (k q : Bytes) (p : PeerInfo) (f : Field)
    → write_all m (peer_ops k p) (peer_key q (field_name f)) ≡ (
        if k ≟ q
        then overwritten (field_of f p) (m (peer_key q (field_name f)))
        else m (peer_key q (field_name f)))
write_all-peer_ops m k q p f =
    write_all-peer_ops_at m k (peer_key q (field_name f)) p
    ∙ rw (≟-peer_key k q of_nated f, ≟-peer_key k q of_lan f, ≟-peer_key k q of_wg_ip f)
        (pick (k ≟ q) f p (m (peer_key q (field_name f))))

module _ {S : Type 0} (e : Etcd S) (laws : IsEtcd e) where
  contents-run_ops :
      (s : S) (ops : List KeyValue)
      → (run_ops e s ops).0 ≡ true
      → laws.contents (run_ops e s ops).1 ≡ write_all (laws.contents s) ops
  unfolding run_ops committed
  contents-run_ops s [] h = refl
  contents-run_ops s (op ∷ ops) h = elim (Option-cases (e.txn s [] (op ∷ ops)).0) [
    | inl failed ↦ absurd (ground arith)
    | inr (b, done) ↦ let (all, wrote) = laws.txn_writes s [] (op ∷ ops) b done in wrote ∙ rw all
  ]

  pub write_peer_to_etcd-write_all :
      (k : Bytes) (p : PeerInfo) (s : S)
      → (write_peer_to_etcd e k p s).0 ≡ true
      → laws.contents (write_peer_to_etcd e k p s).1 ≡ write_all (laws.contents s) (peer_ops k p)
  unfolding write_peer_to_etcd
  write_peer_to_etcd-write_all k p s done = contents-run_ops s (peer_ops k p) done

  -- After a write that succeeds, each of the three keys of the peer holds the field of the peer if
  -- that is not empty, and otherwise what it held before.
  pub write_peer_to_etcd-contents :
      (k : Bytes) (p : PeerInfo) (s : S)
      → (write_peer_to_etcd e k p s).0 ≡ true
      → (laws.contents (write_peer_to_etcd e k p s).1 (peer_key k wg_ip_field)
          ≡ overwritten p.wg_ip (laws.contents s (peer_key k wg_ip_field)))
        × (laws.contents (write_peer_to_etcd e k p s).1 (peer_key k lan_field)
            ≡ overwritten p.lan_endpoint (laws.contents s (peer_key k lan_field)))
        × (laws.contents (write_peer_to_etcd e k p s).1 (peer_key k nated_field)
            ≡ overwritten p.nat_endpoint (laws.contents s (peer_key k nated_field)))
  unfolding write_peer_to_etcd
  write_peer_to_etcd-contents k p s done =
      rw (contents-run_ops s (peer_ops k p) done) (own of_wg_ip, own of_lan, own of_nated)
    where
      own :
          (f : Field)
          → write_all (laws.contents s) (peer_ops k p) (peer_key k (field_name f))
            ≡ overwritten (field_of f p) (laws.contents s (peer_key k (field_name f)))
      own f = write_all-peer_ops (laws.contents s) k k p f ∙ rw (≟_refl k) refl
