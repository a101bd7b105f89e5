-- ===== src/Ctl/PeerList/Keys.antt =====
-- What ListPeers changes of etcd: nothing.
use valon.Prelude.{ℕ, ◌≡◌, refl, ap, ◌∙◌, Option, none, some, List, Bytes}
use valon.Etcd.{Etcd, IsEtcd, KeyValue}
use valon.Ctl.PeerList.{list_prefix, listed, list_peers}

module _ {S : Type 0} (e : Etcd S) (laws : IsEtcd e) (parse_time : Bytes → Option ℕ) where
  reads-listed : (r : Option (List KeyValue) × S) → (listed parse_time e r).1 ≡ r.1
  unfolding listed
  reads-listed (none, s) = refl
  reads-listed (some kvs, s) = refl

  pub reads-list_peers : (s : S) → laws.contents (list_peers parse_time e s).1 ≡ laws.contents s
  unfolding list_peers
  reads-list_peers s =
      ap laws.contents (reads-listed (e.get_prefix s list_prefix))
      ∙ laws.get_prefix_reads s list_prefix
