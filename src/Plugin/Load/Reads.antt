-- ===== src/Plugin/Load/Reads.antt =====
-- A load only reads etcd.
use valon.Prelude.{ℕ, ◌≡◌, refl, ap, ◌∙◌, Option, none, some, List, [], ◌∷◌}
use valon.Etcd.{Etcd, IsEtcd, KeyValue}
use valon.Plugin.World.{World}
use valon.Plugin.Load.{peers_prefix, loaded, load_from_etcd}

module _ {S : Type 0} (e : Etcd S) (laws : IsEtcd e) where
  etcd-loaded :
      (now : ℕ) (w : World S) (r : Option (List KeyValue) × S) → (loaded e now w r).1.etcd ≡ r.1
  unfolding loaded
  etcd-loaded now w (none, s) = refl
  etcd-loaded now w (some [], s) = refl
  etcd-loaded now w (some (kv ∷ kvs), s) = refl

  pub contents-load_from_etcd :
      (now : ℕ) (w : World S) → laws.contents (load_from_etcd e now w).1.etcd ≡ laws.contents w.etcd
  unfolding load_from_etcd
  contents-load_from_etcd now w =
      ap laws.contents (etcd-loaded now w (e.get_prefix w.etcd peers_prefix))
      ∙ laws.get_prefix_reads w.etcd peers_prefix
