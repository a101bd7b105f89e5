-- ===== src/Registered/Shared.antt =====
-- etcd as valonctl and the plugin share it: valonctl changes the state of etcd beside the cache.
use valon.Etcd.{Etcd, IsEtcd}
use valon.Plugin.World.{World}

module _ {S : Type 0} where
  abbrev beside : {A : Type 0} → World S → A × S → A × World S
  beside w r = (r.0, record w { etcd = r.1 })

  abbrev pub on_world : Etcd S → Etcd (World S)
  on_world e = record {
    get = λ w k. beside w (e.get w.etcd k);
    get_prefix = λ w p. beside w (e.get_prefix w.etcd p);
    put = λ w k v. beside w (e.put w.etcd k v);
    delete = λ w k. beside w (e.delete w.etcd k);
    delete_prefix = λ w p. beside w (e.delete_prefix w.etcd p);
    txn = λ w absent puts. beside w (e.txn w.etcd absent puts);
  }

  abbrev pub on_world-IsEtcd : (e : Etcd S) → IsEtcd e → IsEtcd (on_world e)
  on_world-IsEtcd e laws = record {
    contents = λ w. laws.contents w.etcd;
    get_reads = λ w k. laws.get_reads w.etcd k;
    get_returns = λ w k kvs got. laws.get_returns w.etcd k kvs got;
    get_prefix_reads = λ w p. laws.get_prefix_reads w.etcd p;
    get_prefix_returns = λ w p kvs got. laws.get_prefix_returns w.etcd p kvs got;
    get_prefix_distinct = λ w p kvs got. laws.get_prefix_distinct w.etcd p kvs got;
    put_writes = λ w k v done. laws.put_writes w.etcd k v done;
    delete_removes = λ w k done. laws.delete_removes w.etcd k done;
    delete_prefix_removes = λ w p done. laws.delete_prefix_removes w.etcd p done;
    txn_writes = λ w absent puts b done. laws.txn_writes w.etcd absent puts b done;
  }
