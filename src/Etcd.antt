-- ===== src/Etcd.antt =====
-- The etcd client, go.etcd.io/etcd/client/v3, which is not part of the repository. Its operations
-- are a parameter of the development; `IsEtcd` states what etcd documents of them. `S` is the state
-- of the store and of the connection to it, so any call may fail.
pub mod Keys
pub mod Fields
use valon.Prelude.{
  Bool, true, false, ◌&&◌, ◌≡◌, Option, none, some, List, [], ◌∷◌, Bytes, if◌then◌else◌, ◌≟◌,
}
use valon.Text.{has_prefix, is_some}

abbrev pub KeyValue : Type 0
KeyValue = Bytes × Bytes

-- A reply `none`, or `false`, is an error of the call.
pub record Etcd (S : Type 0) : Type 0 where
  pub get : S → Bytes → Option (List KeyValue) × S
  pub get_prefix : S → Bytes → Option (List KeyValue) × S
  pub put : S → Bytes → Bytes → Bool × S
  pub delete : S → Bytes → Bool × S
  pub delete_prefix : S → Bytes → Bool × S
  -- `Txn().If(the keys have version 0).Then(the puts).Commit()`, with `Succeeded` in the reply
  pub txn : S → List Bytes → List KeyValue → Option Bool × S

abbrev pub Contents : Type 0
Contents = Bytes → Option Bytes

abbrev pub at_key : Bytes → Option Bytes → List KeyValue
at_key k none = []
at_key k (some v) = (k, v) ∷ []

abbrev pub write : Contents → Bytes → Bytes → Contents
write m k v j = if k ≟ j then some v else m j

abbrev pub write_all : Contents → List KeyValue → Contents
write_all m [] = m
write_all m ((k, v) ∷ kvs) = write_all (write m k v) kvs

abbrev pub find : List KeyValue → Bytes → Option Bytes
find [] j = none
find ((k, v) ∷ kvs) j = if k ≟ j then some v else find kvs j

-- no key stands twice
abbrev pub IsDistinct : List KeyValue → Type 0
IsDistinct [] = Unit
IsDistinct ((k, v) ∷ kvs) = (find kvs k ≡ none) × IsDistinct kvs

abbrev is_none : Option Bytes → Bool
is_none none = true
is_none (some v) = false

abbrev pub all_absent : Contents → List Bytes → Bool
all_absent m [] = true
all_absent m (k ∷ ks) = is_none (m k) && all_absent m ks

-- What a call that succeeds has done. Of a call that fails nothing is assumed.
pub record IsEtcd {S : Type 0} (e : Etcd S) : Type 0 where
  pub contents : S → Contents
  pub get_reads : (s : S) (k : Bytes) → contents (e.get s k).1 ≡ contents s
  pub get_returns :
      (s : S) (k : Bytes) (kvs : List KeyValue)
      → (e.get s k).0 ≡ some kvs
      → kvs ≡ at_key k (contents s k)
  pub get_prefix_reads : (s : S) (p : Bytes) → contents (e.get_prefix s p).1 ≡ contents s
  pub get_prefix_returns :
      (s : S) (p : Bytes) (kvs : List KeyValue)
      → (e.get_prefix s p).0 ≡ some kvs
      → (j : Bytes) → find kvs j ≡ (if has_prefix j p then contents s j else none)
  pub get_prefix_distinct :
      (s : S) (p : Bytes) (kvs : List KeyValue) → (e.get_prefix s p).0 ≡ some kvs → IsDistinct kvs
  pub put_writes :
      (s : S) (k v : Bytes)
      → (e.put s k v).0 ≡ true
      → contents (e.put s k v).1 ≡ write (contents s) k v
  pub delete_removes :
      (s : S) (k : Bytes)
      → (e.delete s k).0 ≡ true
      → (j : Bytes) → contents (e.delete s k).1 j ≡ (if k ≟ j then none else contents s j)
  pub delete_prefix_removes :
      (s : S) (p : Bytes)
      → (e.delete_prefix s p).0 ≡ true
      → (j : Bytes)
      → contents (e.delete_prefix s p).1 j ≡ (if has_prefix j p then none else contents s j)
  pub txn_writes :
      (s : S) (absent : List Bytes) (puts : List KeyValue) (b : Bool)
      → (e.txn s absent puts).0 ≡ some b
      → (b ≡ all_absent (contents s) absent)
        × (contents (e.txn s absent puts).1
            ≡ (if b then write_all (contents s) puts else contents s))
