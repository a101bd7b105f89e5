-- ===== src/Tests/Memory.antt =====
-- An etcd that never fails, with a list as its store: what `IsEtcd` asks can hold.
use valon.Prelude.{
  ◌≡◌, refl, sym, ◌∙◌, Bool, true, false, none, some, List, [], ◌∷◌, Bytes, if◌then◌else◌, ◌≟◌,
  ≟_iff, ≟_refl, arith, Bool-cases, inl, inr,
}
use mathlib.Core.Option
use valon.Text.{has_prefix}
use valon.Etcd.{Etcd, IsEtcd, KeyValue, at_key, write_all, find, all_absent, IsDistinct}

abbrev pub Memory : Type 0
Memory = List KeyValue

unfoldable pub without : (Bytes → Bool) → Memory → Memory
without p [] = []
without p ((k, v) ∷ s) = let rest = without p s in if p k then rest else (k, v) ∷ rest

-- the newest entry of each key
unfoldable pub newest : Memory → Memory
unfolding without
newest [] = []
newest ((k, v) ∷ s) = (k, v) ∷ without (λ j. k ≟ j) (newest s)

abbrev pub within : Bytes → Bytes → Bool
within p k = if has_prefix k p then false else true

unfoldable pub push_all : List KeyValue → Memory → Memory
push_all [] s = s
push_all (kv ∷ kvs) s = push_all kvs (kv ∷ s)

unfoldable pub memory : Etcd Memory
unfolding without push_all newest
memory = record {
  get = λ s k. (some (at_key k (find s k)), s);
  get_prefix = λ s p. (some (newest (without (within p) s)), s);
  put = λ s k v. (true, (k, v) ∷ s);
  delete = λ s k. (true, without (λ j. k ≟ j) s);
  delete_prefix = λ s p. (true, without (λ j. has_prefix j p) s);
  txn = λ s absent puts.
      let b = all_absent (find s) absent in (some b, if b then push_all puts s else s);
}

pub find-without :
    (p : Bytes → Bool) (s : Memory) (j : Bytes)
    → find (without p s) j ≡ (if p j then none else find s j)
unfolding without
find-without p [] j = ground arith
find-without p ((k, v) ∷ s) j = elim (Bool-cases (k ≟ j)) [
  | inl same ↦ rw (← (≟_iff k j).0 same) (ground (arith, ≟_iff k k, find-without p s k))
  | inr other ↦ ground (arith, find-without p s j)
]

pub find-within :
    (p : Bytes) (s : Memory) (j : Bytes)
    → find (without (within p) s) j ≡ (if has_prefix j p then find s j else none)
find-within p s j = find-without (within p) s j ∙ ground arith

pub find-newest : (s : Memory) (j : Bytes) → find (newest s) j ≡ find s j
unfolding newest
find-newest [] j = refl
find-newest ((k, v) ∷ s) j = ground (arith, find-without (λ i. k ≟ i) (newest s) j, find-newest s j)

IsDistinct-without : (p : Bytes → Bool) (s : Memory) → IsDistinct s → IsDistinct (without p s)
unfolding without
IsDistinct-without p [] h = tt
IsDistinct-without p ((k, v) ∷ s) h = elim (Bool-cases (p k)) [
  | inl gone ↦ rw gone (IsDistinct-without p s h.1)
  | inr stays ↦ rw stays (find-without p s k ∙ rw stays h.0, IsDistinct-without p s h.1)
]

pub IsDistinct-newest : (s : Memory) → IsDistinct (newest s)
unfolding newest
IsDistinct-newest [] = tt
IsDistinct-newest ((k, v) ∷ s) = (
  find-without (λ i. k ≟ i) (newest s) k ∙ rw (≟_refl k) refl,
  IsDistinct-without (λ i. k ≟ i) (newest s) (IsDistinct-newest s),
)

find-push_all : (kvs : List KeyValue) (s : Memory) → find (push_all kvs s) ≡ write_all (find s) kvs
unfolding push_all
find-push_all [] s = refl
find-push_all ((k, v) ∷ kvs) s = find-push_all kvs ((k, v) ∷ s)

pub txn_case :
    (s : Memory) (puts : List KeyValue) (a b : Bool)
    → a ≡ b
    → (b ≡ a)
      × (find (if a then push_all puts s else s) ≡ (if b then write_all (find s) puts else find s))
txn_case s puts true b h = (sym h, rw (← h) (find-push_all puts s))
txn_case s puts false b h = (sym h, rw (← h) refl)

unfoldable pub memory-IsEtcd : IsEtcd memory
unfolding memory
memory-IsEtcd = record {
  contents = find;
  get_reads = λ s k. refl;
  get_returns = λ s k kvs h. sym (Option.some_inj.0 h);
  get_prefix_reads = λ s p. refl;
  get_prefix_returns = λ s p kvs h j.
      rw (← Option.some_inj.0 h) (find-newest (without (within p) s) j ∙ find-within p s j);
  get_prefix_distinct =
      λ s p kvs h. rw (← Option.some_inj.0 h) (IsDistinct-newest (without (within p) s));
  put_writes = λ s k v h. refl;
  delete_removes = λ s k h j. find-without (λ i. k ≟ i) s j;
  delete_prefix_removes = λ s p h j. find-without (λ i. has_prefix i p) s j;
  txn_writes =
      λ s absent puts b h. txn_case s puts (all_absent (find s) absent) b (Option.some_inj.0 h);
}
