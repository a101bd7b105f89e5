-- ===== src/Plugin/Ddns/Marked.antt =====
-- No request to the HTTP API takes the mark from a peer.
use valon.Prelude.{ℕ, refl, Bytes, ◌≟◌, Bool-cases, inl, inr}
use valon.Text.{Unicode}
use valon.Etcd.{Etcd}
use valon.Plugin.Cache
use valon.Plugin.Cache.Laws.{IsMap, get-delete}
use valon.Plugin.Cache.Marked.{is_marked-touched, Marked}
use valon.Plugin.World.{World, Config}
use valon.Plugin.Ddns.{
  DdnsEndpointRequest, HttpRequest, apply_update, commit_delete, handle_endpoint_update,
  handle_endpoint_delete,
}
use valon.Plugin.Ddns.Update.{get-commit_update}
use valon.Plugin.Ddns.Valid.{update_cases, delete_cases}

module _ {S : Type 0} (e : Etcd S) (q : Bytes) where
  pub Marked-endpoint_update :
      (u : Unicode) (v : Config) (r : HttpRequest DdnsEndpointRequest) (now : ℕ) (w : World S)
      → Marked q w.cache
      → Marked q (handle_endpoint_update e u v r now w).1.cache
  Marked-endpoint_update u v r now w h = elim (update_cases e u v r now w) [
    | inl same ↦ rw same h
    | inr (req, committed) ↦
        rw (committed, get-commit_update e u req now w q)
          (elim (Bool-cases (req.pub_key ≟ q)) [
            | inl same ↦ rw same (is_marked-touched (apply_update req) now (Cache.get w.cache q))
            | inr other ↦ rw other h
          ])
  ]

  pub Marked-endpoint_delete :
      (v : Config) (r : HttpRequest Bytes) (w : World S)
      → IsMap w.cache
      → Marked q w.cache
      → Marked q (handle_endpoint_delete e v r w).1.cache
  unfolding commit_delete
  Marked-endpoint_delete v r w map h = elim (delete_cases e v r w) [
    | inl same ↦ rw same h
    | inr (k, committed) ↦
        rw (committed, commit_delete)
          (rw (get-delete w.cache k q map)
            (elim (Bool-cases (k ≟ q)) [ inl same ↦ rw same refl | inr other ↦ rw other h ]))
  ]
