-- ===== src/Plugin/Ddns/Valid.antt =====
-- The handlers of the HTTP API keep a cache valid.
use valon.Prelude.{ℕ, ◌≡◌, ◌⊎◌, inl, inr, [], Bytes, codes, ◌≟◌, arith, Bool-cases, Option-cases}
use valon.Text.{Unicode}
use valon.Etcd.{Etcd}
use valon.Plugin.Cache.{PeerInfo}
use valon.Plugin.Cache.Valid.{IsValid, IsValid-update, IsValid-delete}
use valon.Plugin.World.{World, Config}
use valon.Plugin.Ddns.{
  DdnsEndpointRequest, HttpRequest, extract_client_ip, is_authorized, apply_update, bad_endpoint,
  commit_update, commit_delete, handle_endpoint_update, handle_endpoint_delete,
}
use valon.Plugin.Ddns.Access.{cases}
use valon.Plugin.Ddns.Update.{cache-register_alias}

pub_key-apply_update :
    (req : DdnsEndpointRequest) (p : PeerInfo) → (apply_update req p).pub_key ≡ req.pub_key
unfolding apply_update
pub_key-apply_update req p = ground arith

module _ {S : Type 0} (e : Etcd S) where
  -- a request changes nothing, or is accepted
  pub update_cases :
      (u : Unicode) (v : Config) (r : HttpRequest DdnsEndpointRequest) (now : ℕ) (w : World S)
      → ((handle_endpoint_update e u v r now w).1 ≡ w)
        ⊎ ((req : DdnsEndpointRequest) × (handle_endpoint_update e u v r now w
              ≡ commit_update e u req now w))
  unfolding handle_endpoint_update
  update_cases u v r now w = elim (Option-cases r.body) [
    | inl missing ↦ inl (ground arith)
    | inr (req, found) ↦ elim (Bool-cases (r.method ≟ codes "POST")) [
      | inr other ↦ inl (ground arith)
      | inl post ↦ elim (Bool-cases (req.pub_key ≟ [])) [
        | inl empty ↦ inl (ground arith)
        | inr keyed ↦ elim (cases (is_authorized v w.cache (extract_client_ip r) req.pub_key)) [
          | inr (inl no_grant) ↦ inl (ground arith)
          | inr (inr no_grant) ↦ inl (ground arith)
          | inl may ↦ elim (Bool-cases (bad_endpoint req.lan_endpoint)) [
            | inl bad ↦ inl (ground arith)
            | inr good ↦ inr (req, ground arith)
          ]
        ]
      ]
    ]
  ]

  commit_update-IsValid :
      (u : Unicode) (req : DdnsEndpointRequest) (now : ℕ) (w : World S)
      → IsValid w.cache
      → IsValid (commit_update e u req now w).1.cache
  unfolding commit_update
  commit_update-IsValid u req now w valid = rw (cache-register_alias e u req _) (
      IsValid-update w.cache req.pub_key now valid (apply_update req)
        (λ p own. pub_key-apply_update req p))

  pub update-IsValid :
      (u : Unicode) (v : Config) (r : HttpRequest DdnsEndpointRequest) (now : ℕ) (w : World S)
      → IsValid w.cache
      → IsValid (handle_endpoint_update e u v r now w).1.cache
  update-IsValid u v r now w valid = elim (update_cases u v r now w) [
    | inl same ↦ rw same valid
    | inr (req, committed) ↦ rw committed (commit_update-IsValid u req now w valid)
  ]

  pub delete_cases :
      (v : Config) (r : HttpRequest Bytes) (w : World S)
      → ((handle_endpoint_delete e v r w).1 ≡ w)
        ⊎ ((pubkey : Bytes) × (handle_endpoint_delete e v r w ≡ commit_delete e pubkey w))
  unfolding handle_endpoint_delete
  delete_cases v r w = elim (Option-cases r.body) [
    | inl missing ↦ inl (ground arith)
    | inr (pubkey, found) ↦ elim (Bool-cases (pubkey ≟ [])) [
      | inl empty ↦ inl (ground arith)
      | inr keyed ↦ elim (Bool-cases (extract_client_ip r ≟ v.self_wg_ip)) [
        | inr other ↦ inl (ground arith)
        | inl allowed ↦ elim (Bool-cases (r.method ≟ codes "DELETE")) [
          | inl by_delete ↦ inr (pubkey, ground arith)
          | inr other ↦ elim (Bool-cases (r.method ≟ codes "POST")) [
            | inl by_post ↦ inr (pubkey, ground arith)
            | inr neither ↦ inl (ground arith)
          ]
        ]
      ]
    ]
  ]

  pub delete-IsValid :
      (v : Config) (r : HttpRequest Bytes) (w : World S)
      → IsValid w.cache
      → IsValid (handle_endpoint_delete e v r w).1.cache
  delete-IsValid v r w valid = elim (delete_cases v r w) [
    | inl same ↦ rw same valid
    | inr (pubkey, committed) ↦
        rw committed (unfold commit_delete in IsValid-delete w.cache pubkey 0 valid)
  ]
