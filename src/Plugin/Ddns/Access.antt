-- ===== src/Plugin/Ddns/Access.antt =====
-- Who may change what through the HTTP API.
use valon.Prelude.{
  ℕ, ◌≡◌, ◌≢◌, refl, ◌↔◌, ◌⊎◌, inl, inr, false, none, some, [], ◌∷◌, Bytes, codes, ◌≟◌, ≟_iff, ≟_ne,
  arith, Bool-cases, Option-cases,
}
use valon.Text.{Unicode, index_byte, has_byte}
use valon.Etcd.{Etcd}
use valon.Plugin.Cache
use valon.Plugin.Cache.{PeerInfo, PeerCache}
use valon.Plugin.World.{World, Config}
use valon.Plugin.Ddns.{
  DdnsEndpointRequest, HttpRequest, send_error, extract_client_ip, Authorization, granted, denied,
  denied_panic, is_authorized, register_alias, commit_update, handle_endpoint_update,
  handle_endpoint_delete,
}

-- The client is the Discovery Role, or the peer itself by its WireGuard address.
abbrev pub MayUpdate : Config → PeerCache → Bytes → Bytes → Type 0
MayUpdate v cache client_ip target =
    (client_ip ≡ v.self_wg_ip)
    ⊎ ((p : PeerInfo) × (Cache.get cache target ≡ some p) × (p.wg_ip ≡ client_ip))

module _ (v : Config) (cache : PeerCache) (client_ip target : Bytes) where
  granted→MayUpdate :
      is_authorized v cache client_ip target ≡ granted → MayUpdate v cache client_ip target
  unfolding is_authorized
  granted→MayUpdate h = elim (Bool-cases (client_ip ≟ v.self_wg_ip)) [
    | inl same ↦ inl ((≟_iff client_ip v.self_wg_ip).0 same)
    | inr other ↦ elim (Option-cases (Cache.get cache target)) [
      | inl missing ↦ absurd (ground arith)
      | inr (p, found) ↦ inr (p, found, ground (arith, ≟_iff p.wg_ip client_ip))
    ]
  ]

  MayUpdate→granted :
      MayUpdate v cache client_ip target → is_authorized v cache client_ip target ≡ granted
  unfolding is_authorized
  MayUpdate→granted (inl e) = ground (arith, ≟_iff client_ip v.self_wg_ip)
  MayUpdate→granted (inr (p, found, e)) = ground (arith, ≟_iff p.wg_ip client_ip)

  -- `isAuthorized` grants exactly what its comment says.
  pub is_authorized_iff :
      (is_authorized v cache client_ip target ≡ granted) ↔ MayUpdate v cache client_ip target
  is_authorized_iff = (granted→MayUpdate, MayUpdate→granted)

pub cases : (a : Authorization) → (a ≡ granted) ⊎ ((a ≡ denied) ⊎ (a ≡ denied_panic))
cases granted = inl refl
cases denied = inr (inl refl)
cases denied_panic = inr (inr refl)

module _ {S : Type 0} (e : Etcd S) (u : Unicode) where
  commit_update-ne_error :
      (req : DdnsEndpointRequest) (now : ℕ) (w : World S) (code : ℕ) (message : Bytes)
      → (commit_update e u req now w).0 ≢ send_error code message
  unfolding commit_update register_alias
  commit_update-ne_error req now w code message h = ground arith

  -- The state after a request to update differs from the one before only if the method is POST, the
  -- body decodes and the client may update the peer that the body names.
  pub handle_endpoint_update-authorized :
      (v : Config) (r : HttpRequest DdnsEndpointRequest) (now : ℕ) (w : World S)
      → (handle_endpoint_update e u v r now w).1 ≢ w
      → (req : DdnsEndpointRequest) × (r.body ≡ some req)
        × (r.method ≡ codes "POST")
        × MayUpdate v w.cache (extract_client_ip r) req.pub_key
  unfolding handle_endpoint_update
  handle_endpoint_update-authorized v r now w changed = elim (Option-cases r.body) [
    | inl missing ↦ absurd (changed (ground arith))
    | inr (req, found) ↦ elim (cases (is_authorized v w.cache (extract_client_ip r) req.pub_key)) [
      | inl may ↦ (
        req,
        found,
        elim (Bool-cases (r.method ≟ codes "POST")) [
          | inl post ↦ (≟_iff r.method (codes "POST")).0 post
          | inr other ↦ absurd (changed (ground arith))
        ],
        (is_authorized_iff v w.cache (extract_client_ip r) req.pub_key).0 may,
      )
      | inr (inl no_grant) ↦ absurd (changed (ground arith))
      | inr (inr no_grant) ↦ absurd (changed (ground arith))
    ]
  ]

  -- An error response leaves the state as it was.
  handle_endpoint_update-error :
      (v : Config) (r : HttpRequest DdnsEndpointRequest) (now : ℕ) (w : World S) (code : ℕ)
      (message : Bytes)
      → (handle_endpoint_update e u v r now w).0 ≡ send_error code message
      → (handle_endpoint_update e u v r now w).1 ≡ w
  unfolding handle_endpoint_update
  handle_endpoint_update-error v r now w code message h = elim (Option-cases r.body) [
    | inl missing ↦ ground arith
    | inr (req, found) ↦ ground (arith, commit_update-ne_error req now w code message)
  ]

module _ {S : Type 0} (e : Etcd S) where
  -- A deletion changes the state only for a client with the address of the Discovery Role.
  handle_endpoint_delete-authorized :
      (v : Config) (r : HttpRequest Bytes) (w : World S)
      → (handle_endpoint_delete e v r w).1 ≢ w
      → extract_client_ip r ≡ v.self_wg_ip
  unfolding handle_endpoint_delete
  handle_endpoint_delete-authorized v r w changed =
      elim (Bool-cases (extract_client_ip r ≟ v.self_wg_ip)) [
        | inl same ↦ (≟_iff (extract_client_ip r) v.self_wg_ip).0 same
        | inr other ↦ absurd (changed (ground arith))
      ]

first_forwarded-none : (ip : Bytes) → has_byte ip b',' ≡ false → index_byte ip b',' ≡ none
unfolding has_byte index_byte
first_forwarded-none [] h = refl
first_forwarded-none (c ∷ ip) h = ground (arith, first_forwarded-none ip (ground arith))

-- Whoever sends the address of the Discovery Role in the X-Forwarded-For header is authorized for
-- every peer, from whatever remote address the request comes, if that address is not empty and has
-- no comma.
pub is_authorized-forwarded_for :
    {Body : Type 0} (v : Config) (cache : PeerCache) (r : HttpRequest Body) (target : Bytes)
    → v.self_wg_ip ≢ []
    → has_byte v.self_wg_ip b',' ≡ false
    → r.forwarded_for ≡ v.self_wg_ip
    → is_authorized v cache (extract_client_ip r) target ≡ granted
unfolding extract_client_ip
is_authorized-forwarded_for v cache r target ne plain spoofed =
    (is_authorized_iff v cache (extract_client_ip r) target).1
      (inl (rw (spoofed, first_forwarded-none v.self_wg_ip plain, ≟_ne v.self_wg_ip [] ne)))
