-- ===== src/Plugin/Init/Started.antt =====
-- What a start without an error has set up.
use valon.Prelude.{
  ℕ, ◌≡◌, ◌≢◌, refl, subst, Option, none, some, List, Bytes, Result, ok, err, inl, inr,
  Option-cases,
}
use valon.Etcd.{Etcd}
use valon.Wireguard.{Wgctrl}
use valon.Plugin.Cache.{PeerInfo, PeerCache}
use valon.Plugin.Cache.Valid.{IsValid}
use valon.Plugin.Loops.{ℤ, pos, wg_poll_interval, etcd_sync_interval}
use valon.Plugin.Loops.Runs.{wg_poll_interval-ne_zero, etcd_sync_interval-ne_zero}
use valon.Plugin.Setup.{Controller, Settings, SetupError, default_settings, parse_corefile}
use valon.Plugin.Start.{Host, Node, SelfError, init}
use valon.Plugin.Start.Started.{RegisteredSelf, init_self, init-IsValid}
use valon.Plugin.Init.{with_intervals, registered, init_plugin, read_then_init, setup}

-- an interval that is not zero
abbrev pub IsInterval : Option ℤ → Type 0
IsInterval o = (d : ℤ) × (o ≡ some d) × (d ≢ pos 0)

with_intervals-IsInterval :
    (v : Settings ℤ)
    → IsInterval (with_intervals v).wg_poll_interval
      × IsInterval (with_intervals v).etcd_sync_interval
unfolding wg_poll_interval etcd_sync_interval
with_intervals-IsInterval v = (
  (wg_poll_interval v.wg_poll_interval, refl, wg_poll_interval-ne_zero v.wg_poll_interval),
  (etcd_sync_interval v.etcd_sync_interval, refl, etcd_sync_interval-ne_zero v.etcd_sync_interval),
)

module _ {S T : Type 0} (new_client : List Bytes → Option (Etcd S)) (wg : Wgctrl T) (host : Host)
    (now : ℕ) (get_all : PeerCache → List (Bytes × PeerInfo)) where
  -- the plugin as its handlers and loops take it over
  pub record IsStarted (v : Settings ℤ) (n : Node S T) : Type 0 where
    pub client : Etcd S
    pub connected : new_client v.etcd_endpoints ≡ some client
    pub valid : IsValid n.world.cache
    pub own_peer : RegisteredSelf wg host v.wg_interface now n
    pub polls : IsInterval v.wg_poll_interval
    pub syncs : IsInterval v.etcd_sync_interval

  IsStarted-registered :
      (v w : Settings ℤ) (e : Etcd S) (r : Option SelfError × Node S T)
      → new_client v.etcd_endpoints ≡ some e
      → IsValid r.1.world.cache
      → (r.0 ≡ none → RegisteredSelf wg host v.wg_interface now r.1)
      → (registered new_client wg host now get_all v r).0 ≡ ok w
      → IsStarted w (registered new_client wg host now get_all v r).1
  unfolding registered
  IsStarted-registered v w e (some x, n) made valid self done = absurd cc
  IsStarted-registered v w e (none, n) made valid self done =
      let (polls, syncs) = with_intervals-IsInterval v in
      let same : with_intervals v ≡ w = cc in
      subst (λ x. IsStarted x n) same
        (record {
          client = e;
          connected = made;
          valid = valid;
          own_peer = self refl;
          polls = polls;
          syncs = syncs;
        })

  IsStarted-init_plugin :
      (v w : Settings ℤ) (s : S) (t : T)
      → (init_plugin new_client wg host now get_all v s t).0 ≡ ok w
      → IsStarted w (init_plugin new_client wg host now get_all v s t).1
  unfolding init_plugin
  IsStarted-init_plugin v w s t done = elim (Option-cases (new_client v.etcd_endpoints)) [
    | inl failed ↦ let never = rw (init_plugin, failed) at done in absurd (cc never)
    | inr (e, made) ↦
        rw (init_plugin, made)
          (IsStarted-registered v w e (init wg e host v.wg_interface now get_all s t) made
            (init-IsValid wg e host v.wg_interface now get_all s t)
            (init_self wg e host v.wg_interface now get_all s t) (rw (init_plugin, made) at done))
  ]

  IsStarted-read_then_init :
      {D : Type 0} (w : Settings ℤ) (s : S) (t : T) (r : Result SetupError (Settings ℤ × D))
      → (read_then_init new_client wg host now get_all s t r).0 ≡ ok w
      → IsStarted w (read_then_init new_client wg host now get_all s t r).1
  unfolding read_then_init
  IsStarted-read_then_init w s t (err x) done = absurd cc
  IsStarted-read_then_init w s t (ok (v, d)) done = IsStarted-init_plugin v w s t done

  -- A start of the plugin without an error has made a client of etcd for the endpoints of the
  -- Corefile; it leaves a cache with distinct keys, in which every peer is stored under its own key
  -- and the node itself stands under the public key of the interface, with the interface's first
  -- IPv4 address, which is also the one that the authorization takes for the Discovery Role's; and
  -- neither of the two intervals is zero.
  pub setup-IsStarted :
      {D : Type 0} (c : Controller D) (parse_duration : Bytes → Option ℤ) (fuel : ℕ) (d : D) (s : S)
      (t : T) (v : Settings ℤ)
      → (setup new_client wg host now get_all c parse_duration fuel d s t).0 ≡ ok v
      → IsStarted v (setup new_client wg host now get_all c parse_duration fuel d s t).1
  unfolding setup
  setup-IsStarted c parse_duration fuel d s t v done =
      IsStarted-read_then_init v s t (parse_corefile c parse_duration fuel d default_settings) done
