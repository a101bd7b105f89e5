-- ===== src/Plugin/Init.antt =====
-- The start of the plugin as a whole: setup of coredns-plugin/valon/setup.go, which reads the
-- Corefile, and then Init of valon.go. `new_client` is clientv3.New, none for an error. What the
-- process has done outside before an error stays done, so the state is returned with an error too;
-- CoreDNS then ends.
pub mod Started
pub mod Running
use valon.Prelude.{ℕ, Option, none, some, List, [], Bytes, Result, ok, err}
use valon.Etcd.{Etcd}
use valon.Wireguard.{Wgctrl}
use valon.Plugin.Cache.{PeerInfo, PeerCache, new_peer_cache}
use valon.Plugin.World.{World}
use valon.Plugin.Loops.{ℤ, wg_poll_interval, etcd_sync_interval}
use valon.Plugin.Setup.{Controller, Settings, SetupError, default_settings, parse_corefile}
use valon.Plugin.Start.{Host, Node, SelfError, init}

pub data PluginError : Type 0 where
  corefile_error : SetupError → PluginError
  etcd_client_failed : PluginError
  register_self_failed : SelfError → PluginError

-- the settings with the defaults that Init fills in
abbrev pub with_intervals : Settings ℤ → Settings ℤ
with_intervals v = record v {
  wg_poll_interval = some (wg_poll_interval v.wg_poll_interval);
  etcd_sync_interval = some (etcd_sync_interval v.etcd_sync_interval);
}

module _ {S T : Type 0} (new_client : List Bytes → Option (Etcd S)) (wg : Wgctrl T) (host : Host)
    (now : ℕ) (get_all : PeerCache → List (Bytes × PeerInfo)) where
  -- before Init has done anything
  abbrev pub unstarted : S → T → Node S T
  unstarted s t = record {
    world = record { cache = new_peer_cache; etcd = s };
    wireguard = t;
    self_wg_ip = [];
  }

  registered : Settings ℤ → Option SelfError × Node S T → Result PluginError (Settings ℤ) × Node S T
  registered v (some x, n) = (err (register_self_failed x), n)
  registered v (none, n) = (ok (with_intervals v), n)

  unfoldable pub init_plugin : Settings ℤ → S → T → Result PluginError (Settings ℤ) × Node S T
  unfolding registered
  init_plugin v s t = elim (new_client v.etcd_endpoints) [
    | none ↦ (err etcd_client_failed, unstarted s t)
    | some e ↦ registered v (init wg e host v.wg_interface now get_all s t)
  ]

  read_then_init :
      {D : Type 0}
      → S
      → T
      → Result SetupError (Settings ℤ × D)
      → Result PluginError (Settings ℤ) × Node S T
  unfolding init_plugin
  read_then_init s t (err x) = (err (corefile_error x), unstarted s t)
  read_then_init s t (ok (v, d)) = init_plugin v s t

  unfoldable pub setup :
      {D : Type 0}
      → Controller D
      → (Bytes → Option ℤ)
      → ℕ
      → D
      → S
      → T
      → Result PluginError (Settings ℤ) × Node S T
  unfolding read_then_init
  setup c parse_duration fuel d s t =
      read_then_init s t (parse_corefile c parse_duration fuel d default_settings)
