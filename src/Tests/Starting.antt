-- ===== src/Tests/Starting.antt =====
-- A start of the plugin from a Corefile, with nothing in etcd.
use valon.Prelude.{
  ◌*◌, ◌≡◌, refl, Option, none, some, List, [], ◌∷◌, Bytes, codes, Result, ok, true, false,
}
use valon.Plugin.Init.{with_intervals}
use valon.Plugin.Init.Running.{Runs, loops-Runs}
use valon.Plugin.Loops.{negsuc, tick, stop, start_wg_monitor, start_etcd_sync}
use valon.Tests.Samples.{no_runes, network, cached, world}
use valon.Etcd.{Etcd}
use valon.Plugin.Loops.{ℤ, pos, second}
use valon.Plugin.Setup.{Settings, default_settings}
use valon.Plugin.Init.{PluginError, setup}
use valon.Plugin.Init.Started.{IsStarted, setup-IsStarted}
use valon.Plugin.Start.{Node}
use valon.Tests.Corefile.{Tokens, tokens}
use valon.Tests.Device.{one_device}
use valon.Tests.Memory.{Memory, memory}
use valon.Tests.Start.{host, every}

abbrev new_client : List Bytes → Option (Etcd Memory)
new_client endpoints = some memory

abbrev five_seconds : Bytes → Option ℤ
five_seconds text = some (pos (5 * second))

-- valon { etcd_endpoints a:2379 etcd_sync_interval 5s }, without the brace that opens the block
abbrev small_corefile : Tokens
small_corefile = (
  [],
  (true, codes "valon")
      ∷ (true, codes "etcd_endpoints")
      ∷ (false, codes "a:2379")
      ∷ (true, codes "etcd_sync_interval")
      ∷ (false, codes "5s")
      ∷ (true, codes "}")
      ∷ [],
)

abbrev begun : Result PluginError (Settings ℤ) × Node Memory (List Bytes)
begun = setup new_client one_device host 9 every tokens five_seconds 8 small_corefile [] []

abbrev configured : Settings ℤ
configured = record {
  etcd_endpoints = codes "a:2379" ∷ [];
  wg_interface = codes "wg0";
  ddns_listen = codes "127.0.0.1:8080";
  zone = codes "valon.internal.";
  wg_poll_interval = some (pos second);
  etcd_sync_interval = some (pos (5 * second));
}

begun_well : begun.0 ≡ ok configured
unfolding setup valon.Plugin.Setup.parse_corefile valon.Plugin.Setup.parse_block
    valon.Plugin.Setup.directive valon.Prelude.◌≟◌ valon.Plugin.Init.init_plugin
    valon.Plugin.Start.init valon.Plugin.Load.load_from_etcd memory
    valon.Plugin.Start.restore_wireguard_peers valon.Plugin.Start.register_self
    valon.Plugin.Start.get_own_public_key one_device valon.Plugin.Start.get_own_wireguard_ip
    valon.Net.Addr.to4 valon.Net.IpText.ip_string valon.Plugin.Loops.wg_poll_interval
    valon.Plugin.Loops.etcd_sync_interval
begun_well = refl

setup-IsStarted_example : IsStarted new_client one_device host 9 every configured begun.1
setup-IsStarted_example =
    setup-IsStarted new_client one_device host 9 every tokens five_seconds 8 small_corefile [] []
      configured begun_well

-- minus five seconds, and nothing
abbrev negative_poll : Settings ℤ
negative_poll = record default_settings { wg_poll_interval = some (negsuc 4_999_999_999) }

loops-Runs_example :
    Runs memory no_runes network
      (some (negsuc 4_999_999_999))
      world
      (start_wg_monitor memory (with_intervals negative_poll) (tick (9, none) ∷ stop ∷ []) world)
    × Runs memory no_runes network none world
        (start_etcd_sync memory (with_intervals negative_poll) (tick (9, cached) ∷ stop ∷ []) world)
loops-Runs_example =
    loops-Runs memory no_runes network negative_poll (tick (9, none) ∷ stop ∷ [])
      (tick (9, cached) ∷ stop ∷ []) world
