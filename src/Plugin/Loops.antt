-- ===== src/Plugin/Loops.antt =====
-- The loops that Init starts (coredns-plugin/valon/wg_monitor.go, startWgMonitor, and
-- etcd_sync.go, startEtcdSync), and their intervals (valon.go, Init). A loop is run on what its
-- select receives, in that order: a tick, with what the round reads from outside, or the stop.
pub mod Runs
use valon.Prelude.{
  ℕ, zero, suc, ◌*◌, Bool, true, false, Option, none, some, List, [], ◌∷◌, Bytes, if◌then◌else◌,
}
use valon.Etcd.{Etcd}
use valon.Plugin.Cache.{PeerInfo}
use valon.Plugin.Monitor.{WgPeer, poll_wireguard}
use valon.Plugin.Setup.{Settings}
use valon.Plugin.Sync.{sync_to_etcd}
use valon.Plugin.World.{World}

-- A duration in nanoseconds. The numbers of the code are 64 bits wide; nothing is computed with
-- them here.
pub data ℤ : Type 0 where
  pos negsuc : ℕ → ℤ

abbrev is_zero : ℤ → Bool
is_zero (pos zero) = true
is_zero (pos (suc n)) = false
is_zero (negsuc n) = false

abbrev pub second : ℕ
second = 1_000_000_000

-- a setting of the Corefile, 0 if there is none, or the default
or_default : ℕ → Option ℤ → ℤ
or_default default none = pos default
or_default default (some d) = if is_zero d then pos default else d

unfoldable pub wg_poll_interval : Option ℤ → ℤ
unfolding or_default
wg_poll_interval setting = or_default second setting

unfoldable pub etcd_sync_interval : Option ℤ → ℤ
unfolding or_default
etcd_sync_interval setting = or_default (10 * second) setting

-- time.NewTicker, which panics unless the interval is greater than zero
abbrev pub new_ticker : ℤ → Bool
new_ticker (pos zero) = false
new_ticker (pos (suc n)) = true
new_ticker (negsuc n) = false

pub data Signal (A : Type 0) : Type 0 where
  tick : A → Signal A
  stop : Signal A

-- a setting of the plugin, 0 if it is not set
abbrev interval_of : Option ℤ → ℤ
interval_of none = pos zero
interval_of (some d) = d

-- The for loops of the two functions, from a ticker that could be made.
module _ {S : Type 0} (e : Etcd S) where
  unfoldable pub run_wg_monitor : List (Signal (ℕ × Option (List WgPeer))) → World S → World S
  run_wg_monitor [] w = w
  run_wg_monitor (stop ∷ signals) w = w
  run_wg_monitor (tick (now, peers) ∷ signals) w =
      run_wg_monitor signals (poll_wireguard e now peers w)

  unfoldable pub run_etcd_sync : List (Signal (ℕ × List (Bytes × PeerInfo))) → World S → World S
  run_etcd_sync [] w = w
  run_etcd_sync (stop ∷ signals) w = w
  run_etcd_sync (tick (now, entries) ∷ signals) w =
      run_etcd_sync signals (sync_to_etcd e now entries w)

  -- `none` is the panic of NewTicker
  unfoldable pub start_wg_monitor :
      Settings ℤ → List (Signal (ℕ × Option (List WgPeer))) → World S → Option (World S)
  unfolding run_wg_monitor
  start_wg_monitor v signals w =
      if new_ticker (interval_of v.wg_poll_interval) then some (run_wg_monitor signals w) else none

  unfoldable pub start_etcd_sync :
      Settings ℤ → List (Signal (ℕ × List (Bytes × PeerInfo))) → World S → Option (World S)
  unfolding run_etcd_sync
  start_etcd_sync v signals w =
      if new_ticker (interval_of v.etcd_sync_interval) then some (run_etcd_sync signals w) else none
