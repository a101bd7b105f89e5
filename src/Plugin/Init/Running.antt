-- ===== src/Plugin/Init/Running.antt =====
-- The loops (coredns-plugin/valon/wg_monitor.go and etcd_sync.go) with the intervals that Init of
-- coredns-plugin/valon/valon.go gives them.
use valon.Prelude.{
  ℕ, ◌≡◌, ◌↔◌, refl, Bool, true, false, Option, none, some, List, Bytes, Bool-cases, inl, inr,
  if◌then◌else◌,
}
use valon.Text.{Unicode}
use valon.Etcd.{Etcd}
use valon.Plugin.Cache.{PeerInfo}
use valon.Plugin.Monitor.{WgPeer}
use valon.Plugin.World.{World, Config}
use valon.Plugin.Node.{Reaches}
use valon.Plugin.Setup.{Settings}
use valon.Plugin.Init.{with_intervals}
use valon.Plugin.Loops.{
  ℤ, new_ticker, wg_poll_interval, etcd_sync_interval, Signal, run_wg_monitor, run_etcd_sync,
  start_wg_monitor, start_etcd_sync,
}
use valon.Plugin.Loops.Runs.{is_negative, tickers_panic_iff, monitor-Reaches, sync-Reaches}

module _ {S : Type 0} (e : Etcd S) (u : Unicode) (c : Config) where
  -- a panic, for a setting that is negative, or a run of steps of the plugin, for any other
  abbrev pub Runs : Option ℤ → World S → Option (World S) → Type 0
  Runs setting w none = is_negative setting ≡ true
  Runs setting w (some after) = (is_negative setting ≡ false) × Reaches e u c w after

  Runs-ticker :
      (setting : Option ℤ) (ticker : Bool) (w after : World S)
      → (ticker ≡ false) ↔ (is_negative setting ≡ true)
      → Reaches e u c w after
      → Runs setting w (if ticker then some after else none)
  Runs-ticker setting false w after panics run = panics.0 refl
  Runs-ticker setting true w after panics run = elim (Bool-cases (is_negative setting)) [
    | inl negative ↦ let never = panics.1 negative in absurd cc
    | inr other ↦ (other, run)
  ]

  -- With the settings as Init completes them, each of the two loops panics if the Corefile sets a
  -- negative interval for it, and with any other setting of its interval, or none, takes the plugin
  -- through steps of its handlers and loops, whatever it receives.
  pub loops-Runs :
      (v : Settings ℤ) (polls : List (Signal (ℕ × Option (List WgPeer))))
      (rounds : List (Signal (ℕ × List (Bytes × PeerInfo)))) (w : World S)
      → Runs v.wg_poll_interval w (start_wg_monitor e (with_intervals v) polls w)
        × Runs v.etcd_sync_interval w (start_etcd_sync e (with_intervals v) rounds w)
  unfolding start_wg_monitor start_etcd_sync
  loops-Runs v polls rounds w =
      let (polls_panic, syncs_panic) = tickers_panic_iff v.wg_poll_interval v.etcd_sync_interval in
      (
        Runs-ticker v.wg_poll_interval (new_ticker (wg_poll_interval v.wg_poll_interval)) w
            (run_wg_monitor e polls w) polls_panic (monitor-Reaches e u c polls w),
        Runs-ticker v.etcd_sync_interval (new_ticker (etcd_sync_interval v.etcd_sync_interval)) w
            (run_etcd_sync e rounds w) syncs_panic (sync-Reaches e u c rounds w),
      )
