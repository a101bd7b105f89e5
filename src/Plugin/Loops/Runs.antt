-- ===== src/Plugin/Loops/Runs.antt =====
-- What the loops do with the signals that they receive, and when they can start.
use valon.Prelude.{
  ℕ, zero, suc, ◌≡◌, ◌≢◌, ◌↔◌, refl, Bool, true, false, Option, none, some, List, [], ◌∷◌, ◌++◌,
  Bytes,
}
use valon.Text.{Unicode}
use valon.Etcd.{Etcd}
use valon.Plugin.Cache.{PeerInfo}
use valon.Plugin.Monitor.{WgPeer, poll_wireguard}
use valon.Plugin.Sync.{sync_to_etcd}
use valon.Plugin.World.{World, Config}
use valon.Plugin.Node.{Step, sync_round, poll, Reaches, here, then_step}
use valon.Plugin.Loops.{
  ℤ, pos, negsuc, or_default, wg_poll_interval, etcd_sync_interval, new_ticker, Signal, tick, stop,
  run_wg_monitor, run_etcd_sync,
}

abbrev pub is_negative : Option ℤ → Bool
is_negative none = false
is_negative (some (pos n)) = false
is_negative (some (negsuc n)) = true

ticker-or_default :
    (n : ℕ) (setting : Option ℤ)
    → (new_ticker (or_default (suc n) setting) ≡ false) ↔ (is_negative setting ≡ true)
unfolding or_default
ticker-or_default n none = ((λ h. cc), (λ h. cc))
ticker-or_default n (some (pos zero)) = ((λ h. cc), (λ h. cc))
ticker-or_default n (some (pos (suc m))) = ((λ h. cc), (λ h. cc))
ticker-or_default n (some (negsuc m)) = ((λ h. refl), (λ h. refl))

-- No ticker can be made for the interval of a loop exactly if the Corefile sets a negative one: an
-- interval that is missing or zero is replaced by the default.
pub tickers_panic_iff :
    (wg_poll etcd_sync : Option ℤ)
    → ((new_ticker (wg_poll_interval wg_poll) ≡ false) ↔ (is_negative wg_poll ≡ true))
      × ((new_ticker (etcd_sync_interval etcd_sync) ≡ false) ↔ (is_negative etcd_sync ≡ true))
unfolding wg_poll_interval etcd_sync_interval
tickers_panic_iff wg_poll etcd_sync =
    (ticker-or_default 999_999_999 wg_poll, ticker-or_default 9_999_999_999 etcd_sync)

or_default-ne_zero : (n : ℕ) (o : Option ℤ) → or_default (suc n) o ≢ pos 0
unfolding or_default
or_default-ne_zero n none h = absurd cc
or_default-ne_zero n (some (pos zero)) h = absurd cc
or_default-ne_zero n (some (pos (suc m))) h = absurd cc
or_default-ne_zero n (some (negsuc m)) h = absurd cc

pub wg_poll_interval-ne_zero : (o : Option ℤ) → wg_poll_interval o ≢ pos 0
unfolding wg_poll_interval
wg_poll_interval-ne_zero o = or_default-ne_zero 999_999_999 o

pub etcd_sync_interval-ne_zero : (o : Option ℤ) → etcd_sync_interval o ≢ pos 0
unfolding etcd_sync_interval
etcd_sync_interval-ne_zero o = or_default-ne_zero 9_999_999_999 o

module _ {S : Type 0} (e : Etcd S) where
  monitor_stopped :
      (before after : List (Signal (ℕ × Option (List WgPeer)))) (w : World S)
      → run_wg_monitor e (before ++ stop ∷ after) w ≡ run_wg_monitor e before w
  unfolding run_wg_monitor
  monitor_stopped [] after w = refl
  monitor_stopped (stop ∷ before) after w = refl
  monitor_stopped (tick (now, peers) ∷ before) after w =
      monitor_stopped before after (poll_wireguard e now peers w)

  sync_stopped :
      (before after : List (Signal (ℕ × List (Bytes × PeerInfo)))) (w : World S)
      → run_etcd_sync e (before ++ stop ∷ after) w ≡ run_etcd_sync e before w
  unfolding run_etcd_sync
  sync_stopped [] after w = refl
  sync_stopped (stop ∷ before) after w = refl
  sync_stopped (tick (now, entries) ∷ before) after w =
      sync_stopped before after (sync_to_etcd e now entries w)

  module _ (u : Unicode) (v : Config) where
    step_first : (w x y : World S) → Step e u v w x → Reaches e u v x y → Reaches e u v w y
    step_first w x y step here = then_step w x here step
    step_first w x y step (then_step z y' run last) =
        then_step z y' (step_first w x z step run) last

    pub monitor-Reaches :
        (signals : List (Signal (ℕ × Option (List WgPeer)))) (w : World S)
        → Reaches e u v w (run_wg_monitor e signals w)
    unfolding run_wg_monitor
    monitor-Reaches [] w = here
    monitor-Reaches (stop ∷ signals) w = here
    monitor-Reaches (tick (now, peers) ∷ signals) w =
        step_first w (poll_wireguard e now peers w) _ (poll now peers)
          (monitor-Reaches signals (poll_wireguard e now peers w))

    pub sync-Reaches :
        (signals : List (Signal (ℕ × List (Bytes × PeerInfo)))) (w : World S)
        → Reaches e u v w (run_etcd_sync e signals w)
    unfolding run_etcd_sync
    sync-Reaches [] w = here
    sync-Reaches (stop ∷ signals) w = here
    sync-Reaches (tick (now, entries) ∷ signals) w =
        step_first w (sync_to_etcd e now entries w) _ (sync_round now entries)
          (sync-Reaches signals (sync_to_etcd e now entries w))

    -- Each of the two loops, whatever signals it receives, takes the plugin through steps of its
    -- handlers and loops only, and nothing that it receives after the stop has an effect.
    loops-Reaches :
        (polls : List (Signal (ℕ × Option (List WgPeer))))
        (rounds : List (Signal (ℕ × List (Bytes × PeerInfo)))) (w : World S)
        → Reaches e u v w (run_wg_monitor e polls w)
          × Reaches e u v w (run_etcd_sync e rounds w)
          × ((after : List (Signal (ℕ × Option (List WgPeer))))
              → run_wg_monitor e (polls ++ stop ∷ after) w ≡ run_wg_monitor e polls w)
          × ((after : List (Signal (ℕ × List (Bytes × PeerInfo))))
              → run_etcd_sync e (rounds ++ stop ∷ after) w ≡ run_etcd_sync e rounds w)
    loops-Reaches polls rounds w = (
      monitor-Reaches polls w,
      sync-Reaches rounds w,
      λ after. monitor_stopped polls after w,
      λ after. sync_stopped rounds after w,
    )
